-- ===== src/Prelude/Texts.antt =====
-- A JavaScript string as the list of its code units, and the string methods that the code uses.
use Prim.Native.Nat.{ℕ, ◌+◌}
use Prim.Native.Char.{code}
use Prim.Native.String.{String}
use mathlib.Core.Path.{◌≡◌, refl}
use mathlib.Core.Logic.{◌↔◌}
use mathlib.Core.Bool.{Bool, true, false, ◌&&◌, ◌||◌}
use mathlib.Core.List.{List, [], ◌∷◌, ◌++◌, map}
use mathlib.Core.Option.{Option, none, some}
use native.Mathlib.Omega.{arith}
use guardian_wallet.Prelude.Tests.{leb, ◌==◌, if◌then◌else◌}
use guardian_wallet.Prelude.Lists.{take, drop, any}

abbrev pub Text : Type 0
Text = List ℕ

-- A literal.
abbrev pub codes : String → Text
codes String.[] = []
codes (String.◌∷◌ c s) = code c ∷ codes s

-- `===` on strings.
unfoldable pub text_eq : Text → Text → Bool
text_eq [] [] = true
text_eq [] (_ ∷ _) = false
text_eq (_ ∷ _) [] = false
text_eq (x ∷ xs) (y ∷ ys) = x == y && text_eq xs ys

pub text_eq_iff : (a b : Text) → (text_eq a b ≡ true) ↔ (a ≡ b)
unfolding text_eq
text_eq_iff [] [] = ground arith
text_eq_iff [] (_ ∷ _) = ground arith
text_eq_iff (_ ∷ _) [] = ground arith
text_eq_iff (x ∷ xs) (y ∷ ys) = ground (arith, text_eq_iff xs ys)

pub text_eq_refl : (a : Text) → text_eq a a ≡ true
text_eq_refl a = (text_eq_iff a a).1 refl

-- The empty string is falsy.
abbrev pub is_empty : Text → Bool
is_empty [] = true
is_empty (_ ∷ _) = false

-- `toLowerCase` on one code unit, over the ASCII letters: the code applies it to hexadecimal text
-- and to addresses of mail.
unfoldable pub lower_code : ℕ → ℕ
lower_code c = if leb b'A' c && leb c b'Z' then c + 32 else c

unfoldable pub to_lower : Text → Text
unfolding lower_code
to_lower s = map lower_code s

-- Lower case is stable.
pub to_lower_idem : (s : Text) → to_lower (to_lower s) ≡ to_lower s
unfolding to_lower
to_lower_idem [] = refl
to_lower_idem (c ∷ s) = ground (arith, to_lower_idem s)

-- `s.slice(0, n)` and `s.slice(n)`.
abbrev pub slice_to : ℕ → Text → Text
slice_to n s = take n s

abbrev pub slice_from : ℕ → Text → Text
slice_from n s = drop n s

-- `if (x)` on an optional string: `undefined` and the empty string are falsy.
abbrev pub truthy : Option Text → Option Text
truthy none = none
truthy (some []) = none
truthy (some (c ∷ s)) = some (c ∷ s)

-- `xs.includes(x)` on an array of strings.
unfoldable pub includes : List Text → Text → Bool
includes [] x = false
includes (y ∷ ys) x = text_eq y x || includes ys x

-- `s.split(c)` for one separator: the part read so far comes first.
unfoldable pub split_at : ℕ → Text → Text → List Text
split_at sep part [] = part ∷ []
split_at sep part (c ∷ s) =
    let closed = part ∷ split_at sep [] s in
    let longer = split_at sep (part ++ c ∷ []) s in if c == sep then closed else longer

unfoldable pub split : ℕ → Text → List Text
unfolding split_at
split sep s = split_at sep [] s

-- `s.includes(c)` for one code unit.
unfoldable pub includes_code : ℕ → Text → Bool
includes_code c s = any (λ d. d == c) s
