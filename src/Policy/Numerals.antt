-- ===== src/Policy/Numerals.antt =====
-- Numbers read from text: `safeBigInt` and `compareValues` of policies/evaluators/helpers.ts, and
-- `Number.parseInt(s, 10)`.
use guardian_wallet.Prelude.{
  ℕ, ◌+◌, ◌-◌, ◌*◌, Bool, ◌&&◌, ◌||◌, Option, none, some, [], ◌∷◌, leb, ◌==◌, if◌then◌else◌, Text,
}
use guardian_wallet.Prelude.Int.{ℤ, pos, sub_ℕ, leb_ℤ, ltb_ℤ}
use guardian_wallet.Policy.Types.{ComparisonOperator, le, lt, ge, gt, eq}

abbrev pub is_digit : ℕ → Bool
is_digit c = leb b'0' c && leb c b'9'

-- The value of a text of decimal digits; `none` where another character stands.
unfoldable pub digits_from : ℕ → Text → Option ℕ
digits_from acc [] = some acc
digits_from acc (c ∷ s) =
    let rest = digits_from (acc * 10 + (c - b'0')) s in if is_digit c then rest else none

-- `/^\d+$/`, with the value.
unfoldable pub natural : Text → Option ℕ
unfolding digits_from
natural [] = none
natural (c ∷ s) = digits_from 0 (c ∷ s)

abbrev pub negated : Option ℕ → Option ℤ
negated none = none
negated (some n) = some (sub_ℕ 0 n)

abbrev pub unsigned : Option ℕ → Option ℤ
unsigned none = none
unsigned (some n) = some (pos n)

-- `none` where the source throws a `RangeError`.
unfoldable pub safe_big_int : Text → Option ℤ
unfolding natural
safe_big_int [] = none
safe_big_int (c ∷ s) = if c == b'-' then negated (natural s) else unsigned (natural (c ∷ s))

unfoldable pub compare_values : ℤ → ComparisonOperator → ℤ → Bool
compare_values a le b = leb_ℤ a b
compare_values a lt b = ltb_ℤ a b
compare_values a ge b = leb_ℤ b a
compare_values a gt b = ltb_ℤ b a
compare_values a eq b = leb_ℤ a b && leb_ℤ b a

abbrev pub is_space : ℕ → Bool
is_space c = c == b' ' || (leb 9 c && leb c 13)

-- The digits at the front of a text.
unfoldable pub digit_prefix : ℕ → Text → ℕ
digit_prefix acc [] = acc
digit_prefix acc (c ∷ s) =
    let rest = digit_prefix (acc * 10 + (c - b'0')) s in if is_digit c then rest else acc

-- At least one digit, or NaN.
unfoldable pub digits_or_nan : Text → Option ℕ
unfolding digit_prefix
digits_or_nan [] = none
digits_or_nan (c ∷ s) = if is_digit c then some (digit_prefix 0 (c ∷ s)) else none

unfoldable pub signed_prefix : Text → Option ℤ
unfolding digits_or_nan
signed_prefix [] = none
signed_prefix (c ∷ s) =
    if c == b'-'
    then negated (digits_or_nan s)
    else unsigned (digits_or_nan (if c == b'+' then s else c ∷ s))

-- Leading white space is skipped; what follows the digits is ignored; `none` is NaN.
unfoldable pub parse_int : Text → Option ℤ
unfolding signed_prefix
parse_int [] = none
parse_int (c ∷ s) = let rest = parse_int s in if is_space c then rest else signed_prefix (c ∷ s)
