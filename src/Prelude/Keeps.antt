-- ===== src/Prelude/Keeps.antt =====
-- What a handler keeps of a state, from its parts.
use guardian_wallet.Prelude.{◌≡◌, refl, Bool, true, false}
use guardian_wallet.Prelude.Effects.{
  Exception, Result, ok, throws, Reply, returns, rejects, M, and_then, ◌>>=◌, ◌>>◌, await, require,
}

abbrev pub Throws : {A : Type 0} → Result A → Type 0
Throws r = (e : Exception) × (r ≡ throws e)

module _ {S : Type 0} (P : S → Type 0) where
  abbrev pub Keeps : {A : Type 0} → M S A → Type 0
  Keeps m = (s : S) → P s → P (m s).1

  pub and_then-keeps :
      {A B : Type 0} (m : Result A × S) (k : A → M S B)
      → P m.1
      → ((a : A) → Keeps (k a))
      → P (and_then m k).1
  and_then-keeps (ok a, s) k h keeps = keeps a s h
  and_then-keeps (throws e, s) k h keeps = h

  pub bind-Keeps :
      {A B : Type 0} (m : M S A) (k : A → M S B)
      → Keeps m
      → ((a : A) → Keeps (k a))
      → Keeps (m >>= k)
  bind-Keeps m k first keeps s h = and_then-keeps (m s) k (first s h) keeps

  pub then-Keeps :
      {B : Type 0} (m : M S (Unit {0})) (k : M S B) → Keeps m → Keeps k → Keeps (m >> k)
  then-Keeps m k first keeps s h = and_then-keeps (m s) (λ _. k) (first s h) (λ _. keeps)

  pub await-Keeps : {A : Type 0} (r : Reply A) → Keeps (await r)
  await-Keeps (returns a) s h = h
  await-Keeps (rejects e) s h = h

  pub require-Keeps : (b : Bool) (e : Exception) → Keeps (require b e)
  require-Keeps true e s h = h
  require-Keeps false e s h = h

  pub and_then-Throws :
      {A B : Type 0} (m : Result A × S) (k : A → M S B)
      → P m.1
      → ((a : A) (s : S) → P s → Throws (k a s).0)
      → Throws (and_then m k).0
  and_then-Throws (ok a, s) k h never = never a s h
  and_then-Throws (throws e, s) k h never = (e, refl)

-- What a chain that returns has done.
pub and_then-ok :
    {S A B : Type 0} (m : Result A × S) (k : A → M S B) (b : B)
    → (and_then m k).0 ≡ ok b
    → (a : A) × (s : S) × (m ≡ (ok a, s)) × (and_then m k ≡ k a s)
and_then-ok (ok a, s) k b e = (a, s, refl, refl)
and_then-ok (throws x, s) k b e = cc
