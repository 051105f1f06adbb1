-- ===== src/Prelude/Effects.antt =====
-- Handlers that throw, over a state: a request handler takes the state of its service and returns
-- what it returns or throws, with the state that it leaves. An awaited call of something outside the
-- service is a reply, which is an argument of the handler.
use guardian_wallet.Prelude.{◌≡◌, refl, ◌⊎◌, inl, inr, Bool, true, false, List, Text}
use guardian_wallet.Policy.Types.{PolicyType}

-- The exceptions of NestJS that the services throw, and any other error. `blocked` is the
-- `ForbiddenException` that lists violations, each with its type and its reason.
pub data Exception : Type 0 where
  bad_request forbidden not_found conflict gone too_many_requests service_unavailable :
      Text → Exception
  internal : Text → Exception
  blocked : Text → List (PolicyType × Text) → Exception
  failure : Text → Exception

pub data Result (A : Type 0) : Type 0 where
  ok : A → Result A
  throws : Exception → Result A

pub data Reply (A : Type 0) : Type 0 where
  returns : A → Reply A
  rejects : Exception → Reply A

pub Reply-cases :
    {A : Type 0} (r : Reply A) → ((a : A) × (r ≡ returns a)) ⊎ ((e : Exception) × (r ≡ rejects e))
Reply-cases (returns a) = inl (a, refl)
Reply-cases (rejects e) = inr (e, refl)

abbrev pub M : Type 0 → Type 0 → Type 0
M S A = S → Result A × S

-- `abbrev` on a helper of its own, so that a bind computes where its first part is known.
abbrev pub and_then : {S A B : Type 0} → Result A × S → (A → M S B) → Result B × S
and_then (ok a, s) f = f a s
and_then (throws e, s) f = (throws e, s)

infixl 5 ◌>>=◌ ◌>>◌
abbrev pub ◌>>=◌ : {S A B : Type 0} → M S A → (A → M S B) → M S B
◌>>=◌ m f s = and_then (m s) f

abbrev pub ◌>>◌ : {S B : Type 0} → M S (Unit {0}) → M S B → M S B
◌>>◌ m k s = and_then (m s) (λ _. k)

abbrev pub return : {S A : Type 0} → A → M S A
return a s = (ok a, s)

abbrev pub throw : {S A : Type 0} → Exception → M S A
throw e s = (throws e, s)

-- `if (!b) throw e`
abbrev pub require : {S : Type 0} → Bool → Exception → M S (Unit {0})
require true e s = (ok tt, s)
require false e s = (throws e, s)

abbrev pub await : {S A : Type 0} → Reply A → M S A
await (returns a) s = (ok a, s)
await (rejects e) s = (throws e, s)

abbrev pub handled : {S A : Type 0} → Result A × S → (Exception → M S A) → Result A × S
handled (ok a, s) h = (ok a, s)
handled (throws e, s) h = h e s

-- `try { m } catch (e) { h e }`
abbrev pub try_catch : {S A : Type 0} → M S A → (Exception → M S A) → M S A
try_catch m h s = handled (m s) h

abbrev pub finished : {S A : Type 0} → Result A × S → (S → S) → Result A × S
finished (r, s) f = (r, f s)

-- `try { m } finally { f }` for a cleanup that cannot throw.
abbrev pub try_finally : {S A : Type 0} → M S A → (S → S) → M S A
try_finally m f s = finished (m s) f
