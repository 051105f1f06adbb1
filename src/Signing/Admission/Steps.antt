-- ===== src/Signing/Admission/Steps.antt =====
-- The steps of a session's start that let a request through or refuse it.
use guardian_wallet.Prelude.{
  ℕ, ◌<◌, ◌≡◌, refl, ap, Bool, true, false, Option, none, some, List, [], ◌∷◌, length, ltb,
  Bool-cases, inl, inr, arith, if◌then◌else◌,
}
use guardian_wallet.Prelude.Effects.{
  Exception, Result, ok, throws, Reply, returns, rejects, M, and_then, require, await,
}
use guardian_wallet.Policy.Types.{
  Number, PolicyContext, PolicyDocument, PolicyResult, PolicyViolation,
}
use guardian_wallet.Policy.Criteria.{Host}
use guardian_wallet.Policy.Engine.{evaluate}
use guardian_wallet.Policy.AlwaysOn.{run_always_on_checks}
use guardian_wallet.Signing.Types.{
  Signer, is_active, Service, AuditEntry, TransactionRequest, max_concurrent_sessions,
}
use guardian_wallet.Signing.Sessions.{create_request_caught}
use guardian_wallet.Signing.Populate.{
  ChainReplies, populate_transaction, nonce_of, gas_limit_of, fees_of,
}
use guardian_wallet.Signing.Checks.{
  Refusals, judge, check_document, check_policy, require_room, require_signer,
}
use guardian_wallet.Signing.Invariant.Openings.{IsSame}

module _ {F : Type 0} (s : Service F) where
  -- A step that passes leaves the state, and one that stops changes nothing but the log.
  pub data Step {A : Type 0} (Good : A → Type 0) : Result A × Service F → Type 0 where
    passed : (a : A) → Good a → Step Good (ok a, s)
    stopped : (e : Exception) (t : Service F) → IsSame s t → Step Good (throws e, t)

  -- A handler that is stopped on the way, or reaches its last step.
  pub data Outcome {A : Type 0} (Q : Result A × Service F → Type 0)
      : Result A × Service F → Type 0 where
    reached : (p : Result A × Service F) → Q p → Outcome Q p
    stopped_early : (e : Exception) (t : Service F) → IsSame s t → Outcome Q (throws e, t)

  pub bind-Outcome :
      {A B : Type 0} {Good : A → Type 0} (Q : Result B × Service F → Type 0)
      (p : Result A × Service F) (f : A → M (Service F) B)
      → Step Good p
      → ((a : A) → Good a → Outcome Q (f a s))
      → Outcome Q (and_then p f)
  bind-Outcome Q _ f (passed a g) k = k a g
  bind-Outcome Q _ f (stopped e t h) k = stopped_early e t h

  pub map-Step :
      {A : Type 0} {Good Better : A → Type 0} {p : Result A × Service F}
      → ((a : A) → Good a → Better a)
      → Step Good p
      → Step Better p
  map-Step k (passed a g) = passed a (k a g)
  map-Step k (stopped e t h) = stopped e t h

  pub IsSame-refl : IsSame s s
  IsSame-refl = record { sessions = refl; live = refl; next = omega arith }

  pub await-Step : {A : Type 0} (r : Reply A) → Step (λ a. r ≡ returns a) (await r s)
  await-Step (returns a) = passed a refl
  await-Step (rejects e) = stopped e s IsSame-refl

  pub require-Step : (b : Bool) (e : Exception) → Step (λ _. b ≡ true) (require b e s)
  require-Step true e = passed tt refl
  require-Step false e = stopped e s IsSame-refl

  pub require_room-Step : Step (λ _. length s.sessions < max_concurrent_sessions) (require_room s)
  unfolding require_room
  require_room-Step = elim (Bool-cases (ltb (length s.sessions) max_concurrent_sessions)) [
    | inl room ↦ rw (room, require_room) (passed tt (ground arith))
    | inr full ↦ rw (full, require_room) (stopped _ s IsSame-refl)
  ]

  pub require_signer-Step :
      (found : Option Signer)
      → Step
          (λ signer. (found ≡ some signer) × (is_active signer.status ≡ true))
          (require_signer found s)
  unfolding require_signer
  require_signer-Step none = stopped _ s IsSame-refl
  require_signer-Step (some signer) = elim (Bool-cases (is_active signer.status)) [
    | inl usable ↦ rw (usable, require_signer) (passed signer (refl, usable))
    | inr unusable ↦ rw (unusable, require_signer) (stopped _ s IsSame-refl)
  ]

  -- A computation that leaves the state.
  pure-Step : {A : Type 0} (p : Result A × Service F) → p.1 ≡ s → Step (λ a. p ≡ (ok a, s)) p
  pure-Step (ok a, t) e = rw e (passed a refl)
  pure-Step (throws x, t) e = stopped x t (record {
    sessions = ap (λ r. r.sessions) e;
    live = ap (λ r. r.live_buffers) e;
    next = rw e (omega arith);
  })

  pub populate-Step :
      (tx : TransactionRequest) (chain : ChainReplies)
      → Step
          (λ populated. populate_transaction tx chain s ≡ (ok populated, s))
          (populate_transaction tx chain s)
  unfolding populate_transaction nonce_of gas_limit_of fees_of
  populate-Step tx chain = pure-Step (populate_transaction tx chain s) (ground arith)

module _ {F : Type 0} ⦃num : Number F⦄ (host : Host) where
  -- The always-on checks found nothing, and the document that is in force allows the request.
  pub record HasPassed (find_document : Reply (Option (PolicyDocument F))) (ms : ℕ)
      (ctx : PolicyContext F) : Type 0 where
    pub secure : run_always_on_checks host.abi ctx ≡ []
    pub document : Option (PolicyDocument F)
    pub in_force : find_document ≡ returns document
    pub allowed : (evaluate host ctx ms document).allowed ≡ true

module _ {F : Type 0} ⦃num : Number F⦄ (s : Service F) (host : Host) where
  caught-IsSame :
      (r : Reply (Unit {0})) (entry : AuditEntry F) → IsSame s (create_request_caught r entry s)
  unfolding create_request_caught
  caught-IsSame (returns _) entry = record { sessions = refl; live = refl; next = omega arith }
  caught-IsSame (rejects e) entry = IsSame-refl s

  judge-Step :
      (refusals : Refusals F) (result : PolicyResult F)
      → Step s (λ _. result.allowed ≡ true) (judge refusals result s)
  unfolding judge
  judge-Step refusals result = judged result.allowed refl
    where
      judged :
          (b : Bool)
          → result.allowed ≡ b
          → Step s
              (λ _. result.allowed ≡ true)
              (if b then (ok result, s) else (
                throws (refusals.policy_error result.violations),
                create_request_caught refusals.written (refusals.policy_row result) s,
              ))
      judged true e = passed result e
      judged false e = stopped _ _ (caught-IsSame _ _)

  document-Step :
      (refusals : Refusals F) (find_document : Reply (Option (PolicyDocument F))) (ms : ℕ)
      (ctx : PolicyContext F)
      → run_always_on_checks host.abi ctx ≡ []
      → Step s
          (λ _. HasPassed host find_document ms ctx)
          (check_document host refusals find_document ms ctx s)
  unfolding check_document
  document-Step refusals (rejects e) ms ctx secure = stopped e s (IsSame-refl s)
  document-Step refusals (returns d) ms ctx secure =
      map-Step s
        (λ _ allowed. record { secure = secure; document = d; in_force = refl; allowed = allowed })
        (judge-Step refusals (evaluate host ctx ms d))

  pub check_policy-Step :
      (refusals : Refusals F) (find_document : Reply (Option (PolicyDocument F))) (ms : ℕ)
      (ctx : PolicyContext F)
      → Step s
          (λ _. HasPassed host find_document ms ctx)
          (check_policy host refusals find_document ms ctx s)
  unfolding check_policy
  check_policy-Step refusals find_document ms ctx =
      by_checks (run_always_on_checks host.abi ctx) refl
    where
      by_checks :
          (vs : List (PolicyViolation F))
          → run_always_on_checks host.abi ctx ≡ vs
          → Step s {A = PolicyResult F}
              (λ _. HasPassed host find_document ms ctx)
              (elim vs [
                | v ∷ vs ↦ (
                  throws (refusals.security_error (v ∷ vs)),
                  create_request_caught refusals.written (refusals.security_row (v ∷ vs)) s,
                )
                | [] ↦ check_document host refusals find_document ms ctx s
              ])
      by_checks [] e = document-Step refusals find_document ms ctx e
      by_checks (v ∷ vs) e = stopped _ _ (caught-IsSame _ _)
