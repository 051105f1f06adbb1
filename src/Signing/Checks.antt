-- ===== src/Signing/Checks.antt =====
-- What `createSession` and `createMessageSession` check before they load key material: the two guards
-- at the top, the always-on checks and the policy, with the rows of the log and the exceptions of a
-- refusal.
use guardian_wallet.Prelude.{
  ℕ, Option, none, some, List, [], ◌∷◌, ◌++◌, map, if◌then◌else◌, ltb, Text, codes, length, or_else,
}
use guardian_wallet.Prelude.Effects.{
  Exception, forbidden, not_found, ok, throws, Reply, returns, rejects, M,
}
use guardian_wallet.Policy.Types.{
  Number, PolicyType, PolicyContext, PolicyDocument, PolicyViolation, PolicyResult, ViolationConfig,
  diagnosis,
}
use guardian_wallet.Policy.Criteria.{Host}
use guardian_wallet.Policy.Engine.{evaluate}
use guardian_wallet.Policy.AlwaysOn.{run_always_on_checks}
use guardian_wallet.Signing.Types.{
  SigningPath, is_active, Signer, AuditEntry, Service, max_concurrent_sessions,
}
use guardian_wallet.Signing.Sessions.{create_request_caught}
use guardian_wallet.Signing.Opening.{force_wasm}
use guardian_wallet.Signing.Rounds.{status_text}

-- `config?.shortReason`
abbrev pub short_reason : {F : Type 0} → ViolationConfig F → Option Text
short_reason (diagnosis c r short) = some short
short_reason _ = none

-- `violations.map(...)` of a security check: an API-key caller gets no detail.
unfoldable pub security_violations :
    {F : Type 0} → SigningPath → List (PolicyViolation F) → List (PolicyType × Text)
security_violations path vs =
    map (λ v. (v.type, if force_wasm path then v.reason else codes "Security check failed")) vs

-- `violations.map(...)` of a policy: an API-key caller gets the short reason at most.
abbrev pub policy_reason : {F : Type 0} → SigningPath → PolicyViolation F → Text
policy_reason path v =
    if force_wasm path
    then v.reason
    else or_else (short_reason v.config) (codes "Policy check failed")

unfoldable pub policy_violations :
    {F : Type 0} → SigningPath → List (PolicyViolation F) → List (PolicyType × Text)
policy_violations path vs = map (λ v. (v.type, policy_reason path v)) vs

unfoldable pub plain_violations : {F : Type 0} → List (PolicyViolation F) → List (PolicyType × Text)
plain_violations vs = map (λ v. (v.type, v.reason)) vs

unfoldable pub require_room : {F : Type 0} → M (Service F) (Unit {0})
require_room s =
    if ltb (length s.sessions) max_concurrent_sessions
    then (ok tt, s)
    else (throws (forbidden (codes "Too many concurrent signing sessions. Try again later.")), s)

unfoldable pub require_signer : {F : Type 0} → Option Signer → M (Service F) Signer
require_signer none s = (throws (not_found (codes "Signer not found")), s)
require_signer (some signer) s =
    if is_active signer.status
    then (ok signer, s)
    else (throws (forbidden (codes "Signer is " ++ status_text signer.status)), s)

-- What a handler does with a refusal: the rows that it writes, of the violations and for a policy of
-- the count and the time, whether the write returns, and what it tells the caller.
pub record Refusals (F : Type 0) : Type 0 where
  pub security_row : List (PolicyViolation F) → AuditEntry F
  pub policy_row : PolicyResult F → AuditEntry F
  pub written : Reply (Unit {0})
  pub security_error : List (PolicyViolation F) → Exception
  pub policy_error : List (PolicyViolation F) → Exception

module _ {F : Type 0} where
  -- Behind the policy engine.
  unfoldable pub judge : Refusals F → PolicyResult F → M (Service F) (PolicyResult F)
  judge refusals result s = if result.allowed then (ok result, s) else (
    throws (refusals.policy_error result.violations),
    create_request_caught refusals.written (refusals.policy_row result) s,
  )

module _ {F : Type 0} ⦃num : Number F⦄ (host : Host) where
  -- Behind the always-on checks: the document is looked up and evaluated.
  unfoldable pub check_document :
      Refusals F
      → Reply (Option (PolicyDocument F))
      → ℕ
      → PolicyContext F
      → M (Service F) (PolicyResult F)
  check_document refusals (rejects e) ms ctx s = (throws e, s)
  check_document refusals (returns d) ms ctx s = judge refusals (evaluate host ctx ms d) s

  unfoldable pub check_policy :
      Refusals F
      → Reply (Option (PolicyDocument F))
      → ℕ
      → PolicyContext F
      → M (Service F) (PolicyResult F)
  check_policy refusals find_document ms ctx s = elim (run_always_on_checks host.abi ctx) [
    | v ∷ vs ↦ (
      throws (refusals.security_error (v ∷ vs)),
      create_request_caught refusals.written (refusals.security_row (v ∷ vs)) s,
    )
    | [] ↦ check_document refusals find_document ms ctx s
  ]
