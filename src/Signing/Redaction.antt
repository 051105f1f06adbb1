-- ===== src/Signing/Redaction.antt =====
-- What an API-key caller (SIGNER_SERVER) learns from a refusal.
use guardian_wallet.Prelude.{
  ◌≡◌, refl, sym, ◌∙◌, ap, List, [], ◌∷◌, map, Option, Text, codes, or_else,
}
use guardian_wallet.Policy.Types.{PolicyType, PolicyViolation}
use guardian_wallet.Signing.Types.{signer_server}
use guardian_wallet.Signing.Checks.{
  security_violations, policy_violations, policy_reason, short_reason,
}

-- The part of a violation that an API-key caller may be told.
abbrev pub told : {F : Type 0} → PolicyViolation F → PolicyType × Option Text
told v = (v.type, short_reason v.config)

reply_of : PolicyType × Option Text → PolicyType × Text
reply_of (type, short) = (type, or_else short (codes "Policy check failed"))

reply_of_security : PolicyType → PolicyType × Text
reply_of_security type = (type, codes "Security check failed")

module _ {F : Type 0} where
  policy_violations-told :
      (vs : List (PolicyViolation F))
      → policy_violations signer_server vs ≡ map reply_of (map told vs)
  unfolding policy_violations reply_of
  policy_violations-told [] = refl
  policy_violations-told (v ∷ vs) =
      ap (λ rest. (v.type, policy_reason signer_server v) ∷ rest) (policy_violations-told vs)

  -- Two refusals by policy that differ in their reasons, thresholds and actual values only, in neither the
  -- types nor the short reasons, are told to an API-key caller in the same words.
  pub policy_violations-redacted :
      (vs ws : List (PolicyViolation F))
      → map told vs ≡ map told ws
      → policy_violations signer_server vs ≡ policy_violations signer_server ws
  policy_violations-redacted vs ws e =
      policy_violations-told vs ∙ ap (map reply_of) e ∙ sym (policy_violations-told ws)

  security_violations-told :
      (vs : List (PolicyViolation F))
      → security_violations signer_server vs ≡ map reply_of_security (map (λ v. v.type) vs)
  unfolding security_violations reply_of_security
  security_violations-told [] = refl
  security_violations-told (v ∷ vs) =
      ap (λ rest. (v.type, codes "Security check failed") ∷ rest) (security_violations-told vs)

  -- Two refusals by the always-on checks with the same types are told to an API-key caller in the same words.
  pub security_violations-redacted :
      (vs ws : List (PolicyViolation F))
      → map (λ v. v.type) vs ≡ map (λ v. v.type) ws
      → security_violations signer_server vs ≡ security_violations signer_server ws
  security_violations-redacted vs ws e =
      security_violations-told vs ∙ ap (map reply_of_security) e ∙ sym (security_violations-told ws)
