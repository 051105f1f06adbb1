-- ===== src/Tests/Policies.antt =====
-- The theorems on the engine at concrete policies.
use guardian_wallet.Prelude.{
  Text, ℕ, ◌≡◌, ◌↔◌, refl, true, false, none, some, List, [], ◌∷◌, codes, text_eq, inl, to_lower,
  includes,
}
use guardian_wallet.Policy.Types.{
  PolicyContext, PolicyRule, accept, evm_address, rate_limit, time_window, is_in, default_deny,
  diagnosis,
}
use guardian_wallet.Policy.Criteria.{evaluate_criterion}
use guardian_wallet.Policy.Criteria.Limits.{rate_limit_evaluate, time_window_evaluate}
use guardian_wallet.Policy.Criteria.Targets.{
  evm_address_evaluate, addresses_pass, addresses_to_check,
}
use guardian_wallet.Policy.Criteria.Reasons.{fail_reason}
use guardian_wallet.Policy.Engine.{evaluate, evaluate_rules, run_rules, first_failed, decided}
use guardian_wallet.Policy.Engine.Decision.{IsDecidedBy, evaluate-allowed_iff, Applies, count_live}
use guardian_wallet.Policy.Engine.Monotone.{keep, insert_reject, done, evaluate_rules_mono}
use guardian_wallet.Policy.Engine.Diagnosis.{IsDiagnosed, evaluate_diagnosed}
use guardian_wallet.Policy.AlwaysOn.{IsMalicious, run_always_on_checks}
use guardian_wallet.Policy.AlwaysOn.Calldata.{IsZeroMinimumSwap, IsUnlimitedApproval}
use guardian_wallet.Policy.AlwaysOn.Meaning.{run_always_on_checks-passes_iff}
use guardian_wallet.Tests.Samples.{
  decoder, numbers, host, context, to_bob, few_requests, switched_off, document_of, bob,
}

-- The second rule does not apply (two requests in the last hour), the third does.
abbrev rules : List (PolicyRule ℕ)
rules = switched_off ∷ few_requests ∷ to_bob ∷ []

bob_passes : evaluate_criterion host (evm_address is_in (bob ∷ []) none) context ≡ true
unfolding evaluate_criterion evm_address_evaluate addresses_pass addresses_to_check includes text_eq
    to_lower
bob_passes = refl

few_passes : evaluate_criterion host (rate_limit 10) context ≡ true
unfolding evaluate_criterion rate_limit_evaluate
few_passes = refl

too_many : evaluate_criterion host (rate_limit 2) context ≡ false
unfolding evaluate_criterion rate_limit_evaluate
too_many = refl

in_window : evaluate_criterion host (time_window 22 6) context ≡ true
unfolding evaluate_criterion time_window_evaluate
in_window = refl

off_fails : ¬ Applies host context switched_off
off_fails a = cc (a.0)

few_fails : ¬ Applies host context few_requests
few_fails a = cc (too_many, a.1.1.0)

evaluate-allowed_iff_example :
    ((evaluate host context 1 (some (document_of rules))).allowed ≡ true)
    ↔ ((r : PolicyRule ℕ) × IsDecidedBy host context rules r × (r.action ≡ accept))
evaluate-allowed_iff_example = evaluate-allowed_iff host context 1 (document_of rules)

bob_allowed :
    (evaluate_rules host context (codes "policy-1") 1 (switched_off ∷ to_bob ∷ [])).allowed ≡ true
unfolding evaluate_rules run_rules first_failed decided evaluate_criterion evm_address_evaluate
    addresses_pass addresses_to_check includes text_eq to_lower rate_limit_evaluate
bob_allowed = refl

evaluate_rules_mono_example :
    (evaluate_rules host context (codes "policy-1") 1 (to_bob ∷ [])).allowed ≡ true
evaluate_rules_mono_example =
    evaluate_rules_mono host context (codes "policy-1") 1 {new = switched_off ∷ to_bob ∷ []}
      {old = to_bob ∷ []} (insert_reject switched_off refl (keep to_bob done)) bob_allowed

abbrev undecided : List (PolicyRule ℕ)
undecided = switched_off ∷ few_requests ∷ []

abbrev diagnosed : IsDiagnosed host context undecided few_requests (rate_limit 2)
diagnosed = record {
  before = switched_off ∷ [];
  after = [];
  split = refl;
  earlier = (inl refl, tt);
  enabled = refl;
  action = refl;
  met = time_window 22 6 ∷ [];
  rest = [];
  criteria = refl;
  holds = (in_window, tt);
  unmet = too_many;
}

evaluate_diagnosed_example :
    ((evaluate host context 1 (some (document_of undecided))).allowed ≡ false)
    × ((evaluate host context 1 (some (document_of undecided))).violations
        ≡ record {
          policy_id = codes "policy-1";
          type = default_deny;
          reason = (fail_reason (rate_limit 2) context).detail;
          config =
              diagnosis
                (codes "rateLimit")
                (some (codes "Twice an hour"))
                (fail_reason (rate_limit 2) context).short;
        }
          ∷ [])
    × ((evaluate host context 1 (some (document_of undecided))).evaluated_count
        ≡ count_live 0 undecided)
evaluate_diagnosed_example =
    evaluate_diagnosed host context 1 (document_of undecided) few_requests (rate_limit 2)
      (off_fails, (few_fails, tt)) diagnosed

-- A call of exactInputSingle to Bob.
abbrev v3_swap : PolicyContext ℕ
v3_swap = record context { tx_data = some (codes "0x414bf389") }

run_always_on_checks-passes_iff_example : (run_always_on_checks decoder v3_swap ≡ []) ↔ (
    (¬ IsMalicious (some bob))
    × ((x : Text) → some (codes "0x414bf389") ≡ some x → ¬ IsZeroMinimumSwap decoder x)
    × ((x : Text) → some (codes "0x414bf389") ≡ some x → ¬ IsUnlimitedApproval decoder x))
run_always_on_checks-passes_iff_example = run_always_on_checks-passes_iff decoder v3_swap
