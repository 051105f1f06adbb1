-- ===== src/Policy/Engine.antt =====
-- The rules engine: packages/server/src/policies/rules-engine.provider.ts. The clock enters as the
-- number of milliseconds that the evaluation took.
pub mod Decision
pub mod Monotone
pub mod Diagnosis
use guardian_wallet.Prelude.{
  ℕ, ◌+◌, Bool, true, false, Option, none, some, List, [], ◌∷◌, if◌then◌else◌, Text, codes, or_else,
}
use guardian_wallet.Policy.Types.{
  Number, Criterion, criterion_type, RuleAction, accept, reject, PolicyRule, PolicyDocument,
  rule_reject, default_deny, ViolationConfig, empty, rule, diagnosis, PolicyViolation, PolicyResult,
  PolicyContext,
}
use guardian_wallet.Policy.Criteria.{Host, evaluate_criterion}
use guardian_wallet.Policy.Criteria.Reasons.{FailReason, fail_reason}

-- `rule.enabled === false`
abbrev pub is_disabled : Option Bool → Bool
is_disabled (some false) = true
is_disabled _ = false

-- `firstFailedCriterion` and `firstFailedRuleDesc`, which are set together.
pub record FirstFailure (F : Type 0) : Type 0 where
  pub criterion : Criterion F
  pub rule_description : Option Text

-- The first failure of an accept rule is kept.
unfoldable pub track :
    {F : Type 0} → PolicyRule F → Criterion F → Option (FirstFailure F) → Option (FirstFailure F)
track r c (some first) = some first
track r c none = elim r.action [
  | accept ↦ some (record { criterion = c; rule_description = r.description })
  | reject ↦ none
]

module _ {F : Type 0} ⦃num : Number F⦄ (host : Host) (ctx : PolicyContext F) where
  -- The inner loop: the first criterion that is not met, at which it breaks.
  unfoldable pub first_failed : List (Criterion F) → Option (Criterion F)
  first_failed [] = none
  first_failed (c ∷ cs) = if evaluate_criterion host c ctx then first_failed cs else some c

  -- The result of the first rule that matches.
  unfoldable pub decided : Text → ℕ → ℕ → PolicyRule F → PolicyResult F
  decided id ms count r = elim r.action [
    | accept ↦ record {
      allowed = true;
      violations = [];
      evaluated_count = count;
      evaluation_time_ms = ms;
    }
    | reject ↦ record {
      allowed = false;
      violations =
          record {
            policy_id = id;
            type = rule_reject;
            reason = or_else r.description (codes "Rejected by policy rule");
            config = rule r;
          }
          ∷ [];
      evaluated_count = count;
      evaluation_time_ms = ms;
    }
  ]

  abbrev pub denial_reason : Option (FirstFailure F) → Text
  denial_reason none = codes "No policy rule matched — default deny"
  denial_reason (some f) = (fail_reason f.criterion ctx).detail

  abbrev pub denial_config : Option (FirstFailure F) → ViolationConfig F
  denial_config none = empty
  denial_config (some f) =
      diagnosis (criterion_type f.criterion) f.rule_description (fail_reason f.criterion ctx).short

  -- The result when no rule matched.
  unfoldable pub denied : Text → ℕ → ℕ → Option (FirstFailure F) → PolicyResult F
  denied id ms count failed = record {
    allowed = false;
    violations =
        record {
          policy_id = id;
          type = default_deny;
          reason = denial_reason failed;
          config = denial_config failed;
        }
        ∷ [];
    evaluated_count = count;
    evaluation_time_ms = ms;
  }

  -- The outer loop, over `evaluatedCount` and the first failure.
  unfoldable pub run_rules :
      Text → ℕ → ℕ → Option (FirstFailure F) → List (PolicyRule F) → PolicyResult F
  run_rules id ms count failed [] = denied id ms count failed
  run_rules id ms count failed (r ∷ rs) = elim (is_disabled r.enabled) [
    | true ↦ run_rules id ms count failed rs
    | false ↦ elim (first_failed r.criteria) [
      | none ↦ decided id ms (count + 1) r
      | some c ↦ run_rules id ms (count + 1) (track r c failed) rs
    ]
  ]

  abbrev pub no_rules : Text → ℕ → PolicyResult F
  no_rules id ms = record {
    allowed = false;
    violations =
        record {
          policy_id = id;
          type = default_deny;
          reason = codes "Policy has no rules configured — default deny";
          config = empty;
        }
        ∷ [];
    evaluated_count = 0;
    evaluation_time_ms = ms;
  }

  -- `evaluate` on the rules of a document.
  unfoldable pub evaluate_rules : Text → ℕ → List (PolicyRule F) → PolicyResult F
  unfolding run_rules
  evaluate_rules id ms [] = no_rules id ms
  evaluate_rules id ms (r ∷ rs) = run_rules id ms 0 none (r ∷ rs)

  unfoldable pub evaluate : ℕ → Option (PolicyDocument F) → PolicyResult F
  unfolding evaluate_rules
  evaluate ms none = record {
    allowed = true;
    violations = [];
    evaluated_count = 0;
    evaluation_time_ms = ms;
  }
  evaluate ms (some d) = evaluate_rules d.id ms d.rules
