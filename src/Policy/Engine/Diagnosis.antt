-- ===== src/Policy/Engine/Diagnosis.antt =====
-- What the engine reports: the violations, the count of rules evaluated, and the diagnosis of a
-- default deny.
use mathlib.Core.List.{append-nil}
use guardian_wallet.Prelude.{
  ℕ, ◌+◌, ◌≤◌, ◌≡◌, refl, ◌∙◌, ◌⊎◌, inl, inr, true, false, Option, none, some, List, [], ◌∷◌, ◌++◌,
  Text, All, Bool-cases, Option-cases, length, arith,
}
use guardian_wallet.Policy.Criteria.Reasons.{fail_reason}
use guardian_wallet.Policy.Types.{
  Number, Criterion, criterion_type, accept, reject, default_deny, diagnosis, PolicyRule,
  PolicyDocument, PolicyResult, PolicyContext,
}
use guardian_wallet.Policy.Criteria.{Host, evaluate_criterion}
use guardian_wallet.Policy.Engine.{
  is_disabled, FirstFailure, track, first_failed, decided, denied, run_rules, evaluate_rules,
  evaluate,
}
use guardian_wallet.Policy.Engine.Decision.{
  Holds, Applies, IsDecidedBy, count_live, failure_after, run_rules-skip, run_rules-decided,
}

-- The verdict and the violations agree, and the count stays below the bound.
pub record IsReport {F : Type 0} (bound : ℕ) (result : PolicyResult F) : Type 0 where
  pub clean : result.allowed ≡ true → result.violations ≡ []
  pub allowed : result.violations ≡ [] → result.allowed ≡ true
  pub bounded : result.evaluated_count ≤ bound

IsReport-mono :
    {F : Type 0} {n m : ℕ} {result : PolicyResult F} → n ≤ m → IsReport n result → IsReport m result
IsReport-mono h k = record { clean = k.clean; allowed = k.allowed; bounded = omega arith }

module _ {F : Type 0} ⦃num : Number F⦄ (host : Host) (ctx : PolicyContext F) where
  -- Rules of which none applies are all counted, and denied.
  run_rules-denied :
      (id : Text) (ms count : ℕ) (failed : Option (FirstFailure F)) (rules : List (PolicyRule F))
      → All (λ q. ¬ Applies host ctx q) rules
      → run_rules host ctx id ms count failed rules
        ≡ denied host ctx id ms (count_live count rules) (failure_after host ctx failed rules)
  unfolding run_rules
  run_rules-denied id ms count failed rules h =
      rw append-nil at (run_rules-skip host ctx id ms count failed rules [] h)

  first_failed-split :
      (met rest : List (Criterion F)) (c : Criterion F)
      → All (Holds host ctx) met
      → evaluate_criterion host c ctx ≡ false
      → first_failed host ctx (met ++ c ∷ rest) ≡ some c
  unfolding first_failed
  first_failed-split [] rest c h e = ground arith
  first_failed-split (d ∷ met) rest c h e = ground (arith, first_failed-split met rest c)

  -- Once set, the failure stays.
  failure_after-some :
      (f : FirstFailure F) (rules : List (PolicyRule F))
      → failure_after host ctx (some f) rules ≡ some f
  unfolding failure_after track
  failure_after-some f [] = refl
  failure_after-some f (r ∷ rs) = ground (arith, failure_after-some f rs)

  -- The first enabled accept rule that fails, and the first of its criteria that is not met.
  pub record IsDiagnosed (rules : List (PolicyRule F)) (r : PolicyRule F) (c : Criterion F)
      : Type 0 where
    pub before : List (PolicyRule F)
    pub after : List (PolicyRule F)
    pub split : rules ≡ before ++ r ∷ after
    pub earlier : All (λ q. (is_disabled q.enabled ≡ true) ⊎ (q.action ≡ reject)) before
    pub enabled : is_disabled r.enabled ≡ false
    pub action : r.action ≡ accept
    pub met : List (Criterion F)
    pub rest : List (Criterion F)
    pub criteria : r.criteria ≡ met ++ c ∷ rest
    pub holds : All (Holds host ctx) met
    pub unmet : evaluate_criterion host c ctx ≡ false

  failure_after-reject :
      (before rest : List (PolicyRule F))
      → All (λ q. (is_disabled q.enabled ≡ true) ⊎ (q.action ≡ reject)) before
      → failure_after host ctx none (before ++ rest) ≡ failure_after host ctx none rest
  unfolding failure_after track
  failure_after-reject [] rest h = refl
  failure_after-reject (q ∷ before) rest h = ground (arith, failure_after-reject before rest h.1)

  failure_after-IsDiagnosed :
      (rules : List (PolicyRule F)) (r : PolicyRule F) (c : Criterion F)
      → IsDiagnosed rules r c
      → failure_after host ctx none rules
        ≡ some (record { criterion = c; rule_description = r.description })
  unfolding failure_after track
  failure_after-IsDiagnosed rules r c d =
      rw d.split (failure_after-reject d.before (r ∷ d.after) d.earlier ∙ here)
    where
      failed_here : first_failed host ctx r.criteria ≡ some c
      failed_here = rw d.criteria (first_failed-split d.met d.rest c d.holds d.unmet)

      here :
          failure_after host ctx none (r ∷ d.after)
          ≡ some (record { criterion = c; rule_description = r.description })
      here =
          rw (d.enabled, failed_here, d.action, failure_after, track)
            (failure_after-some (record { criterion = c; rule_description = r.description })
              d.after)

  -- A document with rules goes through the loop.
  evaluate_rules-run_rules :
      (id : Text) (ms : ℕ) (before : List (PolicyRule F)) (r : PolicyRule F)
      (after rules : List (PolicyRule F))
      → rules ≡ before ++ r ∷ after
      → evaluate_rules host ctx id ms rules ≡ run_rules host ctx id ms 0 none rules
  unfolding evaluate_rules
  evaluate_rules-run_rules id ms [] r after [] e = cc
  evaluate_rules-run_rules id ms (_ ∷ _) r after [] e = cc
  evaluate_rules-run_rules id ms before r after (_ ∷ _) e = refl

  decided-IsReport :
      (id : Text) (ms count : ℕ) (r : PolicyRule F)
      → IsReport count (decided host ctx id ms count r)
  unfolding decided
  decided-IsReport id ms count r = ground arith

  run_rules-IsReport :
      (id : Text) (ms count : ℕ) (failed : Option (FirstFailure F)) (rules : List (PolicyRule F))
      → IsReport (count + length rules) (run_rules host ctx id ms count failed rules)
  unfolding run_rules denied
  run_rules-IsReport id ms count failed [] = ground arith
  run_rules-IsReport id ms count failed (r ∷ rs) = elim (Bool-cases (is_disabled r.enabled)) [
    | inl off ↦
        rw (off, run_rules) (IsReport-mono (omega arith) (run_rules-IsReport id ms count failed rs))
    | inr live ↦ elim (Option-cases (first_failed host ctx r.criteria)) [
      | inl met ↦
          rw (live, met, run_rules)
            (IsReport-mono (omega arith) (decided-IsReport id ms (count + 1) r))
      | inr (c, unmet) ↦
          rw (live, unmet, run_rules)
            (IsReport-mono (omega arith)
              (run_rules-IsReport id ms (count + 1) (track r c failed) rs))
    ]
  ]

-- Whatever the document, a result is allowed exactly when it has no violation, and it counts no more
-- rules than the document has.
pub evaluate-IsReport :
    {F : Type 0} ⦃num : Number F⦄ (host : Host) (ctx : PolicyContext F) (ms : ℕ)
    (d : PolicyDocument F)
    → IsReport (length d.rules) (evaluate host ctx ms (some d))
unfolding evaluate
evaluate-IsReport host ctx ms d = rules_report d.rules
  where
    rules_report :
        (rules : List (PolicyRule _))
        → IsReport (length rules) (evaluate_rules host ctx d.id ms rules)
    rules_report [] = ground arith
    rules_report (r ∷ rs) =
        IsReport-mono (omega arith) (run_rules-IsReport host ctx d.id ms 0 none (r ∷ rs))

-- If no rule of a document applies and an enabled accept rule fails, the request is denied with one
-- violation: its reason is the full diagnosis of the first criterion that is not met in the first
-- enabled accept rule, its configuration holds the type of that criterion, the rule's description and the short
-- reason; and the rules that are not switched off are counted.
pub evaluate_diagnosed :
    {F : Type 0} ⦃num : Number F⦄ (host : Host) (ctx : PolicyContext F) (ms : ℕ)
    (d : PolicyDocument F) (r : PolicyRule F) (c : Criterion F)
    → All (λ q. ¬ Applies host ctx q) d.rules
    → IsDiagnosed host ctx d.rules r c
    → let result = evaluate host ctx ms (some d) in
      (result.allowed ≡ false)
      × (result.violations
          ≡ record {
            policy_id = d.id;
            type = default_deny;
            reason = (fail_reason c ctx).detail;
            config = diagnosis (criterion_type c) r.description (fail_reason c ctx).short;
          }
            ∷ [])
      × (result.evaluated_count ≡ count_live 0 d.rules)
unfolding evaluate denied
evaluate_diagnosed host ctx ms d r c h k =
    rw
      (
        evaluate_rules-run_rules host ctx d.id ms k.before r k.after d.rules k.split,
        run_rules-denied host ctx d.id ms 0 none d.rules h,
        failure_after-IsDiagnosed host ctx d.rules r c k,
      )
      (refl, refl, refl)

-- A rule that decides makes the whole result, whatever stands behind it: the verdict is its action,
-- and the count is that of the rules that are not switched off up to and with it.
pub evaluate-decided :
    {F : Type 0} ⦃num : Number F⦄ (host : Host) (ctx : PolicyContext F) (ms : ℕ)
    (d : PolicyDocument F) (r : PolicyRule F) (k : IsDecidedBy host ctx d.rules r)
    → evaluate host ctx ms (some d) ≡ decided host ctx d.id ms (count_live 0 k.before + 1) r
unfolding evaluate
evaluate-decided host ctx ms d r k =
    evaluate_rules-run_rules host ctx d.id ms k.before r k.after d.rules k.split
    ∙ run_rules-decided host ctx d.id ms 0 none d.rules r k
