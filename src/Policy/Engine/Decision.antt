-- ===== src/Policy/Engine/Decision.antt =====
-- The engine decides by the first rule that applies.
use guardian_wallet.Prelude.{
  if◌then◌else◌, ℕ, ◌+◌, ◌≡◌, refl, ap, ◌∙◌, ◌↔◌, inl, inr, true, false, Option, none, some, List,
  [], ◌∷◌, ◌++◌, Text, All, Bool-cases, Option-cases, arith,
}
use guardian_wallet.Policy.Types.{
  Number, Criterion, accept, PolicyRule, PolicyDocument, PolicyContext,
}
use guardian_wallet.Policy.Criteria.{Host, evaluate_criterion}
use guardian_wallet.Policy.Engine.{
  is_disabled, FirstFailure, track, first_failed, decided, denied, run_rules, evaluate_rules,
  evaluate,
}

-- How many of the rules are not switched off, counted on from `count`.
unfoldable pub count_live : {F : Type 0} → ℕ → List (PolicyRule F) → ℕ
count_live count [] = count
count_live count (q ∷ qs) = count_live (if is_disabled q.enabled then count else count + 1) qs

module _ {F : Type 0} ⦃num : Number F⦄ (host : Host) (ctx : PolicyContext F) where
  -- A rule applies if it is not switched off and all its criteria hold.
  abbrev pub Holds : Criterion F → Type 0
  Holds c = evaluate_criterion host c ctx ≡ true

  abbrev pub Applies : PolicyRule F → Type 0
  Applies r = (is_disabled r.enabled ≡ false) × All Holds r.criteria

  -- The rule that decides: it applies, and none before it does.
  pub record IsDecidedBy (rules : List (PolicyRule F)) (r : PolicyRule F) : Type 0 where
    pub before : List (PolicyRule F)
    pub after : List (PolicyRule F)
    pub split : rules ≡ before ++ r ∷ after
    pub earlier : All (λ q. ¬ Applies q) before
    pub applies : Applies r

  pub first_failed-none_iff :
      (cs : List (Criterion F)) → (first_failed host ctx cs ≡ none) ↔ All Holds cs
  unfolding first_failed
  first_failed-none_iff [] = ((λ _. tt), (λ _. refl))
  first_failed-none_iff (c ∷ cs) = ground (arith, first_failed-none_iff cs)

  -- The failure that is remembered behind the rules.
  unfoldable pub failure_after :
      Option (FirstFailure F) → List (PolicyRule F) → Option (FirstFailure F)
  failure_after failed [] = failed
  failure_after failed (q ∷ qs) = elim (is_disabled q.enabled) [
    | true ↦ failure_after failed qs
    | false ↦ elim (first_failed host ctx q.criteria) [
      | none ↦ failure_after failed qs
      | some c ↦ failure_after (track q c failed) qs
    ]
  ]

  -- The loop over rules that do not apply goes on behind them.
  pub run_rules-skip :
      (id : Text) (ms count : ℕ) (failed : Option (FirstFailure F))
      (before rest : List (PolicyRule F))
      → All (λ q. ¬ Applies q) before
      → run_rules host ctx id ms count failed (before ++ rest)
        ≡ run_rules host ctx id ms (count_live count before) (failure_after failed before) rest
  unfolding run_rules count_live failure_after
  run_rules-skip id ms count failed [] rest h = refl
  run_rules-skip id ms count failed (q ∷ before) rest h =
      elim (Bool-cases (is_disabled q.enabled)) [
        | inl off ↦
            rw (off, run_rules, failure_after) (run_rules-skip id ms count failed before rest h.1)
        | inr live ↦ elim (Option-cases (first_failed host ctx q.criteria)) [
          | inl met ↦ absurd (h.0 (live, (first_failed-none_iff q.criteria).0 met))
          | inr (c, unmet) ↦
              rw (live, unmet, run_rules, failure_after)
                (run_rules-skip id ms (count + 1) (track q c failed) before rest h.1)
        ]
      ]

  pub run_rules-Applies :
      (id : Text) (ms count : ℕ) (failed : Option (FirstFailure F)) (r : PolicyRule F)
      (rest : List (PolicyRule F))
      → Applies r
      → run_rules host ctx id ms count failed (r ∷ rest) ≡ decided host ctx id ms (count + 1) r
  unfolding run_rules
  run_rules-Applies id ms count failed r rest h =
      rw (h.0, (first_failed-none_iff r.criteria).1 h.1, run_rules)

  decided-allowed :
      (id : Text) (ms count : ℕ) (r : PolicyRule F)
      → ((decided host ctx id ms count r).allowed ≡ true) ↔ (r.action ≡ accept)
  unfolding decided
  decided-allowed id ms count r = ground arith

  IsDecidedBy-cons :
      {rules : List (PolicyRule F)} {r : PolicyRule F} (q : PolicyRule F)
      → ¬ Applies q
      → IsDecidedBy rules r
      → IsDecidedBy (q ∷ rules) r
  IsDecidedBy-cons q h d = record {
    before = q ∷ d.before;
    after = d.after;
    split = ap (λ l. q ∷ l) d.split;
    earlier = (h, d.earlier);
    applies = d.applies;
  }

  run_rules-decider :
      (id : Text) (ms count : ℕ) (failed : Option (FirstFailure F)) (rules : List (PolicyRule F))
      → (run_rules host ctx id ms count failed rules).allowed ≡ true
      → (r : PolicyRule F) × IsDecidedBy rules r × (r.action ≡ accept)
  unfolding run_rules denied
  run_rules-decider id ms count failed [] h = cc
  run_rules-decider id ms count failed (q ∷ rules) h = elim (Bool-cases (is_disabled q.enabled)) [
    | inl off ↦
        let (r, d, e) = run_rules-decider id ms count failed rules (rw (off, run_rules) at h) in
        (r, IsDecidedBy-cons q (λ a. cc (off, a.0)) d, e)
    | inr live ↦ elim (Option-cases (first_failed host ctx q.criteria)) [
      | inl met ↦ (
        q,
        record {
          before = [];
          after = rules;
          split = refl;
          earlier = tt;
          applies = (live, (first_failed-none_iff q.criteria).0 met);
        },
        (decided-allowed id ms (count + 1) q).0 (rw (live, met, run_rules) at h),
      )
      | inr (c, unmet) ↦
          let (r, d, e) =
            run_rules-decider id ms (count + 1) (track q c failed) rules
              (rw (live, unmet, run_rules) at h) in
          (r, IsDecidedBy-cons q (λ a. cc (unmet, (first_failed-none_iff q.criteria).1 a.1)) d, e)
    ]
  ]

  pub run_rules-decided :
      (id : Text) (ms count : ℕ) (failed : Option (FirstFailure F)) (rules : List (PolicyRule F))
      (r : PolicyRule F) (d : IsDecidedBy rules r)
      → run_rules host ctx id ms count failed rules
        ≡ decided host ctx id ms (count_live count d.before + 1) r
  run_rules-decided id ms count failed rules r d = rw d.split (
      run_rules-skip id ms count failed d.before (r ∷ d.after) d.earlier
      ∙ run_rules-Applies id ms (count_live count d.before) (failure_after failed d.before) r
          d.after d.applies)

  run_rules-allowed_iff :
      (id : Text) (ms count : ℕ) (failed : Option (FirstFailure F)) (rules : List (PolicyRule F))
      → ((run_rules host ctx id ms count failed rules).allowed ≡ true)
        ↔ ((r : PolicyRule F) × IsDecidedBy rules r × (r.action ≡ accept))
  run_rules-allowed_iff id ms count failed rules = (
    run_rules-decider id ms count failed rules,
    λ w.
        rw (run_rules-decided id ms count failed rules w.0 w.1)
          ((decided-allowed id ms _ w.0).1 w.2),
  )

  -- No rule can decide an empty list.
  not-IsDecidedBy-nil : (r : PolicyRule F) → ¬ IsDecidedBy [] r
  not-IsDecidedBy-nil r d = no_split d.before d.split
    where
      no_split : (before : List (PolicyRule F)) → ¬ ([] ≡ before ++ r ∷ d.after)
      no_split [] e = cc
      no_split (q ∷ qs) e = cc

  pub evaluate_rules-allowed_iff :
      (id : Text) (ms : ℕ) (rules : List (PolicyRule F))
      → ((evaluate_rules host ctx id ms rules).allowed ≡ true)
        ↔ ((r : PolicyRule F) × IsDecidedBy rules r × (r.action ≡ accept))
  unfolding evaluate_rules
  evaluate_rules-allowed_iff id ms [] = ((λ e. cc), (λ w. absurd (not-IsDecidedBy-nil w.0 w.1)))
  evaluate_rules-allowed_iff id ms (r ∷ rs) = run_rules-allowed_iff id ms 0 none (r ∷ rs)

  -- With a policy document the request is allowed exactly when some rule applies and the first rule
  -- that applies has the action `accept`.
  pub evaluate-allowed_iff :
      (ms : ℕ) (d : PolicyDocument F)
      → ((evaluate host ctx ms (some d)).allowed ≡ true)
        ↔ ((r : PolicyRule F) × IsDecidedBy d.rules r × (r.action ≡ accept))
  unfolding evaluate
  evaluate-allowed_iff ms d = evaluate_rules-allowed_iff d.id ms d.rules
