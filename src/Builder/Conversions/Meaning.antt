-- ===== src/Builder/Conversions/Meaning.antt =====
-- What the rules that are written from a form mean to the rules engine.
use guardian_wallet.Prelude.{
  ℕ, ◌+◌, ◌≡◌, refl, ◌∙◌, ap, Bool, true, false, not, ◌&&◌, ◌||◌, Option, none, some, List, [], ◌∷◌,
  ◌++◌, map, Text, all, any, Bool-cases, ◌⊎◌, inl, inr, arith,
}
use guardian_wallet.Prelude.Effects.{Result, ok, throws}
use guardian_wallet.Policy.Types.{Number, Criterion, PolicyRule, PolicyDocument, PolicyContext}
use guardian_wallet.Policy.Criteria.{Host, evaluate_criterion}
use guardian_wallet.Policy.Engine.{
  FirstFailure, first_failed, track, decided, denied, run_rules, evaluate_rules, evaluate,
}
use guardian_wallet.Builder.Catalog.{Kind, catalog, to_criterion}
use guardian_wallet.Builder.Conversions.{
  FormValues, EnabledMap, is_built, reject_of, rules_of, bound-mapped, mapped-ok, is_reject_kind,
  Split, push_split, split_rules, collect, build_rules, split_criteria, wallet_build_rules,
}

abbrev is_cons : {A : Type 0} → List A → Bool
is_cons [] = false
is_cons (_ ∷ _) = true

abbrev pub is_accept_kind : Kind → Bool
is_accept_kind k = not (is_reject_kind k)

-- Some entry of a sort is enabled.
abbrev pub any_built : EnabledMap → (Kind → Bool) → List Kind → Bool
any_built enabled sort ks = any (λ k. is_built enabled k && sort k) ks

module _ {F : Type 0} ⦃num : Number F⦄ (host : Host) (ctx : PolicyContext F) where
  abbrev pub met_of : Result (Criterion F) → Bool
  met_of (ok c) = evaluate_criterion host c ctx
  met_of (throws e) = false

  -- The criterion of an entry holds.
  abbrev pub is_met : FormValues F → Kind → Bool
  is_met values k = met_of (to_criterion k (values k))

  holds : Criterion F → Bool
  holds c = evaluate_criterion host c ctx

  first_failed-cases :
      (cs : List (Criterion F))
      → ((first_failed host ctx cs ≡ none) × (all holds cs ≡ true))
        ⊎ ((c : Criterion F) × (first_failed host ctx cs ≡ some c) × (all holds cs ≡ false))
  unfolding first_failed holds
  first_failed-cases [] = inl (refl, refl)
  first_failed-cases (c ∷ cs) = elim (Bool-cases (evaluate_criterion host c ctx)) [
    | inl met ↦ rw met (first_failed-cases cs)
    | inr unmet ↦ rw unmet (inr (c, refl, refl))
  ]

  run_rules-accept :
      (id : Text) (ms count : ℕ) (failed : Option (FirstFailure F)) (cs : List (Criterion F))
      → (run_rules host ctx id ms count failed (rules_of cs)).allowed ≡ (is_cons cs && all holds cs)
  unfolding run_rules denied decided
  run_rules-accept id ms count failed [] = refl
  run_rules-accept id ms count failed (c ∷ cs) = elim (first_failed-cases (c ∷ cs)) [
    | inl (none_failed, all_hold) ↦ rw (none_failed, all_hold, run_rules, decided) refl
    | inr (d, failed_at, not_all) ↦ rw (failed_at, not_all, run_rules) refl
  ]

  run_rules-rejects :
      (id : Text) (ms count : ℕ) (failed : Option (FirstFailure F)) (rs cs : List (Criterion F))
      → (run_rules host ctx id ms count failed (map reject_of rs ++ rules_of cs)).allowed
        ≡ (not (any holds rs) && (is_cons cs && all holds cs))
  unfolding run_rules first_failed decided holds
  run_rules-rejects id ms count failed [] cs = run_rules-accept id ms count failed cs
  run_rules-rejects id ms count failed (c ∷ rs) cs =
      elim (Bool-cases (evaluate_criterion host c ctx)) [
        | inl met ↦ rw (met, run_rules, first_failed, decided) refl
        | inr unmet ↦
            rw (unmet, run_rules, first_failed)
              (run_rules-rejects id ms (count + 1) (track (reject_of c) c failed) rs cs)
      ]

  module _ (values : FormValues F) (enabled : EnabledMap) where
    -- All enabled entries of a sort are met; some enabled one is met.
    abbrev pub all_met : (Kind → Bool) → List Kind → Bool
    all_met sort ks = all (λ k. not (is_built enabled k && sort k) || is_met values k) ks

    abbrev pub any_met : (Kind → Bool) → List Kind → Bool
    any_met sort ks = any (λ k. (is_built enabled k && sort k) && is_met values k) ks

    collect-meaning :
        (ks : List Kind) (cs : List (Criterion F))
        → collect values enabled ks ≡ ok cs
        → (is_cons cs ≡ any_built enabled (λ _. true) ks) × (all holds cs ≡ all_met (λ _. true) ks)
    unfolding collect holds
    collect-meaning [] [] h = (refl, refl)
    collect-meaning [] (c ∷ cs) h = ground arith
    collect-meaning (k ∷ ks) cs h = elim (Bool-cases (is_built enabled k)) [
      | inr off ↦ rw off (collect-meaning ks cs (rw off at h))
      | inl on ↦
          let (c, rest, e, f, g) =
            bound-mapped (to_criterion k (values k)) (collect values enabled ks)
              (λ c rest. c ∷ rest) (rw on at h) in
          rw (on, g, e)
            (refl, ap (λ b. evaluate_criterion host c ctx && b) (collect-meaning ks rest f).1)
    ]

    abbrev SplitMeans : List Kind → Split F → Type 0
    SplitMeans ks s =
        (any holds s.rejects ≡ any_met is_reject_kind ks)
        × (is_cons s.accepts ≡ any_built enabled is_accept_kind ks)
        × (all holds s.accepts ≡ all_met is_accept_kind ks)

    SplitMeans-push :
        (k : Kind) (ks : List Kind) (c : Criterion F) (s : Split F)
        → is_built enabled k ≡ true
        → to_criterion k (values k) ≡ ok c
        → SplitMeans ks s
        → SplitMeans (k ∷ ks) (push_split k c s)
    unfolding holds
    SplitMeans-push k ks c s on e h = elim (Bool-cases (is_reject_kind k)) [
      | inl yes_reject ↦
          rw (on, yes_reject, e) (ap (λ b. evaluate_criterion host c ctx || b) h.0, h.1, h.2)
      | inr no_reject ↦
          rw (on, no_reject, e) (h.0, refl, ap (λ b. evaluate_criterion host c ctx && b) h.2)
    ]

    split_criteria-SplitMeans :
        (ks : List Kind) (s : Split F) → split_criteria values enabled ks ≡ ok s → SplitMeans ks s
    unfolding split_criteria holds
    split_criteria-SplitMeans [] s h = ground arith
    split_criteria-SplitMeans (k ∷ ks) s h = elim (Bool-cases (is_built enabled k)) [
      | inr off ↦ rw off (split_criteria-SplitMeans ks s (rw off at h))
      | inl on ↦
          let (c, rest, e, f, g) =
            bound-mapped (to_criterion k (values k)) (split_criteria values enabled ks)
              (push_split k) (rw on at h) in
          rw g (SplitMeans-push k ks c rest on e (split_criteria-SplitMeans ks rest f))
    ]

    evaluate_rules-allowed :
        (id : Text) (ms : ℕ) (rules : List (PolicyRule F))
        → (evaluate_rules host ctx id ms rules).allowed
          ≡ (run_rules host ctx id ms 0 none rules).allowed
    unfolding evaluate_rules run_rules denied
    evaluate_rules-allowed id ms [] = refl
    evaluate_rules-allowed id ms (r ∷ rs) = refl

    -- The document that the app saves allows a request exactly when some entry of the form is enabled and the
    -- criterion of every enabled entry holds.
    pub build_rules-meaning :
        (ms : ℕ) (d : PolicyDocument F)
        → build_rules values enabled ≡ ok d.rules
        → (evaluate host ctx ms (some d)).allowed
          ≡ (any_built enabled (λ _. true) catalog && all_met (λ _. true) catalog)
    unfolding build_rules evaluate
    build_rules-meaning ms d h =
        let (cs, e, f) = mapped-ok (collect values enabled catalog) rules_of h in
        let (some_built, met) = collect-meaning catalog cs e in
        evaluate_rules-allowed d.id ms d.rules
        ∙ ap (λ rules. (run_rules host ctx d.id ms 0 none rules).allowed) f
        ∙ run_rules-accept d.id ms 0 none cs
        ∙ ap (λ b. b && all holds cs) some_built
        ∙ ap (λ b. any_built enabled (λ _. true) catalog && b) met

    -- The document that the wallet saves allows a request exactly when the criterion of no enabled
    -- `evmAddressBlocked` or `blockInfiniteApprovals` holds, some other entry is enabled and the criteria of all
    -- the other enabled entries hold.
    pub wallet_build_rules-meaning :
        (ms : ℕ) (d : PolicyDocument F)
        → wallet_build_rules values enabled ≡ ok d.rules
        → (evaluate host ctx ms (some d)).allowed ≡ (
            not (any_met is_reject_kind catalog)
            && (any_built enabled is_accept_kind catalog && all_met is_accept_kind catalog))
    unfolding wallet_build_rules evaluate
    wallet_build_rules-meaning ms d h =
        let (s, e, f) = mapped-ok (split_criteria values enabled catalog) split_rules h in
        let (rejected, some_built, met) = split_criteria-SplitMeans catalog s e in
        evaluate_rules-allowed d.id ms d.rules
        ∙ ap (λ rules. (run_rules host ctx d.id ms 0 none rules).allowed) f
        ∙ run_rules-rejects d.id ms 0 none s.rejects s.accepts
        ∙ ap (λ b. not b && (is_cons s.accepts && all holds s.accepts)) rejected
        ∙ ap (λ b. not (any_met is_reject_kind catalog) && (b && all holds s.accepts)) some_built
        ∙ ap
            (λ b.
              not (any_met is_reject_kind catalog)
              && (any_built enabled is_accept_kind catalog && b))
            met
