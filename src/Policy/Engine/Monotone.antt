-- ===== src/Policy/Engine/Monotone.antt =====
-- Edits of a policy that can only restrict, and rules that have no effect.
use guardian_wallet.Prelude.{
  Bool-cases, Option-cases, inl, inr, ◌+◌, ℕ, ◌+◌, ◌≡◌, refl, sym, ◌∙◌, Bool, true, false, Option,
  none, some, List, [], ◌∷◌, Text, arith,
}
use guardian_wallet.Policy.Types.{
  Number, Criterion, RuleAction, accept, reject, PolicyRule, PolicyContext,
}
use guardian_wallet.Policy.Criteria.{Host}
use guardian_wallet.Policy.Engine.{
  is_disabled, FirstFailure, track, first_failed, decided, denied, run_rules, evaluate_rules,
}

abbrev is_accept : RuleAction → Bool
is_accept accept = true
is_accept reject = false

-- `Extends more cs`: `more` has the criteria of `cs` in their order, and others anywhere between them.
pub data Extends {F : Type 0} : List (Criterion F) → List (Criterion F) → Type 0 where
  both_empty : Extends [] []
  shared :
      {more cs : List (Criterion F)} (c : Criterion F)
      → Extends more cs
      → Extends (c ∷ more) (c ∷ cs)
  extra : {more cs : List (Criterion F)} (c : Criterion F) → Extends more cs → Extends (c ∷ more) cs

-- `IsStricter new old`: the new rules come from the old ones by edits that each can only restrict.
pub data IsStricter {F : Type 0} : List (PolicyRule F) → List (PolicyRule F) → Type 0 where
  done : IsStricter [] []
  keep :
      {new old : List (PolicyRule F)} (r : PolicyRule F)
      → IsStricter new old
      → IsStricter (r ∷ new) (r ∷ old)
  tighten_accept :
      {new old : List (PolicyRule F)} (r : PolicyRule F) (more : List (Criterion F))
      → r.action ≡ accept
      → Extends more r.criteria
      → IsStricter new old
      → IsStricter (record r { criteria = more } ∷ new) (r ∷ old)
  widen_reject :
      {new old : List (PolicyRule F)} (r : PolicyRule F) (more : List (Criterion F))
      → r.action ≡ reject
      → Extends more r.criteria
      → IsStricter new old
      → IsStricter (r ∷ new) (record r { criteria = more } ∷ old)
  remove_accept :
      {new old : List (PolicyRule F)} (r : PolicyRule F)
      → r.action ≡ accept
      → IsStricter new old
      → IsStricter new (r ∷ old)
  insert_reject :
      {new old : List (PolicyRule F)} (r : PolicyRule F)
      → r.action ≡ reject
      → IsStricter new old
      → IsStricter (r ∷ new) old

module _ {F : Type 0} ⦃num : Number F⦄ (host : Host) (ctx : PolicyContext F) where
  -- The decision without its report.
  verdict : List (PolicyRule F) → Bool
  verdict [] = false
  verdict (r ∷ rs) = elim (is_disabled r.enabled) [
    | true ↦ verdict rs
    | false ↦ elim (first_failed host ctx r.criteria) [
      | none ↦ is_accept r.action
      | some c ↦ verdict rs
    ]
  ]

  decided-allowed :
      (id : Text) (ms count : ℕ) (r : PolicyRule F)
      → (decided host ctx id ms count r).allowed ≡ is_accept r.action
  unfolding decided
  decided-allowed id ms count r = ground arith

  run_rules-allowed :
      (id : Text) (ms count : ℕ) (failed : Option (FirstFailure F)) (rules : List (PolicyRule F))
      → (run_rules host ctx id ms count failed rules).allowed ≡ verdict rules
  unfolding run_rules verdict denied
  run_rules-allowed id ms count failed [] = refl
  run_rules-allowed id ms count failed (r ∷ rs) = elim (Bool-cases (is_disabled r.enabled)) [
    | inl off ↦ rw (off, run_rules, verdict) (run_rules-allowed id ms count failed rs)
    | inr live ↦ elim (Option-cases (first_failed host ctx r.criteria)) [
      | inl met ↦ rw (live, met, run_rules, verdict) (decided-allowed id ms (count + 1) r)
      | inr (c, unmet) ↦
          rw (live, unmet, run_rules, verdict)
            (run_rules-allowed id ms (count + 1) (track r c failed) rs)
    ]
  ]

  evaluate_rules-allowed :
      (id : Text) (ms : ℕ) (rules : List (PolicyRule F))
      → (evaluate_rules host ctx id ms rules).allowed ≡ verdict rules
  unfolding evaluate_rules verdict
  evaluate_rules-allowed id ms [] = refl
  evaluate_rules-allowed id ms (r ∷ rs) = run_rules-allowed id ms 0 none (r ∷ rs)

  first_failed-Extends :
      {more cs : List (Criterion F)}
      → Extends more cs
      → first_failed host ctx more ≡ none
      → first_failed host ctx cs ≡ none
  unfolding first_failed
  first_failed-Extends both_empty h = h
  first_failed-Extends (shared c e) h = ground (arith, first_failed-Extends e)
  first_failed-Extends (extra c e) h = ground (arith, first_failed-Extends e)

  verdict_mono :
      {new old : List (PolicyRule F)} → IsStricter new old → verdict new ≡ true → verdict old ≡ true
  unfolding verdict
  verdict_mono done h = h
  verdict_mono (keep r s) h = ground (arith, verdict_mono s)
  verdict_mono (tighten_accept r more e x s) h =
      ground (arith, verdict_mono s, first_failed-Extends x)
  verdict_mono (widen_reject r more e x s) h =
      ground (arith, verdict_mono s, first_failed-Extends x)
  verdict_mono (remove_accept r e s) h = ground (arith, verdict_mono s)
  verdict_mono (insert_reject r e s) h = ground (arith, verdict_mono s)

-- A request that the stricter rules allow was allowed before the edit, in every context: criteria put in
-- anywhere among those of an accept rule, criteria taken out from anywhere among those of a reject rule, an
-- accept rule removed, a reject rule put in, anywhere in the list and any number of them.
pub evaluate_rules_mono :
    {F : Type 0} ⦃num : Number F⦄ (host : Host) (ctx : PolicyContext F) (id : Text) (ms : ℕ)
    {new old : List (PolicyRule F)}
    → IsStricter new old
    → (evaluate_rules host ctx id ms new).allowed ≡ true
    → (evaluate_rules host ctx id ms old).allowed ≡ true
evaluate_rules_mono host ctx id ms {new} {old} s h =
    evaluate_rules-allowed host ctx id ms old
    ∙ verdict_mono host ctx s (sym (evaluate_rules-allowed host ctx id ms new) ∙ h)
