-- ===== src/Policy/Document/Stable.antt =====
-- The validation of a document that was saved: it passes again, and nothing is written anew.
use guardian_wallet.Prelude.{
  ℕ, suc, ◌+◌, ◌≡◌, refl, ◌∙◌, ap, inl, inr, true, Option, none, some, List, [], ◌∷◌, Text, length,
  Bool-cases, arith,
}
use guardian_wallet.Policy.Types.{
  Number, Criterion, eth_value, evm_address, evm_network, evm_function, ip_address, rate_limit,
  time_window, daily_limit, monthly_limit, max_per_tx_usd, daily_limit_usd, monthly_limit_usd,
  block_infinite_approvals, max_slippage, mev_protection,
}
use guardian_wallet.Policy.Document.{
  SubmittedRule, validate_present, Checksum, valid, checked_addresses, validate_criterion,
  validate_criteria, is_empty_accept, validate_rule, validate_rules_from, validate_rules,
}
use guardian_wallet.Policy.Document.Validity.{OnSaved, on_valid-OnSaved, is_empty_accept-length}

-- The checksum form of an address is an address, and its own checksum form (EIP-55).
pub record IsCanonical (sum : Checksum) : Type 0 where
  pub closed : (s : Text) → sum.is_address s ≡ true → sum.is_address (sum.get_address s) ≡ true
  pub idempotent :
      (s : Text) → sum.is_address s ≡ true → sum.get_address (sum.get_address s) ≡ sum.get_address s

module _ (sum : Checksum) (canonical : IsCanonical sum) where
  checked_addresses-again :
      (i j : ℕ) (addresses : List Text)
      → OnSaved (λ w. checked_addresses sum i j w ≡ valid w) (checked_addresses sum i j addresses)
  unfolding checked_addresses OnSaved
  checked_addresses-again i j [] = refl
  checked_addresses-again i j (a ∷ others) = elim (Bool-cases (sum.is_address a)) [
    | inl e ↦ rw e (
        on_valid-OnSaved (λ w. checked_addresses sum i j w ≡ valid w)
          (λ w. checked_addresses sum i j w ≡ valid w) (checked_addresses sum i j others) _
          (checked_addresses-again i j others)
          (λ w h. rw (canonical.closed a e, canonical.idempotent a e, h) refl))
    | inr e ↦ rw e tt
  ]

  module _ {F : Type 0} ⦃num : Number F⦄ where
    validate_criterion-again :
        (i j : ℕ) (c : Criterion F)
        → OnSaved
            (λ saved. validate_criterion sum i j saved ≡ valid saved)
            (validate_criterion sum i j c)
    unfolding validate_criterion OnSaved
    validate_criterion-again i j (eth_value operator value) = ground arith
    validate_criterion-again i j (evm_address operator addresses allow_deploy) =
        on_valid-OnSaved (λ w. checked_addresses sum i j w ≡ valid w)
          (λ saved. validate_criterion sum i j saved ≡ valid saved) _ _
          (checked_addresses-again i j addresses) (λ w h. rw h refl)
    validate_criterion-again i j (evm_network _ _) = refl
    validate_criterion-again i j (evm_function selectors _) = ground arith
    validate_criterion-again i j (ip_address _ _) = refl
    validate_criterion-again i j (rate_limit _) = ground arith
    validate_criterion-again i j (time_window s e) = ground arith
    validate_criterion-again i j (daily_limit max_wei) = ground arith
    validate_criterion-again i j (monthly_limit max_wei) = ground arith
    validate_criterion-again i j (max_per_tx_usd _) = ground arith
    validate_criterion-again i j (daily_limit_usd _) = ground arith
    validate_criterion-again i j (monthly_limit_usd _) = ground arith
    validate_criterion-again i j (block_infinite_approvals _) = refl
    validate_criterion-again i j (max_slippage _) = ground arith
    validate_criterion-again i j (mev_protection _) = refl

    validate_present-again :
        (i j : ℕ) (c : Option (Criterion F))
        → OnSaved
            (λ saved. validate_present sum i j saved ≡ valid saved)
            (validate_present sum i j c)
    unfolding validate_present OnSaved
    validate_present-again i j none = refl
    validate_present-again i j (some c) =
        on_valid-OnSaved (λ saved. validate_criterion sum i j saved ≡ valid saved)
          (λ saved. validate_present sum i j saved ≡ valid saved) (validate_criterion sum i j c) _
          (validate_criterion-again i j c) (λ saved h. rw h refl)

    AgainFor : ℕ → ℕ → List (Option (Criterion F)) → List (Option (Criterion F)) → Type 0
    AgainFor i j cs saved =
        (validate_criteria sum i j saved ≡ valid saved) × (length saved ≡ length cs)

    validate_criteria-AgainFor :
        (i j : ℕ) (cs : List (Option (Criterion F)))
        → OnSaved (AgainFor i j cs) (validate_criteria sum i j cs)
    unfolding validate_criteria OnSaved AgainFor
    validate_criteria-AgainFor i j [] = (refl, refl)
    validate_criteria-AgainFor i j (c ∷ cs) =
        on_valid-OnSaved (λ saved. validate_present sum i j saved ≡ valid saved)
          (AgainFor i j (c ∷ cs)) (validate_present sum i j c) _ (validate_present-again i j c)
          (λ saved h.
            on_valid-OnSaved (AgainFor i (j + 1) cs) (AgainFor i j (c ∷ cs))
              (validate_criteria sum i (j + 1) cs) _ (validate_criteria-AgainFor i (j + 1) cs)
              (λ others k. (rw (h, k.0) refl, ap (λ n. suc n) k.1)))

    validate_rule-again :
        (i : ℕ) (r : SubmittedRule F)
        → OnSaved (λ saved. validate_rule sum i saved ≡ valid saved) (validate_rule sum i r)
    unfolding validate_rule OnSaved AgainFor
    validate_rule-again i r = elim (Bool-cases (is_empty_accept r.action r.criteria)) [
      | inl e ↦ rw e tt
      | inr e ↦ rw e (
          on_valid-OnSaved (AgainFor i 0 r.criteria)
            (λ saved. validate_rule sum i saved ≡ valid saved)
            (validate_criteria sum i 0 r.criteria) _ (validate_criteria-AgainFor i 0 r.criteria)
            (λ saved k. rw (is_empty_accept-length r.action r.criteria saved k.1 ∙ e, k.0) refl))
    ]

    validate_rules_from-again :
        (i : ℕ) (rs : List (SubmittedRule F))
        → OnSaved
            (λ saved. validate_rules_from sum i saved ≡ valid saved)
            (validate_rules_from sum i rs)
    unfolding validate_rules_from OnSaved
    validate_rules_from-again i [] = refl
    validate_rules_from-again i (r ∷ rs) =
        on_valid-OnSaved (λ saved. validate_rule sum i saved ≡ valid saved)
          (λ saved. validate_rules_from sum i saved ≡ valid saved) (validate_rule sum i r) _
          (validate_rule-again i r)
          (λ saved h.
            on_valid-OnSaved (λ saved. validate_rules_from sum (i + 1) saved ≡ valid saved)
              (λ saved. validate_rules_from sum i saved ≡ valid saved)
              (validate_rules_from sum (i + 1) rs) _ (validate_rules_from-again (i + 1) rs)
              (λ others k. rw (h, k) refl))

    -- Where viem writes an address in a form that is an address and its own checksum form, a
    -- document that was saved passes validation again and is saved as it stands.
    pub validate_rules-again :
        (rules saved : List (SubmittedRule F))
        → validate_rules sum rules ≡ valid saved
        → validate_rules sum saved ≡ valid saved
    unfolding validate_rules OnSaved
    validate_rules-again rules saved h = rw h at (validate_rules_from-again 0 rules)
