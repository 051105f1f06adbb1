-- ===== src/Policy/Document/Nulls.antt =====
-- The criteria that `validateRules` skips.
use guardian_wallet.Prelude.{
  ℕ, ◌+◌, ◌≤◌, ◌≡◌, refl, false, Option, none, some, List, [], ◌∷◌, length, All, arith,
}
use guardian_wallet.Policy.Types.{Number, Criterion, RuleAction, accept, reject}
use guardian_wallet.Policy.Document.{
  SubmittedRule, Checksum, valid, validate_present, validate_criteria, is_empty_accept,
  validate_rule, validate_rules_from, validate_rules,
}

has_entry :
    {A : Type 0} (action : RuleAction) (cs : List A)
    → 1 ≤ length cs
    → is_empty_accept action cs ≡ false
has_entry action [] l = absurd (omega arith)
has_entry accept (c ∷ cs) l = refl
has_entry reject (c ∷ cs) l = refl

module _ {F : Type 0} ⦃num : Number F⦄ (sum : Checksum) where
  abbrev pub IsNull : Option (Criterion F) → Type 0
  IsNull none = Unit
  IsNull (some c) = ⊥

  -- A rule with a criterion, all of whose criteria are null.
  abbrev pub HasOnlyNulls : SubmittedRule F → Type 0
  HasOnlyNulls r = (1 ≤ length r.criteria) × All IsNull r.criteria

  validate_criteria-nulls :
      (i j : ℕ) (cs : List (Option (Criterion F)))
      → All IsNull cs
      → validate_criteria sum i j cs ≡ valid cs
  unfolding validate_criteria validate_present
  validate_criteria-nulls i j [] h = refl
  validate_criteria-nulls i j (none ∷ cs) h = rw (validate_criteria-nulls i (j + 1) cs h.1) refl
  validate_criteria-nulls i j (some c ∷ cs) h = absurd h.0

  validate_rules_from-nulls :
      (i : ℕ) (rules : List (SubmittedRule F))
      → All HasOnlyNulls rules
      → validate_rules_from sum i rules ≡ valid rules
  unfolding validate_rules_from validate_rule
  validate_rules_from-nulls i [] h = refl
  validate_rules_from-nulls i (r ∷ rules) h =
      rw
        (
          has_entry r.action r.criteria h.0.0,
          validate_criteria-nulls i 0 r.criteria h.0.1,
          validate_rules_from-nulls (i + 1) rules h.1,
        )
        refl

  -- Rules with at least one criterion each, of which every one is null, pass validation and are saved as
  -- they stand, accept rules included.
  pub validate_rules-nulls :
      (rules : List (SubmittedRule F))
      → All HasOnlyNulls rules
      → validate_rules sum rules ≡ valid rules
  unfolding validate_rules
  validate_rules-nulls rules h = validate_rules_from-nulls 0 rules h
