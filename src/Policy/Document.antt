-- ===== src/Policy/Document.antt =====
-- What a policy document has to be before it is saved:
-- packages/server/src/policies/policy-document.service.ts. The criteria have the types of
-- packages/core/src/types/rules.ts here, so that the tests of `typeof`, of operators, actions and kinds of
-- criteria hold by typing, but one may be missing: `validateRules` skips a criterion that is null. `isAddress` and `getAddress` of viem are parameters.
pub mod Validity
pub mod Stable
pub mod Nulls
use guardian_wallet.Prelude.{
  ℕ, ◌+◌, ◌≡◌, Bool, true, false, not, ◌&&◌, ◌||◌, Option, none, some, List, [], ◌∷◌, ◌++◌,
  if◌then◌else◌, leb, ltb, ◌==◌, all, Text, codes, slice_to, slice_from, length, text_eq, is_some,
  take, drop,
}
use guardian_wallet.Prelude.Effects.{Reply, returns, rejects}
use guardian_wallet.Policy.Types.{
  Number, Criterion, eth_value, evm_address, evm_network, evm_function, ip_address, rate_limit,
  time_window, daily_limit, monthly_limit, max_per_tx_usd, daily_limit_usd, monthly_limit_usd,
  block_infinite_approvals, max_slippage, mev_protection, RuleAction, accept, reject,
}
use guardian_wallet.Policy.Numerals.{natural}

-- A rule of a request body, where a criterion may be null.
pub record SubmittedRule (F : Type 0) : Type 0 where
  pub action : RuleAction
  pub criteria : List (Option (Criterion F))
  pub description : Option Text
  pub enabled : Option Bool

pub record Checksum : Type 0 where
  -- `isAddress(s, { strict: false })`
  pub is_address : Text → Bool
  pub get_address : Text → Text

abbrev pub max_hour : ℕ
max_hour = 23

abbrev pub max_slippage_percent : ℕ
max_slippage_percent = 100

-- The `BadRequestException`s: the indices of the prefix, and the message behind it.
pub data Invalid : Type 0 where
  invalid_rule : (rule : ℕ) → Text → Invalid
  invalid_criterion : (rule criterion : ℕ) → Text → Invalid

pub data Checked (A : Type 0) : Type 0 where
  valid : A → Checked A
  invalid : Invalid → Checked A

abbrev pub on_valid : {A B : Type 0} → Checked A → (A → Checked B) → Checked B
on_valid (valid a) f = f a
on_valid (invalid e) f = invalid e

-- `if (!test) throw`
abbrev pub passes : {A : Type 0} → Bool → Invalid → A → Checked A
passes true e a = valid a
passes false e a = invalid e

-- `/^\d+$/`
abbrev pub is_wei : Text → Bool
is_wei value = is_some (natural value)

abbrev pub is_hex_digit : ℕ → Bool
is_hex_digit c =
    (leb b'0' c && leb c b'9') || ((leb b'a' c && leb c b'f') || (leb b'A' c && leb c b'F'))

-- `/^0x[0-9a-fA-F]{8}$/`
unfoldable pub is_selector : Text → Bool
is_selector s =
    text_eq (slice_to 2 s) (codes "0x") && (length s == 10 && all is_hex_digit (slice_from 2 s))

-- The loop over the addresses: the first that is none is reported, the others are written anew.
unfoldable pub checked_addresses : Checksum → ℕ → ℕ → List Text → Checked (List Text)
checked_addresses sum i j [] = valid []
checked_addresses sum i j (a ∷ others) =
    let rest = checked_addresses sum i j others in
    if sum.is_address a
    then on_valid rest (λ written. valid (sum.get_address a ∷ written))
    else invalid (invalid_criterion i j (codes "invalid address \"" ++ (a ++ codes "\"")))

unfoldable pub checked_selectors : ℕ → ℕ → List Text → Checked (Unit {0})
checked_selectors i j [] = valid tt
checked_selectors i j (s ∷ ss) =
    let rest = checked_selectors i j ss in
    if is_selector s
    then rest
    else invalid (invalid_criterion i j (codes "invalid selector \"" ++ (s ++ codes "\"")))

abbrev pub wei_message : Text → Text
wei_message value =
    codes "wei value must be a non-negative integer string, got \"" ++ (value ++ codes "\"")

abbrev pub usd_message : Text
usd_message = codes "maxUsd must be a finite non-negative number"

-- `rule.criteria.length === 0 && rule.action !== 'reject'`
abbrev pub is_empty_accept : {A : Type 0} → RuleAction → List A → Bool
is_empty_accept accept [] = true
is_empty_accept reject [] = false
is_empty_accept _ (_ ∷ _) = false

module _ {F : Type 0} ⦃num : Number F⦄ where
  -- `Number.isFinite(x) && !(x < 0)`
  abbrev pub is_usd : F → Bool
  is_usd x = num.is_finite x && num.leb num.zero x

  -- `VALIDATORS`, one clause for each entry, with the criterion as it is saved.
  unfoldable pub validate_criterion : Checksum → ℕ → ℕ → Criterion F → Checked (Criterion F)
  validate_criterion sum i j (eth_value operator value) =
      passes (is_wei value) (invalid_criterion i j (wei_message value)) (eth_value operator value)
  validate_criterion sum i j (evm_address operator addresses allow_deploy) =
      on_valid (checked_addresses sum i j addresses)
        (λ written. valid (evm_address operator written allow_deploy))
  validate_criterion sum i j (evm_network operator chain_ids) =
      valid (evm_network operator chain_ids)
  validate_criterion sum i j (evm_function selectors allow_plain_transfer) =
      on_valid (checked_selectors i j selectors)
        (λ _. valid (evm_function selectors allow_plain_transfer))
  validate_criterion sum i j (ip_address operator ips) = valid (ip_address operator ips)
  validate_criterion sum i j (rate_limit max_per_hour) =
      passes (ltb 0 max_per_hour)
        (invalid_criterion i j (codes "maxPerHour must be a positive integer"))
        (rate_limit max_per_hour)
  validate_criterion sum i j (time_window start_hour end_hour) =
      passes (leb start_hour max_hour && leb end_hour max_hour)
        (invalid_criterion i j (codes "hours must be 0-23")) (time_window start_hour end_hour)
  validate_criterion sum i j (daily_limit max_wei) =
      passes (is_wei max_wei) (invalid_criterion i j (wei_message max_wei)) (daily_limit max_wei)
  validate_criterion sum i j (monthly_limit max_wei) =
      passes (is_wei max_wei) (invalid_criterion i j (wei_message max_wei)) (monthly_limit max_wei)
  validate_criterion sum i j (max_per_tx_usd max_usd) =
      passes (is_usd max_usd) (invalid_criterion i j usd_message) (max_per_tx_usd max_usd)
  validate_criterion sum i j (daily_limit_usd max_usd) =
      passes (is_usd max_usd) (invalid_criterion i j usd_message) (daily_limit_usd max_usd)
  validate_criterion sum i j (monthly_limit_usd max_usd) =
      passes (is_usd max_usd) (invalid_criterion i j usd_message) (monthly_limit_usd max_usd)
  validate_criterion sum i j (block_infinite_approvals enabled) =
      valid (block_infinite_approvals enabled)
  validate_criterion sum i j (max_slippage max_percent) =
      passes (is_usd max_percent && num.leb max_percent (num.of_ℕ max_slippage_percent))
        (invalid_criterion i j (codes "maxPercent must be a finite number 0-100"))
        (max_slippage max_percent)
  validate_criterion sum i j (mev_protection enabled) = valid (mev_protection enabled)

  -- `if (criterion) this.validateCriterion(criterion, i, j)`
  unfoldable pub validate_present :
      Checksum → ℕ → ℕ → Option (Criterion F) → Checked (Option (Criterion F))
  validate_present sum i j none = valid none
  validate_present sum i j (some c) =
      on_valid (validate_criterion sum i j c) (λ saved. valid (some saved))

  unfoldable pub validate_criteria :
      Checksum → ℕ → ℕ → List (Option (Criterion F)) → Checked (List (Option (Criterion F)))
  validate_criteria sum i j [] = valid []
  validate_criteria sum i j (c ∷ cs) =
      let rest = validate_criteria sum i (j + 1) cs in
      on_valid (validate_present sum i j c)
        (λ saved. on_valid rest (λ others. valid (saved ∷ others)))

  unfoldable pub validate_rule : Checksum → ℕ → SubmittedRule F → Checked (SubmittedRule F)
  validate_rule sum i r =
      let saved = validate_criteria sum i 0 r.criteria in
      if is_empty_accept r.action r.criteria
      then invalid (invalid_rule i (codes "must have at least one criterion"))
      else on_valid saved (λ criteria. valid (record r { criteria = criteria }))

  unfoldable pub validate_rules_from :
      Checksum → ℕ → List (SubmittedRule F) → Checked (List (SubmittedRule F))
  validate_rules_from sum i [] = valid []
  validate_rules_from sum i (r ∷ rs) =
      let rest = validate_rules_from sum (i + 1) rs in
      on_valid (validate_rule sum i r) (λ saved. on_valid rest (λ others. valid (saved ∷ others)))

  -- `validateRules`, with the rules that `save` hands to the repository.
  unfoldable pub validate_rules :
      Checksum → List (SubmittedRule F) → Checked (List (SubmittedRule F))
  validate_rules sum rules = validate_rules_from sum 0 rules
