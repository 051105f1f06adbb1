-- ===== src/Builder/Catalog.antt =====
-- The catalog of criteria: packages/core/src/criteria/catalog.ts, one clause for each entry. The fields of a
-- form have the types that the rules give them; `none` is a field that is undefined, for which `Number` is NaN.
pub mod Midnight
use guardian_wallet.Prelude.{
  ℕ, ◌≡◌, refl, Bool, true, false, not, ◌&&◌, ◌||◌, Option, none, some, List, [], ◌∷◌, ◌++◌, map,
  ltb, leb, ◌==◌, if◌then◌else◌, Text, codes, text_eq, or_else, all, length, slice_to, slice_from,
  is_empty,
}
use guardian_wallet.Prelude.Effects.{Result, ok, throws, failure}
use guardian_wallet.Policy.Types.{Number, ComparisonOperator, SetOperator, is_in, not_in, Criterion}
use guardian_wallet.Policy.Document.{is_hex_digit, is_selector}

-- `CriterionType` of criteria/types.ts, as far as the catalog has entries.
pub data Kind : Type 0 where
  evm_address evm_address_blocked max_per_tx_usd daily_limit_usd monthly_limit_usd eth_value : Kind
  rate_limit time_window block_infinite_approvals max_slippage mev_protection : Kind
  malicious_address_blacklist evm_network evm_function ip_address : Kind

-- `CRITERION_CATALOG`
abbrev pub catalog : List Kind
catalog =
    evm_address ∷ evm_address_blocked ∷ max_per_tx_usd ∷ daily_limit_usd ∷ monthly_limit_usd
    ∷ eth_value ∷ rate_limit ∷ time_window ∷ block_infinite_approvals ∷ max_slippage
    ∷ mev_protection ∷ malicious_address_blacklist ∷ evm_network ∷ evm_function ∷ ip_address ∷ []

-- `meta.alwaysOn`
abbrev pub always_on : Kind → Bool
always_on malicious_address_blacklist = true
always_on _ = false

-- `Record<string, unknown>`: the fields of every entry together.
pub record Fields (F : Type 0) : Type 0 where
  pub operator : Option ComparisonOperator
  pub value : Option Text
  pub addresses : Option (List Text)
  pub allow_deploy : Option Bool
  pub max_usd : Option F
  pub max_per_hour : Option ℕ
  pub start_hour : Option ℕ
  pub end_hour : Option ℕ
  pub enabled : Option Bool
  pub max_percent : Option F
  pub chain_ids : Option (List ℕ)
  pub selectors : Option (List Text)
  pub allow_plain_transfer : Option Bool
  pub ips : Option (List Text)

-- `{}`
abbrev pub no_fields : {F : Type 0} → Fields F
no_fields = record {
  operator = none;
  value = none;
  addresses = none;
  allow_deploy = none;
  max_usd = none;
  max_per_hour = none;
  start_hour = none;
  end_hour = none;
  enabled = none;
  max_percent = none;
  chain_ids = none;
  selectors = none;
  allow_plain_transfer = none;
  ips = none;
}

-- `Number(x) || d` on a whole number.
abbrev pub number_or : Option ℕ → ℕ → ℕ
number_or none d = d
number_or (some n) d = if n == 0 then d else n

-- `x !== false`
abbrev pub is_on : Option Bool → Bool
is_on (some false) = false
is_on _ = true

-- Comparisons with NaN are false.
abbrev pub above : Option ℕ → Bool
above none = false
above (some n) = ltb 23 n

abbrev pub same : Option ℕ → Option ℕ → Bool
same (some a) (some b) = a == b
same _ _ = false

-- `/^0x[0-9a-fA-F]{40}$/`
unfoldable pub is_valid_address : Text → Bool
is_valid_address s =
    text_eq (slice_to 2 s) (codes "0x") && (length s == 42 && all is_hex_digit (slice_from 2 s))

-- The loops of `validate` over addresses and selectors: the first that fails is told.
unfoldable pub first_invalid : (Text → Bool) → Text → List Text → Option Text
first_invalid test message [] = none
first_invalid test message (s ∷ ss) =
    let rest = first_invalid test message ss in if test s then rest else some (message ++ s)

abbrev pub hours_error : Option ℕ → Option ℕ → Option Text
hours_error start_hour end_hour =
    if above start_hour
    then some (codes "Start hour must be between 0 and 23")
    else if above end_hour
    then some (codes "End hour must be between 0 and 23")
    else if same start_hour end_hour
    then some (codes "Start and end hours must be different")
    else none

abbrev pub required : {A : Type 0} → Option (List A) → Text → Option Text
required (some (_ ∷ _)) message = none
required _ message = some message

abbrev pub value_error : Option Text → Text → Option Text
value_error none message = some message
value_error (some s) message = if is_empty s then some message else none

abbrev pub rate_error : Option ℕ → Text → Option Text
rate_error none message = some message
rate_error (some n) message = if n == 0 then some message else none

module _ {F : Type 0} ⦃num : Number F⦄ where
  -- `Number(x) || d`
  abbrev pub amount_or : Option F → F → F
  amount_or none d = d
  amount_or (some x) d = if num.is_truthy x then x else d

  abbrev pub rate_of : Option ℕ → Result (Criterion F)
  rate_of none = throws (failure (codes "rateLimit maxPerHour must be a positive number"))
  rate_of (some n) =
      if n == 0
      then throws (failure (codes "rateLimit maxPerHour must be a positive number"))
      else ok (Criterion.rate_limit n)

  -- `toCriterion`; that of the entry which is always on, `{}`, is never called.
  unfoldable pub to_criterion : Kind → Fields F → Result (Criterion F)
  to_criterion evm_address v =
      ok
        (Criterion.evm_address is_in (or_else v.addresses []) (some (or_else v.allow_deploy false)))
  to_criterion evm_address_blocked v =
      ok (Criterion.evm_address not_in (or_else v.addresses []) none)
  to_criterion max_per_tx_usd v = ok (Criterion.max_per_tx_usd (amount_or v.max_usd num.zero))
  to_criterion daily_limit_usd v = ok (Criterion.daily_limit_usd (amount_or v.max_usd num.zero))
  to_criterion monthly_limit_usd v = ok (Criterion.monthly_limit_usd (amount_or v.max_usd num.zero))
  to_criterion eth_value v =
      ok (
        Criterion.eth_value (or_else v.operator ComparisonOperator.le)
          (or_else v.value (codes "0")))
  to_criterion rate_limit v = rate_of v.max_per_hour
  to_criterion time_window v =
      ok (Criterion.time_window (number_or v.start_hour 0) (number_or v.end_hour 23))
  to_criterion block_infinite_approvals v =
      ok (Criterion.block_infinite_approvals (is_on v.enabled))
  to_criterion max_slippage v = ok (Criterion.max_slippage (amount_or v.max_percent (num.of_ℕ 2)))
  to_criterion mev_protection v = ok (Criterion.mev_protection (is_on v.enabled))
  to_criterion malicious_address_blacklist v = throws (failure [])
  to_criterion evm_network v = ok (Criterion.evm_network is_in (or_else v.chain_ids []))
  to_criterion evm_function v =
      ok (
        Criterion.evm_function (or_else v.selectors [])
          (some (or_else v.allow_plain_transfer true)))
  to_criterion ip_address v = ok (Criterion.ip_address is_in (or_else v.ips []))

  -- `fromCriterion` of the entry for a criterion; the limits in wei, which only the server knows, have none.
  unfoldable pub from_criterion : Criterion F → Fields F
  from_criterion (Criterion.eth_value operator value) = record no_fields {
    operator = some operator;
    value = some value;
  }
  from_criterion (Criterion.evm_address is_in addresses allow_deploy) = record no_fields {
    addresses = some addresses;
    allow_deploy = some (or_else allow_deploy false);
  }
  from_criterion (Criterion.evm_address not_in addresses allow_deploy) = record no_fields {
    addresses = some addresses;
  }
  from_criterion (Criterion.evm_network operator chain_ids) = record no_fields {
    chain_ids = some chain_ids;
  }
  from_criterion (Criterion.evm_function selectors allow_plain_transfer) = record no_fields {
    selectors = some selectors;
    allow_plain_transfer = some (or_else allow_plain_transfer true);
  }
  from_criterion (Criterion.ip_address operator ips) = record no_fields { ips = some ips }
  from_criterion (Criterion.rate_limit max_per_hour) = record no_fields {
    max_per_hour = some max_per_hour;
  }
  from_criterion (Criterion.time_window start_hour end_hour) = record no_fields {
    start_hour = some start_hour;
    end_hour = some end_hour;
  }
  from_criterion (Criterion.daily_limit _) = no_fields
  from_criterion (Criterion.monthly_limit _) = no_fields
  from_criterion (Criterion.max_per_tx_usd max_usd) = record no_fields { max_usd = some max_usd }
  from_criterion (Criterion.daily_limit_usd max_usd) = record no_fields { max_usd = some max_usd }
  from_criterion (Criterion.monthly_limit_usd max_usd) = record no_fields { max_usd = some max_usd }
  from_criterion (Criterion.block_infinite_approvals enabled) = record no_fields {
    enabled = some enabled;
  }
  from_criterion (Criterion.max_slippage max_percent) = record no_fields {
    max_percent = some max_percent;
  }
  from_criterion (Criterion.mev_protection enabled) = record no_fields { enabled = some enabled }

  abbrev pub usd_error : Option F → Text → Option Text
  usd_error none message = some message
  usd_error (some n) message = if num.is_nan n || num.leb n num.zero then some message else none

  -- `Number.isNaN(n) || n < 0 || n > 100`, where a number that is not NaN is below another if it is not above
  -- or equal.
  abbrev pub percent_error : Option F → Text → Option Text
  percent_error none message = some message
  percent_error (some n) message =
      if num.is_nan n || (not (num.leb num.zero n) || not (num.leb n (num.of_ℕ 100)))
      then some message
      else none

  -- `validate`, with the message for the user.
  unfoldable pub validate : Kind → Fields F → Option Text
  validate evm_address v =
      first_invalid is_valid_address (codes "Invalid address: ") (or_else v.addresses [])
  validate evm_address_blocked v =
      first_invalid is_valid_address (codes "Invalid address: ") (or_else v.addresses [])
  validate max_per_tx_usd v = usd_error v.max_usd (codes "Enter a max amount per transaction")
  validate daily_limit_usd v = usd_error v.max_usd (codes "Enter a daily spending limit")
  validate monthly_limit_usd v = usd_error v.max_usd (codes "Enter a monthly spending limit")
  validate eth_value v = value_error v.value (codes "Enter a max transaction value")
  validate rate_limit v = rate_error v.max_per_hour (codes "Enter a rate limit (requests per hour)")
  validate time_window v = hours_error v.start_hour v.end_hour
  validate block_infinite_approvals v = none
  validate max_slippage v =
      percent_error v.max_percent (codes "Enter a slippage percentage (0–100)")
  validate mev_protection v = none
  validate malicious_address_blacklist v = none
  validate evm_network v = required v.chain_ids (codes "Select at least one network")
  validate evm_function v =
      first_invalid is_selector (codes "Invalid selector: ") (or_else v.selectors [])
  validate ip_address v = none
