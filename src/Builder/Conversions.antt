-- ===== src/Builder/Conversions.antt =====
-- The conversions between the values of the form and rules: `buildRules` and `parseFormValues` of
-- packages/app/src/components/policy-builder/conversions.ts, and `buildRules` of
-- packages/wallet/src/lib/policy-conversions.ts (its `parseFormValues` is the same as that of the app).
pub mod Roundtrip
pub mod Meaning
use guardian_wallet.Prelude.{
  ℕ, Bool, true, false, not, ◌&&◌, ◌||◌, Option, none, some, List, [], ◌∷◌, ◌++◌, map, ◌==◌,
  if◌then◌else◌, Text, ◌≡◌, refl,
}
use guardian_wallet.Prelude.Effects.{Result, ok, throws}
use guardian_wallet.Policy.Types.{Number, is_in, not_in, Criterion, PolicyRule, accept, reject}
use guardian_wallet.Builder.Catalog.{
  Kind, evm_address, evm_address_blocked, max_per_tx_usd, daily_limit_usd, monthly_limit_usd,
  eth_value, rate_limit, time_window, block_infinite_approvals, max_slippage, mev_protection,
  malicious_address_blacklist, evm_network, evm_function, ip_address, catalog, always_on, Fields,
  no_fields, to_criterion, from_criterion, validate,
}

-- `meta.type`, by its place.
abbrev pub rank : Kind → ℕ
rank evm_address = 0
rank evm_address_blocked = 1
rank max_per_tx_usd = 2
rank daily_limit_usd = 3
rank monthly_limit_usd = 4
rank eth_value = 5
rank rate_limit = 6
rank time_window = 7
rank block_infinite_approvals = 8
rank max_slippage = 9
rank mev_protection = 10
rank malicious_address_blacklist = 11
rank evm_network = 12
rank evm_function = 13
rank ip_address = 14

-- `FormValues`, with `{}` where the source has none (`values[meta.type] ?? {}`), and `EnabledMap`.
abbrev pub FormValues : Type 0 → Type 0
FormValues F = Kind → Fields F

abbrev pub EnabledMap : Type 0
EnabledMap = Kind → Bool

pub record Form (F : Type 0) : Type 0 where
  pub values : FormValues F
  pub enabled : EnabledMap

-- `record[key] = value`
abbrev pub update : {A : Type 0} → (Kind → A) → Kind → A → Kind → A
update f k a j = if rank k == rank j then a else f j

-- Neither `continue` is taken.
abbrev pub is_built : EnabledMap → Kind → Bool
is_built enabled k = not (always_on k) && enabled k

abbrev pub rule_of : {F : Type 0} → List (Criterion F) → PolicyRule F
rule_of criteria = record {
  action = accept;
  criteria = criteria;
  description = none;
  enabled = none;
}

abbrev pub reject_of : {F : Type 0} → Criterion F → PolicyRule F
reject_of c = record { action = reject; criteria = c ∷ []; description = none; enabled = none }

-- `if (criteria.length === 0) return []; return [{ action: 'accept', criteria }]`
abbrev pub rules_of : {F : Type 0} → List (Criterion F) → List (PolicyRule F)
rules_of [] = []
rules_of (c ∷ cs) = rule_of (c ∷ cs) ∷ []

-- What follows a call that may throw.
abbrev pub mapped : {A B : Type 0} → Result A → (A → B) → Result B
mapped (ok a) f = ok (f a)
mapped (throws e) f = throws e

abbrev pub bound : {A B : Type 0} → Result A → (A → Result B) → Result B
bound (ok a) f = f a
bound (throws e) f = throws e

pub bound-mapped :
    {A B C : Type 0} (m : Result A) (n : Result B) (f : A → B → C) {r : C}
    → bound m (λ a. mapped n (f a)) ≡ ok r
    → (a : A) × (b : B) × (m ≡ ok a) × (n ≡ ok b) × (r ≡ f a b)
bound-mapped (ok a) (ok b) f h = (a, b, refl, refl, cc)
bound-mapped (ok a) (throws e) f h = cc
bound-mapped (throws e) n f h = cc

pub mapped-ok :
    {A B : Type 0} (m : Result A) (f : A → B) {b : B}
    → mapped m f ≡ ok b
    → (a : A) × (m ≡ ok a) × (b ≡ f a)
mapped-ok (ok a) f h = (a, refl, cc)
mapped-ok (throws e) f h = cc

-- `meta.type === 'evmAddressBlocked' || meta.type === 'blockInfiniteApprovals'`
abbrev pub is_reject_kind : Kind → Bool
is_reject_kind evm_address_blocked = true
is_reject_kind block_infinite_approvals = true
is_reject_kind _ = false

-- The two lists of the loop of the wallet, `rejectCriteria` and `acceptCriteria`.
pub record Split (F : Type 0) : Type 0 where
  pub rejects : List (Criterion F)
  pub accepts : List (Criterion F)

abbrev pub push_split : {F : Type 0} → Kind → Criterion F → Split F → Split F
push_split k c s =
    if is_reject_kind k
    then record s { rejects = c ∷ s.rejects }
    else record s { accepts = c ∷ s.accepts }

module _ {F : Type 0} where
  -- The type with which the catalog is asked: `evmAddress` with `not_in` is `evmAddressBlocked`; the limits in
  -- wei have no entry.
  abbrev pub resolved_type : Criterion F → Option Kind
  resolved_type (Criterion.eth_value _ _) = some eth_value
  resolved_type (Criterion.evm_address is_in _ _) = some evm_address
  resolved_type (Criterion.evm_address not_in _ _) = some evm_address_blocked
  resolved_type (Criterion.evm_network _ _) = some evm_network
  resolved_type (Criterion.evm_function _ _) = some evm_function
  resolved_type (Criterion.ip_address _ _) = some ip_address
  resolved_type (Criterion.rate_limit _) = some rate_limit
  resolved_type (Criterion.time_window _ _) = some time_window
  resolved_type (Criterion.daily_limit _) = none
  resolved_type (Criterion.monthly_limit _) = none
  resolved_type (Criterion.max_per_tx_usd _) = some max_per_tx_usd
  resolved_type (Criterion.daily_limit_usd _) = some daily_limit_usd
  resolved_type (Criterion.monthly_limit_usd _) = some monthly_limit_usd
  resolved_type (Criterion.block_infinite_approvals _) = some block_infinite_approvals
  resolved_type (Criterion.max_slippage _) = some max_slippage
  resolved_type (Criterion.mev_protection _) = some mev_protection

module _ {F : Type 0} ⦃num : Number F⦄ where
  -- The loop over the catalog.
  unfoldable pub collect : FormValues F → EnabledMap → List Kind → Result (List (Criterion F))
  collect values enabled [] = ok []
  collect values enabled (k ∷ ks) =
      let rest = collect values enabled ks in
      if is_built enabled k
      then bound (to_criterion k (values k)) (λ c. mapped rest (λ cs. c ∷ cs))
      else rest

  unfoldable pub build_rules : FormValues F → EnabledMap → Result (List (PolicyRule F))
  build_rules values enabled = mapped (collect values enabled catalog) rules_of

  unfoldable pub parse_criterion : Form F → Criterion F → Form F
  parse_criterion form c = elim (resolved_type c) [
    | none ↦ form
    | some k ↦ record {
      values = update form.values k (from_criterion c);
      enabled = update form.enabled k true;
    }
  ]

  unfoldable pub parse_criteria : Form F → List (Criterion F) → Form F
  parse_criteria form [] = form
  parse_criteria form (c ∷ cs) = parse_criteria (parse_criterion form c) cs

  unfoldable pub parse_rules : Form F → List (PolicyRule F) → Form F
  parse_rules form [] = form
  parse_rules form (r ∷ rs) = parse_rules (parse_criteria form r.criteria) rs

  unfoldable pub parse_form_values : List (PolicyRule F) → Form F
  parse_form_values rules =
      parse_rules (record { values = λ k. no_fields; enabled = λ k. false }) rules

  -- The loop of the wallet.
  unfoldable pub split_criteria : FormValues F → EnabledMap → List Kind → Result (Split F)
  split_criteria values enabled [] = ok (record { rejects = []; accepts = [] })
  split_criteria values enabled (k ∷ ks) =
      let rest = split_criteria values enabled ks in
      if is_built enabled k
      then bound (to_criterion k (values k)) (λ c. mapped rest (push_split k c))
      else rest

  abbrev pub split_rules : Split F → List (PolicyRule F)
  split_rules s = map reject_of s.rejects ++ rules_of s.accepts

  -- `buildRules` of the wallet.
  unfoldable pub wallet_build_rules : FormValues F → EnabledMap → Result (List (PolicyRule F))
  wallet_build_rules values enabled = mapped (split_criteria values enabled catalog) split_rules

  -- `validateAll`: the entries with their messages.
  unfoldable pub validate_all : FormValues F → EnabledMap → List Kind → List (Kind × Text)
  validate_all values enabled [] = []
  validate_all values enabled (k ∷ ks) =
      let rest = validate_all values enabled ks in
      if is_built enabled k
      then elim (validate k (values k)) [ none ↦ rest | some message ↦ (k, message) ∷ rest ]
      else rest
