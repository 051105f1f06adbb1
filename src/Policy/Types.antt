-- ===== src/Policy/Types.antt =====
-- The data of policies: packages/core/src/types/rules.ts,
-- packages/core/src/interfaces/policy-engine.interface.ts and enums/policy-type.ts.
use guardian_wallet.Prelude.{ℕ, Bool, Option, List, Text, codes}
use guardian_wallet.Prelude.Int.{ℤ}

-- JavaScript's `number` where the code computes with fractions. The language has no floats here, so
-- the type is a parameter and this record gives the operations that the code applies to it.
pub record Number (F : Type 0) : Type 0 where
  pub zero : F
  pub add : F → F → F
  pub mul : F → F → F
  pub leb : F → F → Bool
  pub is_finite : F → Bool
  pub is_nan : F → Bool
  -- Truthy: neither 0 nor NaN.
  pub is_truthy : F → Bool
  pub of_ℕ : ℕ → F
  -- `Number(formatUnits(amount, decimals))`
  pub of_units : ℕ → ℕ → F
  -- `BigInt(Math.round(x * 100))`; `none` where it throws.
  pub hundredths : F → Option ℤ
  -- `x.toFixed(2)`, `x.toLocaleString()`, and `${x}` on fractions and on whole numbers.
  pub to_fixed_2 : F → Text
  pub to_locale_string : F → Text
  pub to_string : F → Text
  pub int_to_string : ℕ → Text

pub data ComparisonOperator : Type 0 where
  le lt ge gt eq : ComparisonOperator

pub data SetOperator : Type 0 where
  is_in not_in : SetOperator

pub data Criterion (F : Type 0) : Type 0 where
  eth_value : (operator : ComparisonOperator) (value : Text) → Criterion F
  evm_address :
      (operator : SetOperator) (addresses : List Text) (allow_deploy : Option Bool) → Criterion F
  evm_network : (operator : SetOperator) (chain_ids : List ℕ) → Criterion F
  evm_function : (selectors : List Text) (allow_plain_transfer : Option Bool) → Criterion F
  ip_address : (operator : SetOperator) (ips : List Text) → Criterion F
  rate_limit : (max_per_hour : ℕ) → Criterion F
  time_window : (start_hour end_hour : ℕ) → Criterion F
  daily_limit : (max_wei : Text) → Criterion F
  monthly_limit : (max_wei : Text) → Criterion F
  max_per_tx_usd : (max_usd : F) → Criterion F
  daily_limit_usd : (max_usd : F) → Criterion F
  monthly_limit_usd : (max_usd : F) → Criterion F
  block_infinite_approvals : (enabled : Bool) → Criterion F
  max_slippage : (max_percent : F) → Criterion F
  mev_protection : (enabled : Bool) → Criterion F

-- `criterion.type`
abbrev pub criterion_type : {F : Type 0} → Criterion F → Text
criterion_type (eth_value _ _) = codes "ethValue"
criterion_type (evm_address _ _ _) = codes "evmAddress"
criterion_type (evm_network _ _) = codes "evmNetwork"
criterion_type (evm_function _ _) = codes "evmFunction"
criterion_type (ip_address _ _) = codes "ipAddress"
criterion_type (rate_limit _) = codes "rateLimit"
criterion_type (time_window _ _) = codes "timeWindow"
criterion_type (daily_limit _) = codes "dailyLimit"
criterion_type (monthly_limit _) = codes "monthlyLimit"
criterion_type (max_per_tx_usd _) = codes "maxPerTxUsd"
criterion_type (daily_limit_usd _) = codes "dailyLimitUsd"
criterion_type (monthly_limit_usd _) = codes "monthlyLimitUsd"
criterion_type (block_infinite_approvals _) = codes "blockInfiniteApprovals"
criterion_type (max_slippage _) = codes "maxSlippage"
criterion_type (mev_protection _) = codes "mevProtection"

pub data RuleAction : Type 0 where
  accept reject : RuleAction

pub record PolicyRule (F : Type 0) : Type 0 where
  pub action : RuleAction
  pub criteria : List (Criterion F)
  pub description : Option Text
  pub enabled : Option Bool

pub record PolicyDocument (F : Type 0) : Type 0 where
  pub id : Text
  pub signer_id : Text
  pub description : Option Text
  pub rules : List (PolicyRule F)
  pub version : ℕ
  pub created_at : Text
  pub updated_at : Text

pub data PolicyType : Type 0 where
  spending_limit daily_limit monthly_limit allowed_contracts allowed_functions : PolicyType
  blocked_addresses rate_limit time_window rule_reject default_deny : PolicyType

-- The shapes of `config` that the code writes: `{}`, the rule, the diagnosis of a default deny
-- (`failedCriterion`, which is its type, `rule`, `shortReason`), and the name of an always-on check.
pub data ViolationConfig (F : Type 0) : Type 0 where
  empty : ViolationConfig F
  rule : PolicyRule F → ViolationConfig F
  diagnosis :
      (failed_criterion : Text) (rule : Option Text) (short_reason : Text) → ViolationConfig F
  check : Text → ViolationConfig F

pub record PolicyViolation (F : Type 0) : Type 0 where
  pub policy_id : Text
  pub type : PolicyType
  pub reason : Text
  pub config : ViolationConfig F

pub record PolicyResult (F : Type 0) : Type 0 where
  pub allowed : Bool
  pub violations : List (PolicyViolation F)
  pub evaluated_count : ℕ
  pub evaluation_time_ms : ℕ

pub record PolicyContext (F : Type 0) : Type 0 where
  pub signer_address : Text
  pub to_address : Option Text
  pub value_wei : ℤ
  pub function_selector : Option Text
  pub chain_id : ℕ
  pub rolling_daily_spend_wei : ℤ
  pub rolling_monthly_spend_wei : ℤ
  pub request_count_last_hour : ℕ
  pub request_count_today : ℕ
  pub current_hour_utc : ℕ
  pub timestamp : ℕ
  pub tx_data : Option Text
  pub caller_ip : Option Text
  pub value_usd : Option F
  pub rolling_daily_spend_usd : Option F
  pub rolling_monthly_spend_usd : Option F
  pub transfer_recipient : Option Text
