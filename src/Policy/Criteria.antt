-- ===== src/Policy/Criteria.antt =====
-- The evaluator registry: packages/server/src/policies/evaluators/index.ts.
pub mod Limits
pub mod Targets
pub mod Calls
pub mod Reasons
pub mod Window
pub mod Approvals
pub mod Addresses
pub mod Slippage
use guardian_wallet.Prelude.{ℕ, Bool, false, Option, none, some, Text}
use guardian_wallet.Policy.Types.{
  Number, PolicyContext, Criterion, eth_value, evm_address, evm_network, evm_function, ip_address,
  rate_limit, time_window, daily_limit, monthly_limit, max_per_tx_usd, daily_limit_usd,
  monthly_limit_usd, block_infinite_approvals, max_slippage, mev_protection,
}
use guardian_wallet.Transfers.{Abi}
use Limits.{
  eth_value_evaluate, daily_limit_evaluate, monthly_limit_evaluate, rate_limit_evaluate,
  time_window_evaluate, max_per_tx_usd_evaluate, daily_limit_usd_evaluate,
  monthly_limit_usd_evaluate,
}
use Targets.{evm_address_evaluate, evm_network_evaluate, evm_function_evaluate, ip_address_evaluate}
use Calls.{block_infinite_approvals_evaluate, max_slippage_evaluate, mev_protection_evaluate}

-- The code outside the repository that evaluators call: the ABI decoder and node's `isIP`.
pub record Host : Type 0 where
  pub abi : Abi
  pub is_ip : Text → ℕ

-- The `catch` of `evaluateCriterion`: an error is a criterion that is not met.
abbrev pub or_false : Option Bool → Bool
or_false none = false
or_false (some b) = b

unfoldable pub evaluate_criterion :
    {F : Type 0} ⦃num : Number F⦄ → Host → Criterion F → PolicyContext F → Bool
evaluate_criterion host (eth_value operator value) ctx =
    or_false (eth_value_evaluate operator value ctx)
evaluate_criterion host (evm_address operator addresses allow_deploy) ctx =
    evm_address_evaluate operator addresses allow_deploy ctx
evaluate_criterion host (evm_network operator chain_ids) ctx =
    evm_network_evaluate operator chain_ids ctx
evaluate_criterion host (evm_function selectors allow_plain_transfer) ctx =
    evm_function_evaluate selectors allow_plain_transfer ctx
evaluate_criterion host (ip_address operator ips) ctx =
    ip_address_evaluate host.is_ip operator ips ctx
evaluate_criterion host (rate_limit max_per_hour) ctx = rate_limit_evaluate max_per_hour ctx
evaluate_criterion host (time_window start_hour end_hour) ctx =
    time_window_evaluate start_hour end_hour ctx
evaluate_criterion host (daily_limit max_wei) ctx = or_false (daily_limit_evaluate max_wei ctx)
evaluate_criterion host (monthly_limit max_wei) ctx = or_false (monthly_limit_evaluate max_wei ctx)
evaluate_criterion host (max_per_tx_usd max_usd) ctx = max_per_tx_usd_evaluate max_usd ctx
evaluate_criterion host (daily_limit_usd max_usd) ctx = daily_limit_usd_evaluate max_usd ctx
evaluate_criterion host (monthly_limit_usd max_usd) ctx = monthly_limit_usd_evaluate max_usd ctx
evaluate_criterion host (block_infinite_approvals enabled) ctx =
    block_infinite_approvals_evaluate host.abi enabled ctx
evaluate_criterion host (max_slippage max_percent) ctx =
    max_slippage_evaluate host.abi max_percent ctx
evaluate_criterion host (mev_protection enabled) ctx = mev_protection_evaluate enabled ctx
