-- ===== src/Policy/Criteria/Approvals.antt =====
-- Token approvals: the criterion against the check that always runs.
use guardian_wallet.Prelude.{
  ◌≡◌, Bool, true, false, Option, none, some, [], ◌∷◌, Text, truthy, arith,
}
use guardian_wallet.Policy.Types.{Number, PolicyContext, block_infinite_approvals}
use guardian_wallet.Transfers.{Abi, grants_unlimited, is_infinite_approval, selector_of, params_of}
use guardian_wallet.Policy.Criteria.{Host, evaluate_criterion}
use guardian_wallet.Policy.Criteria.Calls.{
  approval_type, approval_is_finite, approvals_pass, block_infinite_approvals_evaluate,
}

module _ (abi : Abi) where
  grants_unlimited-approvals_pass :
      (data_hex : Text)
      → grants_unlimited abi (selector_of data_hex) (params_of data_hex) ≡ true
      → approvals_pass abi data_hex ≡ false
  unfolding grants_unlimited approvals_pass approval_type approval_is_finite
  grants_unlimited-approvals_pass data_hex h = ground arith

  blocked :
      (d : Option Text)
      → is_infinite_approval abi d ≡ true
      → elim (truthy d) as (λ _. Bool) [ none ↦ true | some x ↦ approvals_pass abi x ] ≡ false
  unfolding is_infinite_approval
  blocked none h = cc
  blocked (some []) h = ground arith
  blocked (some (c ∷ s)) h = ground (arith, grants_unlimited-approvals_pass (c ∷ s))

-- The criterion is at least as strict as the check that always runs: calldata that the check takes
-- for an unlimited approval never meets the criterion when that is enabled.
pub is_infinite_approval-block_infinite_approvals :
    {F : Type 0} ⦃num : Number F⦄ (host : Host) (ctx : PolicyContext F)
    → is_infinite_approval host.abi ctx.tx_data ≡ true
    → evaluate_criterion host (block_infinite_approvals true) ctx ≡ false
unfolding evaluate_criterion block_infinite_approvals_evaluate is_infinite_approval
is_infinite_approval-block_infinite_approvals host ctx h = blocked host.abi ctx.tx_data h
