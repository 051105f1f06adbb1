-- ===== src/Policy/Criteria/Slippage.antt =====
-- What the slippage criterion lets through.
use guardian_wallet.Prelude.{
  ℕ, ◌-◌, ◌*◌, ◌/◌, ◌≤◌, ◌<◌, ◌≡◌, refl, ◌↔◌, ◌⊎◌, Bool, true, false, Option, none, some,
  if◌then◌else◌, [], ◌∷◌, ltb, Text, text_eq, text_eq_iff, length, truthy, arith,
}
use guardian_wallet.Prelude.Int.{ℤ, pos}
use guardian_wallet.Policy.Types.{Number, PolicyContext, max_slippage}
use guardian_wallet.Transfers.{
  Abi, uniswap_v2_swap_exact_eth, has_zero_minimum, is_zero_slippage_swap, selector_of, params_of,
  uniswap_v2_swap_exact_tokens, uniswap_v3_exact_input_single,
}
use guardian_wallet.Policy.Criteria.{Host, evaluate_criterion}
use guardian_wallet.Policy.Criteria.Calls.{
  swap_exact_tokens_for_eth, SlippageParams, or_throw, extract_slippage_params, over_limit,
  slippage_passes, extracted_passes, max_slippage_evaluate,
}

slippage_passes_iff :
    (s : SlippageParams) (max_bps : ℕ)
    → (slippage_passes s (some (pos max_bps)) ≡ true) ↔ (
        (0 < s.amount_out_min)
        × ((s.amount_in < s.amount_out_min)
            ⊎ ((s.amount_in - s.amount_out_min) * 10000 / s.amount_in ≤ max_bps)))
unfolding slippage_passes over_limit
slippage_passes_iff s max_bps = (λ h. (ground arith, ground arith), λ h. ground arith)

module _ (abi : Abi) where
  -- The selectors that the check of zero slippage knows are told apart as the criterion does.
  zero_minimum_blocked :
      (selector params : Text) (o : Option ℤ)
      → has_zero_minimum abi selector params ≡ true
      → extracted_passes (extract_slippage_params abi selector params) o ≡ false
  unfolding has_zero_minimum extract_slippage_params extracted_passes slippage_passes
  zero_minimum_blocked selector params o h = ground (
    arith,
    text_eq_iff selector uniswap_v2_swap_exact_eth,
    text_eq_iff selector swap_exact_tokens_for_eth,
  )

  blocked :
      (d : Option Text) (o : Option ℤ)
      → is_zero_slippage_swap abi d ≡ true
      → elim (truthy d) as (λ _. Bool) [
        | none ↦ true
        | some x ↦
            if ltb (length x) 10
            then true
            else extracted_passes (extract_slippage_params abi (selector_of x) (params_of x)) o
      ]
        ≡ false
  unfolding is_zero_slippage_swap
  blocked none o h = cc
  blocked (some []) o h = ground arith
  blocked (some (c ∷ s)) o h =
      ground (arith, zero_minimum_blocked (selector_of (c ∷ s)) (params_of (c ∷ s)) o)

  extract-exact_tokens :
      (params : Text)
      → extract_slippage_params abi uniswap_v2_swap_exact_tokens params
        ≡ or_throw
            (abi.uint256_uint256 params)
            (λ d. record { amount_in = d.0; amount_out_min = d.1 })
  unfolding extract_slippage_params text_eq
  extract-exact_tokens params = refl

  extract-exact_input_single :
      (params : Text)
      → extract_slippage_params abi uniswap_v3_exact_input_single params
        ≡ or_throw
            (abi.exact_input_single params)
            (λ d. record { amount_in = d.4; amount_out_min = d.6 })
  unfolding extract_slippage_params text_eq
  extract-exact_input_single params = refl

-- A swap that the check which always runs takes for one without a minimum never meets the criterion,
-- whatever the limit.
pub is_zero_slippage_swap-max_slippage :
    {F : Type 0} ⦃num : Number F⦄ (host : Host) (ctx : PolicyContext F) (max_percent : F)
    → is_zero_slippage_swap host.abi ctx.tx_data ≡ true
    → evaluate_criterion host (max_slippage max_percent) ctx ≡ false
unfolding evaluate_criterion max_slippage_evaluate
is_zero_slippage_swap-max_slippage ⦃num⦄ host ctx max_percent h =
    blocked host.abi ctx.tx_data (num.hundredths max_percent) h

-- Calldata with a selector, long enough to be read.
pub record IsCall (d : Option Text) (selector params : Text) : Type 0 where
  pub calldata : Text
  pub present : truthy d ≡ some calldata
  pub long : 10 ≤ length calldata
  pub selector_is : selector_of calldata ≡ selector
  pub params_are : params_of calldata ≡ params

module _ {F : Type 0} ⦃num : Number F⦄ (host : Host) (ctx : PolicyContext F) (max_percent : F) where
  -- The criterion on a call is the check of what is extracted from it.
  max_slippage-IsCall :
      {selector params : Text}
      → IsCall ctx.tx_data selector params
      → evaluate_criterion host (max_slippage max_percent) ctx
        ≡ extracted_passes
            (extract_slippage_params host.abi selector params)
            (num.hundredths max_percent)
  unfolding evaluate_criterion max_slippage_evaluate
  max_slippage-IsCall k = ground (arith, k.long)

  -- A swap of exact tokens for tokens meets the criterion exactly when its minimum is not zero and,
  -- unless the minimum exceeds the amount that goes in, the slippage in hundredths of a percent,
  -- rounded down, does not exceed the limit.
  pub max_slippage-exact_tokens_iff :
      {params : Text} (amount_in amount_out_min max_bps : ℕ)
      → IsCall ctx.tx_data uniswap_v2_swap_exact_tokens params
      → host.abi.uint256_uint256 params ≡ some (amount_in, amount_out_min)
      → num.hundredths max_percent ≡ some (pos max_bps)
      → (evaluate_criterion host (max_slippage max_percent) ctx ≡ true) ↔ (
          (0 < amount_out_min)
          × ((amount_in < amount_out_min)
              ⊎ ((amount_in - amount_out_min) * 10000 / amount_in ≤ max_bps)))
  unfolding extracted_passes
  max_slippage-exact_tokens_iff {params} amount_in amount_out_min max_bps k decoded limit =
      rw (max_slippage-IsCall k, limit, extract-exact_tokens host.abi params, decoded)
        (slippage_passes_iff (record { amount_in = amount_in; amount_out_min = amount_out_min })
          max_bps)

  -- For the single-pool swap of Uniswap V3 the amount that goes in plays no part: whenever the
  -- minimum exceeds the deadline of the call, the criterion is met under every limit.
  pub max_slippage-exact_input_single_unchecked :
      {params : Text} (token_in token_out recipient : Text)
      (fee deadline amount_in amount_out_min price_limit : ℕ)
      → IsCall ctx.tx_data uniswap_v3_exact_input_single params
      → host.abi.exact_input_single params
        ≡ some
            (token_in, token_out, fee, recipient, deadline, amount_in, amount_out_min, price_limit)
      → deadline < amount_out_min
      → evaluate_criterion host (max_slippage max_percent) ctx ≡ true
  unfolding extracted_passes slippage_passes
  max_slippage-exact_input_single_unchecked {params} token_in token_out recipient fee deadline
        amount_in amount_out_min price_limit k decoded late =
      rw (max_slippage-IsCall k, extract-exact_input_single host.abi params, decoded) (ground arith)
