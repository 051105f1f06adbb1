-- ===== src/Policy/Criteria/Calls.antt =====
-- The criteria on calldata: block-infinite-approvals, max-slippage and mev-protection of
-- policies/evaluators.
use guardian_wallet.Prelude.{
  ℕ, ◌-◌, ◌*◌, ◌/◌, Bool, true, false, not, ◌&&◌, ◌||◌, Option, none, some, List, [], ◌∷◌, leb, ltb,
  ◌==◌, if◌then◌else◌, Text, text_eq, codes, includes, truthy, length,
}
use guardian_wallet.Prelude.Int.{ℤ, pos, ltb_ℤ}
use guardian_wallet.Policy.Types.{Number, PolicyContext}
use guardian_wallet.Transfers.{
  Abi, approve_selector, increase_allowance_selector, permit2_approve_selector,
  set_approval_for_all_selector, uniswap_v2_swap_exact_tokens, uniswap_v2_swap_exact_eth,
  uniswap_v3_exact_input_single, effectively_unlimited, selector_of, params_of, on_decoded,
}

pub data ApprovalType : Type 0 where
  erc20 permit2 approval_for_all : ApprovalType

-- `APPROVAL_SELECTORS[selector]`
unfoldable pub approval_type : Text → Option ApprovalType
approval_type selector =
    if text_eq selector approve_selector || text_eq selector increase_allowance_selector
    then some erc20
    else if text_eq selector permit2_approve_selector
    then some permit2
    else if text_eq selector set_approval_for_all_selector
    then some approval_for_all
    else none

module _ (abi : Abi) where
  unfoldable pub approval_is_finite : ApprovalType → Text → Bool
  approval_is_finite erc20 params =
      on_decoded false (abi.address_uint256 params) (λ d. ltb d.1 effectively_unlimited)
  approval_is_finite permit2 params =
      on_decoded false (abi.address_address_uint160_uint48 params)
        (λ d. ltb d.2 effectively_unlimited)
  approval_is_finite approval_for_all params =
      on_decoded false (abi.address_bool params) (λ d. not d.1)

  -- The check of calldata that is there.
  unfoldable pub approvals_pass : Text → Bool
  approvals_pass data_hex = elim (approval_type (selector_of data_hex)) [
    | none ↦ true
    | some kind ↦ approval_is_finite kind (params_of data_hex)
  ]

  unfoldable pub block_infinite_approvals_evaluate : {F : Type 0} → Bool → PolicyContext F → Bool
  block_infinite_approvals_evaluate enabled ctx =
      if enabled
      then elim (truthy ctx.tx_data) [ none ↦ true | some data_hex ↦ approvals_pass data_hex ]
      else true

pub record SlippageParams : Type 0 where
  pub amount_in : ℕ
  pub amount_out_min : ℕ

abbrev pub swap_exact_tokens_for_eth : Text
swap_exact_tokens_for_eth = codes "0x18cbafe5"

abbrev pub swap_tokens_for_exact_tokens : Text
swap_tokens_for_exact_tokens = codes "0x8803dbee"

abbrev pub swap_tokens_for_exact_eth : Text
swap_tokens_for_exact_eth = codes "0x4a25d94a"

abbrev pub uniswap_v3_exact_input : Text
uniswap_v3_exact_input = codes "0xc04b8d59"

-- What `extractSlippageParams` does: it throws, it finds no slippage to check, or it returns the two
-- amounts.
pub data Extracted : Type 0 where
  throws : Extracted
  no_swap : Extracted
  amounts : SlippageParams → Extracted

abbrev pub or_throw {ℓ} : {A : Type ℓ} → Option A → (A → SlippageParams) → Extracted
or_throw none f = throws
or_throw (some a) f = amounts (f a)

module _ (abi : Abi) where
  unfoldable pub extract_slippage_params : Text → Text → Extracted
  extract_slippage_params selector params =
      if text_eq selector uniswap_v2_swap_exact_tokens || text_eq selector swap_exact_tokens_for_eth
      then or_throw (abi.uint256_uint256 params)
          (λ d. record { amount_in = d.0; amount_out_min = d.1 })
      else if text_eq selector uniswap_v2_swap_exact_eth
      then or_throw (abi.uint256 params) (λ d. record { amount_in = 1; amount_out_min = d })
      else if text_eq selector swap_tokens_for_exact_tokens
          || text_eq selector swap_tokens_for_exact_eth
      then no_swap
      else if text_eq selector uniswap_v3_exact_input_single
      then or_throw (abi.exact_input_single params)
          (λ d. record { amount_in = d.4; amount_out_min = d.6 })
      else if text_eq selector uniswap_v3_exact_input
      then or_throw (abi.exact_input params) (λ d. record { amount_in = d.3; amount_out_min = d.4 })
      else no_swap

-- `slippageBps > maxBps`; `none` is a limit that `BigInt` refuses, which blocks.
unfoldable pub over_limit : ℕ → Option ℤ → Bool
over_limit slippage_bps none = true
over_limit slippage_bps (some max_bps) = ltb_ℤ max_bps (pos slippage_bps)

-- The two levels of the check.
unfoldable pub slippage_passes : SlippageParams → Option ℤ → Bool
slippage_passes s max_bps =
    if s.amount_out_min == 0
    then false
    else if ltb 0 s.amount_in && ltb 0 s.amount_out_min && leb s.amount_out_min s.amount_in
    then not (over_limit ((s.amount_in - s.amount_out_min) * 10000 / s.amount_in) max_bps)
    else true

unfoldable pub extracted_passes : Extracted → Option ℤ → Bool
extracted_passes throws max_bps = false
extracted_passes no_swap max_bps = true
extracted_passes (amounts s) max_bps = slippage_passes s max_bps

module _ (abi : Abi) {F : Type 0} ⦃num : Number F⦄ where
  unfoldable pub max_slippage_evaluate : F → PolicyContext F → Bool
  max_slippage_evaluate max_percent ctx = elim (truthy ctx.tx_data) [
    | none ↦ true
    | some data_hex ↦
        if ltb (length data_hex) 10
        then true
        else extracted_passes
            (extract_slippage_params abi (selector_of data_hex) (params_of data_hex))
            (num.hundredths max_percent)
  ]

abbrev pub dex_selectors : List Text
dex_selectors =
    codes "0x38ed1739"
    ∷ codes "0x7ff36ab5"
    ∷ codes "0x8803dbee"
    ∷ codes "0x4a25d94a"
    ∷ codes "0x18cbafe5"
    ∷ codes "0x414bf389"
    ∷ codes "0xc04b8d59"
    ∷ codes "0xdb3e2198"
    ∷ codes "0xf28c0498"
    ∷ codes "0x5ae401dc"
    ∷ codes "0x2cc4081e"
    ∷ codes "0x12aa3caf"
    ∷ codes "0x0502b1c5"
    ∷ codes "0xe449022e"
    ∷ []

unfoldable pub is_swap_transaction : Option Text → Bool
is_swap_transaction none = false
is_swap_transaction (some data_hex) =
    if ltb (length data_hex) 10 then false else includes dex_selectors (selector_of data_hex)

unfoldable pub mev_protection_evaluate : {F : Type 0} → Bool → PolicyContext F → Bool
mev_protection_evaluate enabled ctx =
    if enabled then not (is_swap_transaction ctx.tx_data) else true
