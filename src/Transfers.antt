-- ===== src/Transfers.antt =====
-- The calldata decoder: packages/server/src/common/transfer-decoder.service.ts. The ABI decoder of
-- viem is a parameter: a record with one function for each list of types that the code decodes.
pub mod Outflows
pub mod Oracle
use guardian_wallet.Prelude.{
  ℕ, ◌-◌, ◌^◌, Bool, false, ◌||◌, Option, none, some, ◌∷◌, leb, ltb, ◌==◌, if◌then◌else◌, Text,
  text_eq, to_lower, codes, slice_to, slice_from, length,
}

-- `decodeAbiParameters(types, params)`; `none` where it throws.
pub record Abi : Type 0 where
  pub address_uint256 : Text → Option (Text × ℕ)
  pub address_address_uint256 : Text → Option (Text × Text × ℕ)
  pub address_address_uint160_uint48 : Text → Option (Text × Text × ℕ × ℕ)
  pub address_bool : Text → Option (Text × Bool)
  pub uint256 : Text → Option ℕ
  pub uint256_uint256 : Text → Option (ℕ × ℕ)
  -- `address, address, uint24, address, uint256, uint256, uint256, uint160`
  pub exact_input_single : Text → Option (Text × Text × ℕ × Text × ℕ × ℕ × ℕ × ℕ)
  -- `bytes, address, uint256, uint256, uint256`
  pub exact_input : Text → Option (Text × Text × ℕ × ℕ × ℕ)
  -- `isAddress(s)`
  pub is_address : Text → Bool

abbrev pub transfer_selector : Text
transfer_selector = codes "0xa9059cbb"

abbrev pub transfer_from_selector : Text
transfer_from_selector = codes "0x23b872dd"

abbrev pub approve_selector : Text
approve_selector = codes "0x095ea7b3"

abbrev pub increase_allowance_selector : Text
increase_allowance_selector = codes "0x39509351"

abbrev pub permit2_approve_selector : Text
permit2_approve_selector = codes "0x87517c45"

abbrev pub set_approval_for_all_selector : Text
set_approval_for_all_selector = codes "0xa22cb465"

abbrev pub uniswap_v2_swap_exact_tokens : Text
uniswap_v2_swap_exact_tokens = codes "0x38ed1739"

abbrev pub uniswap_v2_swap_exact_eth : Text
uniswap_v2_swap_exact_eth = codes "0x7ff36ab5"

abbrev pub uniswap_v3_exact_input_single : Text
uniswap_v3_exact_input_single = codes "0x414bf389"

abbrev pub effectively_unlimited : ℕ
effectively_unlimited = 2 ^ 128

abbrev pub permit2_max : ℕ
permit2_max = 2 ^ 160 - 1

-- `data.slice(0, 10).toLowerCase()`
unfoldable pub selector_of : Text → Text
selector_of data_hex = to_lower (slice_to 10 data_hex)

-- `0x${data.slice(10)}`
unfoldable pub params_of : Text → Text
params_of data_hex = b'0' ∷ b'x' ∷ slice_from 10 data_hex

-- What the `catch` of a check returns, and what the check says of a decoded value.
abbrev pub on_decoded {ℓ} : {A : Type ℓ} → Bool → Option A → (A → Bool) → Bool
on_decoded caught none f = caught
on_decoded caught (some a) f = f a

module _ (abi : Abi) where
  -- `isInfiniteApproval` after the check of the length.
  unfoldable pub grants_unlimited : Text → Text → Bool
  grants_unlimited selector params =
      if text_eq selector approve_selector || text_eq selector increase_allowance_selector
      then on_decoded false (abi.address_uint256 params) (λ d. leb effectively_unlimited d.1)
      else if text_eq selector permit2_approve_selector
      then on_decoded false (abi.address_address_uint160_uint48 params) (λ d. leb permit2_max d.2)
      else if text_eq selector set_approval_for_all_selector
      then on_decoded false (abi.address_bool params) (λ d. d.1)
      else false

  unfoldable pub is_infinite_approval : Option Text → Bool
  is_infinite_approval none = false
  is_infinite_approval (some data_hex) =
      if ltb (length data_hex) 10
      then false
      else grants_unlimited (selector_of data_hex) (params_of data_hex)

  unfoldable pub has_zero_minimum : Text → Text → Bool
  has_zero_minimum selector params =
      if text_eq selector uniswap_v2_swap_exact_tokens
      then on_decoded false (abi.uint256_uint256 params) (λ d. d.1 == 0)
      else if text_eq selector uniswap_v2_swap_exact_eth
      then on_decoded false (abi.uint256 params) (λ d. d == 0)
      else false

  unfoldable pub is_zero_slippage_swap : Option Text → Bool
  is_zero_slippage_swap none = false
  is_zero_slippage_swap (some data_hex) =
      if ltb (length data_hex) 10
      then false
      else has_zero_minimum (selector_of data_hex) (params_of data_hex)
