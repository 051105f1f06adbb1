-- ===== src/Transfers/Outflows.antt =====
-- What leaves the wallet in a transaction, and its value in USD: `decode`, `decodeCalldataWithRecipient`,
-- `priceOutflow` and `getTokenDecimals` of common/transfer-decoder.service.ts. The answers of the price
-- oracle are arguments. The warnings about unknown tokens are left out.
pub mod Pricing
pub mod Reports
use guardian_wallet.Prelude.{
  ℕ, ◌≡◌, refl, ap, ◌∙◌, Bool, true, false, Option, none, some, List, [], ◌∷◌, ◌++◌, if◌then◌else◌,
  ltb, leb, ◌==◌, Text, text_eq, to_lower, codes, length, or_else, Option-cases, inl, inr, arith,
  Bool-cases,
}
use guardian_wallet.Prelude.Effects.{Reply, returns, rejects}
use guardian_wallet.Policy.Types.{Number, max_per_tx_usd, PolicyContext}
use guardian_wallet.Policy.Criteria.{Host, evaluate_criterion}
use guardian_wallet.Policy.Criteria.Limits.{max_per_tx_usd_evaluate}
use guardian_wallet.Transfers.{
  Abi, selector_of, params_of, transfer_selector, transfer_from_selector,
  uniswap_v2_swap_exact_tokens, uniswap_v3_exact_input_single,
}

abbrev pub eth_decimals : ℕ
eth_decimals = 18

-- The known tokens of a chain with their decimals, by address in lower case.
unfoldable pub known_token_decimals : ℕ → List (Text × ℕ)
known_token_decimals chain_id =
    if chain_id == 1
    then (codes "0xa0b86991c6218b36c1d19d4a2e9eb0ce3606eb48", 6)
      ∷ (codes "0xdac17f958d2ee523a2206206994597c13d831ec7", 6)
      ∷ (codes "0x2260fac5e5542a773aa44fbcfedf7c193bc2c599", 8)
      ∷ []
    else if chain_id == 42161
    then (codes "0xaf88d065e77c8cc2239327c5edb3a432268e5831", 6)
      ∷ (codes "0xff970a61a04b1ca14834a43f5de4533ebddb5cc8", 6)
      ∷ (codes "0xfd086bc7cd5c481dcc9c85ebe478a1c0b69fcbb9", 6)
      ∷ (codes "0x2f2a2543b76a4166549f7aab2e75bef0aefc5b0f", 8)
      ∷ []
    else if chain_id == 8453
    then (codes "0x833589fcd6edb6e08f4c7c32d4f71b54bda02913", 6) ∷ []
    else if chain_id == 10
    then (codes "0x0b2c639c533813f4aa9d7837caf62653d097ff85", 6)
      ∷ (codes "0x7f5c764cbc14f9669b88837ca1490cca17c31607", 6)
      ∷ (codes "0x94b008aa00579c1307b0ef2c499ad98a8ce58e58", 6)
      ∷ (codes "0x68f180fcce6836688e9084f035309e29bf0a2095", 8)
      ∷ []
    else if chain_id == 137
    then (codes "0x3c499c542cef5e3811e1192ce70d8cc03d5c3359", 6)
      ∷ (codes "0x2791bca1f2de4661ed88a30c99a7a9449aa84174", 6)
      ∷ (codes "0xc2132d05d31c914a87c6611c10748aeb04b58e8f", 6)
      ∷ (codes "0x1bfd67037b42cf73acf2047067bd4f2c47d9bfd6", 8)
      ∷ []
    else []

unfoldable pub decimals_in : Text → List (Text × ℕ) → ℕ
decimals_in token [] = eth_decimals
decimals_in token ((t, d) ∷ ts) = if text_eq t token then d else decimals_in token ts

unfoldable pub get_token_decimals : ℕ → Text → ℕ
get_token_decimals chain_id token = decimals_in (to_lower token) (known_token_decimals chain_id)

pub record Outflow : Type 0 where
  pub token : Text
  pub amount : ℕ

pub record DecodedOutflow (F : Type 0) : Type 0 where
  pub token : Text
  pub amount : ℕ
  pub usd_value : Option F

pub record TransactionOutflows (F : Type 0) : Type 0 where
  pub outflows : List (DecodedOutflow F)
  pub total_usd : F
  pub transfer_recipient : Option Text

-- `getNativePrice` and `getTokenPrice`.
pub record PriceOracle (F : Type 0) : Type 0 where
  pub get_native_price : ℕ → Reply (Option F)
  pub get_token_price : ℕ → Text → Reply (Option F)

-- The fields of a transaction that `decode` reads.
pub record Transfer : Type 0 where
  pub value : Option ℕ
  pub calldata : Option Text
  pub to : Option Text
  pub chain_id : ℕ

abbrev pub on_returns : {A B : Type 0} → Reply A → (A → Reply B) → Reply B
on_returns (returns a) f = f a
on_returns (rejects e) f = rejects e

abbrev pub on_some : {A B : Type 0} → Option A → (A → B) → Option B
on_some none f = none
on_some (some a) f = some (f a)

module _ (abi : Abi) where
  -- `decodeCalldataWithRecipient`; a decoder that throws gives nothing.
  unfoldable pub decode_selected : Text → Text → Option Text → Option (Outflow × Option Text)
  decode_selected selector params to =
      let token = or_else to (codes "unknown") in
      if text_eq selector transfer_selector
      then on_some (abi.address_uint256 params)
          (λ d. (record { token = token; amount = d.1 }, some d.0))
      else if text_eq selector transfer_from_selector
      then on_some (abi.address_address_uint256 params)
          (λ d. (record { token = token; amount = d.2 }, some d.1))
      else if text_eq selector uniswap_v2_swap_exact_tokens
      then on_some (abi.uint256_uint256 params)
          (λ d. (record { token = codes "unknown"; amount = d.0 }, none))
      else if text_eq selector uniswap_v3_exact_input_single
      then on_some (abi.exact_input_single params) (λ d. (
        record { token = if abi.is_address d.0 then d.0 else codes "unknown"; amount = d.5 },
        none,
      ))
      else none

  unfoldable pub decode_calldata : Option Text → Option Text → Option (Outflow × Option Text)
  decode_calldata none to = none
  decode_calldata (some data_hex) to =
      if ltb (length data_hex) 10
      then none
      else decode_selected (selector_of data_hex) (params_of data_hex) to

module _ {F : Type 0} ⦃num : Number F⦄ where
  -- `price ? amount * price : undefined`
  unfoldable pub valued : ℕ → ℕ → Option F → Option F
  valued amount decimals none = none
  valued amount decimals (some price) =
      if num.is_truthy price then some (num.mul (num.of_units amount decimals) price) else none

  unfoldable pub price_outflow : Outflow → ℕ → PriceOracle F → Reply (Option F)
  price_outflow o chain_id oracle =
      if text_eq o.token (codes "native")
      then on_returns (oracle.get_native_price chain_id)
          (λ p. returns (valued o.amount eth_decimals p))
      else if text_eq o.token (codes "unknown")
      then returns none
      else on_returns (oracle.get_token_price chain_id o.token)
          (λ p. returns (valued o.amount (get_token_decimals chain_id o.token) p))

  unfoldable pub native_outflow : Option ℕ → ℕ → PriceOracle F → Reply (List (DecodedOutflow F))
  native_outflow none chain_id oracle = returns []
  native_outflow (some value) chain_id oracle =
      if value == 0
      then returns []
      else on_returns (oracle.get_native_price chain_id) (λ p. returns (
          record { token = codes "native"; amount = value; usd_value = valued value eth_decimals p }
          ∷ []))

  unfoldable pub calldata_outflow :
      Option (Outflow × Option Text)
      → ℕ
      → PriceOracle F
      → Reply (List (DecodedOutflow F) × Option Text)
  calldata_outflow none chain_id oracle = returns ([], none)
  calldata_outflow (some (o, recipient)) chain_id oracle =
      on_returns (price_outflow o chain_id oracle) (λ usd.
        returns (record { token = o.token; amount = o.amount; usd_value = usd } ∷ [], recipient))

  -- `outflows.reduce((sum, o) => sum + (o.usdValue ?? 0), 0)`
  unfoldable pub total : F → List (DecodedOutflow F) → F
  total sum [] = sum
  total sum (o ∷ os) = total (num.add sum (or_else o.usd_value num.zero)) os

  unfoldable pub decode : Abi → Transfer → PriceOracle F → Reply (TransactionOutflows F)
  decode abi tx oracle = on_returns (native_outflow tx.value tx.chain_id oracle) (λ native.
      on_returns (calldata_outflow (decode_calldata abi tx.calldata tx.to) tx.chain_id oracle)
        (λ decoded. returns (record {
          outflows = native ++ decoded.0;
          total_usd = total num.zero (native ++ decoded.0);
          transfer_recipient = decoded.1;
        })))
