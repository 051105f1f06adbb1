-- ===== src/Transfers/Outflows/Reports.antt =====
-- What `decode` reports of a token transfer.
use guardian_wallet.Prelude.{
  ℕ, ◌≤◌, ◌≡◌, true, false, Option, none, some, List, [], ◌∷◌, ◌++◌, Text, text_eq, codes, length,
  or_else,
}
use guardian_wallet.Prelude.Effects.{returns}
use guardian_wallet.Policy.Types.{Number}
use guardian_wallet.Transfers.{Abi, selector_of, params_of, transfer_selector}
use guardian_wallet.Transfers.Outflows.{
  DecodedOutflow, TransactionOutflows, PriceOracle, Transfer, get_token_decimals,
}

module _ {F : Type 0} ⦃num : Number F⦄ (oracle : PriceOracle F) where
  -- A token transfer as it was decoded: it is sent to the token's address.
  pub record IsTransfer (abi : Abi) (tx : Transfer) (token recipient : Text) (amount : ℕ)
      : Type 0 where
    pub calldata : Text
    pub sent_to : tx.to ≡ some token
    pub not_native : text_eq token (codes "native") ≡ false
    pub is_known : text_eq token (codes "unknown") ≡ false
    pub present : tx.calldata ≡ some calldata
    pub long : 10 ≤ length calldata
    pub selector : selector_of calldata ≡ transfer_selector
    pub params : abi.address_uint256 (params_of calldata) ≡ some (recipient, amount)

  -- The value of an amount at a price: none where there is no price, or a price of 0 or NaN.
  pub data IsWorth (amount decimals : ℕ) : Option F → Option F → Type 0 where
    no_price : IsWorth amount decimals none none
    no_worth : (p : F) → num.is_truthy p ≡ false → IsWorth amount decimals (some p) none
    worth :
        (p : F)
        → num.is_truthy p ≡ true
        → IsWorth amount decimals (some p) (some (num.mul (num.of_units amount decimals) p))

  -- The outflows of native currency, and their sum in USD.
  pub data IsNative (tx : Transfer) : List (DecodedOutflow F) → F → Type 0 where
    no_value : or_else tx.value 0 ≡ 0 → IsNative tx [] num.zero
    some_value :
        (value : ℕ) (price usd : Option F)
        → tx.value ≡ some value
        → ¬ (value ≡ 0)
        → oracle.get_native_price tx.chain_id ≡ returns price
        → IsWorth value 18 price usd
        → IsNative tx
            (record { token = codes "native"; amount = value; usd_value = usd } ∷ [])
            (num.add num.zero (or_else usd num.zero))

  -- What is reported of a transfer.
  pub record IsReported (tx : Transfer) (token recipient : Text) (amount : ℕ)
      (out : TransactionOutflows F) : Type 0 where
    pub recipient_is : out.transfer_recipient ≡ some recipient
    pub native : List (DecodedOutflow F)
    pub native_sum : F
    pub native_is : IsNative tx native native_sum
    pub price : Option F
    pub quoted : oracle.get_token_price tx.chain_id token ≡ returns price
    pub usd_value : Option F
    pub priced : IsWorth amount (get_token_decimals tx.chain_id token) price usd_value
    pub outflows_are :
        out.outflows
        ≡ native ++ record { token = token; amount = amount; usd_value = usd_value } ∷ []
    pub summed : out.total_usd ≡ num.add native_sum (or_else usd_value num.zero)
