-- ===== src/Transfers/Outflows/Pricing.antt =====
-- The total that `decode` reports where no price is known.
use guardian_wallet.Prelude.{
  ℕ, ◌≡◌, refl, true, Option, none, some, List, [], ◌∷◌, ◌++◌, ◌==◌, Text, Bool-cases, inl, inr,
  arith,
}
use guardian_wallet.Prelude.Effects.{returns}
use guardian_wallet.Policy.Types.{Number, max_per_tx_usd, PolicyContext}
use guardian_wallet.Policy.Criteria.{Host, evaluate_criterion}
use guardian_wallet.Policy.Criteria.Limits.{max_per_tx_usd_evaluate}
use guardian_wallet.Transfers.{Abi}
use guardian_wallet.Transfers.Outflows.{
  Outflow, DecodedOutflow, TransactionOutflows, PriceOracle, Transfer, decode_calldata, valued,
  price_outflow, native_outflow, calldata_outflow, total, decode,
}

module _ {F : Type 0} ⦃num : Number F⦄ (oracle : PriceOracle F) where
  -- The oracle has no price for anything.
  pub record HasNoPrices : Type 0 where
    pub native : (chain_id : ℕ) → oracle.get_native_price chain_id ≡ returns none
    pub token : (chain_id : ℕ) (t : Text) → oracle.get_token_price chain_id t ≡ returns none

  -- Outflows without a value in USD.
  abbrev AreUnpriced : List (DecodedOutflow F) → Type 0
  AreUnpriced [] = Unit
  AreUnpriced (o ∷ os) = (o.usd_value ≡ none) × AreUnpriced os

  AreUnpriced-append :
      (xs ys : List (DecodedOutflow F)) → AreUnpriced xs → AreUnpriced ys → AreUnpriced (xs ++ ys)
  AreUnpriced-append [] ys h k = k
  AreUnpriced-append (x ∷ xs) ys h k = (h.0, AreUnpriced-append xs ys h.1 k)

  total-AreUnpriced :
      (os : List (DecodedOutflow F))
      → num.add num.zero num.zero ≡ num.zero
      → AreUnpriced os
      → total num.zero os ≡ num.zero
  unfolding total
  total-AreUnpriced [] z h = refl
  total-AreUnpriced (o ∷ os) z h = rw (h.0, z) (total-AreUnpriced os z h.1)

  native-unpriced :
      (value : Option ℕ) (chain_id : ℕ)
      → HasNoPrices
      → (os : List (DecodedOutflow F)) × (native_outflow value chain_id oracle ≡ returns os)
        × AreUnpriced os
  unfolding native_outflow valued
  native-unpriced none chain_id h = ([], refl, tt)
  native-unpriced (some value) chain_id h = elim (Bool-cases (value == 0)) [
    | inl nothing ↦ rw (nothing, native_outflow) ([], refl, tt)
    | inr something ↦ rw (something, h.native chain_id, native_outflow) (_, refl, (refl, tt))
  ]

  price-unpriced :
      (o : Outflow) (chain_id : ℕ) → HasNoPrices → price_outflow o chain_id oracle ≡ returns none
  unfolding price_outflow valued
  price-unpriced o chain_id h = ground (arith, h.native chain_id, h.token chain_id o.token)

  calldata-unpriced :
      (d : Option (Outflow × Option Text)) (chain_id : ℕ)
      → HasNoPrices
      → (r : List (DecodedOutflow F) × Option Text) × (calldata_outflow d chain_id oracle
          ≡ returns r)
        × AreUnpriced r.0
  unfolding calldata_outflow
  calldata-unpriced none chain_id h = (([], none), refl, tt)
  calldata-unpriced (some (o, recipient)) chain_id h =
      rw (price-unpriced o chain_id h, calldata_outflow) (_, refl, (refl, tt))

  -- Where the oracle has no price, the decoder returns a total of 0 rather than none, and a limit in USD per
  -- transaction compares that 0: it lets the transaction pass whatever it moves, if the limit is not below 0.
  pub decode_unpriced :
      (abi : Abi) (tx : Transfer) (host : Host) (ctx : PolicyContext F) (max_usd : F)
      → HasNoPrices
      → num.add num.zero num.zero ≡ num.zero
      → num.leb num.zero max_usd ≡ true
      → (out : TransactionOutflows F) × (decode abi tx oracle ≡ returns out)
        × (out.total_usd ≡ num.zero)
        × (evaluate_criterion host
              (max_per_tx_usd max_usd)
              (record ctx { value_usd = some out.total_usd })
            ≡ true)
  unfolding decode evaluate_criterion max_per_tx_usd_evaluate
  decode_unpriced abi tx host ctx max_usd h z l =
      let (native, e, u) = native-unpriced tx.value tx.chain_id h in
      let (r, f, v) = calldata-unpriced (decode_calldata abi tx.calldata tx.to) tx.chain_id h in
      let sum : total num.zero (native ++ r.0) ≡ num.zero =
        total-AreUnpriced (native ++ r.0) z (AreUnpriced-append native r.0 u v) in
      rw (e, f, decode) (_, refl, sum, rw sum l)
