-- ===== src/Policy/AlwaysOn/Calldata.antt =====
-- The swaps and the approvals that the checks that always run look for, by the calldata.
use guardian_wallet.Prelude.{
  ℕ, ◌≤◌, ◌≡◌, ◌⊎◌, ◌^◌, ◌-◌, inl, inr, refl, true, false, some, Text, codes, text_eq, text_eq_iff,
  text_eq_refl, length, ltb, leb, ==_iff, Bool-cases, Option-cases, arith, le→ltb,
}
use guardian_wallet.Transfers.{
  Abi, selector_of, params_of, has_zero_minimum, is_zero_slippage_swap, grants_unlimited,
  is_infinite_approval, on_decoded,
}

leb→le : (a b : ℕ) → leb a b ≡ true → a ≤ b
leb→le a b h = ground arith

module _ (abi : Abi) where
  -- A swap by one of two functions of Uniswap V2 whose decoded minimum is 0.
  pub data IsZeroMinimumSwap (calldata : Text) : Type 0 where
    exact_tokens :
        (amount : ℕ)
        → 10 ≤ length calldata
        → selector_of calldata ≡ codes "0x38ed1739"
        → abi.uint256_uint256 (params_of calldata) ≡ some (amount, 0)
        → IsZeroMinimumSwap calldata
    exact_eth :
        10 ≤ length calldata
        → selector_of calldata ≡ codes "0x7ff36ab5"
        → abi.uint256 (params_of calldata) ≡ some 0
        → IsZeroMinimumSwap calldata

  pub IsZeroMinimumSwap-from :
      (calldata : Text)
      → is_zero_slippage_swap abi (some calldata) ≡ true
      → IsZeroMinimumSwap calldata
  unfolding is_zero_slippage_swap has_zero_minimum
  IsZeroMinimumSwap-from calldata h = elim (Bool-cases (ltb (length calldata) 10)) [
    | inl short ↦ absurd (ground arith)
    | inr long ↦
        let enough : 10 ≤ length calldata = ground (arith, long) in
        elim (Bool-cases (text_eq (selector_of calldata) (codes "0x38ed1739"))) [
          | inl tokens ↦ elim (Option-cases (abi.uint256_uint256 (params_of calldata))) [
            | inl absent ↦
                absurd
                  (cc (rw (is_zero_slippage_swap, long, has_zero_minimum, tokens, absent) at h))
            | inr ((amount, minimum), e) ↦
                let zero =
                  (==_iff minimum 0).0
                    (rw (is_zero_slippage_swap, long, has_zero_minimum, tokens, e) at h) in
                exact_tokens amount enough
                  ((text_eq_iff (selector_of calldata) (codes "0x38ed1739")).0 tokens)
                  (rw zero at e)
          ]
          | inr other ↦ elim (Bool-cases (text_eq (selector_of calldata) (codes "0x7ff36ab5"))) [
            | inl eth ↦ elim (Option-cases (abi.uint256 (params_of calldata))) [
              | inl absent ↦
                  absurd (
                    cc
                      (rw (is_zero_slippage_swap, long, has_zero_minimum, other, eth, absent) at h))
              | inr (minimum, e) ↦
                  let zero =
                    (==_iff minimum 0).0
                      (rw (is_zero_slippage_swap, long, has_zero_minimum, other, eth, e) at h) in
                  exact_eth enough ((text_eq_iff (selector_of calldata) (codes "0x7ff36ab5")).0 eth)
                    (rw zero at e)
            ]
            | inr neither ↦
                absurd
                  (cc (rw (is_zero_slippage_swap, long, has_zero_minimum, other, neither) at h))
          ]
        ]
  ]

  pub is_zero_slippage_swap-IsZeroMinimumSwap :
      (calldata : Text)
      → IsZeroMinimumSwap calldata
      → is_zero_slippage_swap abi (some calldata) ≡ true
  unfolding is_zero_slippage_swap has_zero_minimum text_eq
  is_zero_slippage_swap-IsZeroMinimumSwap calldata (exact_tokens amount long is e) =
      rw
        (
          is_zero_slippage_swap,
          le→ltb (length calldata) 10 long,
          is,
          has_zero_minimum,
          text_eq_refl (codes "0x38ed1739"),
          e,
        )
        refl
  is_zero_slippage_swap-IsZeroMinimumSwap calldata (exact_eth long is e) =
      rw (is_zero_slippage_swap, le→ltb (length calldata) 10 long, is, has_zero_minimum, e) refl

  -- An approval without a limit: of 2^128 or more, of the most that Permit2 knows or more, or for all tokens.
  pub data IsUnlimitedApproval (calldata : Text) : Type 0 where
    approve :
        (spender : Text) (amount : ℕ)
        → 10 ≤ length calldata
        → (selector_of calldata ≡ codes "0x095ea7b3") ⊎ (selector_of calldata ≡ codes "0x39509351")
        → abi.address_uint256 (params_of calldata) ≡ some (spender, amount)
        → 2 ^ 128 ≤ amount
        → IsUnlimitedApproval calldata
    permit2 :
        (token spender : Text) (amount expiration : ℕ)
        → 10 ≤ length calldata
        → selector_of calldata ≡ codes "0x87517c45"
        → abi.address_address_uint160_uint48 (params_of calldata)
          ≡ some (token, spender, amount, expiration)
        → 2 ^ 160 - 1 ≤ amount
        → IsUnlimitedApproval calldata
    for_all :
        (operator : Text)
        → 10 ≤ length calldata
        → selector_of calldata ≡ codes "0xa22cb465"
        → abi.address_bool (params_of calldata) ≡ some (operator, true)
        → IsUnlimitedApproval calldata

  approve-from :
      (calldata : Text)
      → 10 ≤ length calldata
      → (selector_of calldata ≡ codes "0x095ea7b3") ⊎ (selector_of calldata ≡ codes "0x39509351")
      → on_decoded false (abi.address_uint256 (params_of calldata)) (λ d. leb (2 ^ 128) d.1) ≡ true
      → IsUnlimitedApproval calldata
  approve-from calldata l s h = elim (Option-cases (abi.address_uint256 (params_of calldata))) [
    | inl absent ↦ absurd (cc (rw absent at h))
    | inr ((spender, amount), e) ↦
        approve spender amount l s e (leb→le (2 ^ 128) amount (rw e at h))
  ]

  permit2-from :
      (calldata : Text)
      → 10 ≤ length calldata
      → selector_of calldata ≡ codes "0x87517c45"
      → on_decoded false
          (abi.address_address_uint160_uint48 (params_of calldata))
          (λ d. leb (2 ^ 160 - 1) d.2)
        ≡ true
      → IsUnlimitedApproval calldata
  permit2-from calldata l s h =
      elim (Option-cases (abi.address_address_uint160_uint48 (params_of calldata))) [
        | inl absent ↦ absurd (cc (rw absent at h))
        | inr ((token, spender, amount, expiration), e) ↦
            permit2 token spender amount expiration l s e (leb→le (2 ^ 160 - 1) amount (rw e at h))
      ]

  for_all-from :
      (calldata : Text)
      → 10 ≤ length calldata
      → selector_of calldata ≡ codes "0xa22cb465"
      → on_decoded false (abi.address_bool (params_of calldata)) (λ d. d.1) ≡ true
      → IsUnlimitedApproval calldata
  for_all-from calldata l s h = elim (Option-cases (abi.address_bool (params_of calldata))) [
    | inl absent ↦ absurd (cc (rw absent at h))
    | inr ((operator, approved), e) ↦
        let all : approved ≡ true = rw e at h in for_all operator l s (rw all at e)
  ]

  pub IsUnlimitedApproval-from :
      (calldata : Text)
      → is_infinite_approval abi (some calldata) ≡ true
      → IsUnlimitedApproval calldata
  unfolding is_infinite_approval grants_unlimited
  IsUnlimitedApproval-from calldata h = elim (Bool-cases (ltb (length calldata) 10)) [
    | inl short ↦ absurd (ground arith)
    | inr long ↦
        let enough : 10 ≤ length calldata = ground (arith, long) in
        let is : (s : Text) → text_eq (selector_of calldata) s ≡ true → selector_of calldata ≡ s =
          λ s. (text_eq_iff (selector_of calldata) s).0 in
        elim (Bool-cases (text_eq (selector_of calldata) (codes "0x095ea7b3"))) [
          | inl first ↦
              approve-from calldata enough (inl (is _ first))
                (rw (is_infinite_approval, long, grants_unlimited, first) at h)
          | inr a ↦ elim (Bool-cases (text_eq (selector_of calldata) (codes "0x39509351"))) [
            | inl second ↦
                approve-from calldata enough (inr (is _ second))
                  (rw (is_infinite_approval, long, grants_unlimited, a, second) at h)
            | inr b ↦ elim (Bool-cases (text_eq (selector_of calldata) (codes "0x87517c45"))) [
              | inl third ↦
                  permit2-from calldata enough (is _ third)
                    (rw (is_infinite_approval, long, grants_unlimited, a, b, third) at h)
              | inr c ↦ elim (Bool-cases (text_eq (selector_of calldata) (codes "0xa22cb465"))) [
                | inl fourth ↦
                    for_all-from calldata enough (is _ fourth)
                      (rw (is_infinite_approval, long, grants_unlimited, a, b, c, fourth) at h)
                | inr d ↦
                    absurd (cc (rw (is_infinite_approval, long, grants_unlimited, a, b, c, d) at h))
              ]
            ]
          ]
        ]
  ]

  pub is_infinite_approval-IsUnlimitedApproval :
      (calldata : Text)
      → IsUnlimitedApproval calldata
      → is_infinite_approval abi (some calldata) ≡ true
  unfolding is_infinite_approval grants_unlimited text_eq
  is_infinite_approval-IsUnlimitedApproval calldata (approve spender amount l (inl s) e big) =
      rw (is_infinite_approval, le→ltb (length calldata) 10 l, s, grants_unlimited, e)
        (ground (arith, big))
  is_infinite_approval-IsUnlimitedApproval calldata (approve spender amount l (inr s) e big) =
      rw (is_infinite_approval, le→ltb (length calldata) 10 l, s, grants_unlimited, e)
        (ground (arith, big))
  is_infinite_approval-IsUnlimitedApproval calldata
        (permit2 token spender amount expiration l s e big) =
      rw (is_infinite_approval, le→ltb (length calldata) 10 l, s, grants_unlimited, e)
        (ground (arith, big))
  is_infinite_approval-IsUnlimitedApproval calldata (for_all operator l s e) =
      rw (is_infinite_approval, le→ltb (length calldata) 10 l, s, grants_unlimited, e) refl
