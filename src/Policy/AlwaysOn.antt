-- ===== src/Policy/AlwaysOn.antt =====
-- The checks that run on every signing request: packages/server/src/policies/always-on-checks.ts.
pub mod Calldata
pub mod Meaning
use guardian_wallet.Prelude.{
  ◌≡◌, refl, ◌↔◌, true, false, Option, none, some, List, [], ◌∷◌, ◌++◌, if◌then◌else◌, Text, codes,
  to_lower, includes, truthy, Bool-cases, Option-cases, inl, inr, arith,
}
use guardian_wallet.Policy.Types.{
  PolicyContext, PolicyViolation, blocked_addresses, spending_limit, check,
}
use guardian_wallet.Transfers.{Abi, is_infinite_approval, is_zero_slippage_swap}

abbrev pub malicious_addresses : List Text
malicious_addresses =
    codes "0x0000000000000000000000000000000000000000"
    ∷ codes "0x000000000000000000000000000000000000dead"
    ∷ []

abbrev optional : {F : Type 0} → Option (PolicyViolation F) → List (PolicyViolation F)
optional none = []
optional (some v) = v ∷ []

module _ {F : Type 0} where
  unfoldable pub check_malicious_blacklist : PolicyContext F → Option (PolicyViolation F)
  check_malicious_blacklist ctx = elim (truthy ctx.to_address) [
    | none ↦ none
    | some to ↦
        if includes malicious_addresses (to_lower to)
        then some (record {
          policy_id = codes "always-on:malicious-blacklist";
          type = blocked_addresses;
          reason = codes "Transaction to known malicious address: " ++ to;
          config = check (codes "maliciousAddressBlacklist");
        })
        else none
  ]

  unfoldable pub check_zero_slippage : Abi → PolicyContext F → Option (PolicyViolation F)
  check_zero_slippage abi ctx = elim (truthy ctx.tx_data) [
    | none ↦ none
    | some data_hex ↦
        if is_zero_slippage_swap abi (some data_hex)
        then some (record {
          policy_id = codes "always-on:zero-slippage";
          type = spending_limit;
          reason =
              codes
                "Swap rejected: amountOutMin is 0 (100% slippage tolerance). This transaction is vulnerable to sandwich attacks.";
          config = check (codes "zeroSlippageProtection");
        })
        else none
  ]

  unfoldable pub check_infinite_approval : Abi → PolicyContext F → Option (PolicyViolation F)
  check_infinite_approval abi ctx = elim (truthy ctx.tx_data) [
    | none ↦ none
    | some data_hex ↦
        if is_infinite_approval abi (some data_hex)
        then some (record {
          policy_id = codes "always-on:infinite-approval";
          type = spending_limit;
          reason =
              codes
                "Unlimited token approval rejected. Approve a specific amount to limit contract access to your tokens.";
          config = check (codes "blockInfiniteApprovals");
        })
        else none
  ]

  unfoldable pub run_always_on_checks : Abi → PolicyContext F → List (PolicyViolation F)
  run_always_on_checks abi ctx =
      optional (check_malicious_blacklist ctx)
      ++ (optional (check_zero_slippage abi ctx) ++ optional (check_infinite_approval abi ctx))

-- The destination is a known malicious address, in any letter case.
abbrev pub IsMalicious : Option Text → Type 0
IsMalicious d =
    (to : Text) × (truthy d ≡ some to) × (includes malicious_addresses (to_lower to) ≡ true)

truthy-some : (d : Option Text) (x : Text) → truthy d ≡ some x → d ≡ some x
truthy-some none x h = cc
truthy-some (some []) x h = cc
truthy-some (some (c ∷ s)) x h = h

-- Calldata that is missing or empty is neither.
no_calldata :
    (abi : Abi) (d : Option Text)
    → truthy d ≡ none
    → (is_zero_slippage_swap abi d ≡ false) × (is_infinite_approval abi d ≡ false)
unfolding is_zero_slippage_swap is_infinite_approval
no_calldata abi none h = (refl, refl)
no_calldata abi (some []) h = (refl, refl)
no_calldata abi (some (c ∷ s)) h = cc

module _ {F : Type 0} (abi : Abi) (ctx : PolicyContext F) where
  check_malicious_blacklist-none_iff :
      (check_malicious_blacklist ctx ≡ none) ↔ (¬ IsMalicious ctx.to_address)
  unfolding check_malicious_blacklist
  check_malicious_blacklist-none_iff = elim (Option-cases (truthy ctx.to_address)) [
    | inl absent ↦ ((λ e w. cc (w.1)), (λ n. ground arith))
    | inr (to, at) ↦ elim (Bool-cases (includes malicious_addresses (to_lower to))) [
      | inl hit ↦ ((λ e. absurd (ground arith)), (λ n. absurd (n (to, at, hit))))
      | inr miss ↦ ((λ e w. cc (w.1, w.2)), (λ n. ground arith))
    ]
  ]

  check_zero_slippage-none_iff :
      (check_zero_slippage abi ctx ≡ none) ↔ (is_zero_slippage_swap abi ctx.tx_data ≡ false)
  unfolding check_zero_slippage
  check_zero_slippage-none_iff = elim (Option-cases (truthy ctx.tx_data)) [
    | inl absent ↦ ((λ e. (no_calldata abi ctx.tx_data absent).0), (λ e. ground arith))
    | inr (x, at) ↦ ground (arith, truthy-some ctx.tx_data x)
  ]

  check_infinite_approval-none_iff :
      (check_infinite_approval abi ctx ≡ none) ↔ (is_infinite_approval abi ctx.tx_data ≡ false)
  unfolding check_infinite_approval
  check_infinite_approval-none_iff = elim (Option-cases (truthy ctx.tx_data)) [
    | inl absent ↦ ((λ e. (no_calldata abi ctx.tx_data absent).1), (λ e. ground arith))
    | inr (x, at) ↦ ground (arith, truthy-some ctx.tx_data x)
  ]

optional-nil_iff :
    {F : Type 0} (a b c : Option (PolicyViolation F))
    → (optional a ++ (optional b ++ optional c) ≡ []) ↔ ((a ≡ none) × (b ≡ none) × (c ≡ none))
optional-nil_iff none none none = ((λ _. (refl, refl, refl)), (λ _. refl))
optional-nil_iff none none (some _) = ((λ e. cc), (λ e. cc (e.2)))
optional-nil_iff none (some _) c = ((λ e. cc), (λ e. cc (e.1)))
optional-nil_iff (some _) b c = ((λ e. cc), (λ e. cc (e.0)))

-- A request passes the checks exactly when its destination is not a known malicious address and the two
-- tests of its calldata are false.
pub run_always_on_checks-nil_iff :
    {F : Type 0} (abi : Abi) (ctx : PolicyContext F)
    → (run_always_on_checks abi ctx ≡ []) ↔ (
        (¬ IsMalicious ctx.to_address)
        × (is_zero_slippage_swap abi ctx.tx_data ≡ false)
        × (is_infinite_approval abi ctx.tx_data ≡ false))
unfolding run_always_on_checks
run_always_on_checks-nil_iff abi ctx =
    let (to, from) =
      optional-nil_iff (check_malicious_blacklist ctx) (check_zero_slippage abi ctx)
        (check_infinite_approval abi ctx) in
    let (to_0, from_0) = check_malicious_blacklist-none_iff abi ctx in
    let (to_1, from_1) = check_zero_slippage-none_iff abi ctx in
    let (to_2, from_2) = check_infinite_approval-none_iff abi ctx in
    (
      λ e. (to_0 (to e).0, to_1 (to e).1, to_2 (to e).2),
      λ w. from (from_0 w.0, from_1 w.1, from_2 w.2),
    )
