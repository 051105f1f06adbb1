-- ===== src/Policy/AlwaysOn/Meaning.antt =====
-- What the checks that always run refuse.
use guardian_wallet.Prelude.{
  ◌≡◌, ◌↔◌, Bool, inl, inr, refl, true, false, Option, none, some, [], Text, Bool-cases,
}
use guardian_wallet.Policy.Types.{PolicyContext}
use guardian_wallet.Policy.AlwaysOn.{
  IsMalicious, run_always_on_checks, run_always_on_checks-nil_iff,
}
use guardian_wallet.Policy.AlwaysOn.Calldata.{
  IsZeroMinimumSwap, IsZeroMinimumSwap-from, is_zero_slippage_swap-IsZeroMinimumSwap,
  IsUnlimitedApproval, IsUnlimitedApproval-from, is_infinite_approval-IsUnlimitedApproval,
}
use guardian_wallet.Transfers.{Abi, is_zero_slippage_swap, is_infinite_approval}

refuted_iff :
    {P : Text → Type 0} (test : Option Text → Bool) (d : Option Text)
    → test none ≡ false
    → ((x : Text) → test (some x) ≡ true → P x)
    → ((x : Text) → P x → test (some x) ≡ true)
    → (test d ≡ false) ↔ ((x : Text) → d ≡ some x → ¬ P x)
refuted_iff test none n to from = ((λ _ x e. cc (e)), (λ _. n))
refuted_iff {P} test (some x) n to from = (
  λ e y is p. let same : x ≡ y = cc (is) in cc (e, from x (rw same p)),
  λ none_of. elim (Bool-cases (test (some x))) [
    | inl hit ↦ absurd (none_of x refl (to x hit))
    | inr miss ↦ miss
  ],
)

-- A request passes the checks that always run exactly when its destination is no known malicious address, in
-- any letter case, and its calldata, if it has any, is neither a swap by one of two functions of
-- Uniswap V2 with a minimum of 0, nor an approval without a limit: approve or increaseAllowance of 2^128 or more,
-- Permit2's approve of 2^160 - 1 or more, or setApprovalForAll with true. Calldata that does not decode is
-- neither.
pub run_always_on_checks-passes_iff :
    {F : Type 0} (abi : Abi) (ctx : PolicyContext F)
    → (run_always_on_checks abi ctx ≡ []) ↔ (
        (¬ IsMalicious ctx.to_address)
        × ((x : Text) → ctx.tx_data ≡ some x → ¬ IsZeroMinimumSwap abi x)
        × ((x : Text) → ctx.tx_data ≡ some x → ¬ IsUnlimitedApproval abi x))
unfolding is_zero_slippage_swap is_infinite_approval
run_always_on_checks-passes_iff abi ctx =
    let (to, from) = run_always_on_checks-nil_iff abi ctx in
    let (to_1, from_1) =
      refuted_iff {P = IsZeroMinimumSwap abi} (is_zero_slippage_swap abi) ctx.tx_data refl
        (IsZeroMinimumSwap-from abi) (is_zero_slippage_swap-IsZeroMinimumSwap abi) in
    let (to_2, from_2) =
      refuted_iff {P = IsUnlimitedApproval abi} (is_infinite_approval abi) ctx.tx_data refl
        (IsUnlimitedApproval-from abi) (is_infinite_approval-IsUnlimitedApproval abi) in
    (λ e. ((to e).0, to_1 (to e).1, to_2 (to e).2), λ w. from (w.0, from_1 w.1, from_2 w.2))
