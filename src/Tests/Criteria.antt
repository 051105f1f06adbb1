-- ===== src/Tests/Criteria.antt =====
-- The theorems on the criteria at concrete requests.
use guardian_wallet.Prelude.{
  ℕ, ◌≡◌, ◌↔◌, refl, true, none, some, [], ◌∷◌, ◌++◌, Text, codes, text_eq, to_lower, truthy, arith,
}
use guardian_wallet.Policy.Types.{PolicyContext, evm_address, is_in, max_slippage}
use guardian_wallet.Policy.Criteria.{evaluate_criterion}
use guardian_wallet.Policy.Criteria.Addresses.{IsListed, evm_address-allowlist_iff}
use guardian_wallet.Policy.Criteria.Slippage.{IsCall, max_slippage-exact_input_single_unchecked}
use guardian_wallet.Transfers.{
  is_infinite_approval, is_zero_slippage_swap, grants_unlimited, has_zero_minimum, selector_of,
  params_of, uniswap_v2_swap_exact_tokens, uniswap_v3_exact_input_single,
}
use guardian_wallet.Tests.Samples.{numbers, host, context, bob, alice, decoder}

-- A call with a selector, to a token of Bob's with Alice as recipient.
abbrev call_of : Text → PolicyContext ℕ
call_of selector = record context {
  tx_data = some (selector ++ codes "00ff");
  transfer_recipient = some alice;
}

abbrev approval : PolicyContext ℕ
approval = call_of (codes "0x095EA7B3")

unlimited : is_infinite_approval decoder approval.tx_data ≡ true
unfolding is_infinite_approval grants_unlimited selector_of params_of to_lower text_eq
unlimited = refl

abbrev swap_for_eth : PolicyContext ℕ
swap_for_eth = call_of (codes "0x7ff36ab5")

no_minimum : is_zero_slippage_swap decoder swap_for_eth.tx_data ≡ true
unfolding is_zero_slippage_swap has_zero_minimum selector_of params_of to_lower text_eq
no_minimum = refl

abbrev swap : PolicyContext ℕ
swap = call_of uniswap_v2_swap_exact_tokens

abbrev single : PolicyContext ℕ
single = call_of uniswap_v3_exact_input_single

single-IsCall : IsCall single.tx_data uniswap_v3_exact_input_single (codes "0x00ff")
unfolding selector_of params_of to_lower
single-IsCall = record {
  calldata = uniswap_v3_exact_input_single ++ codes "00ff";
  present = refl;
  long = omega arith;
  selector_is = refl;
  params_are = refl;
}

-- 5000 in, at least 200 out, which is a slippage of 96 percent: the deadline is 100.
max_slippage-exact_input_single_unchecked_example :
    evaluate_criterion host (max_slippage 1) single ≡ true
max_slippage-exact_input_single_unchecked_example =
    max_slippage-exact_input_single_unchecked host single 1 alice bob alice 3000 100 5000 200 0
      single-IsCall refl (omega arith)

evm_address-allowlist_iff_example :
    (evaluate_criterion host (evm_address is_in (bob ∷ []) none) swap ≡ true) ↔ (
      IsListed (bob ∷ []) bob
      × ((r : Text) → truthy swap.transfer_recipient ≡ some r → IsListed (bob ∷ []) r))
evm_address-allowlist_iff_example = evm_address-allowlist_iff host swap bob [] none bob refl
