-- ===== src/Tests/Refusals.antt =====
-- The theorems on refused requests at concrete requests.
use guardian_wallet.Prelude.{
  ℕ, ◌≡◌, refl, false, none, some, [], ◌∷◌, codes, text_eq, to_lower, includes, arith, List,
}
use guardian_wallet.Policy.Types.{PolicyContext, PolicyViolation}
use guardian_wallet.Policy.Criteria.{evaluate_criterion}
use guardian_wallet.Policy.Criteria.Limits.{rate_limit_evaluate, time_window_evaluate}
use guardian_wallet.Policy.Engine.{evaluate, evaluate_rules, run_rules, first_failed, denied, track}
use guardian_wallet.Policy.AlwaysOn.{
  run_always_on_checks, check_malicious_blacklist, check_zero_slippage, check_infinite_approval,
}
use guardian_wallet.Signing.Types.{TransactionRequest, DecodedAction, signer_server, sign_tx}
use guardian_wallet.Signing.Populate.{populate_transaction, nonce_of, gas_limit_of, fees_of}
use guardian_wallet.Signing.Create.{CreateReplies, create_session, tx_context}
use guardian_wallet.Signing.Admission.Audit.{
  IsBlocked, HasRead, disallowed, create_session-IsBlocked,
}
use guardian_wallet.Signing.System.{initial}
use guardian_wallet.Tests.Samples.{
  numbers, host, bob, few_requests, document_of, signer, create_input, create_replies, transaction,
  chain, windows,
}

abbrev decoded : DecodedAction
decoded = record { to = bob; function_selector = none; function_name = none }

-- The transaction with what the chain adds to it.
abbrev populated : TransactionRequest
populated = record transaction {
  nonce = some 5;
  gas_limit = some 25200;
  max_fee_per_gas = some 30;
  max_priority_fee_per_gas = some 2;
}

abbrev replies : CreateReplies ℕ
replies = create_replies (document_of (few_requests ∷ []))

abbrev tx_ctx : PolicyContext ℕ
tx_ctx = tx_context create_input replies signer populated decoded windows

abbrev tx_violations : List (PolicyViolation ℕ)
tx_violations = (evaluate host tx_ctx 1 (some (document_of (few_requests ∷ [])))).violations

tx_read : HasRead host create_input replies initial signer tx_ctx
unfolding populate_transaction nonce_of gas_limit_of fees_of
tx_read = record {
  room = omega arith;
  found = refl;
  usable = refl;
  chain_known = refl;
  chain = chain;
  chain_found = refl;
  populated = populated;
  complete = refl;
  tx_bytes = codes "bytes";
  built = refl;
  decoded = decoded;
  read = refl;
  windows = windows;
  summed = refl;
  context = refl;
}

tx_secure : run_always_on_checks host.abi tx_ctx ≡ []
unfolding run_always_on_checks check_malicious_blacklist check_zero_slippage check_infinite_approval
    tx_context includes to_lower text_eq
tx_secure = refl

tx_denied : (evaluate host tx_ctx 1 (some (document_of (few_requests ∷ [])))).allowed ≡ false
unfolding evaluate evaluate_rules run_rules first_failed denied track evaluate_criterion
    rate_limit_evaluate time_window_evaluate tx_context
tx_denied = refl

create_session-IsBlocked_example :
    IsBlocked signer signer_server sign_tx tx_violations initial
      (create_session host create_input replies initial)
create_session-IsBlocked_example =
    create_session-IsBlocked host create_input replies initial signer tx_ctx
      (some (document_of (few_requests ∷ []))) tx_violations tx_read refl
      (disallowed tx_secure tx_denied) refl
