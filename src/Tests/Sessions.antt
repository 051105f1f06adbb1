-- ===== src/Tests/Sessions.antt =====
-- The theorems on signing sessions at concrete requests.
use guardian_wallet.Prelude.{ℕ, ◌≡◌, refl, false, some, [], ◌∷◌, codes, text_eq, to_lower, includes}
use guardian_wallet.Prelude.Dict.{lookup}
use guardian_wallet.Prelude.Effects.{Exception, Reply, returns, blocked, ok, throws}
use guardian_wallet.Policy.Types.{default_deny, rate_limit}
use guardian_wallet.Policy.Criteria.{evaluate_criterion}
use guardian_wallet.Policy.Criteria.Limits.{rate_limit_evaluate, time_window_evaluate}
use guardian_wallet.Policy.Criteria.Targets.{
  evm_address_evaluate, addresses_pass, addresses_to_check,
}
use guardian_wallet.Policy.Engine.{
  evaluate, evaluate_rules, run_rules, first_failed, decided, denied, track,
}
use guardian_wallet.Policy.Criteria.Reasons.{fail_reason}
use guardian_wallet.Policy.AlwaysOn.{
  run_always_on_checks, check_malicious_blacklist, check_zero_slippage, check_infinite_approval,
}
use guardian_wallet.Signing.Types.{Service, signer_server, user_server}
use guardian_wallet.Signing.Populate.{populate_transaction, nonce_of, gas_limit_of, fees_of}
use guardian_wallet.Signing.Opening.{
  CreateSessionOutput, open_signing, store_session, get_party_config, Opening,
}
use guardian_wallet.Signing.Checks.{
  require_room, require_signer, check_policy, check_document, judge, policy_violations,
}
use guardian_wallet.Signing.Create.{
  create_session, create_message_session, tx_context, message_context,
}
use guardian_wallet.Signing.Rounds.{process_round, complete_sign, RoundResult}
use guardian_wallet.Signing.Access.{IsOpen}
use guardian_wallet.Signing.Progress.{Round, process_round-Round}
use guardian_wallet.Signing.Completion.{
  Closes, complete_sign-Closes, IsLogged, complete_sign-IsLogged,
}
use guardian_wallet.Signing.Invariant.{IsSound}
use guardian_wallet.Signing.Invariant.Openings.{Opened, IsSame}
use guardian_wallet.Signing.Admission.{IsAdmitted, IsMessageAdmitted}
use guardian_wallet.Signing.Admission.Gate.{
  create_session_gate, create_message_session_gate, create_session_refused,
}
use guardian_wallet.Signing.System.{initial, Reachable, starts, runs, creates, Reachable-IsSound}
use guardian_wallet.Tests.Samples.{
  numbers, host, context, to_bob, few_requests, document_of, signer, create_input, create_replies,
  message_input, message_replies, part, session, one_session, signed, json,
}

-- A transaction to Bob that the policy allows, from the start.
abbrev created : Service ℕ
created = (create_session host create_input (create_replies (document_of (to_bob ∷ []))) initial).1

created-Reachable : Reachable host json created
unfolding lookup
created-Reachable =
    runs initial _ starts (creates create_input (create_replies (document_of (to_bob ∷ []))) refl)

Reachable-IsSound_example : IsSound created
Reachable-IsSound_example = Reachable-IsSound host json created created-Reachable

initial-IsSound : IsSound {F = ℕ} initial
initial-IsSound = Reachable-IsSound host json initial starts

abbrev output : CreateSessionOutput
output = record {
  session_id = codes "session-1";
  server_first_messages = codes "m1" ∷ [];
  message_hash = codes "hash";
  eid = codes "eid-1";
  party_config = get_party_config signer_server;
  rounds_remaining = 4;
}

created-ok :
    (create_session host create_input (create_replies (document_of (to_bob ∷ []))) initial).0
    ≡ ok output
unfolding create_session populate_transaction nonce_of gas_limit_of fees_of require_room
    require_signer check_policy check_document judge open_signing store_session evaluate
    evaluate_rules run_rules first_failed decided evaluate_criterion evm_address_evaluate
    addresses_pass addresses_to_check includes text_eq to_lower rate_limit_evaluate
    run_always_on_checks check_malicious_blacklist check_zero_slippage check_infinite_approval
    tx_context
created-ok = refl

create_session_gate_example :
    (o : Opening ℕ) × IsAdmitted host create_input
      (create_replies (document_of (to_bob ∷ [])))
      initial
      o
    × Opened o
        (codes "session-1")
        initial
        (create_session host create_input (create_replies (document_of (to_bob ∷ []))) initial)
create_session_gate_example =
    create_session_gate host create_input (create_replies (document_of (to_bob ∷ []))) initial
      output initial-IsSound created-ok

abbrev message_output : CreateSessionOutput
message_output = record output {
  server_first_messages = codes "m1" ∷ codes "m2" ∷ [];
  party_config = get_party_config user_server;
}

message-ok :
    (create_message_session host message_input message_replies initial).0 ≡ ok message_output
unfolding create_message_session require_room require_signer check_policy check_document judge
    open_signing store_session evaluate run_always_on_checks check_malicious_blacklist
    check_zero_slippage check_infinite_approval message_context
message-ok = refl

create_message_session_gate_example :
    (o : Opening ℕ) × IsMessageAdmitted host message_input message_replies initial o
    × Opened o
        (codes "session-1")
        initial
        (create_message_session host message_input message_replies initial)
create_message_session_gate_example =
    create_message_session_gate host message_input message_replies initial message_output
      initial-IsSound message-ok

-- The same transaction under a policy whose only rule is not met.
abbrev refusal : Exception
refusal =
    blocked (codes "Transaction blocked by policy")
      ((default_deny, (fail_reason (rate_limit 2) context).short) ∷ [])

created-refused :
    (create_session host create_input (create_replies (document_of (few_requests ∷ []))) initial).0
    ≡ throws refusal
unfolding create_session populate_transaction nonce_of gas_limit_of fees_of require_room
    require_signer check_policy check_document judge evaluate evaluate_rules run_rules first_failed
    denied track evaluate_criterion rate_limit_evaluate time_window_evaluate run_always_on_checks
    check_malicious_blacklist check_zero_slippage check_infinite_approval tx_context
    policy_violations includes to_lower text_eq fail_reason
created-refused = refl

create_session_refused_example :
    IsSame initial
      (create_session host create_input
        (create_replies (document_of (few_requests ∷ [])))
        initial).1
create_session_refused_example =
    create_session_refused host create_input (create_replies (document_of (few_requests ∷ [])))
      initial refusal initial-IsSound created-refused

abbrev round_reply : Reply RoundResult
round_reply = returns (record { outgoing_messages = codes "m3" ∷ []; complete = false })

process_round-Round_example :
    Round
      (codes "session-1")
      (codes "signer-1")
      1001
      (returns (some signer))
      one_session
      round_reply
      (process_round
        (codes "session-1")
        (codes "signer-1")
        1001
        (returns (some signer))
        round_reply
        one_session)
process_round-Round_example =
    process_round-Round (codes "session-1") (codes "signer-1") 1001 (returns (some signer))
      one_session round_reply

complete_sign-Closes_example : Closes (codes "session-1") one_session (
    complete_sign json
      (codes "session-1")
      (codes "signer-1")
      1001
      (returns (some signer))
      signed
      one_session)
complete_sign-Closes_example =
    complete_sign-Closes json (codes "session-1") (codes "signer-1") 1001 (returns (some signer))
      signed one_session

one_session-IsOpen :
    IsOpen (codes "session-1") (codes "signer-1") 1001 (returns (some signer)) one_session session
unfolding lookup text_eq
one_session-IsOpen = record {
  stored = refl;
  unexpired = refl;
  owned = refl;
  signer = signer;
  looked_up = refl;
  usable = refl;
}

complete_sign-IsLogged_example : IsLogged session one_session (
    complete_sign json
      (codes "session-1")
      (codes "signer-1")
      1001
      (returns (some signer))
      signed
      one_session)
complete_sign-IsLogged_example =
    complete_sign-IsLogged json (codes "session-1") (codes "signer-1") 1001 (returns (some signer))
      signed one_session session part one_session-IsOpen refl refl refl
