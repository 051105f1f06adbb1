-- ===== src/Signing/Rounds.antt =====
-- The rounds of a session and its completion: `processRound`, `completeSign` and
-- `completeMessageSign`. One handler runs from its first to its last line here; replies of the
-- signer repository, of the threshold scheme, of the chain and of the audit log are arguments.
use guardian_wallet.Prelude.{
  ℕ, ◌+◌, ◌-◌, Bool, false, Option, none, some, List, [], if◌then◌else◌, leb, Text, codes, text_eq,
  ◌++◌,
}
use guardian_wallet.Prelude.Dict.{insert}
use guardian_wallet.Prelude.Effects.{
  Exception, forbidden, ok, throws, Reply, returns, rejects, M, ◌>>=◌, ◌>>◌, return, throw, require,
  await, try_catch, try_finally,
}
use guardian_wallet.Signing.Types.{
  SignerStatus, active, paused, revoked, is_active, Signer, RequestStatus, approved, failed,
  sign_tx, sign_message, SessionState, TxPart, SessionKind, tx, message, AuditEntry, Service,
}
use guardian_wallet.Signing.Sessions.{get_valid_session, destroy_session, create_request}

abbrev pub status_text : SignerStatus → Text
status_text active = codes "active"
status_text paused = codes "paused"
status_text revoked = codes "revoked"

-- `signer?.status ?? 'deleted'`
abbrev pub signer_text : Option Signer → Text
signer_text none = codes "deleted"
signer_text (some signer) = status_text signer.status

abbrev pub is_usable : Option Signer → Bool
is_usable none = false
is_usable (some signer) = is_active signer.status

-- The check between rounds: a signer that was paused, revoked or deleted loses the session.
unfoldable pub require_active : {F : Type 0} → Text → Option Signer → M (Service F) (Unit {0})
require_active id signer s =
    if is_usable signer
    then (ok tt, s)
    else (throws (forbidden (codes "Signer is " ++ signer_text signer)), destroy_session id s)

-- The checks that each handler makes first: the session, its signer, and the signer's state.
unfoldable pub open_session :
    {F : Type 0} → Text → Text → ℕ → Reply (Option Signer) → M (Service F) SessionState
open_session id signer_id now found = do
  state ← get_valid_session id now
  require (text_eq state.signer_id signer_id)
      (forbidden (codes "Session does not belong to this signer"))
  signer ← await found
  require_active id signer
  return state

pub record RoundResult : Type 0 where
  pub outgoing_messages : List Text
  pub complete : Bool

pub record ProcessRoundOutput : Type 0 where
  pub outgoing_messages : List Text
  pub rounds_remaining : ℕ
  pub complete : Bool

-- `complete ? 0 : Math.max(1, 4 - round)`
unfoldable pub rounds_remaining : Bool → ℕ → ℕ
rounds_remaining complete round = if complete then 0 else if leb 3 round then 1 else 4 - round

-- `state.round += 1` on the object that the table holds.
abbrev pub advance : {F : Type 0} → Text → SessionState → Service F → Service F
advance id state s = record s {
  sessions = insert id (record state { round = state.round + 1 }) s.sessions;
}

unfoldable pub run_round :
    {F : Type 0} → Text → SessionState → Reply RoundResult → M (Service F) ProcessRoundOutput
run_round id state (rejects e) s = (throws e, destroy_session id s)
run_round id state (returns result) s = (
  ok (record {
    outgoing_messages = result.outgoing_messages;
    rounds_remaining = rounds_remaining result.complete (state.round + 1);
    complete = result.complete;
  }),
  advance id state s,
)

unfoldable pub process_round :
    {F : Type 0}
    → Text
    → Text
    → ℕ
    → Reply (Option Signer)
    → Reply RoundResult
    → M (Service F) ProcessRoundOutput
process_round id signer_id now found round_reply = do
  state ← open_session id signer_id now found
  run_round id state round_reply

pub record Signature : Type 0 where
  pub r : Text
  pub s : Text
  pub v : ℕ

-- The replies that `completeSign` awaits behind the checks, in their order. `usd` is what decoding the
-- transaction for the log gives, if it does not throw and is above 0.
pub record CompleteReplies (F : Type 0) : Type 0 where
  pub finalize_sign : Reply Signature
  pub get_chain : Reply (Unit {0})
  pub build_transaction : Reply (Unit {0})
  pub broadcast_transaction : Reply Text
  pub usd : Option F
  pub create_approved : Reply (Unit {0})
  pub create_failed : Reply (Unit {0})

-- `JSON.stringify(signature)` is a parameter of the handler.
abbrev pub tx_entry :
    {F : Type 0}
    → SessionState
    → TxPart
    → RequestStatus
    → Option F
    → Option Text
    → Option Text
    → AuditEntry F
tx_entry state part status value_usd tx_hash tx_data = record {
  signer_id = state.signer_id;
  owner_id = state.owner_id;
  request_type = sign_tx;
  signing_path = state.signing_path;
  status = status;
  to_address = some part.decoded_to;
  value_wei = part.transaction.value;
  chain_id = some part.transaction.chain_id;
  decoded_action = part.decoded_function_name;
  policy_violations = [];
  policies_evaluated = state.evaluated_count;
  evaluation_time_ms = state.evaluation_time_ms;
  value_usd = value_usd;
  tx_hash = tx_hash;
  tx_data = tx_data;
}

-- The body of the `try` behind the signature: broadcast, and write the log.
unfoldable pub broadcast_signed :
    {F : Type 0}
    → SessionState
    → TxPart
    → CompleteReplies F
    → Signature
    → M (Service F) (Text × Signature)
broadcast_signed state part replies signature = do
  _ ← await replies.get_chain
  _ ← await replies.build_transaction
  tx_hash ← await replies.broadcast_transaction
  create_request replies.create_approved
      (tx_entry state part approved replies.usd (some tx_hash) none)
  return (tx_hash, signature)

-- The `catch`: the failure is written, with the signature if there is one, and thrown again.
unfoldable pub record_failure :
    {F A : Type 0}
    → SessionState
    → TxPart
    → CompleteReplies F
    → Option Text
    → Exception
    → M (Service F) A
record_failure state part replies signature_json e = do
  create_request replies.create_failed (tx_entry state part failed none none signature_json)
  throw e

module _ {F : Type 0} (to_json : Signature → Text) where
  unfoldable pub sign_and_broadcast :
      SessionState → TxPart → CompleteReplies F → M (Service F) (Text × Signature)
  sign_and_broadcast state part replies = elim replies.finalize_sign [
    | rejects e ↦ record_failure state part replies none e
    | returns signature ↦
        try_catch (broadcast_signed state part replies signature)
          (λ e. record_failure state part replies (some (to_json signature)) e)
  ]

  -- `state.type !== 'tx'` is tested before the signer is looked up.
  unfoldable pub complete_tx :
      Text
      → Reply (Option Signer)
      → SessionState
      → CompleteReplies F
      → SessionKind
      → M (Service F) (Text × Signature)
  complete_tx id found state replies message = throw (
      forbidden (codes "Session is not a transaction session. Use /sign-message/complete instead."))
  complete_tx id found state replies (tx part) = do
    signer ← await found
    require_active id signer
    try_finally (sign_and_broadcast state part replies) (destroy_session id)

  unfoldable pub complete_sign :
      Text → Text → ℕ → Reply (Option Signer) → CompleteReplies F → M (Service F) (Text × Signature)
  complete_sign id signer_id now found replies = do
    state ← get_valid_session id now
    require (text_eq state.signer_id signer_id)
        (forbidden (codes "Session does not belong to this signer"))
    complete_tx id found state replies state.kind

abbrev pub message_entry : {F : Type 0} → SessionState → RequestStatus → AuditEntry F
message_entry state status = record {
  signer_id = state.signer_id;
  owner_id = state.owner_id;
  request_type = sign_message;
  signing_path = state.signing_path;
  status = status;
  to_address = none;
  value_wei = none;
  chain_id = none;
  decoded_action = none;
  policy_violations = [];
  policies_evaluated = state.evaluated_count;
  evaluation_time_ms = state.evaluation_time_ms;
  value_usd = none;
  tx_hash = none;
  tx_data = none;
}

unfoldable pub sign_message_body :
    {F : Type 0} → SessionState → Reply Signature → Reply (Unit {0}) → M (Service F) Signature
sign_message_body state finalized create_approved = do
  signature ← await finalized
  create_request create_approved (message_entry state approved)
  return signature

unfoldable pub complete_message_sign :
    {F : Type 0}
    → Text
    → Text
    → ℕ
    → Reply (Option Signer)
    → Reply Signature
    → Reply (Unit {0})
    → Reply (Unit {0})
    → M (Service F) Signature
complete_message_sign id signer_id now found finalized create_approved create_failed = do
  state ← open_session id signer_id now found
  try_finally
      (try_catch (sign_message_body state finalized create_approved)
        (λ e. do create_request create_failed (message_entry state failed); throw e))
      (destroy_session id)
