-- ===== src/Signing/Create.antt =====
-- The start of a session: `createSession` and `createMessageSession`.
use guardian_wallet.Prelude.{ℕ, ◌==◌, not, Option, none, some, List, [], Text, codes, or_else}
use guardian_wallet.Prelude.Int.{pos}
use guardian_wallet.Prelude.Effects.{
  forbidden, blocked, Reply, returns, rejects, M, ◌>>=◌, ◌>>◌, require, await,
}
use guardian_wallet.Policy.Types.{Number, PolicyContext, PolicyDocument, PolicyViolation}
use guardian_wallet.Policy.Criteria.{Host}
use guardian_wallet.Signing.Types.{
  SigningPath, signer_server, Signer, TransactionRequest, DecodedAction, RequestStatus,
  blocked as status_blocked, failed, sign_tx, sign_message, tx, message, AuditEntry, Service,
}
use guardian_wallet.Signing.Populate.{ChainReplies, populate_transaction}
use guardian_wallet.Signing.Opening.{CreateSessionOutput, OpenReplies, open_signing}
use guardian_wallet.Signing.Checks.{
  security_violations, policy_violations, plain_violations, require_room, require_signer, Refusals,
  check_policy,
}

pub record CreateSessionInput : Type 0 where
  pub signer_id : Text
  pub transaction : TransactionRequest
  pub signing_path : Option SigningPath
  pub caller_ip : Option Text

pub record CreateMessageSessionInput : Type 0 where
  pub signer_id : Text
  pub signer_first_message : Option Text
  pub message_hash : Text
  pub signing_path : Option SigningPath
  pub caller_ip : Option Text

-- The six sums and counts of earlier requests.
pub record Windows (F : Type 0) : Type 0 where
  pub daily_spend : ℕ
  pub monthly_spend : ℕ
  pub requests_last_hour : ℕ
  pub requests_today : ℕ
  pub daily_usd : F
  pub monthly_usd : F

-- What `createSession` awaits, in its order, with the clock. `outflows` is the decoding of the
-- transaction: its value in USD and the recipient of the tokens.
pub record CreateReplies (F : Type 0) : Type 0 where
  pub find_signer : Reply (Option Signer)
  pub get_chain : Reply ChainReplies
  pub build_transaction : TransactionRequest → Reply Text
  pub decode_transaction : Text → Reply DecodedAction
  pub windows : Reply (Windows F)
  pub outflows : TransactionRequest → DecodedAction → Reply (F × Option Text)
  pub now : ℕ
  pub hour_utc : ℕ
  pub find_document : Reply (Option (PolicyDocument F))
  pub evaluation_ms : ℕ
  pub create_blocked : Reply (Unit {0})
  pub keccak256 : Text → Text
  pub opening : OpenReplies

-- What `createMessageSession` awaits before it opens the session.
pub record MessageReplies (F : Type 0) : Type 0 where
  pub find_signer : Reply (Option Signer)
  pub counts : Reply (ℕ × ℕ)
  pub now : ℕ
  pub hour_utc : ℕ
  pub find_document : Reply (Option (PolicyDocument F))
  pub evaluation_ms : ℕ
  pub create_blocked : Reply (Unit {0})
  pub opening : OpenReplies

abbrev pub usd_of : {F : Type 0} → Reply (F × Option Text) → Option F
usd_of (returns (usd, recipient)) = some usd
usd_of (rejects e) = none

abbrev pub recipient_of : {F : Type 0} → Reply (F × Option Text) → Option Text
recipient_of (returns (usd, recipient)) = recipient
recipient_of (rejects e) = none

module _ {F : Type 0} where
  -- The policy context of a transaction.
  unfoldable pub tx_context :
      CreateSessionInput
      → CreateReplies F
      → Signer
      → TransactionRequest
      → DecodedAction
      → Windows F
      → PolicyContext F
  tx_context input replies signer populated decoded w = record {
    signer_address = signer.eth_address;
    to_address = some decoded.to;
    value_wei = pos (or_else populated.value 0);
    function_selector = decoded.function_selector;
    chain_id = populated.chain_id;
    rolling_daily_spend_wei = pos w.daily_spend;
    rolling_monthly_spend_wei = pos w.monthly_spend;
    request_count_last_hour = w.requests_last_hour;
    request_count_today = w.requests_today;
    current_hour_utc = replies.hour_utc;
    timestamp = replies.now;
    tx_data = populated.calldata;
    caller_ip = input.caller_ip;
    value_usd = usd_of (replies.outflows populated decoded);
    rolling_daily_spend_usd = some w.daily_usd;
    rolling_monthly_spend_usd = some w.monthly_usd;
    transfer_recipient = recipient_of (replies.outflows populated decoded);
  }

  -- The policy context of a message: no destination, no value, chain 0.
  unfoldable pub message_context :
      CreateMessageSessionInput → MessageReplies F → Signer → ℕ → ℕ → PolicyContext F
  message_context input replies signer last_hour today = record {
    signer_address = signer.eth_address;
    to_address = none;
    value_wei = pos 0;
    function_selector = none;
    chain_id = 0;
    rolling_daily_spend_wei = pos 0;
    rolling_monthly_spend_wei = pos 0;
    request_count_last_hour = last_hour;
    request_count_today = today;
    current_hour_utc = replies.hour_utc;
    timestamp = replies.now;
    tx_data = none;
    caller_ip = input.caller_ip;
    value_usd = none;
    rolling_daily_spend_usd = none;
    rolling_monthly_spend_usd = none;
    transfer_recipient = none;
  }

  -- The row of the log for a transaction that got no session.
  abbrev pub tx_row :
      Signer
      → SigningPath
      → RequestStatus
      → TransactionRequest
      → DecodedAction
      → List (PolicyViolation F)
      → ℕ
      → ℕ
      → Option F
      → AuditEntry F
  tx_row signer path status populated decoded violations evaluated ms usd = record {
    signer_id = signer.id;
    owner_id = signer.owner_id;
    request_type = sign_tx;
    signing_path = path;
    status = status;
    to_address = some decoded.to;
    value_wei = populated.value;
    chain_id = some populated.chain_id;
    decoded_action = decoded.function_name;
    policy_violations = violations;
    policies_evaluated = evaluated;
    evaluation_time_ms = ms;
    value_usd = usd;
    tx_hash = none;
    tx_data = none;
  }

  abbrev pub message_row :
      Signer → SigningPath → RequestStatus → List (PolicyViolation F) → ℕ → ℕ → AuditEntry F
  message_row signer path status violations evaluated ms = record {
    signer_id = signer.id;
    owner_id = signer.owner_id;
    request_type = sign_message;
    signing_path = path;
    status = status;
    to_address = none;
    value_wei = none;
    chain_id = none;
    decoded_action = none;
    policy_violations = violations;
    policies_evaluated = evaluated;
    evaluation_time_ms = ms;
    value_usd = none;
    tx_hash = none;
    tx_data = none;
  }

  abbrev pub tx_refusals :
      Signer
      → SigningPath
      → TransactionRequest
      → DecodedAction
      → Option F
      → Reply (Unit {0})
      → Refusals F
  tx_refusals signer path populated decoded usd written = record {
    security_row = λ vs. tx_row signer path status_blocked populated decoded vs 0 0 usd;
    policy_row = λ r.
        tx_row signer path status_blocked populated decoded r.violations r.evaluated_count
          r.evaluation_time_ms none;
    written = written;
    security_error =
        λ vs. blocked (codes "Transaction blocked by security check") (security_violations path vs);
    policy_error =
        λ vs. blocked (codes "Transaction blocked by policy") (policy_violations path vs);
  }

  abbrev pub message_refusals : Signer → SigningPath → Reply (Unit {0}) → Refusals F
  message_refusals signer path written = record {
    security_row = λ vs. message_row signer path status_blocked vs 0 0;
    policy_row = λ r.
        message_row signer path status_blocked r.violations r.evaluated_count r.evaluation_time_ms;
    written = written;
    security_error =
        λ vs. blocked (codes "Message signing blocked by security check") (plain_violations vs);
    policy_error =
        λ vs. blocked (codes "Message signing blocked by policy") (policy_violations path vs);
  }

module _ {F : Type 0} ⦃num : Number F⦄ (host : Host) where
  unfoldable pub create_session :
      CreateSessionInput → CreateReplies F → M (Service F) CreateSessionOutput
  create_session input replies = do
    require_room
    let path = or_else input.signing_path signer_server
    found ← await replies.find_signer
    signer ← require_signer found
    require (not (input.transaction.chain_id == 0))
        (forbidden (codes "chainId is required in transaction"))
    chain ← await replies.get_chain
    populated ← populate_transaction input.transaction chain
    tx_bytes ← await (replies.build_transaction populated)
    decoded ← await (replies.decode_transaction tx_bytes)
    windows ← await replies.windows
    let usd = usd_of (replies.outflows populated decoded)
    result ←
        check_policy host (tx_refusals signer path populated decoded usd replies.create_blocked)
          replies.find_document replies.evaluation_ms
          (tx_context input replies signer populated decoded windows)
    let hash = replies.keccak256 tx_bytes
    open_signing
        (record {
          signer = signer;
          path = path;
          evaluated_count = result.evaluated_count;
          evaluation_time_ms = result.evaluation_time_ms;
          kind = tx (record {
            transaction = populated;
            decoded_to = decoded.to;
            decoded_function_name = decoded.function_name;
            message_hash = hash;
          });
          hash = hash;
          failure =
              tx_row signer path failed populated decoded [] result.evaluated_count
                result.evaluation_time_ms none;
        })
        replies.opening none

  unfoldable pub create_message_session :
      CreateMessageSessionInput → MessageReplies F → M (Service F) CreateSessionOutput
  create_message_session input replies = do
    require_room
    let path = or_else input.signing_path signer_server
    found ← await replies.find_signer
    signer ← require_signer found
    counts ← await replies.counts
    result ←
        check_policy host (message_refusals signer path replies.create_blocked)
          replies.find_document replies.evaluation_ms
          (message_context input replies signer counts.0 counts.1)
    open_signing
        (record {
          signer = signer;
          path = path;
          evaluated_count = result.evaluated_count;
          evaluation_time_ms = result.evaluation_time_ms;
          kind = message;
          hash = input.message_hash;
          failure =
              message_row signer path failed [] result.evaluated_count result.evaluation_time_ms;
        })
        replies.opening input.signer_first_message
