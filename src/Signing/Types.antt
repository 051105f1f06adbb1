-- ===== src/Signing/Types.antt =====
-- The data of signing sessions: the types of interactive-sign.service.ts, with those that it takes
-- from packages/core/src (chain.interface.ts, the enums) and audit/signing-request.types.ts.
use guardian_wallet.Prelude.{ℕ, Bool, true, false, Option, List, Text}
use guardian_wallet.Prelude.Dict.{Dict}
use guardian_wallet.Policy.Types.{PolicyViolation}

pub data SigningPath : Type 0 where
  signer_server user_server : SigningPath

pub data SignerStatus : Type 0 where
  active paused revoked : SignerStatus

pub data RequestStatus : Type 0 where
  pending approved blocked failed broadcast : RequestStatus

pub data RequestType : Type 0 where
  sign_tx sign_message : RequestType

pub record Signer : Type 0 where
  pub id : Text
  pub status : SignerStatus
  pub owner_id : Text
  pub eth_address : Text
  pub vault_share_path : Text

-- `data` is the calldata as hexadecimal text, which is what the code reads of it.
pub record TransactionRequest : Type 0 where
  pub to : Option Text
  pub value : Option ℕ
  pub calldata : Option Text
  pub chain_id : ℕ
  pub gas_limit : Option ℕ
  pub gas_price : Option ℕ
  pub max_fee_per_gas : Option ℕ
  pub max_priority_fee_per_gas : Option ℕ
  pub nonce : Option ℕ

pub record DecodedAction : Type 0 where
  pub to : Text
  pub function_selector : Option Text
  pub function_name : Option Text

-- What a transaction session holds beside the common state.
pub record TxPart : Type 0 where
  pub transaction : TransactionRequest
  pub decoded_to : Text
  pub decoded_function_name : Option Text
  pub message_hash : Text

pub data SessionKind : Type 0 where
  tx : TxPart → SessionKind
  message : SessionKind

-- `key_buffer` is the address of `serverKeyMaterialBytes`.
pub record SessionState : Type 0 where
  pub signer_id : Text
  pub eth_address : Text
  pub owner_id : Text
  pub expected_public_key : Text
  pub signing_path : SigningPath
  pub key_buffer : ℕ
  pub evaluated_count : ℕ
  pub evaluation_time_ms : ℕ
  pub scheme_session_id : Text
  pub round : ℕ
  pub created_at : ℕ
  pub kind : SessionKind

-- A row that `SigningRequestRepository.create` writes.
pub record AuditEntry (F : Type 0) : Type 0 where
  pub signer_id : Text
  pub owner_id : Text
  pub request_type : RequestType
  pub signing_path : SigningPath
  pub status : RequestStatus
  pub to_address : Option Text
  pub value_wei : Option ℕ
  pub chain_id : Option ℕ
  pub decoded_action : Option Text
  pub policy_violations : List (PolicyViolation F)
  pub policies_evaluated : ℕ
  pub evaluation_time_ms : ℕ
  pub value_usd : Option F
  pub tx_hash : Option Text
  pub tx_data : Option Text

-- The state of the service with what it writes: the sessions, the addresses of the key material in
-- memory that has not been overwritten (the raw bytes, and the pairs of shares parsed from them), the
-- next fresh address, and the audit log.
pub record Service (F : Type 0) : Type 0 where
  pub sessions : Dict SessionState
  pub live_buffers : List ℕ
  pub parsed_buffers : List ℕ
  pub next_buffer : ℕ
  pub audit_log : List (AuditEntry F)

abbrev pub session_ttl_ms : ℕ
session_ttl_ms = 120000

abbrev pub max_concurrent_sessions : ℕ
max_concurrent_sessions = 1000

abbrev pub is_active : SignerStatus → Bool
is_active active = true
is_active _ = false
