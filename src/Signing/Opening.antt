-- ===== src/Signing/Opening.antt =====
-- The last step of a session's start: `getPartyConfig`, and the part of `createSession` and
-- `createMessageSession` that loads the key material, starts the scheme and stores the session.
use guardian_wallet.Prelude.{
  ℕ, zero, suc, ◌+◌, Bool, true, false, Option, none, some, List, [], ◌∷◌, ◌++◌, if◌then◌else◌,
  Text, or_else,
}
use guardian_wallet.Prelude.Dict.{insert}
use guardian_wallet.Prelude.Effects.{
  Exception, forbidden, not_found, blocked, ok, throws, Reply, returns, rejects, M, throw, and_then,
}
use guardian_wallet.Signing.Types.{
  SigningPath, signer_server, user_server, Signer, SessionState, SessionKind, AuditEntry, Service,
}
use guardian_wallet.Signing.Sessions.{wipe, create_request}

pub record PartyConfig : Type 0 where
  pub server_party_index : ℕ
  pub client_party_index : ℕ
  pub parties_at_keygen : List ℕ

unfoldable pub get_party_config : SigningPath → PartyConfig
get_party_config signer_server = record {
  server_party_index = 1;
  client_party_index = 0;
  parties_at_keygen = 0 ∷ 1 ∷ [];
}
get_party_config user_server = record {
  server_party_index = 1;
  client_party_index = 2;
  parties_at_keygen = 1 ∷ 2 ∷ [];
}

-- `signingPath === USER_SERVER`: the scheme has to use its WASM backend.
abbrev pub force_wasm : SigningPath → Bool
force_wasm signer_server = false
force_wasm user_server = true

pub record CreateSessionOutput : Type 0 where
  pub session_id : Text
  pub server_first_messages : List Text
  pub message_hash : Text
  pub eid : Text
  pub party_config : PartyConfig
  pub rounds_remaining : ℕ

-- What the scheme and the share store answer once the policy has passed. `parse` is the JSON and
-- base64 decoding of the key material, `extract_public_key` is `none` where it throws.
pub record OpenReplies : Type 0 where
  pub get_share : Reply (Unit {0})
  pub parse : Reply (Unit {0})
  pub extract_public_key : Option Text
  pub create_sign_session : Text → PartyConfig → Bool → Reply (Text × List Text)
  pub process_first : Text → Reply (List Text)
  pub session_id : Text
  pub eid : Text
  pub created_at : ℕ
  pub create_failed : Reply (Unit {0})

-- `new Uint8Array(33)`
unfoldable pub zero_bytes : ℕ → Text
zero_bytes zero = []
zero_bytes (suc n) = 0 ∷ zero_bytes n

-- `!(error instanceof ForbiddenException) && !(error instanceof NotFoundException)`
abbrev pub is_unexpected : Exception → Bool
is_unexpected (forbidden t) = false
is_unexpected (blocked t vs) = false
is_unexpected (not_found t) = false
is_unexpected _ = true

-- What both kinds of session need of the policy check to be stored.
pub record Opening (F : Type 0) : Type 0 where
  pub signer : Signer
  pub path : SigningPath
  pub evaluated_count : ℕ
  pub evaluation_time_ms : ℕ
  pub kind : SessionKind
  pub hash : Text
  pub failure : AuditEntry F

-- The message of the signer that a message session may start with.
abbrev pub first_round : OpenReplies → Option Text → Reply (List Text × ℕ)
first_round replies none = returns ([], 0)
first_round replies (some m) = elim (replies.process_first m) [
  | rejects e ↦ rejects e
  | returns out ↦ returns (out, 1)
]

module _ {F : Type 0} where
  -- The `catch` of the last step: the raw key material is overwritten if it was fetched, and an
  -- unexpected error is written to the log.
  unfoldable pub fail_open :
      Option ℕ → Reply (Unit {0}) → AuditEntry F → Exception → M (Service F) CreateSessionOutput
  fail_open buffer create_failed entry e s =
      let s' : Service F = elim buffer [
        | none ↦ s
        | some n ↦ record s { live_buffers = wipe n s.live_buffers }
      ] in
      if is_unexpected e
      then and_then (create_request create_failed entry s') (λ _. throw e)
      else (throws e, s')

  -- `getShare` puts the key material at a fresh address, and so does the parsing of it.
  abbrev pub fetched : Service F → Service F
  fetched s = record s {
    live_buffers = s.live_buffers ++ s.next_buffer ∷ [];
    next_buffer = s.next_buffer + 1;
  }

  abbrev pub parsed : Service F → Service F
  parsed s = record s {
    parsed_buffers = s.next_buffer ∷ s.parsed_buffers;
    next_buffer = s.next_buffer + 1;
  }

  -- The two `wipeBuffer` calls on the parsed pair.
  abbrev pub wiped_parsed : ℕ → Service F → Service F
  wiped_parsed n s = record s { parsed_buffers = wipe n s.parsed_buffers }

  abbrev pub stored : Text → SessionState → Service F → Service F
  stored id state s = record s { sessions = insert id state s.sessions }

  abbrev pub new_session : Opening F → OpenReplies → ℕ → Text → ℕ → SessionState
  new_session o replies buffer scheme_id round = record {
    signer_id = o.signer.id;
    eth_address = o.signer.eth_address;
    owner_id = o.signer.owner_id;
    expected_public_key = or_else replies.extract_public_key (zero_bytes 33);
    signing_path = o.path;
    key_buffer = buffer;
    evaluated_count = o.evaluated_count;
    evaluation_time_ms = o.evaluation_time_ms;
    scheme_session_id = scheme_id;
    round = round;
    created_at = replies.created_at;
    kind = o.kind;
  }

  abbrev pub session_output : Opening F → OpenReplies → List Text → CreateSessionOutput
  session_output o replies messages = record {
    session_id = replies.session_id;
    server_first_messages = messages;
    message_hash = o.hash;
    eid = replies.eid;
    party_config = get_party_config o.path;
    rounds_remaining = 4;
  }

  -- The step behind `createSignSession`: the parsed pair is overwritten, the first message is
  -- processed, and the session is stored.
  unfoldable pub store_session :
      Opening F
      → OpenReplies
      → Option Text
      → ℕ
      → Text × List Text
      → M (Service F) CreateSessionOutput
  store_session o replies first buffer (scheme_id, messages) s = elim (first_round replies first) [
    | rejects e ↦
        fail_open (some buffer) replies.create_failed o.failure e (wiped_parsed (buffer + 1) s)
    | returns (out, round) ↦ (
      ok (session_output o replies (messages ++ out)),
      stored replies.session_id (new_session o replies buffer scheme_id round)
          (wiped_parsed (buffer + 1) s),
    )
  ]

  -- The `try` of steps 7 to 9.
  unfoldable pub open_signing :
      Opening F → OpenReplies → Option Text → M (Service F) CreateSessionOutput
  open_signing o replies first s = elim replies.get_share [
    | rejects e ↦ fail_open none replies.create_failed o.failure e s
    | returns _ ↦ elim replies.parse [
      | rejects e ↦ fail_open (some s.next_buffer) replies.create_failed o.failure e (fetched s)
      | returns _ ↦
          elim (replies.create_sign_session o.hash (get_party_config o.path) (force_wasm o.path)) [
            | rejects e ↦
                fail_open (some s.next_buffer) replies.create_failed o.failure e
                  (parsed (fetched s))
            | returns started ↦
                store_session o replies first s.next_buffer started (parsed (fetched s))
          ]
    ]
  ]
