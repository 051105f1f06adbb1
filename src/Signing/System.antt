-- ===== src/Signing/System.antt =====
-- The service as a whole: the states that its handlers, its sweep and its shutdown reach from the start.
use guardian_wallet.Prelude.{ℕ, ◌≡◌, refl, Option, none, [], Text, arith}
use guardian_wallet.Prelude.Dict.{lookup}
use guardian_wallet.Prelude.Effects.{Reply}
use guardian_wallet.Policy.Types.{Number}
use guardian_wallet.Policy.Criteria.{Host}
use guardian_wallet.Signing.Types.{Signer, Service}
use guardian_wallet.Signing.Sessions.{cleanup_expired_sessions, on_module_destroy}
use guardian_wallet.Signing.Create.{
  CreateSessionInput, CreateMessageSessionInput, CreateReplies, MessageReplies, create_session,
  create_message_session,
}
use guardian_wallet.Signing.Rounds.{
  RoundResult, process_round, complete_sign, CompleteReplies, Signature, complete_message_sign,
}
use guardian_wallet.Signing.Endings.{on_module_destroy_empties}
use guardian_wallet.Signing.Invariant.{IsSound}
use guardian_wallet.Signing.Invariant.Steps.{cleanup-IsSound}
use guardian_wallet.Signing.Invariant.Handlers.{
  process_round-IsSound, complete_sign-IsSound, complete_message_sign-IsSound,
}
use guardian_wallet.Signing.Invariant.Starts.{
  create_session-IsSound, create_message_session-IsSound,
}

-- The constructor's state.
abbrev pub initial : {F : Type 0} → Service F
initial = record {
  sessions = [];
  live_buffers = [];
  parsed_buffers = [];
  next_buffer = 0;
  audit_log = [];
}

module _ {F : Type 0} ⦃num : Number F⦄ (host : Host) (to_json : Signature → Text) where
  -- One handler from its first line to its last, with any replies, or the sweep. A new session has an id
  -- that is not in the table, which `randomUUID` is relied on for.
  pub data Step (s : Service F) : Service F → Type 0 where
    creates :
        (input : CreateSessionInput) (replies : CreateReplies F)
        → lookup replies.opening.session_id s.sessions ≡ none
        → Step s (create_session host input replies s).1
    creates_message :
        (input : CreateMessageSessionInput) (replies : MessageReplies F)
        → lookup replies.opening.session_id s.sessions ≡ none
        → Step s (create_message_session host input replies s).1
    processes :
        (id signer_id : Text) (now : ℕ) (found : Reply (Option Signer)) (reply : Reply RoundResult)
        → Step s (process_round id signer_id now found reply s).1
    completes :
        (id signer_id : Text) (now : ℕ) (found : Reply (Option Signer))
        (replies : CompleteReplies F)
        → Step s (complete_sign to_json id signer_id now found replies s).1
    completes_message :
        (id signer_id : Text) (now : ℕ) (found : Reply (Option Signer))
        (finalized : Reply Signature) (create_approved create_failed : Reply (Unit {0}))
        → Step s
            (complete_message_sign id signer_id now found finalized create_approved create_failed
              s).1
    sweeps : (now : ℕ) → Step s (cleanup_expired_sessions now s)

  pub data Reachable : Service F → Type 0 where
    starts : Reachable initial
    runs : (s t : Service F) → Reachable s → Step s t → Reachable t

  Step-IsSound : (s t : Service F) → Step s t → IsSound s → IsSound t
  Step-IsSound s _ (creates input replies new) h = create_session-IsSound host input replies s new h
  Step-IsSound s _ (creates_message input replies new) h =
      create_message_session-IsSound host input replies s new h
  Step-IsSound s _ (processes id signer_id now found reply) h =
      process_round-IsSound id signer_id now found reply s h
  Step-IsSound s _ (completes id signer_id now found replies) h =
      (complete_sign-IsSound to_json id signer_id now found replies).ensures s h
  Step-IsSound s _ (completes_message id signer_id now found finalized a f) h =
      (complete_message_sign-IsSound id signer_id now found finalized a f).ensures s h
  Step-IsSound s _ (sweeps now) h = cleanup-IsSound now s h

  -- In every state that the service reaches, the raw key material in memory is exactly that of the sessions
  -- in the table, no two sessions share it, no session id occurs twice, and there are at most 1000 sessions,
  -- if handlers run one after the other.
  pub Reachable-IsSound : (s : Service F) → Reachable s → IsSound s
  Reachable-IsSound _ starts = record {
    keys = tt;
    live = refl;
    distinct = tt;
    fresh = tt;
    bounded = omega arith;
  }
  Reachable-IsSound _ (runs s t r step) = Step-IsSound s t step (Reachable-IsSound s r)

  -- After a shutdown in a state that the service reaches, no raw key material is left in memory.
  pub shutdown_wipes :
      (s : Service F)
      → Reachable s
      → ((on_module_destroy s).sessions ≡ []) × ((on_module_destroy s).live_buffers ≡ [])
  shutdown_wipes s r = on_module_destroy_empties s (Reachable-IsSound s r)
