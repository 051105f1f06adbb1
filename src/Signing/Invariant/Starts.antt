-- ===== src/Signing/Invariant/Starts.antt =====
-- The start of a session and the shutdown of the service keep the invariant.
use guardian_wallet.Prelude.{◌<◌, ◌≡◌, refl, none, [], ◌∷◌, ◌++◌, Text, length, arith, All-append}
use guardian_wallet.Prelude.Dict.{lookup, insert, insert-HasUniqueKeys, length-insert}
use guardian_wallet.Prelude.Effects.{Result}
use guardian_wallet.Policy.Types.{Number}
use guardian_wallet.Policy.Criteria.{Host}
use guardian_wallet.Signing.Types.{SessionState, Service, max_concurrent_sessions}
use guardian_wallet.Signing.Opening.{Opening, CreateSessionOutput}
use guardian_wallet.Signing.Create.{
  CreateSessionInput, CreateMessageSessionInput, CreateReplies, MessageReplies, create_session,
  create_message_session,
}
use guardian_wallet.Signing.Buffers.{
  buffers, insert_absent, buffers-append, IsDistinct-append, All-lt-suc,
}
use guardian_wallet.Signing.Invariant.{IsSound}
use guardian_wallet.Signing.Invariant.Openings.{IsSame-IsSound, Opened, opened, unopened}
use guardian_wallet.Signing.Admission.Steps.{Outcome, reached, stopped_early}
use guardian_wallet.Signing.Admission.{
  IsAdmitted, IsMessageAdmitted, create_session-Outcome, create_message_session-Outcome,
}

module _ {F : Type 0} where
  -- A new session at the end of the table, with the buffer that was fetched for it.
  added-IsSound :
      (id : Text) (state : SessionState) (s t : Service F)
      → lookup id s.sessions ≡ none
      → length s.sessions < max_concurrent_sessions
      → t.sessions ≡ insert id state s.sessions
      → t.live_buffers ≡ s.live_buffers ++ s.next_buffer ∷ []
      → state.key_buffer ≡ s.next_buffer
      → s.next_buffer < t.next_buffer
      → IsSound s
      → IsSound t
  added-IsSound id state s t new room e live k next h =
      let shape : buffers t.sessions ≡ buffers s.sessions ++ s.next_buffer ∷ [] =
        rw (e, insert_absent id state s.sessions new, buffers-append s.sessions id state, k) refl in
      record {
        keys = rw e (insert-HasUniqueKeys id state s.sessions h.keys);
        live = rw (shape, live, h.live) refl;
        distinct =
            rw shape (IsDistinct-append (buffers s.sessions) s.next_buffer h.distinct h.fresh);
        fresh = rw shape (
            All-append (λ n. n < t.next_buffer) (buffers s.sessions) (s.next_buffer ∷ [])
              (All-lt-suc (buffers s.sessions) (omega arith) h.fresh) (next, tt));
        bounded = rw e (omega (arith, length-insert id state s.sessions));
      }

  started-IsSound :
      (Admitted : Opening F → Type 0) (id : Text) (s : Service F)
      (p : Result CreateSessionOutput × Service F)
      → ((o : Opening F) → Admitted o → length s.sessions < max_concurrent_sessions)
      → lookup id s.sessions ≡ none
      → IsSound s
      → Outcome s (λ q. (o : Opening F) × Admitted o × Opened o id s q) p
      → IsSound p.1
  started-IsSound Admitted id s _ room new h (stopped_early x t e) = IsSame-IsSound s t e h
  started-IsSound Admitted id s _ room new h (reached _ (o, a, unopened x t e)) =
      IsSame-IsSound s t e h
  started-IsSound Admitted id s _ room new h
        (reached _ (o, a, opened output state t grown live k next _ _ _ _)) =
      added-IsSound id state s t new (room o a) grown live k next h

module _ {F : Type 0} ⦃num : Number F⦄ (host : Host) where
  -- `createSession` under a session id that is not in the table keeps the invariant, whatever the other
  -- replies are.
  pub create_session-IsSound :
      (input : CreateSessionInput) (replies : CreateReplies F) (s : Service F)
      → lookup replies.opening.session_id s.sessions ≡ none
      → IsSound s
      → IsSound (create_session host input replies s).1
  create_session-IsSound input replies s new h =
      started-IsSound (IsAdmitted host input replies s) replies.opening.session_id s _
        (λ o a. a.room) new h (create_session-Outcome host input replies s h)

  -- `createMessageSession` under a session id that is not in the table keeps the invariant.
  pub create_message_session-IsSound :
      (input : CreateMessageSessionInput) (replies : MessageReplies F) (s : Service F)
      → lookup replies.opening.session_id s.sessions ≡ none
      → IsSound s
      → IsSound (create_message_session host input replies s).1
  create_message_session-IsSound input replies s new h =
      started-IsSound (IsMessageAdmitted host input replies s) replies.opening.session_id s _
        (λ o a. a.room) new h (create_message_session-Outcome host input replies s h)
