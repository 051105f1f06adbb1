-- ===== src/Signing/Invariant/Handlers.antt =====
-- Every handler keeps the invariant.
use guardian_wallet.Prelude.{ℕ, ◌+◌, ◌≡◌, refl, sym, ◌∙◌, Option, none, some, Text, arith}
use guardian_wallet.Prelude.Dict.{lookup, insert, insert-HasUniqueKeys}
use guardian_wallet.Prelude.Effects.{
  Exception, Result, Reply, returns, rejects, and_then, try_catch,
}
use guardian_wallet.Signing.Types.{Signer, SessionKind, tx, message, TxPart, SessionState, Service}
use guardian_wallet.Signing.Rounds.{
  open_session, require_active, run_round, RoundResult, process_round, advance, complete_sign,
  complete_tx, sign_and_broadcast, record_failure, broadcast_signed, CompleteReplies, Signature,
  complete_message_sign, sign_message_body,
}
use guardian_wallet.Signing.Access.{Access, entered, refused, destroyed, open_session-Access}
use guardian_wallet.Signing.Buffers.{buffers, buffers-insert_known, length-insert_known}
use guardian_wallet.Signing.Invariant.{IsSound, Ensures}
use guardian_wallet.Signing.Invariant.Steps.{
  bind-Ensures, then-Ensures, return-Ensures, throw-Ensures, await-Ensures, require-Ensures,
  try_catch-Ensures, try_finally-Ensures, destroy_session-IsSound, get_valid_session-Ensures,
  create_request-Ensures,
}

module _ {F : Type 0} where
  -- The session keeps its buffer when its round counter moves.
  advance-IsSound :
      (id : Text) (state : SessionState) (s : Service F)
      → lookup id s.sessions ≡ some state
      → IsSound s
      → IsSound (advance id state s)
  advance-IsSound id state s l h =
      let next : SessionState = record state { round = state.round + 1 } in
      let same : buffers (insert id next s.sessions) ≡ buffers s.sessions =
        buffers-insert_known id next s.sessions state l refl in
      record {
        keys = insert-HasUniqueKeys id next s.sessions h.keys;
        live = h.live ∙ sym same;
        distinct = rw same h.distinct;
        fresh = rw same h.fresh;
        bounded = omega (arith, length-insert_known id next s.sessions state l, h.bounded);
      }

  run_round-IsSound :
      (id : Text) (state : SessionState) (reply : Reply RoundResult) (s : Service F)
      → lookup id s.sessions ≡ some state
      → IsSound s
      → IsSound (run_round id state reply s).1
  unfolding run_round
  run_round-IsSound id state (returns result) s l h = advance-IsSound id state s l h
  run_round-IsSound id state (rejects e) s l h = destroy_session-IsSound id s h

  behind-Access :
      (id signer_id : Text) (now : ℕ) (found : Reply (Option Signer)) (reply : Reply RoundResult)
      (s : Service F) (p : Result SessionState × Service F)
      → Access id signer_id now found s p
      → IsSound s
      → IsSound (and_then p (λ state. run_round id state reply)).1
  behind-Access id signer_id now found reply s _ (entered state o) h =
      run_round-IsSound id state reply s o.stored h
  behind-Access id signer_id now found reply s _ (refused e) h = h
  behind-Access id signer_id now found reply s _ (destroyed e) h = destroy_session-IsSound id s h

  -- `processRound` keeps the invariant, whatever the replies are.
  pub process_round-IsSound :
      (id signer_id : Text) (now : ℕ) (found : Reply (Option Signer)) (reply : Reply RoundResult)
      (s : Service F)
      → IsSound s
      → IsSound (process_round id signer_id now found reply s).1
  unfolding process_round
  process_round-IsSound id signer_id now found reply s h =
      behind-Access id signer_id now found reply s (open_session id signer_id now found s)
        (open_session-Access id signer_id now found s) h

  require_active-Ensures :
      (id : Text) (signer : Option Signer)
      → Ensures IsSound IsSound (require_active {F = F} id signer)
  unfolding require_active
  require_active-Ensures id signer = record {
    ensures = λ s h. ground (arith, destroy_session-IsSound id s h);
  }

  record_failure-Ensures :
      {A : Type 0} (state : SessionState) (part : TxPart) (replies : CompleteReplies F)
      (json : Option Text) (e : Exception)
      → Ensures IsSound IsSound (record_failure {A = A} state part replies json e)
  unfolding record_failure
  record_failure-Ensures state part replies json e =
      then-Ensures IsSound (create_request-Ensures _ _) (throw-Ensures IsSound e)

  broadcast_signed-Ensures :
      (state : SessionState) (part : TxPart) (replies : CompleteReplies F) (signature : Signature)
      → Ensures IsSound IsSound (broadcast_signed state part replies signature)
  unfolding broadcast_signed
  broadcast_signed-Ensures state part replies signature =
      bind-Ensures IsSound IsSound (λ s h. h) (await-Ensures IsSound replies.get_chain)
        (λ _.
          bind-Ensures IsSound IsSound (λ s h. h) (await-Ensures IsSound replies.build_transaction)
            (λ _.
              bind-Ensures IsSound IsSound (λ s h. h)
                (await-Ensures IsSound replies.broadcast_transaction)
                (λ tx_hash.
                  then-Ensures IsSound (create_request-Ensures _ _)
                    (return-Ensures IsSound (tx_hash, signature)))))

  sign_and_broadcast-Ensures :
      (to_json : Signature → Text) (state : SessionState) (part : TxPart)
      (replies : CompleteReplies F)
      → Ensures IsSound IsSound (sign_and_broadcast to_json state part replies)
  unfolding sign_and_broadcast
  sign_and_broadcast-Ensures to_json state part replies = by_reply replies.finalize_sign
    where
      by_reply :
          (r : Reply Signature)
          → Ensures IsSound IsSound (elim r [
            | rejects e ↦ record_failure state part replies none e
            | returns signature ↦
                try_catch
                  (broadcast_signed state part replies signature)
                  (λ e. record_failure state part replies (some (to_json signature)) e)
          ])
      by_reply (rejects e) = record_failure-Ensures state part replies none e
      by_reply (returns signature) =
          try_catch-Ensures IsSound (broadcast_signed-Ensures state part replies signature)
            (λ e. record_failure-Ensures state part replies (some (to_json signature)) e)

  complete_tx-Ensures :
      (to_json : Signature → Text) (id : Text) (found : Reply (Option Signer))
      (state : SessionState) (replies : CompleteReplies F) (kind : SessionKind)
      → Ensures IsSound IsSound (complete_tx to_json id found state replies kind)
  unfolding complete_tx
  complete_tx-Ensures to_json id found state replies message = throw-Ensures IsSound _
  complete_tx-Ensures to_json id found state replies (tx part) =
      bind-Ensures IsSound IsSound (λ s h. h) (await-Ensures IsSound found)
        (λ signer. then-Ensures IsSound (require_active-Ensures id signer) (
          try_finally-Ensures IsSound (sign_and_broadcast-Ensures to_json state part replies)
            (λ s h. destroy_session-IsSound id s h)))

  -- `completeSign` keeps the invariant, whatever the replies are.
  pub complete_sign-IsSound :
      (to_json : Signature → Text) (id signer_id : Text) (now : ℕ) (found : Reply (Option Signer))
      (replies : CompleteReplies F)
      → Ensures IsSound IsSound (complete_sign to_json id signer_id now found replies)
  unfolding complete_sign
  complete_sign-IsSound to_json id signer_id now found replies =
      bind-Ensures IsSound IsSound (λ s h. h) (get_valid_session-Ensures id now)
        (λ state.
          then-Ensures IsSound (require-Ensures IsSound _ _)
            (complete_tx-Ensures to_json id found state replies state.kind))

  sign_message_body-Ensures :
      (state : SessionState) (finalized : Reply Signature) (written : Reply (Unit {0}))
      → Ensures IsSound IsSound (sign_message_body {F = F} state finalized written)
  unfolding sign_message_body
  sign_message_body-Ensures state finalized written =
      bind-Ensures IsSound IsSound (λ s h. h) (await-Ensures IsSound finalized)
        (λ signature.
          then-Ensures IsSound (create_request-Ensures _ _) (return-Ensures IsSound signature))

  open_session-Ensures :
      (id signer_id : Text) (now : ℕ) (found : Reply (Option Signer))
      → Ensures IsSound IsSound (open_session {F = F} id signer_id now found)
  unfolding open_session
  open_session-Ensures id signer_id now found =
      bind-Ensures IsSound IsSound (λ s h. h) (get_valid_session-Ensures id now)
        (λ state. then-Ensures IsSound (require-Ensures IsSound _ _) (
          bind-Ensures IsSound IsSound (λ s h. h) (await-Ensures IsSound found)
            (λ signer.
              then-Ensures IsSound (require_active-Ensures id signer)
                (return-Ensures IsSound state))))

  -- `completeMessageSign` keeps the invariant, whatever the replies are.
  pub complete_message_sign-IsSound :
      (id signer_id : Text) (now : ℕ) (found : Reply (Option Signer)) (finalized : Reply Signature)
      (create_approved create_failed : Reply (Unit {0}))
      → Ensures IsSound IsSound (
          complete_message_sign {F = F} id signer_id now found finalized create_approved
            create_failed)
  unfolding complete_message_sign
  complete_message_sign-IsSound id signer_id now found finalized create_approved create_failed =
      bind-Ensures IsSound IsSound (λ s h. h) (open_session-Ensures id signer_id now found)
        (λ state.
          try_finally-Ensures IsSound
            (try_catch-Ensures IsSound (sign_message_body-Ensures state finalized create_approved)
              (λ e. then-Ensures IsSound (create_request-Ensures _ _) (throw-Ensures IsSound e)))
            (λ s h. destroy_session-IsSound id s h))
