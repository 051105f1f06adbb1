-- ===== src/Signing/Completion.antt =====
-- The completions, `completeSign` and `completeMessageSign`.
use guardian_wallet.Prelude.{
  ℕ, ◌≡◌, refl, ◌∙◌, true, Option, none, some, [], ◌∷◌, ◌++◌, Text, text_eq, text_eq_iff,
  Bool-cases, Option-cases, inl, inr,
}
use guardian_wallet.Prelude.Dict.{lookup}
use guardian_wallet.Prelude.Effects.{
  Exception, Result, ok, throws, Reply, Reply-cases, returns, rejects, M, and_then, ◌>>◌, throw,
  try_catch, finished,
}
use guardian_wallet.Signing.Types.{
  Signer, SessionKind, tx, message, TxPart, SessionState, Service, is_active, RequestStatus,
  approved, failed, AuditEntry,
}
use guardian_wallet.Signing.Sessions.{
  destroy_session, get_valid_session, is_expired, create_request,
}
use guardian_wallet.Signing.Rounds.{
  open_session, require_active, is_usable, complete_sign, complete_tx, CompleteReplies, Signature,
  complete_message_sign, sign_and_broadcast, broadcast_signed, record_failure, message_entry,
  sign_message_body,
}
use guardian_wallet.Signing.Access.{
  Access, IsOpen, entered, refused, destroyed, open_session-Access,
}
use guardian_wallet.Signing.Endings.{destroyed_gone}

-- Either the handler threw and left the state, or the session is not in the table any more.
pub data Closes {F A : Type 0} (id : Text) (s : Service F) : Result A × Service F → Type 0 where
  untouched : (e : Exception) → Closes id s (throws e, s)
  closed : (p : Result A × Service F) → lookup id p.1.sessions ≡ none → Closes id s p

module _ {F : Type 0} where
  finished_gone :
      {A : Type 0} (id : Text) (p : Result A × Service F)
      → lookup id (finished p (destroy_session id)).1.sessions ≡ none
  finished_gone id (r, s) = destroyed_gone id s

  active_then :
      {A : Type 0} (id : Text) (signer : Option Signer) (k : M (Service F) A) (s : Service F)
      → lookup id (k s).1.sessions ≡ none
      → Closes id s (and_then (require_active id signer s) (λ _. k))
  unfolding require_active
  active_then id signer k s h = elim (Bool-cases (is_usable signer)) [
    | inl usable ↦ rw (usable, require_active) (closed _ h)
    | inr unusable ↦ rw (unusable, require_active) (closed _ (destroyed_gone id s))
  ]

  module _ (to_json : Signature → Text) where
    complete_tx-Closes :
        (id : Text) (found : Reply (Option Signer)) (state : SessionState)
        (replies : CompleteReplies F) (kind : SessionKind) (s : Service F)
        → Closes id s (complete_tx to_json id found state replies kind s)
    unfolding complete_tx
    complete_tx-Closes id found state replies message s = untouched _
    complete_tx-Closes id (rejects e) state replies (tx part) s = untouched e
    complete_tx-Closes id (returns signer) state replies (tx part) s =
        active_then id signer _ s
          (finished_gone id (sign_and_broadcast to_json state part replies s))

    -- `completeSign` either throws and leaves everything as it was, or the session is gone afterwards,
    -- whatever the replies are.
    pub complete_sign-Closes :
        (id signer_id : Text) (now : ℕ) (found : Reply (Option Signer))
        (replies : CompleteReplies F) (s : Service F)
        → Closes id s (complete_sign to_json id signer_id now found replies s)
    unfolding complete_sign get_valid_session
    complete_sign-Closes id signer_id now found replies s =
        elim (Option-cases (lookup id s.sessions)) [
          | inl gone ↦ rw (gone, complete_sign, get_valid_session) (untouched _)
          | inr (state, l) ↦ elim (Bool-cases (is_expired now state)) [
            | inl old ↦
                rw (l, old, complete_sign, get_valid_session) (closed _ (destroyed_gone id s))
            | inr young ↦ elim (Bool-cases (text_eq state.signer_id signer_id)) [
              | inl own ↦
                  rw (l, young, own, complete_sign, get_valid_session)
                    (complete_tx-Closes id found state replies state.kind s)
              | inr foreign ↦ rw (l, young, foreign, complete_sign, get_valid_session) (untouched _)
            ]
          ]
        ]

  message-Closes :
      (id signer_id : Text) (now : ℕ) (found : Reply (Option Signer)) (s : Service F)
      (k : SessionState → M (Service F) Signature) (p : Result SessionState × Service F)
      → ((state : SessionState) → lookup id (k state s).1.sessions ≡ none)
      → Access id signer_id now found s p
      → Closes id s (and_then p k)
  message-Closes id signer_id now found s k _ h (entered state o) = closed _ (h state)
  message-Closes id signer_id now found s k _ h (refused e) = untouched e
  message-Closes id signer_id now found s k _ h (destroyed e) = closed _ (destroyed_gone id s)

  -- `completeMessageSign` either throws and leaves everything as it was, or the session is gone
  -- afterwards, whatever the replies are.
  pub complete_message_sign-Closes :
      (id signer_id : Text) (now : ℕ) (found : Reply (Option Signer)) (finalized : Reply Signature)
      (create_approved create_failed : Reply (Unit {0})) (s : Service F)
      → Closes id s
          (complete_message_sign id signer_id now found finalized create_approved create_failed s)
  unfolding complete_message_sign
  complete_message_sign-Closes id signer_id now found finalized create_approved create_failed s =
      message-Closes id signer_id now found s _ (open_session id signer_id now found s)
        (λ state. finished_gone id (
          try_catch (sign_message_body state finalized create_approved)
            (λ e. do create_request create_failed (message_entry state failed); throw e) s))
        (open_session-Access id signer_id now found s)

-- The status of the row that says what a completion did.
abbrev pub status_of : {A : Type 0} → Result A → RequestStatus
status_of (ok a) = approved
status_of (throws e) = failed

module _ {F : Type 0} where
  -- The log has one more row, of the session's signer, with the status of the result.
  pub record IsLogged {A : Type 0} (state : SessionState) (s : Service F) (p : Result A × Service F)
      : Type 0 where
    pub row : AuditEntry F
    pub added : p.1.audit_log ≡ s.audit_log ++ row ∷ []
    pub truthful : row.status ≡ status_of p.0
    pub signer_id : row.signer_id ≡ state.signer_id

  destroy_session-audit_log :
      (id : Text) (s : Service F) → (destroy_session id s).audit_log ≡ s.audit_log
  unfolding destroy_session
  destroy_session-audit_log id s = elim (Option-cases (lookup id s.sessions)) [
    | inl gone ↦ rw (gone, destroy_session) refl
    | inr (state, found) ↦ rw (found, destroy_session) refl
  ]

  finished-IsLogged :
      {A : Type 0} (id : Text) (state : SessionState) (s : Service F) (p : Result A × Service F)
      → IsLogged state s p
      → IsLogged state s (finished p (destroy_session id))
  finished-IsLogged id state s (r, t) h = record {
    row = h.row;
    added = destroy_session-audit_log id t ∙ h.added;
    truthful = h.truthful;
    signer_id = h.signer_id;
  }

  logged :
      {A : Type 0} {state : SessionState} {s : Service F} {p : Result A × Service F}
      (row : AuditEntry F)
      → p.1.audit_log ≡ s.audit_log ++ row ∷ []
      → row.status ≡ status_of p.0
      → row.signer_id ≡ state.signer_id
      → IsLogged state s p
  logged row a t i = record { row = row; added = a; truthful = t; signer_id = i }

  module _ (to_json : Signature → Text) where
    sign_and_broadcast-IsLogged :
        (state : SessionState) (part : TxPart) (replies : CompleteReplies F) (s : Service F)
        → replies.create_approved ≡ returns tt
        → replies.create_failed ≡ returns tt
        → IsLogged state s (sign_and_broadcast to_json state part replies s)
    unfolding sign_and_broadcast broadcast_signed record_failure create_request
    sign_and_broadcast-IsLogged state part replies s a f =
        elim (Reply-cases replies.finalize_sign) [
          | inr (e, r) ↦
              rw (r, f, sign_and_broadcast, record_failure, create_request)
                (logged _ refl refl refl)
          | inl (signature, r) ↦ elim (Reply-cases replies.get_chain) [
            | inr (e, r1) ↦
                rw (r, r1, f, sign_and_broadcast, broadcast_signed, record_failure, create_request)
                  (logged _ refl refl refl)
            | inl (_, r1) ↦ elim (Reply-cases replies.build_transaction) [
              | inr (e, r2) ↦
                  rw
                    (
                      r, r1, r2, f, sign_and_broadcast, broadcast_signed, record_failure,
                      create_request,
                    )
                    (logged _ refl refl refl)
              | inl (_, r2) ↦ elim (Reply-cases replies.broadcast_transaction) [
                | inr (e, r3) ↦
                    rw
                      (
                        r, r1, r2, r3, f, sign_and_broadcast, broadcast_signed, record_failure,
                        create_request,
                      )
                      (logged _ refl refl refl)
                | inl (h, r3) ↦
                    rw (r, r1, r2, r3, a, sign_and_broadcast, broadcast_signed, create_request)
                      (logged _ refl refl refl)
              ]
            ]
          ]
        ]

    complete_tx-IsLogged :
        (id : Text) (found : Reply (Option Signer)) (signer : Signer) (replies : CompleteReplies F)
        (s : Service F) (state : SessionState) (part : TxPart) (kind : SessionKind)
        → kind ≡ tx part
        → found ≡ returns (some signer)
        → is_active signer.status ≡ true
        → replies.create_approved ≡ returns tt
        → replies.create_failed ≡ returns tt
        → IsLogged state s (complete_tx to_json id found state replies kind s)
    unfolding complete_tx require_active
    complete_tx-IsLogged id found signer replies s state part kind k l u a f =
        rw (k, l, u, complete_tx, require_active)
          (finished-IsLogged id state s _ (sign_and_broadcast-IsLogged state part replies s a f))

    -- Completing an open transaction session leaves exactly one more row in the log if the log can be
    -- written: it is of the session's signer, and is approved if the handler returns and failed if it throws.
    pub complete_sign-IsLogged :
        (id signer_id : Text) (now : ℕ) (found : Reply (Option Signer))
        (replies : CompleteReplies F) (s : Service F) (state : SessionState) (part : TxPart)
        → IsOpen id signer_id now found s state
        → state.kind ≡ tx part
        → replies.create_approved ≡ returns tt
        → replies.create_failed ≡ returns tt
        → IsLogged state s (complete_sign to_json id signer_id now found replies s)
    unfolding complete_sign get_valid_session
    complete_sign-IsLogged id signer_id now found replies s state part o k a f =
        let own : text_eq state.signer_id signer_id ≡ true =
          (text_eq_iff state.signer_id signer_id).1 o.owned in
        rw (o.stored, o.unexpired, own, complete_sign, get_valid_session)
          (complete_tx-IsLogged id found o.signer replies s state part state.kind k o.looked_up
            o.usable a f)

  sign_message_body-IsLogged :
      (state : SessionState) (finalized : Reply Signature)
      (create_approved create_failed : Reply (Unit {0})) (s : Service F)
      → create_approved ≡ returns tt
      → create_failed ≡ returns tt
      → IsLogged state s (
          try_catch
            (sign_message_body state finalized create_approved)
            (λ e. do create_request create_failed (message_entry state failed); throw e)
            s)
  unfolding sign_message_body create_request
  sign_message_body-IsLogged state (returns signature) _ _ s a f =
      rw (a, create_request) (logged _ refl refl refl)
  sign_message_body-IsLogged state (rejects e) _ _ s a f =
      rw (f, create_request) (logged _ refl refl refl)

  -- Completing an open session of either kind as a message leaves exactly one more row in the log if
  -- the log can be written: it is of the session's signer, and is approved if the handler returns and
  -- failed if it throws.
  pub complete_message_sign-IsLogged :
      (id signer_id : Text) (now : ℕ) (found : Reply (Option Signer)) (finalized : Reply Signature)
      (create_approved create_failed : Reply (Unit {0})) (s : Service F) (state : SessionState)
      → IsOpen id signer_id now found s state
      → create_approved ≡ returns tt
      → create_failed ≡ returns tt
      → IsLogged state s
          (complete_message_sign id signer_id now found finalized create_approved create_failed s)
  unfolding complete_message_sign open_session get_valid_session require_active
  complete_message_sign-IsLogged id signer_id now found finalized create_approved create_failed s
        state o a f =
      let own : text_eq state.signer_id signer_id ≡ true =
        (text_eq_iff state.signer_id signer_id).1 o.owned in
      rw
        (
          o.stored, o.unexpired, own, o.looked_up, o.usable, complete_message_sign, open_session,
          get_valid_session, require_active,
        )
        (finished-IsLogged id state s _
          (sign_message_body-IsLogged state finalized create_approved create_failed s a f))
