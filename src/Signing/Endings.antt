-- ===== src/Signing/Endings.antt =====
-- How sessions end: `destroySession`, the sweep of expired sessions and the shutdown.
use guardian_wallet.Prelude.{
  ℕ, ◌≡◌, refl, ◌∙◌, Option, none, some, [], ◌∷◌, if◌then◌else◌, Text, text_eq, text_eq_iff,
  text_eq_refl, Bool-cases, Option-cases, inl, inr, arith,
}
use guardian_wallet.Prelude.Dict.{Dict, lookup, delete, HasUniqueKeys, lookup-delete}
use guardian_wallet.Signing.Types.{SessionState, Service}
use guardian_wallet.Signing.Sessions.{
  wipe, remove_session, destroy_session, is_expired, cleanup_loop, cleanup_expired_sessions,
  destroy_loop, on_module_destroy,
}
use guardian_wallet.Signing.Buffers.{buffers, IsDistinct, delete_absent, wipe_absent}
use guardian_wallet.Signing.Invariant.{IsSound}

-- `none` for a session that is expired, and the session as it is otherwise.
abbrev pub unexpired : ℕ → Option SessionState → Option SessionState
unexpired now none = none
unexpired now (some state) = if is_expired now state then none else some state

module _ {F : Type 0} where
  -- Destroying a session removes that session, and no other.
  pub lookup-destroy_session :
      (id k : Text) (s : Service F)
      → lookup k (destroy_session id s).sessions
        ≡ (if text_eq id k then none else lookup k s.sessions)
  unfolding destroy_session
  lookup-destroy_session id k s = elim (Option-cases (lookup id s.sessions)) [
    | inl gone ↦ ground (arith, text_eq_iff id k)
    | inr (state, found) ↦ rw (found, destroy_session) (lookup-delete id k s.sessions)
  ]

  pub destroyed_gone :
      (id : Text) (s : Service F) → lookup id (destroy_session id s).sessions ≡ none
  destroyed_gone id s = lookup-destroy_session id id s ∙ rw (text_eq_refl id) refl

  cleanup_loop-unlisted :
      (now : ℕ) (k : Text) (m : Dict SessionState) (s : Service F)
      → lookup k m ≡ none
      → lookup k (cleanup_loop now m s).sessions ≡ lookup k s.sessions
  unfolding cleanup_loop lookup
  cleanup_loop-unlisted now k [] s h = refl
  cleanup_loop-unlisted now k ((id, state) ∷ m) s h = elim (Bool-cases (is_expired now state)) [
    | inl old ↦
        rw (old, cleanup_loop)
          (cleanup_loop-unlisted now k m (destroy_session id s) (ground arith)
            ∙ ground (arith, lookup-destroy_session id k s))
    | inr young ↦ rw (young, cleanup_loop) (cleanup_loop-unlisted now k m s (ground arith))
  ]

  cleanup_loop-listed :
      (now : ℕ) (k : Text) (m : Dict SessionState) (s : Service F)
      → HasUniqueKeys m
      → lookup k s.sessions ≡ lookup k m
      → lookup k (cleanup_loop now m s).sessions ≡ unexpired now (lookup k m)
  unfolding cleanup_loop lookup
  cleanup_loop-listed now k [] s u h = h
  cleanup_loop-listed now k ((id, state) ∷ m) s u h =
      let next : Service F = if is_expired now state then destroy_session id s else s in
      elim (Bool-cases (text_eq id k)) [
        | inl same ↦
            let out : lookup k m ≡ none = rw (← (text_eq_iff id k).0 same) u.0 in
            ground (arith, cleanup_loop-unlisted now k m next out, lookup-destroy_session id k s)
        | inr other ↦
            let here : lookup k next.sessions ≡ lookup k m =
              ground (arith, lookup-destroy_session id k s) in
            ground (arith, cleanup_loop-listed now k m next u.1 here)
      ]

  -- The sweep removes exactly the expired sessions.
  pub cleanup_lookup :
      (now : ℕ) (k : Text) (s : Service F)
      → HasUniqueKeys s.sessions
      → lookup k (cleanup_expired_sessions now s).sessions ≡ unexpired now (lookup k s.sessions)
  unfolding cleanup_expired_sessions
  cleanup_lookup now k s u = cleanup_loop-listed now k s.sessions s u refl

  destroy_loop-empty :
      (m : Dict SessionState) (s : Service F)
      → s.sessions ≡ m
      → s.live_buffers ≡ buffers m
      → HasUniqueKeys m
      → IsDistinct (buffers m)
      → ((destroy_loop m s).sessions ≡ []) × ((destroy_loop m s).live_buffers ≡ [])
  unfolding destroy_loop delete wipe
  destroy_loop-empty [] s e l u d = (e, l)
  destroy_loop-empty ((id, state) ∷ m) s e l u d =
      destroy_loop-empty m (remove_session id state s)
        (ground (arith, delete_absent id m, text_eq_refl id))
        (ground (arith, wipe_absent state.key_buffer (buffers m) d.0)) u.1 d.1

  -- The shutdown empties the table and overwrites all raw key material, if the service is sound.
  pub on_module_destroy_empties :
      (s : Service F)
      → IsSound s
      → ((on_module_destroy s).sessions ≡ []) × ((on_module_destroy s).live_buffers ≡ [])
  unfolding on_module_destroy
  on_module_destroy_empties s h = destroy_loop-empty s.sessions s refl h.live h.keys h.distinct
