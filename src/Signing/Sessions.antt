-- ===== src/Signing/Sessions.antt =====
-- The table of sessions: `getValidSession`, `destroySession`, `cleanupExpiredSessions` and
-- `onModuleDestroy`, and the writes of the audit log.
use guardian_wallet.Prelude.{
  ℕ, ◌-◌, Bool, none, some, List, [], ◌∷◌, ◌++◌, if◌then◌else◌, ltb, ◌==◌, Text, codes,
}
use guardian_wallet.Prelude.Dict.{Dict, lookup, delete}
use guardian_wallet.Prelude.Effects.{forbidden, not_found, Reply, returns, rejects, M, ok, throws}
use guardian_wallet.Signing.Types.{SessionState, Service, AuditEntry, session_ttl_ms}

-- `wipeBuffer` on the buffer at an address: it holds no key material any more.
unfoldable pub wipe : ℕ → List ℕ → List ℕ
wipe n [] = []
wipe n (m ∷ ms) = if m == n then wipe n ms else m ∷ wipe n ms

-- The two writes of `destroySession` for a session that is there.
abbrev pub remove_session : {F : Type 0} → Text → SessionState → Service F → Service F
remove_session id state s = record s {
  sessions = delete id s.sessions;
  live_buffers = wipe state.key_buffer s.live_buffers;
}

unfoldable pub destroy_session : {F : Type 0} → Text → Service F → Service F
destroy_session id s = elim (lookup id s.sessions) [
  | none ↦ s
  | some state ↦ remove_session id state s
]

-- `now - state.createdAt > SESSION_TTL_MS`: a difference below 0 does not exceed it either.
abbrev pub is_expired : ℕ → SessionState → Bool
is_expired now state = ltb session_ttl_ms (now - state.created_at)

unfoldable pub get_valid_session : {F : Type 0} → Text → ℕ → M (Service F) SessionState
get_valid_session id now s = elim (lookup id s.sessions) [
  | none ↦ (throws (not_found (codes "Signing session not found or expired")), s)
  | some state ↦
      if is_expired now state
      then (throws (forbidden (codes "Signing session expired")), destroy_session id s)
      else (ok state, s)
]

-- The loop of `cleanupExpiredSessions` over the entries as they stand when it starts: each session is
-- destroyed while the loop runs, which leaves the entries still to come as they are.
unfoldable pub cleanup_loop : {F : Type 0} → ℕ → Dict SessionState → Service F → Service F
cleanup_loop now [] s = s
cleanup_loop now ((id, state) ∷ rest) s =
    cleanup_loop now rest (if is_expired now state then destroy_session id s else s)

unfoldable pub cleanup_expired_sessions : {F : Type 0} → ℕ → Service F → Service F
unfolding cleanup_loop
cleanup_expired_sessions now s = cleanup_loop now s.sessions s

-- The loop of `onModuleDestroy`.
unfoldable pub destroy_loop : {F : Type 0} → Dict SessionState → Service F → Service F
destroy_loop [] s = s
destroy_loop ((id, state) ∷ rest) s = destroy_loop rest (remove_session id state s)

unfoldable pub on_module_destroy : {F : Type 0} → Service F → Service F
unfolding destroy_loop
on_module_destroy s = destroy_loop s.sessions s

-- `signingRequestRepo.create`: the row is written if the call returns.
unfoldable pub create_request :
    {F : Type 0} → Reply (Unit {0}) → AuditEntry F → M (Service F) (Unit {0})
create_request (returns _) entry s = (ok tt, record s { audit_log = s.audit_log ++ entry ∷ [] })
create_request (rejects e) entry s = (throws e, s)

-- The same with `.catch(log)`: a failure to write is only logged.
unfoldable pub create_request_caught :
    {F : Type 0} → Reply (Unit {0}) → AuditEntry F → Service F → Service F
create_request_caught (returns _) entry s = record s { audit_log = s.audit_log ++ entry ∷ [] }
create_request_caught (rejects e) entry s = s
