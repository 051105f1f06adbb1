-- ===== src/Signing/Invariant/Steps.antt =====
-- The rules for handlers, and the steps on the table of sessions.
use guardian_wallet.Prelude.{
  ℕ, ◌<◌, ◌≡◌, Bool, true, false, some, [], ◌∷◌, if◌then◌else◌, Text, Option-cases, inl, inr, arith,
}
use guardian_wallet.Prelude.Dict.{Dict, lookup, delete-HasUniqueKeys, length-delete}
use guardian_wallet.Prelude.Effects.{
  Exception, Result, ok, throws, Reply, returns, rejects, M, and_then, ◌>>=◌, ◌>>◌, return, throw,
  require, await, try_catch, try_finally, handled, finished,
}
use guardian_wallet.Signing.Types.{SessionState, AuditEntry, Service}
use guardian_wallet.Signing.Sessions.{
  remove_session, destroy_session, get_valid_session, is_expired, cleanup_loop,
  cleanup_expired_sessions, create_request, create_request_caught,
}
use guardian_wallet.Signing.Buffers.{delete-All, delete-IsDistinct, wipe-buffers}
use guardian_wallet.Signing.Invariant.{IsSound, Ensures}

module _ {F : Type 0} (P Q : Service F → Type 0) where
  and_then-Ensures :
      {A B : Type 0} (p : Result A × Service F) (f : A → M (Service F) B)
      → P p.1
      → ((s : Service F) → P s → Q s)
      → ((a : A) → Ensures P Q (f a))
      → Q (and_then p f).1
  and_then-Ensures (ok a, s) f h w k = (k a).ensures s h
  and_then-Ensures (throws e, s) f h w k = w s h

  pub bind-Ensures :
      {A B : Type 0} {m : M (Service F) A} {f : A → M (Service F) B}
      → ((s : Service F) → P s → Q s)
      → Ensures P P m
      → ((a : A) → Ensures P Q (f a))
      → Ensures P Q (m >>= f)
  bind-Ensures {m} {f} w k l = record {
    ensures = λ s h. and_then-Ensures (m s) f (k.ensures s h) w l;
  }

module _ {F : Type 0} (P : Service F → Type 0) where
  pub return-Ensures : {A : Type 0} (a : A) → Ensures P P (return a)
  return-Ensures a = record { ensures = λ s h. h }

  pub throw-Ensures : {A : Type 0} (e : Exception) → Ensures P P (throw {A = A} e)
  throw-Ensures e = record { ensures = λ s h. h }

  pub await-Ensures : {A : Type 0} (r : Reply A) → Ensures P P (await r)
  await-Ensures (returns a) = record { ensures = λ s h. h }
  await-Ensures (rejects e) = record { ensures = λ s h. h }

  finished-at :
      {A : Type 0} (p : Result A × Service F) (f : Service F → Service F)
      → ((s : Service F) → P s → P (f s))
      → P p.1
      → P (finished p f).1
  finished-at (r, s) f k h = k s h

  pub try_finally-Ensures :
      {A : Type 0} {m : M (Service F) A} {f : Service F → Service F}
      → Ensures P P m
      → ((s : Service F) → P s → P (f s))
      → Ensures P P (try_finally m f)
  try_finally-Ensures {m} {f} k l = record {
    ensures = λ s h. finished-at (m s) f l (k.ensures s h);
  }

  handled-at :
      {A : Type 0} (p : Result A × Service F) (f : Exception → M (Service F) A)
      → ((e : Exception) → Ensures P P (f e))
      → P p.1
      → P (handled p f).1
  handled-at (ok a, s) f k h = h
  handled-at (throws e, s) f k h = (k e).ensures s h

  pub try_catch-Ensures :
      {A : Type 0} {m : M (Service F) A} {f : Exception → M (Service F) A}
      → Ensures P P m
      → ((e : Exception) → Ensures P P (f e))
      → Ensures P P (try_catch m f)
  try_catch-Ensures {m} {f} k l = record { ensures = λ s h. handled-at (m s) f l (k.ensures s h) }

  pub then-Ensures :
      {B : Type 0} {m : M (Service F) (Unit {0})} {k : M (Service F) B}
      → Ensures P P m
      → Ensures P P k
      → Ensures P P (m >> k)
  then-Ensures {m} {k} l r = record {
    ensures = λ s h. and_then-Ensures P P (m s) (λ _. k) (l.ensures s h) (λ _ g. g) (λ _. r);
  }

  pub require-Ensures : (b : Bool) (e : Exception) → Ensures P P (require b e)
  require-Ensures true e = record { ensures = λ s h. h }
  require-Ensures false e = record { ensures = λ s h. h }

module _ {F : Type 0} where
  -- A session removed with its buffer.
  pub remove_session-IsSound :
      (id : Text) (state : SessionState) (s : Service F)
      → lookup id s.sessions ≡ some state
      → IsSound s
      → IsSound (remove_session id state s)
  remove_session-IsSound id state s e h = record {
    keys = delete-HasUniqueKeys id s.sessions h.keys;
    live = rw h.live (wipe-buffers id s.sessions state h.distinct e h.keys);
    distinct = delete-IsDistinct id s.sessions h.distinct;
    fresh = delete-All (λ n. n < s.next_buffer) id s.sessions h.fresh;
    bounded = omega (arith, length-delete id s.sessions, h.bounded);
  }

  pub destroy_session-IsSound :
      (id : Text) (s : Service F) → IsSound s → IsSound (destroy_session id s)
  unfolding destroy_session
  destroy_session-IsSound id s h = elim (Option-cases (lookup id s.sessions)) [
    | inl gone ↦ rw (gone, destroy_session) h
    | inr (state, found) ↦ rw (found, destroy_session) (remove_session-IsSound id state s found h)
  ]

  pub get_valid_session-Ensures :
      (id : Text) (now : ℕ) → Ensures IsSound IsSound (get_valid_session {F = F} id now)
  unfolding get_valid_session
  get_valid_session-Ensures id now = record {
    ensures = λ s h. ground (arith, destroy_session-IsSound id s h);
  }

  cleanup_loop-IsSound :
      (now : ℕ) (m : Dict SessionState) (s : Service F) → IsSound s → IsSound (cleanup_loop now m s)
  unfolding cleanup_loop
  cleanup_loop-IsSound now [] s h = h
  cleanup_loop-IsSound now ((id, state) ∷ m) s h =
      cleanup_loop-IsSound now m (if is_expired now state then destroy_session id s else s)
        (kept (is_expired now state))
    where
      kept : (b : Bool) → IsSound (if b then destroy_session id s else s)
      kept true = destroy_session-IsSound id s h
      kept false = h

  pub cleanup-IsSound :
      (now : ℕ) (s : Service F) → IsSound s → IsSound (cleanup_expired_sessions now s)
  unfolding cleanup_expired_sessions
  cleanup-IsSound now s h = cleanup_loop-IsSound now s.sessions s h

  -- A row of the log does not touch the table.
  pub create_request_caught-IsSound :
      (r : Reply (Unit {0})) (entry : AuditEntry F) (s : Service F)
      → IsSound s
      → IsSound (create_request_caught r entry s)
  unfolding create_request_caught
  create_request_caught-IsSound (returns _) entry s h = record {
    keys = h.keys;
    live = h.live;
    distinct = h.distinct;
    fresh = h.fresh;
    bounded = h.bounded;
  }
  create_request_caught-IsSound (rejects e) entry s h = h

  pub create_request-Ensures :
      (r : Reply (Unit {0})) (entry : AuditEntry F)
      → Ensures IsSound IsSound (create_request r entry)
  unfolding create_request
  create_request-Ensures (returns _) entry = record {
    ensures = λ s h. record {
      keys = h.keys;
      live = h.live;
      distinct = h.distinct;
      fresh = h.fresh;
      bounded = h.bounded;
    };
  }
  create_request-Ensures (rejects e) entry = record { ensures = λ s h. h }
