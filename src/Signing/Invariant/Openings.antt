-- ===== src/Signing/Invariant/Openings.antt =====
-- The start of a session and the shutdown of the service keep the invariant.
use guardian_wallet.Prelude.{
  ℕ, ◌+◌, ◌<◌, ◌≤◌, ◌≡◌, refl, Option, none, some, List, [], ◌∷◌, ◌++◌, Text, Bool-cases, inl, inr,
  arith,
}
use guardian_wallet.Prelude.Dict.{insert}
use guardian_wallet.Prelude.Effects.{
  Exception, Result, ok, throws, Reply, returns, rejects, and_then, throw,
}
use guardian_wallet.Signing.Types.{SessionState, AuditEntry, Service}
use guardian_wallet.Signing.Sessions.{wipe, create_request}
use guardian_wallet.Signing.Opening.{
  OpenReplies, Opening, CreateSessionOutput, fail_open, fetched, parsed, wiped_parsed, stored,
  new_session, store_session, open_signing, first_round, is_unexpected, session_output,
  get_party_config, force_wasm,
}
use guardian_wallet.Signing.Buffers.{buffers, wipe-append_last, All-lt-suc, All-lt-ne}
use guardian_wallet.Signing.Invariant.{IsSound}

module _ {F : Type 0} where
  -- The table and the raw buffers, without the log and the parsed pairs.
  pub record IsSame (s t : Service F) : Type 0 where
    pub sessions : t.sessions ≡ s.sessions
    pub live : t.live_buffers ≡ s.live_buffers
    pub next : s.next_buffer ≤ t.next_buffer

  pub IsSame-IsSound : (s t : Service F) → IsSame s t → IsSound s → IsSound t
  IsSame-IsSound s t e h = record {
    keys = rw e.sessions h.keys;
    live = rw (e.sessions, e.live) h.live;
    distinct = rw e.sessions h.distinct;
    fresh = rw e.sessions (All-lt-suc (buffers s.sessions) e.next h.fresh);
    bounded = rw e.sessions h.bounded;
  }

  wipe_fetched :
      (s t : Service F)
      → t.live_buffers ≡ s.live_buffers ++ s.next_buffer ∷ []
      → IsSound s
      → wipe s.next_buffer t.live_buffers ≡ s.live_buffers
  wipe_fetched s t e h = rw e (
      wipe-append_last s.next_buffer s.live_buffers
        (rw h.live (All-lt-ne (buffers s.sessions) s.next_buffer h.fresh)))

  -- The two outcomes of the last step: an exception, with the key material overwritten, and a new
  -- session of the signer at the end of the table, with the key material that was fetched for it.
  pub data Opened (o : Opening F) (id : Text) (s : Service F)
      : Result CreateSessionOutput × Service F → Type 0 where
    unopened : (e : Exception) (t : Service F) → IsSame s t → Opened o id s (throws e, t)
    opened :
        (output : CreateSessionOutput) (state : SessionState) (t : Service F)
        → t.sessions ≡ insert id state s.sessions
        → t.live_buffers ≡ s.live_buffers ++ s.next_buffer ∷ []
        → state.key_buffer ≡ s.next_buffer
        → s.next_buffer < t.next_buffer
        → state.signer_id ≡ o.signer.id
        → state.kind ≡ o.kind
        → output.session_id ≡ id
        → output.message_hash ≡ o.hash
        → Opened o id s (ok output, t)

  created-Opened :
      (o : Opening F) (id : Text) (s t : Service F) (r : Reply (Unit {0})) (entry : AuditEntry F)
      (e : Exception)
      → IsSame s t
      → Opened o id s (and_then (create_request r entry t) (λ _. throw e))
  unfolding create_request
  created-Opened o id s t (returns _) entry e h =
      unopened e _ (record { sessions = h.sessions; live = h.live; next = h.next })
  created-Opened o id s t (rejects f) entry e h = unopened f t h

  fail_open-Opened :
      (o : Opening F) (id : Text) (s t : Service F) (r : Reply (Unit {0})) (entry : AuditEntry F)
      (e : Exception)
      → t.sessions ≡ s.sessions
      → t.live_buffers ≡ s.live_buffers ++ s.next_buffer ∷ []
      → s.next_buffer ≤ t.next_buffer
      → IsSound s
      → Opened o id s (fail_open (some s.next_buffer) r entry e t)
  unfolding fail_open
  fail_open-Opened o id s t r entry e a b c h =
      let same : IsSame s (record t { live_buffers = wipe s.next_buffer t.live_buffers }) = record {
        sessions = a;
        live = wipe_fetched s t b h;
        next = c;
      } in
      elim (Bool-cases (is_unexpected e)) [
        | inl u ↦ rw (u, fail_open) (created-Opened o id s _ r entry e same)
        | inr u ↦ rw (u, fail_open) (unopened e _ same)
      ]

  fail_unfetched-Opened :
      (o : Opening F) (id : Text) (s : Service F) (r : Reply (Unit {0})) (entry : AuditEntry F)
      (e : Exception)
      → Opened o id s (fail_open none r entry e s)
  unfolding fail_open
  fail_unfetched-Opened o id s r entry e =
      let same : IsSame s s = record { sessions = refl; live = refl; next = omega arith } in
      elim (Bool-cases (is_unexpected e)) [
        | inl u ↦ rw (u, fail_open) (created-Opened o id s s r entry e same)
        | inr u ↦ rw (u, fail_open) (unopened e s same)
      ]

  -- The step behind `createSignSession`, by what the first message gives.
  stored-Opened :
      (o : Opening F) (replies : OpenReplies) (s : Service F) (started : Text × List Text)
      (round : Reply (List Text × ℕ))
      → IsSound s
      → Opened o replies.session_id s (elim round [
        | rejects e ↦
            fail_open
              (some s.next_buffer)
              replies.create_failed
              o.failure
              e
              (wiped_parsed (s.next_buffer + 1) (parsed (fetched s)))
        | returns (out, round) ↦ (
          ok (session_output o replies (started.1 ++ out)),
          stored replies.session_id
              (new_session o replies s.next_buffer started.0 round)
              (wiped_parsed (s.next_buffer + 1) (parsed (fetched s))),
        )
      ])
  stored-Opened o replies s started (rejects e) h =
      fail_open-Opened o replies.session_id s _ replies.create_failed o.failure e refl refl
        (omega arith) h
  stored-Opened o replies s started (returns (out, round)) h =
      opened _ _ _ refl refl refl (omega arith) refl refl refl refl

  -- The `try` of the last step, by what the three calls before give.
  pub open_signing-Opened :
      (o : Opening F) (replies : OpenReplies) (first : Option Text) (s : Service F)
      → IsSound s
      → Opened o replies.session_id s (open_signing o replies first s)
  unfolding open_signing store_session
  open_signing-Opened o replies first s h =
      by_replies replies.get_share replies.parse
        (replies.create_sign_session o.hash (get_party_config o.path) (force_wasm o.path))
    where
      by_replies :
          (share parse : Reply (Unit {0})) (started : Reply (Text × List Text))
          → Opened o replies.session_id s (elim share [
            | rejects e ↦ fail_open none replies.create_failed o.failure e s
            | returns _ ↦ elim parse [
              | rejects e ↦
                  fail_open (some s.next_buffer) replies.create_failed o.failure e (fetched s)
              | returns _ ↦ elim started [
                | rejects e ↦
                    fail_open
                      (some s.next_buffer)
                      replies.create_failed
                      o.failure
                      e
                      (parsed (fetched s))
                | returns started ↦
                    store_session o replies first s.next_buffer started (parsed (fetched s))
              ]
            ]
          ])
      by_replies (rejects e) parse started =
          fail_unfetched-Opened o replies.session_id s replies.create_failed o.failure e
      by_replies (returns _) (rejects e) started =
          fail_open-Opened o replies.session_id s (fetched s) replies.create_failed o.failure e refl
            refl (omega arith) h
      by_replies (returns _) (returns _) (rejects e) =
          fail_open-Opened o replies.session_id s (parsed (fetched s)) replies.create_failed
            o.failure e refl refl (omega arith) h
      by_replies (returns _) (returns _) (returns started) =
          stored-Opened o replies s started (first_round replies first) h
