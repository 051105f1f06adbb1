-- ===== src/Signing/Progress.antt =====
-- What a round of `processRound` does to the session, and what a caller without rights can do.
use guardian_wallet.Prelude.{
  ℕ, ◌+◌, ◌≤◌, ◌≡◌, refl, ◌∙◌, ◌↔◌, Bool, true, false, Option, some, Text, text_eq, text_eq_refl,
  arith,
}
use guardian_wallet.Prelude.Dict.{lookup, lookup-insert}
use guardian_wallet.Prelude.Effects.{
  Exception, Result, ok, throws, Reply, returns, rejects, and_then,
}
use guardian_wallet.Signing.Types.{Signer, SessionState, Service}
use guardian_wallet.Signing.Sessions.{destroy_session}
use guardian_wallet.Signing.Rounds.{
  open_session, run_round, RoundResult, ProcessRoundOutput, process_round, rounds_remaining,
}
use guardian_wallet.Signing.Access.{
  Access, IsOpen, entered, refused, destroyed, open_session-Access,
}

module _ {F : Type 0} (id signer_id : Text) (now : ℕ) (found : Reply (Option Signer))
    (s : Service F) where
  -- A round that succeeds: the session was open, its counter moves by one, no other session changes, and
  -- the output passes on what the scheme says. At most 4 rounds remain, and none only at the end.
  pub record IsRound (reply : Reply RoundResult) (output : ProcessRoundOutput) (t : Service F)
      : Type 0 where
    pub state : SessionState
    pub access : IsOpen id signer_id now found s state
    pub result : RoundResult
    pub answered : reply ≡ returns result
    pub advanced : lookup id t.sessions ≡ some (record state { round = state.round + 1 })
    pub others : (k : Text) → text_eq id k ≡ false → lookup k t.sessions ≡ lookup k s.sessions
    pub messages : output.outgoing_messages ≡ result.outgoing_messages
    pub complete : output.complete ≡ result.complete
    pub remaining : (output.rounds_remaining ≡ 0) ↔ (output.complete ≡ true)
    pub at_most : output.rounds_remaining ≤ 4

  -- The three outcomes of a round: it succeeds, nothing changes, or the session is destroyed.
  pub data Round (reply : Reply RoundResult) : Result ProcessRoundOutput × Service F → Type 0 where
    succeeded :
        (output : ProcessRoundOutput) (t : Service F)
        → IsRound reply output t
        → Round reply (ok output, t)
    unchanged : (e : Exception) → Round reply (throws e, s)
    ended : (e : Exception) → Round reply (throws e, destroy_session id s)

  remaining_iff : (b : Bool) (n : ℕ) → (rounds_remaining b n ≡ 0) ↔ (b ≡ true)
  unfolding rounds_remaining
  remaining_iff b n = ground arith

  remaining_le : (b : Bool) (n : ℕ) → rounds_remaining b n ≤ 4
  unfolding rounds_remaining
  remaining_le b n = ground arith

  run-Round :
      (reply : Reply RoundResult) (state : SessionState)
      → IsOpen id signer_id now found s state
      → Round reply (run_round id state reply s)
  unfolding run_round
  run-Round (rejects e) state o = ended e
  run-Round (returns result) state o = succeeded _ _ (record {
    state = state;
    access = o;
    result = result;
    answered = refl;
    advanced = lookup-insert id id _ s.sessions ∙ rw (text_eq_refl id) refl;
    others = λ k e. lookup-insert id k _ s.sessions ∙ rw e refl;
    messages = refl;
    complete = refl;
    remaining = remaining_iff result.complete (state.round + 1);
    at_most = remaining_le result.complete (state.round + 1);
  })

  behind-Access :
      (reply : Reply RoundResult) (p : Result SessionState × Service F)
      → Access id signer_id now found s p
      → Round reply (and_then p (λ state. run_round id state reply))
  behind-Access reply _ (entered state o) = run-Round reply state o
  behind-Access reply _ (refused e) = unchanged e
  behind-Access reply _ (destroyed e) = ended e

  -- A round succeeds only on an open session: one in the table, of that signer, at most 120 seconds old,
  -- whose signer is active; then its counter moves by one, no other session changes, and the rounds that
  -- remain are 0 if and only if the scheme is complete. A round that throws changes nothing or destroys
  -- the session.
  pub process_round-Round :
      (reply : Reply RoundResult) → Round reply (process_round id signer_id now found reply s)
  unfolding process_round
  process_round-Round reply =
      behind-Access reply (open_session id signer_id now found s)
        (open_session-Access id signer_id now found s)
