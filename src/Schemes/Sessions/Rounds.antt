-- ===== src/Schemes/Sessions/Rounds.antt =====
-- `processSignRound` and `finalizeSign`.
use guardian_wallet.Prelude.{
  ℕ, Bool, true, false, ◌&&◌, Option, none, some, ◌++◌, if◌then◌else◌, Text, codes, text_eq,
  is_some,
}
use guardian_wallet.Prelude.Dict.{lookup, delete}
use guardian_wallet.Prelude.Effects.{
  Exception, Result, ok, throws, Reply, M, ◌>>=◌, ◌>>◌, throw, require, await, failure,
}
use guardian_wallet.Schemes.Sessions.{
  RawSignature, Backend, SignSession, Scheme, RoundOutput, SessionRound, FinalSignature,
  destroy_backend, add_session, native, wasm,
}

-- The state after a round, with the signature that the process holds.
abbrev pub completed_native : RoundOutput → Option RawSignature → SignSession → SignSession
completed_native output held state =
    if output.complete && is_some held
    then record state { process_signature = held; complete = true; signature = held }
    else record state { process_signature = held }

-- `if (response.complete && response.r && response.s) this.signature = …`
abbrev pub held_after : RoundOutput → Option RawSignature → Option RawSignature
held_after output held =
    if output.complete && is_some output.signature then output.signature else held

abbrev pub completed_wasm : RoundOutput → SignSession → SignSession
completed_wasm output state =
    if output.complete && is_some output.signature
    then record state { complete = true; signature = output.signature }
    else state

abbrev pub after_round : Backend → RoundOutput → SignSession → SignSession
after_round (native p) output state =
    completed_native output (held_after output state.process_signature) state
after_round (wasm id) output state = completed_wasm output state

abbrev pub can_run : Backend → Bool → Bool
can_run (native p) wasm_loaded = true
can_run (wasm id) wasm_loaded = wasm_loaded

unfoldable pub no_session : Text → Exception
no_session id = failure (codes "No sign session found for id: " ++ id)

unfoldable pub advance_session :
    Text → Reply (Unit {0}) → Reply RoundOutput → SignSession → M Scheme SessionRound
unfolding add_session
advance_session id parsed answer state = do
  await parsed
  λ scheme.
      require (can_run state.backend scheme.wasm_loaded)
        (failure (codes "WASM module not yet loaded")) scheme
  output ← await answer
  λ scheme. (
    ok (record { outgoing_messages = output.messages; complete = output.complete }),
    add_session id (after_round state.backend output state) scheme,
  )

unfoldable pub round_of :
    Text → Reply (Unit {0}) → Reply RoundOutput → Option SignSession → M Scheme SessionRound
unfolding advance_session
round_of id parsed answer none = throw (no_session id)
round_of id parsed answer (some state) = advance_session id parsed answer state

-- `processSignRound`, with the parse of the messages and the answer of the backend.
unfoldable pub process_sign_round :
    Text → Reply (Unit {0}) → Reply RoundOutput → M Scheme SessionRound
unfolding round_of
process_sign_round id parsed answer scheme =
    round_of id parsed answer (lookup id scheme.sign_sessions) scheme

-- The `finally` of `finalizeSign`.
unfoldable pub end_session : Text → Backend → Scheme → Scheme
unfolding destroy_backend
end_session id backend scheme = record scheme {
  sign_sessions = delete id scheme.sign_sessions;
  live = destroy_backend scheme.wasm_loaded backend scheme.live;
}

-- `recover signature hash bit` is the public key that secp256k1 recovers, or none where it throws.
module _ (recover : RawSignature → Text → ℕ → Option Text) where
  abbrev pub recovers : RawSignature → Text → Text → ℕ → Bool
  recovers signature hash expected bit = elim (recover signature hash bit) [
    | none ↦ false
    | some key ↦ text_eq key expected
  ]

  -- `computeRecoveryId`
  unfoldable pub compute_recovery_id : RawSignature → Text → Text → Result ℕ
  compute_recovery_id signature hash expected =
      if recovers signature hash expected 0
      then ok 27
      else if recovers signature hash expected 1
      then ok 28
      else throws (
          failure (
            codes
              "Failed to compute recovery ID: neither v=27 nor v=28 recovers the expected public key"))

  abbrev pub with_v : RawSignature → Result ℕ → Result FinalSignature
  with_v signature (ok v) = ok (record { r = signature.r; s = signature.s; v = v })
  with_v signature (throws e) = throws e

  unfoldable pub finish : Text → SignSession → Option RawSignature → M Scheme FinalSignature
  unfolding compute_recovery_id end_session
  finish id state none scheme =
      (throws (failure (codes "Sign session not yet complete. Run all rounds first.")), scheme)
  finish id state (some signature) scheme = (
    with_v signature (compute_recovery_id signature state.message_hash state.public_key),
    end_session id state.backend scheme,
  )

  abbrev pub signature_of : SignSession → Option RawSignature
  signature_of state = if state.complete then state.signature else none

  unfoldable pub final_of : Text → Option SignSession → M Scheme FinalSignature
  unfolding finish
  final_of id none = throw (no_session id)
  final_of id (some state) = finish id state (signature_of state)

  -- `finalizeSign`
  unfoldable pub finalize_sign : Text → M Scheme FinalSignature
  unfolding final_of
  finalize_sign id scheme = final_of id (lookup id scheme.sign_sessions) scheme
