-- ===== src/Schemes/Sessions/Finals.antt =====
-- What `finalizeSign` returns and leaves.
use guardian_wallet.Prelude.{
  ℕ, zero, suc, ap, ◌∙◌, ◌+◌, ◌≤◌, ◌≡◌, ◌≢◌, refl, true, false, Option, none, some, Text, text_eq,
  text_eq_iff, text_eq_refl, Bool-cases, Option-cases, inl, inr, ◌⊎◌, arith,
}
use guardian_wallet.Prelude.Dict.{lookup, lookup-delete}
use guardian_wallet.Prelude.Effects.{Exception, Result, ok, throws}
use guardian_wallet.Schemes.Sessions.{RawSignature, SignSession, Scheme, FinalSignature}
use guardian_wallet.Schemes.Sessions.Rounds.{
  recovers, compute_recovery_id, with_v, end_session, finish, final_of, finalize_sign,
}

module _ (recover : RawSignature → Text → ℕ → Option Text) where
  -- A signature that is returned is that of the rounds, and recovers the public key of the session with the bit
  -- that `v` stands for; none is returned where neither bit does.
  pub data Recovers (state : SignSession) (signature : RawSignature)
      (result : Result FinalSignature) : Type 0 where
    found :
        (bit : ℕ)
        → bit ≤ 1
        → recover signature state.message_hash bit ≡ some state.public_key
        → result ≡ ok (record { r = signature.r; s = signature.s; v = 27 + bit })
        → Recovers state signature result
    not_found :
        (e : Exception)
        → ((bit : ℕ) → bit ≤ 1 → recover signature state.message_hash bit ≢ some state.public_key)
        → result ≡ throws e
        → Recovers state signature result

  pub data Finalizes (id : Text) (scheme : Scheme) (p : Result FinalSignature × Scheme)
      : Type 0 where
    untouched : (e : Exception) → p ≡ (throws e, scheme) → Finalizes id scheme p
    ended :
        (state : SignSession) (signature : RawSignature)
        → lookup id scheme.sign_sessions ≡ some state
        → state.complete ≡ true
        → state.signature ≡ some signature
        → Recovers state signature p.0
        → lookup id p.1.sign_sessions ≡ none
        → Finalizes id scheme p

  recovers-cases :
      (signature : RawSignature) (hash expected : Text) (bit : ℕ)
      → ((recovers recover signature hash expected bit ≡ true)
          × (recover signature hash bit ≡ some expected))
        ⊎ ((recovers recover signature hash expected bit ≡ false)
            × (recover signature hash bit ≢ some expected))
  recovers-cases signature hash expected bit = elim (Option-cases (recover signature hash bit)) [
    | inl failed ↦ inr (rw (failed, recovers) refl, λ e. cc (failed, e))
    | inr (key, answer) ↦ elim (Bool-cases (text_eq key expected)) [
      | inl same ↦
          inl
            (rw (answer, recovers, same) refl, answer ∙ ap some ((text_eq_iff key expected).0 same))
      | inr other ↦
          inr (
            rw (answer, recovers, other) refl,
            λ e. ground (arith, answer, text_eq_iff key expected),
          )
    ]
  ]

  compute_recovery_id-Recovers :
      (state : SignSession) (signature : RawSignature)
      → Recovers state signature (
          with_v recover signature
            (compute_recovery_id recover signature state.message_hash state.public_key))
  unfolding compute_recovery_id
  compute_recovery_id-Recovers state signature =
      elim (recovers-cases signature state.message_hash state.public_key 0) [
        | inl (yes_0, key_0) ↦ rw (yes_0, compute_recovery_id) (found 0 (omega arith) key_0 refl)
        | inr (no_0, not_0) ↦
            elim (recovers-cases signature state.message_hash state.public_key 1) [
              | inl (yes_1, key_1) ↦
                  rw (no_0, yes_1, compute_recovery_id) (found 1 (omega arith) key_1 refl)
              | inr (no_1, not_1) ↦
                  rw (no_0, no_1, compute_recovery_id) (not_found _ (neither not_0 not_1) refl)
            ]
      ]
    where
      neither :
          recover signature state.message_hash 0 ≢ some state.public_key
          → recover signature state.message_hash 1 ≢ some state.public_key
          → (bit : ℕ) → bit ≤ 1
          → recover signature state.message_hash bit ≢ some state.public_key
      neither a b zero h = a
      neither a b (suc zero) h = b
      neither a b (suc (suc n)) h = absurd (omega arith)

  -- `finalizeSign` throws and leaves everything as it was, or the session had run to its end; then it is gone
  -- afterwards, and the signature of its rounds is returned with the `v` that recovers its public key, or an
  -- exception is thrown where no `v` does.
  pub finalize_sign-Finalizes :
      (id : Text) (scheme : Scheme) → Finalizes id scheme (finalize_sign recover id scheme)
  unfolding finalize_sign final_of finish end_session
  finalize_sign-Finalizes id scheme = elim (Option-cases (lookup id scheme.sign_sessions)) [
    | inl gone ↦ rw (gone, finalize_sign, final_of) (untouched _ refl)
    | inr (state, there) ↦ elim (Bool-cases state.complete) [
      | inr running ↦ rw (there, running, finalize_sign, final_of, finish) (untouched _ refl)
      | inl done ↦ elim (Option-cases state.signature) [
        | inl unsigned ↦
            rw (there, done, unsigned, finalize_sign, final_of, finish) (untouched _ refl)
        | inr (signature, signed) ↦
            rw (there, done, signed, finalize_sign, final_of, finish)
              (ended state signature there done signed
                (compute_recovery_id-Recovers state signature)
                (rw (lookup-delete id id scheme.sign_sessions, text_eq_refl id) refl))
      ]
    ]
  ]
