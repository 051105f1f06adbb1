-- ===== src/Schemes/Sessions/Tracking/Creation.antt =====
-- `createSignSession` keeps the sessions and what runs for them together.
use guardian_wallet.Prelude.{
  ◌≡◌, inl, inr, Bool, true, false, not, Option, none, List, ltb, ◌==◌, length, or_else, is_some,
  is_empty, Text, Bool-cases, arith,
}
use guardian_wallet.Prelude.Dict.{lookup, lookup-retain-none}
use guardian_wallet.Prelude.Effects.{Reply-cases, returns, ◌>>=◌}
use guardian_wallet.Schemes.Sessions.{
  native, wasm, Scheme, cleanup_expired, native_binary_available,
}
use guardian_wallet.Schemes.Sessions.Opening.{
  SessionReplies, opened_session, create_sign_session, open_native, open_wasm, create_native,
  create_wasm, by_backend, choose_native, public_key_of,
}
use guardian_wallet.Schemes.Sessions.Tracking.{
  IsTracked, cleanup_expired-IsTracked, start-IsTracked,
}

-- A process that was started answers its first line, and the WASM module gives a session an id that is not
-- empty.
pub record Answers (replies : SessionReplies) : Type 0 where
  pub messages : List Text
  pub first_line : replies.first_line ≡ returns messages
  pub id_not_empty :
      (opened : Text × List Text)
      → replies.wasm_session ≡ returns opened
      → is_empty opened.0 ≡ false

create_native-IsTracked :
    (message_hash public_key : Text) (replies : SessionReplies) {scheme : Scheme}
    → Answers replies
    → lookup replies.session_id scheme.sign_sessions ≡ none
    → IsTracked scheme
    → IsTracked (create_native message_hash public_key replies scheme).1
unfolding create_native open_native
create_native-IsTracked message_hash public_key replies {scheme} a fresh t =
    elim (Reply-cases replies.spawned) [
      | inr (e, failed) ↦ rw (failed, create_native) t
      | inl (process, spawned) ↦
          rw (spawned, create_native, open_native, a.first_line)
            (start-IsTracked replies.session_id
              (opened_session (native process) message_hash public_key replies.now) fresh
              (ground arith) t)
    ]

open_wasm-IsTracked :
    (message_hash public_key : Text) (replies : SessionReplies) {scheme : Scheme}
    → Answers replies
    → scheme.wasm_loaded ≡ true
    → lookup replies.session_id scheme.sign_sessions ≡ none
    → IsTracked scheme
    → IsTracked (open_wasm message_hash public_key replies scheme).1
unfolding open_wasm
open_wasm-IsTracked message_hash public_key replies {scheme} a on fresh t =
    elim (Reply-cases replies.wasm_session) [
      | inr (e, failed) ↦ rw (failed, open_wasm) t
      | inl (opened, answer) ↦
          rw (answer, open_wasm)
            (start-IsTracked replies.session_id
              (opened_session (wasm opened.0) message_hash public_key replies.now) fresh
              (ground (arith, a.id_not_empty opened answer)) t)
    ]

create_wasm-IsTracked :
    (message_hash public_key : Text) (replies : SessionReplies) {scheme : Scheme}
    → Answers replies
    → lookup replies.session_id scheme.sign_sessions ≡ none
    → IsTracked scheme
    → IsTracked (create_wasm message_hash public_key replies scheme).1
unfolding create_wasm
create_wasm-IsTracked message_hash public_key replies {scheme} a fresh t =
    elim (Bool-cases scheme.wasm_loaded) [
      | inr off ↦ simp (create_wasm, off) t
      | inl on ↦
          simp (create_wasm, on) (open_wasm-IsTracked message_hash public_key replies a on fresh t)
    ]

by_backend-IsTracked :
    (is_native : Bool) (message_hash public_key : Text) (replies : SessionReplies) {scheme : Scheme}
    → Answers replies
    → lookup replies.session_id scheme.sign_sessions ≡ none
    → IsTracked scheme
    → IsTracked (by_backend is_native message_hash public_key replies scheme).1
by_backend-IsTracked true hash key replies a fresh t =
    create_native-IsTracked hash key replies a fresh t
by_backend-IsTracked false hash key replies a fresh t =
    create_wasm-IsTracked hash key replies a fresh t

-- Where the native program is found is no concern of the sessions.
found-IsTracked :
    (path : Option (Option Text)) {scheme : Scheme}
    → IsTracked scheme
    → IsTracked (record scheme { native_bin_path = path })
found-IsTracked path t = record { unique = t.unique; owned = t.owned; reached = t.reached }

chosen-IsTracked :
    (force_wasm : Bool) (hash : Text) (replies : SessionReplies) {scheme : Scheme}
    → Answers replies
    → lookup replies.session_id scheme.sign_sessions ≡ none
    → IsTracked scheme
    → IsTracked
        ((choose_native force_wasm replies.found >>= λ is_native scheme.
            by_backend is_native hash (public_key_of replies.extracted scheme) replies scheme)
          scheme).1
unfolding choose_native native_binary_available
chosen-IsTracked true hash replies a fresh t = by_backend-IsTracked false hash _ replies a fresh t
chosen-IsTracked false hash replies {scheme} a fresh t =
    by_backend-IsTracked (is_some (or_else scheme.native_bin_path replies.found)) hash _ replies a
      fresh (found-IsTracked _ t)

pub create_sign_session-IsTracked :
    (key_material : List Text) (message_hash : Text) (force_wasm : Bool) (replies : SessionReplies)
    {scheme : Scheme}
    → Answers replies
    → lookup replies.session_id scheme.sign_sessions ≡ none
    → IsTracked scheme
    → IsTracked (create_sign_session key_material message_hash force_wasm replies scheme).1
unfolding create_sign_session cleanup_expired
create_sign_session-IsTracked key_material message_hash force_wasm replies {scheme} a fresh t =
    elim (Bool-cases (not (ltb (length key_material) 2))) [
      | inr few ↦ rw (few, create_sign_session) clean
      | inl enough ↦ elim (Bool-cases (length message_hash == 32)) [
        | inr wrong ↦ rw (enough, wrong, create_sign_session) clean
        | inl right ↦
            rw (create_sign_session, enough, right)
              (chosen-IsTracked force_wasm message_hash replies a
                (lookup-retain-none replies.session_id _ scheme.sign_sessions fresh) clean)
      ]
    ]
  where
    clean : IsTracked (cleanup_expired replies.now scheme)
    clean = cleanup_expired-IsTracked replies.now t
