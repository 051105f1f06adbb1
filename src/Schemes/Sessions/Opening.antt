-- ===== src/Schemes/Sessions/Opening.antt =====
-- `createSignSession`.
use guardian_wallet.Prelude.{
  ℕ, Bool, true, false, not, Option, none, List, [], ◌∷◌, ◌++◌, ltb, ◌==◌, length, if◌then◌else◌,
  Text, codes, or_else,
}
use guardian_wallet.Prelude.Effects.{
  Exception, ok, throws, Reply, M, ◌>>=◌, ◌>>◌, require, await, failure,
}
use guardian_wallet.Signing.Opening.{zero_bytes}
use guardian_wallet.Schemes.Sessions.{
  Backend, SignSession, Scheme, cleanup_expired, native_binary_available, add_session, native, wasm,
}

-- What `createSignSession` is told: the time, the new session's id, the public key if the WASM module reads it
-- from the share, where the native program is found, the process and its first line, and the answer of the
-- WASM module.
pub record SessionReplies : Type 0 where
  pub now : ℕ
  pub session_id : Text
  pub extracted : Option Text
  pub found : Option Text
  pub spawned : Reply ℕ
  pub first_line : Reply (List Text)
  pub wasm_session : Reply (Text × List Text)

abbrev pub start : Backend → Scheme → Scheme
start b scheme = record scheme { live = scheme.live ++ b ∷ [] }

abbrev pub opened_session : Backend → Text → Text → ℕ → SignSession
opened_session backend message_hash public_key now = record {
  backend = backend;
  process_signature = none;
  message_hash = message_hash;
  public_key = public_key;
  complete = false;
  signature = none;
  created_at = now;
}

-- The process answers its first line or does not; only then the session is stored.
unfoldable pub open_native : Text → Text → SessionReplies → ℕ → M Scheme (Text × List Text)
unfolding add_session
open_native message_hash public_key replies process = do
  λ scheme. (ok tt, start (native process) scheme)
  messages ← await replies.first_line
  λ scheme. (
    ok (replies.session_id, messages),
    add_session replies.session_id
        (opened_session (native process) message_hash public_key replies.now) scheme,
  )

unfoldable pub open_wasm : Text → Text → SessionReplies → M Scheme (Text × List Text)
unfolding add_session
open_wasm message_hash public_key replies = do
  opened ← await replies.wasm_session
  λ scheme. (
    ok (replies.session_id, opened.1),
    add_session replies.session_id
        (opened_session (wasm opened.0) message_hash public_key replies.now)
        (start (wasm opened.0) scheme),
  )

abbrev pub public_key_of : Option Text → Scheme → Text
public_key_of extracted scheme =
    if scheme.wasm_loaded then or_else extracted (zero_bytes 33) else zero_bytes 33

unfoldable pub create_native : Text → Text → SessionReplies → M Scheme (Text × List Text)
unfolding open_native
create_native message_hash public_key replies = do
  process ← await replies.spawned
  open_native message_hash public_key replies process

unfoldable pub create_wasm : Text → Text → SessionReplies → M Scheme (Text × List Text)
unfolding open_wasm
create_wasm message_hash public_key replies scheme =
    if scheme.wasm_loaded then open_wasm message_hash public_key replies scheme else (
      throws (
          failure (
            codes
              "WASM module not yet loaded — call runDkg() or ensure WASM is initialized first")),
      scheme,
    )

abbrev pub by_backend : Bool → Text → Text → SessionReplies → M Scheme (Text × List Text)
by_backend true = create_native
by_backend false = create_wasm

-- `!options?.forceWasm && (await this.nativeBinaryAvailable())`
unfoldable pub choose_native : Bool → Option Text → M Scheme Bool
unfolding native_binary_available
choose_native true found scheme = (ok false, scheme)
choose_native false found scheme = native_binary_available found scheme

-- The messages of the errors stand here without the number that they end with.
abbrev pub needs_share : Exception
needs_share = failure (codes "Need [coreShare, auxInfo]")

-- `createSignSession`
unfoldable pub create_sign_session :
    List Text → Text → Bool → SessionReplies → M Scheme (Text × List Text)
unfolding choose_native create_native create_wasm cleanup_expired
create_sign_session key_material message_hash force_wasm replies = do
  λ scheme. (ok tt, cleanup_expired replies.now scheme)
  require (not (ltb (length key_material) 2)) needs_share
  require (length message_hash == 32) (failure (codes "messageHash must be 32 bytes"))
  is_native ← choose_native force_wasm replies.found
  λ scheme.
      by_backend is_native message_hash (public_key_of replies.extracted scheme) replies scheme
