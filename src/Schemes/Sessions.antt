-- ===== src/Schemes/Sessions.antt =====
-- The signing sessions of `CGGMP24Scheme`: packages/schemes/src/cggmp24/cggmp24.scheme.ts. The protocol runs in a
-- native process or in the WASM module; what these answer is an argument.
pub mod Opening
pub mod Rounds
pub mod Backends
pub mod Finals
pub mod Tracking
use guardian_wallet.Prelude.{
  ℕ, zero, suc, ◌+◌, ◌-◌, Bool, true, false, not, ◌&&◌, ◌||◌, Option, none, some, List, [], ◌∷◌,
  ◌++◌, ltb, ◌==◌, length, if◌then◌else◌, Text, codes, text_eq, or_else, is_some, is_empty,
}
use guardian_wallet.Prelude.Dict.{Dict, lookup, insert, delete, retain}
use guardian_wallet.Prelude.Effects.{
  Exception, Result, ok, throws, Reply, returns, rejects, M, ◌>>=◌, ◌>>◌, return, throw, require,
  await, try_finally, failure,
}
use guardian_wallet.Signing.Opening.{zero_bytes}

abbrev pub scheme_ttl_ms : ℕ
scheme_ttl_ms = 120_000

pub record RawSignature : Type 0 where
  pub r : Text
  pub s : Text

-- `nativeProcess`, or `wasmSessionId`.
pub data Backend : Type 0 where
  native : (process : ℕ) → Backend
  wasm : (session_id : Text) → Backend

-- `process_signature` is the field `signature` of the native process.
pub record SignSession : Type 0 where
  pub backend : Backend
  pub process_signature : Option RawSignature
  pub message_hash : Text
  pub public_key : Text
  pub complete : Bool
  pub signature : Option RawSignature
  pub created_at : ℕ

-- `native_bin_path` is `none` until it was looked for. `live` are the processes and the sessions inside the
-- WASM module that were started and not destroyed.
pub record Scheme : Type 0 where
  pub sign_sessions : Dict SignSession
  pub native_bin_path : Option (Option Text)
  pub wasm_loaded : Bool
  pub live : List Backend

abbrev pub no_sessions : Scheme
no_sessions = record { sign_sessions = []; native_bin_path = none; wasm_loaded = false; live = [] }

-- What a backend answers to a round. `signature` is there if the process gives an `r` and an `s` that are not
-- empty, or the WASM module a `signature`.
pub record RoundOutput : Type 0 where
  pub messages : List Text
  pub complete : Bool
  pub signature : Option RawSignature

pub record SessionRound : Type 0 where
  pub outgoing_messages : List Text
  pub complete : Bool

pub record FinalSignature : Type 0 where
  pub r : Text
  pub s : Text
  pub v : ℕ

unfoldable pub same_backend : Backend → Backend → Bool
same_backend (native p) (native q) = p == q
same_backend (wasm a) (wasm b) = text_eq a b
same_backend (native _) (wasm _) = false
same_backend (wasm _) (native _) = false

unfoldable pub remove_backend : Backend → List Backend → List Backend
remove_backend b [] = []
remove_backend b (c ∷ cs) =
    let rest = remove_backend b cs in if same_backend b c then rest else c ∷ rest

-- `else if (wasmModule && state.wasmSessionId)`
abbrev pub is_reached : Bool → Backend → Bool
is_reached wasm_loaded (native p) = true
is_reached wasm_loaded (wasm id) = wasm_loaded && not (is_empty id)

-- A process is killed; a session of the WASM module is destroyed where the module is loaded and the session has
-- an id. That either throws is ignored.
unfoldable pub destroy_backend : Bool → Backend → List Backend → List Backend
unfolding remove_backend
destroy_backend wasm_loaded b live =
    if is_reached wasm_loaded b then remove_backend b live else live

abbrev pub is_abandoned : ℕ → SignSession → Bool
is_abandoned now state = ltb scheme_ttl_ms (now - state.created_at)

-- The loop of `cleanupExpiredSessions`, on the backends.
unfoldable pub destroy_stale : ℕ → Bool → Dict SignSession → List Backend → List Backend
unfolding destroy_backend
destroy_stale now wasm_loaded [] live = live
destroy_stale now wasm_loaded ((id, state) ∷ entries) live =
    destroy_stale now wasm_loaded entries
      (if is_abandoned now state then destroy_backend wasm_loaded state.backend live else live)

unfoldable pub cleanup_expired : ℕ → Scheme → Scheme
unfolding destroy_stale
cleanup_expired now scheme = record scheme {
  sign_sessions = retain (λ state. not (is_abandoned now state)) scheme.sign_sessions;
  live = destroy_stale now scheme.wasm_loaded scheme.sign_sessions scheme.live;
}

-- `initWasm`
unfoldable pub init_wasm : Reply (Unit {0}) → M Scheme (Unit {0})
init_wasm loaded = await loaded >> λ scheme. (ok tt, record scheme { wasm_loaded = true })

-- `nativeBinaryAvailable`: the first answer of the look-up is kept.
unfoldable pub native_binary_available : Option Text → M Scheme Bool
native_binary_available found scheme =
    let path = or_else scheme.native_bin_path found in
    (ok (is_some path), record scheme { native_bin_path = some path })

unfoldable pub add_session : Text → SignSession → Scheme → Scheme
add_session id state scheme = record scheme { sign_sessions = insert id state scheme.sign_sessions }
