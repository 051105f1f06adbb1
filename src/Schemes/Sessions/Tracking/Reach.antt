-- ===== src/Schemes/Sessions/Tracking/Reach.antt =====
-- The states of the class that its calls reach.
use guardian_wallet.Prelude.{ℕ, ◌≡◌, refl, Bool, Option, none, List, Text}
use guardian_wallet.Prelude.Dict.{lookup}
use guardian_wallet.Prelude.Effects.{Reply}
use guardian_wallet.Schemes.Sessions.{Scheme, RawSignature, RoundOutput, init_wasm, no_sessions}
use guardian_wallet.Schemes.Sessions.Opening.{SessionReplies, create_sign_session}
use guardian_wallet.Schemes.Sessions.Rounds.{process_sign_round, finalize_sign}
use guardian_wallet.Schemes.Sessions.Backends.{is_live, is_owned}
use guardian_wallet.Schemes.Sessions.Tracking.{
  IsTracked, process_sign_round-IsTracked, finalize_sign-IsTracked, init_wasm-IsTracked,
}
use guardian_wallet.Schemes.Sessions.Tracking.Creation.{Answers, create_sign_session-IsTracked}

-- The calls of the class on `scheme`, each run to its end. A new session's id is fresh.
module _ (recover : RawSignature → Text → ℕ → Option Text) where
  pub data Step : Scheme → Scheme → Type 0 where
    created :
        {scheme : Scheme} (key_material : List Text) (message_hash : Text) (force_wasm : Bool)
        (replies : SessionReplies)
        → Answers replies
        → lookup replies.session_id scheme.sign_sessions ≡ none
        → Step scheme (create_sign_session key_material message_hash force_wasm replies scheme).1
    processed :
        {scheme : Scheme} (id : Text) (parsed : Reply (Unit {0})) (answer : Reply RoundOutput)
        → Step scheme (process_sign_round id parsed answer scheme).1
    finalized : {scheme : Scheme} (id : Text) → Step scheme (finalize_sign recover id scheme).1
    loaded :
        {scheme : Scheme} (loading : Reply (Unit {0})) → Step scheme (init_wasm loading scheme).1

  pub data Reachable : Scheme → Type 0 where
    idle : Reachable no_sessions
    stepped : {scheme scheme' : Scheme} → Reachable scheme → Step scheme scheme' → Reachable scheme'

  Step-IsTracked :
      {scheme scheme' : Scheme} → Step scheme scheme' → IsTracked scheme → IsTracked scheme'
  Step-IsTracked (created keys hash force replies a fresh) t =
      create_sign_session-IsTracked keys hash force replies a fresh t
  Step-IsTracked (processed id parsed answer) t = process_sign_round-IsTracked id parsed answer t
  Step-IsTracked (finalized id) t = finalize_sign-IsTracked recover id t
  Step-IsTracked (loaded loading) t = init_wasm-IsTracked loading t

  -- In every state that the calls of the class reach, where the ids of new sessions are fresh, each process that
  -- is started answers its first line and the WASM module gives its sessions ids that are not empty: no two sessions have one id, every process and every session of
  -- the WASM module that is still running is that of a stored session, and a call of `destroy` on the backend of
  -- a stored session reaches it, since a session of the WASM module is only stored where the module is loaded.
  pub Reachable-IsTracked : {scheme : Scheme} → Reachable scheme → IsTracked scheme
  unfolding is_owned is_live
  Reachable-IsTracked idle = record { unique = tt; owned = λ b live. live; reached = refl }
  Reachable-IsTracked (stepped r step) = Step-IsTracked step (Reachable-IsTracked r)
