-- ===== src/Tests/Rounds.antt =====
-- The theorems on the sessions of the threshold scheme at concrete sessions.
use guardian_wallet.Prelude.{
  ℕ, ◌≡◌, refl, true, false, Option, some, none, List, [], ◌∷◌, Text, codes, is_empty, text_eq,
  if◌then◌else◌, arith, ◌==◌,
}
use guardian_wallet.Prelude.Dict.{lookup, insert, retain}
use guardian_wallet.Prelude.Effects.{returns}
use guardian_wallet.Schemes.Sessions.{
  wasm, Scheme, RawSignature, RoundOutput, no_sessions, init_wasm, same_backend,
}
use guardian_wallet.Schemes.Sessions.Opening.{SessionReplies, create_sign_session}
use guardian_wallet.Schemes.Sessions.Rounds.{process_sign_round, finalize_sign}
use guardian_wallet.Schemes.Sessions.Backends.{is_live}
use guardian_wallet.Schemes.Sessions.Finals.{Finalizes, finalize_sign-Finalizes}
use guardian_wallet.Schemes.Sessions.Tracking.{IsTracked}
use guardian_wallet.Schemes.Sessions.Tracking.Creation.{Answers}
use guardian_wallet.Schemes.Sessions.Tracking.Reach.{
  idle, stepped, loaded, created, processed, Reachable-IsTracked,
}

-- A stand-in for the recovery of a key: the bit 1 recovers it.
abbrev recover : RawSignature → Text → ℕ → Option Text
recover signature hash bit = if bit == 1 then some (codes "key") else none

abbrev opening : SessionReplies
opening = record {
  now = 5;
  session_id = codes "session";
  extracted = some (codes "key");
  found = none;
  spawned = returns 7;
  first_line = returns [];
  wasm_session = returns (codes "w1", codes "m" ∷ []);
}

opening-Answers : Answers opening
opening-Answers = record {
  messages = [];
  first_line = refl;
  id_not_empty = λ opened e. id_not_empty opened e;
}
  where
    id_not_empty :
        (opened : Text × List Text)
        → returns (codes "w1", codes "m" ∷ []) ≡ returns opened
        → is_empty opened.0 ≡ false
    id_not_empty opened e = ground arith

abbrev shares : List Text
shares = codes "core" ∷ codes "aux" ∷ []

-- As long as the hash of a message.
abbrev hash : Text
hash = codes "0123456789abcdef0123456789abcdef"

abbrev loaded_scheme : Scheme
loaded_scheme = (init_wasm (returns tt) no_sessions).1

abbrev opened_scheme : Scheme
opened_scheme = (create_sign_session shares hash false opening loaded_scheme).1

abbrev last_round : RoundOutput
last_round = record {
  messages = [];
  complete = true;
  signature = some (record { r = codes "r"; s = codes "s" });
}

abbrev done_scheme : Scheme
done_scheme =
    (process_sign_round (codes "session") (returns tt) (returns last_round) opened_scheme).1

finds_nothing : lookup (codes "session") loaded_scheme.sign_sessions ≡ none
unfolding init_wasm lookup
finds_nothing = refl

Reachable-IsTracked_example : IsTracked done_scheme
Reachable-IsTracked_example = Reachable-IsTracked recover (
    stepped
      (stepped (stepped idle (loaded (returns tt)))
        (created shares hash false opening opening-Answers finds_nothing))
      (processed (codes "session") (returns tt) (returns last_round)))

-- The session of the WASM module runs after the call, and is gone after the last one.
runs : is_live (wasm (codes "w1")) done_scheme.live ≡ true
unfolding is_live process_sign_round lookup create_sign_session init_wasm insert retain text_eq
    same_backend
runs = refl

finalize_sign-Finalizes_example :
    Finalizes recover
      (codes "session")
      done_scheme
      (finalize_sign recover (codes "session") done_scheme)
finalize_sign-Finalizes_example = finalize_sign-Finalizes recover (codes "session") done_scheme
