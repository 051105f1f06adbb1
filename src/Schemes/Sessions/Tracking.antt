-- ===== src/Schemes/Sessions/Tracking.antt =====
-- No process and no session of the WASM module outlives its session here.
pub mod Creation
pub mod Reach
use guardian_wallet.Prelude.{
  ℕ, ◌+◌, ◌-◌, ◌≡◌, refl, ap, ◌∙◌, sym, ◌⊎◌, ◌↔◌, inl, inr, Bool, true, false, not, ◌&&◌, ◌||◌,
  Option, none, some, List, [], ◌∷◌, ◌++◌, any, all, ltb, ◌==◌, length, if◌then◌else◌, or_else,
  is_some, Text, text_eq, text_eq_iff, text_eq_refl, Bool-cases, Option-cases, arith,
}
use guardian_wallet.Prelude.Dict.{
  Dict, lookup, insert, delete, retain, HasUniqueKeys, insert-HasUniqueKeys, delete-HasUniqueKeys,
  retain-HasUniqueKeys, lookup-retain-none,
}
use guardian_wallet.Prelude.Effects.{
  Result, ok, throws, Reply, Reply-cases, returns, rejects, await, require, and_then, ◌>>=◌, ◌>>◌,
}
use guardian_wallet.Schemes.Sessions.{
  Backend, native, wasm, SignSession, Scheme, is_reached, RawSignature, RoundOutput, SessionRound,
  same_backend, cleanup_expired, is_abandoned, add_session, native_binary_available, init_wasm,
  no_sessions,
}
use guardian_wallet.Schemes.Sessions.Opening.{
  SessionReplies, start, opened_session, create_sign_session, open_native, open_wasm, create_native,
  create_wasm, by_backend, choose_native, public_key_of,
}
use guardian_wallet.Schemes.Sessions.Rounds.{
  end_session, after_round, process_sign_round, round_of, advance_session, can_run, finalize_sign,
  final_of, finish, signature_of,
}
use guardian_wallet.Schemes.Sessions.Backends.{
  same_backend_iff, is_live, is_owned, is_live-append, is_live-destroy, is_live-destroy_stale,
  is_owned-insert, is_owned-update, is_owned-delete, is_owned-retain, all_reached, is_doomed,
  all_reached-retain, all_reached-delete, all_reached-insert, all_reached-loaded, reached_at,
}

-- Every live backend is that of a stored session, and a call of `destroy` on any of these would reach it.
pub record IsTracked (scheme : Scheme) : Type 0 where
  pub unique : HasUniqueKeys scheme.sign_sessions
  pub owned : (b : Backend) → is_live b scheme.live ≡ true → is_owned b scheme.sign_sessions ≡ true
  pub reached : all_reached scheme.wasm_loaded scheme.sign_sessions ≡ true

and_not : (a b : Bool) → (a && not b) ≡ true → (a ≡ true) × (b ≡ false)
and_not a b h = ground arith

pub cleanup_expired-IsTracked :
    (now : ℕ) {scheme : Scheme} → IsTracked scheme → IsTracked (cleanup_expired now scheme)
unfolding cleanup_expired
cleanup_expired-IsTracked now {scheme} t = record {
  unique = retain-HasUniqueKeys _ scheme.sign_sessions t.unique;
  owned = λ b live.
      let (before, kept) = and_not (is_live b scheme.live) (is_doomed now b scheme.sign_sessions) (
        sym (
          is_live-destroy_stale now scheme.wasm_loaded b scheme.sign_sessions scheme.live t.reached)
        ∙ live) in
      is_owned-retain now b scheme.sign_sessions (t.owned b before) kept;
  reached = all_reached-retain scheme.wasm_loaded _ scheme.sign_sessions t.reached;
}

end_session-IsTracked :
    (id : Text) (state : SignSession) {scheme : Scheme}
    → lookup id scheme.sign_sessions ≡ some state
    → IsTracked scheme
    → IsTracked (end_session id state.backend scheme)
unfolding end_session
end_session-IsTracked id state {scheme} e t = record {
  unique = delete-HasUniqueKeys id scheme.sign_sessions t.unique;
  owned = λ b live.
      let (before, other) = and_not (is_live b scheme.live) (same_backend state.backend b) (
        sym (
          is_live-destroy scheme.wasm_loaded b state.backend scheme.live
            (reached_at scheme.wasm_loaded id state scheme.sign_sessions t.reached e))
        ∙ live) in
      is_owned-delete b id state scheme.sign_sessions t.unique e other (t.owned b before);
  reached = all_reached-delete scheme.wasm_loaded id scheme.sign_sessions t.reached;
}

update-IsTracked :
    (id : Text) (state state' : SignSession) {scheme : Scheme}
    → lookup id scheme.sign_sessions ≡ some state
    → state'.backend ≡ state.backend
    → IsTracked scheme
    → IsTracked (add_session id state' scheme)
unfolding add_session
update-IsTracked id state state' {scheme} e same t = record {
  unique = insert-HasUniqueKeys id state' scheme.sign_sessions t.unique;
  owned = λ b live. is_owned-update b id state state' scheme.sign_sessions e same ∙ t.owned b live;
  reached =
      all_reached-insert scheme.wasm_loaded id state' scheme.sign_sessions
        (ap (is_reached scheme.wasm_loaded) same
          ∙ reached_at scheme.wasm_loaded id state scheme.sign_sessions t.reached e)
        t.reached;
}

or_mono : (a b c : Bool) → (a || c) ≡ true → (a ≡ true → b ≡ true) → (b || c) ≡ true
or_mono true b c h f = rw (f refl) refl
or_mono false true c h f = refl
or_mono false false c h f = h

pub start-IsTracked :
    (id : Text) (state : SignSession) {scheme : Scheme}
    → lookup id scheme.sign_sessions ≡ none
    → is_reached scheme.wasm_loaded state.backend ≡ true
    → IsTracked scheme
    → IsTracked (add_session id state (start state.backend scheme))
unfolding add_session
start-IsTracked id state {scheme} fresh r t = record {
  unique = insert-HasUniqueKeys id state scheme.sign_sessions t.unique;
  owned = λ b live.
      is_owned-insert b id state scheme.sign_sessions fresh
      ∙ or_mono _ _ _ (sym (is_live-append b state.backend scheme.live) ∙ live) (t.owned b);
  reached = all_reached-insert scheme.wasm_loaded id state scheme.sign_sessions r t.reached;
}

after_round-backend :
    (b : Backend) (output : RoundOutput) (state : SignSession)
    → (after_round b output state).backend ≡ state.backend
after_round-backend (native p) output state = ground arith
after_round-backend (wasm id) output state = ground arith

advance_session-IsTracked :
    (id : Text) (parsed : Reply (Unit {0})) (answer : Reply RoundOutput) (state : SignSession)
    {scheme : Scheme}
    → lookup id scheme.sign_sessions ≡ some state
    → IsTracked scheme
    → IsTracked (advance_session id parsed answer state scheme).1
unfolding advance_session
advance_session-IsTracked id (rejects e) answer state there t = t
advance_session-IsTracked id (returns u) (rejects e) state {scheme} there t =
    elim (Bool-cases (can_run state.backend scheme.wasm_loaded)) [
      | inr off ↦ rw (off, advance_session) t
      | inl on ↦ rw (on, advance_session) t
    ]
advance_session-IsTracked id (returns u) (returns output) state {scheme} there t =
    elim (Bool-cases (can_run state.backend scheme.wasm_loaded)) [
      | inr off ↦ rw (off, advance_session) t
      | inl on ↦
          rw (on, advance_session)
            (update-IsTracked id state (after_round state.backend output state) there
              (after_round-backend state.backend output state) t)
    ]

pub process_sign_round-IsTracked :
    (id : Text) (parsed : Reply (Unit {0})) (answer : Reply RoundOutput) {scheme : Scheme}
    → IsTracked scheme
    → IsTracked (process_sign_round id parsed answer scheme).1
unfolding process_sign_round round_of
process_sign_round-IsTracked id parsed answer {scheme} t =
    elim (Option-cases (lookup id scheme.sign_sessions)) [
      | inl gone ↦ rw (gone, process_sign_round, round_of) t
      | inr (state, there) ↦
          rw (there, process_sign_round, round_of)
            (advance_session-IsTracked id parsed answer state there t)
    ]

pub finalize_sign-IsTracked :
    (recover : RawSignature → Text → ℕ → Option Text) (id : Text) {scheme : Scheme}
    → IsTracked scheme
    → IsTracked (finalize_sign recover id scheme).1
unfolding finalize_sign final_of finish
finalize_sign-IsTracked recover id {scheme} t =
    elim (Option-cases (lookup id scheme.sign_sessions)) [
      | inl gone ↦ rw (gone, finalize_sign, final_of) t
      | inr (state, there) ↦ elim (Option-cases (signature_of recover state)) [
        | inl unsigned ↦ rw (there, finalize_sign, final_of, unsigned, finish) t
        | inr (signature, signed) ↦
            rw (there, finalize_sign, final_of, signed, finish)
              (end_session-IsTracked id state there t)
      ]
    ]

pub init_wasm-IsTracked :
    (loaded : Reply (Unit {0})) {scheme : Scheme}
    → IsTracked scheme
    → IsTracked (init_wasm loaded scheme).1
unfolding init_wasm
init_wasm-IsTracked (rejects e) t = t
init_wasm-IsTracked (returns u) {scheme} t = record {
  unique = t.unique;
  owned = t.owned;
  reached = all_reached-loaded scheme.wasm_loaded scheme.sign_sessions t.reached;
}
