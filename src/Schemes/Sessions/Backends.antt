-- ===== src/Schemes/Sessions/Backends.antt =====
-- Which backends are live, and which a session has.
use guardian_wallet.Prelude.{
  ℕ, ◌≡◌, refl, ◌↔◌, inl, inr, Bool, true, false, not, ◌&&◌, ◌||◌, none, some, List, [], ◌∷◌, ◌++◌,
  any, all, Text, text_eq, text_eq_iff, Bool-cases, arith,
}
use guardian_wallet.Prelude.Dict.{Dict, lookup, insert, delete, retain, HasUniqueKeys}
use guardian_wallet.Schemes.Sessions.{
  Backend, native, wasm, SignSession, same_backend, remove_backend, is_reached, destroy_backend,
  is_abandoned, destroy_stale,
}

pub same_backend_iff : (b c : Backend) → (same_backend b c ≡ true) ↔ (b ≡ c)
unfolding same_backend
same_backend_iff (native p) (native q) = ground arith
same_backend_iff (wasm a) (wasm b) = ground (arith, text_eq_iff a b)
same_backend_iff (native p) (wasm a) = ground arith
same_backend_iff (wasm a) (native p) = ground arith

-- Whether a backend is live, and whether a session has it.
unfoldable pub is_live : Backend → List Backend → Bool
is_live b [] = false
is_live b (c ∷ cs) = same_backend c b || is_live b cs

unfoldable pub is_owned : Backend → Dict SignSession → Bool
is_owned b [] = false
is_owned b ((id, state) ∷ entries) = same_backend state.backend b || is_owned b entries

pub is_live-append :
    (b c : Backend) (live : List Backend)
    → is_live b (live ++ c ∷ []) ≡ (is_live b live || same_backend c b)
unfolding is_live
is_live-append b c [] = ground arith
is_live-append b c (d ∷ live) = ground (arith, is_live-append b c live)

pub is_live-remove :
    (b c : Backend) (live : List Backend)
    → is_live b (remove_backend c live) ≡ (is_live b live && not (same_backend c b))
unfolding is_live remove_backend
is_live-remove b c [] = refl
is_live-remove b c (d ∷ live) = ground (
  arith,
  is_live-remove b c live,
  same_backend_iff c d,
  same_backend_iff d b,
  same_backend_iff c b,
)

pub is_owned-insert :
    (b : Backend) (id : Text) (state : SignSession) (entries : Dict SignSession)
    → lookup id entries ≡ none
    → is_owned b (insert id state entries) ≡ (is_owned b entries || same_backend state.backend b)
unfolding is_owned lookup insert
is_owned-insert b id state [] h = ground arith
is_owned-insert b id state ((j, old) ∷ entries) h =
    ground (arith, is_owned-insert b id state entries)

pub is_owned-update :
    (b : Backend) (id : Text) (state state' : SignSession) (entries : Dict SignSession)
    → lookup id entries ≡ some state
    → state'.backend ≡ state.backend
    → is_owned b (insert id state' entries) ≡ is_owned b entries
unfolding is_owned lookup insert
is_owned-update b id state state' [] h e = cc
is_owned-update b id state state' ((j, old) ∷ entries) h e =
    ground (arith, is_owned-update b id state state' entries)

pub is_owned-delete_absent :
    (id : Text) (entries : Dict SignSession)
    → lookup id entries ≡ none
    → delete id entries ≡ entries
unfolding lookup delete
is_owned-delete_absent id [] h = refl
is_owned-delete_absent id ((j, old) ∷ entries) h = ground (arith, is_owned-delete_absent id entries)

pub is_owned-delete :
    (b : Backend) (id : Text) (state : SignSession) (entries : Dict SignSession)
    → HasUniqueKeys entries
    → lookup id entries ≡ some state
    → same_backend state.backend b ≡ false
    → is_owned b entries ≡ true
    → is_owned b (delete id entries) ≡ true
unfolding is_owned lookup delete
is_owned-delete b id state [] u h s o = cc
is_owned-delete b id state ((j, old) ∷ entries) u h s o = elim (Bool-cases (text_eq j id)) [
  | inl same ↦ ground (arith, is_owned-delete_absent id entries, text_eq_iff j id, u.0)
  | inr other ↦ ground (arith, is_owned-delete b id state entries u.1)
]

pub is_live-destroy :
    (wasm_loaded : Bool) (b c : Backend) (live : List Backend)
    → is_reached wasm_loaded c ≡ true
    → is_live b (destroy_backend wasm_loaded c live) ≡ (is_live b live && not (same_backend c b))
unfolding destroy_backend
is_live-destroy w b c live h = rw (destroy_backend, h) (is_live-remove b c live)

abbrev pub all_reached : Bool → Dict SignSession → Bool
all_reached wasm_loaded entries = all (λ e. is_reached wasm_loaded e.1.backend) entries

abbrev pub is_doomed : ℕ → Backend → Dict SignSession → Bool
is_doomed now b entries = any (λ e. is_abandoned now e.1 && same_backend e.1.backend b) entries

pub is_live-destroy_stale :
    (now : ℕ) (wasm_loaded : Bool) (b : Backend) (entries : Dict SignSession) (live : List Backend)
    → all_reached wasm_loaded entries ≡ true
    → is_live b (destroy_stale now wasm_loaded entries live)
      ≡ (is_live b live && not (is_doomed now b entries))
unfolding destroy_stale
is_live-destroy_stale now w b [] live h = ground arith
is_live-destroy_stale now w b ((id, state) ∷ entries) live h = ground (
  arith,
  is_live-destroy_stale now w b entries (destroy_backend w state.backend live),
  is_live-destroy_stale now w b entries live,
  is_live-destroy w b state.backend live,
)

pub is_owned-retain :
    (now : ℕ) (b : Backend) (entries : Dict SignSession)
    → is_owned b entries ≡ true
    → is_doomed now b entries ≡ false
    → is_owned b (retain (λ state. not (is_abandoned now state)) entries) ≡ true
unfolding is_owned retain
is_owned-retain now b [] o d = cc
is_owned-retain now b ((id, state) ∷ entries) o d = ground (arith, is_owned-retain now b entries)

pub all_reached-retain :
    (w : Bool) (p : SignSession → Bool) (entries : Dict SignSession)
    → all_reached w entries ≡ true
    → all_reached w (retain p entries) ≡ true
unfolding retain
all_reached-retain w p [] h = refl
all_reached-retain w p ((id, state) ∷ entries) h = ground (arith, all_reached-retain w p entries)

pub all_reached-delete :
    (w : Bool) (id : Text) (entries : Dict SignSession)
    → all_reached w entries ≡ true
    → all_reached w (delete id entries) ≡ true
unfolding delete
all_reached-delete w id [] h = refl
all_reached-delete w id ((j, state) ∷ entries) h = ground (arith, all_reached-delete w id entries)

pub all_reached-insert :
    (w : Bool) (id : Text) (state : SignSession) (entries : Dict SignSession)
    → is_reached w state.backend ≡ true
    → all_reached w entries ≡ true
    → all_reached w (insert id state entries) ≡ true
unfolding insert
all_reached-insert w id state [] r h = ground arith
all_reached-insert w id state ((j, old) ∷ entries) r h =
    ground (arith, all_reached-insert w id state entries)

pub is_reached-loaded : (w : Bool) (b : Backend) → is_reached w b ≡ true → is_reached true b ≡ true
is_reached-loaded w (native p) h = refl
is_reached-loaded true (wasm id) h = h
is_reached-loaded false (wasm id) h = cc

pub all_reached-loaded :
    (w : Bool) (entries : Dict SignSession)
    → all_reached w entries ≡ true
    → all_reached true entries ≡ true
all_reached-loaded w [] h = refl
all_reached-loaded w ((id, state) ∷ entries) h =
    ground (arith, is_reached-loaded w state.backend, all_reached-loaded w entries)

pub reached_at :
    (w : Bool) (id : Text) (state : SignSession) (entries : Dict SignSession)
    → all_reached w entries ≡ true
    → lookup id entries ≡ some state
    → is_reached w state.backend ≡ true
unfolding lookup
reached_at w id state [] h e = cc
reached_at w id state ((j, old) ∷ entries) h e = ground (arith, reached_at w id state entries)
