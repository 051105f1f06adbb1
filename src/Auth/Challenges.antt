-- ===== src/Auth/Challenges.antt =====
-- The store of WebAuthn challenges: packages/server/src/auth/challenge-store.ts and
-- packages/auth/src/server/challenge-store.ts, which differ in their limits only. Each reading of the
-- clock is an argument.
pub mod Use
pub mod Spec
pub mod Refinement
use guardian_wallet.Prelude.{
  ℕ, ◌+◌, ◌-◌, ◌*◌, ◌≤◌, ◌<◌, ◌≡◌, refl, sym, ◌∙◌, Bool, true, false, not, Option, none, some,
  if◌then◌else◌, ltb, leb, Text, text_eq, text_eq_refl, truthy, length, codes, Bool-cases,
  Option-cases, inl, inr, arith,
}
use guardian_wallet.Prelude.Dict.{
  Dict, lookup, insert, delete, retain, HasUniqueKeys, lookup-insert, lookup-delete,
  lookup-retain-none, lookup-retain_kept, lookup-retain_dropped, insert-HasUniqueKeys,
  delete-HasUniqueKeys, retain-HasUniqueKeys, length-insert, length-delete, length-retain,
}
use guardian_wallet.Prelude.Effects.{Result, ok, throws, failure}

pub record ChallengeEntry : Type 0 where
  pub challenge : Text
  pub created_at : ℕ

pub record ChallengeStoreOptions : Type 0 where
  pub ttl_ms : ℕ
  pub max_challenges : ℕ

-- The defaults of the package and the constants of the server.
abbrev pub default_options : ChallengeStoreOptions
default_options = record { ttl_ms = 5 * 60 * 1000; max_challenges = 1000 }

abbrev pub Store : Type 0
Store = Dict ChallengeEntry

module _ (options : ChallengeStoreOptions) where
  abbrev pub is_stale : ℕ → ChallengeEntry → Bool
  is_stale now entry = ltb options.ttl_ms (now - entry.created_at)

  unfoldable pub cleanup : ℕ → Store → Store
  cleanup now store = retain (λ entry. not (is_stale now entry)) store

  unfoldable pub set : Text → Text → ℕ → ℕ → Store → Result (Unit {0}) × Store
  set key challenge now later store =
      let kept = cleanup now store in
      if leb options.max_challenges (length kept)
      then (throws (failure (codes "Challenge store is full. Try again later.")), kept)
      else (ok tt, insert key (record { challenge = challenge; created_at = later }) kept)

  unfoldable pub get : Text → ℕ → ℕ → Store → Option Text × Store
  get key now later store = elim (lookup key (cleanup now store)) [
    | none ↦ (none, cleanup now store)
    | some entry ↦
        if is_stale later entry
        then (none, delete key (cleanup now store))
        else (some entry.challenge, cleanup now store)
  ]

  -- `if (challenge)`: the empty challenge is not deleted.
  abbrev pub delete_if : Text → Option Text → Store → Store
  delete_if key none store = store
  delete_if key (some c) store = delete key store

  unfoldable pub consume : Text → ℕ → ℕ → Store → Option Text × Store
  consume key now later store = (
    (get key now later store).0,
    delete_if key (truthy (get key now later store).0) (get key now later store).1,
  )

  -- No key twice, and no more entries than allowed.
  pub record IsBounded (store : Store) : Type 0 where
    pub keys : HasUniqueKeys store
    pub size : length store ≤ options.max_challenges

  cleanup-IsBounded : (now : ℕ) (store : Store) → IsBounded store → IsBounded (cleanup now store)
  unfolding cleanup
  cleanup-IsBounded now store h = record {
    keys = retain-HasUniqueKeys (λ entry. not (is_stale now entry)) store h.keys;
    size = omega (arith, length-retain (λ entry. not (is_stale now entry)) store, h.size);
  }

  delete-IsBounded : (key : Text) (store : Store) → IsBounded store → IsBounded (delete key store)
  delete-IsBounded key store h = record {
    keys = delete-HasUniqueKeys key store h.keys;
    size = omega (arith, length-delete key store, h.size);
  }

  -- Setting a challenge keeps the store within its bound, whether it throws or not.
  pub set-IsBounded :
      (key challenge : Text) (now later : ℕ) (store : Store)
      → IsBounded store
      → IsBounded (set key challenge now later store).1
  unfolding set
  set-IsBounded key challenge now later store h =
      let k = cleanup-IsBounded now store h in
      elim (Bool-cases (leb options.max_challenges (length (cleanup now store)))) [
        | inl full ↦ rw (full, set) k
        | inr room ↦
            rw (room, set)
              (record {
                keys = insert-HasUniqueKeys key _ (cleanup now store) k.keys;
                size = ground (
                  arith,
                  length-insert key (record { challenge = challenge; created_at = later })
                      (cleanup now store),
                );
              })
      ]

  -- Reading and consuming keep it too.
  pub get-IsBounded :
      (key : Text) (now later : ℕ) (store : Store)
      → IsBounded store
      → IsBounded (get key now later store).1
  unfolding get
  get-IsBounded key now later store h =
      let k = cleanup-IsBounded now store h in
      elim (Option-cases (lookup key (cleanup now store))) [
        | inl absent ↦ rw (absent, get) k
        | inr (entry, found) ↦ elim (Bool-cases (is_stale later entry)) [
          | inl old ↦ rw (found, old, get) (delete-IsBounded key (cleanup now store) k)
          | inr young ↦ rw (found, young, get) k
        ]
      ]
