-- ===== src/Auth/Challenges/Use.antt =====
-- A challenge is returned while it is fresh, and used once.
use guardian_wallet.Prelude.{
  ℕ, ◌+◌, ◌≤◌, ◌≡◌, refl, ◌∙◌, Bool, not, Option, none, some, if◌then◌else◌, leb, Text,
  text_eq_refl, truthy, length, Bool-cases, Option-cases, inl, inr, arith,
}
use guardian_wallet.Prelude.Dict.{
  lookup, delete, HasUniqueKeys, lookup-insert, lookup-delete, lookup-retain-none,
  lookup-retain_kept, lookup-retain_dropped, retain-HasUniqueKeys, delete-HasUniqueKeys,
  insert-HasUniqueKeys,
}
use guardian_wallet.Prelude.Effects.{ok}
use guardian_wallet.Auth.Challenges.{
  ChallengeEntry, ChallengeStoreOptions, Store, is_stale, cleanup, set, get, consume,
}

module _ (options : ChallengeStoreOptions) where
  -- What is left of an entry when the clock is read twice.
  abbrev pub kept : ℕ → Option ChallengeEntry → Option ChallengeEntry
  kept now none = none
  kept now (some entry) = if is_stale options now entry then none else some entry

  abbrev pub challenge_of : Option ChallengeEntry → Option Text
  challenge_of none = none
  challenge_of (some entry) = some entry.challenge

  pub lookup-cleanup :
      (key : Text) (now : ℕ) (store : Store)
      → HasUniqueKeys store
      → lookup key (cleanup options now store) ≡ kept now (lookup key store)
  unfolding cleanup
  lookup-cleanup key now store u =
      let fresh : ChallengeEntry → Bool = λ entry. not (is_stale options now entry) in
      elim (Option-cases (lookup key store)) [
        | inl absent ↦ rw (absent) (lookup-retain-none key fresh store absent)
        | inr (entry, found) ↦ elim (Bool-cases (is_stale options now entry)) [
          | inl old ↦
              rw (found, old) (lookup-retain_dropped key fresh store entry u found (rw old refl))
          | inr young ↦
              rw (found, young) (lookup-retain_kept key fresh store entry found (rw young refl))
        ]
      ]

  -- A challenge is returned exactly if the key has one that is not older than the limit at either reading
  -- of the clock.
  pub get-lookup :
      (key : Text) (now later : ℕ) (store : Store)
      → HasUniqueKeys store
      → (get options key now later store).0
        ≡ challenge_of (kept later (kept now (lookup key store)))
  unfolding get
  get-lookup key now later store u =
      let e = lookup-cleanup key now store u in
      elim (Option-cases (lookup key (cleanup options now store))) [
        | inl absent ↦ rw (← e, absent, get) refl
        | inr (entry, found) ↦ elim (Bool-cases (is_stale options later entry)) [
          | inl old ↦ rw (← e, found, old, get) refl
          | inr young ↦ rw (← e, found, young, get) refl
        ]
      ]

  pub set-HasUniqueKeys :
      (key challenge : Text) (now later : ℕ) (store : Store)
      → HasUniqueKeys store
      → HasUniqueKeys (set options key challenge now later store).1
  unfolding set cleanup
  set-HasUniqueKeys key challenge now later store u =
      let k = retain-HasUniqueKeys (λ entry. not (is_stale options now entry)) store u in
      elim (Bool-cases (leb options.max_challenges (length (cleanup options now store)))) [
        | inl full ↦ rw (full, set) k
        | inr room ↦ rw (room, set) (insert-HasUniqueKeys key _ (cleanup options now store) k)
      ]

  set-lookup :
      (key challenge : Text) (now later : ℕ) (store : Store)
      → (set options key challenge now later store).0 ≡ ok tt
      → lookup key (set options key challenge now later store).1
        ≡ some (record { challenge = challenge; created_at = later })
  unfolding set
  set-lookup key challenge now later store e =
      elim (Bool-cases (leb options.max_challenges (length (cleanup options now store)))) [
        | inl full ↦ cc (rw (full, set) at e)
        | inr room ↦
            rw (room, set)
              (lookup-insert key key _ (cleanup options now store) ∙ rw (text_eq_refl key) refl)
      ]

  fresh_twice :
      (entry : ChallengeEntry) (now later : ℕ)
      → now ≤ entry.created_at + options.ttl_ms
      → later ≤ entry.created_at + options.ttl_ms
      → challenge_of (kept later (kept now (some entry))) ≡ some entry.challenge
  fresh_twice entry now later h k = ground arith

  -- A challenge that was set is returned under its key for as long as the limit says.
  pub get-set :
      (key challenge : Text) (now later now' later' : ℕ) (store : Store)
      → (set options key challenge now later store).0 ≡ ok tt
      → HasUniqueKeys store
      → now' ≤ later + options.ttl_ms
      → later' ≤ later + options.ttl_ms
      → (get options key now' later' (set options key challenge now later store).1).0
        ≡ some challenge
  get-set key challenge now later now' later' store e u h k =
      get-lookup key now' later' _ (set-HasUniqueKeys key challenge now later store u)
      ∙ rw (set-lookup key challenge now later store e)
          (fresh_twice _ now' later' (omega arith) (omega arith))

  pub consume-HasUniqueKeys :
      (key : Text) (now later : ℕ) (store : Store)
      → HasUniqueKeys store
      → HasUniqueKeys (consume options key now later store).1
  unfolding consume get cleanup
  consume-HasUniqueKeys key now later store u =
      let k = retain-HasUniqueKeys (λ entry. not (is_stale options now entry)) store u in
      ground (
        arith,
        k,
        delete-HasUniqueKeys key (cleanup options now store) k,
        delete-HasUniqueKeys key (delete key (cleanup options now store)),
      )

  -- What a `consume` leaves under its key: nothing, or the empty challenge.
  consumed :
      (key : Text) (now later : ℕ) (store : Store)
      → truthy (challenge_of (lookup key (consume options key now later store).1)) ≡ none
  unfolding consume get
  consumed key now later store =
      let kept_store : Store = cleanup options now store in
      ground (arith, lookup-delete key key kept_store, text_eq_refl key)

  truthy-kept :
      (o : Option ChallengeEntry) (now later : ℕ)
      → truthy (challenge_of o) ≡ none
      → truthy (challenge_of (kept later (kept now o))) ≡ none
  truthy-kept none now later h = refl
  truthy-kept (some entry) now later h = ground arith

  -- A challenge is used once: what a second `consume` under the key returns is nothing, or the empty
  -- challenge, whenever the clock is read.
  pub consume_once :
      (key : Text) (now later now' later' : ℕ) (store : Store)
      → HasUniqueKeys store
      → truthy (consume options key now' later' (consume options key now later store).1).0 ≡ none
  unfolding consume
  consume_once key now later now' later' store u =
      rw
        (get-lookup key now' later' (consume options key now later store).1
          (consume-HasUniqueKeys key now later store u))
        (truthy-kept (lookup key (consume options key now later store).1) now' later'
          (consumed key now later store))
