-- ===== src/Auth/Challenges/Refinement.antt =====
-- The store of challenges does what a map from keys to challenges does that expire: that entries are cleaned up on
-- the way cannot be seen.
use mathlib.Core.Path.{subst}
use guardian_wallet.Prelude.{
  ℕ, ◌≤◌, ◌≡◌, refl, sym, ap, ◌∙◌, true, not, Option, none, some, List, [], ◌∷◌, leb, Text, text_eq,
  text_eq_iff, truthy, length, Bool-cases, Option-cases, inl, inr, arith,
}
use guardian_wallet.Prelude.Dict.{
  lookup, insert, delete, HasUniqueKeys, lookup-insert, lookup-delete, insert-HasUniqueKeys,
  retain-HasUniqueKeys, delete-HasUniqueKeys,
}
use guardian_wallet.Auth.Challenges.{
  ChallengeEntry, ChallengeStoreOptions, Store, is_stale, cleanup, set, get, consume, delete_if,
}
use guardian_wallet.Auth.Challenges.Use.{kept, challenge_of, lookup-cleanup, get-lookup}
use guardian_wallet.Auth.Challenges.Spec.{
  Call, setting, getting, consuming, found, Spec, assign, take_if, visible, Allows, refused,
  accepted, read, used, perform, Agrees, opened, closed, Refines, InOrder, answers, AllowsAll,
  none_left, then_all,
}

module _ (options : ChallengeStoreOptions) where
  kept-kept :
      (now t : ℕ) (o : Option ChallengeEntry)
      → now ≤ t
      → kept options t (kept options now o) ≡ kept options t o
  kept-kept now t none h = refl
  kept-kept now t (some entry) h = ground arith

  cleanup-kept :
      (key : Text) (now t : ℕ) (store : Store)
      → HasUniqueKeys store
      → now ≤ t
      → kept options t (lookup key (cleanup options now store)) ≡ kept options t (lookup key store)
  cleanup-kept key now t store u h =
      ap (kept options t) (lookup-cleanup options key now store u)
      ∙ kept-kept now t (lookup key store) h

  stays-stale :
      (later t : ℕ) (entry : ChallengeEntry)
      → is_stale options later entry ≡ true
      → later ≤ t
      → kept options t (some entry) ≡ none
  stays-stale later t entry stale h = ground arith

  delete-kept :
      (key k : Text) (later t : ℕ) (store : Store) (entry : ChallengeEntry)
      → lookup key store ≡ some entry
      → is_stale options later entry ≡ true
      → later ≤ t
      → kept options t (lookup k (delete key store)) ≡ kept options t (lookup k store)
  delete-kept key k later t store entry here stale h = elim (Bool-cases (text_eq key k)) [
    | inl same ↦
        let there : lookup k store ≡ some entry =
          ap (λ k. lookup k store) (sym ((text_eq_iff key k).0 same)) ∙ here in
        rw (lookup-delete key k store, same, there) (sym (stays-stale later t entry stale h))
    | inr other ↦ rw (lookup-delete key k store, other) refl
  ]

  get-kept :
      (key k : Text) (now later t : ℕ) (store : Store)
      → HasUniqueKeys store
      → now ≤ later
      → later ≤ t
      → kept options t (lookup k (get options key now later store).1)
        ≡ kept options t (lookup k store)
  unfolding get
  get-kept key k now later t store u h g =
      elim (Option-cases (lookup key (cleanup options now store))) [
        | inl absent ↦ rw (absent, get) (cleanup-kept k now t store u (omega (arith, h, g)))
        | inr (entry, here) ↦ elim (Bool-cases (is_stale options later entry)) [
          | inl old ↦
              rw (here, old, get)
                (delete-kept key k later t (cleanup options now store) entry here old g
                  ∙ cleanup-kept k now t store u (omega (arith, h, g)))
          | inr young ↦ rw (here, young, get) (cleanup-kept k now t store u (omega (arith, h, g)))
        ]
      ]

  get-HasUniqueKeys :
      (key : Text) (now later : ℕ) (store : Store)
      → HasUniqueKeys store
      → HasUniqueKeys (get options key now later store).1
  unfolding get cleanup
  get-HasUniqueKeys key now later store u =
      let k = retain-HasUniqueKeys (λ entry. not (is_stale options now entry)) store u in
      ground (arith, k, delete-HasUniqueKeys key (cleanup options now store) k)

  get-visible :
      (key : Text) (time now later : ℕ) (store : Store) (spec : Spec)
      → Agrees options time store spec
      → time ≤ now
      → now ≤ later
      → (get options key now later store).0 ≡ visible options later (spec key)
  get-visible key time now later store spec a h g =
      get-lookup options key now later store a.unique
      ∙ ap (challenge_of options)
          (kept-kept now later (lookup key store) g ∙ a.same key later (omega (arith, h, g)))

  get-Refines :
      (key : Text) (time now later : ℕ) (store : Store) (spec : Spec)
      → Agrees options time store spec
      → time ≤ now
      → now ≤ later
      → Refines options (getting key now later) (perform options (getting key now later) store) spec
  get-Refines key time now later store spec a h g = (
    spec,
    rw (get-visible key time now later store spec a h g) (read key now later),
    record {
      unique = get-HasUniqueKeys key now later store a.unique;
      same = λ k t f.
          get-kept key k now later t store a.unique g f ∙ a.same k t (omega (arith, h, g, f));
    },
  )

  cleanup-HasUniqueKeys :
      (now : ℕ) (store : Store) → HasUniqueKeys store → HasUniqueKeys (cleanup options now store)
  unfolding cleanup
  cleanup-HasUniqueKeys now store u =
      retain-HasUniqueKeys (λ entry. not (is_stale options now entry)) store u

  insert-kept :
      (key k : Text) (entry : ChallengeEntry) (t : ℕ) (store : Store) (spec : Spec)
      → kept options t (lookup k store) ≡ kept options t (spec k)
      → kept options t (lookup k (insert key entry store))
        ≡ kept options t (assign key (some entry) spec k)
  insert-kept key k entry t store spec h = ground (arith, lookup-insert key k entry store, h)

  set-Refines :
      (key challenge : Text) (time now later : ℕ) (store : Store) (spec : Spec)
      → Agrees options time store spec
      → time ≤ now
      → now ≤ later
      → Refines options
          (setting key challenge now later)
          (perform options (setting key challenge now later) store)
          spec
  unfolding set
  set-Refines key challenge time now later store spec a h g =
      let old : (k : Text) (t : ℕ)
          → later ≤ t
          → kept options t (lookup k (cleanup options now store)) ≡ kept options t (spec k) =
        λ k t f.
          cleanup-kept k now t store a.unique (omega (arith, g, f))
          ∙ a.same k t (omega (arith, h, g, f)) in
      let keys = cleanup-HasUniqueKeys now store a.unique in
      elim (Bool-cases (leb options.max_challenges (length (cleanup options now store)))) [
        | inl no_room ↦
            rw (no_room, set)
              (
                spec,
                refused key challenge now later (record {
                  entries = cleanup options now store;
                  unique = keys;
                  enough = ground (arith, no_room);
                  all_kept = λ k entry there.
                      sym (a.same k now h)
                      ∙ (sym (lookup-cleanup options k now store a.unique) ∙ there);
                }),
                record { unique = keys; same = old },
              )
        | inr room ↦
            rw (room, set)
              (
                assign key (some (record { challenge = challenge; created_at = later })) spec,
                accepted key challenge now later,
                record {
                  unique = insert-HasUniqueKeys key _ (cleanup options now store) keys;
                  same =
                      λ k t f. insert-kept key k _ t (cleanup options now store) spec (old k t f);
                },
              )
      ]

  take-kept :
      (key k : Text) (c : Option Text) (t : ℕ) (store : Store) (spec : Spec)
      → kept options t (lookup k store) ≡ kept options t (spec k)
      → kept options t (lookup k (delete_if options key c store))
        ≡ kept options t (take_if key c spec k)
  take-kept key k none t store spec h = h
  take-kept key k (some c) t store spec h = ground (arith, lookup-delete key k store, h)

  delete_if-HasUniqueKeys :
      (key : Text) (c : Option Text) (store : Store)
      → HasUniqueKeys store
      → HasUniqueKeys (delete_if options key c store)
  delete_if-HasUniqueKeys key none store u = u
  delete_if-HasUniqueKeys key (some c) store u = delete-HasUniqueKeys key store u

  consume-Refines :
      (key : Text) (time now later : ℕ) (store : Store) (spec : Spec)
      → Agrees options time store spec
      → time ≤ now
      → now ≤ later
      → Refines options
          (consuming key now later)
          (perform options (consuming key now later) store)
          spec
  unfolding consume
  consume-Refines key time now later store spec a h g =
      let after : Store = (get options key now later store).1 in
      let seen : Option Text = visible options later (spec key) in
      subst
        (λ c.
          (spec' : Spec) × Allows options (consuming key now later) spec (found c) spec'
          × Agrees options later (delete_if options key (truthy c) after) spec')
        (sym (get-visible key time now later store spec a h g))
        (
          take_if key (truthy seen) spec,
          used key now later,
          record {
            unique =
                delete_if-HasUniqueKeys key (truthy seen) after
                  (get-HasUniqueKeys key now later store a.unique);
            same = λ k t f. take-kept key k (truthy seen) t after spec (
                get-kept key k now later t store a.unique g f
                ∙ a.same k t (omega (arith, h, g, f)));
          },
        )

  perform-Refines :
      (call : Call) (time : ℕ) (store : Store) (spec : Spec)
      → Agrees options time store spec
      → time ≤ opened call
      → opened call ≤ closed call
      → Refines options call (perform options call store) spec
  perform-Refines (setting key challenge now later) time store spec a h g =
      set-Refines key challenge time now later store spec a h g
  perform-Refines (getting key now later) time store spec a h g =
      get-Refines key time now later store spec a h g
  perform-Refines (consuming key now later) time store spec a h g =
      consume-Refines key time now later store spec a h g

  answers-AllowsAll :
      (calls : List Call) (time : ℕ) (store : Store) (spec : Spec)
      → Agrees options time store spec
      → InOrder options time calls
      → AllowsAll options calls spec (answers options calls store)
  answers-AllowsAll [] time store spec a o = none_left
  answers-AllowsAll (call ∷ calls) time store spec a (h, g, o) =
      let (spec', allowed, agrees) = perform-Refines call time store spec a h g in
      then_all allowed
        (answers-AllowsAll calls (closed call) (perform options call store).1 spec' agrees o)

  -- Whatever calls an empty store gets, while the clock does not run backwards: it answers as a map from keys to
  -- challenges may, in which nothing is ever cleaned up, but a challenge that is stale is not read, one that is used
  -- is gone, unless it is empty, and a new one is refused only if as many as allowed are stored and not stale.
  pub answers_refine :
      (calls : List Call)
      → InOrder options 0 calls
      → AllowsAll options calls (λ key. none) (answers options calls [])
  unfolding lookup
  answers_refine calls o = answers-AllowsAll calls 0 [] (λ key. none) empty_agrees o
    where
      empty_agrees : Agrees options 0 [] (λ key. none)
      empty_agrees = record { unique = tt; same = λ key t h. refl }
