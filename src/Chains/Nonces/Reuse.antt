-- ===== src/Chains/Nonces/Reuse.antt =====
-- A nonce is not issued again before it is released.
use guardian_wallet.Prelude.{
  ℕ, zero, suc, ◌+◌, ◌≤◌, ◌<◌, ◌≡◌, ◌≢◌, refl, sym, true, false, ◌||◌, List, [], ◌∷◌, ◌++◌,
  if◌then◌else◌, ◌==◌, Text, text_eq, text_eq_iff, text_eq_refl, to_lower, length, All, Bool-cases,
  Option-cases, inl, inr, arith, leb,
}
use guardian_wallet.Prelude.Dict.{lookup, insert, lookup-insert}
use guardian_wallet.Prelude.Effects.{ok, Reply, returns, rejects}
use guardian_wallet.Chains.Nonces.{
  has, add, remove, NonceManager, reserved_of, reserve, skip, issue, get_next, release,
}

-- How many of the nonces are at `current` or above it.
ahead : ℕ → List ℕ → ℕ
ahead current [] = 0
ahead current (m ∷ ms) = if leb current m then suc (ahead current ms) else ahead current ms

ahead_le : (current : ℕ) (ms : List ℕ) → ahead current ms ≤ length ms
unfolding ahead
ahead_le current [] = omega arith
ahead_le current (m ∷ ms) = ground (arith, ahead_le current ms)

ahead_mono : (current : ℕ) (ms : List ℕ) → ahead (current + 1) ms ≤ ahead current ms
unfolding ahead
ahead_mono current [] = omega arith
ahead_mono current (m ∷ ms) = ground (arith, ahead_mono current ms)

ahead-has :
    (current : ℕ) (ms : List ℕ) → has current ms ≡ true → ahead (current + 1) ms < ahead current ms
unfolding ahead has
ahead-has current [] h = cc
ahead-has current (m ∷ ms) h = ground (arith, ahead-has current ms, ahead_mono current ms)

ahead_zero : (current : ℕ) (ms : List ℕ) → ahead current ms ≡ 0 → has current ms ≡ false
unfolding ahead has
ahead_zero current [] h = refl
ahead_zero current (m ∷ ms) h = ground (arith, ahead_zero current ms)

skip-has :
    (fuel : ℕ) (ms : List ℕ) (current : ℕ)
    → ahead current ms ≤ fuel
    → has (skip fuel ms current) ms ≡ false
unfolding skip
skip-has zero ms current h = ahead_zero current ms (omega arith)
skip-has (suc fuel) ms current h = elim (Bool-cases (has current ms)) [
  | inl taken ↦
      rw (taken, skip)
        (skip-has fuel ms (current + 1) (omega (arith, ahead-has current ms taken, h)))
  | inr free ↦ rw (free, skip) free
]

-- The loop ends at a nonce that is not reserved: as many steps as there are reserved nonces are enough.
pub skip-free : (ms : List ℕ) (current : ℕ) → has (skip (length ms) ms current) ms ≡ false
skip-free ms current = skip-has (length ms) ms current (ahead_le current ms)

has-append : (k n : ℕ) (ms : List ℕ) → has k (ms ++ n ∷ []) ≡ (has k ms || n == k)
unfolding has
has-append k n [] = ground arith
has-append k n (m ∷ ms) = ground (arith, has-append k n ms)

has-add : (n k : ℕ) (ms : List ℕ) → has k ms ≡ true → has k (add n ms) ≡ true
unfolding add
has-add n k ms h = ground (arith, has-append k n ms)

has-add_self : (n : ℕ) (ms : List ℕ) → has n (add n ms) ≡ true
unfolding add
has-add_self n ms = ground (arith, has-append n n ms)

has-remove : (n k : ℕ) (ms : List ℕ) → k ≢ n → has k ms ≡ true → has k (remove n ms) ≡ true
unfolding has remove
has-remove n k [] d h = h
has-remove n k (m ∷ ms) d h = ground (arith, has-remove n k ms d)

-- The nonce is in the set of the address, whose lower case is the key.
abbrev pub IsReserved : Text → ℕ → NonceManager → Type 0
IsReserved key n manager = has n (reserved_of key manager) ≡ true

-- The three operations of the manager.
pub data Operation : Type 0 where
  next : (address : Text) (fetched : Reply ℕ) → Operation
  reserving : (address : Text) (nonce : ℕ) → Operation
  releasing : (address : Text) (nonce : ℕ) → Operation

unfoldable pub apply : Operation → NonceManager → NonceManager
apply (next address fetched) manager = (get_next address fetched manager).1
apply (reserving address nonce) manager = reserve address nonce manager
apply (releasing address nonce) manager = release address nonce manager

unfoldable pub run : List Operation → NonceManager → NonceManager
run [] manager = manager
run (o ∷ os) manager = run os (apply o manager)

-- An operation other than the release of that nonce of that address.
abbrev pub Keeps : Text → ℕ → Operation → Type 0
Keeps key n (next address fetched) = Unit
Keeps key n (reserving address nonce) = Unit
Keeps key n (releasing address nonce) = ¬ ((to_lower address ≡ key) × (nonce ≡ n))

module _ (key : Text) (n : ℕ) where
  reserve-IsReserved :
      (address : Text) (nonce : ℕ) (manager : NonceManager)
      → IsReserved key n manager
      → IsReserved key n (reserve address nonce manager)
  unfolding reserve reserved_of
  reserve-IsReserved address nonce manager h =
      let k : Text = to_lower address in
      ground (
        arith,
        text_eq_iff k key,
        lookup-insert k key (add nonce (reserved_of k manager)) manager.reserved,
        has-add nonce n (reserved_of k manager),
      )

  release-IsReserved :
      (address : Text) (nonce : ℕ) (manager : NonceManager)
      → Keeps key n (releasing address nonce)
      → IsReserved key n manager
      → IsReserved key n (release address nonce manager)
  unfolding release reserved_of
  release-IsReserved address nonce manager d h =
      let k : Text = to_lower address in
      elim (Option-cases (lookup k manager.reserved)) [
        | inl absent ↦ rw (absent) h
        | inr (set, found) ↦ elim (Bool-cases (text_eq k key)) [
          | inl same ↦
              let here : k ≡ key = (text_eq_iff k key).0 same in
              let inside : has n set ≡ true = rw (← here, found) at h in
              rw (found, lookup-insert k key (remove nonce set) manager.reserved, same)
                (has-remove nonce n set (λ e. d (here, sym e)) inside)
          | inr other ↦ rw (found, lookup-insert k key (remove nonce set) manager.reserved, other) h
        ]
      ]

  issue-IsReserved :
      (address : Text) (current : ℕ) (manager : NonceManager)
      → IsReserved key n manager
      → IsReserved key n (issue address current manager).1
  unfolding issue reserved_of
  issue-IsReserved address current manager h = reserve-IsReserved address _ _ h

  get_next-IsReserved :
      (address : Text) (fetched : Reply ℕ) (manager : NonceManager)
      → IsReserved key n manager
      → IsReserved key n (get_next address fetched manager).1
  unfolding get_next reserved_of
  get_next-IsReserved address (returns current) manager h =
      elim (Option-cases (lookup (to_lower address) manager.nonces)) [
        | inl absent ↦ rw (absent, get_next) (issue-IsReserved address current _ h)
        | inr (cached, found) ↦ rw (found, get_next) (issue-IsReserved address cached manager h)
      ]
  get_next-IsReserved address (rejects e) manager h =
      elim (Option-cases (lookup (to_lower address) manager.nonces)) [
        | inl absent ↦ rw (absent, get_next) h
        | inr (cached, found) ↦ rw (found, get_next) (issue-IsReserved address cached manager h)
      ]

  run-IsReserved :
      (operations : List Operation) (manager : NonceManager)
      → All (Keeps key n) operations
      → IsReserved key n manager
      → IsReserved key n (run operations manager)
  unfolding run apply
  run-IsReserved [] manager d h = h
  run-IsReserved (next address fetched ∷ os) manager d h =
      run-IsReserved os _ d.1 (get_next-IsReserved address fetched manager h)
  run-IsReserved (reserving address nonce ∷ os) manager d h =
      run-IsReserved os _ d.1 (reserve-IsReserved address nonce manager h)
  run-IsReserved (releasing address nonce ∷ os) manager d h =
      run-IsReserved os _ d.1 (release-IsReserved address nonce manager d.0 h)

-- The nonce that is issued was not reserved, and is afterwards.
record IsIssued (key : Text) (n : ℕ) (before after : NonceManager) : Type 0 where
  free : has n (reserved_of key before) ≡ false
  taken : IsReserved key n after

issue-IsIssued :
    (address : Text) (current n : ℕ) (manager : NonceManager)
    → (issue address current manager).0 ≡ ok n
    → IsIssued (to_lower address) n manager (issue address current manager).1
unfolding issue reserve reserved_of
issue-IsIssued address current n manager e =
    let key : Text = to_lower address in
    let ms = reserved_of key manager in
    let same : skip (length ms) ms current ≡ n = cc in
    record {
      free = rw (← same) (skip-free ms current);
      taken =
          rw (same, lookup-insert key key (add n ms) manager.reserved, text_eq_refl key)
            (has-add_self n ms);
    }

get_next-IsIssued :
    (address : Text) (fetched : Reply ℕ) (n : ℕ) (manager : NonceManager)
    → (get_next address fetched manager).0 ≡ ok n
    → IsIssued (to_lower address) n manager (get_next address fetched manager).1
unfolding get_next reserved_of
get_next-IsIssued address (returns current) n manager e =
    elim (Option-cases (lookup (to_lower address) manager.nonces)) [
      | inl absent ↦
          let i =
            issue-IsIssued address current n
              (record manager { nonces = insert (to_lower address) current manager.nonces })
              (rw (absent, get_next) at e) in
          rw (absent, get_next) (record { free = i.free; taken = i.taken })
      | inr (cached, found) ↦
          rw (found, get_next) (issue-IsIssued address cached n manager (rw (found, get_next) at e))
    ]
get_next-IsIssued address (rejects x) n manager e =
    elim (Option-cases (lookup (to_lower address) manager.nonces)) [
      | inl absent ↦ absurd (cc (rw (absent, get_next) at e))
      | inr (cached, found) ↦
          rw (found, get_next) (issue-IsIssued address cached n manager (rw (found, get_next) at e))
    ]

-- After a nonce was issued to an address, and any operations that do not release it, it is not issued to
-- that address again, however the address is written and whatever the chain answers.
pub get_next_distinct :
    (address again : Text) (fetched fetched_again : Reply ℕ) (n : ℕ) (manager : NonceManager)
    (operations : List Operation)
    → (get_next address fetched manager).0 ≡ ok n
    → All (Keeps (to_lower address) n) operations
    → to_lower again ≡ to_lower address
    → (get_next again fetched_again (run operations (get_next address fetched manager).1)).0 ≢ ok n
get_next_distinct address again fetched fetched_again n manager operations e d same f =
    let after = (get_next address fetched manager).1 in
    let kept =
      run-IsReserved (to_lower address) n operations after d
        (get_next-IsIssued address fetched n manager e).taken in
    let issued = get_next-IsIssued again fetched_again n (run operations after) f in
    cc (rw same at issued.free, kept)
