-- ===== src/Chains/Nonces/Least.antt =====
-- The loop of `getNext` ends, at the least nonce that is free.
use guardian_wallet.Prelude.{
  ℕ, zero, suc, ◌+◌, ◌≤◌, ◌<◌, ◌≡◌, refl, ◌∙◌, ap, true, false, Option, none, some, List, length,
  Text, to_lower, ◌==◌, ==_iff, Bool-cases, Option-cases, inl, inr, arith,
}
use guardian_wallet.Prelude.Dict.{lookup, insert}
use guardian_wallet.Prelude.Effects.{ok, Reply, Reply-cases, returns, rejects}
use guardian_wallet.Chains.Nonces.{NonceManager, has, skip, reserved_of, issue, get_next}
use guardian_wallet.Chains.Nonces.Reuse.{skip-free}

-- The least number from `start` on that is not in the list.
pub record IsLeastFree (start n : ℕ) (taken : List ℕ) : Type 0 where
  pub from : start ≤ n
  pub within : n ≤ start + length taken
  pub free : has n taken ≡ false
  pub least : (k : ℕ) → start ≤ k → k < n → has k taken ≡ true

-- The counter that `getNext` starts from: the cached one, or the answer of the chain.
abbrev pub or_answered : Option ℕ → Reply ℕ → Option ℕ
or_answered (some current) fetched = some current
or_answered none (returns n) = some n
or_answered none (rejects e) = none

abbrev pub counter : Text → Reply ℕ → NonceManager → Option ℕ
counter address fetched manager = or_answered (lookup (to_lower address) manager.nonces) fetched

skip-from : (fuel : ℕ) (ms : List ℕ) (current : ℕ) → current ≤ skip fuel ms current
unfolding skip
skip-from zero ms current = omega arith
skip-from (suc fuel) ms current = ground (arith, skip-from fuel ms (current + 1))

skip-within : (fuel : ℕ) (ms : List ℕ) (current : ℕ) → skip fuel ms current ≤ current + fuel
unfolding skip
skip-within zero ms current = omega arith
skip-within (suc fuel) ms current = ground (arith, skip-within fuel ms (current + 1))

skip-least :
    (fuel : ℕ) (ms : List ℕ) (current k : ℕ)
    → current ≤ k
    → k < skip fuel ms current
    → has k ms ≡ true
unfolding skip
skip-least zero ms current k a b = absurd (omega arith)
skip-least (suc fuel) ms current k a b = elim (Bool-cases (has current ms)) [
  | inr free ↦ absurd (omega (arith, a, rw (free, skip) at b))
  | inl taken ↦ elim (Bool-cases (k == current)) [
    | inl same ↦ ap (λ n. has n ms) ((==_iff k current).0 same) ∙ taken
    | inr other ↦
        skip-least fuel ms (current + 1) k (ground (arith, a, other)) (rw (taken, skip) at b)
  ]
]

issued :
    (address : Text) (current : ℕ) (manager : NonceManager)
    → (n : ℕ) × ((issue address current manager).0 ≡ ok n)
      × IsLeastFree current n (reserved_of (to_lower address) manager)
unfolding issue
issued address current manager =
    let ms = reserved_of (to_lower address) manager in
    (
      skip (length ms) ms current,
      refl,
      record {
        from = skip-from (length ms) ms current;
        within = skip-within (length ms) ms current;
        free = skip-free ms current;
        least = λ k a b. skip-least (length ms) ms current k a b;
      },
    )

-- `getNext` returns where the counter is cached or the chain answers: the loop ends after as many steps as nonces are
-- reserved for the address at most, and the nonce is the least one from the counter on that is not
-- reserved.
pub get_next_returns :
    (address : Text) (fetched : Reply ℕ) (manager : NonceManager) (current : ℕ)
    → counter address fetched manager ≡ some current
    → (n : ℕ) × ((get_next address fetched manager).0 ≡ ok n)
      × IsLeastFree current n (reserved_of (to_lower address) manager)
unfolding get_next reserved_of
get_next_returns address fetched manager current h =
    elim (Option-cases (lookup (to_lower address) manager.nonces)) [
      | inr (cached, found) ↦
          let same : cached ≡ current = cc (h, ap (λ o. or_answered o fetched) found) in
          rw (found, get_next, same) (issued address current manager)
      | inl absent ↦ elim (Reply-cases fetched) [
        | inr (e, failed) ↦
            absurd (cc (h, ap (λ o. or_answered o fetched) absent, ap (or_answered none) failed))
        | inl (answer, found) ↦
            let same : answer ≡ current =
              cc (h, ap (λ o. or_answered o fetched) absent, ap (or_answered none) found) in
            rw (absent, found, get_next, same)
              (issued address current
                (record manager { nonces = insert (to_lower address) current manager.nonces }))
      ]
    ]
