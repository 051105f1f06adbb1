-- ===== src/Chains/Nonces.antt =====
-- The nonce manager: packages/chains/src/ethereum/ethereum.nonce.ts. `getNext` holds a lock from its first
-- line to its last, so that it is one step here; the answer of the chain is an argument.
pub mod Reuse
pub mod Least
use guardian_wallet.Prelude.{
  ℕ, zero, suc, ◌+◌, Bool, true, false, ◌||◌, Option, none, some, List, [], ◌∷◌, ◌++◌,
  if◌then◌else◌, ◌==◌, Text, to_lower, length, or_else,
}
use guardian_wallet.Prelude.Dict.{Dict, lookup, insert, delete}
use guardian_wallet.Prelude.Effects.{Result, ok, throws, Reply, returns, rejects}

-- `Set.has`, `Set.add` and `Set.delete`.
unfoldable pub has : ℕ → List ℕ → Bool
has n [] = false
has n (m ∷ ms) = m == n || has n ms

unfoldable pub add : ℕ → List ℕ → List ℕ
add n ms = if has n ms then ms else ms ++ n ∷ []

unfoldable pub remove : ℕ → List ℕ → List ℕ
remove n [] = []
remove n (m ∷ ms) = let rest = remove n ms in if m == n then rest else m ∷ rest

pub record NonceManager : Type 0 where
  pub nonces : Dict ℕ
  pub reserved : Dict (List ℕ)

-- The set of an address, empty if there is none.
unfoldable pub reserved_of : Text → NonceManager → List ℕ
reserved_of key manager = or_else (lookup key manager.reserved) []

unfoldable pub reserve : Text → ℕ → NonceManager → NonceManager
reserve address nonce manager = record manager {
  reserved =
      insert (to_lower address) (add nonce (reserved_of (to_lower address) manager))
        manager.reserved;
}

-- The loop `while (addressReserved?.has(current)) current++`, with at most `fuel` steps.
unfoldable pub skip : ℕ → List ℕ → ℕ → ℕ
skip zero taken current = current
skip (suc fuel) taken current =
    let rest = skip fuel taken (current + 1) in if has current taken then rest else current

-- The lines behind the lookup of the counter. The loop skips each reserved nonce once at most.
unfoldable pub issue : Text → ℕ → NonceManager → Result ℕ × NonceManager
issue address current manager =
    let taken = reserved_of (to_lower address) manager in
    let n = skip (length taken) taken current in
    (
      ok n,
      reserve address n
          (record manager { nonces = insert (to_lower address) (n + 1) manager.nonces }),
    )

unfoldable pub get_next : Text → Reply ℕ → NonceManager → Result ℕ × NonceManager
get_next address fetched manager = elim (lookup (to_lower address) manager.nonces) [
  | some current ↦ issue address current manager
  | none ↦ elim fetched [
    | rejects e ↦ (throws e, manager)
    | returns current ↦
        issue address current
          (record manager { nonces = insert (to_lower address) current manager.nonces })
  ]
]

abbrev pub without : ℕ → Text → Option (List ℕ) → Dict (List ℕ) → Dict (List ℕ)
without nonce key none m = m
without nonce key (some set) m = insert key (remove nonce set) m

unfoldable pub release : Text → ℕ → NonceManager → NonceManager
release address nonce manager = record manager {
  nonces = delete (to_lower address) manager.nonces;
  reserved =
      without nonce (to_lower address) (lookup (to_lower address) manager.reserved)
        manager.reserved;
}
