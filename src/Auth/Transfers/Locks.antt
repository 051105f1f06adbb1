-- ===== src/Auth/Transfers/Locks.antt =====
-- A transfer is claimed by one claim at a time, and once.
use guardian_wallet.Prelude.{
  ℕ, ◌+◌, ◌≤◌, ◌≡◌, Bool, true, false, not, ◌||◌, Option, none, some, leb, is_some, Text, arith,
}
use guardian_wallet.Auth.Transfers.{
  TransferRow, has_id, is_claimable, is_unlocked, with_lock, uploaded, confirmed, lock_expiry_ms,
}

-- A lock that was set at `since` or later.
abbrev pub is_locked_since : ℕ → Option ℕ → Bool
is_locked_since since none = false
is_locked_since since (some locked_at) = leb since locked_at

-- The transfer is claimed, or locked since a time.
abbrev pub is_held : Text → ℕ → TransferRow → Bool
is_held id since row =
    not (has_id id row) || (is_some row.claimed_at || is_locked_since since row.locked_at)

abbrev pub is_taken : Text → TransferRow → Bool
is_taken id row = not (has_id id row) || is_some row.claimed_at

-- A claim within the five minutes of a lock does not find it open.
held-unlocked :
    (since cutoff : ℕ) (l : Option ℕ)
    → cutoff ≤ since + lock_expiry_ms
    → is_locked_since since l ≡ true
    → is_unlocked cutoff l ≡ false
held-unlocked since cutoff none h k = cc
held-unlocked since cutoff (some l) h k = ground arith

pub held-claimable :
    (id : Text) (since now cutoff : ℕ) (row : TransferRow)
    → cutoff ≤ since + lock_expiry_ms
    → is_held id since row ≡ true
    → not (is_claimable id now cutoff row) ≡ true
held-claimable id since now cutoff row h k =
    ground (arith, held-unlocked since cutoff row.locked_at h)

-- A property of rows that the statements of the service keep, where claims read the clock before `horizon`.
pub record IsStable (a : TransferRow → Bool) (id : Text) (horizon : ℕ) : Type 0 where
  pub others : (row : TransferRow) → has_id id row ≡ false → a row ≡ true
  pub upload : (payload : Text) (row : TransferRow) → a row ≡ true → a (uploaded payload row) ≡ true
  pub confirms :
      (now : ℕ) (user : Text) (row : TransferRow) → a row ≡ true → a (confirmed now user row) ≡ true
  pub lock :
      (other : Text) (now cutoff : ℕ) (user : Text) (row : TransferRow)
      → cutoff ≤ horizon
      → a row ≡ true
      → is_claimable other now cutoff row ≡ true
      → a (with_lock now user row) ≡ true

pub is_taken-IsStable : (id : Text) (horizon : ℕ) → IsStable (is_taken id) id horizon
is_taken-IsStable id horizon = record {
  others = λ row h. ground (arith, h);
  upload = λ payload row h. h;
  confirms = λ now user row h. ground arith;
  lock = λ other now cutoff user row _ h _. h;
}

pub is_held-IsStable :
    (id : Text) (since : ℕ) → IsStable (is_held id since) id (since + lock_expiry_ms)
is_held-IsStable id since = record {
  others = λ row h. ground (arith, h);
  upload = λ payload row h. h;
  confirms = λ now user row h. ground arith;
  lock = λ other now cutoff user row early h claimable.
      ground (arith, h, claimable, held-unlocked since cutoff row.locked_at early);
}
