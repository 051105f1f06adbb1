-- ===== src/Auth/Transfers/Outcomes.antt =====
-- What a claim and a confirmation leave in the table, and when they throw.
use guardian_wallet.Prelude.{
  ℕ, ◌≡◌, refl, ◌∙◌, sym, ap, Bool, true, not, Option, none, some, List, [], ◌∷◌, Text, text_eq,
  text_eq_iff, arith, Bool-cases, inl, inr,
}
use mathlib.Core.Path.{subst}
use guardian_wallet.Prelude.Effects.{
  Exception, Result, ok, Reply, returns, rejects, await, require, ◌>>=◌,
}
use guardian_wallet.Prelude.Keeps.{Throws, and_then-Throws, and_then-ok}
use guardian_wallet.Auth.Database.{Table, or_throw, refused, lost, done, failed, found, matching}
use guardian_wallet.Auth.Database.Rows.{Updates-none, all-map}
use guardian_wallet.Auth.Database.Kept.{IsKept, update-IsKept}
use guardian_wallet.Auth.Transfers.{
  TransferRow, row_id, has_id, is_claimable, is_confirmable, with_lock, confirmed, ClaimClock,
  Claimed, verify_transfer_ownership, claim, claim_locked, finish_claim, owns, diagnose,
}
use guardian_wallet.Auth.Transfers.Locks.{is_held, is_taken, is_held-IsStable, is_taken-IsStable}
use guardian_wallet.Auth.Transfers.Runs.{verify-Kept}

abbrev pub first : {S A : Type 0} → Result A × S → Result A
first p = p.0

pub claimable-has_id :
    (id : Text) (now cutoff : ℕ) (row : TransferRow)
    → is_claimable id now cutoff row ≡ true
    → has_id id row ≡ true
claimable-has_id id now cutoff row h = ground arith

confirmable-has_id :
    (id user : Text) (row : TransferRow) → is_confirmable id user row ≡ true → has_id id row ≡ true
confirmable-has_id id user row h = ground arith

module _ (table : Table row_id) (signers : Text → Reply (Option Text)) where
  -- The user owns the signer of the only transfer that has the id.
  pub record IsOwned (id user : Text) (rows : List TransferRow) : Type 0 where
    pub row : TransferRow
    pub single : matching (has_id id) rows ≡ row ∷ []
    pub owner : signers row.signer_id ≡ returns (some user)

  pub or_throw-ok :
      {A : Type 0} (e : Exception) (p : Option A × table.Db) (a : A) (db : table.Db)
      → or_throw e p ≡ (ok a, db)
      → (p.0 ≡ some a) × (p.1 ≡ db)
  or_throw-ok e (none, s) a db h = cc
  or_throw-ok e (some x, s) a db h = (cc, cc)

  allowed :
      (user : Text) (reply : Reply (Option Text)) (e : Exception) (db s : table.Db)
      → (await reply >>= λ owner. require (owns table signers user owner) e) db ≡ (ok tt, s)
      → (reply ≡ returns (some user)) × (db ≡ s)
  allowed user (rejects x) e db s h = cc
  allowed user (returns none) e db s h = cc
  allowed user (returns (some owner)) e db s h = elim (Bool-cases (text_eq owner user)) [
    | inl same ↦ (ap (λ o. returns (some o)) ((text_eq_iff owner user).0 same), cc (rw same at h))
    | inr other ↦ absurd (cc (rw other at h))
  ]

  pub verify-ok :
      (id user : Text) (db s : table.Db)
      → verify_transfer_ownership table signers id user db ≡ (ok tt, s)
      → IsOwned id user (table.rows s) × (table.rows s ≡ table.rows db)
  unfolding verify_transfer_ownership
  verify-ok id user db s h =
      let (row, mid, selected, rest) =
        and_then-ok {B = Unit {0}} (or_throw _ (table.select (has_id id) db)) _ tt (ap first h) in
      let (answer, same) = or_throw-ok _ (table.select (has_id id) db) row mid selected in
      let (owner, end) = allowed user (signers row.signer_id) _ mid s (sym rest ∙ h) in
      let rows : table.rows s ≡ table.rows db =
        ap table.rows (sym end ∙ sym same) ∙ table.rows-select (has_id id) db in
      elim (table.select-Selects (has_id id) db) [
        | failed e ↦ absurd (cc (e, answer))
        | found other single e ↦ (
          record {
            row = row;
            single = ap (matching (has_id id)) rows ∙ (single ∙ ap (λ r. r ∷ []) (cc (e, answer)));
            owner = owner;
          },
          rows,
        )
      ]

  -- An update that `claim` makes locks the transfer.
  pub update-held :
      (id user : Text) (clock : ClaimClock) (s : table.Db) (row : TransferRow)
      → IsOwned id user (table.rows s)
      → (table.update (is_claimable id clock.now clock.cutoff) (with_lock clock.now user) s).0
        ≡ some row
      → IsKept row_id (is_held id clock.now) id (
          table.rows
            (table.update (is_claimable id clock.now clock.cutoff) (with_lock clock.now user) s).1)
  update-held id user clock s row owned answer =
      elim (table.update-Updates (is_claimable id clock.now clock.cutoff) (with_lock clock.now user)
        s) [
          | refused e _ ↦ absurd (cc (e, answer))
          | lost e _ ↦ absurd (cc (e, answer))
          | done before one e changed ↦
              subst (IsKept row_id (is_held id clock.now) id) (sym changed) (
                update-IsKept row_id (is_held id clock.now) id
                  (is_claimable id clock.now clock.cutoff) (with_lock clock.now user) (λ r. refl)
                  (claimable-has_id id clock.now clock.cutoff) (λ r _. ground arith)
                  (is_held-IsStable id clock.now).others (table.rows s) owned.row before
                  owned.single one)
        ]

  pub update-taken :
      (id user : Text) (now : ℕ) (s : table.Db) (row : TransferRow)
      → IsOwned id user (table.rows s)
      → (table.update (is_confirmable id user) (confirmed now user) s).0 ≡ some row
      → IsKept row_id
          (is_taken id)
          id
          (table.rows (table.update (is_confirmable id user) (confirmed now user) s).1)
  update-taken id user now s row owned answer =
      elim (table.update-Updates (is_confirmable id user) (confirmed now user) s) [
        | refused e _ ↦ absurd (cc (e, answer))
        | lost e _ ↦ absurd (cc (e, answer))
        | done before one e changed ↦ subst (IsKept row_id (is_taken id) id) (sym changed) (
            update-IsKept row_id (is_taken id) id (is_confirmable id user) (confirmed now user)
              (λ r. refl) (confirmable-has_id id user) (λ r _. ground arith)
              (is_taken-IsStable id 0).others (table.rows s) owned.row before owned.single one)
      ]

  -- A claim of a transfer whose rows are all closed to it throws.
  finish-Throws :
      (id user : Text) (clock : ClaimClock) (p : Option TransferRow × table.Db)
      → p.0 ≡ none
      → Throws (finish_claim table signers id user clock p).0
  finish-Throws id user clock (some row, db) h = cc
  finish-Throws id user clock (none, db) h = diagnosed (table.select (has_id id) db)
    where
      diagnosed :
          (p : Option TransferRow × table.Db) → Throws (diagnose table signers user clock.late p).0
      diagnosed (none, db) = (_, refl)
      diagnosed (some row, db) = (_, refl)

  pub claim-Throws :
      (a : TransferRow → Bool) (id user : Text) (clock : ClaimClock) (db : table.Db)
      → ((row : TransferRow)
          → a row ≡ true
          → not (is_claimable id clock.now clock.cutoff row) ≡ true)
      → IsKept row_id a id (table.rows db)
      → Throws (claim table signers id user clock db).0
  unfolding claim claim_locked
  claim-Throws a id user clock db closed kept =
      and_then-Throws (λ db. IsKept row_id a id (table.rows db)) {B = Claimed}
        (verify_transfer_ownership table signers id user db) _
        (verify-Kept table signers a id id user db kept)
        (λ _ s k. finish-Throws id user clock _ (
          Updates-none (is_claimable id clock.now clock.cutoff) (with_lock clock.now user)
            (table.update-Updates (is_claimable id clock.now clock.cutoff)
              (with_lock clock.now user) s)
            (all-map a _ closed (table.rows s) k.each)))
