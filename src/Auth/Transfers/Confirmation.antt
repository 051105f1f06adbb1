-- ===== src/Auth/Transfers/Confirmation.antt =====
-- A transfer is confirmed once.
use mathlib.Core.Path.{subst}
use guardian_wallet.Prelude.{
  ℕ, ◌≡◌, refl, ◌∙◌, sym, ap, true, not, Option, none, some, Text, codes, arith,
}
use guardian_wallet.Prelude.Effects.{and_then, not_found, ok, Reply, return}
use guardian_wallet.Prelude.Keeps.{Throws, and_then-Throws, and_then-ok}
use guardian_wallet.Auth.Database.{Table, or_throw}
use guardian_wallet.Auth.Database.Rows.{Updates-none, all-map}
use guardian_wallet.Auth.Database.Kept.{IsKept}
use guardian_wallet.Auth.Transfers.{
  TransferRow, row_id, is_claimable, is_confirmable, confirmed, ClaimClock,
  verify_transfer_ownership, claim, confirm,
}
use guardian_wallet.Auth.Transfers.Locks.{is_taken, is_taken-IsStable}
use guardian_wallet.Auth.Transfers.Runs.{Run, Run-Kept, verify-Kept}
use guardian_wallet.Auth.Transfers.Outcomes.{
  verify-ok, or_throw-ok, first, update-taken, claim-Throws,
}

module _ (table : Table row_id) (signers : Text → Reply (Option Text)) where
  taken-claimable :
      (id : Text) (now cutoff : ℕ) (row : TransferRow)
      → is_taken id row ≡ true
      → not (is_claimable id now cutoff row) ≡ true
  taken-claimable id now cutoff row h = ground arith

  taken-confirmable :
      (id user : Text) (row : TransferRow)
      → is_taken id row ≡ true
      → not (is_confirmable id user row) ≡ true
  taken-confirmable id user row h = ground arith

  confirm-Throws :
      (id user : Text) (now : ℕ) (db : table.Db)
      → IsKept row_id (is_taken id) id (table.rows db)
      → Throws (confirm table signers id user now db).0
  unfolding confirm
  confirm-Throws id user now db kept =
      and_then-Throws (λ db. IsKept row_id (is_taken id) id (table.rows db)) {B = Unit {0}}
        (verify_transfer_ownership table signers id user db) _
        (verify-Kept table signers (is_taken id) id id user db kept)
        (λ _ s k. nothing _ (
          Updates-none (is_confirmable id user) (confirmed now user)
            (table.update-Updates (is_confirmable id user) (confirmed now user) s)
            (all-map (is_taken id) _ (taken-confirmable id user) (table.rows s) k.each)))
    where
      nothing :
          (p : Option TransferRow × table.Db)
          → p.0 ≡ none
          → Throws
              (and_then
                (or_throw (not_found (codes "Transfer not found or not locked by you")) p)
                (λ _. return tt)).0
      nothing (none, s) h = (_, refl)
      nothing (some row, s) h = cc

  confirm-taken :
      (id user : Text) (now : ℕ) (db : table.Db)
      → (confirm table signers id user now db).0 ≡ ok tt
      → IsKept row_id (is_taken id) id (table.rows (confirm table signers id user now db).1)
  unfolding confirm
  confirm-taken id user now db h =
      let (_, s, allowed, rest) =
        and_then-ok {B = Unit {0}} (verify_transfer_ownership table signers id user db) _ tt h in
      let (row, end, found, last) =
        and_then-ok {B = Unit {0}}
          (or_throw _ (table.update (is_confirmable id user) (confirmed now user) s)) _ tt
          (ap first (sym rest) ∙ h) in
      let (answer, same) =
        or_throw-ok table signers _ (table.update (is_confirmable id user) (confirmed now user) s)
          row end found in
      subst (λ p. IsKept row_id (is_taken id) id (table.rows p.1)) (sym (rest ∙ last))
        (subst (λ db. IsKept row_id (is_taken id) id (table.rows db)) same
          (update-taken table signers id user now s row
            (verify-ok table signers id user db s allowed).0 answer))

  -- A transfer is confirmed once: whatever calls follow, at whatever time, no claim of it and no other
  -- confirmation returns.
  pub confirm_once :
      (id user : Text) (now horizon : ℕ) (db db' : table.Db)
      → (confirm table signers id user now db).0 ≡ ok tt
      → Run table signers horizon (confirm table signers id user now db).1 db'
      → (other : Text) (clock : ClaimClock) (later : ℕ)
      → Throws (claim table signers id other clock db').0
        × Throws (confirm table signers id other later db').0
  confirm_once id user now horizon db db' h run other clock later =
      let kept =
        Run-Kept table signers (is_taken id) id (is_taken-IsStable id horizon) run
          (confirm-taken id user now db h) in
      (
        claim-Throws table signers (is_taken id) id other clock db'
            (taken-claimable id clock.now clock.cutoff) kept,
        confirm-Throws id other later db' kept,
      )
