-- ===== src/Auth/Transfers/Runs.antt =====
-- What any sequence of calls keeps of the transfers.
use guardian_wallet.Prelude.{ℕ, ◌≤◌, ◌≡◌, refl, Bool, Option, none, some, Text, text_eq}
use guardian_wallet.Prelude.Effects.{Exception, Reply, await}
use guardian_wallet.Prelude.Keeps.{Keeps, and_then-keeps, await-Keeps, require-Keeps}
use guardian_wallet.Auth.Database.{Table, or_throw}
use guardian_wallet.Auth.Database.Kept.{IsKept, Updates-IsKept, Inserts-IsKept}
use guardian_wallet.Auth.Transfers.{
  TransferRow, row_id, has_id, is_claimable, is_confirmable, is_uploadable, with_lock, uploaded,
  confirmed, ClaimClock, Claimed, PendingTransfer, Direction, initiate, upload_payload,
  find_pending, verify_transfer_ownership, claim, claim_locked, finish_claim, diagnose, confirm,
  require_owner,
}
use guardian_wallet.Auth.Transfers.Locks.{IsStable}

module _ (table : Table row_id) (signers : Text → Reply (Option Text)) where
  -- One call of the service; claims read the clock by `horizon`.
  pub data Step (horizon : ℕ) : table.Db → table.Db → Type 0 where
    initiated :
        {db : table.Db} (signer user : Text) (direction : Direction) (now : ℕ)
        → Step horizon db (initiate table signers signer user direction now db).1
    uploaded_by :
        {db : table.Db} (id user payload : Text) (now : ℕ)
        → Step horizon db (upload_payload table signers id user payload now db).1
    searched :
        {db : table.Db} (signer user : Text) (now : ℕ)
        → Step horizon db (find_pending table signers signer user now db).1
    claimed :
        {db : table.Db} (id user : Text) (clock : ClaimClock)
        → clock.cutoff ≤ horizon
        → Step horizon db (claim table signers id user clock db).1
    confirmed_by :
        {db : table.Db} (id user : Text) (now : ℕ)
        → Step horizon db (confirm table signers id user now db).1

  pub data Run (horizon : ℕ) : table.Db → table.Db → Type 0 where
    stay : {db : table.Db} → Run horizon db db
    call : {db mid db' : table.Db} → Run horizon db mid → Step horizon mid db' → Run horizon db db'

  module _ (a : TransferRow → Bool) (id : Text) where
    abbrev pub Kept : table.Db → Type 0
    Kept db = IsKept row_id a id (table.rows db)

    or_throw-Kept :
        {A : Type 0} (e : Exception) (p : Option A × table.Db) → Kept p.1 → Kept (or_throw e p).1
    or_throw-Kept e (none, db) h = h
    or_throw-Kept e (some x, db) h = h

    same-Kept : (db db' : table.Db) → table.rows db' ≡ table.rows db → Kept db → Kept db'
    same-Kept db db' e h = rw e h

    pub verify-Kept :
        (other user : Text) → Keeps Kept (verify_transfer_ownership table signers other user)
    unfolding verify_transfer_ownership
    verify-Kept other user db h =
        and_then-keeps Kept {B = Unit {0}} (or_throw _ (table.select (has_id other) db)) _
          (or_throw-Kept _ (table.select (has_id other) db)
            (same-Kept db _ (table.rows-select (has_id other) db) h))
          (λ row db' h'.
            and_then-keeps Kept {B = Unit {0}} (await (signers row.signer_id) db') _
              (await-Keeps Kept (signers row.signer_id) db' h') (λ owner. require-Keeps Kept _ _))

    require_owner-Kept :
        (user : Text) (owner : Option Text) → Keeps Kept (require_owner table signers user owner)
    require_owner-Kept user none db h = h
    require_owner-Kept user (some owner) db h = require-Keeps Kept (text_eq owner user) _ db h

    find_pending-Kept :
        (signer user : Text) (now : ℕ) → Keeps Kept (find_pending table signers signer user now)
    unfolding find_pending
    find_pending-Kept signer user now db h =
        and_then-keeps Kept {B = Option PendingTransfer} (await (signers signer) db) _
          (await-Keeps Kept (signers signer) db h)
          (λ owner db' h'.
            and_then-keeps Kept {B = Option PendingTransfer}
              (require_owner table signers user owner db') _ (require_owner-Kept user owner db' h')
              (λ _ db k. same-Kept db _ (table.rows-newest _ _ db) k))

    module _ {horizon : ℕ} (stable : IsStable a id horizon) where
      initiate-Kept :
          (signer user : Text) (direction : Direction) (now : ℕ)
          → Keeps Kept (initiate table signers signer user direction now)
      unfolding initiate
      initiate-Kept signer user direction now db h =
          and_then-keeps Kept {B = Text × ℕ} (await (signers signer) db) _
            (await-Keeps Kept (signers signer) db h)
            (λ owner db' h'.
              and_then-keeps Kept {B = Text × ℕ} (require_owner table signers user owner db') _
                (require_owner-Kept user owner db' h')
                (λ _ db k.
                  and_then-keeps Kept {B = Text × ℕ} (or_throw _ (table.insert _ db)) _
                    (or_throw-Kept _ _ (
                      Inserts-IsKept row_id a id (λ other created. refl) stable.others
                        (table.insert-Inserts _ db) k))
                    (λ _ db k. k)))

      upload_payload-Kept :
          (other user payload : Text) (now : ℕ)
          → Keeps Kept (upload_payload table signers other user payload now)
      unfolding upload_payload
      upload_payload-Kept other user payload now db h =
          and_then-keeps Kept {B = Unit {0}}
            (or_throw _ (table.update (is_uploadable other user now) (uploaded payload) db)) _
            (or_throw-Kept _ _ (
              Updates-IsKept row_id a id (λ row. refl) (λ row k _. stable.upload payload row k)
                (table.update-Updates (is_uploadable other user now) (uploaded payload) db) h))
            (λ _ db k. k)

      finish_claim-Kept :
          (other user : Text) (clock : ClaimClock) (p : Option TransferRow × table.Db)
          → Kept p.1
          → Kept (finish_claim table signers other user clock p).1
      finish_claim-Kept other user clock (some row, db) h = h
      finish_claim-Kept other user clock (none, db) h =
          diagnosed (table.select (has_id other) db)
            (same-Kept db _ (table.rows-select (has_id other) db) h)
        where
          diagnosed :
              (p : Option TransferRow × table.Db)
              → Kept p.1
              → Kept (diagnose table signers user clock.late p).1
          diagnosed (none, db) h = h
          diagnosed (some row, db) h = h

      claim-Kept :
          (other user : Text) (clock : ClaimClock)
          → clock.cutoff ≤ horizon
          → Keeps Kept (claim table signers other user clock)
      unfolding claim claim_locked
      claim-Kept other user clock early db h =
          and_then-keeps Kept {B = Claimed} (verify_transfer_ownership table signers other user db)
            _ (verify-Kept other user db h)
            (λ _ db k. finish_claim-Kept other user clock _ (
              Updates-IsKept row_id a id (λ row. refl)
                (λ row k open_row.
                  stable.lock other clock.now clock.cutoff user row early k open_row)
                (table.update-Updates (is_claimable other clock.now clock.cutoff)
                  (with_lock clock.now user) db)
                k))

      confirm-Kept :
          (other user : Text) (now : ℕ) → Keeps Kept (confirm table signers other user now)
      unfolding confirm
      confirm-Kept other user now db h =
          and_then-keeps Kept {B = Unit {0}} (verify_transfer_ownership table signers other user db)
            _ (verify-Kept other user db h)
            (λ _ db k.
              and_then-keeps Kept {B = Unit {0}}
                (or_throw _ (table.update (is_confirmable other user) (confirmed now user) db)) _
                (or_throw-Kept _ _ (
                  Updates-IsKept row_id a id (λ row. refl)
                    (λ row k _. stable.confirms now user row k)
                    (table.update-Updates (is_confirmable other user) (confirmed now user) db) k))
                (λ _ db k. k))

      Step-Kept : {db db' : table.Db} → Step horizon db db' → Kept db → Kept db'
      Step-Kept {db} (initiated signer user direction now) h =
          initiate-Kept signer user direction now db h
      Step-Kept {db} (uploaded_by other user payload now) h =
          upload_payload-Kept other user payload now db h
      Step-Kept {db} (searched signer user now) h = find_pending-Kept signer user now db h
      Step-Kept {db} (claimed other user clock early) h = claim-Kept other user clock early db h
      Step-Kept {db} (confirmed_by other user now) h = confirm-Kept other user now db h

      pub Run-Kept : {db db' : table.Db} → Run horizon db db' → Kept db → Kept db'
      Run-Kept stay h = h
      Run-Kept (call run step) h = Step-Kept step (Run-Kept run h)
