-- ===== src/Auth/Transfers.antt =====
-- Transfers of a share between devices: `TransferService` of packages/server/src/auth/transfer.service.ts, over
-- the table `share_transfers`. Times are milliseconds; each reading of the clock is an argument.
pub mod Locks
pub mod Runs
pub mod Outcomes
pub mod Exclusion
pub mod Confirmation
use guardian_wallet.Prelude.{
  ℕ, ◌+◌, ◌-◌, ◌*◌, Bool, true, false, not, ◌&&◌, ◌||◌, Option, none, some, if◌then◌else◌, is_none,
  is_some, ltb, Text, codes, text_eq, is_empty,
}
use guardian_wallet.Prelude.Effects.{
  Exception, not_found, forbidden, conflict, gone, failure, Result, ok, throws, Reply, M, ◌>>=◌,
  ◌>>◌, return, throw, require, await,
}
use guardian_wallet.Auth.Database.{Table, or_throw}

abbrev pub transfer_expiry_ms : ℕ
transfer_expiry_ms = 10 * 60_000

abbrev pub lock_expiry_ms : ℕ
lock_expiry_ms = 5 * 60_000

pub data Direction : Type 0 where
  cli_to_dashboard dashboard_to_cli : Direction

pub record TransferRow : Type 0 where
  pub id : Text
  pub signer_id : Text
  pub initiator_id : Text
  pub encrypted_payload : Option Text
  pub direction : Direction
  pub expires_at : ℕ
  pub locked_at : Option ℕ
  pub locked_by : Option Text
  pub claimed_at : Option ℕ
  pub claimed_by : Option Text
  pub created_at : ℕ

abbrev pub row_id : TransferRow → Text
row_id row = row.id

abbrev pub has_id : Text → TransferRow → Bool
has_id id row = text_eq row.id id

-- `.is('claimed_at', null).gt('expires_at', now)`
abbrev pub is_open : ℕ → TransferRow → Bool
is_open now row = is_none row.claimed_at && ltb now row.expires_at

-- `locked_at.is.null,locked_at.lt.…`
abbrev pub is_unlocked : ℕ → Option ℕ → Bool
is_unlocked cutoff none = true
is_unlocked cutoff (some locked_at) = ltb locked_at (cutoff - lock_expiry_ms)

abbrev pub is_user : Text → Option Text → Bool
is_user user none = false
is_user user (some other) = text_eq other user

-- The filters of the updates.
abbrev pub is_uploadable : Text → Text → ℕ → TransferRow → Bool
is_uploadable id user now row = has_id id row && (text_eq row.initiator_id user && is_open now row)

abbrev pub is_claimable : Text → ℕ → ℕ → TransferRow → Bool
is_claimable id now cutoff row =
    has_id id row && (is_open now row && is_unlocked cutoff row.locked_at)

abbrev pub is_confirmable : Text → Text → TransferRow → Bool
is_confirmable id user row = has_id id row && (is_user user row.locked_by && is_none row.claimed_at)

-- What the updates write.
abbrev pub uploaded : Text → TransferRow → TransferRow
uploaded payload row = record row { encrypted_payload = some payload }

abbrev pub with_lock : ℕ → Text → TransferRow → TransferRow
with_lock now user row = record row { locked_at = some now; locked_by = some user }

abbrev pub confirmed : ℕ → Text → TransferRow → TransferRow
confirmed now user row = record row { claimed_at = some now; claimed_by = some user }

abbrev pub new_transfer : Text → Text → Direction → ℕ → Text → ℕ → TransferRow
new_transfer signer_id initiator_id direction expires_at id created_at = record {
  id = id;
  signer_id = signer_id;
  initiator_id = initiator_id;
  encrypted_payload = none;
  direction = direction;
  expires_at = expires_at;
  locked_at = none;
  locked_by = none;
  claimed_at = none;
  claimed_by = none;
  created_at = created_at;
}

-- The readings of the clock in `claim`, in the order of the code: for `lockExpiresAt`, `now`, for the oldest lock
-- that holds, and for the error.
pub record ClaimClock : Type 0 where
  pub expiry : ℕ
  pub now : ℕ
  pub cutoff : ℕ
  pub late : ℕ

pub record Claimed : Type 0 where
  pub encrypted_payload : Text
  pub lock_expires_at : ℕ

pub record PendingTransfer : Type 0 where
  pub transfer_id : Text
  pub direction : Direction
  pub expires_at : ℕ

-- Why a claim failed.
abbrev pub claim_error : Text → ℕ → TransferRow → Exception
claim_error user late row =
    if is_some row.claimed_at
    then conflict (codes "Transfer already claimed")
    else if ltb row.expires_at late
    then gone (codes "Transfer expired")
    else if is_some row.locked_at && not (is_user user row.locked_by)
    then conflict (codes "Transfer is locked by another user")
    else conflict (codes "Transfer could not be claimed")

abbrev pub payload_of : ℕ → Option Text → Result Claimed
payload_of expiry none = throws (not_found (codes "Transfer payload not yet uploaded"))
payload_of expiry (some payload) =
    if is_empty payload
    then throws (not_found (codes "Transfer payload not yet uploaded"))
    else ok (record { encrypted_payload = payload; lock_expires_at = expiry + lock_expiry_ms })

-- `signers id` is the answer to `findById`, of which only the owner is read.
module _ (table : Table row_id) (signers : Text → Reply (Option Text)) where
  -- `if (!signer) throw …; if (signer.ownerId !== user) throw …`
  abbrev pub require_owner : Text → Option Text → M table.Db (Unit {0})
  require_owner user none = throw (not_found (codes "Signer not found"))
  require_owner user (some owner) =
      require (text_eq owner user) (forbidden (codes "You do not own this signer"))

  -- `initiate`. The message of the database at the end of the error is left out.
  unfoldable pub initiate : Text → Text → Direction → ℕ → M table.Db (Text × ℕ)
  initiate signer_id initiator_id direction now = do
    owner ← await (signers signer_id)
    require_owner initiator_id owner
    id ← λ db.
        or_throw (failure (codes "Failed to create transfer: ")) (
          table.insert (new_transfer signer_id initiator_id direction (now + transfer_expiry_ms))
            db)
    return (id, now + transfer_expiry_ms)

  -- `uploadPayload`
  unfoldable pub upload_payload : Text → Text → Text → ℕ → M table.Db (Unit {0})
  upload_payload id user payload now = do
    row ← λ db.
        or_throw (not_found (codes "Transfer not found or not authorized"))
          (table.update (is_uploadable id user now) (uploaded payload) db)
    return tt

  abbrev pub pending_of : Option TransferRow → Option PendingTransfer
  pending_of none = none
  pending_of (some row) =
      some (record { transfer_id = row.id; direction = row.direction; expires_at = row.expires_at })

  abbrev pub answer_pending :
      Option TransferRow × table.Db → Result (Option PendingTransfer) × table.Db
  answer_pending (answer, db) = (ok (pending_of answer), db)

  -- `findPending`
  unfoldable pub find_pending : Text → Text → ℕ → M table.Db (Option PendingTransfer)
  find_pending signer_id user now = do
    owner ← await (signers signer_id)
    require_owner user owner
    λ db. answer_pending (
        table.newest (λ row. text_eq row.signer_id signer_id && is_open now row)
          (λ row. row.created_at) db)

  abbrev pub owns : Text → Option Text → Bool
  owns user owner = is_user user owner

  -- `verifyTransferOwnership`
  unfoldable pub verify_transfer_ownership : Text → Text → M table.Db (Unit {0})
  verify_transfer_ownership id user = do
    row ← λ db. or_throw (not_found (codes "Transfer not found")) (table.select (has_id id) db)
    owner ← await (signers row.signer_id)
    require (owns user owner) (forbidden (codes "You do not own this signer"))

  -- What follows the update of `claim`.
  abbrev pub diagnose : Text → ℕ → Option TransferRow × table.Db → Result Claimed × table.Db
  diagnose user late (none, db) = (throws (not_found (codes "Transfer not found")), db)
  diagnose user late (some row, db) = (throws (claim_error user late row), db)

  abbrev pub finish_claim :
      Text → Text → ClaimClock → Option TransferRow × table.Db → Result Claimed × table.Db
  finish_claim id user clock (none, db) = diagnose user clock.late (table.select (has_id id) db)
  finish_claim id user clock (some row, db) = (payload_of clock.expiry row.encrypted_payload, db)

  unfoldable pub claim_locked : Text → Text → ClaimClock → M table.Db Claimed
  claim_locked id user clock db =
      finish_claim id user clock
        (table.update (is_claimable id clock.now clock.cutoff) (with_lock clock.now user) db)

  -- `claim`
  unfoldable pub claim : Text → Text → ClaimClock → M table.Db Claimed
  unfolding verify_transfer_ownership claim_locked
  claim id user clock = verify_transfer_ownership id user >> claim_locked id user clock

  -- `confirm`
  unfoldable pub confirm : Text → Text → ℕ → M table.Db (Unit {0})
  unfolding verify_transfer_ownership
  confirm id user now = do
    verify_transfer_ownership id user
    row ← λ db.
        or_throw (not_found (codes "Transfer not found or not locked by you"))
          (table.update (is_confirmable id user) (confirmed now user) db)
    return tt
