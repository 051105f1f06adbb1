-- ===== src/Auth/Transfers/Exclusion.antt =====
-- A transfer is handed to its owner, to one claim at a time, and not after it is confirmed.
use mathlib.Core.Path.{subst}
use guardian_wallet.Prelude.{
  ℕ, ◌+◌, ◌≤◌, ◌≡◌, refl, ◌∙◌, sym, ap, true, false, Option, none, some, List, [], ◌∷◌, Text, codes,
  is_empty, Bool-cases, inl, inr,
}
use guardian_wallet.Prelude.Effects.{and_then, not_found, ok, throws, Reply, returns}
use guardian_wallet.Prelude.Keeps.{Throws, and_then-ok}
use guardian_wallet.Auth.Database.{Table, refused, lost, done, matching}
use guardian_wallet.Auth.Database.Rows.{matching-same, matching-holds}
use guardian_wallet.Auth.Database.Kept.{IsKept}
use guardian_wallet.Auth.Transfers.{
  TransferRow, row_id, has_id, is_claimable, with_lock, ClaimClock, Claimed, payload_of,
  lock_expiry_ms, verify_transfer_ownership, claim, claim_locked, finish_claim, diagnose,
}
use guardian_wallet.Auth.Transfers.Locks.{is_held, held-claimable, is_held-IsStable}
use guardian_wallet.Auth.Transfers.Runs.{Run, Run-Kept}
use guardian_wallet.Auth.Transfers.Outcomes.{
  IsOwned, verify-ok, first, claimable-has_id, update-held, claim-Throws,
}

abbrev payload_field : TransferRow → Option Text
payload_field row = row.encrypted_payload

some_injective : (a b : TransferRow) → some a ≡ some b → a ≡ b
some_injective a b h = cc

module _ (table : Table row_id) (signers : Text → Reply (Option Text)) where
  diagnose-throws :
      (user : Text) (late : ℕ) (p : Option TransferRow × table.Db) (c : Claimed)
      → (diagnose table signers user late p).0 ≡ ok c
      → ⊥
  diagnose-throws user late (none, db) c h = cc
  diagnose-throws user late (some row, db) c h = cc

  finish-ok :
      (id user : Text) (clock : ClaimClock) (p : Option TransferRow × table.Db) (c : Claimed)
      → (finish_claim table signers id user clock p).0 ≡ ok c
      → (row : TransferRow) × (p.0 ≡ some row)
        × (payload_of clock.expiry row.encrypted_payload ≡ ok c)
        × ((finish_claim table signers id user clock p).1 ≡ p.1)
  finish-ok id user clock (none, db) c h =
      absurd (diagnose-throws user clock.late (table.select (has_id id) db) c h)
  finish-ok id user clock (some row, db) c h = (row, refl, h, refl)

  payload_of-ok :
      (expiry : ℕ) (payload : Option Text) (c : Claimed)
      → payload_of expiry payload ≡ ok c
      → (payload ≡ some c.encrypted_payload)
        × (is_empty c.encrypted_payload ≡ false)
        × (c.lock_expires_at ≡ expiry + lock_expiry_ms)
  payload_of-ok expiry none c h = cc
  payload_of-ok expiry (some payload) c h = elim (Bool-cases (is_empty payload)) [
    | inl empty ↦ absurd (cc (rw empty at h))
    | inr full ↦
        let given : record {
          encrypted_payload = payload;
          lock_expires_at = expiry + lock_expiry_ms;
        }
            ≡ c =
          cc (rw full at h) in
        subst
          (λ c.
            (some payload ≡ some c.encrypted_payload)
            × (is_empty c.encrypted_payload ≡ false)
            × (c.lock_expires_at ≡ expiry + lock_expiry_ms))
          given (refl, full, refl)
  ]

  -- What a claim that returns has found and done.
  pub record Releases (id user : Text) (clock : ClaimClock) (before after : List TransferRow)
      (c : Claimed) : Type 0 where
    pub row : TransferRow
    pub single : matching (has_id id) before ≡ row ∷ []
    pub owner : signers row.signer_id ≡ returns (some user)
    pub claimable : is_claimable id clock.now clock.cutoff row ≡ true
    pub payload : row.encrypted_payload ≡ some c.encrypted_payload
    pub not_empty : is_empty c.encrypted_payload ≡ false
    pub expiry : c.lock_expires_at ≡ clock.expiry + lock_expiry_ms
    pub held : IsKept row_id (is_held id clock.now) id after

  released :
      (id user : Text) (clock : ClaimClock) (s : table.Db) (c : Claimed)
      → IsOwned table signers id user (table.rows s)
      → (claim_locked table signers id user clock s).0 ≡ ok c
      → Releases id user clock
          (table.rows s)
          (table.rows (claim_locked table signers id user clock s).1)
          c
  unfolding claim_locked
  released id user clock s c owned h =
      let (row, answer, paid, end) =
        finish-ok id user clock
          (table.update (is_claimable id clock.now clock.cutoff) (with_lock clock.now user) s) c
          h in
      let (payload, not_empty, expiry) = payload_of-ok clock.expiry row.encrypted_payload c paid in
      elim (table.update-Updates (is_claimable id clock.now clock.cutoff) (with_lock clock.now user)
        s) [
          | refused e _ ↦ absurd (cc (e, answer))
          | lost e _ ↦ absurd (cc (e, answer))
          | done before one e changed ↦
              let same : owned.row ≡ before =
                matching-same (is_claimable id clock.now clock.cutoff) (has_id id)
                  (claimable-has_id id clock.now clock.cutoff) (table.rows s) owned.row before
                  owned.single one in
              let written : row ≡ with_lock clock.now user before = cc (e, answer) in
              record {
                row = owned.row;
                single = owned.single;
                owner = owned.owner;
                claimable =
                    ap (is_claimable id clock.now clock.cutoff) same
                    ∙ matching-holds (is_claimable id clock.now clock.cutoff) (table.rows s) before
                        one;
                payload = ap payload_field same ∙ (sym (ap payload_field written) ∙ payload);
                not_empty = not_empty;
                expiry = expiry;
                held =
                    subst (λ db. IsKept row_id (is_held id clock.now) id (table.rows db)) (sym end)
                      (update-held table signers id user clock s row owned answer);
              }
        ]

  -- A claim that returns was made by the owner of the signer of the only transfer with that id, which was open and
  -- not locked; it hands out the payload that was uploaded, which is not empty, and leaves the transfer claimed
  -- or locked from its reading of the clock on.
  pub claim-Releases :
      (id user : Text) (clock : ClaimClock) (db : table.Db) (c : Claimed)
      → (claim table signers id user clock db).0 ≡ ok c
      → Releases id user clock
          (table.rows db)
          (table.rows (claim table signers id user clock db).1)
          c
  unfolding claim
  claim-Releases id user clock db c h =
      let (_, s, allowed, rest) =
        and_then-ok {B = Claimed} (verify_transfer_ownership table signers id user db) _ c h in
      let (owned, rows) = verify-ok table signers id user db s allowed in
      subst (λ p. Releases id user clock (table.rows db) (table.rows p.1) c) (sym rest)
        (subst
          (λ rows.
            Releases id user clock rows (table.rows (claim_locked table signers id user clock s).1)
              c)
          rows (released id user clock s c owned (ap first (sym rest) ∙ h)))

  -- A claim that returns keeps the transfer to itself: whatever calls follow, no claim of it returns that reads
  -- the clock within five minutes, as long as the claims among them do so too.
  pub claim_excludes :
      (id user : Text) (clock : ClaimClock) (db db' : table.Db) (c : Claimed)
      → (claim table signers id user clock db).0 ≡ ok c
      → Run table signers (clock.now + lock_expiry_ms) (claim table signers id user clock db).1 db'
      → (other : Text) (later : ClaimClock) → later.cutoff ≤ clock.now + lock_expiry_ms
      → Throws (claim table signers id other later db').0
  claim_excludes id user clock db db' c h run other later early =
      claim-Throws table signers (is_held id clock.now) id other later db'
        (λ row k. held-claimable id clock.now later.now later.cutoff row early k)
        (Run-Kept table signers (is_held id clock.now) id (is_held-IsStable id clock.now) run
          (claim-Releases id user clock db c h).held)

  finish-missing :
      (id user : Text) (clock : ClaimClock) (p : Option TransferRow × table.Db) (row : TransferRow)
      → p.0 ≡ some row
      → row.encrypted_payload ≡ none
      → finish_claim table signers id user clock p
        ≡ (throws (not_found (codes "Transfer payload not yet uploaded")), p.1)
  finish-missing id user clock (none, db) row answer missing = cc
  finish-missing id user clock (some other, db) row answer missing =
      ap (λ payload. (payload_of clock.expiry payload, db))
        (ap payload_field (some_injective other row answer) ∙ missing)

  -- A claim that comes before the payload is uploaded throws and keeps the lock all the same: whatever calls
  -- follow, an upload among them, no claim of the transfer returns within five minutes, not even the same user's.
  pub claim_without_payload :
      (id user : Text) (clock : ClaimClock) (db s db' : table.Db) (row : TransferRow)
      → verify_transfer_ownership table signers id user db ≡ (ok tt, s)
      → (table.update (is_claimable id clock.now clock.cutoff) (with_lock clock.now user) s).0
        ≡ some row
      → row.encrypted_payload ≡ none
      → Run table signers (clock.now + lock_expiry_ms) (claim table signers id user clock db).1 db'
      → (other : Text) (later : ClaimClock) → later.cutoff ≤ clock.now + lock_expiry_ms
      → ((claim table signers id user clock db).0
          ≡ throws (not_found (codes "Transfer payload not yet uploaded")))
        × Throws (claim table signers id other later db').0
  unfolding claim claim_locked
  claim_without_payload id user clock db s db' row allowed answer missing run other later early =
      let outcome : claim table signers id user clock db ≡ (
        throws (not_found (codes "Transfer payload not yet uploaded")),
        (table.update (is_claimable id clock.now clock.cutoff) (with_lock clock.now user) s).1,
      ) =
        ap (λ m. and_then m (λ _. claim_locked table signers id user clock)) allowed
        ∙ finish-missing id user clock
            (table.update (is_claimable id clock.now clock.cutoff) (with_lock clock.now user) s) row
            answer missing in
      let held =
        update-held table signers id user clock s row
          (verify-ok table signers id user db s allowed).0 answer in
      (
        ap first outcome,
        claim-Throws table signers (is_held id clock.now) id other later db'
            (λ row k. held-claimable id clock.now later.now later.cutoff row early k)
            (Run-Kept table signers (is_held id clock.now) id (is_held-IsStable id clock.now) run (
              subst (λ p. IsKept row_id (is_held id clock.now) id (table.rows p.1)) (sym outcome)
                held)),
      )
