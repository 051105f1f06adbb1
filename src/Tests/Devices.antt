-- ===== src/Tests/Devices.antt =====
-- The theorems on transfers of a share at a concrete table.
use guardian_wallet.Prelude.{
  ◌≡◌, refl, Option, none, some, List, [], ◌∷◌, Text, codes, text_eq, arith,
}
use guardian_wallet.Prelude.Effects.{Reply, returns, throws, ok, not_found}
use guardian_wallet.Prelude.Keeps.{Throws}
use guardian_wallet.Auth.Transfers.{
  TransferRow, row_id, cli_to_dashboard, Claimed, ClaimClock, uploaded, with_lock, claim, confirm,
  upload_payload, verify_transfer_ownership, claim_locked,
}
use guardian_wallet.Auth.Transfers.Runs.{stay, call, uploaded_by}
use guardian_wallet.Auth.Transfers.Exclusion.{
  Releases, claim-Releases, claim_excludes, claim_without_payload,
}
use guardian_wallet.Auth.Transfers.Confirmation.{confirm_once}
use guardian_wallet.Tests.Samples.{alice}
use guardian_wallet.Tests.Tables.{list_table}

abbrev signers : Text → Reply (Option Text)
signers id = returns (some alice)

-- A transfer without a payload, and one with a payload.
abbrev fresh_row : TransferRow
fresh_row = record {
  id = codes "t1";
  signer_id = codes "s1";
  initiator_id = alice;
  encrypted_payload = none;
  direction = cli_to_dashboard;
  expires_at = 600_000;
  locked_at = none;
  locked_by = none;
  claimed_at = none;
  claimed_by = none;
  created_at = 0;
}

abbrev full_row : TransferRow
full_row = uploaded (codes "secret") fresh_row

abbrev clock : ClaimClock
clock = record { expiry = 1000; now = 1001; cutoff = 1002; late = 1003 }

abbrev later : ClaimClock
later = record { expiry = 90_000; now = 90_001; cutoff = 90_002; late = 90_003 }

abbrev given : Claimed
given = record { encrypted_payload = codes "secret"; lock_expires_at = 301_000 }

returns_payload :
    (claim (list_table row_id) signers (codes "t1") alice clock (full_row ∷ [])).0 ≡ ok given
unfolding claim verify_transfer_ownership claim_locked text_eq
returns_payload = refl

claim-Releases_example :
    Releases
      (list_table row_id)
      signers
      (codes "t1")
      alice
      clock
      (full_row ∷ [])
      (claim (list_table row_id) signers (codes "t1") alice clock (full_row ∷ [])).1
      given
claim-Releases_example =
    claim-Releases (list_table row_id) signers (codes "t1") alice clock (full_row ∷ []) given
      returns_payload

abbrev after_claim : List TransferRow
after_claim = (claim (list_table row_id) signers (codes "t1") alice clock (full_row ∷ [])).1

claim_excludes_example :
    Throws
      (claim
        (list_table row_id)
        signers
        (codes "t1")
        alice
        later
        (upload_payload
          (list_table row_id)
          signers
          (codes "t1")
          alice
          (codes "other")
          50_000
          after_claim).1).0
claim_excludes_example =
    claim_excludes (list_table row_id) signers (codes "t1") alice clock (full_row ∷ []) _ given
      returns_payload (call stay (uploaded_by (codes "t1") alice (codes "other") 50_000)) alice
      later (omega arith)

abbrev after_early : List TransferRow
after_early = (claim (list_table row_id) signers (codes "t1") alice clock (fresh_row ∷ [])).1

owns_transfer :
    verify_transfer_ownership (list_table row_id) signers (codes "t1") alice (fresh_row ∷ [])
    ≡ (ok tt, fresh_row ∷ [])
unfolding verify_transfer_ownership text_eq
owns_transfer = refl

claim_without_payload_example :
    ((claim (list_table row_id) signers (codes "t1") alice clock (fresh_row ∷ [])).0
      ≡ throws (not_found (codes "Transfer payload not yet uploaded")))
    × Throws
        (claim
          (list_table row_id)
          signers
          (codes "t1")
          alice
          later
          (upload_payload
            (list_table row_id)
            signers
            (codes "t1")
            alice
            (codes "secret")
            50_000
            after_early).1).0
unfolding text_eq
claim_without_payload_example =
    claim_without_payload (list_table row_id) signers (codes "t1") alice clock (fresh_row ∷ [])
      (fresh_row ∷ []) _ (with_lock 1001 alice fresh_row) owns_transfer refl refl
      (call stay (uploaded_by (codes "t1") alice (codes "secret") 50_000)) alice later (omega arith)

abbrev locked_row : TransferRow
locked_row = with_lock 1001 alice full_row

confirms : (confirm (list_table row_id) signers (codes "t1") alice 2000 (locked_row ∷ [])).0 ≡ ok tt
unfolding confirm verify_transfer_ownership text_eq
confirms = refl

confirm_once_example :
    Throws
      (claim
        (list_table row_id)
        signers
        (codes "t1")
        alice
        later
        (confirm (list_table row_id) signers (codes "t1") alice 2000 (locked_row ∷ [])).1).0
    × Throws
        (confirm
          (list_table row_id)
          signers
          (codes "t1")
          alice
          3000
          (confirm (list_table row_id) signers (codes "t1") alice 2000 (locked_row ∷ [])).1).0
confirm_once_example =
    confirm_once (list_table row_id) signers (codes "t1") alice 2000 0 (locked_row ∷ []) _ confirms
      stay alice later 3000
