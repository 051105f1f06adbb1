-- ===== src/Auth/Tokens/Revocation.antt =====
-- A log-out ends all sessions of a user.
use guardian_wallet.Prelude.{
  ℕ, ◌≡◌, ◌≢◌, ◌∙◌, sym, ap, Bool, true, false, not, ◌||◌, Option, some, all, ltb, is_some, Text,
  text_eq, text_eq_refl, arith, Bool-cases, inl, inr, if◌then◌else◌,
}
use guardian_wallet.Prelude.Effects.{ok}
use guardian_wallet.Auth.Database.{Table, failed, found, rejected, performed}
use guardian_wallet.Auth.Database.Rows.{all-update_where, matching-holds, matching-all}
use guardian_wallet.Auth.Tokens.{
  TokenRow, token_id, is_unrevoked, is_active_of, is_rotatable, revoked, Rotated,
  validate_refresh_token, rotate_refresh_token, revoke_all_tokens, unexpired_user,
}
use guardian_wallet.Auth.Tokens.Rows.{Run, IsStable, Run-Kept}
use guardian_wallet.Auth.Tokens.Rotation.{Other, rotate-Rotates, all-true}

abbrev pub is_logged_out : Text → TokenRow → Bool
is_logged_out user row = not (text_eq row.user_id user) || is_some row.revoked_at

revoked-logged_out :
    (user : Text) (now : ℕ) (row : TokenRow)
    → is_logged_out user (if is_active_of user row then revoked now row else row) ≡ true
revoked-logged_out user now row = elim (Bool-cases (is_active_of user row)) [
  | inl hit ↦ rw hit (ground arith)
  | inr miss ↦ rw miss (ground (arith, miss))
]

active-user :
    (user hash : Text) (row : TokenRow)
    → is_logged_out user row ≡ true
    → is_unrevoked hash row ≡ true
    → text_eq row.user_id user ≡ false
active-user user hash row h a = ground arith

rotatable-active :
    (hash : Text) (now : ℕ) (row : TokenRow)
    → is_rotatable hash now row ≡ true
    → is_unrevoked hash row ≡ true
rotatable-active hash now row h = ground arith

some_user : (a b : Text) → some a ≡ some b → a ≡ b
some_user a b e = cc

ok_option : (a b : Option Text) → ok a ≡ ok b → a ≡ b
ok_option a b e = cc

module _ (table : Table token_id) (sha256 : Text → Text) where
  -- Another user than the one who logs out.
  abbrev pub OtherUser : Text → Text → Text → Type 0
  OtherUser user other token = text_eq other user ≡ false

  logged_out-IsStable :
      (user : Text) → IsStable table sha256 (OtherUser user) (λ _. Unit {0}) (is_logged_out user)
  logged_out-IsStable user = record {
    revokes = λ now row h. ground arith;
    creates = λ other token expires_at id created not_user. ground (arith, not_user);
    renews = λ row token expires_at id created _ h active. ground (arith, h, active);
  }

  revoke_all-logged_out :
      (user : Text) (now : ℕ) (db : table.Db)
      → (table.update_all (is_active_of user) (revoked now) db).0 ≡ true
      → all (is_logged_out user) (table.rows (revoke_all_tokens table sha256 user now db).1) ≡ true
  unfolding revoke_all_tokens
  revoke_all-logged_out user now db h =
      elim (table.update_all-UpdatesAll (is_active_of user) (revoked now) db) [
        | rejected e _ ↦ absurd (cc (e, h))
        | performed e ↦
            ap (all (is_logged_out user)) e
            ∙ all-update_where (is_active_of user) (revoked now) (λ _. true) (is_logged_out user)
                (table.rows db) (all-true (table.rows db))
                (λ row _. revoked-logged_out user now row)
      ]

  not-user :
      (user : Text) (now : ℕ) (row : TokenRow)
      → text_eq row.user_id user ≡ false
      → unexpired_user table sha256 now (some row) ≢ some user
  not-user user now row other e = elim (Bool-cases (ltb row.expires_at now)) [
    | inl expired ↦ cc (rw expired at e)
    | inr valid ↦ same (rw valid at e)
  ]
    where
      same : some row.user_id ≢ some user
      same e = ground (arith, text_eq_refl user, some_user row.user_id user e, other)

  validate-logged_out :
      (user token : Text) (now : ℕ) (db : table.Db)
      → all (is_logged_out user) (table.rows db) ≡ true
      → (validate_refresh_token table sha256 token now db).0 ≢ ok (some user)
  unfolding validate_refresh_token
  validate-logged_out user token now db out h =
      elim (table.select-Selects (is_unrevoked (sha256 token)) db) [
        | failed e ↦ cc (h, ap (λ answer. ok (unexpired_user table sha256 now answer)) e)
        | found row one e ↦
            not-user user now row
              (active-user user (sha256 token) row
                (matching-all (is_logged_out user) (is_unrevoked (sha256 token)) (table.rows db) row
                  out one)
                (matching-holds (is_unrevoked (sha256 token)) (table.rows db) row one))
              (ok_option _ _
                (sym (ap (λ answer. ok (unexpired_user table sha256 now answer)) e) ∙ h))
      ]

  -- After a log-out that the database did not refuse, whatever calls follow, as long as no new session is created
  -- for the user: no refresh token validates as one of the user, and none is rotated for the user.
  pub revoke_all_holds :
      (user : Text) (now : ℕ) (db db' : table.Db)
      → (table.update_all (is_active_of user) (revoked now) db).0 ≡ true
      → Run table sha256
          (OtherUser user)
          (λ _. Unit {0})
          (revoke_all_tokens table sha256 user now db).1
          db'
      → (token next : Text) (revoked_at now' later : ℕ) (r : Rotated)
      → Other table sha256 token next
      → r.user_id ≡ user
      → ((validate_refresh_token table sha256 token now' db').0 ≢ ok (some user))
        × ((rotate_refresh_token table sha256 token next revoked_at now' later db').0 ≢ ok (some r))
  revoke_all_holds user now db db' h run token next revoked_at now' later r other same =
      let out =
        Run-Kept table sha256 _ _ (logged_out-IsStable user) run
          (revoke_all-logged_out user now db h) in
      (
        validate-logged_out user token now' db' out,
        λ rotated.
            let rotates =
              rotate-Rotates table sha256 token next revoked_at now' later db' r other rotated in
            let not_user =
              active-user user (sha256 token) rotates.row
                (matching-all (is_logged_out user) (is_rotatable (sha256 token) now')
                  (table.rows db') rotates.row out rotates.single)
                (rotatable-active (sha256 token) now' rotates.row (
                  matching-holds (is_rotatable (sha256 token) now') (table.rows db') rotates.row
                    rotates.single)) in
            ground (arith, text_eq_refl user, sym rotates.user ∙ same, not_user),
      )
