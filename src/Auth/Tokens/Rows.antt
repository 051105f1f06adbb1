-- ===== src/Auth/Tokens/Rows.antt =====
-- A property of the rows of refresh tokens that the calls of the service keep.
use mathlib.Core.Path.{subst}
use guardian_wallet.Prelude.{
  ℕ, ◌+◌, ◌≡◌, refl, ◌∙◌, sym, ap, Bool, true, Option, none, some, all, is_none, Text, arith,
}
use guardian_wallet.Prelude.Effects.{Exception}
use guardian_wallet.Prelude.Keeps.{and_then-keeps}
use guardian_wallet.Auth.Database.{Table, or_throw, failed, added, refused, lost, done}
use guardian_wallet.Auth.Database.Rows.{
  all-Updates, all-UpdatesAll, all-Removes, matching-holds, matching-all,
}
use guardian_wallet.Auth.Tokens.{
  TokenRow, token_id, new_token, is_unrevoked, is_rotatable, is_active_of, revoked, is_disposable,
  Rotated, refresh_token_ttl_ms, create_refresh_token, validate_refresh_token, renew,
  rotate_refresh_token, revoke_all_tokens, cleanup_expired_tokens,
}

abbrev pub user_field : TokenRow → Text
user_field row = row.user_id

pub some_injective : (a b : TokenRow) → some a ≡ some b → a ≡ b
some_injective a b h = cc

rotatable-active :
    (hash : Text) (now : ℕ) (row : TokenRow)
    → is_rotatable hash now row ≡ true
    → is_none row.revoked_at ≡ true
rotatable-active hash now row h = ground arith

module _ (table : Table token_id) (sha256 : Text → Text) (may_create : Text → Text → Type 0)
    (may_renew : Text → Type 0) where
  -- One call of the service: `may_create user token` of the tokens that are created, `may_renew token` of those
  -- that are given for old ones.
  pub data Step : table.Db → table.Db → Type 0 where
    created :
        {db : table.Db} (user token : Text) (now : ℕ)
        → may_create user token
        → Step db (create_refresh_token table sha256 user token now db).1
    validated :
        {db : table.Db} (token : Text) (now : ℕ)
        → Step db (validate_refresh_token table sha256 token now db).1
    rotated :
        {db : table.Db} (old token : Text) (revoked_at now later : ℕ)
        → may_renew token
        → Step db (rotate_refresh_token table sha256 old token revoked_at now later db).1
    logged_out :
        {db : table.Db} (user : Text) (now : ℕ)
        → Step db (revoke_all_tokens table sha256 user now db).1
    cleaned : {db : table.Db} (now : ℕ) → Step db (cleanup_expired_tokens table sha256 now db).1

  pub data Run : table.Db → table.Db → Type 0 where
    stay : {db : table.Db} → Run db db
    call : {db mid db' : table.Db} → Run db mid → Step mid db' → Run db db'

  pub record IsStable (a : TokenRow → Bool) : Type 0 where
    pub revokes : (now : ℕ) (row : TokenRow) → a row ≡ true → a (revoked now row) ≡ true
    pub creates :
        (user token : Text) (expires_at : ℕ) (id : Text) (time : ℕ)
        → may_create user token
        → a (new_token user (sha256 token) expires_at id time) ≡ true
    pub renews :
        (row : TokenRow) (token : Text) (expires_at : ℕ) (id : Text) (time : ℕ)
        → may_renew token
        → a row ≡ true
        → is_none row.revoked_at ≡ true
        → a (new_token row.user_id (sha256 token) expires_at id time) ≡ true

  module _ {a : TokenRow → Bool} (stable : IsStable a) where
    abbrev pub Kept : table.Db → Type 0
    Kept db = all a (table.rows db) ≡ true

    or_throw-Kept :
        {A : Type 0} (e : Exception) (p : Option A × table.Db) → Kept p.1 → Kept (or_throw e p).1
    or_throw-Kept e (none, db) h = h
    or_throw-Kept e (some x, db) h = h

    insert-Kept :
        (fill : Text → ℕ → TokenRow) (db : table.Db)
        → ((id : Text) (time : ℕ) → a (fill id time) ≡ true)
        → Kept db
        → Kept (table.insert fill db).1
    insert-Kept fill db new h = elim (table.insert-Inserts fill db) [
      | failed _ same ↦ ap (all a) same ∙ h
      | added id time _ more _ ↦ ap (all a) more ∙ ground (arith, new id time, h)
    ]

    create-Kept :
        (user token : Text) (now : ℕ) (db : table.Db)
        → ((id : Text) (time : ℕ)
            → a (new_token user (sha256 token) (now + refresh_token_ttl_ms) id time) ≡ true)
        → Kept db
        → Kept (create_refresh_token table sha256 user token now db).1
    unfolding create_refresh_token
    create-Kept user token now db new h =
        and_then-keeps Kept {B = Text} (or_throw _ (table.insert _ db)) _
          (or_throw-Kept _ _ (insert-Kept _ db new h)) (λ _ db k. k)

    pub renew-Kept :
        (token : Text) (now : ℕ) (p : Option TokenRow × table.Db)
        → ((row : TokenRow)
            → p.0 ≡ some row
            → (id : Text) (time : ℕ)
            → a (new_token row.user_id (sha256 token) (now + refresh_token_ttl_ms) id time) ≡ true)
        → Kept p.1
        → Kept (renew table sha256 token now p).1
    unfolding renew
    renew-Kept token now (none, db) new h = h
    renew-Kept token now (some row, db) new h =
        and_then-keeps Kept {B = Option Rotated}
          (create_refresh_token table sha256 row.user_id token now db) _
          (create-Kept row.user_id token now db (new row refl) h) (λ _ db k. k)

    rotate-Kept :
        (old token : Text) (revoked_at now later : ℕ) (db : table.Db)
        → may_renew token
        → Kept db
        → Kept (rotate_refresh_token table sha256 old token revoked_at now later db).1
    unfolding rotate_refresh_token
    rotate-Kept old token revoked_at now later db may h =
        renew-Kept token later _
          (λ row answer id time. renewed row answer (later + refresh_token_ttl_ms) id time)
          (all-Updates (is_rotatable (sha256 old) now) (revoked revoked_at) a
            (table.update-Updates (is_rotatable (sha256 old) now) (revoked revoked_at) db)
            (λ row k _. stable.revokes revoked_at row k) h)
      where
        renewed :
            (row : TokenRow)
            → (table.update (is_rotatable (sha256 old) now) (revoked revoked_at) db).0 ≡ some row
            → (expires_at : ℕ) (id : Text) (time : ℕ)
            → a (new_token row.user_id (sha256 token) expires_at id time) ≡ true
        renewed row answer expires_at id time =
            elim (table.update-Updates (is_rotatable (sha256 old) now) (revoked revoked_at) db) [
              | refused e _ ↦ absurd (cc (e, answer))
              | lost e _ ↦ absurd (cc (e, answer))
              | done before one e _ ↦
                  let user : before.user_id ≡ row.user_id =
                    ap user_field
                      (some_injective (revoked revoked_at before) row (sym e ∙ answer)) in
                  subst (λ u. a (new_token u (sha256 token) expires_at id time) ≡ true) user
                    (stable.renews before token expires_at id time may
                      (matching-all a (is_rotatable (sha256 old) now) (table.rows db) before h one)
                      (rotatable-active (sha256 old) now before (
                        matching-holds (is_rotatable (sha256 old) now) (table.rows db) before one)))
            ]

    Step-Kept : {db db' : table.Db} → Step db db' → Kept db → Kept db'
    unfolding validate_refresh_token revoke_all_tokens cleanup_expired_tokens
    Step-Kept {db} (created user token now may) h =
        create-Kept user token now db (λ id time. stable.creates user token _ id time may) h
    Step-Kept {db} (validated token now) h =
        ap (all a) (table.rows-select (is_unrevoked (sha256 token)) db) ∙ h
    Step-Kept {db} (rotated old token revoked_at now later may) h =
        rotate-Kept old token revoked_at now later db may h
    Step-Kept {db} (logged_out user now) h =
        all-UpdatesAll (is_active_of user) (revoked now) a
          (table.update_all-UpdatesAll (is_active_of user) (revoked now) db)
          (λ row k. stable.revokes now row k) h
    Step-Kept {db} (cleaned now) h =
        all-Removes (is_disposable now) a (table.remove-Removes (is_disposable now) db) h

    pub Run-Kept : {db db' : table.Db} → Run db db' → Kept db → Kept db'
    Run-Kept stay h = h
    Run-Kept (call run step) h = Step-Kept step (Run-Kept run h)
