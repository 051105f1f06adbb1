-- ===== src/Auth/Tokens.antt =====
-- Access tokens and refresh tokens: `SessionService` of packages/server/src/auth/session.service.ts, over the table
-- `refresh_tokens`. Times are milliseconds; each reading of the clock and each random token is an argument.
pub mod Rows
pub mod Rotation
pub mod Revocation
use guardian_wallet.Prelude.{
  ℕ, ◌+◌, ◌-◌, ◌*◌, Bool, true, false, not, ◌&&◌, ◌||◌, Option, none, some, if◌then◌else◌, is_none,
  is_some, ltb, leb, Text, codes, text_eq,
}
use guardian_wallet.Prelude.Effects.{
  Exception, internal, Result, ok, throws, Reply, returns, rejects, M, ◌>>=◌, return,
}
use guardian_wallet.Auth.Database.{Table, or_throw}

abbrev pub refresh_token_ttl_ms : ℕ
refresh_token_ttl_ms = 7 * 86400 * 1000

-- The day that `cleanup_expired_refresh_tokens` leaves.
abbrev pub day_ms : ℕ
day_ms = 86400 * 1000

pub record JwtPayload : Type 0 where
  pub sub : Text
  pub address : Option Text
  pub email : Option Text
  pub token_type : Text

pub record CreateTokenInput : Type 0 where
  pub user_id : Text
  pub address : Option Text
  pub email : Option Text

-- `sign` and `verify` of the JWT service.
module _ (sign : JwtPayload → Text) (verify : Text → Reply JwtPayload) where
  -- `createAccessToken`
  abbrev pub create_access_token : CreateTokenInput → Text
  create_access_token input = sign (record {
    sub = input.user_id;
    address = input.address;
    email = input.email;
    token_type = codes "session";
  })

  abbrev pub accepted : Reply JwtPayload → Option JwtPayload
  accepted (rejects e) = none
  accepted (returns payload) =
      if text_eq payload.token_type (codes "session") then some payload else none

  -- `validateAccessToken`
  unfoldable pub validate_access_token : Text → Option JwtPayload
  validate_access_token token = accepted (verify token)

pub record TokenRow : Type 0 where
  pub id : Text
  pub user_id : Text
  pub token_hash : Text
  pub expires_at : ℕ
  pub revoked_at : Option ℕ

abbrev pub token_id : TokenRow → Text
token_id row = row.id

abbrev pub new_token : Text → Text → ℕ → Text → ℕ → TokenRow
new_token user hash expires_at id created = record {
  id = id;
  user_id = user;
  token_hash = hash;
  expires_at = expires_at;
  revoked_at = none;
}

-- The filters of the statements, and what they write.
abbrev pub is_unrevoked : Text → TokenRow → Bool
is_unrevoked hash row = text_eq row.token_hash hash && is_none row.revoked_at

abbrev pub is_rotatable : Text → ℕ → TokenRow → Bool
is_rotatable hash now row = is_unrevoked hash row && leb now row.expires_at

abbrev pub is_active_of : Text → TokenRow → Bool
is_active_of user row = text_eq row.user_id user && is_none row.revoked_at

abbrev pub revoked : ℕ → TokenRow → TokenRow
revoked now row = record row { revoked_at = some now }

abbrev pub revoked_before : ℕ → Option ℕ → Bool
revoked_before time none = false
revoked_before time (some revoked_at) = ltb revoked_at time

-- The rows that `cleanup_expired_refresh_tokens` deletes.
abbrev pub is_disposable : ℕ → TokenRow → Bool
is_disposable now row =
    ltb row.expires_at (now - day_ms) || revoked_before (now - day_ms) row.revoked_at

pub record Rotated : Type 0 where
  pub user_id : Text
  pub token : Text

-- `sha256` is the hash of a token in hexadecimal digits.
module _ (table : Table token_id) (sha256 : Text → Text) where
  -- `createRefreshToken`
  unfoldable pub create_refresh_token : Text → Text → ℕ → M table.Db Text
  create_refresh_token user token now = do
    id ← λ db.
        or_throw (internal (codes "Failed to create session"))
          (table.insert (new_token user (sha256 token) (now + refresh_token_ttl_ms)) db)
    return token

  abbrev pub unexpired_user : ℕ → Option TokenRow → Option Text
  unexpired_user now none = none
  unexpired_user now (some row) = if ltb row.expires_at now then none else some row.user_id

  abbrev pub answer_user : ℕ → Option TokenRow × table.Db → Result (Option Text) × table.Db
  answer_user now (answer, db) = (ok (unexpired_user now answer), db)

  -- `validateRefreshToken`
  unfoldable pub validate_refresh_token : Text → ℕ → M table.Db (Option Text)
  validate_refresh_token token now db =
      answer_user now (table.select (is_unrevoked (sha256 token)) db)

  -- What follows the update of `rotateRefreshToken`.
  unfoldable pub renew : Text → ℕ → Option TokenRow × table.Db → Result (Option Rotated) × table.Db
  unfolding create_refresh_token
  renew token now (none, db) = (ok none, db)
  renew token now (some row, db) =
      (do
        new ← create_refresh_token row.user_id token now
        return (some (record { user_id = row.user_id; token = new })))
        db

  -- `rotateRefreshToken`, with the times of `revoked_at`, of the comparison and of the new token.
  unfoldable pub rotate_refresh_token : Text → Text → ℕ → ℕ → ℕ → M table.Db (Option Rotated)
  unfolding renew
  rotate_refresh_token old token revoked_at now later db =
      renew token later (table.update (is_rotatable (sha256 old) now) (revoked revoked_at) db)

  -- `revokeAllTokens`; an error is logged.
  unfoldable pub revoke_all_tokens : Text → ℕ → M table.Db (Unit {0})
  revoke_all_tokens user now db = (ok tt, (table.update_all (is_active_of user) (revoked now) db).1)

  -- `cleanupExpiredTokens`; an error is logged.
  unfoldable pub cleanup_expired_tokens : ℕ → M table.Db (Unit {0})
  cleanup_expired_tokens now db = (ok tt, table.remove (is_disposable now) db)
