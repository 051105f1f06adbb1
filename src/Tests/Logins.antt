-- ===== src/Tests/Logins.antt =====
-- The theorems on refresh tokens at a concrete table.
use guardian_wallet.Prelude.{◌≡◌, ◌≢◌, refl, none, some, List, [], ◌∷◌, Text, codes, text_eq, arith}
use guardian_wallet.Prelude.Effects.{ok}
use guardian_wallet.Auth.Tokens.{
  TokenRow, token_id, Rotated, rotate_refresh_token, validate_refresh_token, revoke_all_tokens,
  renew, create_refresh_token, cleanup_expired_tokens,
}
use guardian_wallet.Auth.Tokens.Rows.{stay, call, cleaned}
use guardian_wallet.Auth.Tokens.Rotation.{Other, rotate_once}
use guardian_wallet.Auth.Tokens.Revocation.{revoke_all_holds}
use guardian_wallet.Tests.Samples.{alice}
use guardian_wallet.Tests.Tables.{list_table}

-- A stand-in for the hash, which is injective.
abbrev sha256 : Text → Text
sha256 token = 35 ∷ token

abbrev logins : List TokenRow
logins =
    record {
      id = codes "r1";
      user_id = alice;
      token_hash = sha256 (codes "old");
      expires_at = 1000;
      revoked_at = none;
    }
    ∷ []

abbrev rotation : Rotated
rotation = record { user_id = alice; token = codes "new" }

rotates :
    (rotate_refresh_token
      (list_table token_id)
      sha256
      (codes "old")
      (codes "new")
      500
      501
      502
      logins).0
    ≡ ok (some rotation)
unfolding rotate_refresh_token renew create_refresh_token text_eq
rotates = refl

other : Other (list_table token_id) sha256 (codes "old") (codes "new")
unfolding text_eq
other = refl

abbrev after_rotation : List TokenRow
after_rotation =
    (cleanup_expired_tokens (list_table token_id) sha256 600
      (rotate_refresh_token (list_table token_id) sha256 (codes "old") (codes "new") 500 501 502
        logins).1).1

rotate_once_example :
    ((validate_refresh_token (list_table token_id) sha256 (codes "old") 701 after_rotation).0
      ≡ ok none)
    × ((rotate_refresh_token
          (list_table token_id)
          sha256
          (codes "old")
          (codes "next")
          700
          701
          702
          after_rotation).0
        ≡ ok none)
rotate_once_example =
    rotate_once (list_table token_id) sha256 (codes "old") (codes "new") 500 501 502 logins
      after_rotation rotation other rotates (call stay (cleaned 600)) (codes "next") 700 701 702
      (omega arith)

revoke_all_holds_example :
    ((validate_refresh_token
        (list_table token_id)
        sha256
        (codes "old")
        601
        (revoke_all_tokens (list_table token_id) sha256 alice 600 logins).1).0
      ≢ ok (some alice))
    × ((rotate_refresh_token
          (list_table token_id)
          sha256
          (codes "old")
          (codes "new")
          600
          601
          602
          (revoke_all_tokens (list_table token_id) sha256 alice 600 logins).1).0
        ≢ ok (some rotation))
revoke_all_holds_example =
    revoke_all_holds (list_table token_id) sha256 alice 600 logins _ refl stay (codes "old")
      (codes "new") 600 601 602 rotation other refl
