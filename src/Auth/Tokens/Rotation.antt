-- ===== src/Auth/Tokens/Rotation.antt =====
-- A refresh token is used once.
use guardian_wallet.Prelude.{
  ℕ, ◌≤◌, ◌≡◌, refl, ◌∙◌, sym, ap, Bool, true, false, not, ◌||◌, Option, none, some, List, [], ◌∷◌,
  all, ltb, is_some, Text, text_eq, arith, Bool-cases, inl, inr, if◌then◌else◌,
}
use guardian_wallet.Prelude.Effects.{Result, ok}
use guardian_wallet.Prelude.Keeps.{and_then-ok}
use guardian_wallet.Auth.Database.{Table, or_throw, matching, failed, found, refused, lost, done}
use guardian_wallet.Auth.Database.Rows.{
  all-update_where, all-map, Updates-none, matching-holds, matching-all,
}
use guardian_wallet.Auth.Tokens.{
  TokenRow, token_id, is_unrevoked, is_rotatable, revoked, Rotated, create_refresh_token,
  validate_refresh_token, renew, rotate_refresh_token, unexpired_user,
}
use guardian_wallet.Auth.Tokens.Rows.{
  Run, IsStable, Run-Kept, renew-Kept, user_field, some_injective,
}

-- The row is not that of the hash, or it is revoked, or it was expired at a time.
abbrev pub is_dead : Text → ℕ → TokenRow → Bool
is_dead hash time row =
    not (text_eq row.token_hash hash) || (is_some row.revoked_at || ltb row.expires_at time)

dead-rotatable :
    (hash : Text) (time now : ℕ) (row : TokenRow)
    → time ≤ now
    → is_dead hash time row ≡ true
    → not (is_rotatable hash now row) ≡ true
dead-rotatable hash time now row h d = ground arith

dead-expired :
    (hash : Text) (time now : ℕ) (row : TokenRow)
    → time ≤ now
    → is_dead hash time row ≡ true
    → is_unrevoked hash row ≡ true
    → ltb row.expires_at now ≡ true
dead-expired hash time now row h d a = ground arith

rotated-dead :
    (hash : Text) (now revoked_at : ℕ) (row : TokenRow)
    → is_dead hash now (if is_rotatable hash now row then revoked revoked_at row else row) ≡ true
rotated-dead hash now revoked_at row = elim (Bool-cases (is_rotatable hash now row)) [
  | inl hit ↦ rw hit (ground arith)
  | inr miss ↦ rw miss (ground (arith, miss))
]

pub all-true : (rows : List TokenRow) → all (λ _. true) rows ≡ true
all-true [] = refl
all-true (row ∷ rows) = all-true rows

ok_injective : (a b : Text) → ok a ≡ ok b → a ≡ b
ok_injective a b h = cc

abbrev first : {S A : Type 0} → Result A × S → Result A
first p = p.0

module _ (table : Table token_id) (sha256 : Text → Text) where
  -- Tokens with another hash.
  abbrev pub Other : Text → Text → Type 0
  Other old token = text_eq (sha256 token) (sha256 old) ≡ false

  dead-IsStable :
      (old : Text) (time : ℕ)
      → IsStable table sha256
          (λ user token. Other old token)
          (Other old)
          (is_dead (sha256 old) time)
  dead-IsStable old time = record {
    revokes = λ now row h. ground arith;
    creates = λ user token expires_at id created other. ground (arith, other);
    renews = λ row token expires_at id created other h active. ground (arith, other);
  }

  validate-dead :
      (old : Text) (time now : ℕ) (db : table.Db)
      → time ≤ now
      → all (is_dead (sha256 old) time) (table.rows db) ≡ true
      → (validate_refresh_token table sha256 old now db).0 ≡ ok none
  unfolding validate_refresh_token
  validate-dead old time now db h dead =
      elim (table.select-Selects (is_unrevoked (sha256 old)) db) [
        | failed e ↦ ap (λ answer. ok (unexpired_user table sha256 now answer)) e
        | found row one e ↦
            ap (λ answer. ok (unexpired_user table sha256 now answer)) e
            ∙ rw
                (dead-expired (sha256 old) time now row h
                  (matching-all (is_dead (sha256 old) time) (is_unrevoked (sha256 old))
                    (table.rows db) row dead one)
                  (matching-holds (is_unrevoked (sha256 old)) (table.rows db) row one))
                refl
      ]

  renew-none :
      (token : Text) (later : ℕ) (p : Option TokenRow × table.Db)
      → p.0 ≡ none
      → (renew table sha256 token later p).0 ≡ ok none
  unfolding renew
  renew-none token later (none, db) h = refl
  renew-none token later (some row, db) h = cc

  rotate-dead :
      (old token : Text) (time revoked_at now later : ℕ) (db : table.Db)
      → time ≤ now
      → all (is_dead (sha256 old) time) (table.rows db) ≡ true
      → (rotate_refresh_token table sha256 old token revoked_at now later db).0 ≡ ok none
  unfolding rotate_refresh_token
  rotate-dead old token time revoked_at now later db h dead = renew-none token later _ (
      Updates-none (is_rotatable (sha256 old) now) (revoked revoked_at)
        (table.update-Updates (is_rotatable (sha256 old) now) (revoked revoked_at) db)
        (all-map (is_dead (sha256 old) time) _
          (λ row d. dead-rotatable (sha256 old) time now row h d) (table.rows db) dead))

  create-ok :
      (user token new : Text) (now : ℕ) (db : table.Db)
      → (create_refresh_token table sha256 user token now db).0 ≡ ok new
      → new ≡ token
  unfolding create_refresh_token
  create-ok user token new now db h =
      let (id, s, inserted, rest) =
        and_then-ok {B = Text} (or_throw _ (table.insert _ db)) _ new h in
      ok_injective new token (sym h ∙ ap first rest)

  renew-ok :
      (token : Text) (later : ℕ) (p : Option TokenRow × table.Db) (r : Rotated)
      → (renew table sha256 token later p).0 ≡ ok (some r)
      → (row : TokenRow) × (p.0 ≡ some row) × (r.user_id ≡ row.user_id) × (r.token ≡ token)
  unfolding renew
  renew-ok token later (none, db) r h = cc
  renew-ok token later (some row, db) r h =
      let (new, s, created, rest) =
        and_then-ok {B = Option Rotated}
          (create_refresh_token table sha256 row.user_id token later db) _ (some r) h in
      let same = create-ok row.user_id token new later db (ap first created) in
      let given : record { user_id = row.user_id; token = new } ≡ r = cc (h, ap first rest) in
      (row, refl, ap (λ r. r.user_id) (sym given), ap (λ r. r.token) (sym given) ∙ same)

  -- What a rotation that returns has found.
  pub record Rotates (old token : Text) (now : ℕ) (before after : List TokenRow) (r : Rotated)
      : Type 0 where
    pub row : TokenRow
    pub single : matching (is_rotatable (sha256 old) now) before ≡ row ∷ []
    pub user : r.user_id ≡ row.user_id
    pub given : r.token ≡ token
    pub dead : all (is_dead (sha256 old) now) after ≡ true

  -- A rotation that returns a token, whose hash is not that of the old one, found one row with the hash of the old
  -- token that was neither revoked nor expired; it returns the user of that row and the new token, and leaves no
  -- row of the old token that could be used.
  pub rotate-Rotates :
      (old token : Text) (revoked_at now later : ℕ) (db : table.Db) (r : Rotated)
      → Other old token
      → (rotate_refresh_token table sha256 old token revoked_at now later db).0 ≡ ok (some r)
      → Rotates old token now
          (table.rows db)
          (table.rows (rotate_refresh_token table sha256 old token revoked_at now later db).1)
          r
  unfolding rotate_refresh_token
  rotate-Rotates old token revoked_at now later db r other h =
      let (row, answer, user, given) =
        renew-ok token later (table.update (is_rotatable (sha256 old) now) (revoked revoked_at) db)
          r h in
      elim (table.update-Updates (is_rotatable (sha256 old) now) (revoked revoked_at) db) [
        | refused e _ ↦ absurd (cc (e, answer))
        | lost e _ ↦ absurd (cc (e, answer))
        | done before one e changed ↦ record {
          row = before;
          single = one;
          user =
              user
              ∙ ap user_field (some_injective row (revoked revoked_at before) (sym answer ∙ e));
          given = given;
          dead =
              renew-Kept table sha256 (λ user token. Other old token) (Other old)
                (dead-IsStable old now) token later _ (λ row _ id time. ground (arith, other))
                (ap (all (is_dead (sha256 old) now)) changed
                  ∙ all-update_where (is_rotatable (sha256 old) now) (revoked revoked_at)
                      (λ _. true) (is_dead (sha256 old) now) (table.rows db)
                      (all-true (table.rows db))
                      (λ row _. rotated-dead (sha256 old) now revoked_at row));
        }
      ]

  -- A refresh token is rotated once: after a rotation that returns, whatever calls follow, as long as the tokens
  -- that they give out have other hashes, the old token does not validate and is not rotated again at any later
  -- time.
  pub rotate_once :
      (old token : Text) (revoked_at now later : ℕ) (db db' : table.Db) (r : Rotated)
      → Other old token
      → (rotate_refresh_token table sha256 old token revoked_at now later db).0 ≡ ok (some r)
      → Run table sha256
          (λ user token. Other old token)
          (Other old)
          (rotate_refresh_token table sha256 old token revoked_at now later db).1
          db'
      → (next : Text) (revoked_at' now' later' : ℕ) → now ≤ now'
      → ((validate_refresh_token table sha256 old now' db').0 ≡ ok none)
        × ((rotate_refresh_token table sha256 old next revoked_at' now' later' db').0 ≡ ok none)
  rotate_once old token revoked_at now later db db' r other h run next revoked_at' now' later'
        after =
      let dead =
        Run-Kept table sha256 _ _ (dead-IsStable old now) run
          (rotate-Rotates old token revoked_at now later db r other h).dead in
      (
        validate-dead old now now' db' after dead,
        rotate-dead old next now revoked_at' now' later' db' after dead,
      )
