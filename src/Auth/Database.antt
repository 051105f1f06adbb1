-- ===== src/Auth/Database.antt =====
-- The tables of the database behind packages/server/src/auth, as its client shows them: one statement at a time,
-- each of which may fail.
pub mod Rows
pub mod Kept
use guardian_wallet.Prelude.{
  ℕ, ◌≡◌, ◌≢◌, refl, ◌∙◌, sym, ap, Bool, true, false, not, ◌&&◌, ◌||◌, Option, none, some, List, [],
  ◌∷◌, all, any, leb, if◌then◌else◌, Text, text_eq, text_eq_iff, Bool-cases, inl, inr, arith,
}
use mathlib.Core.List.{Mem}
use guardian_wallet.Prelude.Effects.{Exception, Result, ok, throws}

module _ {Row : Type 0} where
  abbrev pub matching : (Row → Bool) → List Row → List Row
  matching p [] = []
  matching p (r ∷ rs) = let rest = matching p rs in if p r then r ∷ rest else rest

  abbrev pub update_where : (Row → Bool) → (Row → Row) → List Row → List Row
  update_where p f [] = []
  update_where p f (r ∷ rs) = (if p r then f r else r) ∷ update_where p f rs

  -- The rows that a statement with `.single()` leaves, and what it answers: it fails and changes nothing, its
  -- answer is lost, or exactly one row matched.
  pub data Updates (p : Row → Bool) (f : Row → Row) (before after : List Row) (answer : Option Row)
      : Type 0 where
    refused : answer ≡ none → after ≡ before → Updates p f before after answer
    lost : answer ≡ none → after ≡ update_where p f before → Updates p f before after answer
    done :
        (row : Row)
        → matching p before ≡ row ∷ []
        → answer ≡ some (f row)
        → after ≡ update_where p f before
        → Updates p f before after answer

  abbrev pub without : (Row → Bool) → List Row → List Row
  without p [] = []
  without p (r ∷ rs) = let rest = without p rs in if p r then rest else r ∷ rest

  -- An update of any number of rows: it fails and changes nothing, or it is made, with an answer that may be lost.
  pub data UpdatesAll (p : Row → Bool) (f : Row → Row) (before after : List Row) (answer : Bool)
      : Type 0 where
    rejected : answer ≡ false → after ≡ before → UpdatesAll p f before after answer
    performed : after ≡ update_where p f before → UpdatesAll p f before after answer

  -- A removal of rows that may fail.
  pub data Removes (p : Row → Bool) (before after : List Row) : Type 0 where
    unremoved : after ≡ before → Removes p before after
    removed : after ≡ without p before → Removes p before after

  -- A query of one row: it fails, or the answer is the only row that matches.
  pub data Selects (p : Row → Bool) (rows : List Row) (answer : Option Row) : Type 0 where
    failed : answer ≡ none → Selects p rows answer
    found : (row : Row) → matching p rows ≡ row ∷ [] → answer ≡ some row → Selects p rows answer

  -- A query of the newest row that matches: it fails, or no row that matches is newer than the answer.
  pub data Newest (p : Row → Bool) (created : Row → ℕ) (rows : List Row) (answer : Option Row)
      : Type 0 where
    failed : answer ≡ none → Newest p created rows answer
    found :
        (row : Row)
        → Mem row (matching p rows)
        → all (λ r. not (p r) || leb (created r) (created row)) rows ≡ true
        → answer ≡ some row
        → Newest p created rows answer

  -- An insert fails, or adds the row that `fill` makes of a new id and the time; its answer may be lost.
  pub data Inserts (key : Row → Text) (fill : Text → ℕ → Row) (before after : List Row)
      (answer : Option Text) : Type 0 where
    failed : answer ≡ none → after ≡ before → Inserts key fill before after answer
    added :
        (id : Text) (created : ℕ)
        → all (λ row. not (text_eq (key row) id)) before ≡ true
        → after ≡ fill id created ∷ before
        → (answer ≢ none → answer ≡ some id)
        → Inserts key fill before after answer

-- What the code relies on of the database client for one table. `rows` is what is stored; the order of the rows
-- says nothing.
pub record Table {Row : Type 0} (key : Row → Text) : Type 1 where
  pub Db : Type 0
  pub rows : Db → List Row
  pub insert : (Text → ℕ → Row) → Db → Option Text × Db
  pub select : (Row → Bool) → Db → Option Row × Db
  pub newest : (Row → Bool) → (Row → ℕ) → Db → Option Row × Db
  pub update : (Row → Bool) → (Row → Row) → Db → Option Row × Db
  pub update_all : (Row → Bool) → (Row → Row) → Db → Bool × Db
  pub remove : (Row → Bool) → Db → Db
  pub insert-Inserts :
      (fill : Text → ℕ → Row) (db : Db)
      → Inserts key fill (rows db) (rows (insert fill db).1) (insert fill db).0
  pub select-Selects : (p : Row → Bool) (db : Db) → Selects p (rows db) (select p db).0
  pub rows-select : (p : Row → Bool) (db : Db) → rows (select p db).1 ≡ rows db
  pub newest-Newest :
      (p : Row → Bool) (created : Row → ℕ) (db : Db)
      → Newest p created (rows db) (newest p created db).0
  pub rows-newest :
      (p : Row → Bool) (created : Row → ℕ) (db : Db) → rows (newest p created db).1 ≡ rows db
  pub update-Updates :
      (p : Row → Bool) (f : Row → Row) (db : Db)
      → Updates p f (rows db) (rows (update p f db).1) (update p f db).0
  pub update_all-UpdatesAll :
      (p : Row → Bool) (f : Row → Row) (db : Db)
      → UpdatesAll p f (rows db) (rows (update_all p f db).1) (update_all p f db).0
  pub remove-Removes : (p : Row → Bool) (db : Db) → Removes p (rows db) (rows (remove p db))

-- `if (error || !data) throw e`
abbrev pub or_throw : {S A : Type 0} → Exception → Option A × S → Result A × S
or_throw e (none, db) = (throws e, db)
or_throw e (some a, db) = (ok a, db)
