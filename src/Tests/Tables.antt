-- ===== src/Tests/Tables.antt =====
-- A table of the database as a list of rows, which refuses what it is not sure of.
use mathlib.Core.Path.{subst}
use mathlib.Core.List.{Mem, mem-cons_self}
use guardian_wallet.Prelude.{
  ℕ, ◌≡◌, refl, sym, ap, Bool, true, not, ◌||◌, Option, none, some, List, [], ◌∷◌, all, leb, length,
  if◌then◌else◌, Text, text_eq, Bool-cases, inl, inr, arith,
}
use guardian_wallet.Auth.Database.{
  Table, Updates, refused, done, Selects, failed, found, Inserts, added, Newest, performed, removed,
  without, matching, update_where,
}
use guardian_wallet.Auth.Database.Rows.{all-or, matching-none_all}

module _ {Row : Type 0} where
  abbrev tail : List Row → List Row
  tail [] = []
  tail (r ∷ rs) = rs

  abbrev pub only : List Row → Option Row
  only [] = none
  only (r ∷ []) = some r
  only (r ∷ s ∷ rs) = none

  abbrev updated : (Row → Row) → List Row → List Row → List Row → Option Row × List Row
  updated f changed before [] = (none, before)
  updated f changed before (r ∷ []) = (some (f r), changed)
  updated f changed before (r ∷ s ∷ rs) = (none, before)

  abbrev pub update_rows : (Row → Bool) → (Row → Row) → List Row → Option Row × List Row
  update_rows p f rows = updated f (update_where p f rows) rows (matching p rows)

  pub update_rows-Updates :
      (p : Row → Bool) (f : Row → Row) (rows : List Row)
      → Updates p f rows (update_rows p f rows).1 (update_rows p f rows).0
  update_rows-Updates p f rows = go (matching p rows) refl
    where
      go :
          (found : List Row)
          → matching p rows ≡ found
          → Updates p f rows
              (updated f (update_where p f rows) rows found).1
              (updated f (update_where p f rows) rows found).0
      go [] e = refused refl refl
      go (r ∷ []) e = done r e refl refl
      go (r ∷ s ∷ rs) e = refused refl refl

  pub only-Selects : (p : Row → Bool) (rows : List Row) → Selects p rows (only (matching p rows))
  only-Selects p rows = go (matching p rows) refl
    where
      go : (some_rows : List Row) → matching p rows ≡ some_rows → Selects p rows (only some_rows)
      go [] e = failed refl
      go (r ∷ []) e = found r e refl
      go (r ∷ s ∷ rs) e = failed refl

  oldest :
      (p : Row → Bool) (created : Row → ℕ) (rows : List Row) (r : Row)
      → matching p rows ≡ r ∷ []
      → all (λ x. not (p x) || leb (created x) (created r)) rows ≡ true
  oldest p created [] r e = refl
  oldest p created (x ∷ rows) r e = elim (Bool-cases (p x)) [
    | inl hit ↦
        let rest =
          all-or (λ y. leb (created y) (created r)) p rows
            (matching-none_all p rows (ap tail (rw hit at e))) in
        let same : x ≡ r = cc (rw hit at e) in ground (arith, rest, same)
    | inr miss ↦ ground (arith, miss, oldest p created rows r (rw miss at e))
  ]

  pub only-Newest :
      (p : Row → Bool) (created : Row → ℕ) (rows : List Row)
      → Newest p created rows (only (matching p rows))
  only-Newest p created rows = go (matching p rows) refl
    where
      go :
          (some_rows : List Row)
          → matching p rows ≡ some_rows
          → Newest p created rows (only some_rows)
      go [] e = failed refl
      go (r ∷ []) e =
          found r (subst (Mem r) (sym e) (mem-cons_self {a = r} {l = []}))
            (oldest p created rows r e) refl
      go (r ∷ s ∷ rs) e = failed refl

  module _ (key : Row → Text) where
    abbrev is_fresh : Text → List Row → Bool
    is_fresh id rows = all (λ row. not (text_eq (key row) id)) rows

    abbrev new_id : List Row → Text
    new_id rows = length rows ∷ []

    abbrev pub insert_row : (Text → ℕ → Row) → List Row → Option Text × List Row
    insert_row fill rows =
        if is_fresh (new_id rows) rows
        then (some (new_id rows), fill (new_id rows) 0 ∷ rows)
        else (none, rows)

    pub insert_row-Inserts :
        (fill : Text → ℕ → Row) (rows : List Row)
        → Inserts key fill rows (insert_row fill rows).1 (insert_row fill rows).0
    insert_row-Inserts fill rows = elim (Bool-cases (is_fresh (new_id rows) rows)) [
      | inl fresh ↦ rw fresh (added (new_id rows) 0 fresh refl (λ _. refl))
      | inr used ↦ rw used (failed refl refl)
    ]

    abbrev pub list_table : Table key
    list_table = record {
      Db = List Row;
      rows = λ db. db;
      insert = insert_row;
      select = λ p db. (only (matching p db), db);
      newest = λ p created db. (only (matching p db), db);
      update = update_rows;
      update_all = λ p f db. (true, update_where p f db);
      remove = without;
      insert-Inserts = insert_row-Inserts;
      select-Selects = only-Selects;
      rows-select = λ p db. refl;
      newest-Newest = only-Newest;
      rows-newest = λ p created db. refl;
      update-Updates = update_rows-Updates;
      update_all-UpdatesAll = λ p f db. performed refl;
      remove-Removes = λ p db. removed refl;
    }
