-- ===== src/Auth/Database/Kept.antt =====
-- A property that the rows keep, where some row has an id.
use guardian_wallet.Prelude.{
  ℕ, ◌≡◌, refl, ◌∙◌, ap, Bool, true, false, not, ◌||◌, Option, List, [], ◌∷◌, all, any,
  if◌then◌else◌, Text, text_eq, text_eq_iff, Bool-cases, inl, inr, arith,
}
use guardian_wallet.Auth.Database.{
  matching, update_where, Updates, refused, lost, done, Inserts, failed, added,
}
use guardian_wallet.Auth.Database.Rows.{all-Updates, all-update_where, matching-single}

-- Some row has an id, and every row has a property, which rows of other ids have.
module _ {Row : Type 0} (key : Row → Text) (a : Row → Bool) (id : Text) where
  pub record IsKept (rows : List Row) : Type 0 where
    pub exists : any (λ r. text_eq (key r) id) rows ≡ true
    pub each : all a rows ≡ true

  any-update_where :
      (p : Row → Bool) (f : Row → Row)
      → ((r : Row) → key (f r) ≡ key r)
      → (rs : List Row)
      → any (λ r. text_eq (key r) id) (update_where p f rs) ≡ any (λ r. text_eq (key r) id) rs
  any-update_where p f same [] = refl
  any-update_where p f same (r ∷ rs) = ground (arith, same r, any-update_where p f same rs)

  pub Updates-IsKept :
      {p : Row → Bool} {f : Row → Row} {before after : List Row} {answer : Option Row}
      → ((r : Row) → key (f r) ≡ key r)
      → ((r : Row) → a r ≡ true → p r ≡ true → a (f r) ≡ true)
      → Updates p f before after answer
      → IsKept before
      → IsKept after
  Updates-IsKept {p = p} {f = f} {before = before} {after = after} same keeps u k = record {
    exists = there;
    each = all-Updates p f a u keeps k.each;
  }
    where
      changed : after ≡ update_where p f before → any (λ r. text_eq (key r) id) after ≡ true
      changed e = ap (any (λ r. text_eq (key r) id)) e ∙ any-update_where p f same before ∙ k.exists

      there : any (λ r. text_eq (key r) id) after ≡ true
      there = elim u [
        | refused _ e ↦ ap (any (λ r. text_eq (key r) id)) e ∙ k.exists
        | lost _ e ↦ changed e
        | done _ _ _ e ↦ changed e
      ]

  absent :
      (other : Text) (rs : List Row)
      → any (λ r. text_eq (key r) id) rs ≡ true
      → all (λ r. not (text_eq (key r) other)) rs ≡ true
      → text_eq other id ≡ false
  absent other [] e h = cc
  absent other (r ∷ rs) e h = ground (
    arith,
    text_eq_iff (key r) id,
    text_eq_iff (key r) other,
    text_eq_iff other id,
    absent other rs,
  )

  pub Inserts-IsKept :
      {fill : Text → ℕ → Row} {before after : List Row} {answer : Option Text}
      → ((other : Text) (created : ℕ) → key (fill other created) ≡ other)
      → ((r : Row) → text_eq (key r) id ≡ false → a r ≡ true)
      → Inserts key fill before after answer
      → IsKept before
      → IsKept after
  Inserts-IsKept {fill} {before} own others (failed _ e) k = record {
    exists = ap (any (λ r. text_eq (key r) id)) e ∙ k.exists;
    each = ap (all a) e ∙ k.each;
  }
  Inserts-IsKept {fill} {before} own others (added other created fresh e _) k = record {
    exists = ap (any (λ r. text_eq (key r) id)) e ∙ ground (arith, k.exists);
    each =
        ap (all a) e
        ∙ ground (
          arith,
          k.each,
          others (fill other created),
          own other created,
          absent other before k.exists fresh,
        );
  }

  any-matching :
      (q : Row → Bool) (rs : List Row) (r : Row) → matching q rs ≡ r ∷ [] → any q rs ≡ true
  any-matching q [] r h = cc
  any-matching q (x ∷ rs) r h = ground (arith, any-matching q rs r)

  -- An update of the only row with the id gives it the property.
  pub update-IsKept :
      (p : Row → Bool) (f : Row → Row)
      → ((r : Row) → key (f r) ≡ key r)
      → ((r : Row) → p r ≡ true → text_eq (key r) id ≡ true)
      → ((r : Row) → p r ≡ true → a (f r) ≡ true)
      → ((r : Row) → text_eq (key r) id ≡ false → a r ≡ true)
      → (before : List Row) (r s : Row) → matching (λ r. text_eq (key r) id) before ≡ r ∷ []
      → matching p before ≡ s ∷ []
      → IsKept (update_where p f before)
  update-IsKept p f same implies changes others before r s one_id one_p = record {
    exists = any-update_where p f same before ∙ any-matching _ before r one_id;
    each =
        all-update_where p f (λ x. not (text_eq (key x) id) || p x) a before
          (matching-single p (λ r. text_eq (key r) id) implies before r s one_id one_p) each;
  }
    where
      each :
          (x : Row) → (not (text_eq (key x) id) || p x) ≡ true → a (if p x then f x else x) ≡ true
      each x h = elim (Bool-cases (p x)) [
        | inl hit ↦ rw hit (changes x hit)
        | inr miss ↦ rw miss (others x (ground (arith, miss, h)))
      ]
