-- ===== src/Auth/Database/Rows.antt =====
-- What a statement does to the rows that match, and to the others.
use guardian_wallet.Prelude.{
  ◌≡◌, refl, ◌∙◌, ap, Bool, true, not, ◌||◌, Option, none, List, [], ◌∷◌, all, if◌then◌else◌,
  Bool-cases, inl, inr, arith,
}
use guardian_wallet.Auth.Database.{
  matching, update_where, without, Updates, refused, lost, done, UpdatesAll, rejected, performed,
  Removes, unremoved, removed,
}

module _ {Row : Type 0} (p : Row → Bool) (f : Row → Row) where
  -- A property of all rows that a statement keeps where it changes a row.
  pub all-update_where :
      (a b : Row → Bool) (rs : List Row)
      → all a rs ≡ true
      → ((r : Row) → a r ≡ true → b (if p r then f r else r) ≡ true)
      → all b (update_where p f rs) ≡ true
  all-update_where a b [] h keeps = refl
  all-update_where a b (r ∷ rs) h keeps = ground (arith, keeps r, all-update_where a b rs)

  pub all-Updates :
      (a : Row → Bool) {before after : List Row} {answer : Option Row}
      → Updates p f before after answer
      → ((r : Row) → a r ≡ true → p r ≡ true → a (f r) ≡ true)
      → all a before ≡ true
      → all a after ≡ true
  all-Updates a {before} u keeps h = elim u [
    | refused _ same ↦ ap (all a) same ∙ h
    | lost _ changed ↦ ap (all a) changed ∙ all-update_where a a before h each
    | done _ _ _ changed ↦ ap (all a) changed ∙ all-update_where a a before h each
  ]
    where
      each : (r : Row) → a r ≡ true → a (if p r then f r else r) ≡ true
      each r holds = elim (Bool-cases (p r)) [
        | inl hit ↦ rw hit (keeps r holds hit)
        | inr miss ↦ rw miss holds
      ]

  pub all-UpdatesAll :
      (a : Row → Bool) {before after : List Row} {answer : Bool}
      → UpdatesAll p f before after answer
      → ((r : Row) → a r ≡ true → a (f r) ≡ true)
      → all a before ≡ true
      → all a after ≡ true
  all-UpdatesAll a {before} u keeps h = elim u [
    | rejected _ same ↦ ap (all a) same ∙ h
    | performed e ↦ ap (all a) e ∙ all-update_where a a before h each
  ]
    where
      each : (r : Row) → a r ≡ true → a (if p r then f r else r) ≡ true
      each r holds = elim (Bool-cases (p r)) [
        | inl hit ↦ rw hit (keeps r holds)
        | inr miss ↦ rw miss holds
      ]

module _ {Row : Type 0} (p : Row → Bool) where
  all-without : (a : Row → Bool) (rs : List Row) → all a rs ≡ true → all a (without p rs) ≡ true
  all-without a [] h = refl
  all-without a (r ∷ rs) h = ground (arith, all-without a rs)

  pub all-Removes :
      (a : Row → Bool) {before after : List Row}
      → Removes p before after
      → all a before ≡ true
      → all a after ≡ true
  all-Removes a {before} r h = elim r [
    | unremoved same ↦ ap (all a) same ∙ h
    | removed e ↦ ap (all a) e ∙ all-without a before h
  ]

module _ {Row : Type 0} where
  abbrev tail : List Row → List Row
  tail [] = []
  tail (r ∷ rs) = rs

  pub all-map :
      (p q : Row → Bool)
      → ((r : Row) → p r ≡ true → q r ≡ true)
      → (rs : List Row) → all p rs ≡ true
      → all q rs ≡ true
  all-map p q imp [] h = refl
  all-map p q imp (r ∷ rs) h = ground (arith, imp r, all-map p q imp rs)

  pub matching-none :
      (p : Row → Bool) (rs : List Row) → all (λ r. not (p r)) rs ≡ true → matching p rs ≡ []
  matching-none p [] h = refl
  matching-none p (r ∷ rs) h = ground (arith, matching-none p rs)

  pub matching-none_all :
      (p : Row → Bool) (rs : List Row) → matching p rs ≡ [] → all (λ r. not (p r)) rs ≡ true
  matching-none_all p [] h = refl
  matching-none_all p (r ∷ rs) h = ground (arith, matching-none_all p rs)

  pub Updates-none :
      (p : Row → Bool) (f : Row → Row) {before after : List Row} {answer : Option Row}
      → Updates p f before after answer
      → all (λ r. not (p r)) before ≡ true
      → answer ≡ none
  Updates-none p f {before} u h = elim u [
    | refused e _ ↦ e
    | lost e _ ↦ e
    | done row one _ _ ↦ absurd (cc (one, matching-none p before h))
  ]

  pub matching-implies :
      (p q : Row → Bool)
      → ((r : Row) → p r ≡ true → q r ≡ true)
      → (rs : List Row) → matching q rs ≡ []
      → matching p rs ≡ []
  matching-implies p q imp [] h = refl
  matching-implies p q imp (r ∷ rs) h = ground (arith, imp r, matching-implies p q imp rs)

  pub all-or :
      (p q : Row → Bool) (rs : List Row)
      → all (λ r. not (q r)) rs ≡ true
      → all (λ r. not (q r) || p r) rs ≡ true
  all-or p q [] h = refl
  all-or p q (r ∷ rs) h = ground (arith, all-or p q rs)

  -- Where one row matches `q` and one matches `p`, which implies `q`, it is the same one.
  pub matching-single :
      (p q : Row → Bool)
      → ((r : Row) → p r ≡ true → q r ≡ true)
      → (rs : List Row) (r s : Row) → matching q rs ≡ r ∷ []
      → matching p rs ≡ s ∷ []
      → all (λ x. not (q x) || p x) rs ≡ true
  matching-single p q imp [] r s one_q one_p = cc
  matching-single p q imp (x ∷ rs) r s one_q one_p = elim (Bool-cases (q x)) [
    | inl hit ↦ elim (Bool-cases (p x)) [
      | inl also ↦
          let rest = all-or p q rs (matching-none_all q rs (ap tail (rw hit at one_q))) in
          ground (arith, also, rest)
      | inr alone ↦
          absurd (cc (rw alone at one_p, matching-implies p q imp rs (ap tail (rw hit at one_q))))
    ]
    | inr miss ↦ elim (Bool-cases (p x)) [
      | inl also ↦ absurd (cc (miss, imp x also))
      | inr alone ↦
          let rest = matching-single p q imp rs r s (rw miss at one_q) (rw alone at one_p) in
          ground (arith, miss, rest)
    ]
  ]

  -- The only row that matches has what all rows have.
  pub matching-all :
      (a p : Row → Bool) (rs : List Row) (r : Row)
      → all a rs ≡ true
      → matching p rs ≡ r ∷ []
      → a r ≡ true
  matching-all a p [] r h one = cc
  matching-all a p (x ∷ rs) r h one = elim (Bool-cases (p x)) [
    | inl hit ↦ let same : x ≡ r = cc (rw hit at one) in ground (arith, ap a same, h)
    | inr miss ↦ matching-all a p rs r (ground (arith, h)) (rw miss at one)
  ]

  pub matching-holds :
      (p : Row → Bool) (rs : List Row) (r : Row) → matching p rs ≡ r ∷ [] → p r ≡ true
  matching-holds p [] r one = cc
  matching-holds p (x ∷ rs) r one = elim (Bool-cases (p x)) [
    | inl hit ↦ cc (rw hit at one, hit)
    | inr miss ↦ matching-holds p rs r (rw miss at one)
  ]

  pub matching-same :
      (p q : Row → Bool)
      → ((r : Row) → p r ≡ true → q r ≡ true)
      → (rs : List Row) (r s : Row) → matching q rs ≡ r ∷ []
      → matching p rs ≡ s ∷ []
      → r ≡ s
  matching-same p q imp [] r s one_q one_p = cc
  matching-same p q imp (x ∷ rs) r s one_q one_p = elim (Bool-cases (q x)) [
    | inl hit ↦ elim (Bool-cases (p x)) [
      | inl also ↦ cc (rw hit at one_q, rw also at one_p)
      | inr alone ↦
          absurd (cc (rw alone at one_p, matching-implies p q imp rs (ap tail (rw hit at one_q))))
    ]
    | inr miss ↦ elim (Bool-cases (p x)) [
      | inl also ↦ absurd (cc (miss, imp x also))
      | inr alone ↦ matching-same p q imp rs r s (rw miss at one_q) (rw alone at one_p)
    ]
  ]
