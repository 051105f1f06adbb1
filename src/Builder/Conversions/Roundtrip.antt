-- ===== src/Builder/Conversions/Roundtrip.antt =====
-- Rules that the form of the app wrote are read back into a form that writes the same rules.
use guardian_wallet.Prelude.{
  ℕ, zero, suc, ◌≡◌, refl, sym, ◌∙◌, ap, Bool, true, false, not, ◌&&◌, ◌||◌, some, List, [], ◌∷◌,
  ◌==◌, ==_iff, if◌then◌else◌, any, Bool-cases, inl, inr, arith,
}
use guardian_wallet.Prelude.Effects.{Result, ok, throws}
use guardian_wallet.Policy.Types.{Number, Criterion, PolicyRule}
use guardian_wallet.Builder.Catalog.{
  Kind, evm_address, evm_address_blocked, max_per_tx_usd, daily_limit_usd, monthly_limit_usd,
  eth_value, rate_limit, time_window, block_infinite_approvals, max_slippage, mev_protection,
  malicious_address_blacklist, evm_network, evm_function, ip_address, catalog, always_on, Fields,
  no_fields, to_criterion, from_criterion,
}
use guardian_wallet.Builder.Conversions.{
  rank, FormValues, EnabledMap, Form, update, is_built, rules_of, bound-mapped, mapped-ok,
  resolved_type, collect, build_rules, parse_criterion, parse_criteria, parse_rules,
  parse_form_values,
}

-- The entry at a place.
kind_at : ℕ → List Kind → Kind
kind_at i [] = evm_address
kind_at zero (k ∷ ks) = k
kind_at (suc i) (k ∷ ks) = kind_at i ks

kind_at-rank : (k : Kind) → kind_at (rank k) catalog ≡ k
unfolding kind_at
kind_at-rank evm_address = refl
kind_at-rank evm_address_blocked = refl
kind_at-rank max_per_tx_usd = refl
kind_at-rank daily_limit_usd = refl
kind_at-rank monthly_limit_usd = refl
kind_at-rank eth_value = refl
kind_at-rank rate_limit = refl
kind_at-rank time_window = refl
kind_at-rank block_infinite_approvals = refl
kind_at-rank max_slippage = refl
kind_at-rank mev_protection = refl
kind_at-rank malicious_address_blacklist = refl
kind_at-rank evm_network = refl
kind_at-rank evm_function = refl
kind_at-rank ip_address = refl

eq_of_rank : (k j : Kind) → (rank k == rank j) ≡ true → k ≡ j
eq_of_rank k j e =
    sym (kind_at-rank k)
    ∙ ap (λ i. kind_at i catalog) ((==_iff (rank k) (rank j)).0 e)
    ∙ kind_at-rank j

-- Whether an entry stands in a list and is built.
unfoldable pub is_selected : EnabledMap → List Kind → Kind → Bool
is_selected enabled [] j = false
is_selected enabled (k ∷ ks) j =
    let rest = is_selected enabled ks j in
    if is_built enabled k then (rank k == rank j) || rest else rest

abbrev is_among : List Kind → Kind → Bool
is_among ks j = any (λ k. rank k == rank j) ks

is_selected_iff :
    (enabled : EnabledMap) (ks : List Kind) (j : Kind)
    → is_selected enabled ks j ≡ (is_among ks j && is_built enabled j)
unfolding is_selected
is_selected_iff enabled [] j = refl
is_selected_iff enabled (k ∷ ks) j = elim (Bool-cases (rank k == rank j)) [
  | inl same ↦ elim (Bool-cases (is_built enabled j)) [
    | inl on ↦ rw (same, on, ap (is_built enabled) (eq_of_rank k j same) ∙ on) refl
    | inr off ↦
        let k_off : is_built enabled k ≡ false =
          ap (is_built enabled) (eq_of_rank k j same) ∙ off in
        rw (same, off, k_off) (ground (arith, is_selected_iff enabled ks j))
  ]
  | inr other ↦ elim (Bool-cases (is_built enabled k)) [
    | inl on ↦ rw (other, on) (is_selected_iff enabled ks j)
    | inr off ↦ rw (other, off) (is_selected_iff enabled ks j)
  ]
]

is_among-catalog : (j : Kind) → is_among catalog j ≡ true
is_among-catalog evm_address = refl
is_among-catalog evm_address_blocked = refl
is_among-catalog max_per_tx_usd = refl
is_among-catalog daily_limit_usd = refl
is_among-catalog monthly_limit_usd = refl
is_among-catalog eth_value = refl
is_among-catalog rate_limit = refl
is_among-catalog time_window = refl
is_among-catalog block_infinite_approvals = refl
is_among-catalog max_slippage = refl
is_among-catalog mev_protection = refl
is_among-catalog malicious_address_blacklist = refl
is_among-catalog evm_network = refl
is_among-catalog evm_function = refl
is_among-catalog ip_address = refl

is_selected-catalog :
    (enabled : EnabledMap) (j : Kind) → is_selected enabled catalog j ≡ is_built enabled j
is_selected-catalog enabled j = rw (is_selected_iff enabled catalog j, is_among-catalog j) refl

module _ {F : Type 0} ⦃num : Number F⦄ where
  -- A criterion is read back as the entry that wrote it, and is written again as it stands.
  to_criterion-stable :
      (k : Kind) (v : Fields F) (c : Criterion F)
      → to_criterion k v ≡ ok c
      → (resolved_type c ≡ some k) × (to_criterion k (from_criterion c) ≡ ok c)
  unfolding to_criterion from_criterion
  to_criterion-stable evm_address v c h = ground arith
  to_criterion-stable evm_address_blocked v c h = ground arith
  to_criterion-stable max_per_tx_usd v c h = ground arith
  to_criterion-stable daily_limit_usd v c h = ground arith
  to_criterion-stable monthly_limit_usd v c h = ground arith
  to_criterion-stable eth_value v c h = ground arith
  to_criterion-stable rate_limit v c h = ground arith
  to_criterion-stable time_window v c h = ground arith
  to_criterion-stable block_infinite_approvals v c h = ground arith
  to_criterion-stable max_slippage v c h = ground arith
  to_criterion-stable mev_protection v c h = ground arith
  to_criterion-stable malicious_address_blacklist v c h = ground arith
  to_criterion-stable evm_network v c h = ground arith
  to_criterion-stable evm_function v c h = ground arith
  to_criterion-stable ip_address v c h = ground arith

  -- What a form that was read back holds for an entry.
  abbrev stored : Result (Criterion F) → Fields F
  stored (ok c) = from_criterion c
  stored (throws e) = no_fields

  collect-cons :
      (values : FormValues F) (enabled : EnabledMap) (k : Kind) (ks : List Kind)
      (cs : List (Criterion F))
      → is_built enabled k ≡ true
      → collect values enabled (k ∷ ks) ≡ ok cs
      → (c : Criterion F) × (rest : List (Criterion F)) × (to_criterion k (values k) ≡ ok c)
        × (collect values enabled ks ≡ ok rest)
        × (cs ≡ c ∷ rest)
  unfolding collect
  collect-cons values enabled k ks cs b h =
      bound-mapped (to_criterion k (values k)) (collect values enabled ks) (λ c rest. c ∷ rest)
        (rw b at h)

  parse_criterion-resolved :
      (form : Form F) (c : Criterion F) (k : Kind)
      → resolved_type c ≡ some k
      → parse_criterion form c ≡ record {
        values = update form.values k (from_criterion c);
        enabled = update form.enabled k true;
      }
  unfolding parse_criterion
  parse_criterion-resolved form c k e = rw (e, parse_criterion) refl

  abbrev IsRead : FormValues F → EnabledMap → List Kind → Form F → Form F → Kind → Type 0
  IsRead values enabled ks form form' j =
      (form'.enabled j ≡ (is_selected enabled ks j || form.enabled j))
      × (form'.values j ≡ (
          if is_selected enabled ks j then stored (to_criterion j (values j)) else form.values j))

  IsRead-cons :
      (values : FormValues F) (enabled : EnabledMap) (k : Kind) (ks : List Kind) (c : Criterion F)
      (form form' : Form F) (j : Kind)
      → is_built enabled k ≡ true
      → to_criterion k (values k) ≡ ok c
      → IsRead values enabled ks
          (record {
            values = update form.values k (from_criterion c);
            enabled = update form.enabled k true;
          })
          form'
          j
      → IsRead values enabled (k ∷ ks) form form' j
  unfolding is_selected
  IsRead-cons values enabled k ks c form form' j on e h = elim (Bool-cases (rank k == rank j)) [
    | inl same ↦
        let back : to_criterion j (values j) ≡ ok c = rw (eq_of_rank k j same) at e in
        elim (Bool-cases (is_selected enabled ks j)) [
          | inl old ↦ rw (on, same) (rw (same, old) at h)
          | inr new ↦ rw (on, same, back) (rw (same, new) at h)
        ]
    | inr other ↦ rw (on, other) (rw other at h)
  ]

  parse_criteria-IsRead :
      (values : FormValues F) (enabled : EnabledMap) (ks : List Kind) (cs : List (Criterion F))
      (form : Form F)
      → collect values enabled ks ≡ ok cs
      → (j : Kind) → IsRead values enabled ks form (parse_criteria form cs) j
  unfolding collect parse_criteria is_selected
  parse_criteria-IsRead values enabled [] [] form h j = (refl, refl)
  parse_criteria-IsRead values enabled [] (c ∷ cs) form h j = ground arith
  parse_criteria-IsRead values enabled (k ∷ ks) cs form h j =
      elim (Bool-cases (is_built enabled k)) [
        | inr off ↦ rw off (parse_criteria-IsRead values enabled ks cs form (rw off at h) j)
        | inl on ↦
            let (c, rest, e, f, g) = collect-cons values enabled k ks cs on h in
            let next : Form F = record {
              values = update form.values k (from_criterion c);
              enabled = update form.enabled k true;
            } in
            rw
              (
                g,
                parse_criterion-resolved form c k (to_criterion-stable k (values k) c e).0,
                parse_criteria,
              )
              (IsRead-cons values enabled k ks c form (parse_criteria next rest) j on e
                (parse_criteria-IsRead values enabled ks rest next f j))
      ]

  collect-cong :
      (values values' : FormValues F) (enabled enabled' : EnabledMap) (ks : List Kind)
      → ((k : Kind) → is_built enabled' k ≡ is_built enabled k)
      → ((k : Kind)
          → is_built enabled k ≡ true
          → to_criterion k (values' k) ≡ to_criterion k (values k))
      → collect values' enabled' ks ≡ collect values enabled ks
  unfolding collect
  collect-cong values values' enabled enabled' [] b e = refl
  collect-cong values values' enabled enabled' (k ∷ ks) b e =
      elim (Bool-cases (is_built enabled k)) [
        | inl on ↦ rw (b k, on, e k on, collect-cong values values' enabled enabled' ks b e) refl
        | inr off ↦ rw (b k, off) (collect-cong values values' enabled enabled' ks b e)
      ]

  collected :
      (values : FormValues F) (enabled : EnabledMap) (ks : List Kind) (cs : List (Criterion F))
      → collect values enabled ks ≡ ok cs
      → (j : Kind) → is_selected enabled ks j ≡ true
      → (c : Criterion F) × (to_criterion j (values j) ≡ ok c)
  unfolding collect is_selected
  collected values enabled [] cs h j s = cc
  collected values enabled (k ∷ ks) cs h j s = elim (Bool-cases (is_built enabled k)) [
    | inr off ↦ collected values enabled ks cs (rw off at h) j (rw off at s)
    | inl on ↦
        let (c, rest, e, f, g) = collect-cons values enabled k ks cs on h in
        elim (Bool-cases (rank k == rank j)) [
          | inl same ↦ (c, rw (eq_of_rank k j same) at e)
          | inr other ↦ collected values enabled ks rest f j (rw (on, other) at s)
        ]
  ]

  parse_rules-rules_of :
      (form : Form F) (cs : List (Criterion F))
      → parse_rules form (rules_of cs) ≡ parse_criteria form cs
  unfolding parse_rules parse_criteria
  parse_rules-rules_of form [] = refl
  parse_rules-rules_of form (c ∷ cs) = refl

  abbrev blank : Form F
  blank = record { values = λ k. no_fields; enabled = λ k. false }

  parsed-cong :
      (values : FormValues F) (enabled : EnabledMap) (cs : List (Criterion F)) (form : Form F)
      → collect values enabled catalog ≡ ok cs
      → ((j : Kind) → IsRead values enabled catalog blank form j)
      → collect form.values form.enabled catalog ≡ ok cs
  parsed-cong values enabled cs form h read =
      collect-cong values form.values enabled form.enabled catalog
        (λ k. built k (always_on k) (read k).0 (is_selected-catalog enabled k))
        (λ k on.
          let s : is_selected enabled catalog k ≡ true = is_selected-catalog enabled k ∙ on in
          let (c, e) = collected values enabled catalog cs h k s in
          rw ((read k).1, s, e) (to_criterion-stable k (values k) c e).1)
      ∙ h
    where
      built :
          (k : Kind) (b : Bool)
          → form.enabled k ≡ (is_selected enabled catalog k || false)
          → is_selected enabled catalog k ≡ (not b && enabled k)
          → (not b && form.enabled k) ≡ (not b && enabled k)
      built k b p q = ground arith

  pub build_rules-ok :
      (values : FormValues F) (enabled : EnabledMap) (rules : List (PolicyRule F))
      → build_rules values enabled ≡ ok rules
      → (cs : List (Criterion F)) × (collect values enabled catalog ≡ ok cs) × (rules ≡ rules_of cs)
  unfolding build_rules
  build_rules-ok values enabled rules h = mapped-ok (collect values enabled catalog) rules_of h

  build_rules-collect :
      (values : FormValues F) (enabled : EnabledMap) (cs : List (Criterion F))
      → collect values enabled catalog ≡ ok cs
      → build_rules values enabled ≡ ok (rules_of cs)
  unfolding build_rules
  build_rules-collect values enabled cs h = rw h refl

  -- Saving in the app what was read back from the rules that the app saved writes the same rules: the
  -- entries that are enabled, with their values, survive.
  pub build_rules-parse_form_values :
      (values : FormValues F) (enabled : EnabledMap) (rules : List (PolicyRule F))
      → build_rules values enabled ≡ ok rules
      → build_rules (parse_form_values rules).values (parse_form_values rules).enabled ≡ ok rules
  unfolding parse_form_values
  build_rules-parse_form_values values enabled rules h =
      let (cs, e, f) = build_rules-ok values enabled rules h in
      rw (f, parse_rules-rules_of blank cs)
        (build_rules-collect _ _ cs (
          parsed-cong values enabled cs (parse_criteria blank cs) e
            (parse_criteria-IsRead values enabled catalog cs blank e)))
