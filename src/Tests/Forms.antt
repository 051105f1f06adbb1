-- ===== src/Tests/Forms.antt =====
-- The theorems on the policy form at a concrete form.
use guardian_wallet.Prelude.{ℕ, ◌≡◌, refl, true, false, not, ◌&&◌, none, some, List, [], ◌∷◌, arith}
use guardian_wallet.Prelude.Effects.{ok}
use guardian_wallet.Policy.Types.{Criterion, is_in, not_in, PolicyRule, accept, reject}
use guardian_wallet.Policy.Criteria.{evaluate_criterion}
use guardian_wallet.Policy.Engine.{evaluate}
use guardian_wallet.Builder.Catalog.{
  evm_address, evm_address_blocked, rate_limit, time_window, no_fields, catalog, to_criterion,
  validate,
}
use guardian_wallet.Builder.Catalog.Midnight.{until_midnight, to_criterion-until_midnight}
use guardian_wallet.Builder.Conversions.{
  FormValues, EnabledMap, build_rules, collect, parse_form_values, wallet_build_rules,
  split_criteria, is_reject_kind,
}
use guardian_wallet.Builder.Conversions.Roundtrip.{build_rules-parse_form_values}
use guardian_wallet.Builder.Conversions.Meaning.{
  any_built, all_met, any_met, is_accept_kind, build_rules-meaning, wallet_build_rules-meaning,
}
use guardian_wallet.Tests.Samples.{numbers, host, context, alice, bob, document_of}

abbrev form : FormValues ℕ
form evm_address_blocked = record no_fields { addresses = some (alice ∷ []) }
form _ = record no_fields { addresses = some (bob ∷ []); max_per_hour = some 10 }

abbrev chosen : EnabledMap
chosen evm_address = true
chosen evm_address_blocked = true
chosen rate_limit = true
chosen _ = false

abbrev to_known : Criterion ℕ
to_known = Criterion.evm_address is_in (bob ∷ []) (some false)

abbrev not_blocked : Criterion ℕ
not_blocked = Criterion.evm_address not_in (alice ∷ []) none

abbrev app_rules : List (PolicyRule ℕ)
app_rules =
    record {
      action = accept;
      criteria = to_known ∷ not_blocked ∷ Criterion.rate_limit 10 ∷ [];
      description = none;
      enabled = none;
    }
    ∷ []

abbrev wallet_rules : List (PolicyRule ℕ)
wallet_rules =
    record { action = reject; criteria = not_blocked ∷ []; description = none; enabled = none }
    ∷ record {
      action = accept;
      criteria = to_known ∷ Criterion.rate_limit 10 ∷ [];
      description = none;
      enabled = none;
    }
    ∷ []

app_builds : build_rules form chosen ≡ ok app_rules
unfolding build_rules collect to_criterion
app_builds = refl

wallet_builds : wallet_build_rules form chosen ≡ ok wallet_rules
unfolding wallet_build_rules split_criteria to_criterion
wallet_builds = refl

build_rules-parse_form_values_example :
    build_rules (parse_form_values app_rules).values (parse_form_values app_rules).enabled
    ≡ ok app_rules
build_rules-parse_form_values_example =
    build_rules-parse_form_values form chosen app_rules app_builds

build_rules-meaning_example :
    (evaluate host context 1 (some (document_of app_rules))).allowed
    ≡ (any_built chosen (λ _. true) catalog && all_met host context form chosen (λ _. true) catalog)
build_rules-meaning_example =
    build_rules-meaning host context form chosen 1 (document_of app_rules) app_builds

wallet_build_rules-meaning_example :
    (evaluate host context 1 (some (document_of wallet_rules))).allowed ≡ (
      not (any_met host context form chosen is_reject_kind catalog)
      && (any_built chosen is_accept_kind catalog
          && all_met host context form chosen is_accept_kind catalog))
wallet_build_rules-meaning_example =
    wallet_build_rules-meaning host context form chosen 1 (document_of wallet_rules) wallet_builds

to_criterion-until_midnight_example :
    (validate {F = ℕ} time_window (until_midnight 18) ≡ none)
    × (to_criterion {F = ℕ} time_window (until_midnight 18) ≡ ok (Criterion.time_window 18 23))
    × (evaluate_criterion host (Criterion.time_window 23 23) context ≡ true)
to_criterion-until_midnight_example =
    to_criterion-until_midnight host context 18 (omega arith) (omega arith)
