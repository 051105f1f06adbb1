-- ===== src/Tests/Documents.antt =====
-- The validation of policy documents at a concrete document.
use guardian_wallet.Prelude.{
  ◌≡◌, refl, true, none, some, List, ℕ, [], ◌∷◌, codes, text_eq, Text, ◌++◌, slice_from, arith,
}
use guardian_wallet.Policy.Types.{
  accept, time_window, eth_value, daily_limit, evm_function, evm_address, is_in, le,
}
use guardian_wallet.Policy.Numerals.{natural, digits_from}
use guardian_wallet.Policy.Document.{
  SubmittedRule, validate_present, Checksum, valid, validate_rules, validate_rules_from,
  validate_rule, validate_criteria, validate_criterion, checked_addresses, checked_selectors,
  is_selector,
}
use guardian_wallet.Policy.Document.Nulls.{validate_rules-nulls}
use guardian_wallet.Tests.Samples.{numbers}

abbrev checksum : Checksum
checksum = record { is_address = λ s. true; get_address = λ s. s }

abbrev small_transfers : SubmittedRule ℕ
small_transfers = record {
  action = accept;
  criteria =
      some (eth_value le (codes "1000"))
      ∷ none
      ∷ some (time_window 22 6)
      ∷ some (daily_limit (codes "5000"))
      ∷ some (evm_function (codes "0xa9059cbb" ∷ []) (some true))
      ∷ [];
  description = none;
  enabled = some true;
}

-- An accept rule that passes with no criterion to decide by.
abbrev only_null : SubmittedRule ℕ
only_null = record { action = accept; criteria = none ∷ []; description = none; enabled = none }

validate_rules-nulls_example : validate_rules checksum (only_null ∷ []) ≡ valid (only_null ∷ [])
validate_rules-nulls_example =
    validate_rules-nulls checksum (only_null ∷ []) ((omega arith, (tt, tt)), tt)

abbrev document_rules : List (SubmittedRule ℕ)
document_rules = only_null ∷ small_transfers ∷ []

-- Writes the prefix of an address in lower case.
abbrev lower_prefix : Checksum
lower_prefix = record { is_address = λ s. true; get_address = λ s. codes "0x" ++ slice_from 2 s }

abbrev to_address : Text → List (SubmittedRule ℕ)
to_address address =
    record {
      action = accept;
      criteria = some (evm_address is_in (address ∷ []) none) ∷ [];
      description = none;
      enabled = none;
    }
    ∷ small_transfers
    ∷ []

is_rewritten :
    validate_rules lower_prefix (to_address (codes "0Xb0b")) ≡ valid (to_address (codes "0xb0b"))
unfolding validate_rules validate_rules_from validate_rule validate_criteria validate_present
    validate_criterion checked_addresses checked_selectors is_selector natural digits_from text_eq
is_rewritten = refl
