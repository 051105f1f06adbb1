-- ===== src/Builder/Catalog/Midnight.antt =====
-- The entry `timeWindow` of the catalog at the end hour 0.
use guardian_wallet.Prelude.{ℕ, ◌≡◌, refl, ◌≤◌, ◌<◌, true, none, some, arith}
use guardian_wallet.Prelude.Effects.{ok}
use guardian_wallet.Policy.Types.{Number, Criterion, PolicyContext}
use guardian_wallet.Policy.Criteria.{Host, evaluate_criterion}
use guardian_wallet.Policy.Criteria.Limits.{time_window_evaluate}
use guardian_wallet.Builder.Catalog.{Fields, no_fields, time_window, validate, to_criterion}

abbrev pub until_midnight : {F : Type 0} → ℕ → Fields F
until_midnight start = record no_fields { start_hour = some start; end_hour = some 0 }

module _ {F : Type 0} ⦃num : Number F⦄ (host : Host) (ctx : PolicyContext F) where
  -- Trading hours that end at midnight pass the validation of the form and are saved as hours that end at 23,
  -- whatever hour but 0 they start at; where they start at 23, the criterion that is saved holds at every hour.
  pub to_criterion-until_midnight :
      (start : ℕ)
      → 0 < start
      → start ≤ 23
      → (validate {F = F} time_window (until_midnight start) ≡ none)
        × (to_criterion {F = F} time_window (until_midnight start)
            ≡ ok (Criterion.time_window start 23))
        × (evaluate_criterion host (Criterion.time_window 23 23) ctx ≡ true)
  unfolding validate to_criterion evaluate_criterion time_window_evaluate
  to_criterion-until_midnight start h k = (ground arith, ground arith, refl)
