-- ===== src/Policy/Criteria/Window.antt =====
-- What the limits and the time window let through.
use guardian_wallet.Prelude.{
  ℕ, ◌+◌, ◌-◌, ◌%◌, ◌<◌, ◌≡◌, refl, ◌↔◌, ◌⊎◌, true, false, Option, none, some, Text, arith,
}
use guardian_wallet.Prelude.Int.{ℤ, ◌+ℤ◌, ◌≤ℤ◌}
use guardian_wallet.Policy.Types.{
  Number, PolicyContext, daily_limit, monthly_limit, max_per_tx_usd, daily_limit_usd,
  monthly_limit_usd, time_window,
}
use guardian_wallet.Policy.Numerals.{safe_big_int}
use guardian_wallet.Policy.Criteria.{Host, or_false, evaluate_criterion}
use guardian_wallet.Policy.Criteria.Limits.{
  at_most, daily_limit_evaluate, monthly_limit_evaluate, time_window_evaluate,
  max_per_tx_usd_evaluate, daily_limit_usd_evaluate, monthly_limit_usd_evaluate,
}

at_most_iff :
    (total : ℤ) (o : Option ℤ)
    → (or_false (at_most total o) ≡ true) ↔ ((limit : ℤ) × (o ≡ some limit) × (total ≤ℤ limit))
unfolding at_most
at_most_iff total none = ((λ e. cc), (λ w. cc (w.1)))
at_most_iff total (some limit) =
    ((λ e. (limit, refl, ground arith)), (λ w. ground (arith, w.1, w.2)))

module _ {F : Type 0} ⦃num : Number F⦄ (host : Host) (ctx : PolicyContext F) where
  -- For hours of a day, the window holds exactly the hours that come fewer steps after the start
  -- than the end does, counted round the clock; equal ends are the whole day.
  pub time_window_round_the_clock :
      (start_hour end_hour : ℕ)
      → ctx.current_hour_utc < 24
      → start_hour < 24
      → end_hour < 24
      → (evaluate_criterion host (time_window start_hour end_hour) ctx ≡ true) ↔ (
          (start_hour ≡ end_hour)
          ⊎ ((ctx.current_hour_utc + 24 - start_hour) % 24 < (end_hour + 24 - start_hour) % 24))
  unfolding evaluate_criterion time_window_evaluate
  time_window_round_the_clock start_hour end_hour h k l = ground arith

  -- A daily limit is met exactly when its text is a whole number and the spend of the last day with
  -- this transaction does not exceed it; a text that is no number blocks.
  pub daily_limit_iff :
      (max_wei : Text)
      → (evaluate_criterion host (daily_limit max_wei) ctx ≡ true) ↔ (
          (limit : ℤ) × (safe_big_int max_wei ≡ some limit)
          × (ctx.rolling_daily_spend_wei +ℤ ctx.value_wei ≤ℤ limit))
  unfolding evaluate_criterion daily_limit_evaluate
  daily_limit_iff max_wei =
      at_most_iff (ctx.rolling_daily_spend_wei +ℤ ctx.value_wei) (safe_big_int max_wei)

  -- The same of a monthly limit and the spend of the last thirty days.
  pub monthly_limit_iff :
      (max_wei : Text)
      → (evaluate_criterion host (monthly_limit max_wei) ctx ≡ true) ↔ (
          (limit : ℤ) × (safe_big_int max_wei ≡ some limit)
          × (ctx.rolling_monthly_spend_wei +ℤ ctx.value_wei ≤ℤ limit))
  unfolding evaluate_criterion monthly_limit_evaluate
  monthly_limit_iff max_wei =
      at_most_iff (ctx.rolling_monthly_spend_wei +ℤ ctx.value_wei) (safe_big_int max_wei)

  -- Without a price no criterion on USD is met, whatever its limit.
  pub usd_fail_closed :
      (max_usd : F)
      → ctx.value_usd ≡ none
      → (evaluate_criterion host (max_per_tx_usd max_usd) ctx ≡ false)
        × (evaluate_criterion host (daily_limit_usd max_usd) ctx ≡ false)
        × (evaluate_criterion host (monthly_limit_usd max_usd) ctx ≡ false)
  unfolding evaluate_criterion max_per_tx_usd_evaluate daily_limit_usd_evaluate
      monthly_limit_usd_evaluate
  usd_fail_closed max_usd h = ground arith
