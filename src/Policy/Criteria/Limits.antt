-- ===== src/Policy/Criteria/Limits.antt =====
-- The criteria on amounts, counts and hours: eth-value, daily-limit, monthly-limit, max-per-tx-usd,
-- daily-limit-usd, monthly-limit-usd, rate-limit and time-window of policies/evaluators.
-- `none` is a thrown error, which the dispatcher catches.
use guardian_wallet.Prelude.{
  ℕ, Bool, true, false, ◌&&◌, ◌||◌, Option, none, some, leb, ltb, ◌==◌, if◌then◌else◌, Text,
}
use guardian_wallet.Prelude.Int.{ℤ, ◌+ℤ◌, leb_ℤ}
use guardian_wallet.Policy.Types.{Number, ComparisonOperator, PolicyContext}
use guardian_wallet.Policy.Numerals.{safe_big_int, compare_values}

-- `total <= limit`, where the limit may have thrown.
unfoldable pub at_most : ℤ → Option ℤ → Option Bool
at_most total none = none
at_most total (some limit) = some (leb_ℤ total limit)

module _ {F : Type 0} where
  unfoldable pub eth_value_evaluate : ComparisonOperator → Text → PolicyContext F → Option Bool
  eth_value_evaluate operator value ctx = elim (safe_big_int value) [
    | none ↦ none
    | some limit ↦ some (compare_values ctx.value_wei operator limit)
  ]

  -- `spent + value <= safeBigInt(maxWei)`
  unfoldable pub within_wei : ℤ → PolicyContext F → Text → Option Bool
  unfolding at_most
  within_wei spent ctx max_wei = at_most (spent +ℤ ctx.value_wei) (safe_big_int max_wei)

  unfoldable pub daily_limit_evaluate : Text → PolicyContext F → Option Bool
  unfolding within_wei
  daily_limit_evaluate max_wei ctx = within_wei ctx.rolling_daily_spend_wei ctx max_wei

  unfoldable pub monthly_limit_evaluate : Text → PolicyContext F → Option Bool
  unfolding within_wei
  monthly_limit_evaluate max_wei ctx = within_wei ctx.rolling_monthly_spend_wei ctx max_wei

  unfoldable pub rate_limit_evaluate : ℕ → PolicyContext F → Bool
  rate_limit_evaluate max_per_hour ctx = ltb ctx.request_count_last_hour max_per_hour

  unfoldable pub time_window_evaluate : ℕ → ℕ → PolicyContext F → Bool
  time_window_evaluate start_hour end_hour ctx =
      let hour = ctx.current_hour_utc in
      if start_hour == end_hour
      then true
      else if ltb start_hour end_hour
      then leb start_hour hour && ltb hour end_hour
      else leb start_hour hour || ltb hour end_hour

module _ {F : Type 0} ⦃num : Number F⦄ where
  unfoldable pub max_per_tx_usd_evaluate : F → PolicyContext F → Bool
  max_per_tx_usd_evaluate max_usd ctx = elim ctx.value_usd [
    | none ↦ false
    | some value ↦ num.leb value max_usd
  ]

  -- `spent + value <= maxUsd`, and false where either is undefined.
  unfoldable pub within_usd : Option F → Option F → F → Bool
  within_usd none spent max_usd = false
  within_usd (some value) none max_usd = false
  within_usd (some value) (some spent) max_usd = num.leb (num.add spent value) max_usd

  unfoldable pub daily_limit_usd_evaluate : F → PolicyContext F → Bool
  unfolding within_usd
  daily_limit_usd_evaluate max_usd ctx =
      within_usd ctx.value_usd ctx.rolling_daily_spend_usd max_usd

  unfoldable pub monthly_limit_usd_evaluate : F → PolicyContext F → Bool
  unfolding within_usd
  monthly_limit_usd_evaluate max_usd ctx =
      within_usd ctx.value_usd ctx.rolling_monthly_spend_usd max_usd
