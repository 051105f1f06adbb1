-- ===== src/Policy/Document/Validity.antt =====
-- What a policy document that passes validation is, for the rules engine that reads it later.
use guardian_wallet.Prelude.{
  ℕ, ◌≡◌, ◌≤◌, refl, ◌≢◌, true, false, Option, none, some, List, [], ◌∷◌, All, length, arith,
}
use guardian_wallet.Policy.Types.{
  Number, Criterion, eth_value, evm_address, evm_network, evm_function, ip_address, rate_limit,
  time_window, daily_limit, monthly_limit, max_per_tx_usd, daily_limit_usd, monthly_limit_usd,
  block_infinite_approvals, max_slippage, mev_protection, RuleAction, accept, reject, PolicyContext,
}
use guardian_wallet.Policy.Criteria.Limits.{
  eth_value_evaluate, daily_limit_evaluate, monthly_limit_evaluate, rate_limit_evaluate,
  time_window_evaluate, max_per_tx_usd_evaluate,
}
use guardian_wallet.Policy.Document.{
  SubmittedRule, Checked, valid, invalid, on_valid, is_empty_accept,
}

-- A condition on what is saved, which an exception meets.
unfoldable pub OnSaved : {A : Type 0} → (A → Type 0) → Checked A → Type 0
OnSaved P (valid a) = P a
OnSaved P (invalid e) = Unit

pub on_valid-OnSaved :
    {A B : Type 0} (P : A → Type 0) (Q : B → Type 0) (m : Checked A) (f : A → Checked B)
    → OnSaved P m
    → ((a : A) → P a → OnSaved Q (f a))
    → OnSaved Q (on_valid m f)
unfolding OnSaved
on_valid-OnSaved P Q (valid a) f h k = k a h
on_valid-OnSaved P Q (invalid e) f h k = tt

module _ {A : Type 0} where
  pub is_empty_accept-length :
      (action : RuleAction) (cs ds : List A)
      → length ds ≡ length cs
      → is_empty_accept action ds ≡ is_empty_accept action cs
  is_empty_accept-length accept [] [] h = refl
  is_empty_accept-length reject [] [] h = refl
  is_empty_accept-length _ [] (d ∷ ds) h = ground arith
  is_empty_accept-length _ (c ∷ cs) [] h = ground arith
  is_empty_accept-length accept (c ∷ cs) (d ∷ ds) h = refl
  is_empty_accept-length reject (c ∷ cs) (d ∷ ds) h = refl

module _ {F : Type 0} ⦃num : Number F⦄ (ctx : PolicyContext F) where
  -- The evaluator of a limit in wei does not throw; and a rate limit, a limit in USD for a transaction and a
  -- window each let something pass: the first request of an hour, a transaction that is worth nothing, and
  -- a request at some hour of the day.
  abbrev pub IsUsable : Criterion F → Type 0
  IsUsable (eth_value operator value) = eth_value_evaluate operator value ctx ≢ none
  IsUsable (evm_address _ _ _) = Unit
  IsUsable (evm_network _ _) = Unit
  IsUsable (evm_function _ _) = Unit
  IsUsable (ip_address _ _) = Unit
  IsUsable (rate_limit max_per_hour) =
      rate_limit_evaluate max_per_hour (record ctx { request_count_last_hour = 0 }) ≡ true
  IsUsable (time_window start_hour end_hour) =
      (hour : ℕ) × (hour ≤ 23)
      × (time_window_evaluate start_hour end_hour (record ctx { current_hour_utc = hour }) ≡ true)
  IsUsable (daily_limit max_wei) = daily_limit_evaluate max_wei ctx ≢ none
  IsUsable (monthly_limit max_wei) = monthly_limit_evaluate max_wei ctx ≢ none
  IsUsable (max_per_tx_usd max_usd) =
      max_per_tx_usd_evaluate max_usd (record ctx { value_usd = some num.zero }) ≡ true
  IsUsable (daily_limit_usd _) = Unit
  IsUsable (monthly_limit_usd _) = Unit
  IsUsable (block_infinite_approvals _) = Unit
  IsUsable (max_slippage _) = Unit
  IsUsable (mev_protection _) = Unit

  abbrev pub IsUsableIf : Option (Criterion F) → Type 0
  IsUsableIf none = Unit
  IsUsableIf (some c) = IsUsable c

  IsSavedFor : List (Option (Criterion F)) → List (Option (Criterion F)) → Type 0
  IsSavedFor cs saved = All IsUsableIf saved × (length saved ≡ length cs)

  -- An accept rule has an entry among its criteria, and every criterion that is not null is usable.
  pub record IsSound (r : SubmittedRule F) : Type 0 where
    pub has_entry : is_empty_accept r.action r.criteria ≡ false
    pub usable : All IsUsableIf r.criteria
