-- ===== src/Policy/Backtest/Order.antt =====
-- The order of the requests in a backtest, and what each one is judged by.
use mathlib.Core.List.{Perm}
use mathlib.Core.List.Perm
use guardian_wallet.Prelude.{
  ℕ, ◌+◌, ◌≤◌, ◌≡◌, true, false, List, [], ◌∷◌, ◌++◌, length, or_else, All, arith,
}
use guardian_wallet.Policy.Types.{Number, PolicyRule, PolicyResult}
use guardian_wallet.Policy.Criteria.{Host}
use guardian_wallet.Policy.Engine.{evaluate_rules}
use guardian_wallet.Policy.Backtest.{
  PastRequest, BacktestBlockedRequest, blocked_request, request_to_context,
}

module _ {F : Type 0} where
  -- No request is later than one behind it.
  abbrev pub IsOldestFirst : List (PastRequest F) → Type 0
  IsOldestFirst [] = Unit
  IsOldestFirst (r ∷ rs) = All (λ q. r.created_at ≤ q.created_at) rs × IsOldestFirst rs

  later :
      (t u : ℕ) (rs : List (PastRequest F))
      → t ≤ u
      → All (λ q. u ≤ q.created_at) rs
      → All (λ q. t ≤ q.created_at) rs
  later t u [] l h = tt
  later t u (r ∷ rs) l h = (omega (arith, h.0), later t u rs l h.1)

module _ {F : Type 0} ⦃num : Number F⦄ where
  -- What is spent after some requests.
  abbrev pub spent_wei : ℕ → List (PastRequest F) → ℕ
  spent_wei wei [] = wei
  spent_wei wei (r ∷ rs) = spent_wei (wei + or_else r.value_wei 0) rs

  abbrev pub spent_usd : F → List (PastRequest F) → F
  spent_usd usd [] = usd
  spent_usd usd (r ∷ rs) = spent_usd (num.add usd (or_else r.value_usd num.zero)) rs

module _ {F : Type 0} ⦃num : Number F⦄ (host : Host) (rules : List (PolicyRule F)) where
  abbrev pub verdict : PastRequest F → ℕ → F → ℕ → PolicyResult F
  verdict r wei usd count = evaluate_rules host (request_to_context r wei usd count) [] 0 rules

  -- After what is listed before it, a request is listed with the reasons if the rules deny it after what was
  -- spent and counted; else it is not. What comes later is at most one for each request behind it.
  pub record IsJudged (earlier : List (BacktestBlockedRequest F)) (r : PastRequest F)
      (behind : List (PastRequest F)) (wei : ℕ) (usd : F) (count : ℕ)
      (blocked : List (BacktestBlockedRequest F)) : Type 0 where
    pub later : List (BacktestBlockedRequest F)
    pub later_few : length later ≤ length behind
    pub allowed : (verdict r wei usd count).allowed ≡ true → blocked ≡ earlier ++ later
    pub denied :
        (verdict r wei usd count).allowed ≡ false
        → blocked ≡ earlier ++ blocked_request r (verdict r wei usd count).violations ∷ later
