-- ===== src/Policy/Backtest.antt =====
-- Draft rules against past requests: packages/server/src/policies/policy-backtest.service.ts. The requests
-- that the repository finds are an argument.
pub mod Counts
pub mod Order
use guardian_wallet.Prelude.{
  ℕ, ◌+◌, ◌-◌, Option, none, some, List, [], ◌∷◌, map, Bool, true, false, if◌then◌else◌, leb, Text,
  length, or_else,
}
use guardian_wallet.Prelude.Int.{ℤ, pos}
use guardian_wallet.Policy.Types.{Number, PolicyRule, PolicyContext, PolicyResult, PolicyViolation}
use guardian_wallet.Policy.Criteria.{Host}
use guardian_wallet.Policy.Engine.{evaluate_rules}

-- A row of the audit log as the backtest reads it; `value_wei` is the number that its text stands for, and
-- `hour_utc` the hour of `created_at`.
pub record PastRequest (F : Type 0) : Type 0 where
  pub id : Text
  pub to_address : Option Text
  pub value_wei : Option ℕ
  pub value_usd : Option F
  pub chain_id : Option ℕ
  pub tx_data : Option Text
  pub decoded_action : Option Text
  pub created_at : ℕ
  pub hour_utc : ℕ

pub record BacktestBlockedRequest (F : Type 0) : Type 0 where
  pub request_id : Text
  pub to_address : Option Text
  pub value_wei : Option ℕ
  pub value_usd : Option F
  pub decoded_action : Option Text
  pub created_at : ℕ
  pub reasons : List Text

pub record BacktestResult (F : Type 0) : Type 0 where
  pub total_analyzed : ℕ
  pub would_pass : ℕ
  pub would_block : ℕ
  pub blocked_requests : List (BacktestBlockedRequest F)

module _ {F : Type 0} where
  -- The sort by time, which keeps the order of requests of the same time.
  unfoldable pub place : PastRequest F → List (PastRequest F) → List (PastRequest F)
  place r [] = r ∷ []
  place r (q ∷ qs) =
      let rest = place r qs in if leb r.created_at q.created_at then r ∷ q ∷ qs else q ∷ rest

  unfoldable pub oldest_first : List (PastRequest F) → List (PastRequest F)
  oldest_first [] = []
  oldest_first (r ∷ rs) = place r (oldest_first rs)

  abbrev pub blocked_request : PastRequest F → List (PolicyViolation F) → BacktestBlockedRequest F
  blocked_request r violations = record {
    request_id = r.id;
    to_address = r.to_address;
    value_wei = r.value_wei;
    value_usd = r.value_usd;
    decoded_action = r.decoded_action;
    created_at = r.created_at;
    reasons = map (λ v. v.reason) violations;
  }

  unfoldable pub request_to_context : PastRequest F → ℕ → F → ℕ → PolicyContext F
  request_to_context r spend_wei spend_usd count = record {
    signer_address = [];
    to_address = r.to_address;
    value_wei = pos (or_else r.value_wei 0);
    function_selector = none;
    chain_id = or_else r.chain_id 1;
    rolling_daily_spend_wei = pos spend_wei;
    rolling_monthly_spend_wei = pos spend_wei;
    request_count_last_hour = count;
    request_count_today = count;
    current_hour_utc = r.hour_utc;
    timestamp = r.created_at;
    tx_data = r.tx_data;
    caller_ip = none;
    value_usd = r.value_usd;
    rolling_daily_spend_usd = some spend_usd;
    rolling_monthly_spend_usd = some spend_usd;
    transfer_recipient = none;
  }

module _ {F : Type 0} ⦃num : Number F⦄ (host : Host) (draft_rules : List (PolicyRule F)) where
  -- The loop over the requests, with the spend and the count of those before.
  unfoldable pub replay : List (PastRequest F) → ℕ → F → ℕ → List (BacktestBlockedRequest F)
  replay [] spend_wei spend_usd count = []
  replay (r ∷ rs) spend_wei spend_usd count =
      let result =
        evaluate_rules host (request_to_context r spend_wei spend_usd count) [] 0 draft_rules in
      let rest =
        replay rs (spend_wei + or_else r.value_wei 0)
          (num.add spend_usd (or_else r.value_usd num.zero)) (count + 1) in
      if result.allowed then rest else blocked_request r result.violations ∷ rest

  unfoldable pub backtest : List (PastRequest F) → BacktestResult F
  backtest requests =
      let blocked = replay (oldest_first requests) 0 num.zero 0 in
      record {
        total_analyzed = length requests;
        would_pass = length requests - length blocked;
        would_block = length blocked;
        blocked_requests = blocked;
      }
