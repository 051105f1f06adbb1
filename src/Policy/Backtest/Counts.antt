-- ===== src/Policy/Backtest/Counts.antt =====
-- The counts of a backtest.
use guardian_wallet.Prelude.{ℕ, ◌+◌, ◌≤◌, ◌≡◌, refl, List, [], ◌∷◌, length, or_else, arith}
use guardian_wallet.Policy.Types.{Number, PolicyRule}
use guardian_wallet.Policy.Criteria.{Host}
use guardian_wallet.Policy.Engine.Monotone.{IsStricter, evaluate_rules_mono}
use guardian_wallet.Policy.Backtest.{
  PastRequest, place, oldest_first, replay, backtest, request_to_context,
}

module _ {F : Type 0} where
  length-place :
      (r : PastRequest F) (rs : List (PastRequest F)) → length (place r rs) ≡ length rs + 1
  unfolding place
  length-place r [] = omega arith
  length-place r (q ∷ qs) = ground (arith, length-place r qs)

  length-oldest_first : (rs : List (PastRequest F)) → length (oldest_first rs) ≡ length rs
  unfolding oldest_first
  length-oldest_first [] = refl
  length-oldest_first (r ∷ rs) =
      omega (arith, length-place r (oldest_first rs), length-oldest_first rs)

module _ {F : Type 0} ⦃num : Number F⦄ (host : Host) where
  pub length-replay :
      (rules : List (PolicyRule F)) (rs : List (PastRequest F)) (wei : ℕ) (usd : F) (count : ℕ)
      → length (replay host rules rs wei usd count) ≤ length rs
  unfolding replay
  length-replay rules [] wei usd count = omega arith
  length-replay rules (r ∷ rs) wei usd count = ground (
    arith,
    length-replay rules rs (wei + or_else r.value_wei 0)
        (num.add usd (or_else r.value_usd num.zero)) (count + 1),
  )

  replay_mono :
      {new old : List (PolicyRule F)} (rs : List (PastRequest F)) (wei : ℕ) (usd : F) (count : ℕ)
      → IsStricter new old
      → length (replay host old rs wei usd count) ≤ length (replay host new rs wei usd count)
  unfolding replay
  replay_mono [] wei usd count s = omega arith
  replay_mono {new} {old} (r ∷ rs) wei usd count s = ground (
    arith,
    replay_mono rs (wei + or_else r.value_wei 0) (num.add usd (or_else r.value_usd num.zero))
        (count + 1) s,
    evaluate_rules_mono host (request_to_context r wei usd count) [] 0 {new = new} {old = old} s,
  )

  -- A backtest counts each request once, as passed or as blocked; and rules that are stricter than others
  -- block at least as many of the same requests.
  pub backtest_mono :
      {new old : List (PolicyRule F)} (requests : List (PastRequest F))
      → IsStricter new old
      → ((backtest host new requests).would_pass + (backtest host new requests).would_block
          ≡ (backtest host new requests).total_analyzed)
        × ((backtest host old requests).would_block ≤ (backtest host new requests).would_block)
  unfolding backtest
  backtest_mono {new} {old} requests s = (
    omega (
      arith,
      length-replay new (oldest_first requests) 0 num.zero 0,
      length-oldest_first requests,
    ),
    replay_mono (oldest_first requests) 0 num.zero 0 s,
  )
