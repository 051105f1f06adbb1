-- ===== src/Tests/Prices.antt =====
-- The theorems on outflows, prices and backtests at concrete inputs.
use guardian_wallet.Prelude.{
  ◌++◌, List, ℕ, ◌*◌, ◌^◌, ◌≡◌, ◌++◌, refl, true, none, some, List, [], ◌∷◌, codes, text_eq, Option,
}
use guardian_wallet.Prelude.Dict.{lookup}
use guardian_wallet.Prelude.Effects.{Reply, returns, rejects, failure}
use guardian_wallet.Policy.Types.{max_per_tx_usd, PolicyRule}
use guardian_wallet.Policy.Criteria.{evaluate_criterion}
use guardian_wallet.Policy.Backtest.{PastRequest}
use guardian_wallet.Transfers.{transfer_selector}
use guardian_wallet.Transfers.Outflows.{PriceOracle, Transfer, TransactionOutflows, decode}
use guardian_wallet.Transfers.Outflows.Pricing.{HasNoPrices, decode_unpriced}
use guardian_wallet.Transfers.Oracle.{Cache, get_price_with_cache}
use guardian_wallet.Tests.Samples.{
  numbers, host, context, decoder, alice, bob, one_ether, to_bob, switched_off,
}

abbrev no_prices : PriceOracle ℕ
no_prices = record {
  get_native_price = λ chain_id. returns none;
  get_token_price = λ chain_id token. returns none;
}

no_prices-HasNoPrices : HasNoPrices no_prices
no_prices-HasNoPrices = record { native = λ chain_id. refl; token = λ chain_id t. refl }

-- Ten thousand ether, with a limit of one dollar.
abbrev fortune : Transfer
fortune = record { value = some (10000 * one_ether); calldata = none; to = some bob; chain_id = 1 }

decode_unpriced_example :
    (out : TransactionOutflows ℕ) × (decode decoder fortune no_prices ≡ returns out)
    × (out.total_usd ≡ numbers.zero)
    × (evaluate_criterion host
          (max_per_tx_usd 1)
          (record context { value_usd = some out.total_usd })
        ≡ true)
decode_unpriced_example =
    decode_unpriced no_prices decoder fortune host context 1 no_prices-HasNoPrices refl refl

abbrev prices : PriceOracle ℕ
prices = record {
  get_native_price = λ chain_id. returns (some 3000);
  get_token_price = λ chain_id token. returns (some 1);
}

abbrev token_transfer : Transfer
token_transfer = record {
  value = none;
  calldata = some (transfer_selector ++ codes "00ff");
  to = some alice;
  chain_id = 1;
}

abbrev reported : TransactionOutflows ℕ
reported = record {
  outflows = record { token = alice; amount = 2 ^ 200; usd_value = some (2 ^ 200) } ∷ [];
  total_usd = 2 ^ 200;
  transfer_recipient = some bob;
}

abbrev past : ℕ → PastRequest ℕ
past time = record {
  id = codes "request";
  to_address = some bob;
  value_wei = some one_ether;
  value_usd = none;
  chain_id = some 1;
  tx_data = none;
  decoded_action = none;
  created_at = time;
  hour_utc = 12;
}

abbrev old_rules : List (PolicyRule ℕ)
old_rules = to_bob ∷ []

abbrev new_rules : List (PolicyRule ℕ)
new_rules = switched_off ∷ to_bob ∷ []

abbrev requests : List (PastRequest ℕ)
requests = past 2000 ∷ past 1000 ∷ []

-- A price of 20 minutes ago, and a service that does not answer.
abbrev cache : Cache ℕ
cache = (codes "native:ethereum", record { price = 3000; fetched_at = 1000000 }) ∷ []

abbrev no_answer : Reply (Option ℕ)
no_answer = rejects (failure (codes "timeout"))

stale_price : (get_price_with_cache (codes "native:ethereum") no_answer 2200000 cache).0 ≡ some 3000
unfolding get_price_with_cache lookup text_eq
stale_price = refl
