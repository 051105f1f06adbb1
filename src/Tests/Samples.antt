-- ===== src/Tests/Samples.antt =====
-- Inputs for the tests: whole numbers for the parameter that stands for JavaScript's fractions, a decoder
-- with fixed answers, one signer, its policy and its requests.
use guardian_wallet.Prelude.{
  ℕ, ◌+◌, ◌*◌, ◌^◌, true, false, not, leb, ◌==◌, none, some, List, [], ◌∷◌, Text, codes,
}
use guardian_wallet.Prelude.Int.{pos}
use guardian_wallet.Prelude.Effects.{returns, rejects, failure}
use guardian_wallet.Policy.Types.{
  Number, PolicyContext, PolicyDocument, PolicyRule, evm_address, time_window, is_in, accept,
  reject, rate_limit,
}
use guardian_wallet.Transfers.{Abi}
use guardian_wallet.Policy.Criteria.{Host}
use guardian_wallet.Signing.Types.{
  Signer, active, TransactionRequest, Service, signer_server, user_server, SessionState, TxPart, tx,
}
use guardian_wallet.Signing.Populate.{ChainReplies}
use guardian_wallet.Signing.Opening.{OpenReplies}
use guardian_wallet.Signing.Create.{
  CreateSessionInput, CreateMessageSessionInput, CreateReplies, MessageReplies, Windows,
}
use guardian_wallet.Signing.Rounds.{CompleteReplies, Signature}

instance abbrev pub numbers : Number ℕ
numbers = record {
  zero = 0;
  add = λ a b. a + b;
  mul = λ a b. a * b;
  leb = λ a b. leb a b;
  is_finite = λ a. true;
  is_nan = λ a. false;
  is_truthy = λ a. not (a == 0);
  of_ℕ = λ n. n;
  of_units = λ n d. n;
  hundredths = λ n. some (pos (n * 100));
  to_fixed_2 = λ n. n ∷ [];
  to_locale_string = λ n. n ∷ [];
  to_string = λ n. n ∷ [];
  int_to_string = λ n. n ∷ [];
}

abbrev pub alice : Text
alice = codes "0xA11CE00000000000000000000000000000000001"

abbrev pub bob : Text
bob = codes "0xb0b0000000000000000000000000000000000002"

abbrev pub decoder : Abi
decoder = record {
  address_uint256 = λ p. some (bob, 2 ^ 200);
  address_address_uint256 = λ p. some (alice, bob, 5);
  address_address_uint160_uint48 = λ p. some (alice, bob, 7, 9);
  address_bool = λ p. some (bob, true);
  uint256 = λ p. some 0;
  uint256_uint256 = λ p. some (1000, 990);
  exact_input_single = λ p. some (alice, bob, 3000, alice, 100, 5000, 200, 0);
  exact_input = λ p. none;
  is_address = λ p. true;
}

abbrev pub host : Host
host = record { abi = decoder; is_ip = λ s. 4 }

abbrev pub one_ether : ℕ
one_ether = 10 ^ 18

abbrev pub transaction : TransactionRequest
transaction = record {
  to = some bob;
  value = some one_ether;
  calldata = none;
  chain_id = 1;
  gas_limit = none;
  gas_price = none;
  max_fee_per_gas = none;
  max_priority_fee_per_gas = none;
  nonce = none;
}

-- 22:00 to 06:00, at 23:00.
abbrev pub context : PolicyContext ℕ
context = record {
  signer_address = alice;
  to_address = some bob;
  value_wei = pos one_ether;
  function_selector = none;
  chain_id = 1;
  rolling_daily_spend_wei = pos (2 * one_ether);
  rolling_monthly_spend_wei = pos (3 * one_ether);
  request_count_last_hour = 2;
  request_count_today = 4;
  current_hour_utc = 23;
  timestamp = 1700000000000;
  tx_data = none;
  caller_ip = none;
  value_usd = none;
  rolling_daily_spend_usd = none;
  rolling_monthly_spend_usd = none;
  transfer_recipient = none;
}

abbrev pub to_bob : PolicyRule ℕ
to_bob = record {
  action = accept;
  criteria = evm_address is_in (bob ∷ []) none ∷ rate_limit 10 ∷ [];
  description = some (codes "Pay Bob");
  enabled = none;
}

abbrev pub few_requests : PolicyRule ℕ
few_requests = record {
  action = accept;
  criteria = time_window 22 6 ∷ rate_limit 2 ∷ [];
  description = some (codes "Twice an hour");
  enabled = some true;
}

abbrev pub switched_off : PolicyRule ℕ
switched_off = record { action = reject; criteria = []; description = none; enabled = some false }

abbrev pub document_of : List (PolicyRule ℕ) → PolicyDocument ℕ
document_of rules = record {
  id = codes "policy-1";
  signer_id = codes "signer-1";
  description = none;
  rules = rules;
  version = 1;
  created_at = [];
  updated_at = [];
}

abbrev pub signer : Signer
signer = record {
  id = codes "signer-1";
  status = active;
  owner_id = codes "owner-1";
  eth_address = alice;
  vault_share_path = codes "signers/1";
}

abbrev pub opening_replies : OpenReplies
opening_replies = record {
  get_share = returns tt;
  parse = returns tt;
  extract_public_key = none;
  create_sign_session = λ h p w. returns (codes "scheme-1", codes "m1" ∷ []);
  process_first = λ m. returns (codes "m2" ∷ []);
  session_id = codes "session-1";
  eid = codes "eid-1";
  created_at = 1000;
  create_failed = returns tt;
}

abbrev pub chain : ChainReplies
chain = record {
  chain_id = 1;
  get_nonce = returns 5;
  estimate_gas = returns 21000;
  estimate_fees_per_gas = returns (record { max_fee_per_gas = 30; max_priority_fee_per_gas = 2 });
}

abbrev pub windows : Windows ℕ
windows = record {
  daily_spend = 0;
  monthly_spend = 0;
  requests_last_hour = 2;
  requests_today = 4;
  daily_usd = 0;
  monthly_usd = 0;
}

abbrev pub create_input : CreateSessionInput
create_input = record {
  signer_id = codes "signer-1";
  transaction = transaction;
  signing_path = none;
  caller_ip = none;
}

abbrev pub create_replies : PolicyDocument ℕ → CreateReplies ℕ
create_replies d = record {
  find_signer = returns (some signer);
  get_chain = returns chain;
  build_transaction = λ t. returns (codes "bytes");
  decode_transaction =
      λ b. returns (record { to = bob; function_selector = none; function_name = none });
  windows = returns windows;
  outflows = λ t d. rejects (failure []);
  now = 900;
  hour_utc = 23;
  find_document = returns (some d);
  evaluation_ms = 1;
  create_blocked = returns tt;
  keccak256 = λ b. codes "hash";
  opening = opening_replies;
}

abbrev pub message_input : CreateMessageSessionInput
message_input = record {
  signer_id = codes "signer-1";
  signer_first_message = some (codes "m0");
  message_hash = codes "hash";
  signing_path = some user_server;
  caller_ip = none;
}

abbrev pub message_replies : MessageReplies ℕ
message_replies = record {
  find_signer = returns (some signer);
  counts = returns (1, 1);
  now = 900;
  hour_utc = 23;
  find_document = returns none;
  evaluation_ms = 1;
  create_blocked = returns tt;
  opening = opening_replies;
}

abbrev pub part : TxPart
part = record {
  transaction = transaction;
  decoded_to = bob;
  decoded_function_name = none;
  message_hash = codes "hash";
}

abbrev pub session : SessionState
session = record {
  signer_id = codes "signer-1";
  eth_address = alice;
  owner_id = codes "owner-1";
  expected_public_key = [];
  signing_path = signer_server;
  key_buffer = 0;
  evaluated_count = 1;
  evaluation_time_ms = 1;
  scheme_session_id = codes "scheme-1";
  round = 0;
  created_at = 1000;
  kind = tx part;
}

abbrev pub one_session : Service ℕ
one_session = record {
  sessions = (codes "session-1", session) ∷ [];
  live_buffers = 0 ∷ [];
  parsed_buffers = [];
  next_buffer = 2;
  audit_log = [];
}

abbrev pub signed : CompleteReplies ℕ
signed = record {
  finalize_sign = returns (record { r = codes "r"; s = codes "s"; v = 27 });
  get_chain = returns tt;
  build_transaction = returns tt;
  broadcast_transaction = returns (codes "0xhash");
  usd = none;
  create_approved = returns tt;
  create_failed = returns tt;
}

abbrev pub json : Signature → Text
json sig = sig.r
