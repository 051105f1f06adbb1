-- ===== src/Signing/Populate.antt =====
-- `populateTransaction`: nonce, gas and fees that the caller left out are asked of the chain.
use guardian_wallet.Prelude.{
  ℕ, ◌*◌, ◌/◌, Bool, true, false, ◌&&◌, ◌||◌, Option, none, some, [], ◌∷◌, ◌++◌, if◌then◌else◌,
  ◌==◌, Text, slice_to, codes,
}
use guardian_wallet.Prelude.Effects.{
  Exception, bad_request, forbidden, not_found, conflict, gone, too_many_requests,
  service_unavailable, internal, blocked, failure, Reply, returns, rejects, M, ◌>>=◌, return, throw,
}
use guardian_wallet.Signing.Types.{TransactionRequest}

pub record Fees : Type 0 where
  pub max_fee_per_gas : ℕ
  pub max_priority_fee_per_gas : ℕ

-- What the chain answers, if it is asked.
pub record ChainReplies : Type 0 where
  pub chain_id : ℕ
  pub get_nonce : Reply ℕ
  pub estimate_gas : Reply ℕ
  pub estimate_fees_per_gas : Reply Fees

abbrev pub error_message : Exception → Text
error_message (bad_request t) = t
error_message (forbidden t) = t
error_message (not_found t) = t
error_message (conflict t) = t
error_message (gone t) = t
error_message (too_many_requests t) = t
error_message (service_unavailable t) = t
error_message (internal t) = t
error_message (blocked t v) = t
error_message (failure t) = t

unfoldable pub is_prefix : Text → Text → Bool
is_prefix [] s = true
is_prefix (c ∷ p) [] = false
is_prefix (c ∷ p) (d ∷ s) = c == d && is_prefix p s

-- `s.includes(part)`
unfoldable pub contains : Text → Text → Bool
unfolding is_prefix
contains part [] = is_prefix part []
contains part (c ∷ s) = is_prefix part (c ∷ s) || contains part s

-- `!x` on an optional amount: undefined or 0.
abbrev pub is_unset : Option ℕ → Bool
is_unset none = true
is_unset (some n) = n == 0

unfoldable pub nonce_of : {S : Type 0} → TransactionRequest → ChainReplies → M S ℕ
nonce_of tx chain = elim tx.nonce [
  | some n ↦ return n
  | none ↦ elim chain.get_nonce [
    | returns n ↦ return n
    | rejects e ↦ throw (bad_request (codes "Failed to fetch nonce: " ++ error_message e))
  ]
]

-- The errors keep at most 200 characters of the message.
unfoldable pub gas_error : Text → Exception
gas_error message_text =
    if contains (codes "exceeds the balance") message_text
    then bad_request (codes "Insufficient balance to cover gas + value")
    else if contains (codes "execution reverted") message_text
    then bad_request (codes "Transaction would revert: " ++ slice_to 200 message_text)
    else bad_request (codes "Gas estimation failed: " ++ slice_to 200 message_text)

abbrev pub gas_limit_buffer : ℕ
gas_limit_buffer = 120

unfoldable pub gas_limit_of : {S : Type 0} → TransactionRequest → ChainReplies → M S (Option ℕ)
gas_limit_of tx chain =
    if is_unset tx.gas_limit
    then elim chain.estimate_gas [
      | returns estimated ↦ return (some (estimated * gas_limit_buffer / 100))
      | rejects e ↦ throw (gas_error (error_message e))
    ]
    else return tx.gas_limit

-- `maxFeePerGas` and `maxPriorityFeePerGas`.
unfoldable pub fees_of :
    {S : Type 0} → TransactionRequest → ChainReplies → M S (Option ℕ × Option ℕ)
fees_of tx chain =
    if is_unset tx.max_fee_per_gas && is_unset tx.gas_price
    then elim chain.estimate_fees_per_gas [
      | returns f ↦ return (some f.max_fee_per_gas, some f.max_priority_fee_per_gas)
      | rejects e ↦ throw (bad_request (codes "Failed to estimate gas fees: " ++ error_message e))
    ]
    else return (tx.max_fee_per_gas, tx.max_priority_fee_per_gas)

-- `tx.chainId || chain.chainId`
abbrev pub chain_id_of : TransactionRequest → ChainReplies → ℕ
chain_id_of tx chain = if tx.chain_id == 0 then chain.chain_id else tx.chain_id

unfoldable pub populate_transaction :
    {S : Type 0} → TransactionRequest → ChainReplies → M S TransactionRequest
populate_transaction tx chain = do
  n ← nonce_of tx chain
  gas ← gas_limit_of tx chain
  fees ← fees_of tx chain
  return (record tx {
    chain_id = chain_id_of tx chain;
    nonce = some n;
    gas_limit = gas;
    max_fee_per_gas = fees.0;
    max_priority_fee_per_gas = fees.1;
  })
