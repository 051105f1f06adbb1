-- ===== src/Policy/Criteria/Targets.antt =====
-- The criteria on where a transaction goes and who asks: evm-address, evm-network, evm-function and
-- ip-address of policies/evaluators.
use Prim.Native.Nat.{bit_and, bit_or}
use guardian_wallet.Prelude.{
  ℕ, ◌-◌, ◌*◌, ◌%◌, ◌^◌, Bool, true, false, not, ◌&&◌, ◌||◌, Option, none, some, List, [], ◌∷◌, map,
  ltb, ◌==◌, if◌then◌else◌, Text, text_eq, to_lower, includes, includes_code, split, truthy,
  is_empty, all, any, length,
}
use guardian_wallet.Prelude.Int.{ℤ, pos, negsuc}
use guardian_wallet.Policy.Types.{PolicyContext, SetOperator, is_in, not_in}
use guardian_wallet.Policy.Numerals.{parse_int}

abbrev pub is_listed : List ℕ → ℕ → Bool
is_listed ids x = any (λ y. y == x) ids

-- `flag === true`, and `flag !== false`.
abbrev pub is_true : Option Bool → Bool
is_true (some true) = true
is_true _ = false

abbrev pub is_not_false : Option Bool → Bool
is_not_false (some false) = false
is_not_false _ = true

abbrev pub null : {A : Type 0} → List A → Bool
null [] = true
null (_ ∷ _) = false

-- `operator === 'in'`
abbrev pub is_allowlist : SetOperator → Bool
is_allowlist is_in = true
is_allowlist not_in = false

-- The address of the transaction, and the recipient of the tokens if one was decoded.
unfoldable pub addresses_to_check : Text → Option Text → List Text
addresses_to_check to recipient = elim (truthy recipient) [
  | none ↦ to_lower to ∷ []
  | some r ↦ to_lower to ∷ to_lower r ∷ []
]

-- The test of the addresses, with the list in lower case.
unfoldable pub addresses_pass : SetOperator → List Text → List Text → Bool
addresses_pass is_in listed involved = all (λ a. includes listed a) involved
addresses_pass not_in listed involved = all (λ a. not (includes listed a)) involved

abbrev pub deploy_passes : SetOperator → Option Bool → Bool
deploy_passes is_in allow_deploy = is_true allow_deploy
deploy_passes not_in allow_deploy = true

module _ {F : Type 0} where
  unfoldable pub evm_address_evaluate :
      SetOperator → List Text → Option Bool → PolicyContext F → Bool
  evm_address_evaluate operator addresses allow_deploy ctx =
      if is_allowlist operator && null addresses then true else elim (truthy ctx.to_address) [
        | none ↦ deploy_passes operator allow_deploy
        | some to ↦
            addresses_pass operator (map to_lower addresses)
              (addresses_to_check to ctx.transfer_recipient)
      ]

  unfoldable pub evm_network_evaluate : SetOperator → List ℕ → PolicyContext F → Bool
  evm_network_evaluate operator chain_ids ctx =
      if is_allowlist operator && null chain_ids
      then true
      else let found = is_listed chain_ids ctx.chain_id in
        if is_allowlist operator then found else not found

  unfoldable pub evm_function_evaluate : List Text → Option Bool → PolicyContext F → Bool
  evm_function_evaluate selectors allow_plain_transfer ctx = elim (truthy ctx.function_selector) [
    | none ↦ is_not_false allow_plain_transfer
    | some selector ↦ any (λ s. text_eq (to_lower s) (to_lower selector)) selectors
  ]

-- The loop of `ipv4ToNum`: `num = (num << 8) | n` on 32 bits.
unfoldable pub octets_to_num : ℕ → List Text → Option ℕ
octets_to_num num [] = some num
octets_to_num num (part ∷ parts) = elim (parse_int part) [
  | none ↦ none
  | some (negsuc n) ↦ none
  | some (pos n) ↦
      let next = octets_to_num (bit_or (num * 256 % 2 ^ 32) n) parts in
      if ltb 255 n then none else next
]

unfoldable pub ipv4_to_num : Text → Option ℕ
unfolding octets_to_num
ipv4_to_num ip =
    let parts = split b'.' ip in if length parts == 4 then octets_to_num 0 parts else none

-- `prefix === 0 ? 0 : (~0 << (32 - prefix)) >>> 0`
unfoldable pub cidr_mask : ℕ → ℕ
cidr_mask bits = if bits == 0 then 0 else (2 ^ 32 - 1) * 2 ^ (32 - bits) % 2 ^ 32

-- The comparison under the mask; false where an address has no number.
unfoldable pub same_network : ℕ → Option ℕ → Option ℕ → Bool
same_network bits (some a) (some b) = bit_and a (cidr_mask bits) == bit_and b (cidr_mask bits)
same_network bits _ _ = false

module _ (is_ip : Text → ℕ) where
  -- `ipInCidr` from the prefix on.
  unfoldable pub in_range : Text → Text → Option ℤ → Bool
  in_range ip range none = false
  in_range ip range (some (negsuc n)) = false
  in_range ip range (some (pos bits)) =
      if ltb 32 bits
      then false
      else if is_ip ip == 4 && is_ip range == 4
      then same_network bits (ipv4_to_num ip) (ipv4_to_num range)
      else false

  -- `const [range, prefixStr] = cidr.split('/')`
  unfoldable pub in_cidr_parts : Text → List Text → Bool
  in_cidr_parts ip (range ∷ prefix_str ∷ more) =
      if is_empty range || is_empty prefix_str
      then false
      else in_range ip range (parse_int prefix_str)
  in_cidr_parts ip _ = false

  unfoldable pub ip_in_cidr : Text → Text → Bool
  unfolding in_cidr_parts
  ip_in_cidr ip cidr = in_cidr_parts ip (split b'/' cidr)

  unfoldable pub ip_matches : Text → Text → Bool
  ip_matches ip pattern_text =
      if includes_code b'/' pattern_text
      then ip_in_cidr ip pattern_text
      else text_eq ip pattern_text

  unfoldable pub ip_address_evaluate :
      {F : Type 0} → SetOperator → List Text → PolicyContext F → Bool
  ip_address_evaluate operator ips ctx =
      if is_allowlist operator && null ips then true else elim (truthy ctx.caller_ip) [
        | none ↦ false
        | some ip ↦
            let found = any (λ p. ip_matches ip p) ips in
            if is_allowlist operator then found else not found
      ]
