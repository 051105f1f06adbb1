-- ===== src/Policy/Criteria/Addresses.antt =====
-- Allowlists and blocklists of addresses.
use guardian_wallet.Prelude.{
  ◌≡◌, refl, ◌↔◌, ◌⊎◌, inl, inr, Option-cases, Bool, true, false, Option, some, List, [], ◌∷◌, map,
  Text, text_eq_iff, to_lower, includes, truthy, arith,
}
use guardian_wallet.Policy.Types.{Number, PolicyContext, evm_address, is_in, not_in}
use guardian_wallet.Policy.Criteria.{Host, evaluate_criterion}
use guardian_wallet.Policy.Criteria.Targets.{
  addresses_to_check, addresses_pass, evm_address_evaluate,
}

-- The address is in the list, in whatever case either is written.
abbrev pub IsListed : List Text → Text → Type 0
IsListed listed a = includes (map to_lower listed) (to_lower a) ≡ true

includes-IsListed : (listed : List Text) (a : Text) → includes listed a ≡ true → IsListed listed a
unfolding includes
includes-IsListed [] a h = cc
includes-IsListed (x ∷ xs) a h =
    ground (arith, text_eq_iff x a, text_eq_iff (to_lower x) (to_lower a), includes-IsListed xs a)

module _ {F : Type 0} ⦃num : Number F⦄ (host : Host) (ctx : PolicyContext F) where
  -- A non-empty allowlist lets a call pass exactly when it lists the destination, and the recipient
  -- of the tokens too where one was decoded, each in any letter case.
  pub evm_address-allowlist_iff :
      (listed : Text) (more : List Text) (allow_deploy : Option Bool) (to : Text)
      → truthy ctx.to_address ≡ some to
      → (evaluate_criterion host (evm_address is_in (listed ∷ more) allow_deploy) ctx ≡ true) ↔ (
          IsListed (listed ∷ more) to
          × ((r : Text) → truthy ctx.transfer_recipient ≡ some r → IsListed (listed ∷ more) r))
  unfolding evaluate_criterion evm_address_evaluate addresses_to_check addresses_pass
  evm_address-allowlist_iff listed more allow_deploy to h =
      elim (Option-cases (truthy ctx.transfer_recipient)) [
        | inl none_decoded ↦
            rw (h, none_decoded, addresses_to_check)
              ((λ e. (ground arith, λ r q. cc)), (λ w. ground arith))
        | inr (r, decoded) ↦
            rw (h, decoded, addresses_to_check)
              ((λ e. (ground arith, λ q same. ground arith)), (λ w. ground (arith, w.1 r refl)))
      ]

  -- A blocklist stops a call whose destination or decoded recipient it holds, in any letter case.
  pub evm_address-blocklist :
      (listed : List Text) (allow_deploy : Option Bool) (to a : Text)
      → truthy ctx.to_address ≡ some to
      → includes listed a ≡ true
      → (to_lower to ≡ to_lower a)
        ⊎ ((r : Text) × (truthy ctx.transfer_recipient ≡ some r) × (to_lower r ≡ to_lower a))
      → evaluate_criterion host (evm_address not_in listed allow_deploy) ctx ≡ false
  unfolding evaluate_criterion evm_address_evaluate addresses_to_check addresses_pass
  evm_address-blocklist listed allow_deploy to a h k e =
      rw (h, addresses_to_check) (ground (arith, includes-IsListed listed a k))
