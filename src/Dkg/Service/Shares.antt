-- ===== src/Dkg/Service/Shares.antt =====
-- What `distribute` writes.
use mathlib.Core.List.{append-nil, append_assoc}
use guardian_wallet.Prelude.{ℕ, ◌≡◌, refl, sym, Option, List, [], ◌∷◌, ◌++◌, Text}
use guardian_wallet.Prelude.Effects.{Exception, Result, ok, throws, Reply, returns, rejects}
use guardian_wallet.Dkg.Service.{
  KeyShare, Write, stored, updated, Dkg, Output, ShareReplies, bundle_key_material, output_of,
  store_shares, distribute_shares, distribute,
}

module _ (base64 : Text → Text) (show : ℕ → Text) where
  -- Either both writes are made, of the server's share and of the signer, and the other two shares are
  -- returned; or an exception is thrown after some writes.
  pub data Stores (id : Text) (api_key : Option Text) (share_0 share_1 share_2 : KeyShare) (s : Dkg)
      (p : Result Output × Dkg) : Type 0 where
    all_stored :
        (address : Text)
        → p.0 ≡ ok (output_of base64 show id address api_key share_0 share_2)
        → p.1.writes
          ≡ s.writes
            ++ stored id (bundle_key_material base64 show share_1) ∷ updated id address id ∷ []
        → Stores id api_key share_0 share_1 share_2 s p
    stopped :
        (e : Exception) (ws : List Write)
        → p.0 ≡ throws e
        → p.1.writes ≡ s.writes ++ ws
        → Stores id api_key share_0 share_1 share_2 s p

  module _ (id : Text) (api_key : Option Text) (share_0 share_1 share_2 : KeyShare) where
    store_shares-Stores :
        (address : Reply Text) (stored_answer updated_answer : Reply (Unit {0})) (s : Dkg)
        → Stores id api_key share_0 share_1 share_2 s (
            store_shares base64 show id api_key share_0 share_1 share_2
              (record { address = address; stored = stored_answer; updated = updated_answer })
              s)
    unfolding store_shares
    store_shares-Stores (rejects e) b c s = stopped e [] refl (sym (append-nil s.writes))
    store_shares-Stores (returns a) (rejects e) c s = stopped e _ refl refl
    store_shares-Stores (returns a) (returns u) (rejects e) s =
        stopped e _ refl (append_assoc s.writes _ _)
    store_shares-Stores (returns a) (returns u) (returns v) s =
        all_stored a refl (append_assoc s.writes _ _)

    store_shares-pending :
        (address : Reply Text) (stored_answer updated_answer : Reply (Unit {0})) (s : Dkg)
        → (store_shares base64 show id api_key share_0 share_1 share_2
            (record { address = address; stored = stored_answer; updated = updated_answer })
            s).1.pending_sessions
          ≡ s.pending_sessions
    unfolding store_shares
    store_shares-pending (rejects e) b c s = refl
    store_shares-pending (returns a) (rejects e) c s = refl
    store_shares-pending (returns a) (returns u) (rejects e) s = refl
    store_shares-pending (returns a) (returns u) (returns v) s = refl

  pub distribute_shares-pending :
      (id : Text) (api_key : Option Text) (replies : ShareReplies) (shares : List KeyShare)
      (s : Dkg)
      → (distribute_shares base64 show id api_key replies shares s).1.pending_sessions
        ≡ s.pending_sessions
  unfolding distribute_shares
  distribute_shares-pending id api_key replies [] s = refl
  distribute_shares-pending id api_key replies (a ∷ []) s = refl
  distribute_shares-pending id api_key replies (a ∷ b ∷ []) s = refl
  distribute_shares-pending id api_key replies (a ∷ b ∷ c ∷ rest) s =
      store_shares-pending id api_key a b c replies.address replies.stored replies.updated s

  -- Three shares or more: as above.
  pub distribute-Stores :
      (id : Text) (api_key : Option Text) (replies : ShareReplies) (public_key : Text)
      (share_0 share_1 share_2 : KeyShare) (rest : List KeyShare) (s : Dkg)
      → Stores id api_key share_0 share_1 share_2 s (
          distribute base64 show id api_key
            (record { shares = share_0 ∷ share_1 ∷ share_2 ∷ rest; public_key = public_key })
            replies
            s)
  unfolding distribute distribute_shares
  distribute-Stores id api_key replies public_key share_0 share_1 share_2 rest s =
      store_shares-Stores id api_key share_0 share_1 share_2 replies.address replies.stored
        replies.updated s
