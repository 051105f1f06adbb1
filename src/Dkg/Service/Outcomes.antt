-- ===== src/Dkg/Service/Outcomes.antt =====
-- How the handlers of key generation end.
use mathlib.Core.List.{append_assoc}
use guardian_wallet.Prelude.{
  ℕ, ◌≡◌, refl, inl, inr, true, Option, none, some, List, [], ◌∷◌, ◌++◌, Text, text_eq, text_eq_iff,
  text_eq_refl, truthy, Option-cases, Bool-cases,
}
use guardian_wallet.Prelude.Dict.{lookup, delete, lookup-delete}
use guardian_wallet.Prelude.Effects.{Exception, Result, ok, throws, Reply, returns, rejects}
use guardian_wallet.Dkg.Pool.{PoolConfig}
use guardian_wallet.Dkg.Service.{
  DkgSigner, KeyShare, DkgResult, Pending, Write, created, stored, updated, deleted, Dkg, Output,
  ShareReplies, bundle_key_material, output_of, run_finalize, finalize_pending, finalize_session,
  finalize,
}
use guardian_wallet.Dkg.Service.Shares.{distribute_shares-pending}

module _ (base64 : Text → Text) (show : ℕ → Text) where
  -- The ends of `createWithDKG`: it throws before it writes; it throws as its first write, of the new signer, is
  -- rejected; it returns after three writes; or it throws after the new signer is written, and its last call
  -- asks for that signer's deletion.
  pub data Created (new : Reply (Text × Text)) (s : Dkg) (p : Result Output × Dkg) : Type 0 where
    refused : (e : Exception) → p.0 ≡ throws e → p.1.writes ≡ s.writes → Created new s p
    not_created :
        (e : Exception)
        → new ≡ rejects e
        → p.0 ≡ throws e
        → p.1.writes ≡ s.writes ++ created ∷ []
        → Created new s p
    completed :
        (id address api_key : Text) (share_0 share_1 share_2 : KeyShare)
        → new ≡ returns (id, api_key)
        → p.0 ≡ ok (output_of base64 show id address (some api_key) share_0 share_2)
        → p.1.writes
          ≡ s.writes
            ++ created
              ∷ stored id (bundle_key_material base64 show share_1)
              ∷ updated id address id
              ∷ []
        → Created new s p
    undone :
        (id api_key : Text) (e : Exception) (ws : List Write)
        → new ≡ returns (id, api_key)
        → p.0 ≡ throws e
        → p.1.writes ≡ s.writes ++ (created ∷ (ws ++ deleted id ∷ []))
        → Created new s p

  -- The two ends of `finalize`.
  pub data Consumes (session_id signer_id : Text) (s : Dkg) (p : Result Output × Dkg) : Type 0 where
    untouched : (e : Exception) → p ≡ (throws e, s) → Consumes session_id signer_id s p
    consumed :
        (pending : Pending)
        → lookup session_id s.pending_sessions ≡ some pending
        → pending.signer_id ≡ signer_id
        → lookup session_id p.1.pending_sessions ≡ none
        → Consumes session_id signer_id s p

  run_finalize-pending :
      (config : PoolConfig) (signer_id : Text) (claimed : Reply (Option Text))
      (dkg : Reply DkgResult) (replies : ShareReplies) (s : Dkg)
      → (run_finalize base64 show config signer_id claimed dkg replies s).1.pending_sessions
        ≡ s.pending_sessions
  unfolding run_finalize
  run_finalize-pending config signer_id (rejects e) dkg replies s = refl
  run_finalize-pending config signer_id (returns none) dkg replies s = refl
  run_finalize-pending config signer_id (returns (some [])) dkg replies s = refl
  run_finalize-pending config signer_id (returns (some (x ∷ xs))) (rejects e) replies s = refl
  run_finalize-pending config signer_id (returns (some (x ∷ xs))) (returns r) replies s =
      distribute_shares-pending base64 show signer_id none replies r.shares _

  -- A session finalizes once: `finalize` throws and leaves everything as it was, or the session was pending
  -- for that signer and is gone afterwards, however the run of the scheme and the writes end.
  pub finalize-Consumes :
      (config : PoolConfig) (session_id signer_id : Text) (found : Reply (Option DkgSigner))
      (claimed : Reply (Option Text)) (dkg : Reply DkgResult) (replies : ShareReplies) (s : Dkg)
      → Consumes session_id signer_id s
          (finalize base64 show config session_id signer_id found claimed dkg replies s)
  unfolding finalize finalize_pending
  finalize-Consumes config session_id signer_id (rejects e) claimed dkg replies s = untouched e refl
  finalize-Consumes config session_id signer_id (returns none) claimed dkg replies s =
      untouched _ refl
  finalize-Consumes config session_id signer_id (returns (some signer)) claimed dkg replies s =
      elim (Option-cases (lookup session_id s.pending_sessions)) [
        | inl gone ↦ rw (gone, finalize, finalize_session) (untouched _ refl)
        | inr (pending, there) ↦ elim (Bool-cases (text_eq pending.signer_id signer_id)) [
          | inr other ↦
              rw (there, other, finalize, finalize_session, finalize_pending) (untouched _ refl)
          | inl own ↦
              rw (there, own, finalize, finalize_session, finalize_pending)
                (consumed pending there ((text_eq_iff pending.signer_id signer_id).0 own) (
                  rw
                    (
                      run_finalize-pending config signer_id claimed dkg replies
                          (record s { pending_sessions = delete session_id s.pending_sessions }),
                      lookup-delete session_id session_id s.pending_sessions,
                      text_eq_refl session_id,
                    )
                    refl))
        ]
      ]

  -- `finalize` does not ask whether the signer has its key already: for a signer whose key generation is
  -- completed, a session that is still pending stores another server share at the same path and gives the
  -- signer another address, as soon as the replies return and the scheme has three shares.
  pub finalize_completed :
      (config : PoolConfig) (session_id : Text) (signer : DkgSigner) (pending : Pending)
      (entry : Text) (share_0 share_1 share_2 : KeyShare) (rest : List KeyShare)
      (public_key address : Text) (s : Dkg)
      → signer.dkg_completed ≡ true
      → lookup session_id s.pending_sessions ≡ some pending
      → pending.signer_id ≡ signer.id
      → truthy (some entry) ≡ some entry
      → (finalize base64 show config session_id signer.id
          (returns (some signer))
          (returns (some entry))
          (returns
            (record { shares = share_0 ∷ share_1 ∷ share_2 ∷ rest; public_key = public_key }))
          (record { address = returns address; stored = returns tt; updated = returns tt })
          s).1.writes
        ≡ s.writes
          ++ stored signer.id (bundle_key_material base64 show share_1)
            ∷ updated signer.id address signer.id
            ∷ []
  unfolding finalize finalize_pending run_finalize
  finalize_completed config session_id signer pending entry a b c rest key address s done there own
        full =
      rw
        (
          there,
          (text_eq_iff pending.signer_id signer.id).1 own,
          full,
          finalize,
          finalize_session,
          finalize_pending,
          run_finalize,
        )
        (append_assoc s.writes _ _)
