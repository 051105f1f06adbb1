-- ===== src/Signing/Access.antt =====
-- What the checks of `processRound` and `completeMessageSign` come to (their common first lines).
use guardian_wallet.Prelude.{
  ℕ, ◌≡◌, refl, true, false, Option, none, some, Text, text_eq, text_eq_iff, Bool-cases,
  Option-cases, inl, inr,
}
use guardian_wallet.Prelude.Dict.{lookup}
use guardian_wallet.Prelude.Effects.{
  Exception, Result, ok, throws, Reply, returns, rejects, ◌>>◌, return, await, and_then,
}
use guardian_wallet.Signing.Types.{SessionState, Signer, is_active, Service}
use guardian_wallet.Signing.Sessions.{get_valid_session, destroy_session, is_expired}
use guardian_wallet.Signing.Rounds.{open_session, require_active}

module _ {F : Type 0} (id signer_id : Text) (now : ℕ) (found : Reply (Option Signer))
    (s : Service F) where
  -- The session is in the table, is young enough, belongs to the signer, and the signer is active.
  pub record IsOpen (state : SessionState) : Type 0 where
    pub stored : lookup id s.sessions ≡ some state
    pub unexpired : is_expired now state ≡ false
    pub owned : state.signer_id ≡ signer_id
    pub signer : Signer
    pub looked_up : found ≡ returns (some signer)
    pub usable : is_active signer.status ≡ true

  -- The three outcomes: in, refused with no change, and refused with the session destroyed.
  pub data Access : Result SessionState × Service F → Type 0 where
    entered : (state : SessionState) → IsOpen state → Access (ok state, s)
    refused : (e : Exception) → Access (throws e, s)
    destroyed : (e : Exception) → Access (throws e, destroy_session id s)

  active-Access :
      (state : SessionState) (reply : Reply (Option Signer))
      → found ≡ reply
      → lookup id s.sessions ≡ some state
      → is_expired now state ≡ false
      → state.signer_id ≡ signer_id
      → Access (and_then (await reply s) (λ signer. require_active id signer >> return state))
  unfolding require_active
  active-Access state (rejects e) r l x o = refused e
  active-Access state (returns none) r l x o = destroyed _
  active-Access state (returns (some signer)) r l x o =
      elim (Bool-cases (is_active signer.status)) [
        | inl yes_active ↦ rw (yes_active) (
            entered state (record {
              stored = l;
              unexpired = x;
              owned = o;
              signer = signer;
              looked_up = r;
              usable = yes_active;
            }))
        | inr inactive ↦ rw (inactive) (destroyed _)
      ]

  pub open_session-Access : Access (open_session id signer_id now found s)
  unfolding open_session get_valid_session
  open_session-Access = elim (Option-cases (lookup id s.sessions)) [
    | inl gone ↦ rw (gone, open_session, get_valid_session) (refused _)
    | inr (state, l) ↦ elim (Bool-cases (is_expired now state)) [
      | inl old ↦ rw (l, old, open_session, get_valid_session) (destroyed _)
      | inr young ↦ elim (Bool-cases (text_eq state.signer_id signer_id)) [
        | inl own ↦
            rw (l, young, own, open_session, get_valid_session)
              (active-Access state found refl l young
                ((text_eq_iff state.signer_id signer_id).0 own))
        | inr foreign ↦ rw (l, young, foreign, open_session, get_valid_session) (refused _)
      ]
    ]
  ]
