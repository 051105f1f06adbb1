-- ===== src/Signing/Admission/Gate.antt =====
-- The gate of `createSession` and `createMessageSession`: what a returned session says of the checks,
-- and what a refusal leaves behind.
use guardian_wallet.Prelude.{◌≡◌, Text}
use guardian_wallet.Prelude.Effects.{Exception, Result, ok, throws}
use guardian_wallet.Policy.Types.{Number}
use guardian_wallet.Policy.Criteria.{Host}
use guardian_wallet.Signing.Types.{Service}
use guardian_wallet.Signing.Opening.{Opening, CreateSessionOutput}
use guardian_wallet.Signing.Create.{
  CreateSessionInput, CreateMessageSessionInput, CreateReplies, MessageReplies, create_session,
  create_message_session,
}
use guardian_wallet.Signing.Invariant.{IsSound}
use guardian_wallet.Signing.Invariant.Openings.{IsSame, Opened, opened, unopened}
use guardian_wallet.Signing.Admission.Steps.{Outcome, reached, stopped_early}
use guardian_wallet.Signing.Admission.{
  IsAdmitted, IsMessageAdmitted, create_session-Outcome, create_message_session-Outcome,
}

module _ {F : Type 0} where
  reached_ok :
      {A : Type 0} {s : Service F} {Q : Result A × Service F → Type 0} (p : Result A × Service F)
      (a : A)
      → Outcome s Q p
      → p.0 ≡ ok a
      → Q p
  reached_ok p a (reached _ q) e = q
  reached_ok p a (stopped_early x t h) e = cc

  thrown_IsSame :
      {s : Service F} (Admitted : Opening F → Type 0) (id : Text)
      (p : Result CreateSessionOutput × Service F) (x : Exception)
      → Outcome s (λ q. (o : Opening F) × Admitted o × Opened o id s q) p
      → p.0 ≡ throws x
      → IsSame s p.1
  thrown_IsSame Admitted id p x (stopped_early y t h) e = h
  thrown_IsSame Admitted id _ x (reached _ (o, a, unopened y t h)) e = h
  thrown_IsSame Admitted id _ x (reached _ (o, a, opened _ _ _ _ _ _ _ _ _ _ _)) e = cc

module _ {F : Type 0} ⦃num : Number F⦄ (host : Host) where
  -- A transaction gets a session only if there was room, its signer is active, its chain is named, the
  -- always-on checks found nothing and the policy document in force allows the populated transaction in
  -- its context; the session is then of that signer, with that transaction and its hash.
  pub create_session_gate :
      (input : CreateSessionInput) (replies : CreateReplies F) (s : Service F)
      (output : CreateSessionOutput)
      → IsSound s
      → (create_session host input replies s).0 ≡ ok output
      → (o : Opening F) × IsAdmitted host input replies s o
        × Opened o replies.opening.session_id s (create_session host input replies s)
  create_session_gate input replies s output h e =
      reached_ok _ output (create_session-Outcome host input replies s h) e

  -- A message gets a session only if there was room, its signer is active, the always-on checks found
  -- nothing and the policy document in force allows it in its context; the session is then of that
  -- signer, for that hash.
  pub create_message_session_gate :
      (input : CreateMessageSessionInput) (replies : MessageReplies F) (s : Service F)
      (output : CreateSessionOutput)
      → IsSound s
      → (create_message_session host input replies s).0 ≡ ok output
      → (o : Opening F) × IsMessageAdmitted host input replies s o
        × Opened o replies.opening.session_id s (create_message_session host input replies s)
  create_message_session_gate input replies s output h e =
      reached_ok _ output (create_message_session-Outcome host input replies s h) e

  -- A request for a session that throws, at whatever step, leaves the sessions and the raw key material
  -- in memory as they were.
  pub create_session_refused :
      (input : CreateSessionInput) (replies : CreateReplies F) (s : Service F) (x : Exception)
      → IsSound s
      → (create_session host input replies s).0 ≡ throws x
      → IsSame s (create_session host input replies s).1
  create_session_refused input replies s x h e =
      thrown_IsSame _ _ _ x (create_session-Outcome host input replies s h) e

  pub create_message_session_refused :
      (input : CreateMessageSessionInput) (replies : MessageReplies F) (s : Service F)
      (x : Exception)
      → IsSound s
      → (create_message_session host input replies s).0 ≡ throws x
      → IsSame s (create_message_session host input replies s).1
  create_message_session_refused input replies s x h e =
      thrown_IsSame _ _ _ x (create_message_session-Outcome host input replies s h) e
