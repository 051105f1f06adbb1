-- ===== src/Signing/Admission/Messages.antt =====
-- What a refused message leaves in the audit log, and what its caller is told.
use guardian_wallet.Prelude.{
  ℕ, ◌<◌, ◌≡◌, refl, ap, ltb, true, Option, some, List, [], ◌∷◌, map, length, or_else, arith,
}
use guardian_wallet.Prelude.Effects.{returns}
use guardian_wallet.Policy.Types.{Number, PolicyContext, PolicyDocument, PolicyViolation}
use guardian_wallet.Policy.Criteria.{Host}
use guardian_wallet.Policy.Engine.{evaluate}
use guardian_wallet.Signing.Types.{
  Service, Signer, SigningPath, signer_server, is_active, sign_message, max_concurrent_sessions,
}
use guardian_wallet.Signing.Types as Types
use guardian_wallet.Signing.Sessions.{create_request_caught}
use guardian_wallet.Signing.Checks.{
  check_policy, check_document, judge, require_room, require_signer, plain_violations,
}
use guardian_wallet.Signing.Create.{
  CreateMessageSessionInput, MessageReplies, message_context, message_refusals, message_row,
  create_message_session,
}
use guardian_wallet.Signing.Admission.Audit.{
  IsBlocked, IsBlockedRow, bind-IsBlocked, Refuses, insecure, disallowed, policy_violations-types,
}

module _ {F : Type 0} where
  plain_violations-types :
      (vs : List (PolicyViolation F)) → map (λ t. t.0) (plain_violations vs) ≡ map (λ v. v.type) vs
  unfolding plain_violations
  plain_violations-types [] = refl
  plain_violations-types (v ∷ vs) = ap (λ ts. v.type ∷ ts) (plain_violations-types vs)

  message_row-IsBlockedRow :
      (signer : Signer) (path : SigningPath) (vs : List (PolicyViolation F)) (count ms : ℕ)
      → IsBlockedRow signer path sign_message vs (message_row signer path Types.blocked vs count ms)
  message_row-IsBlockedRow signer path vs count ms = record {
    signer_is = refl;
    owner_is = refl;
    path_is = refl;
    request_is = refl;
    status_is = refl;
    violations_are = refl;
  }

module _ {F : Type 0} ⦃num : Number F⦄ (host : Host) where
  message-IsBlocked :
      (signer : Signer) (path : SigningPath) (ctx : PolicyContext F) (ms : ℕ)
      (document : Option (PolicyDocument F)) (vs : List (PolicyViolation F)) (s : Service F)
      → Refuses host ctx ms document vs
      → IsBlocked signer path sign_message vs s (
          check_policy host (message_refusals signer path (returns tt)) (returns document) ms ctx s)
  unfolding check_policy check_document judge create_request_caught
  message-IsBlocked signer path ctx ms document _ s (insecure v vs e) =
      rw (check_policy, e)
        (record {
          text = _;
          told = _;
          is_thrown = refl;
          types = plain_violations-types (v ∷ vs);
          row = _;
          logged = refl;
          content = message_row-IsBlockedRow signer path _ _ _;
          sessions = refl;
        })
  message-IsBlocked signer path ctx ms document _ s (disallowed e n) =
      rw (check_policy, e, check_document, judge, n)
        (record {
          text = _;
          told = _;
          is_thrown = refl;
          types = policy_violations-types path (evaluate host ctx ms document).violations;
          row = _;
          logged = refl;
          content = message_row-IsBlockedRow signer path _ _ _;
          sessions = refl;
        })

  -- The same for a message, whose handler reads the signer and two counts before the checks: if there is
  -- room and the signer is active, and the always-on checks or the document in force refuse the message in its
  -- context, the request ends with an exception that names the type of each violation, if the look-up of the
  -- document and the write of the log are answered. The log then has exactly one more row: of that signer, its owner and the path of the request,
  -- with the status `blocked` and the violations it was refused for. The table of sessions is as it was.
  pub create_message_session-IsBlocked :
      (input : CreateMessageSessionInput) (replies : MessageReplies F) (s : Service F)
      (signer : Signer) (last_hour today : ℕ) (document : Option (PolicyDocument F))
      (vs : List (PolicyViolation F))
      → length s.sessions < max_concurrent_sessions
      → replies.find_signer ≡ returns (some signer)
      → is_active signer.status ≡ true
      → replies.counts ≡ returns (last_hour, today)
      → replies.find_document ≡ returns document
      → Refuses host
          (message_context input replies signer last_hour today)
          replies.evaluation_ms
          document
          vs
      → replies.create_blocked ≡ returns tt
      → IsBlocked signer
          (or_else input.signing_path signer_server)
          sign_message
          vs
          s
          (create_message_session host input replies s)
  unfolding create_message_session require_room require_signer message_context
  create_message_session-IsBlocked input replies s signer last_hour today document vs free f a c d r
        w =
      let room : ltb (length s.sessions) max_concurrent_sessions ≡ true = ground (arith, free) in
      rw (create_message_session, room, f, require_signer, a, c, d, w)
        (bind-IsBlocked _ _ (message-IsBlocked signer _ _ replies.evaluation_ms document vs s r))
