-- ===== src/Signing/Admission/Audit.antt =====
-- What a refused request leaves in the audit log, and what its caller is told.
use guardian_wallet.Prelude.{
  ℕ, ◌<◌, ◌≡◌, refl, ap, ltb, true, false, not, ◌==◌, Option, some, List, [], ◌∷◌, ◌++◌, map, Text,
  length, or_else, arith,
}
use guardian_wallet.Prelude.Effects.{Result, ok, throws, returns, blocked, M, and_then}
use guardian_wallet.Policy.Types.{
  Number, PolicyType, PolicyContext, PolicyDocument, PolicyViolation,
}
use guardian_wallet.Policy.Criteria.{Host}
use guardian_wallet.Policy.Engine.{evaluate}
use guardian_wallet.Policy.AlwaysOn.{run_always_on_checks}
use guardian_wallet.Signing.Types.{
  Service, AuditEntry, Signer, SigningPath, signer_server, is_active, RequestType, sign_tx,
  TransactionRequest, DecodedAction, max_concurrent_sessions,
}
use guardian_wallet.Signing.Types as Types
use guardian_wallet.Signing.Sessions.{create_request_caught}
use guardian_wallet.Signing.Populate.{ChainReplies, populate_transaction}
use guardian_wallet.Signing.Checks.{
  check_policy, check_document, judge, require_room, require_signer, security_violations,
  policy_violations,
}
use guardian_wallet.Signing.Create.{
  CreateSessionInput, CreateReplies, Windows, tx_context, tx_refusals, tx_row, create_session,
}

module _ {F : Type 0} where
  -- A row of the signer for a request of that kind, with the status `blocked` and the violations.
  pub record IsBlockedRow (signer : Signer) (path : SigningPath) (request : RequestType)
      (violations : List (PolicyViolation F)) (row : AuditEntry F) : Type 0 where
    pub signer_is : row.signer_id ≡ signer.id
    pub owner_is : row.owner_id ≡ signer.owner_id
    pub path_is : row.signing_path ≡ path
    pub request_is : row.request_type ≡ request
    pub status_is : row.status ≡ Types.blocked
    pub violations_are : row.policy_violations ≡ violations

  -- The request ends with an exception that names the type of each violation, and the log with one more
  -- row. No session is opened.
  pub record IsBlocked {A : Type 0} (signer : Signer) (path : SigningPath) (request : RequestType)
      (violations : List (PolicyViolation F)) (s : Service F) (p : Result A × Service F)
      : Type 0 where
    pub text : Text
    pub told : List (PolicyType × Text)
    pub is_thrown : p.0 ≡ throws (blocked text told)
    pub types : map (λ t. t.0) told ≡ map (λ v. v.type) violations
    pub row : AuditEntry F
    pub logged : p.1.audit_log ≡ s.audit_log ++ row ∷ []
    pub content : IsBlockedRow signer path request violations row
    pub sessions : p.1.sessions ≡ s.sessions

  pub bind-IsBlocked :
      {A B : Type 0} {signer : Signer} {path : SigningPath} {request : RequestType}
      {vs : List (PolicyViolation F)} {s : Service F} (p : Result A × Service F)
      (k : A → M (Service F) B)
      → IsBlocked signer path request vs s p
      → IsBlocked signer path request vs s (and_then p k)
  bind-IsBlocked (ok a, t) k h = absurd (cc (h.is_thrown))
  bind-IsBlocked (throws e, t) k h = record {
    text = h.text;
    told = h.told;
    is_thrown = cc (h.is_thrown);
    types = h.types;
    row = h.row;
    logged = h.logged;
    content = h.content;
    sessions = h.sessions;
  }

  tx_row-IsBlockedRow :
      (signer : Signer) (path : SigningPath) (populated : TransactionRequest)
      (decoded : DecodedAction) (vs : List (PolicyViolation F)) (count ms : ℕ) (usd : Option F)
      → IsBlockedRow signer path sign_tx vs
          (tx_row signer path Types.blocked populated decoded vs count ms usd)
  tx_row-IsBlockedRow signer path populated decoded vs count ms usd = record {
    signer_is = refl;
    owner_is = refl;
    path_is = refl;
    request_is = refl;
    status_is = refl;
    violations_are = refl;
  }

  security_violations-types :
      (path : SigningPath) (vs : List (PolicyViolation F))
      → map (λ t. t.0) (security_violations path vs) ≡ map (λ v. v.type) vs
  unfolding security_violations
  security_violations-types path [] = refl
  security_violations-types path (v ∷ vs) =
      ap (λ ts. v.type ∷ ts) (security_violations-types path vs)

  pub policy_violations-types :
      (path : SigningPath) (vs : List (PolicyViolation F))
      → map (λ t. t.0) (policy_violations path vs) ≡ map (λ v. v.type) vs
  unfolding policy_violations
  policy_violations-types path [] = refl
  policy_violations-types path (v ∷ vs) = ap (λ ts. v.type ∷ ts) (policy_violations-types path vs)

module _ {F : Type 0} ⦃num : Number F⦄ (host : Host) where
  -- What a request is refused for: what the always-on checks found, or else what the document in force has
  -- against it.
  pub data Refuses (ctx : PolicyContext F) (ms : ℕ) (document : Option (PolicyDocument F))
      : List (PolicyViolation F) → Type 0 where
    insecure :
        (v : PolicyViolation F) (vs : List (PolicyViolation F))
        → run_always_on_checks host.abi ctx ≡ v ∷ vs
        → Refuses ctx ms document (v ∷ vs)
    disallowed :
        run_always_on_checks host.abi ctx ≡ []
        → (evaluate host ctx ms document).allowed ≡ false
        → Refuses ctx ms document (evaluate host ctx ms document).violations

  -- A transaction with everything that its handler reads before the checks.
  pub record HasRead (input : CreateSessionInput) (replies : CreateReplies F) (s : Service F)
      (signer : Signer) (ctx : PolicyContext F) : Type 0 where
    pub room : length s.sessions < max_concurrent_sessions
    pub found : replies.find_signer ≡ returns (some signer)
    pub usable : is_active signer.status ≡ true
    pub chain_known : not (input.transaction.chain_id == 0) ≡ true
    pub chain : ChainReplies
    pub chain_found : replies.get_chain ≡ returns chain
    pub populated : TransactionRequest
    pub complete : populate_transaction input.transaction chain s ≡ (ok populated, s)
    pub tx_bytes : Text
    pub built : replies.build_transaction populated ≡ returns tx_bytes
    pub decoded : DecodedAction
    pub read : replies.decode_transaction tx_bytes ≡ returns decoded
    pub windows : Windows F
    pub summed : replies.windows ≡ returns windows
    pub context : ctx ≡ tx_context input replies signer populated decoded windows

  tx-IsBlocked :
      (signer : Signer) (path : SigningPath) (populated : TransactionRequest)
      (decoded : DecodedAction) (usd : Option F) (ctx : PolicyContext F) (ms : ℕ)
      (document : Option (PolicyDocument F)) (vs : List (PolicyViolation F)) (s : Service F)
      → Refuses ctx ms document vs
      → IsBlocked signer path sign_tx vs s (
          check_policy host
            (tx_refusals signer path populated decoded usd (returns tt))
            (returns document)
            ms
            ctx
            s)
  unfolding check_policy check_document judge create_request_caught
  tx-IsBlocked signer path populated decoded usd ctx ms document _ s (insecure v vs e) =
      rw (check_policy, e)
        (record {
          text = _;
          told = _;
          is_thrown = refl;
          types = security_violations-types path (v ∷ vs);
          row = _;
          logged = refl;
          content = tx_row-IsBlockedRow signer path populated decoded _ _ _ _;
          sessions = refl;
        })
  tx-IsBlocked signer path populated decoded usd ctx ms document _ s (disallowed e n) =
      rw (check_policy, e, check_document, judge, n)
        (record {
          text = _;
          told = _;
          is_thrown = refl;
          types = policy_violations-types path (evaluate host ctx ms document).violations;
          row = _;
          logged = refl;
          content = tx_row-IsBlockedRow signer path populated decoded _ _ _ _;
          sessions = refl;
        })

  -- A transaction that has come as far as the checks, and that the always-on checks or the document in force
  -- refuse, ends with an exception that names the type of each violation, if the look-up of the document and
  -- the write of the log are answered. The log then has exactly one more row: of that signer, its owner and the
  -- path of the request, with the status `blocked` and the violations it was refused for. The table of
  -- sessions is as it was.
  pub create_session-IsBlocked :
      (input : CreateSessionInput) (replies : CreateReplies F) (s : Service F) (signer : Signer)
      (ctx : PolicyContext F) (document : Option (PolicyDocument F)) (vs : List (PolicyViolation F))
      → HasRead input replies s signer ctx
      → replies.find_document ≡ returns document
      → Refuses ctx replies.evaluation_ms document vs
      → replies.create_blocked ≡ returns tt
      → IsBlocked signer
          (or_else input.signing_path signer_server)
          sign_tx
          vs
          s
          (create_session host input replies s)
  unfolding create_session require_room require_signer tx_context
  create_session-IsBlocked input replies s signer ctx document vs h d r w =
      let room : ltb (length s.sessions) max_concurrent_sessions ≡ true = ground (arith, h.room) in
      let refuses = rw h.context at r in
      rw
        (
          create_session, room, h.found, require_signer, h.usable, h.chain_known, h.chain_found,
          h.complete, h.built, h.read, h.summed, d, w,
        )
        (bind-IsBlocked _ _ (
          tx-IsBlocked signer _ h.populated h.decoded _ _ replies.evaluation_ms document vs s
            refuses))
