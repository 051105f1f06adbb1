-- ===== src/Signing/Admission.antt =====
-- Who gets a session: `createSession` and `createMessageSession` from their first line to their last.
pub mod Steps
pub mod Gate
pub mod Audit
pub mod Messages
use guardian_wallet.Prelude.{
  ℕ, ◌<◌, ◌≡◌, refl, ap, ◌∙◌, true, not, ◌==◌, Option, none, some, [], length, Text, or_else,
}
use guardian_wallet.Prelude.Effects.{
  Result, ok, throws, Exception, Reply, returns, ◌>>=◌, ◌>>◌, forbidden,
}
use guardian_wallet.Policy.Types.{Number, PolicyContext, PolicyDocument}
use guardian_wallet.Policy.Criteria.{Host}
use guardian_wallet.Policy.Engine.{evaluate}
use guardian_wallet.Policy.AlwaysOn.{run_always_on_checks}
use guardian_wallet.Signing.Types.{
  Signer, is_active, Service, TransactionRequest, DecodedAction, max_concurrent_sessions, tx,
  message, signer_server,
}
use guardian_wallet.Signing.Populate.{ChainReplies, populate_transaction}
use guardian_wallet.Signing.Opening.{CreateSessionOutput, Opening, open_signing}
use guardian_wallet.Signing.Create.{
  CreateSessionInput, CreateMessageSessionInput, CreateReplies, MessageReplies, Windows, tx_context,
  message_context, create_session, create_message_session,
}
use guardian_wallet.Signing.Invariant.{IsSound}
use guardian_wallet.Signing.Invariant.Openings.{IsSame, Opened, open_signing-Opened}
use guardian_wallet.Signing.Admission.Steps.{
  Outcome, reached, bind-Outcome, await-Step, require-Step, require_room-Step, require_signer-Step,
  populate-Step, check_policy-Step, HasPassed,
}

module _ {F : Type 0} ⦃num : Number F⦄ (host : Host) where
  -- What holds when a transaction gets a session, with what the handler has read by then.
  pub record IsAdmitted (input : CreateSessionInput) (replies : CreateReplies F) (s : Service F)
      (o : Opening F) : Type 0 where
    pub room : length s.sessions < max_concurrent_sessions
    pub signer : Signer
    pub found : replies.find_signer ≡ returns (some signer)
    pub usable : is_active signer.status ≡ true
    pub chain_known : not (input.transaction.chain_id == 0) ≡ true
    pub chain : ChainReplies
    pub populated : TransactionRequest
    pub complete : populate_transaction input.transaction chain s ≡ (ok populated, s)
    pub tx_bytes : Text
    pub built : replies.build_transaction populated ≡ returns tx_bytes
    pub decoded : DecodedAction
    pub read : replies.decode_transaction tx_bytes ≡ returns decoded
    pub windows : Windows F
    pub summed : replies.windows ≡ returns windows
    pub cleared :
        HasPassed host replies.find_document replies.evaluation_ms
          (tx_context input replies signer populated decoded windows)
    pub owner : o.signer ≡ signer
    pub hash : o.hash ≡ replies.keccak256 tx_bytes
    pub kind :
        o.kind
        ≡ tx (record {
          transaction = populated;
          decoded_to = decoded.to;
          decoded_function_name = decoded.function_name;
          message_hash = replies.keccak256 tx_bytes;
        })

  -- `createSession` opens a session for a transaction that has passed, or leaves the table and the
  -- raw key material as they were.
  pub create_session-Outcome :
      (input : CreateSessionInput) (replies : CreateReplies F) (s : Service F)
      → IsSound s
      → Outcome s
          (λ p.
            (o : Opening F) × IsAdmitted input replies s o
            × Opened o replies.opening.session_id s p)
          (create_session host input replies s)
  unfolding create_session
  create_session-Outcome input replies s h = bind-Outcome s _ _ _ (require_room-Step s) (λ _ room.
      bind-Outcome s _ _ _ (await-Step s replies.find_signer) (λ found looked.
        bind-Outcome s _ _ _ (require_signer-Step s found) (λ signer usable.
          bind-Outcome s _ _ _ (require-Step s (not (input.transaction.chain_id == 0)) _)
            (λ _ known. bind-Outcome s _ _ _ (await-Step s replies.get_chain) (λ chain _.
              bind-Outcome s _ _ _ (populate-Step s input.transaction chain) (λ populated complete.
                bind-Outcome s _ _ _ (await-Step s (replies.build_transaction populated))
                  (λ tx_bytes built.
                    bind-Outcome s _ _ _ (await-Step s (replies.decode_transaction tx_bytes))
                      (λ decoded read.
                        bind-Outcome s _ _ _ (await-Step s replies.windows) (λ windows summed.
                          bind-Outcome s _ _ _
                            (check_policy-Step s host _ replies.find_document replies.evaluation_ms
                              (tx_context input replies signer populated decoded windows))
                            (λ result cleared. reached _ (
                              _,
                              record {
                                room = room;
                                signer = signer;
                                found = looked ∙ ap returns usable.0;
                                usable = usable.1;
                                chain_known = known;
                                chain = chain;
                                populated = populated;
                                complete = complete;
                                tx_bytes = tx_bytes;
                                built = built;
                                decoded = decoded;
                                read = read;
                                windows = windows;
                                summed = summed;
                                cleared = cleared;
                                owner = refl;
                                hash = refl;
                                kind = refl;
                              },
                              open_signing-Opened _ replies.opening none s h,
                            )))))))))))

  -- What holds when a message gets a session.
  pub record IsMessageAdmitted (input : CreateMessageSessionInput) (replies : MessageReplies F)
      (s : Service F) (o : Opening F) : Type 0 where
    pub room : length s.sessions < max_concurrent_sessions
    pub signer : Signer
    pub found : replies.find_signer ≡ returns (some signer)
    pub usable : is_active signer.status ≡ true
    pub counts : ℕ × ℕ
    pub counted : replies.counts ≡ returns counts
    pub cleared :
        HasPassed host replies.find_document replies.evaluation_ms
          (message_context input replies signer counts.0 counts.1)
    pub owner : o.signer ≡ signer
    pub hash : o.hash ≡ input.message_hash
    pub kind : o.kind ≡ message

  -- `createMessageSession` opens a session for a message that has passed, or leaves the table and the
  -- raw key material as they were.
  pub create_message_session-Outcome :
      (input : CreateMessageSessionInput) (replies : MessageReplies F) (s : Service F)
      → IsSound s
      → Outcome s
          (λ p.
            (o : Opening F) × IsMessageAdmitted input replies s o
            × Opened o replies.opening.session_id s p)
          (create_message_session host input replies s)
  unfolding create_message_session
  create_message_session-Outcome input replies s h =
      bind-Outcome s _ _ _ (require_room-Step s) (λ _ room.
        bind-Outcome s _ _ _ (await-Step s replies.find_signer) (λ found looked.
          bind-Outcome s _ _ _ (require_signer-Step s found) (λ signer usable.
            bind-Outcome s _ _ _ (await-Step s replies.counts) (λ counts counted.
              bind-Outcome s _ _ _
                (check_policy-Step s host _ replies.find_document replies.evaluation_ms
                  (message_context input replies signer counts.0 counts.1))
                (λ result cleared. reached _ (
                  _,
                  record {
                    room = room;
                    signer = signer;
                    found = looked ∙ ap returns usable.0;
                    usable = usable.1;
                    counts = counts;
                    counted = counted;
                    cleared = cleared;
                    owner = refl;
                    hash = refl;
                    kind = refl;
                  },
                  open_signing-Opened _ replies.opening input.signer_first_message s h,
                ))))))
