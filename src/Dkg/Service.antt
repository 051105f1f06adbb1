-- ===== src/Dkg/Service.antt =====
-- `DKGService` of packages/server/src/dkg/dkg.service.ts. Answers of the repositories, the share store, the
-- signer service and the scheme are replies; each handler runs from its first line to its last. The buffers
-- with key material, and `wipeBuffer` on them, are not modelled.
pub mod Shares
pub mod Outcomes
use guardian_wallet.Prelude.{
  ℕ, ◌+◌, ◌*◌, ◌-◌, Bool, true, false, not, Option, none, some, List, [], ◌∷◌, ◌++◌, ltb, leb,
  length, drop, if◌then◌else◌, Text, codes, text_eq, truthy, is_some,
}
use guardian_wallet.Prelude.Dict.{Dict, lookup, insert, delete, retain}
use guardian_wallet.Prelude.Effects.{
  Exception, Result, ok, throws, Reply, M, ◌>>=◌, ◌>>◌, return, throw, require, await, try_catch,
  try_finally, bad_request, not_found, service_unavailable,
}
use guardian_wallet.Dkg.Pool.{PoolConfig, Pool, entry_taken}

-- What the handlers read of a signer.
pub record DkgSigner : Type 0 where
  pub id : Text
  pub dkg_completed : Bool

pub record KeyShare : Type 0 where
  pub core_share : Text
  pub aux_info : Text

pub record DkgResult : Type 0 where
  pub shares : List KeyShare
  pub public_key : Text

pub record Pending : Type 0 where
  pub signer_id : Text
  pub created_at : ℕ

-- The calls that write, whether answered or rejected: of the signer service, which makes the id of a new
-- signer, of the share store and of the signer repository.
pub data Write : Type 0 where
  created : Write
  stored : (path key_material : Text) → Write
  updated : (signer_id eth_address vault_share_path : Text) → Write
  deleted : (signer_id : Text) → Write

pub record Dkg : Type 0 where
  pub pending_sessions : Dict Pending
  pub pool : Pool
  pub writes : List Write

pub record Output : Type 0 where
  pub signer_id : Text
  pub eth_address : Text
  pub api_key : Option Text
  pub signer_share : Text
  pub user_share : Text

-- What `distribute` is told: the address that `deriveAddress` computes or throws on, and the answers to the
-- two writes.
pub record ShareReplies : Type 0 where
  pub address : Reply Text
  pub stored : Reply (Unit {0})
  pub updated : Reply (Unit {0})

abbrev pub pending_ttl_ms : ℕ
pending_ttl_ms = 180_000

-- A write that is called, and answered.
unfoldable pub call : {A : Type 0} → Write → Reply A → M Dkg A
call write reply s = await reply (record s { writes = s.writes ++ write ∷ [] })

abbrev pub keep_pool : Option Text → PoolConfig → Dkg → Dkg
keep_pool claimed config s = record s { pool = entry_taken config claimed s.pool }

-- `auxInfoPool.take()`
unfoldable pub take_aux_info : PoolConfig → Reply (Option Text) → M Dkg (Option Text)
take_aux_info config claimed = do
  entry ← await claimed
  λ s. (ok (truthy entry), keep_pool (truthy entry) config s)

abbrev pub signer_not_found : Text → Text
signer_not_found id = codes "Signer not found: " ++ id

-- The tests of `init` on the signer.
abbrev pub is_new : Text → Option DkgSigner → M Dkg (Unit {0})
is_new id none s = (throws (not_found (signer_not_found id)), s)
is_new id (some signer) s =
    require (not signer.dkg_completed)
      (bad_request (codes "DKG already completed for signer: " ++ id)) s

-- `catch (error)`: the signer is deleted, and whether that works or not the error is thrown again.
unfoldable pub delete_created : {A : Type 0} → Text → Reply (Unit {0}) → Exception → M Dkg A
unfolding call
delete_created id answer e = try_catch (call (deleted id) answer) (λ _. return tt) >> throw e

-- `base64` is `Buffer.toString('base64')`, `show` writes a number.
module _ (base64 : Text → Text) (show : ℕ → Text) where
  -- `bundleKeyMaterial`; the text of a number system of 64 letters has nothing that JSON escapes.
  unfoldable pub bundle_key_material : KeyShare → Text
  bundle_key_material share =
      codes "{\"coreShare\":\""
      ++ (base64 share.core_share
          ++ (codes "\",\"auxInfo\":\"" ++ (base64 share.aux_info ++ codes "\"}")))

  abbrev pub output_of : Text → Text → Option Text → KeyShare → KeyShare → Output
  output_of id address api_key signer_share user_share = record {
    signer_id = id;
    eth_address = address;
    api_key = api_key;
    signer_share = base64 (bundle_key_material signer_share);
    user_share = base64 (bundle_key_material user_share);
  }

  -- The body of the inner `try`.
  unfoldable pub store_shares :
      Text → Option Text → KeyShare → KeyShare → KeyShare → ShareReplies → M Dkg Output
  unfolding call
  store_shares id api_key share_0 share_1 share_2 replies = do
    address ← await replies.address
    call (stored id (bundle_key_material share_1)) replies.stored
    call (updated id address id) replies.updated
    return (output_of id address api_key share_0 share_2)

  abbrev pub too_few : List KeyShare → Text
  too_few shares = codes "Expected 3 shares, got " ++ show (length shares)

  unfoldable pub distribute_shares :
      Text → Option Text → ShareReplies → List KeyShare → M Dkg Output
  unfolding store_shares
  distribute_shares id api_key replies (share_0 ∷ share_1 ∷ share_2 ∷ _) =
      store_shares id api_key share_0 share_1 share_2 replies
  distribute_shares id api_key replies shares = throw (bad_request (too_few shares))

  -- What follows `runDkg` in both handlers, the tests of the number of shares included.
  unfoldable pub distribute : Text → Option Text → DkgResult → ShareReplies → M Dkg Output
  unfolding distribute_shares
  distribute id api_key result replies = distribute_shares id api_key replies result.shares

  -- The lines of `finalize` behind the tests of the session.
  unfoldable pub run_finalize :
      PoolConfig → Text → Reply (Option Text) → Reply DkgResult → ShareReplies → M Dkg Output
  unfolding take_aux_info distribute
  run_finalize config id claimed dkg replies = do
    entry ← take_aux_info config claimed
    require (is_some entry)
        (service_unavailable (codes "AuxInfo pool is empty — try again in a few minutes."))
    result ← await dkg
    distribute id none result replies

  -- The lines behind the test that the session is pending.
  unfoldable pub finalize_pending :
      PoolConfig
      → (session_id signer_id : Text) → Reply (Option Text)
      → Reply DkgResult
      → ShareReplies
      → Pending
      → M Dkg Output
  unfolding run_finalize
  finalize_pending config session_id signer_id claimed dkg replies pending = do
    require (text_eq pending.signer_id signer_id) (bad_request (codes "Session/signer mismatch"))
    λ s.
        run_finalize config signer_id claimed dkg replies
          (record s { pending_sessions = delete session_id s.pending_sessions })

  -- The entry of the session, or none.
  unfoldable pub finalize_session :
      PoolConfig
      → (session_id signer_id : Text) → Reply (Option Text)
      → Reply DkgResult
      → ShareReplies
      → Option Pending
      → M Dkg Output
  unfolding finalize_pending
  finalize_session config session_id signer_id claimed dkg replies none =
      throw (bad_request (codes "No pending DKG session: " ++ session_id))
  finalize_session config session_id signer_id claimed dkg replies (some pending) =
      finalize_pending config session_id signer_id claimed dkg replies pending

  unfoldable pub finalize :
      PoolConfig
      → (session_id signer_id : Text) → Reply (Option DkgSigner)
      → Reply (Option Text)
      → Reply DkgResult
      → ShareReplies
      → M Dkg Output
  unfolding finalize_session
  finalize config session_id signer_id found claimed dkg replies = do
    signer ← await found
    require (is_some signer) (not_found (signer_not_found signer_id))
    λ s.
        finalize_session config session_id signer_id claimed dkg replies
          (lookup session_id s.pending_sessions) s

  unfoldable pub generate_shares : Text → Text → Reply DkgResult → ShareReplies → M Dkg Output
  unfolding distribute
  generate_shares id api_key dkg replies = do
    result ← await dkg
    distribute id (some api_key) result replies

  -- `createWithDKG`; the signer service answers with the id and the key of the new signer.
  unfoldable pub create_with_dkg :
      PoolConfig
      → Reply (Option Text)
      → Reply (Text × Text)
      → Reply DkgResult
      → ShareReplies
      → Reply (Unit {0})
      → M Dkg Output
  unfolding take_aux_info generate_shares delete_created call
  create_with_dkg config claimed new dkg replies deletion = do
    entry ← take_aux_info config claimed
    require (is_some entry) (
        service_unavailable
          (codes "AuxInfo pool is empty — the system is warming up. Try again in a minute."))
    signer ← call created new
    try_catch (generate_shares signer.0 signer.1 dkg replies) (delete_created signer.0 deletion)

-- `init`, with the new session's id and the time.
unfoldable pub init :
    (signer_id session_id : Text) (now : ℕ) → Reply (Option DkgSigner) → M Dkg (Text × Text)
init signer_id session_id now found = do
  signer ← await found
  is_new signer_id signer
  λ s. (
    ok (session_id, signer_id),
    record s {
      pending_sessions =
          insert session_id (record { signer_id = signer_id; created_at = now }) s.pending_sessions;
    },
  )

-- The timer of the constructor, and `onModuleDestroy`.
unfoldable pub cleanup_pending : ℕ → Dkg → Dkg
cleanup_pending now s = record s {
  pending_sessions =
      retain (λ entry. leb (now - entry.created_at) pending_ttl_ms) s.pending_sessions;
}

unfoldable pub on_module_destroy : Dkg → Dkg
on_module_destroy s = record s { pending_sessions = [] }
