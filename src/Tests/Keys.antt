-- ===== src/Tests/Keys.antt =====
-- The theorems on key generation at concrete sessions.
use guardian_wallet.Prelude.{ℕ, ◌≡◌, refl, true, false, some, [], ◌∷◌, Text, codes, text_eq}
use guardian_wallet.Prelude.Int.{pos}
use guardian_wallet.Prelude.Dict.{lookup}
use guardian_wallet.Prelude.Effects.{returns, rejects, failure}
use guardian_wallet.Dkg.Pool.{PoolConfig, Pool, new_pool, on_module_init, generate}
use guardian_wallet.Dkg.Pool.Capacity.{IsWithin, initial, after, generated, Reachable-IsWithin}
use guardian_wallet.Dkg.Service.{
  DkgSigner, KeyShare, DkgResult, stored, updated, Dkg, ShareReplies, bundle_key_material, finalize,
}
use guardian_wallet.Dkg.Service.Outcomes.{Consumes, finalize-Consumes, finalize_completed}
use guardian_wallet.Tests.Samples.{alice}

abbrev config : PoolConfig
config = record { target = 5; low_watermark = 2; max_generators = 2 }

-- One entry is left, and one generator runs.
abbrev low_pool : Pool
low_pool = record new_pool {
  cached_pool_size = 1;
  active_generators = pos 1;
  native_binary_path = some (codes "/bin/gen");
  active_children = 1;
}

Reachable-IsWithin_example :
    IsWithin config (generate config (pos 9) (on_module_init config (some alice) 1 new_pool)).1
Reachable-IsWithin_example =
    Reachable-IsWithin config (after (initial (some alice) 1) (generated (pos 9) _))

abbrev base64 : Text → Text
base64 s = s

abbrev show : ℕ → Text
show n = n ∷ []

abbrev share : ℕ → KeyShare
share n = record { core_share = n ∷ []; aux_info = n ∷ n ∷ [] }

abbrev result : DkgResult
result = record { shares = share 1 ∷ share 2 ∷ share 3 ∷ []; public_key = 4 ∷ [] }

-- The share store rejects.
abbrev no_store : ShareReplies
no_store = record {
  address = returns alice;
  stored = rejects (failure (codes "EIO"));
  updated = returns tt;
}

abbrev service : Dkg
service = record {
  pending_sessions = (codes "session", record { signer_id = codes "signer"; created_at = 0 }) ∷ [];
  pool = low_pool;
  writes = [];
}

finalize-Consumes_example : Consumes base64 show (codes "session") (codes "signer") service (
    finalize base64 show config
      (codes "session")
      (codes "signer")
      (returns (some (record { id = codes "signer"; dkg_completed = false })))
      (returns (some alice))
      (returns result)
      no_store
      service)
finalize-Consumes_example =
    finalize-Consumes base64 show config (codes "session") (codes "signer")
      (returns (some (record { id = codes "signer"; dkg_completed = false })))
      (returns (some alice)) (returns result) no_store service

abbrev has_key : DkgSigner
has_key = record { id = codes "signer"; dkg_completed = true }

finds_session :
    lookup (codes "session") service.pending_sessions
    ≡ some (record { signer_id = codes "signer"; created_at = 0 })
unfolding lookup text_eq
finds_session = refl

finalize_completed_example :
    (finalize base64 show config
      (codes "session")
      (codes "signer")
      (returns (some has_key))
      (returns (some alice))
      (returns result)
      (record { address = returns alice; stored = returns tt; updated = returns tt })
      service).1.writes
    ≡ stored (codes "signer") (bundle_key_material base64 show (share 2))
      ∷ updated (codes "signer") alice (codes "signer")
      ∷ []
finalize_completed_example =
    finalize_completed base64 show config (codes "session") has_key
      (record { signer_id = codes "signer"; created_at = 0 }) alice (share 1) (share 2) (share 3) []
      (4 ∷ []) alice service refl finds_session refl refl
