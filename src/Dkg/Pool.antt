-- ===== src/Dkg/Pool.antt =====
-- The pool of auxiliary info: packages/server/src/dkg/aux-info-pool.service.ts. Each function is what runs
-- between two awaits; the answers of the repository and the outcomes of the generator processes are events.
pub mod Capacity
use guardian_wallet.Prelude.{
  ℕ, zero, suc, ◌+◌, ◌-◌, Bool, true, false, not, ◌||◌, Option, none, some, leb, ltb, ◌==◌,
  if◌then◌else◌, Text, is_some,
}
use guardian_wallet.Prelude.Int.{ℤ, pos, negsuc, ◌+ℤ◌, leb_ℤ, ltb_ℤ, pos_part, neg_part, sub_ℕ}

-- The part of `AppConfig` that the pool reads.
pub record PoolConfig : Type 0 where
  pub target : ℕ
  pub low_watermark : ℕ
  pub max_generators : ℕ

-- `active_children` is the size of the set of child processes.
pub record Pool : Type 0 where
  pub cached_pool_size : ℕ
  pub active_generators : ℤ
  pub monitor_timer : Bool
  pub native_binary_path : Option Text
  pub active_children : ℕ

pub record Status : Type 0 where
  pub size : ℕ
  pub target : ℕ
  pub low_watermark : ℕ
  pub active_generators : ℤ
  pub max_generators : ℕ
  pub healthy : Bool

-- The fields as they are declared.
abbrev pub new_pool : Pool
new_pool = record {
  cached_pool_size = 0;
  active_generators = pos 0;
  monitor_timer = false;
  native_binary_path = none;
  active_children = 0;
}

-- `x++`, `x--` and `a - b`.
abbrev pub inc : ℤ → ℤ
inc (pos n) = pos (suc n)
inc (negsuc zero) = pos 0
inc (negsuc (suc n)) = negsuc n

abbrev pub dec : ℤ → ℤ
dec (pos zero) = negsuc 0
dec (pos (suc n)) = pos n
dec (negsuc n) = negsuc (suc n)

abbrev pub minus : ℕ → ℤ → ℤ
minus n a = sub_ℕ (n + neg_part a) (pos_part a)

abbrev pub min_ℤ : ℤ → ℤ → ℤ
min_ℤ a b = if leb_ℤ a b then a else b

-- `spawnGenerator`, with the start of the process in `runGenAux`.
unfoldable pub spawn_generator : Pool → Pool
spawn_generator p = record p {
  active_generators = inc p.active_generators;
  active_children = suc p.active_children;
}

-- `for (let i = 0; i < toSpawn; i++) this.spawnGenerator()`
unfoldable pub spawn_generators : ℕ → Pool → Pool
spawn_generators zero p = p
spawn_generators (suc n) p = spawn_generators n (spawn_generator p)

module _ (config : PoolConfig) where
  -- `AUXINFO_POOL_MAX_GENERATORS - activeGenerators`
  abbrev pub slots : Pool → ℤ
  slots p = minus config.max_generators p.active_generators

  -- The part of `monitorTick` behind the refresh of the count and the pruning.
  unfoldable pub refill : Pool → Pool
  refill p =
      let current = pos p.cached_pool_size +ℤ p.active_generators in
      if ltb config.low_watermark p.cached_pool_size
      then p
      else if leb_ℤ (pos config.target) current
      then p
      else spawn_generators (pos_part (min_ℤ (minus config.target current) (slots p))) p

  unfoldable pub monitor_tick : Pool → Pool
  unfolding refill
  monitor_tick p = if is_some p.native_binary_path then refill p else p

  -- `onModuleInit`, with the path that `resolveNativeBinary` finds and the count.
  unfoldable pub on_module_init : Option Text → ℕ → Pool → Pool
  unfolding monitor_tick
  on_module_init path count p =
      let loaded = record p { native_binary_path = path; cached_pool_size = count } in
      if is_some path then monitor_tick (record loaded { monitor_timer = true }) else loaded

  -- What `take` does when the repository has answered; an empty text is falsy too.
  unfoldable pub entry_taken : Option Text → Pool → Pool
  unfolding monitor_tick
  entry_taken claimed p =
      if is_some claimed
      then monitor_tick (record p { cached_pool_size = p.cached_pool_size - 1 })
      else p

  -- `generate`, with the number that it returns.
  unfoldable pub generate : ℤ → Pool → ℤ × Pool
  generate count p =
      if not (is_some p.native_binary_path) || leb_ℤ count (pos 0)
      then (pos 0, p)
      else let to_spawn = min_ℤ count (slots p) in
        (to_spawn, spawn_generators (pos_part to_spawn) p)

  unfoldable pub get_status : Pool → Status
  get_status p = record {
    size = p.cached_pool_size;
    target = config.target;
    low_watermark = config.low_watermark;
    active_generators = p.active_generators;
    max_generators = config.max_generators;
    healthy =
        ltb 0 p.cached_pool_size
        || (ltb_ℤ (pos 0) p.active_generators || not (is_some p.native_binary_path));
  }

-- The count that `monitorTick` asked for has come.
unfoldable pub count_refreshed : ℕ → Pool → Pool
count_refreshed count p = record p { cached_pool_size = count }

-- The process of a generator has ended, well or not: its entry leaves the set and the number falls.
unfoldable pub generator_ended : Pool → Pool
generator_ended p = record p {
  active_generators = dec p.active_generators;
  active_children = p.active_children - 1;
}

-- `isValidAuxInfoJson`, with the length of `aux_infos` where the output is such JSON.
unfoldable pub is_valid_aux_info : Option ℕ → Bool
is_valid_aux_info none = false
is_valid_aux_info (some entries) = leb 3 entries

-- A valid output was written to the repository.
unfoldable pub inserted : Pool → Pool
inserted p = record p { cached_pool_size = suc p.cached_pool_size }

unfoldable pub on_module_destroy : Pool → Pool
on_module_destroy p = record p {
  monitor_timer = false;
  active_children = 0;
  active_generators = pos 0;
}
