-- ===== src/Dkg/Pool/Capacity.antt =====
-- The number of generators that run at once.
use guardian_wallet.Prelude.{
  ℕ, zero, suc, ◌+◌, ◌-◌, ◌≤◌, ◌<◌, ◌≡◌, refl, ap, ◌∙◌, inl, inr, true, Option, leb, ltb, Text,
  is_some, Bool-cases, arith, not, ◌||◌, if◌then◌else◌,
}
use guardian_wallet.Prelude.Int.{ℤ, pos, negsuc, ◌+ℤ◌, leb_ℤ, pos_part}
use guardian_wallet.Dkg.Pool.{
  PoolConfig, Pool, new_pool, inc, dec, minus, min_ℤ, spawn_generator, spawn_generators, slots,
  refill, monitor_tick, on_module_init, entry_taken, generate, count_refreshed, generator_ended,
  inserted,
}

-- The number is that of the processes that run, and stays within the configured one.
pub record IsWithin (config : PoolConfig) (p : Pool) : Type 0 where
  pub number : p.active_generators ≡ pos p.active_children
  pub bounded : p.active_children ≤ config.max_generators

-- The same but for the generators.
abbrev spawned_pool : ℕ → Pool → Pool
spawned_pool c p = record p { active_generators = pos c; active_children = c }

spawn_generators_lem :
    (n c : ℕ) (p : Pool)
    → p.active_generators ≡ pos c
    → p.active_children ≡ c
    → spawn_generators n p ≡ spawned_pool (n + c) p
unfolding spawn_generators spawn_generator
spawn_generators_lem zero c p h k = ground arith
spawn_generators_lem (suc n) c p h k =
    spawn_generators_lem n (suc c) (spawn_generator p) (ap inc h) (ap suc k) ∙ ground arith

-- The smaller of two numbers.
abbrev pub min : ℕ → ℕ → ℕ
min a b = if leb a b then a else b

+ℤ_pos : (a b : ℕ) → pos a +ℤ pos b ≡ pos (a + b)
unfolding ◌+ℤ◌
+ℤ_pos a b = ground arith

leb_zero : (a b : ℕ) → leb (a + 0) (b + 0) ≡ leb a b
leb_zero a b = ground arith

unchanged :
    (p : Pool) (c : ℕ)
    → p.active_generators ≡ pos c
    → p.active_children ≡ c
    → p ≡ spawned_pool (0 + c) p
unchanged p c h k = ground arith

module _ (config : PoolConfig) where
  -- How many generators a tick starts where `c` run: none above the low mark or from the target on, and
  -- otherwise what is missing to the target, as far as there are places.
  pub missing : ℕ → ℕ → ℕ
  missing size c =
      if ltb config.low_watermark size
      then 0
      else min (config.target - (size + c)) (config.max_generators - c)

  minus_pos : (n c : ℕ) → c ≤ n → minus n (pos c) ≡ pos (n - c)
  minus_pos n c h = ground arith

  min_pos : (a b : ℕ) → min_ℤ (pos a) (pos b) ≡ pos (min a b)
  min_pos a b = ground arith

  refill_lem :
      (p : Pool) (c : ℕ)
      → p.active_generators ≡ pos c
      → p.active_children ≡ c
      → c ≤ config.max_generators
      → refill config p ≡ spawned_pool (missing p.cached_pool_size c + c) p
  unfolding refill missing
  refill_lem p c h k b = elim (Bool-cases (ltb config.low_watermark p.cached_pool_size)) [
    | inl enough ↦ rw enough (unchanged p c h k)
    | inr low ↦
        rw (low, total)
          (elim (Bool-cases (leb config.target (p.cached_pool_size + c))) [
            | inl full ↦
                let none_missing : min (config.target - (p.cached_pool_size + c))
                      (config.max_generators - c)
                    ≡ 0 =
                  ground arith in
                rw (leb_zero config.target (p.cached_pool_size + c) ∙ full, none_missing)
                  (unchanged p c h k)
            | inr lacking ↦ rw (leb_zero config.target (p.cached_pool_size + c) ∙ lacking) (
                ap (λ n. spawn_generators (pos_part n) p) (places (ground arith))
                ∙ spawn_generators_lem _ c p h k)
          ])
  ]
    where
      total : pos p.cached_pool_size +ℤ p.active_generators ≡ pos (p.cached_pool_size + c)
      total = ap (λ a. pos p.cached_pool_size +ℤ a) h ∙ +ℤ_pos p.cached_pool_size c

      places :
          p.cached_pool_size + c ≤ config.target
          → min_ℤ (minus config.target (pos (p.cached_pool_size + c))) (slots config p)
            ≡ pos (min (config.target - (p.cached_pool_size + c)) (config.max_generators - c))
      places le =
          ap
            (λ a.
              min_ℤ (minus config.target (pos (p.cached_pool_size + c)))
                (minus config.max_generators a))
            h
          ∙ ap (min_ℤ (minus config.target (pos (p.cached_pool_size + c))))
              (minus_pos config.max_generators c b)
          ∙ ap (λ d. min_ℤ d (pos (config.max_generators - c))) (minus_pos config.target _ le)
          ∙ min_pos _ _

  -- One tick of the monitor starts exactly the generators that are missing, and what runs stays the number that
  -- is count_refreshed and within the configured one: below the low mark and with a binary, the entries and the
  -- generators reach the target, or all places are entry_taken.
  pub monitor_tick_lem :
      (p : Pool)
      → IsWithin config p
      → is_some p.native_binary_path ≡ true
      → (monitor_tick config p).active_children
        ≡ missing p.cached_pool_size p.active_children + p.active_children
  unfolding monitor_tick
  monitor_tick_lem p w e =
      rw e (ap (λ q. q.active_children) (refill_lem p p.active_children w.number refl w.bounded))

  missing_le : (size c : ℕ) → c ≤ config.max_generators → missing size c + c ≤ config.max_generators
  unfolding missing
  missing_le size c h = ground arith

  refill-IsWithin : {p : Pool} → IsWithin config p → IsWithin config (refill config p)
  refill-IsWithin {p} w = rw (refill_lem p p.active_children w.number refl w.bounded) (record {
    number = refl;
    bounded = missing_le p.cached_pool_size p.active_children w.bounded;
  })

  monitor_tick-IsWithin : {p : Pool} → IsWithin config p → IsWithin config (monitor_tick config p)
  unfolding monitor_tick
  monitor_tick-IsWithin {p} w = elim (Bool-cases (is_some p.native_binary_path)) [
    | inr off ↦ rw off w
    | inl on ↦ rw on (refill-IsWithin w)
  ]

  spawn_generators-IsWithin :
      (n : ℕ) {p : Pool}
      → n + p.active_children ≤ config.max_generators
      → IsWithin config p
      → IsWithin config (spawn_generators n p)
  spawn_generators-IsWithin n {p} h w =
      rw (spawn_generators_lem n p.active_children p w.number refl)
        (record { number = refl; bounded = h })

  places_le :
      (count : ℤ) (p : Pool)
      → IsWithin config p
      → pos_part (min_ℤ count (slots config p)) + p.active_children ≤ config.max_generators
  places_le (pos n) p w =
      rw (w.number, minus_pos config.max_generators p.active_children w.bounded)
        (ground (arith, w.bounded))
  places_le (negsuc n) p w =
      rw (w.number, minus_pos config.max_generators p.active_children w.bounded)
        (ground (arith, w.bounded))

  dec_pos : (n : ℕ) → 0 < n → dec (pos n) ≡ pos (n - 1)
  dec_pos zero h = absurd (omega arith)
  dec_pos (suc n) h = ground arith

  -- What happens to a pool until it is shut down.
  pub data Event : Pool → Pool → Type 0 where
    ticked : (p : Pool) → Event p (monitor_tick config p)
    was_taken : (claimed : Option Text) (p : Pool) → Event p (entry_taken config claimed p)
    generated : (count : ℤ) (p : Pool) → Event p (generate config count p).1
    was_counted : (count : ℕ) (p : Pool) → Event p (count_refreshed count p)
    ended : (p : Pool) → 0 < p.active_children → Event p (generator_ended p)
    was_inserted : (p : Pool) → Event p (inserted p)

  pub data Reachable : Pool → Type 0 where
    initial :
        (path : Option Text) (count : ℕ) → Reachable (on_module_init config path count new_pool)
    after : {p q : Pool} → Reachable p → Event p q → Reachable q

  Event-IsWithin : {p q : Pool} → Event p q → IsWithin config p → IsWithin config q
  unfolding entry_taken generate count_refreshed generator_ended inserted
  Event-IsWithin (ticked p) w = monitor_tick-IsWithin w
  Event-IsWithin (was_taken claimed p) w = elim (Bool-cases (is_some claimed)) [
    | inl on ↦ rw on (
        monitor_tick-IsWithin {p = record p { cached_pool_size = p.cached_pool_size - 1 }}
          (record { number = w.number; bounded = w.bounded }))
    | inr off ↦ rw off w
  ]
  Event-IsWithin (generated count p) w =
      elim (Bool-cases (not (is_some p.native_binary_path) || leb_ℤ count (pos 0))) [
        | inl none_asked ↦ rw none_asked w
        | inr asked ↦ rw asked (spawn_generators-IsWithin _ (places_le count p w) w)
      ]
  Event-IsWithin (was_counted count p) w = record { number = w.number; bounded = w.bounded }
  Event-IsWithin (ended p h) w = record {
    number = ap dec w.number ∙ dec_pos p.active_children h;
    bounded = omega (arith, w.bounded);
  }
  Event-IsWithin (was_inserted p) w = record { number = w.number; bounded = w.bounded }

  -- In every state of the pool until its shutdown the number of active generators is that of the processes
  -- that run, and never above `AUXINFO_POOL_MAX_GENERATORS`, whatever is asked for and in whatever order.
  pub Reachable-IsWithin : {p : Pool} → Reachable p → IsWithin config p
  unfolding on_module_init
  Reachable-IsWithin (initial path count) = elim (Bool-cases (is_some path)) [
    | inl on ↦ rw on (
        refill-IsWithin
          {p = record new_pool {
            native_binary_path = path;
            cached_pool_size = count;
            monitor_timer = true;
          }}
          (record { number = refl; bounded = omega arith }))
    | inr off ↦ rw off (record { number = refl; bounded = omega arith })
  ]
  Reachable-IsWithin (after r e) = Event-IsWithin e (Reachable-IsWithin r)
