-- ===== src/Transfers/Oracle.antt =====
-- The cache of prices: `getPriceWithCache` of packages/server/src/common/price-oracle.service.ts. What the
-- request for a price answers and the clock are arguments.
use guardian_wallet.Prelude.{
  ℕ, ◌+◌, ◌-◌, ◌*◌, ◌≤◌, ◌<◌, ◌≡◌, inl, inr, ◌&&◌, Option, none, some, [], ◌∷◌, if◌then◌else◌, ltb,
  leb, Text, text_eq_refl, length, Option-cases, arith, ◌∙◌,
}
use guardian_wallet.Prelude.Dict.{
  Dict, lookup, insert, delete, HasUniqueKeys, insert-HasUniqueKeys, delete-HasUniqueKeys,
  length-insert, length-delete,
}
use guardian_wallet.Prelude.Effects.{Reply, returns, rejects}
use guardian_wallet.Policy.Types.{Number}

abbrev pub cache_ttl_ms : ℕ
cache_ttl_ms = 5 * 60 * 1000

abbrev pub stale_max_ms : ℕ
stale_max_ms = 60 * 60 * 1000

abbrev pub cache_max_entries : ℕ
cache_max_entries = 500

pub record CacheEntry (F : Type 0) : Type 0 where
  pub price : F
  pub fetched_at : ℕ

abbrev pub Cache : Type 0 → Type 0
Cache F = Dict (CacheEntry F)

module _ {F : Type 0} where
  -- `cached && now - cached.fetchedAt < limit`
  abbrev pub younger : ℕ → ℕ → Option (CacheEntry F) → Option F
  younger now limit none = none
  younger now limit (some entry) =
      if ltb (now - entry.fetched_at) limit then some entry.price else none

  -- The oldest entry makes room in a full cache.
  abbrev pub evict_first : Cache F → Cache F
  evict_first [] = []
  evict_first ((key, entry) ∷ cache) = delete key ((key, entry) ∷ cache)

  unfoldable pub evict : Cache F → Cache F
  evict cache = if leb cache_max_entries (length cache) then evict_first cache else cache

module _ {F : Type 0} ⦃num : Number F⦄ where
  -- `price !== null && price > 0`
  abbrev pub usable : Reply (Option F) → Option F
  usable (rejects e) = none
  usable (returns none) = none
  usable (returns (some price)) =
      if num.leb num.zero price && num.is_truthy price then some price else none

  -- Behind the fetch.
  abbrev pub fetched : Text → ℕ → Option F → Cache F → Option F × Cache F
  fetched key now (some price) cache =
      (some price, insert key (record { price = price; fetched_at = now }) (evict cache))
  fetched key now none cache = (younger now stale_max_ms (lookup key cache), cache)

  unfoldable pub get_price_with_cache : Text → Reply (Option F) → ℕ → Cache F → Option F × Cache F
  get_price_with_cache key answer now cache = elim (younger now cache_ttl_ms (lookup key cache)) [
    | some price ↦ (some price, cache)
    | none ↦ fetched key now (usable answer) cache
  ]

module _ {F : Type 0} where
  -- No key twice, and no more entries than allowed.
  pub record IsBounded (cache : Cache F) : Type 0 where
    pub keys : HasUniqueKeys cache
    pub size : length cache ≤ cache_max_entries

  length-evict :
      (cache : Cache F)
      → length cache ≤ cache_max_entries
      → length (evict cache) < cache_max_entries
  unfolding evict delete
  length-evict [] h = omega arith
  length-evict ((key, entry) ∷ cache) h = ground (arith, text_eq_refl key, length-delete key cache)

  evict-HasUniqueKeys : (cache : Cache F) → HasUniqueKeys cache → HasUniqueKeys (evict cache)
  unfolding evict
  evict-HasUniqueKeys [] u = ground arith
  evict-HasUniqueKeys ((key, entry) ∷ cache) u =
      ground (arith, delete-HasUniqueKeys key ((key, entry) ∷ cache) u)

  -- Where a price that is returned comes from: the answer, or an entry of the cache less than an hour old.
  pub data Source (key : Text) (answer : Reply (Option F)) (now : ℕ) (cache : Cache F) (price : F)
      : Type 0 where
    answered : answer ≡ returns (some price) → Source key answer now cache price
    cached :
        (entry : CacheEntry F)
        → lookup key cache ≡ some entry
        → entry.price ≡ price
        → now < entry.fetched_at + stale_max_ms
        → Source key answer now cache price

  younger-Source :
      (key : Text) (answer : Reply (Option F)) (now limit : ℕ) (cache : Cache F) (price : F)
      → limit ≤ stale_max_ms
      → younger now limit (lookup key cache) ≡ some price
      → Source key answer now cache price
  younger-Source key answer now limit cache price l e = elim (Option-cases (lookup key cache)) [
    | inl absent ↦ absurd (cc (rw absent at e))
    | inr (entry, found) ↦
        let f = rw found at e in cached entry found (ground arith) (ground (arith, l))
  ]

module _ {F : Type 0} ⦃num : Number F⦄ where
  -- The cache stays within its 500 entries.
  pub get_price_with_cache-IsBounded :
      (key : Text) (answer : Reply (Option F)) (now : ℕ) (cache : Cache F)
      → IsBounded cache
      → IsBounded (get_price_with_cache key answer now cache).1
  unfolding get_price_with_cache
  get_price_with_cache-IsBounded key answer now cache h =
      elim (Option-cases (younger now cache_ttl_ms (lookup key cache))) [
        | inr (price, fresh) ↦ rw (fresh, get_price_with_cache) h
        | inl old ↦ elim (Option-cases (usable answer)) [
          | inl nothing ↦ rw (old, nothing, get_price_with_cache) h
          | inr (price, some_price) ↦
              rw (old, some_price, get_price_with_cache)
                (record {
                  keys =
                      insert-HasUniqueKeys key _ (evict cache) (evict-HasUniqueKeys cache h.keys);
                  size = omega (
                    arith,
                    length-insert key (record { price = price; fetched_at = now }) (evict cache),
                    length-evict cache h.size,
                  );
                })
        ]
      ]

  usable-answer :
      (answer : Reply (Option F)) (price : F)
      → usable answer ≡ some price
      → answer ≡ returns (some price)
  usable-answer (rejects e) price h = cc
  usable-answer (returns none) price h = cc
  usable-answer (returns (some p)) price h = ground arith

  -- A price that is returned is the one that was just answered, or one from the cache that is less than an
  -- hour old: without either there is no price.
  pub get_price_with_cache-Source :
      (key : Text) (answer : Reply (Option F)) (now : ℕ) (cache : Cache F) (price : F)
      → (get_price_with_cache key answer now cache).0 ≡ some price
      → Source key answer now cache price
  unfolding get_price_with_cache
  get_price_with_cache-Source key answer now cache price e =
      elim (Option-cases (younger now cache_ttl_ms (lookup key cache))) [
        | inr (p, fresh) ↦
            younger-Source key answer now cache_ttl_ms cache price (omega arith)
              (fresh ∙ rw (fresh, get_price_with_cache) at e)
        | inl old ↦ elim (Option-cases (usable answer)) [
          | inl nothing ↦
              younger-Source key answer now stale_max_ms cache price (omega arith)
                (rw (old, nothing, get_price_with_cache) at e)
          | inr (p, some_price) ↦ answered (
              usable-answer answer price
                (some_price ∙ rw (old, some_price, get_price_with_cache) at e))
        ]
      ]
