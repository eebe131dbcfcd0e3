-- ===== src/Cache/Fallback.antt =====
-- internal/cache/fallback.go: `FallbackCache`, the cache in memory behind another cache.
--
-- The other cache is behind an interface in the source, and a record of functions on its state
-- here. The clock is read as by `InMemoryCache`. The cache in memory returns an error from `TTL`
-- alone, so the methods whose errors come from it alone have none here. An error of the cache in
-- memory that the source only logs cannot occur.
pub mod Workers
pub mod Stopping
pub mod Outage
pub mod Union
pub mod Simulation
pub mod Races
use go_exercise.Base.{
  ℕ, ◌+◌, ◌/◌, Bool, true, false, Option, none, some, List, [], ◌∷◌, if◌then◌else◌, is_some,
}
use go_exercise.Base.Int.{ℤ}
use go_exercise.Base.Text.{Text}
use go_exercise.Base.Dict.{Dict, find, put}
use go_exercise.Base.Result.{Result, ok, err}
use go_exercise.Cache.Entry.{CacheEntry, CacheConfig}
use go_exercise.Cache.Memory
use go_exercise.Cache.Memory.{InMemoryCache, TtlError, new_in_memory_cache}
use go_exercise.Cache.Memory.Batch
use go_exercise.Cache.Memory.Batch.{Item}

-- `Cache` of interface.go, with what its implementation keeps. An `error` alone is an option.
pub record CacheApi (V E : Type 0) : Type 1 where
  pub State : Type 0
  pub get : Text → State → State × Result E (Option V)
  pub set : Text → V → ℤ → State → State × Option E
  pub delete : Text → State → State × Option E
  pub clear : State → State × Option E
  pub get_multiple : List Text → State → State × Result E (Dict V)
  pub set_multiple : Dict V → ℤ → State → State × Option E
  pub get_with_metadata : Text → State → State × Result E (Option (CacheEntry V))
  pub set_with_metadata : Text → CacheEntry V → State → State × Option E
  pub expire : Text → ℤ → State → State × Option E
  pub ttl : Text → State → State × Result E ℤ
  pub evict_expired : State → State × Result E ℕ
  pub size : State → State × Result E ℕ
  pub ping : State → State × Option E
  pub close : State → State × Option E

-- `workers` stands for `wg`: the workers that run. `stopped` is whether `stopCh` is closed.
pub record FallbackCache {V E : Type 0} (P : CacheApi V E) : Type 0 where
  pub primary : P.State
  pub fallback : InMemoryCache V
  pub config : CacheConfig
  pub refresh_ch : List Text
  pub stopped : Bool
  pub workers : ℕ

abbrev pub names : List (Text × ℕ) → List Text
names [] = []
names ((key, now) ∷ keys) = key ∷ names keys

module _ {V : Type 0} where
  -- `missingKeys`, each with the reading of the clock at its test in the fallback.
  unfoldable pub missing_keys : Dict V → List (Text × ℕ) → List (Text × ℕ)
  missing_keys result [] = []
  missing_keys result ((key, now) ∷ keys) =
      let rest = missing_keys result keys in
      if is_some (find key result) then rest else (key, now) ∷ rest

  -- `result[key] = value` for each entry.
  unfoldable pub put_all : Dict V → Dict V → Dict V
  put_all [] result = result
  put_all ((key, value) ∷ entries) result = put_all entries (put key value result)

  unfoldable pub fill_missing : InMemoryCache V → Dict V → List (Text × ℕ) → Dict V
  unfolding put_all
  fill_missing m result [] = result
  fill_missing m result (key ∷ missing) = put_all (Batch.get_multiple m (key ∷ missing)) result

  abbrev pub items_of : List (Item V) → Dict V
  items_of [] = []
  items_of (item ∷ items) = (item.key, item.value) ∷ items_of items

module _ {V E : Type 0} {P : CacheApi V E} where
  unfoldable pub new_fallback_cache : P.State → CacheConfig → FallbackCache P
  new_fallback_cache primary config = record {
    primary = primary;
    fallback = new_in_memory_cache (record config { default_ttl = config.fallback_ttl });
    config = config;
    refresh_ch = [];
    stopped = false;
    workers = 0;
  }

  unfoldable pub set_fallback : FallbackCache P → Text → V → ℕ → ℕ → FallbackCache P
  set_fallback f key value now created = record f {
    fallback = Memory.set f.fallback key value f.config.fallback_ttl now created;
  }

  unfoldable pub read_fallback : FallbackCache P → Text → ℕ → FallbackCache P × Option V
  read_fallback f key now =
      let (m, found) = Memory.get f.fallback key now in (record f { fallback = m }, found)

  unfoldable pub get : FallbackCache P → Text → ℕ → ℕ → FallbackCache P × Option V
  unfolding read_fallback set_fallback
  get f key now created =
      let (p, answer) = P.get key f.primary in
      let f' = record f { primary = p } in
      elim answer [
        | err e ↦ read_fallback f' key now
        | ok none ↦ read_fallback f' key now
        | ok (some v) ↦ (set_fallback f' key v now created, some v)
      ]

  -- Whatever the answer of the primary cache, the fallback is set, and no error is returned.
  unfoldable pub set : FallbackCache P → Text → V → ℤ → ℕ → ℕ → FallbackCache P
  unfolding set_fallback
  set f key value ttl now created =
      let (p, answer) = P.set key value ttl f.primary in
      let f' = record f { primary = p } in
      elim answer [
        | some e ↦ set_fallback f' key value now created
        | none ↦ set_fallback f' key value now created
      ]

  unfoldable pub delete : FallbackCache P → Text → FallbackCache P
  delete f key =
      let (p, answer) = P.delete key f.primary in
      elim answer [
        | some e ↦ record f { primary = p; fallback = Memory.delete f.fallback key }
        | none ↦ record f { primary = p; fallback = Memory.delete f.fallback key }
      ]

  unfoldable pub clear : FallbackCache P → FallbackCache P
  clear f =
      let (p, answer) = P.clear f.primary in
      elim answer [
        | some e ↦ record f { primary = p; fallback = Memory.clear f.fallback }
        | none ↦ record f { primary = p; fallback = Memory.clear f.fallback }
      ]

  unfoldable pub get_multiple : FallbackCache P → List (Text × ℕ) → FallbackCache P × Dict V
  unfolding missing_keys fill_missing
  get_multiple f keys =
      let (p, answer) = P.get_multiple (names keys) f.primary in
      elim answer [
        | err e ↦ (record f { primary = p }, Batch.get_multiple f.fallback keys)
        | ok result ↦
            (record f { primary = p }, fill_missing f.fallback result (missing_keys result keys))
      ]

  -- The items in the order in which the fallback's loop over the map meets them.
  unfoldable pub set_multiple : FallbackCache P → List (Item V) → ℤ → FallbackCache P
  set_multiple f items ttl =
      let (p, answer) = P.set_multiple (items_of items) ttl f.primary in
      let m = Batch.set_multiple f.fallback items f.config.fallback_ttl in
      elim answer [
        | some e ↦ record f { primary = p; fallback = m }
        | none ↦ record f { primary = p; fallback = m }
      ]

  unfoldable pub read_fallback_entry :
      FallbackCache P → Text → ℕ → FallbackCache P × Option (CacheEntry V)
  read_fallback_entry f key now =
      let (m, found) = Memory.get_with_metadata f.fallback key now in
      (record f { fallback = m }, found)

  unfoldable pub get_with_metadata :
      FallbackCache P → Text → ℕ → FallbackCache P × Option (CacheEntry V)
  unfolding read_fallback_entry
  get_with_metadata f key now =
      let (p, answer) = P.get_with_metadata key f.primary in
      let f' = record f { primary = p } in
      elim answer [
        | err e ↦ read_fallback_entry f' key now
        | ok none ↦ read_fallback_entry f' key now
        | ok (some e) ↦
            (record f' { fallback = Memory.set_with_metadata f'.fallback key e }, some e)
      ]

  unfoldable pub set_with_metadata : FallbackCache P → Text → CacheEntry V → FallbackCache P
  set_with_metadata f key entry =
      let (p, answer) = P.set_with_metadata key entry f.primary in
      let m = Memory.set_with_metadata f.fallback key entry in
      elim answer [
        | some e ↦ record f { primary = p; fallback = m }
        | none ↦ record f { primary = p; fallback = m }
      ]

  unfoldable pub expire : FallbackCache P → Text → ℤ → ℕ → FallbackCache P
  expire f key ttl now =
      let (p, answer) = P.expire key ttl f.primary in
      let m = Memory.expire f.fallback key f.config.fallback_ttl now in
      elim answer [
        | some e ↦ record f { primary = p; fallback = m }
        | none ↦ record f { primary = p; fallback = m }
      ]

  unfoldable pub ttl : FallbackCache P → Text → ℕ → ℕ → FallbackCache P × Result TtlError ℤ
  ttl f key now now' =
      let (p, answer) = P.ttl key f.primary in
      elim answer [
        | err e ↦ (record f { primary = p }, Memory.ttl f.fallback key now now')
        | ok left ↦ (record f { primary = p }, ok left)
      ]

  unfoldable pub evict_expired : FallbackCache P → (Text → ℕ) → FallbackCache P × ℕ
  evict_expired f clock =
      let (p, answer) = P.evict_expired f.primary in
      let (m, count) = Batch.evict_expired f.fallback clock in
      elim answer [
        | err e ↦ (record f { primary = p; fallback = m }, count)
        | ok primary_count ↦ (record f { primary = p; fallback = m }, primary_count + count)
      ]

  unfoldable pub size : FallbackCache P → FallbackCache P × ℕ
  size f =
      let (p, answer) = P.size f.primary in
      elim answer [
        | err e ↦ (record f { primary = p }, Memory.size f.fallback)
        | ok primary_size ↦ (record f { primary = p }, primary_size + Memory.size f.fallback)
      ]

  -- The fallback's `Ping` returns nil.
  unfoldable pub ping : FallbackCache P → FallbackCache P
  ping f = record f { primary = (P.ping f.primary).0 }
