-- ===== src/Cache/Memory.antt =====
-- internal/cache/memory.go: `InMemoryCache`, over any type of values.
--
-- Each reading of the clock is an argument, in the order in which the code makes them. The methods
-- without an error in the code return no error here. `Get` and `GetWithMetadata` look up and
-- delete under two locks: `Races` takes them apart.
pub mod Batch
pub mod Deletion
pub mod Eviction
pub mod View
pub mod Bounds
pub mod Races
pub mod Api
pub mod Entries
pub mod Lifetime
use go_exercise.Base.{
  ℕ, zero, suc, ◌+◌, ◌/◌, ◌≡◌, Bool, true, false, not, ◌&&◌, Option, none, some, List, [], ◌∷◌,
  ◌==◌, ltb, leb, if◌then◌else◌, length, take, is_some,
}
use go_exercise.Base.Int.{ℤ, pos, leb_ℤ, ltb_ℤ, time_add, time_sub}
use go_exercise.Base.Text.{Text}
use go_exercise.Base.Dict.{Dict, find, put, remove}
use go_exercise.Base.Float64.{Float64}
use go_exercise.Base.Result.{Result, ok, err}
use go_exercise.Cache.Entry.{CacheEntry, CacheConfig, is_expired, entry_ttl}

pub record CacheStats : Type 0 where
  pub hits : ℕ
  pub misses : ℕ
  pub evictions : ℕ
  pub refreshes : ℕ

pub record InMemoryCache (V : Type 0) : Type 0 where
  pub config : CacheConfig
  pub entries : Dict (CacheEntry V)
  pub stats : CacheStats

pub data TtlError : Type 0 where
  key_not_found : TtlError

unfoldable pub record_hit : CacheStats → CacheStats
record_hit s = record s { hits = s.hits + 1 }

unfoldable pub record_miss : CacheStats → CacheStats
record_miss s = record s { misses = s.misses + 1 }

unfoldable pub record_evictions : CacheStats → ℕ → CacheStats
record_evictions s count = record s { evictions = s.evictions + count }

unfoldable pub record_refresh : CacheStats → CacheStats
record_refresh s = record s { refreshes = s.refreshes + 1 }

-- The lifetime that `Set` gives an entry.
unfoldable pub effective_ttl : CacheConfig → ℤ → ℤ
effective_ttl config ttl =
    let given = if leb_ℤ ttl (pos 0) then config.default_ttl else ttl in
    if ltb_ℤ config.max_ttl given then config.max_ttl else given

-- `evictCount`
unfoldable pub evict_count : ℕ → ℕ
evict_count n = if n / 10 == 0 then 1 else n / 10

module _ {V : Type 0} where
  unfoldable pub new_in_memory_cache : CacheConfig → InMemoryCache V
  new_in_memory_cache config = record {
    config = config;
    entries = [];
    stats = record { hits = 0; misses = 0; evictions = 0; refreshes = 0 };
  }

  -- `sort.Slice` by the time of creation.
  unfoldable pub insert_by_age : Text × CacheEntry V → Dict (CacheEntry V) → Dict (CacheEntry V)
  insert_by_age (k, e) [] = (k, e) ∷ []
  insert_by_age (k, e) ((j, f) ∷ m) =
      if ltb f.created_at e.created_at then (j, f) ∷ insert_by_age (k, e) m else (k, e) ∷ (j, f) ∷ m

  unfoldable pub sort_by_age : Dict (CacheEntry V) → Dict (CacheEntry V)
  sort_by_age [] = []
  sort_by_age ((k, e) ∷ m) = insert_by_age (k, e) (sort_by_age m)

  -- `delete(m.data, entries[i].key)` for each of the listed entries.
  unfoldable pub delete_keys : Dict (CacheEntry V) → Dict (CacheEntry V) → Dict (CacheEntry V)
  delete_keys [] m = m
  delete_keys ((k, e) ∷ victims) m = delete_keys victims (remove k m)

  evict_from : InMemoryCache V → Dict (CacheEntry V) → InMemoryCache V
  evict_from m [] = m
  evict_from m (e ∷ rest) =
      let count = evict_count (length (e ∷ rest)) in
      record m {
        entries = delete_keys (take count (sort_by_age (e ∷ rest))) m.entries;
        stats = record_evictions m.stats count;
      }

  unfoldable pub evict_lru : InMemoryCache V → InMemoryCache V
  unfolding evict_from
  evict_lru m = evict_from m m.entries

  -- The test before a write that adds `n` entries.
  unfoldable pub make_room : InMemoryCache V → ℕ → InMemoryCache V
  make_room m n = if leb_ℤ m.config.max_size (pos (length m.entries + n)) then evict_lru m else m

  -- The result of a lookup: the state, and the value of an entry that is there and not expired.
  unfoldable pub read_entry :
      InMemoryCache V → Text → ℕ → Option (CacheEntry V) → InMemoryCache V × Option (CacheEntry V)
  unfolding record_hit record_miss
  read_entry m key now none = (record m { stats = record_miss m.stats }, none)
  read_entry m key now (some e) =
      if is_expired e now
      then (record m { entries = remove key m.entries; stats = record_miss m.stats }, none)
      else (record m { stats = record_hit m.stats }, some e)

  unfoldable pub get_with_metadata :
      InMemoryCache V → Text → ℕ → InMemoryCache V × Option (CacheEntry V)
  unfolding read_entry
  get_with_metadata m key now = read_entry m key now (find key m.entries)

  abbrev pub value_of : Option (CacheEntry V) → Option V
  value_of none = none
  value_of (some e) = some e.value

  -- `Get` is `GetWithMetadata`, line by line, but for the value that it returns.
  unfoldable pub get : InMemoryCache V → Text → ℕ → InMemoryCache V × Option V
  unfolding get_with_metadata
  get m key now = let (m', found) = get_with_metadata m key now in (m', value_of found)

  unfoldable pub set_with_metadata : InMemoryCache V → Text → CacheEntry V → InMemoryCache V
  set_with_metadata m key entry =
      let m' = make_room m 0 in record m' { entries = put key entry m'.entries }

  -- The first reading is that of `ExpiresAt`, the second that of `CreatedAt`.
  unfoldable pub set : InMemoryCache V → Text → V → ℤ → ℕ → ℕ → InMemoryCache V
  unfolding set_with_metadata
  set m key value ttl now created = set_with_metadata m key (record {
    value = value;
    expires_at = time_add now (effective_ttl m.config ttl);
    created_at = created;
  })

  unfoldable pub delete : InMemoryCache V → Text → InMemoryCache V
  delete m key = record m { entries = remove key m.entries }

  unfoldable pub clear : InMemoryCache V → InMemoryCache V
  clear m = record m { entries = [] }

  unfoldable pub expire : InMemoryCache V → Text → ℤ → ℕ → InMemoryCache V
  expire m key ttl now = elim (find key m.entries) [
    | none ↦ m
    | some e ↦ record m { entries = put key (record e { expires_at = time_add now ttl }) m.entries }
  ]

  -- The two readings of the clock: by `IsExpired` and by `TTL`.
  unfoldable pub ttl : InMemoryCache V → Text → ℕ → ℕ → Result TtlError ℤ
  ttl m key now now' = elim (find key m.entries) [
    | none ↦ err key_not_found
    | some e ↦ if is_expired e now then ok (pos 0) else ok (entry_ttl e now')
  ]

  unfoldable pub size : InMemoryCache V → ℕ
  size m = length m.entries
