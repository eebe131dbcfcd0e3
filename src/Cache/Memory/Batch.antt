-- ===== src/Cache/Memory/Batch.antt =====
-- The methods of `InMemoryCache` that walk over keys: `GetMultiple`, `SetMultiple`, `EvictExpired`,
-- `getExpiringKeys`, and `HitRate`.
use go_exercise.Base.{
  ℕ, ◌+◌, ◌==◌, Bool, ◌||◌, Option, none, some, List, [], ◌∷◌, if◌then◌else◌, length,
}
use go_exercise.Base.Int.{ℤ, pos, time_add, time_sub}
use go_exercise.Base.Text.{Text}
use go_exercise.Base.Dict.{Dict, find, put}
use go_exercise.Base.Float64.{Float64}
use go_exercise.Cache.Entry.{CacheEntry, is_expired, entry_ttl}
use go_exercise.Cache.Memory.{InMemoryCache, CacheStats, record_evictions, delete_keys, make_room}

-- An item of `SetMultiple` with the two readings of the clock for its entry.
pub record Item (V : Type 0) : Type 0 where
  pub key : Text
  pub value : V
  pub now : ℕ
  pub created : ℕ

module _ {V : Type 0} where
  unfoldable pub collect_live : Text → ℕ → Option (CacheEntry V) → Dict V → Dict V
  collect_live key now none result = result
  collect_live key now (some e) result = if is_expired e now then result else put key e.value result

  -- The loop of `GetMultiple` over the keys, each with the reading of the clock at its test.
  unfoldable pub collect_keys : Dict (CacheEntry V) → List (Text × ℕ) → Dict V → Dict V
  unfolding collect_live
  collect_keys m [] result = result
  collect_keys m ((key, now) ∷ keys) result =
      collect_keys m keys (collect_live key now (find key m) result)

  unfoldable pub get_multiple : InMemoryCache V → List (Text × ℕ) → Dict V
  unfolding collect_keys
  get_multiple m keys = collect_keys m.entries keys []

  unfoldable pub put_items : ℤ → List (Item V) → Dict (CacheEntry V) → Dict (CacheEntry V)
  put_items ttl [] m = m
  put_items ttl (item ∷ items) m = put_items ttl items (
      put item.key
        (record {
          value = item.value;
          expires_at = time_add item.now ttl;
          created_at = item.created;
        })
        m)

  unfoldable pub set_multiple : InMemoryCache V → List (Item V) → ℤ → InMemoryCache V
  unfolding put_items
  set_multiple m [] ttl = m
  set_multiple m (item ∷ items) ttl =
      let m' = make_room m (length (item ∷ items)) in
      record m' { entries = put_items ttl (item ∷ items) m'.entries }

  -- `expiredKeys` of `EvictExpired`; `clock` gives the reading at the test of each key.
  unfoldable pub expired_entries : (Text → ℕ) → Dict (CacheEntry V) → Dict (CacheEntry V)
  expired_entries clock [] = []
  expired_entries clock ((k, e) ∷ m) =
      if is_expired e (clock k) then (k, e) ∷ expired_entries clock m else expired_entries clock m

  unfoldable pub evict_expired : InMemoryCache V → (Text → ℕ) → InMemoryCache V × ℕ
  unfolding expired_entries
  evict_expired m clock =
      let expired = expired_entries clock m.entries in
      let count = length expired in
      (
        record m {
          entries = delete_keys expired m.entries;
          stats = record_evictions m.stats count;
        },
        count,
      )

module _ (fl : Float64) where
  open fl use {Num, of_int, divide, less, same}

  -- `remainingRatio <= threshold`, with the reading of the clock by `TTL`.
  unfoldable pub is_expiring : {V : Type 0} → Num → CacheEntry V → ℕ → Bool
  is_expiring threshold e now =
      let total = time_sub e.expires_at e.created_at in
      let ratio = divide (of_int (entry_ttl e now)) (of_int total) in
      less ratio threshold || same ratio threshold

  -- `clock` gives the two readings at each key.
  unfoldable pub expiring_keys :
      {V : Type 0} → Num → (Text → ℕ × ℕ) → Dict (CacheEntry V) → List Text
  unfolding is_expiring
  expiring_keys threshold clock [] = []
  expiring_keys threshold clock ((k, e) ∷ m) =
      let rest = expiring_keys threshold clock m in
      if is_expired e (clock k).0
      then rest
      else if is_expiring threshold e (clock k).1
      then k ∷ rest
      else rest

  unfoldable pub get_expiring_keys :
      {V : Type 0} → InMemoryCache V → Num → (Text → ℕ × ℕ) → List Text
  unfolding expiring_keys
  get_expiring_keys m threshold clock = expiring_keys threshold clock m.entries

  unfoldable pub hit_rate : CacheStats → Num
  hit_rate s =
      let total = s.hits + s.misses in
      if total == 0 then of_int (pos 0) else divide (of_int (pos s.hits)) (of_int (pos total))
