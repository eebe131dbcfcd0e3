-- ===== src/Cache/Memory/Bounds.antt =====
-- How large a cache grows: at most `MaxSize` by writes of one key. `Batches` has `SetMultiple`.
pub mod Batches
use go_exercise.Base.{
  ℕ, suc, ◌+◌, ◌≤◌, ◌<◌, ◌≡◌, refl, true, false, none, some, Option, List, [], ◌∷◌, All, arith, inl,
  inr, leb, if◌then◌else◌, length, Bool-cases, Option-cases,
}
use go_exercise.Base.Int.{ℤ, pos, leb_ℤ, time_add}
use go_exercise.Base.Text.{Text, text_eq, text_eq_iff}
use go_exercise.Base.Dict.{
  Dict, find, put, Distinct, Distinct-put, Distinct-remove, length-put, length-put_old,
  length-remove-le, find-put,
}
use go_exercise.Cache.Entry.{CacheEntry, is_expired}
use go_exercise.Cache.Memory.{
  InMemoryCache, make_room, evict_lru, evict_count, delete_keys, read_entry, get_with_metadata, get,
  set, set_with_metadata, delete, clear, expire,
}
use go_exercise.Cache.Memory.Batch.{expired_entries, evict_expired}
use go_exercise.Cache.Memory.Deletion.{Distinct-delete_keys, length-delete_keys-le}
use go_exercise.Cache.Memory.Eviction.{length-evict_lru, evict_count_bounds}

-- A call of a method that writes at most one key, or removes some.
pub data Call (V : Type 0) : Type 0 where
  read : Text → ℕ → Call V
  write : Text → V → ℤ → ℕ → ℕ → Call V
  write_entry : Text → CacheEntry V → Call V
  erase : Text → Call V
  erase_all : Call V
  renew : Text → ℤ → ℕ → Call V
  erase_expired : (Text → ℕ) → Call V

le_of_leb_pos : (z : ℤ) (a b : ℕ) → z ≡ pos a → leb_ℤ z (pos b) ≡ true → a ≤ b
le_of_leb_pos z a b e h = ground arith

lt_of_leb_pos : (z : ℤ) (a b : ℕ) → z ≡ pos a → leb_ℤ z (pos b) ≡ false → b < a
lt_of_leb_pos z a b e h = ground arith

module _ {V : Type 0} where
  pub record IsBounded (max : ℕ) (m : InMemoryCache V) : Type 0 where
    pub max_size_eq : m.config.max_size ≡ pos max
    pub fits : length m.entries ≤ max
    pub distinct : Distinct m.entries

  config-evict_lru : (m : InMemoryCache V) → (evict_lru m).config ≡ m.config
  unfolding evict_lru
  config-evict_lru m = ground arith

  -- Behind the test of a write of one key there is room for one more.
  make_room-lt :
      (max : ℕ) (m : InMemoryCache V)
      → 0 < max
      → IsBounded max m
      → (length (make_room m 0).entries < max) × IsBounded max (make_room m 0)
  make_room-lt max m h b =
      elim (Bool-cases (leb_ℤ m.config.max_size (pos (length m.entries + 0)))) [
        | inl full ↦
            let over = le_of_leb_pos _ max _ b.max_size_eq full in
            let (size, _, distinct) = length-evict_lru m b.distinct (omega arith) in
            let less = evict_count_bounds (length m.entries) (omega arith) in
            unfold make_room in
            rw full (
              omega (arith, size, less, b.fits),
              record {
                max_size_eq = rw config-evict_lru b.max_size_eq;
                fits = omega (arith, size, b.fits);
                distinct = distinct;
              },
            )
        | inr room ↦
            let under = lt_of_leb_pos _ max _ b.max_size_eq room in
            unfold make_room in rw room (omega arith, b)
      ]

  pub set_with_metadata-IsBounded :
      (max : ℕ) (m : InMemoryCache V) (key : Text) (e : CacheEntry V)
      → 0 < max
      → IsBounded max m
      → IsBounded max (set_with_metadata m key e)
  unfolding set_with_metadata
  set_with_metadata-IsBounded max m key e h b =
      let (room, b') = make_room-lt max m h b in
      record {
        max_size_eq = b'.max_size_eq;
        fits = omega (arith, room, length-put key e (make_room m 0).entries);
        distinct = Distinct-put key e (make_room m 0).entries b'.distinct;
      }

  read_entry-IsBounded :
      (max : ℕ) (m : InMemoryCache V) (key : Text) (now : ℕ) (found : Option (CacheEntry V))
      → IsBounded max m
      → IsBounded max (read_entry m key now found).0
  unfolding read_entry
  read_entry-IsBounded max m key now none b = record {
    max_size_eq = b.max_size_eq;
    fits = b.fits;
    distinct = b.distinct;
  }
  read_entry-IsBounded max m key now (some e) b = elim (Bool-cases (is_expired e now)) [
    | inl old ↦ rw old (record {
      max_size_eq = b.max_size_eq;
      fits = omega (arith, b.fits, length-remove-le key m.entries);
      distinct = Distinct-remove key m.entries b.distinct;
    })
    | inr fresh ↦
        rw fresh (record { max_size_eq = b.max_size_eq; fits = b.fits; distinct = b.distinct })
  ]

  expire-IsBounded :
      (max : ℕ) (m : InMemoryCache V) (key : Text) (ttl : ℤ) (now : ℕ)
      → IsBounded max m
      → IsBounded max (expire m key ttl now)
  unfolding expire
  expire-IsBounded max m key ttl now b = elim (Option-cases (find key m.entries)) [
    | inl absent ↦ rw (absent, expire) b
    | inr (e, there) ↦
        let e' = record e { expires_at = time_add now ttl } in
        rw (there, expire)
          (record {
            max_size_eq = b.max_size_eq;
            fits = omega (arith, b.fits, length-put_old key e' m.entries there);
            distinct = Distinct-put key e' m.entries b.distinct;
          })
  ]

  unfoldable pub apply : InMemoryCache V → Call V → InMemoryCache V
  apply m (read key now) = (get m key now).0
  apply m (write key v ttl now created) = set m key v ttl now created
  apply m (write_entry key e) = set_with_metadata m key e
  apply m (erase key) = delete m key
  apply m erase_all = clear m
  apply m (renew key ttl now) = expire m key ttl now
  apply m (erase_expired clock) = (evict_expired m clock).0

  unfoldable pub run : InMemoryCache V → List (Call V) → InMemoryCache V
  run m [] = m
  run m (c ∷ calls) = run (apply m c) calls

  pub apply-IsBounded :
      (max : ℕ) (m : InMemoryCache V) (c : Call V)
      → 0 < max
      → IsBounded max m
      → IsBounded max (apply m c)
  unfolding apply get get_with_metadata set delete clear evict_expired
  apply-IsBounded max m (read key now) h b =
      let after = read_entry-IsBounded max m key now (find key m.entries) b in
      record { max_size_eq = after.max_size_eq; fits = after.fits; distinct = after.distinct }
  apply-IsBounded max m (write key v ttl now created) h b =
      set_with_metadata-IsBounded max m key _ h b
  apply-IsBounded max m (write_entry key e) h b = set_with_metadata-IsBounded max m key e h b
  apply-IsBounded max m (erase key) h b = record {
    max_size_eq = b.max_size_eq;
    fits = omega (arith, b.fits, length-remove-le key m.entries);
    distinct = Distinct-remove key m.entries b.distinct;
  }
  apply-IsBounded max m erase_all h b = record {
    max_size_eq = b.max_size_eq;
    fits = omega arith;
    distinct = tt;
  }
  apply-IsBounded max m (renew key ttl now) h b = expire-IsBounded max m key ttl now b
  apply-IsBounded max m (erase_expired clock) h b =
      let gone = expired_entries clock m.entries in
      record {
        max_size_eq = b.max_size_eq;
        fits = omega (arith, b.fits, length-delete_keys-le gone m.entries);
        distinct = Distinct-delete_keys gone m.entries b.distinct;
      }

  -- If `MaxSize` is positive, a cache that holds at most `MaxSize` entries, each key once, still
  -- does after any sequence of calls of `Get`, `Set`, `SetWithMetadata`, `Delete`, `Clear`,
  -- `Expire` and `EvictExpired`.
  pub run-IsBounded :
      (max : ℕ) (m : InMemoryCache V) (calls : List (Call V))
      → 0 < max
      → IsBounded max m
      → IsBounded max (run m calls)
  unfolding run
  run-IsBounded max m [] h b = b
  run-IsBounded max m (c ∷ calls) h b =
      run-IsBounded max (apply m c) calls h (apply-IsBounded max m c h b)
