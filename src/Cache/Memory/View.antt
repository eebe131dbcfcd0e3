-- ===== src/Cache/Memory/View.antt =====
-- What a client can see of a cache: at each instant, a map from keys to live values.
use go_exercise.Base.{
  ℕ, ◌+◌, ◌≤◌, ◌≡◌, ◌≢◌, refl, ap, Option, none, some, [], ◌∷◌, arith, inl, inr, ltb, if◌then◌else◌,
  length, Bool-cases,
}
use go_exercise.Base.Int.{ℤ, time_add}
use go_exercise.Base.Text.{Text, text_eq, text_eq_iff, text_eq→eq}
use go_exercise.Base.Dict.{Dict, find, Distinct, find-put_self, find-put_ne, find-remove}
use go_exercise.Cache.Entry.{CacheEntry, is_expired}
use go_exercise.Cache.Memory.{
  InMemoryCache, effective_ttl, make_room, get, set, delete, record_evictions,
}
use go_exercise.Cache.Memory.Deletion.{find-delete_keys, length-delete_keys, Present, Present-self}
use go_exercise.Cache.Memory.Batch.{expired_entries, evict_expired}

module _ {V : Type 0} where
  -- The value of an entry that has not expired.
  unfoldable pub live : ℕ → Option (CacheEntry V) → Option V
  live now none = none
  live now (some e) = if is_expired e now then none else some e.value

  unfoldable pub view : InMemoryCache V → ℕ → Text → Option V
  unfolding live
  view m now key = live now (find key m.entries)

  -- `Get` returns the live value of its key and counts one hit or one miss; and it hides nothing:
  -- for every key, at every time from then on, the cache shows what it showed before.
  pub get-view :
      (m : InMemoryCache V) (key : Text) (now later : ℕ) (j : Text)
      → now ≤ later
      → ((get m key now).1 ≡ view m now key)
        × (view (get m key now).0 later j ≡ view m later j)
        × ((get m key now).0.stats.hits + (get m key now).0.stats.misses
            ≡ m.stats.hits + m.stats.misses + 1)
  unfolding get view is_expired
  get-view m key now later j h = ground (arith, find-remove key j m.entries, text_eq_iff key j)

  -- After `Set` of a key, `Get` of it returns the value up to and at the end of the lifetime that
  -- the configuration allows, and misses from then on, whatever was evicted to make room.
  pub get-set :
      (m : InMemoryCache V) (key : Text) (v : V) (ttl : ℤ) (now created later : ℕ)
      → (get (set m key v ttl now created) key later).1
        ≡ (if ltb (time_add now (effective_ttl m.config ttl)) later then none else some v)
  unfolding get set is_expired
  get-set m key v ttl now created later = rw find-put_self (ground arith)

  -- `Set` of one key changes what the cache shows of another only by what it evicts to make room.
  pub view-set_ne :
      (m : InMemoryCache V) (key j : Text) (v : V) (ttl : ℤ) (now created later : ℕ)
      → j ≢ key
      → view (set m key v ttl now created) later j ≡ view (make_room m 0) later j
  unfolding view set
  view-set_ne m key j v ttl now created later other = rw (find-put_ne key j _ _ other)

  pub view-delete :
      (m : InMemoryCache V) (key j : Text) (later : ℕ)
      → view (delete m key) later j ≡ (if text_eq key j then none else view m later j)
  unfolding view delete
  view-delete m key j later = ground (arith, find-remove key j m.entries)

  -- An entry, if the reading of the clock does not find it expired.
  abbrev pub unexpired : ℕ → Option (CacheEntry V) → Option (CacheEntry V)
  unexpired now none = none
  unexpired now (some e) = if is_expired e now then none else some e

  abbrev pub expired : ℕ → Option (CacheEntry V) → Option (CacheEntry V)
  expired now none = none
  expired now (some e) = if is_expired e now then some e else none

  find-expired_entries :
      (clock : Text → ℕ) (j : Text) (m : Dict (CacheEntry V))
      → Distinct m
      → find j (expired_entries clock m) ≡ expired (clock j) (find j m)
  unfolding find expired_entries
  find-expired_entries clock j [] d = refl
  find-expired_entries clock j ((k, e) ∷ m) (new, d) = elim (Bool-cases (text_eq k j)) [
    | inl same ↦
        let e' : k ≡ j = text_eq→eq k j same in
        ground (arith, find-expired_entries clock j m d, ap clock e', new)
    | inr other ↦ ground (arith, find-expired_entries clock j m d)
  ]

  Distinct-expired_entries :
      (clock : Text → ℕ) (m : Dict (CacheEntry V)) → Distinct m → Distinct (expired_entries clock m)
  unfolding expired_entries
  Distinct-expired_entries clock [] d = tt
  Distinct-expired_entries clock ((k, e) ∷ m) (new, d) =
      ground (arith, find-expired_entries clock k m d, new, Distinct-expired_entries clock m d)

  Present-expired_entries :
      (clock : Text → ℕ) (m n : Dict (CacheEntry V))
      → Present n m
      → Present n (expired_entries clock m)
  unfolding expired_entries
  Present-expired_entries clock [] n h = tt
  Present-expired_entries clock ((k, e) ∷ m) n (p, h) = elim (Bool-cases (is_expired e (clock k))) [
    | inl old ↦ rw old (p, Present-expired_entries clock m n h)
    | inr fresh ↦ rw fresh (Present-expired_entries clock m n h)
  ]

  -- For a cache in which each key stands once, `EvictExpired` removes exactly the entries that the
  -- clock finds expired at their test, leaves every other entry as it is, and returns how many
  -- entries it removed, which it adds to the count of evictions.
  pub evict_expired_exact :
      (m : InMemoryCache V) (clock : Text → ℕ) (j : Text)
      → Distinct m.entries
      → (find j (evict_expired m clock).0.entries ≡ unexpired (clock j) (find j m.entries))
        × (length (evict_expired m clock).0.entries + (evict_expired m clock).1 ≡ length m.entries)
        × ((evict_expired m clock).0.stats.evictions
            ≡ m.stats.evictions + (evict_expired m clock).1)
  unfolding evict_expired
  evict_expired_exact m clock j d = (
    ground (
      arith,
      find-delete_keys j (expired_entries clock m.entries) m.entries,
      find-expired_entries clock j m.entries d,
    ),
    length-delete_keys (expired_entries clock m.entries) m.entries
        (Distinct-expired_entries clock m.entries d) d
        (Present-expired_entries clock m.entries m.entries (Present-self m.entries)),
    unfold record_evictions in refl,
  )
