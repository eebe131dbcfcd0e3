-- ===== src/Cache/Memory/Bounds/Batches.antt =====
-- `SetMultiple` evicts once, a tenth of the entries, whatever the number of items that it adds.
use go_exercise.Base.{ℕ, ◌+◌, ◌≤◌, ◌<◌, ◌≡◌, ◌≢◌, true, none, List, [], ◌∷◌, All, arith, length}
use go_exercise.Base.Int.{ℤ, pos, leb_ℤ}
use go_exercise.Base.Text.{Text, text_eq_iff}
use go_exercise.Base.Dict.{Dict, find, put, find-put, length-put_new}
use go_exercise.Cache.Entry.{CacheEntry}
use go_exercise.Cache.Memory.{InMemoryCache, make_room, evict_lru, evict_count, delete_keys}
use go_exercise.Cache.Memory.Batch.{Item, put_items, set_multiple}
use go_exercise.Cache.Memory.Bounds.{IsBounded}
use go_exercise.Cache.Memory.Deletion.{find-delete_keys}
use go_exercise.Cache.Memory.Eviction.{victims, evict_lru_entries, length-evict_lru}

full_batch : (z : ℤ) (max n : ℕ) → z ≡ pos max → max ≤ n → leb_ℤ z (pos n) ≡ true
full_batch z max n e h = rw e (ground arith)

module _ {V : Type 0} where
  -- The keys of the items are new to the map and to each other.
  abbrev pub Fresh : Dict (CacheEntry V) → List (Item V) → Type 0
  Fresh m [] = Unit
  Fresh m (item ∷ items) =
      (find item.key m ≡ none) × All (λ (x : Item V). item.key ≢ x.key) items × Fresh m items

  Fresh-put :
      (k : Text) (e : CacheEntry V) (m : Dict (CacheEntry V)) (items : List (Item V))
      → All (λ (x : Item V). k ≢ x.key) items
      → Fresh m items
      → Fresh (put k e m) items
  Fresh-put k e m [] others f = tt
  Fresh-put k e m (item ∷ items) (other, others) (new, apart, f) = (
    ground (arith, find-put k item.key e m, text_eq_iff k item.key),
    apart,
    Fresh-put k e m items others f,
  )

  length-put_items :
      (ttl : ℤ) (items : List (Item V)) (m : Dict (CacheEntry V))
      → Fresh m items
      → length (put_items ttl items m) ≡ length m + length items
  unfolding put_items
  length-put_items ttl [] m f = omega arith
  length-put_items ttl (item ∷ items) m (new, apart, f) = omega (
    arith,
    length-put_items ttl items _ (Fresh-put item.key _ m items apart f),
    length-put_new item.key _ m new,
  )

  Fresh-delete_keys :
      (vs m : Dict (CacheEntry V)) (items : List (Item V))
      → Fresh m items
      → Fresh (delete_keys vs m) items
  Fresh-delete_keys vs m [] f = tt
  Fresh-delete_keys vs m (item ∷ items) (new, apart, f) =
      (ground (arith, find-delete_keys item.key vs m), apart, Fresh-delete_keys vs m items f)

  Fresh-evict_lru :
      (m : InMemoryCache V) (items : List (Item V))
      → 0 < length m.entries
      → Fresh m.entries items
      → Fresh (evict_lru m).entries items
  Fresh-evict_lru m items h f =
      rw (evict_lru_entries m h).0 (Fresh-delete_keys (victims m.entries) m.entries items f)

  -- For a cache that is not empty, holds at most `MaxSize` entries and holds each key once:
  -- `SetMultiple` of items with new and different keys, so many that they do not fit beside the
  -- entries less the tenth that is evicted, leaves more than `MaxSize` entries.
  pub set_multiple_exceeds :
      (max : ℕ) (m : InMemoryCache V) (items : List (Item V)) (ttl : ℤ)
      → IsBounded max m
      → 0 < length m.entries
      → Fresh m.entries items
      → max + evict_count (length m.entries) < length m.entries + length items
      → max < length (set_multiple m items ttl).entries
  set_multiple_exceeds max m [] ttl b h f over = absurd (omega (arith, b.fits))
  set_multiple_exceeds max m (item ∷ items) ttl b h f over =
      let n = length (item ∷ items) in
      let (size, _, _) = length-evict_lru m b.distinct h in
      let written =
        length-put_items ttl (item ∷ items) (evict_lru m).entries
          (Fresh-evict_lru m (item ∷ items) h f) in
      unfold set_multiple make_room in
      rw (full_batch _ max (length m.entries + n) b.max_size_eq (omega arith))
        (omega (arith, written, size))
