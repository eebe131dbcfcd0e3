-- ===== src/Cache/Memory/Eviction.antt =====
-- `evictLRU`: which entries go to make room. Despite its name it goes by the time of creation.
mod Sorting
mod Cut
use go_exercise.Base.{
  ℕ, zero, suc, ◌+◌, ◌*◌, ◌/◌, ◌≤◌, ◌<◌, ◌≡◌, ◌≢◌, refl, sym, ◌∙◌, Bool, true, false, Option, none,
  some, List, [], ◌∷◌, arith, inl, inr, if◌then◌else◌, length, take, drop, is_some, Option-cases,
}
use go_exercise.Base.Text.{Text}
use go_exercise.Base.Dict.{Dict, find, Distinct}
use go_exercise.Cache.Entry.{CacheEntry}
use go_exercise.Cache.Memory.{
  InMemoryCache, evict_count, sort_by_age, delete_keys, evict_from, evict_lru, record_evictions,
}
use go_exercise.Cache.Memory.Deletion.{
  find-delete_keys, length-delete_keys, Distinct-delete_keys, Present, Present-self,
}
use Sorting.{sort-IsByAge, find-sort, sort-Distinct, length-sort}
use Cut.{find-take, find-drop, take-Distinct, take-Present, sort-Present, length-take, by_age_cut}

-- One entry of a cache that is not empty goes, or a tenth of ten or more.
pub evict_count_bounds :
    (n : ℕ) → 0 < n → (0 < evict_count n) × (evict_count n ≤ n) × (evict_count n * 10 ≤ n + 9)
unfolding evict_count
evict_count_bounds n h = ground arith

module _ {V : Type 0} where
  abbrev pub victims : Dict (CacheEntry V) → Dict (CacheEntry V)
  victims m = take (evict_count (length m)) (sort_by_age m)

  -- `evictLRU` on a cache that is not empty.
  pub evict_lru_entries :
      (m : InMemoryCache V)
      → 0 < length m.entries
      → ((evict_lru m).entries ≡ delete_keys (victims m.entries) m.entries)
        × ((evict_lru m).stats.evictions ≡ m.stats.evictions + evict_count (length m.entries))
  unfolding evict_lru record_evictions
  evict_lru_entries m h = go m.entries h
    where
      go :
          (l : Dict (CacheEntry V))
          → 0 < length l
          → ((evict_from m l).entries ≡ delete_keys (victims l) m.entries)
            × ((evict_from m l).stats.evictions ≡ m.stats.evictions + evict_count (length l))
      go [] h = absurd (omega arith)
      go (e ∷ l) h = (refl, refl)

  length-victims :
      (m : Dict (CacheEntry V)) → 0 < length m → length (victims m) ≡ evict_count (length m)
  length-victims m h =
      length-take (evict_count (length m)) (sort_by_age m)
        (omega (arith, evict_count_bounds (length m), length-sort m))

  -- For a cache that is not empty and in which each key stands once, `evictLRU` removes a tenth of
  -- the entries, at least one, and counts them.
  pub length-evict_lru :
      (m : InMemoryCache V)
      → Distinct m.entries
      → 0 < length m.entries
      → (length (evict_lru m).entries + evict_count (length m.entries) ≡ length m.entries)
        × ((evict_lru m).stats.evictions ≡ m.stats.evictions + evict_count (length m.entries))
        × Distinct (evict_lru m).entries
  length-evict_lru m d h =
      let (gone, counted) = evict_lru_entries m h in
      let sorted = sort_by_age m.entries in
      let n = evict_count (length m.entries) in
      let removed =
        length-delete_keys (victims m.entries) m.entries
          (take-Distinct n sorted (sort-Distinct m.entries d)) d
          (take-Present n m.entries sorted (sort-Present m.entries d)) in
      (
        rw gone (omega (arith, removed, length-victims m.entries h)),
        counted,
        rw gone (Distinct-delete_keys (victims m.entries) m.entries d),
      )

  -- A removed key stood in the map with the entry that is among the victims.
  removed_victim :
      (i : Text) (m : Dict (CacheEntry V)) {x : CacheEntry V}
      → Distinct m
      → find i m ≡ some x
      → is_some (find i (victims m)) ≡ true
      → find i (victims m) ≡ some x
  removed_victim i m {x} d was in_victims = elim (Option-cases (find i (victims m))) [
    | inl absent ↦ absurd (ground arith)
    | inr (y, there) ↦
        let n = evict_count (length m) in
        let same : find i m ≡ some y =
          sym (find-sort i m d) ∙ find-take i n (sort_by_age m) {x = y} there in
        there ∙ sym same ∙ was
  ]

  -- For a cache in which each key stands once: an entry that `evictLRU` keeps is the one that was
  -- there, and was created no earlier than any entry that it removes.
  pub evict_lru_oldest :
      (m : InMemoryCache V) (i j : Text) {x e : CacheEntry V}
      → Distinct m.entries
      → 0 < length m.entries
      → find i m.entries ≡ some x
      → find i (evict_lru m).entries ≡ none
      → find j (evict_lru m).entries ≡ some e
      → (find j m.entries ≡ some e) × (x.created_at ≤ e.created_at)
  evict_lru_oldest m i j {x} {e} d h was gone kept =
      let sorted = sort_by_age m.entries in
      let n = evict_count (length m.entries) in
      let vs = victims m.entries in
      let same = (evict_lru_entries m h).0 in
      let gone' : find i (delete_keys vs m.entries) ≡ none = rw same at gone in
      let kept' : find j (delete_keys vs m.entries) ≡ some e = rw same at kept in
      let victim : find i vs ≡ some x =
        removed_victim i m.entries d was
          (ground (arith, find-delete_keys i vs m.entries, gone', was)) in
      let spared : find j vs ≡ none = ground (arith, find-delete_keys j vs m.entries, kept') in
      let there : find j m.entries ≡ some e =
        ground (arith, find-delete_keys j vs m.entries, kept') in
      (
        there,
        by_age_cut i j n sorted {x = x} {e = e} (sort-IsByAge m.entries) victim
            (find-drop j n sorted spared ∙ find-sort j m.entries d ∙ there),
      )
