-- ===== src/Cache/Memory/Eviction/Sorting.antt =====
-- Sorting the entries by age, and cutting the sorted list.
use go_exercise.Base.{
  ℕ, suc, ◌≤◌, ◌≡◌, refl, none, some, [], ◌∷◌, arith, inl, inr, ltb, if◌then◌else◌, length,
  Bool-cases,
}
use native.Mathlib.Nat.{le_trans}
use go_exercise.Base.Text.{Text, text_eq, text_eq_iff}
use go_exercise.Base.Dict.{Dict, find, Distinct, AllValues}
use go_exercise.Cache.Entry.{CacheEntry}
use go_exercise.Cache.Memory.{insert_by_age, sort_by_age}

module _ {V : Type 0} where
  abbrev NotBefore : ℕ → CacheEntry V → Type 0
  NotBefore t e = t ≤ e.created_at

  -- No entry was created before one that stands ahead of it.
  abbrev pub IsByAge : Dict (CacheEntry V) → Type 0
  IsByAge [] = Unit
  IsByAge ((k, e) ∷ m) = AllValues (NotBefore e.created_at) m × IsByAge m

  NotBefore-trans :
      (s t : ℕ) (m : Dict (CacheEntry V))
      → s ≤ t
      → AllValues (NotBefore t) m
      → AllValues (NotBefore s) m
  NotBefore-trans s t [] h all = tt
  NotBefore-trans s t ((k, e) ∷ m) h (p, all) = (le_trans h p, NotBefore-trans s t m h all)

  insert-NotBefore :
      (t : ℕ) (k : Text) (e : CacheEntry V) (m : Dict (CacheEntry V))
      → t ≤ e.created_at
      → AllValues (NotBefore t) m
      → AllValues (NotBefore t) (insert_by_age (k, e) m)
  unfolding insert_by_age
  insert-NotBefore t k e [] h all = (h, tt)
  insert-NotBefore t k e ((j, f) ∷ m) h (p, all) =
      elim (Bool-cases (ltb f.created_at e.created_at)) [
        | inl later ↦ rw later (p, insert-NotBefore t k e m h all)
        | inr first ↦ rw first (h, (p, all))
      ]

  insert-IsByAge :
      (k : Text) (e : CacheEntry V) (m : Dict (CacheEntry V))
      → IsByAge m
      → IsByAge (insert_by_age (k, e) m)
  unfolding insert_by_age
  insert-IsByAge k e [] h = (tt, tt)
  insert-IsByAge k e ((j, f) ∷ m) (all, h) = elim (Bool-cases (ltb f.created_at e.created_at)) [
    | inl later ↦
        rw later (insert-NotBefore f.created_at k e m (ground arith) all, insert-IsByAge k e m h)
    | inr first ↦
        let le : e.created_at ≤ f.created_at = ground arith in
        rw first ((le, NotBefore-trans e.created_at f.created_at m le all), (all, h))
  ]

  pub sort-IsByAge : (m : Dict (CacheEntry V)) → IsByAge (sort_by_age m)
  unfolding sort_by_age
  sort-IsByAge [] = tt
  sort-IsByAge ((k, e) ∷ m) = insert-IsByAge k e (sort_by_age m) (sort-IsByAge m)

  find-insert :
      (j k : Text) (e : CacheEntry V) (m : Dict (CacheEntry V))
      → find k m ≡ none
      → find j (insert_by_age (k, e) m) ≡ (if text_eq k j then some e else find j m)
  unfolding find insert_by_age
  find-insert j k e [] new = refl
  find-insert j k e ((i, f) ∷ m) new =
      ground (arith, find-insert j k e m, text_eq_iff k j, text_eq_iff i j, text_eq_iff i k)

  pub find-sort :
      (j : Text) (m : Dict (CacheEntry V)) → Distinct m → find j (sort_by_age m) ≡ find j m
  unfolding find sort_by_age
  find-sort j [] d = refl
  find-sort j ((k, e) ∷ m) (new, d) =
      ground (arith, find-insert j k e (sort_by_age m), find-sort k m d, find-sort j m d)

  insert-Distinct :
      (k : Text) (e : CacheEntry V) (m : Dict (CacheEntry V))
      → find k m ≡ none
      → Distinct m
      → Distinct (insert_by_age (k, e) m)
  unfolding find insert_by_age
  insert-Distinct k e [] new d = (refl, tt)
  insert-Distinct k e ((i, f) ∷ m) new (alone, d) =
      ground (arith, find-insert i k e m, insert-Distinct k e m, text_eq_iff k i, text_eq_iff i k)

  pub sort-Distinct : (m : Dict (CacheEntry V)) → Distinct m → Distinct (sort_by_age m)
  unfolding sort_by_age
  sort-Distinct [] d = tt
  sort-Distinct ((k, e) ∷ m) (new, d) =
      insert-Distinct k e (sort_by_age m) (ground (arith, find-sort k m d)) (sort-Distinct m d)

  length-insert :
      (k : Text) (e : CacheEntry V) (m : Dict (CacheEntry V))
      → length (insert_by_age (k, e) m) ≡ suc (length m)
  unfolding insert_by_age
  length-insert k e [] = refl
  length-insert k e ((j, f) ∷ m) = ground (arith, length-insert k e m)

  pub length-sort : (m : Dict (CacheEntry V)) → length (sort_by_age m) ≡ length m
  unfolding sort_by_age
  length-sort [] = refl
  length-sort ((k, e) ∷ m) = omega (arith, length-insert k e (sort_by_age m), length-sort m)
