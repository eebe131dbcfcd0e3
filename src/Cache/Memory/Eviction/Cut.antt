-- ===== src/Cache/Memory/Eviction/Cut.antt =====
-- The first entries of a list by age, against the others.
use go_exercise.Base.{
  ℕ, zero, suc, ◌≤◌, ◌≡◌, refl, some, none, [], ◌∷◌, arith, length, take, drop, All-map, Bool-cases,
  inl, inr,
}
use go_exercise.Base.Text.{Text, text_eq}
use go_exercise.Base.Dict.{Dict, find, Distinct, AllValues, AllValues-find}
use go_exercise.Cache.Entry.{CacheEntry}
use go_exercise.Cache.Memory.{sort_by_age}
use go_exercise.Cache.Memory.Deletion.{Present, Present-self}
use go_exercise.Cache.Memory.Eviction.Sorting.{IsByAge, find-sort}

module _ {V : Type 0} where
  pub find-take :
      (j : Text) (n : ℕ) (s : Dict (CacheEntry V)) {x : CacheEntry V}
      → find j (take n s) ≡ some x
      → find j s ≡ some x
  unfolding find
  find-take j zero s h = absurd (cc)
  find-take j (suc n) [] h = h
  find-take j (suc n) ((k, e) ∷ s) {x} h = ground (arith, find-take j n s {x = x})

  pub find-drop :
      (j : Text) (n : ℕ) (s : Dict (CacheEntry V))
      → find j (take n s) ≡ none
      → find j (drop n s) ≡ find j s
  unfolding find
  find-drop j zero s h = refl
  find-drop j (suc n) [] h = refl
  find-drop j (suc n) ((k, e) ∷ s) h = ground (arith, find-drop j n s)

  find-take_absent :
      (j : Text) (n : ℕ) (s : Dict (CacheEntry V)) → find j s ≡ none → find j (take n s) ≡ none
  unfolding find
  find-take_absent j zero s h = refl
  find-take_absent j (suc n) [] h = refl
  find-take_absent j (suc n) ((k, e) ∷ s) h = ground (arith, find-take_absent j n s)

  pub take-Distinct : (n : ℕ) (s : Dict (CacheEntry V)) → Distinct s → Distinct (take n s)
  take-Distinct zero s d = tt
  take-Distinct (suc n) [] d = tt
  take-Distinct (suc n) ((k, e) ∷ s) (new, d) = (find-take_absent k n s new, take-Distinct n s d)

  pub take-Present : (n : ℕ) (m s : Dict (CacheEntry V)) → Present m s → Present m (take n s)
  take-Present zero m s h = tt
  take-Present (suc n) m [] h = tt
  take-Present (suc n) m ((k, e) ∷ s) (p, h) = (p, take-Present n m s h)

  pub sort-Present : (m : Dict (CacheEntry V)) → Distinct m → Present m (sort_by_age m)
  sort-Present m d =
      All-map _ _ (λ e p. rw (find-sort e.0 m d) at p) (sort_by_age m)
        (Present-self (sort_by_age m))

  pub length-take : (n : ℕ) (s : Dict (CacheEntry V)) → n ≤ length s → length (take n s) ≡ n
  length-take zero s h = refl
  length-take (suc n) [] h = absurd (omega arith)
  length-take (suc n) ((k, e) ∷ s) h = omega (arith, length-take n s)

  drop-AllValues :
      (P : CacheEntry V → Type 0) (n : ℕ) (s : Dict (CacheEntry V))
      → AllValues P s
      → AllValues P (drop n s)
  drop-AllValues P zero s h = h
  drop-AllValues P (suc n) [] h = tt
  drop-AllValues P (suc n) ((k, e) ∷ s) (p, h) = drop-AllValues P n s h

  -- Each of the first `n` entries was created no later than each of the others.
  pub by_age_cut :
      (i j : Text) (n : ℕ) (s : Dict (CacheEntry V)) {x e : CacheEntry V}
      → IsByAge s
      → find i (take n s) ≡ some x
      → find j (drop n s) ≡ some e
      → x.created_at ≤ e.created_at
  by_age_cut i j zero s h first other = absurd (unfold find in cc)
  by_age_cut i j (suc n) [] h first other = absurd (unfold find in cc)
  by_age_cut i j (suc n) ((k, f) ∷ s) {x} {e} (all, h) first other =
      elim (Bool-cases (text_eq k i)) [
        | inl same ↦
            let x_eq : f ≡ x = unfold find in ground arith in
            let later =
              AllValues-find (λ (g : CacheEntry V). f.created_at ≤ g.created_at) j (drop n s)
                (drop-AllValues _ n s all) other in
            rw (← x_eq) later
        | inr differ ↦ by_age_cut i j n s {x = x} {e = e} h (unfold find in ground arith) other
      ]
