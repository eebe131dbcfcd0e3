-- ===== src/Cache/Fallback/Union.antt =====
-- What `GetMultiple` of `FallbackCache` returns, key by key.
use go_exercise.Base.{
  ℕ, ◌≡◌, ◌∙◌, ap, refl, Bool, true, false, not, ◌&&◌, ◌||◌, Option, none, some, List, [], ◌∷◌,
  arith, inl, inr, Bool-cases, Option-cases, if◌then◌else◌, is_some,
}
use go_exercise.Base.Text.{Text, text_eq, text_eq_iff, text_eq→eq}
use go_exercise.Base.Dict.{Dict, find, put, find-put, Distinct, Distinct-put}
use go_exercise.Base.Result.{Result, ok, err, Result-cases}
use go_exercise.Cache.Entry.{CacheEntry, is_expired}
use go_exercise.Cache.Memory.{InMemoryCache}
use go_exercise.Cache.Memory.Batch
use go_exercise.Cache.Memory.Batch.{collect_live, collect_keys}
use go_exercise.Cache.Fallback.{
  CacheApi, FallbackCache, missing_keys, put_all, fill_missing, names, get_multiple,
}

module _ {V : Type 0} where
  -- One of the readings of the clock for the key finds the entry not expired.
  abbrev pub found_live : CacheEntry V → Text → List (Text × ℕ) → Bool
  found_live e k [] = false
  found_live e k ((j, now) ∷ keys) = (text_eq j k && not (is_expired e now)) || found_live e k keys

  -- What the fallback has for the key, if it is asked for.
  abbrev pub served : Option (CacheEntry V) → Text → List (Text × ℕ) → Option V
  served none k keys = none
  served (some e) k keys = if found_live e k keys then some e.value else none

  abbrev pub or_else : Option V → Option V → Option V
  or_else none v = v
  or_else (some w) v = some w

  -- The step at a key that is the one looked for, and at another.
  collect_same :
      (k j : Text) (now : ℕ) (keys : List (Text × ℕ)) (r : Dict V) (e : Option (CacheEntry V))
      → text_eq j k ≡ true
      → or_else (served e k keys) (find k (collect_live j now e r))
        ≡ or_else (served e k ((j, now) ∷ keys)) (find k r)
  unfolding collect_live
  collect_same k j now keys r none h = refl
  collect_same k j now keys r (some e) h = ground (arith, find-put j k e.value r)

  collect_other :
      (k j : Text) (now : ℕ) (keys : List (Text × ℕ)) (r : Dict V) (e e' : Option (CacheEntry V))
      → text_eq j k ≡ false
      → or_else (served e k keys) (find k (collect_live j now e' r))
        ≡ or_else (served e k ((j, now) ∷ keys)) (find k r)
  unfolding collect_live
  collect_other k j now keys r none none h = refl
  collect_other k j now keys r none (some x) h = ground (arith, find-put j k x.value r)
  collect_other k j now keys r (some e) none h = ground arith
  collect_other k j now keys r (some e) (some x) h = ground (arith, find-put j k x.value r)

  find-collect :
      (k : Text) (m : Dict (CacheEntry V)) (keys : List (Text × ℕ)) (r : Dict V)
      → find k (collect_keys m keys r) ≡ or_else (served (find k m) k keys) (find k r)
  unfolding collect_keys
  find-collect k m [] r = elim (Option-cases (find k m)) [
    | inl none' ↦ rw none' refl
    | inr (e, there) ↦ rw there refl
  ]
  find-collect k m ((j, now) ∷ keys) r =
      let ih = find-collect k m keys (collect_live j now (find j m) r) in
      elim (Bool-cases (text_eq j k)) [
        | inr other ↦ ih ∙ collect_other k j now keys r (find k m) (find j m) other
        | inl same ↦
            let at : find j m ≡ find k m = ap (λ i. find i m) (text_eq→eq j k same) in
            ih ∙ rw at (collect_same k j now keys r (find k m) same)
      ]

  Distinct-collect :
      (m : Dict (CacheEntry V)) (keys : List (Text × ℕ)) (r : Dict V)
      → Distinct r
      → Distinct (collect_keys m keys r)
  unfolding collect_keys collect_live
  Distinct-collect m [] r d = d
  Distinct-collect m ((j, now) ∷ keys) r d =
      Distinct-collect m keys (collect_live j now (find j m) r) (Distinct-live j now (find j m))
    where
      Distinct-live :
          (j : Text) (now : ℕ) (e : Option (CacheEntry V)) → Distinct (collect_live j now e r)
      Distinct-live j now none = d
      Distinct-live j now (some e) = elim (Bool-cases (is_expired e now)) [
        | inl old ↦ rw old d
        | inr fresh ↦ rw fresh (Distinct-put j e.value r d)
      ]

  find-put_all :
      (k : Text) (d r : Dict V) → Distinct d → find k (put_all d r) ≡ or_else (find k d) (find k r)
  unfolding put_all find
  find-put_all k [] r h = refl
  find-put_all k ((j, v) ∷ d) r (new, h) =
      ground (arith, find-put_all k d (put j v r) h, find-put j k v r, text_eq_iff j k)

  or_else-none : (v : Option V) → or_else v none ≡ v
  or_else-none none = refl
  or_else-none (some v) = refl

  served-missing :
      (k : Text) (result : Dict V) (e : Option (CacheEntry V)) (keys : List (Text × ℕ))
      → served e k (missing_keys result keys)
        ≡ (if is_some (find k result) then none else served e k keys)
  unfolding missing_keys
  served-missing k result none keys = ground arith
  served-missing k result (some e) [] = ground arith
  served-missing k result (some e) ((j, now) ∷ keys) =
      ground (arith, served-missing k result (some e) keys, text_eq_iff j k)

  find-get_multiple :
      (k : Text) (m : InMemoryCache V) (keys : List (Text × ℕ))
      → find k (Batch.get_multiple m keys) ≡ served (find k m.entries) k keys
  unfolding Batch.get_multiple find
  find-get_multiple k m keys =
      find-collect k m.entries keys [] ∙ or_else-none (served (find k m.entries) k keys)

  find-fill_missing :
      (k : Text) (m : InMemoryCache V) (result : Dict V) (missing : List (Text × ℕ))
      → find k (fill_missing m result missing)
        ≡ or_else (served (find k m.entries) k missing) (find k result)
  unfolding fill_missing Batch.get_multiple
  find-fill_missing k m result [] = elim (Option-cases (find k m.entries)) [
    | inl absent ↦ rw absent refl
    | inr (e, there) ↦ rw there refl
  ]
  find-fill_missing k m result (x ∷ missing) =
      find-put_all k (Batch.get_multiple m (x ∷ missing)) result
        (Distinct-collect m.entries (x ∷ missing) [] tt)
      ∙ ap (λ v. or_else v (find k result)) (find-get_multiple k m (x ∷ missing))

  or_else-swap : (o s : Option V) → or_else (if is_some o then none else s) o ≡ or_else o s
  or_else-swap none s = or_else-none s
  or_else-swap (some v) s = refl

module _ {V E : Type 0} where
  abbrev pub primary_answer : Text → Result E (Dict V) → Option V
  primary_answer k (err e) = none
  primary_answer k (ok result) = find k result

module _ {V E : Type 0} {P : CacheApi V E} where
  -- When the primary cache answers `GetMultiple`, the result has for each key what the primary has
  -- and, for a key that it lacks, the value of the fallback, if the key is asked for and its entry
  -- is not expired at its test. When the primary fails, it has what the fallback has.
  pub get_multiple_exact :
      (f : FallbackCache P) (keys : List (Text × ℕ)) (k : Text)
      → find k (get_multiple f keys).1
        ≡ or_else
            (primary_answer k ((P.get_multiple (names keys) f.primary).1))
            (served (find k f.fallback.entries) k keys)
  unfolding get_multiple
  get_multiple_exact f keys k = elim (Result-cases ((P.get_multiple (names keys) f.primary).1)) [
    | inr (e, failed) ↦ rw (get_multiple, failed) (find-get_multiple k f.fallback keys)
    | inl (result, good) ↦
        rw (get_multiple, good)
          (find-fill_missing k f.fallback result (missing_keys result keys)
            ∙ ap (λ v. or_else v (find k result))
                (served-missing k result (find k f.fallback.entries) keys)
            ∙ or_else-swap (find k result) (served (find k f.fallback.entries) k keys))
  ]
