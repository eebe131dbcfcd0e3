-- ===== src/Cache/Memory/Deletion.antt =====
-- What deleting a list of keys leaves.
use go_exercise.Base.{
  ◌+◌, ◌≤◌, ◌≡◌, refl, true, none, [], ◌∷◌, arith, inl, inr, if◌then◌else◌, length, is_some, All,
  Option-cases,
}
use go_exercise.Base.Text.{Text, text_eq_iff, text_eq_refl}
use go_exercise.Base.Dict.{
  Dict, find, remove, Distinct, find-remove, Distinct-remove, length-remove, length-remove-le,
}
use go_exercise.Cache.Entry.{CacheEntry}
use go_exercise.Cache.Memory.{delete_keys}

module _ {V : Type 0} where
  pub find-delete_keys :
      (j : Text) (vs m : Dict (CacheEntry V))
      → find j (delete_keys vs m) ≡ (if is_some (find j vs) then none else find j m)
  unfolding delete_keys find
  find-delete_keys j [] m = refl
  find-delete_keys j ((k, e) ∷ vs) m =
      ground (arith, find-delete_keys j vs (remove k m), find-remove k j m)

  pub Distinct-delete_keys : (vs m : Dict (CacheEntry V)) → Distinct m → Distinct (delete_keys vs m)
  unfolding delete_keys
  Distinct-delete_keys [] m d = d
  Distinct-delete_keys ((k, e) ∷ vs) m d =
      Distinct-delete_keys vs (remove k m) (Distinct-remove k m d)

  -- Every key of the list is in the map.
  abbrev pub Present : Dict (CacheEntry V) → Dict (CacheEntry V) → Type 0
  Present m = All (λ e. is_some (find e.0 m) ≡ true)

  Present-remove :
      (k : Text) (vs m : Dict (CacheEntry V))
      → find k vs ≡ none
      → Present m vs
      → Present (remove k m) vs
  unfolding find
  Present-remove k [] m new h = tt
  Present-remove k ((j, e) ∷ vs) m new (p, h) = (
    ground (arith, find-remove k j m, text_eq_iff k j, text_eq_iff j k),
    Present-remove k vs m (ground arith) h,
  )

  pub length-delete_keys :
      (vs m : Dict (CacheEntry V))
      → Distinct vs
      → Distinct m
      → Present m vs
      → length (delete_keys vs m) + length vs ≡ length m
  unfolding delete_keys
  length-delete_keys [] m dv d h = omega arith
  length-delete_keys ((k, e) ∷ vs) m dv d (p, h) = elim (Option-cases (find k m)) [
    | inl gone ↦ absurd (ground arith)
    | inr (f, there) ↦
        let rest =
          length-delete_keys vs (remove k m) dv.1 (Distinct-remove k m d)
            (Present-remove k vs m dv.0 h) in
        omega (arith, rest, length-remove k m d there)
  ]

  Present-cons :
      (k : Text) (f : CacheEntry V) (m vs : Dict (CacheEntry V))
      → Present m vs
      → Present ((k, f) ∷ m) vs
  unfolding find
  Present-cons k f m [] h = tt
  Present-cons k f m ((j, e) ∷ vs) (p, h) = (ground arith, Present-cons k f m vs h)

  pub Present-self : (m : Dict (CacheEntry V)) → Present m m
  unfolding find
  Present-self [] = tt
  Present-self ((k, e) ∷ m) =
      (ground (arith, text_eq_refl k), Present-cons k e m m (Present-self m))

  pub length-delete_keys-le : (vs m : Dict (CacheEntry V)) → length (delete_keys vs m) ≤ length m
  unfolding delete_keys
  length-delete_keys-le [] m = omega arith
  length-delete_keys-le ((k, e) ∷ vs) m =
      omega (arith, length-delete_keys-le vs (remove k m), length-remove-le k m)
