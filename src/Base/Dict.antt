-- ===== src/Base/Dict.antt =====
-- Go's `map[string]V`: an association list with the laws of reading after a write.
-- The list's order stands for the order in which `range` visits the map.
use Prim.Native.Nat.{◌+◌, ◌≤◌}
use mathlib.Core.Bool.{true, false}
use mathlib.Core.List.{List, [], ◌∷◌}
use mathlib.Core.Logic.{◌≢◌, inl, inr}
use mathlib.Core.Option.{Option, none, some}
use mathlib.Core.Path.{◌≡◌, refl, subst}
use native.Mathlib.Omega.{arith}
use go_exercise.Base.Tests.{if◌then◌else◌, Bool-cases}
use go_exercise.Base.Lists.{length, All}
use go_exercise.Base.Text.{Text, text_eq, text_eq_iff, text_eq_refl}

abbrev pub Dict {ℓ} : Type ℓ → Type ℓ
Dict V = List (Text × V)

module _ {ℓ} {V : Type ℓ} where
  -- `m[k]`
  unfoldable pub find : Text → Dict V → Option V
  find k [] = none
  find k ((j, v) ∷ m) = if text_eq j k then some v else find k m

  -- `m[k] = v`
  unfoldable pub put : Text → V → Dict V → Dict V
  put k v [] = (k, v) ∷ []
  put k v ((j, w) ∷ m) = if text_eq j k then (j, v) ∷ m else (j, w) ∷ put k v m

  -- `delete(m, k)`
  unfoldable pub remove : Text → Dict V → Dict V
  remove k [] = []
  remove k ((j, w) ∷ m) = if text_eq j k then remove k m else (j, w) ∷ remove k m

  -- No key stands twice.
  abbrev pub Distinct : Dict V → Type ℓ
  Distinct [] = Unit
  Distinct ((k, v) ∷ m) = (find k m ≡ none) × Distinct m

  pub find-put :
      (k j : Text) (v : V) (m : Dict V)
      → find j (put k v m) ≡ (if text_eq k j then some v else find j m)
  unfolding find put
  find-put k j v [] = refl
  find-put k j v ((i, w) ∷ m) =
      ground (arith, text_eq_iff k j, text_eq_iff i k, text_eq_iff i j, find-put k j v m)

  pub find-put_ne : (k j : Text) (v : V) (m : Dict V) → j ≢ k → find j (put k v m) ≡ find j m
  find-put_ne k j v m h = ground (arith, find-put k j v m, text_eq_iff k j)

  pub find-put_self : (k : Text) (v : V) (m : Dict V) → find k (put k v m) ≡ some v
  find-put_self k v m = ground (arith, find-put k k v m, text_eq_refl k)

  pub find-remove :
      (k j : Text) (m : Dict V) → find j (remove k m) ≡ (if text_eq k j then none else find j m)
  unfolding find remove
  find-remove k j [] = ground arith
  find-remove k j ((i, w) ∷ m) =
      ground (arith, text_eq_iff k j, text_eq_iff i k, text_eq_iff i j, find-remove k j m)

  pub Distinct-put : (k : Text) (v : V) (m : Dict V) → Distinct m → Distinct (put k v m)
  unfolding find put
  Distinct-put k v [] h = (refl, tt)
  Distinct-put k v ((i, w) ∷ m) h =
      ground (arith, find-put k i v m, text_eq_iff k i, text_eq_iff i k, Distinct-put k v m h.1)

  pub Distinct-remove : (k : Text) (m : Dict V) → Distinct m → Distinct (remove k m)
  unfolding find remove
  Distinct-remove k [] h = tt
  Distinct-remove k ((i, w) ∷ m) h = ground (arith, find-remove k i m, Distinct-remove k m h.1)

  pub length-put : (k : Text) (v : V) (m : Dict V) → length (put k v m) ≤ length m + 1
  unfolding put
  length-put k v [] = omega arith
  length-put k v ((i, w) ∷ m) = ground (arith, length-put k v m)

  pub length-put_new :
      (k : Text) (v : V) (m : Dict V) → find k m ≡ none → length (put k v m) ≡ length m + 1
  unfolding find put
  length-put_new k v [] h = omega arith
  length-put_new k v ((i, w) ∷ m) h = ground (arith, length-put_new k v m)

  pub length-put_old :
      (k : Text) (v : V) (m : Dict V) {w : V} → find k m ≡ some w → length (put k v m) ≡ length m
  unfolding find put
  length-put_old k v [] h = absurd (cc)
  length-put_old k v ((i, x) ∷ m) {w} h = ground (arith, length-put_old k v m {w = w})

  pub length-remove-le : (k : Text) (m : Dict V) → length (remove k m) ≤ length m
  unfolding remove
  length-remove-le k [] = omega arith
  length-remove-le k ((i, w) ∷ m) = ground (arith, length-remove-le k m)

  pub remove_absent : (k : Text) (m : Dict V) → find k m ≡ none → remove k m ≡ m
  unfolding find remove
  remove_absent k [] h = refl
  remove_absent k ((i, w) ∷ m) h = ground (arith, remove_absent k m)

  -- A key that is there and stands once is one entry fewer.
  pub length-remove :
      (k : Text) (m : Dict V) {v : V}
      → Distinct m
      → find k m ≡ some v
      → length (remove k m) + 1 ≡ length m
  unfolding find remove
  length-remove k [] d h = cc
  length-remove k ((i, w) ∷ m) {v} d h =
      ground (arith, text_eq_iff i k, remove_absent k m, length-remove k m {v = v} d.1)

  -- A property of every value of a map.
  abbrev pub AllValues {κ} : (V → Type κ) → Dict V → Type κ
  AllValues P = All (λ e. P e.1)

module _ {ℓ κ} {V : Type ℓ} (P : V → Type κ) where
  pub AllValues-put :
      (k : Text) (v : V) (m : Dict V) → P v → AllValues P m → AllValues P (put k v m)
  unfolding put
  AllValues-put k v [] pv h = (pv, tt)
  AllValues-put k v ((i, w) ∷ m) pv (pw, h) =
      elim (text_eq i k) as (λ b. AllValues P (if b then (i, v) ∷ m else (i, w) ∷ put k v m)) [
        | true ↦ (pv, h)
        | false ↦ (pw, AllValues-put k v m pv h)
      ]

  pub AllValues-find : (k : Text) (m : Dict V) {v : V} → AllValues P m → find k m ≡ some v → P v
  unfolding find
  AllValues-find k [] h e = absurd (cc)
  AllValues-find k ((i, w) ∷ m) {v} (pw, h) e = elim (Bool-cases (text_eq i k)) [
    | inl same ↦ let first : w ≡ v = ground arith in subst P first pw
    | inr other ↦ AllValues-find k m h (ground arith)
  ]
