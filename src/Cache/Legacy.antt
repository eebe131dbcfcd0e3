-- ===== src/Cache/Legacy.antt =====
-- internal/cache/legacy.go: `LegacyCache`, the older interface of prices over a `Cache`.
use go_exercise.Base.{◌*◌, ◌≡◌, ◌↔◌, Option, none, some, arith}
use go_exercise.Base.Int.{pos, second}
use go_exercise.Base.Text.{Text}
use go_exercise.Base.Result.{Result, ok, err}
use go_exercise.Cache.Fallback.{CacheApi}

-- A value of type `interface{}`: a float64, or a value of another type.
pub data Value (Num Other : Type 0) : Type 0 where
  float64 : Num → Value Num Other
  of_other_type : Other → Value Num Other

module _ {Num Other E : Type 0} (P : CacheApi (Value Num Other) E) where
  unfoldable pub price_in : Result E (Option (Value Num Other)) → Option Num
  price_in (ok (some (float64 price))) = some price
  price_in (ok (some (of_other_type v))) = none
  price_in (ok none) = none
  price_in (err e) = none

  unfoldable pub legacy_get : Text → P.State → P.State × Option Num
  unfolding price_in
  legacy_get key s = let (s', answer) = P.get key s in (s', price_in answer)

  unfoldable pub legacy_set : Text → Num → P.State → P.State
  legacy_set key value s = (P.set key (float64 value) (pos (60 * second)) s).0

  price_of_answer :
      (r : Result E (Option (Value Num Other))) (price : Num)
      → (price_in r ≡ some price) ↔ (r ≡ ok (some (float64 price)))
  unfolding price_in
  price_of_answer (ok (some (float64 p))) price = (λ h. ground arith, λ h. ground arith)
  price_of_answer (ok (some (of_other_type v))) price =
      (λ h. absurd (ground arith), λ h. absurd (ground arith))
  price_of_answer (ok none) price = (λ h. absurd (ground arith), λ h. absurd (ground arith))
  price_of_answer (err e) price = (λ h. absurd (ground arith), λ h. absurd (ground arith))

  -- The older `Get` finds a price exactly when the cache answers without an error, with a value,
  -- and the value is a float64.
  pub legacy_get_exact :
      (key : Text) (s : P.State) (price : Num)
      → ((legacy_get key s).1 ≡ some price) ↔ ((P.get key s).1 ≡ ok (some (float64 price)))
  unfolding legacy_get
  legacy_get_exact key s price = price_of_answer ((P.get key s).1) price
