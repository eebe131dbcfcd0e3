-- ===== src/Base/Float64.antt =====
-- Go's float64: the type and its operations are a parameter of what computes with it.
use Prim.Native.Nat.{ℕ}
use mathlib.Core.Bool.{Bool}
use go_exercise.Base.Int.{ℤ}

pub record Float64 : Type 1 where
  pub Num : Type 0
  pub of_int : ℤ → Num  -- float64(n)
  pub truncate : Num → ℤ  -- int64(x)
  pub decimal : ℕ → ℕ → Num  -- the literal m / 10 ^ k
  pub plus : Num → Num → Num
  pub minus : Num → Num → Num
  pub times : Num → Num → Num
  pub divide : Num → Num → Num
  pub power : Num → Num → Num  -- math.Pow
  pub less : Num → Num → Bool  -- x < y
  pub same : Num → Num → Bool  -- x == y
