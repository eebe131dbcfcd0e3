-- ===== src/Base/Int.antt =====
-- Signed integers over the native numbers, under the library's names, and the instants and
-- durations of package time.
--
-- An instant is the number of nanoseconds since Go's zero time (the year 1), a `time.Duration` an
-- integer of nanoseconds. A duration is at most 292 years either way and the clock stands after
-- the year 2000, so `time_add` never meets the 0 at which the subtraction on ℕ stops.
use Prim.Native.Nat.{ℕ, suc, ◌+◌, ◌-◌, ◌*◌, ◌≤◌}
use mathlib.Core.Bool.{Bool}
use go_exercise.Base.Tests.{ltb, leb, if◌then◌else◌}

-- `negsuc n` is -(n + 1).
pub data ℤ : Type 0 where
  pos : ℕ → ℤ
  negsuc : ℕ → ℤ

abbrev pub pos_part : ℤ → ℕ
pos_part (pos n) = n
pos_part (negsuc n) = 0

abbrev pub neg_part : ℤ → ℕ
neg_part (pos n) = 0
neg_part (negsuc n) = suc n

-- a - b, as an integer.
abbrev pub sub_ℕ : ℕ → ℕ → ℤ
sub_ℕ a b = if leb b a then pos (a - b) else negsuc (b - a - 1)

abbrev pub ltb_ℤ : ℤ → ℤ → Bool
ltb_ℤ a b = ltb (pos_part a + neg_part b) (pos_part b + neg_part a)

abbrev pub leb_ℤ : ℤ → ℤ → Bool
leb_ℤ a b = leb (pos_part a + neg_part b) (pos_part b + neg_part a)

infix 50 ◌≤ℤ◌
abbrev pub ◌≤ℤ◌ : ℤ → ℤ → Type 0
a ≤ℤ b = pos_part a + neg_part b ≤ pos_part b + neg_part a

-- `t.Add(d)`
abbrev pub time_add : ℕ → ℤ → ℕ
time_add t d = t + pos_part d - neg_part d

-- `t.Sub(u)`
abbrev pub time_sub : ℕ → ℕ → ℤ
time_sub t u = sub_ℕ t u

abbrev pub second : ℕ
second = 1_000_000_000

abbrev pub minute : ℕ
minute = 60 * second
