-- ===== src/Examples/Fixed.antt =====
-- A float64 to run the examples with: numbers that are not negative, in billionths.
use go_exercise.Base.{ℕ, ◌+◌, ◌-◌, ◌*◌, ◌/◌, ◌%◌, ◌^◌, ◌≡◌, arith, ltb, ◌==◌}
use go_exercise.Base.Int.{pos, pos_part, second}
use go_exercise.Base.Float64.{Float64}
use go_exercise.RateLimit.Bucket.{tokens_to_add, seconds}
use go_exercise.RateLimit.Bucket.Throughput.{IsAccurate}
use go_exercise.RateLimit.Bucket.Waiting.{IsPrompt}

abbrev pub fixed : Float64
fixed = record {
  Num = ℕ;
  of_int = λ n. pos_part n * second;
  truncate = λ x. pos (x / second);
  decimal = λ m k. m * second / 10 ^ k;
  plus = λ x y. x + y;
  minus = λ x y. x - y;
  times = λ x y. x * y / second;
  divide = λ x y. x * second / y;
  power = λ x y. x ^ (y / second);
  less = ltb;
  same = λ x y. x == y;
}

-- d seconds and a fraction, put together again
whole : (d : ℕ) → d / second * second + d % second * second * second / (second * second) ≡ d
whole d = omega arith

scaled : (d r : ℕ) → d * (r * second) / second ≡ d * r
scaled d r = omega arith

pub fixed-IsAccurate : IsAccurate fixed
unfolding tokens_to_add seconds
fixed-IsAccurate = record { credit_le = λ e r h. rw (whole e, scaled e r) (omega arith) }

pub fixed-IsPrompt : IsPrompt fixed
unfolding tokens_to_add seconds
fixed-IsPrompt = record { credit_ge = λ e r h. rw (whole e, scaled e r) (omega arith) }
