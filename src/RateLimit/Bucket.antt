-- ===== src/RateLimit/Bucket.antt =====
-- internal/ratelimit/bucket.go
--
-- Token counts, capacities and rates are the non-negative int64 values that the callers pass (one
-- token a request; the constants of `DefaultConfig`), so they are plain numbers. A method gets the
-- reading of `time.Now()` that it makes as an argument. The mutex makes each method one step.
pub mod Bounds
pub mod Throughput
pub mod Waiting
use go_exercise.Base.{ℕ, ◌+◌, ◌-◌, ◌/◌, ◌%◌, Bool, true, false, ltb, leb, if◌then◌else◌}
use go_exercise.Base.Int.{ℤ, pos, pos_part, ltb_ℤ, leb_ℤ, time_sub, second}
use go_exercise.Base.Float64.{Float64}

pub record TokenBucket : Type 0 where
  pub capacity : ℕ
  pub tokens : ℕ
  pub refill_rate : ℕ  -- tokens per second
  pub last_refill : ℕ
  pub refill_period : ℕ

-- Go's division by a zero `refillRate` panics; no caller passes one.
unfoldable pub new_token_bucket : ℕ → ℕ → ℕ → TokenBucket
new_token_bucket capacity refill_rate now = record {
  capacity = capacity;
  tokens = capacity;
  refill_rate = refill_rate;
  last_refill = now;
  refill_period = second / refill_rate;
}

-- the test and the update of `AllowN`, on the bucket that `refill` left
unfoldable pub consume : TokenBucket → ℕ → TokenBucket × Bool
consume tb n = if leb n tb.tokens then (record tb { tokens = tb.tokens - n }, true) else (tb, false)

module _ (fl : Float64) where
  open fl use {Num, of_int, truncate, plus, times, divide}

  -- `d.Seconds()` for a duration that is not negative
  unfoldable pub seconds : ℕ → Num
  seconds d =
      plus (of_int (pos (d / second))) (divide (of_int (pos (d % second))) (of_int (pos second)))

  -- `int64(elapsed.Seconds() * float64(tb.refillRate))`
  unfoldable pub tokens_to_add : ℕ → ℕ → ℤ
  tokens_to_add elapsed rate = truncate (times (seconds elapsed) (of_int (pos rate)))

  unfoldable pub refill : TokenBucket → ℕ → TokenBucket
  refill tb now =
      let elapsed = time_sub now tb.last_refill in
      let added = tokens_to_add (pos_part elapsed) tb.refill_rate in
      let tokens = tb.tokens + pos_part added in
      if leb_ℤ elapsed (pos 0)
      then tb
      else if ltb_ℤ (pos 0) added
      then record tb {
        tokens = if ltb tb.capacity tokens then tb.capacity else tokens;
        last_refill = now;
      }
      else tb

  unfoldable pub allow_n : TokenBucket → ℕ → ℕ → TokenBucket × Bool
  unfolding consume
  allow_n tb n now = consume (refill tb now) n

  unfoldable pub allow : TokenBucket → ℕ → TokenBucket × Bool
  unfolding allow_n
  allow tb now = allow_n tb 1 now

  -- `Tokens` refills before it reads
  unfoldable pub current_tokens : TokenBucket → ℕ → TokenBucket × ℕ
  current_tokens tb now = let tb' = refill tb now in (tb', tb'.tokens)
