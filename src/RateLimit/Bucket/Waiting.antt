-- ===== src/RateLimit/Bucket/Waiting.antt =====
-- When a bucket holds a token again.
use go_exercise.Base.{ℕ, ◌+◌, ◌-◌, ◌*◌, ◌^◌, ◌≤◌, ◌<◌, arith}
use go_exercise.Base.Int.{pos_part, second}
use go_exercise.Base.Float64.{Float64}
use go_exercise.RateLimit.Bucket.{TokenBucket, tokens_to_add, refill}
use go_exercise.RateLimit.Bucket.Throughput.{InWindow}

-- What IEEE 754 gives: the three roundings of `elapsed.Seconds() * rate` stay below 10⁻⁹ while the
-- product is below 2⁵¹ / 10⁹, so the truncation falls short of the exact quotient by at most one.
pub record IsPrompt (fl : Float64) : Type 0 where
  pub credit_ge :
      (elapsed rate : ℕ)
      → elapsed * rate < 2 ^ 51
      → elapsed * rate ≤ (pos_part (tokens_to_add fl elapsed rate) + 1) * second

-- More than a second has passed since the last refill.
pub record Waited (tb : TokenBucket) (now : ℕ) : Type 0 where
  pub a_second : tb.last_refill + second < now
  pub in_window : InWindow tb now

-- At one token a second or more, the wait has earned more than one token.
earned_more : (wait rate : ℕ) → second < wait → 1 ≤ rate → second < wait * rate
earned_more wait rate h k = grind arith

module _ (fl : Float64) (prompt : IsPrompt fl) where
  earns_a_token :
      (tb : TokenBucket) (now : ℕ)
      → Waited tb now
      → 1 ≤ tb.refill_rate
      → 1 ≤ pos_part (tokens_to_add fl (now - tb.last_refill) tb.refill_rate)
  earns_a_token tb now w k =
      let earned =
        earned_more (now - tb.last_refill) tb.refill_rate (ground (arith, w.a_second)) k in
      let credit = prompt.credit_ge (now - tb.last_refill) tb.refill_rate w.in_window in omega arith

  pub refill-Waited :
      (tb : TokenBucket) (now : ℕ)
      → 1 ≤ tb.capacity
      → 1 ≤ tb.refill_rate
      → Waited tb now
      → 1 ≤ (refill fl tb now).tokens
  unfolding refill
  refill-Waited tb now c k w = ground (arith, earns_a_token tb now w k, w.a_second)
