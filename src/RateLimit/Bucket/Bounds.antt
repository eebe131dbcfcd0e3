-- ===== src/RateLimit/Bucket/Bounds.antt =====
-- The bounds of a token bucket, for every method and every float64 arithmetic.
use go_exercise.Base.{ℕ, ◌+◌, ◌≤◌, ◌≡◌, arith, leb, if◌then◌else◌}
use go_exercise.Base.Float64.{Float64}
use go_exercise.RateLimit.Bucket.{TokenBucket, new_token_bucket, refill, consume, allow_n}

pub record IsValid (tb : TokenBucket) : Type 0 where
  pub bounded : tb.tokens ≤ tb.capacity

-- What no method of a bucket changes.
pub record SameLimits (a b : TokenBucket) : Type 0 where
  pub capacity : a.capacity ≡ b.capacity
  pub refill_rate : a.refill_rate ≡ b.refill_rate
  pub refill_period : a.refill_period ≡ b.refill_period

pub new_token_bucket-IsValid : (c r now : ℕ) → IsValid (new_token_bucket c r now)
unfolding new_token_bucket
new_token_bucket-IsValid c r now = record { bounded = omega arith }

pub consume-IsValid : (tb : TokenBucket) (n : ℕ) → IsValid tb → IsValid (consume tb n).0
unfolding consume
consume-IsValid tb n h = ground arith

module _ (fl : Float64) where
  pub refill-IsValid : (tb : TokenBucket) (now : ℕ) → IsValid tb → IsValid (refill fl tb now)
  unfolding refill
  refill-IsValid tb now h = ground arith

  pub refill-SameLimits : (tb : TokenBucket) (now : ℕ) → SameLimits (refill fl tb now) tb
  unfolding refill
  refill-SameLimits tb now = ground arith

  -- A refill never takes a token, and the clock of the bucket never goes back.
  pub refill_mono :
      (tb : TokenBucket) (now : ℕ)
      → IsValid tb
      → (tb.tokens ≤ (refill fl tb now).tokens) × (tb.last_refill ≤ (refill fl tb now).last_refill)
  unfolding refill
  refill_mono tb now h = ground arith

  pub allow_n-SameLimits : (tb : TokenBucket) (n now : ℕ) → SameLimits (allow_n fl tb n now).0 tb
  unfolding allow_n
  allow_n-SameLimits tb n now = ground (arith, refill-SameLimits tb now)

  -- For a bucket that holds at most its capacity, a call of `AllowN` leaves one that does.
  pub allow_n-IsValid :
      (tb : TokenBucket) (n now : ℕ) → IsValid tb → IsValid (allow_n fl tb n now).0
  unfolding allow_n
  allow_n-IsValid tb n now h = ground (arith, refill-IsValid tb now h)

  -- `AllowN` admits exactly if the refilled bucket holds the tokens that are asked for; it takes
  -- them if it admits, and otherwise leaves what the refill leaves.
  pub allow_n_exact :
      (tb : TokenBucket) (n now : ℕ)
      → ((allow_n fl tb n now).1 ≡ leb n (refill fl tb now).tokens)
        × ((allow_n fl tb n now).0.tokens + (if (allow_n fl tb n now).1 then n else 0)
            ≡ (refill fl tb now).tokens)
        × ((allow_n fl tb n now).0.last_refill ≡ (refill fl tb now).last_refill)
  unfolding allow_n
  allow_n_exact tb n now = ground arith
