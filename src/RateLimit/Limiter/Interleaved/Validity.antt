-- ===== src/RateLimit/Limiter/Interleaved/Validity.antt =====
-- The invariant of the limiter, however the requests are interleaved.
use go_exercise.Base.{ℕ, arith, inl, inr, Bool-cases}
use go_exercise.Base.Text.{Text}
use go_exercise.Base.Float64.{Float64}
use go_exercise.RateLimit.Bucket
use go_exercise.RateLimit.Bucket.{TokenBucket}
use go_exercise.RateLimit.Bucket.Bounds.{refill-IsValid, refill-SameLimits}
use go_exercise.RateLimit.Limiter.{
  RateLimiter, Readings, Metrics, return_global_token, count_reject_global, count_reject_per_ip,
  count_allow, allow_ip, get_stats,
}
use go_exercise.RateLimit.Limiter.Invariant.{
  IsValid, IsBucket, allow-IsBucket, return_token-IsBucket, allow_ip-IsValid, cleanup-IsValid,
}
use go_exercise.RateLimit.Limiter.Interleaved.{
  System, give_back, begin_allow, check_client, Step, begins, checks, gives_back, cleans_up,
  reads_stats, Reach, start, later,
}

-- The invariant depends on the buckets alone.
with_global :
    (rl : RateLimiter) (g : TokenBucket) (m : Metrics)
    → IsBucket rl.config.global_capacity rl.config.global_refill_rate g
    → IsValid rl
    → IsValid (record rl { global_bucket = g; metrics = m })
with_global rl g m b h = record {
  global_valid = b;
  clients_valid = h.clients_valid;
  distinct = h.distinct;
}

give_back-IsValid : (rl : RateLimiter) → IsValid rl → IsValid (give_back rl)
unfolding give_back return_global_token count_reject_per_ip
give_back-IsValid rl h =
    with_global rl _ _ (return_token-IsBucket _ _ rl.global_bucket h.global_valid) h

module _ (fl : Float64) where
  begin_allow-IsValid :
      (rl : RateLimiter) (now : ℕ) → IsValid rl → IsValid (begin_allow fl rl now).0
  unfolding begin_allow count_reject_global
  begin_allow-IsValid rl now h =
      let b = allow-IsBucket fl _ _ rl.global_bucket now h.global_valid in
      elim (Bool-cases ((Bucket.allow fl rl.global_bucket now).1)) [
        | inl taken ↦ rw taken (with_global rl _ _ b h)
        | inr refused ↦ rw refused (with_global rl _ _ b h)
      ]

  check_client-IsValid :
      (rl : RateLimiter) (ip : Text) (r : Readings)
      → IsValid rl
      → IsValid (check_client fl rl ip r).0
  unfolding check_client count_allow
  check_client-IsValid rl ip r h =
      let after = allow_ip-IsValid fl rl ip r h in
      elim (Bool-cases ((allow_ip fl rl ip r).1)) [
        | inl admitted ↦ rw admitted (with_global _ _ _ after.global_valid after)
        | inr refused ↦ rw refused after
      ]

  get_stats-IsValid : (rl : RateLimiter) (now : ℕ) → IsValid rl → IsValid (get_stats fl rl now).0
  unfolding get_stats Bucket.current_tokens
  get_stats-IsValid rl now h =
      let same = refill-SameLimits fl rl.global_bucket now in
      let valid =
        refill-IsValid fl rl.global_bucket now (record { bounded = h.global_valid.bounded }) in
      with_global rl _ _ (ground (arith, same, valid.bounded, h.global_valid)) h

  Step-IsValid : (t : ℕ) {s s' : System} → IsValid s.limiter → Step fl t s s' → IsValid s'.limiter
  Step-IsValid t {s} h (begins ip now early) = begin_allow-IsValid s.limiter now h
  Step-IsValid t {s} h (checks before after ip r e) = check_client-IsValid s.limiter ip r h
  Step-IsValid t {s} h (gives_back n e) = give_back-IsValid s.limiter h
  Step-IsValid t {s} h (cleans_up now) = cleanup-IsValid s.limiter now h
  Step-IsValid t {s} h (reads_stats now early) = get_stats-IsValid s.limiter now h

  -- From a limiter whose buckets have the configured limits, hold at most their capacities, and
  -- whose clients stand once in the map, this holds in every state that the steps of any requests,
  -- in whatever order, rounds of the cleanup and readings of the statistics reach.
  pub Reach-IsValid :
      (t : ℕ) {s s' : System} → IsValid s.limiter → Reach fl t s s' → IsValid s'.limiter
  Reach-IsValid t h start = h
  Reach-IsValid t h (later r st) = Step-IsValid t (Reach-IsValid t h r) st
