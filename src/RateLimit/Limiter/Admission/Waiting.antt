-- ===== src/RateLimit/Limiter/Admission/Waiting.antt =====
-- A client that waits is admitted.
use go_exercise.Base.{ℕ, ◌≤◌, ◌≡◌, true, some, arith, inl, inr, Option-cases}
use go_exercise.Base.Text.{Text}
use go_exercise.Base.Dict.{find, AllValues-find}
use go_exercise.Base.Float64.{Float64}
use go_exercise.RateLimit.Bucket.{TokenBucket, new_token_bucket, refill}
use go_exercise.RateLimit.Bucket.Bounds.{refill_mono, new_token_bucket-IsValid}
use go_exercise.RateLimit.Bucket.Waiting.{IsPrompt, Waited, refill-Waited}
use go_exercise.RateLimit.Limiter.{Config, IpEntry, RateLimiter, Readings, entry_or_new, allow}
use go_exercise.RateLimit.Limiter.Invariant.{IsBucket, IsValid, ClientBucket}
use go_exercise.RateLimit.Limiter.Admission.{client_bucket, allow_iff}

-- Room for a token and at least one token a second, for all clients and for each.
pub record IsPositive (config : Config) : Type 0 where
  pub global_capacity : 1 ≤ config.global_capacity
  pub global_rate : 1 ≤ config.global_refill_rate
  pub per_ip_capacity : 1 ≤ config.per_ip_capacity
  pub per_ip_rate : 1 ≤ config.per_ip_refill_rate

module _ (fl : Float64) (prompt : IsPrompt fl) where
  bucket-Waited :
      (c r : ℕ) (tb : TokenBucket) (now : ℕ)
      → IsBucket c r tb
      → 1 ≤ c
      → 1 ≤ r
      → Waited tb now
      → 1 ≤ (refill fl tb now).tokens
  bucket-Waited c r tb now h cap rate w =
      refill-Waited fl prompt tb now (ground (arith, h.capacity_eq)) (ground (arith, h.rate_eq)) w

  -- A new bucket is full.
  new_bucket-le :
      (c r made now : ℕ) → 1 ≤ c → 1 ≤ (refill fl (new_token_bucket c r made) now).tokens
  new_bucket-le c r made now cap =
      let kept =
        refill_mono fl (new_token_bucket c r made) now (new_token_bucket-IsValid c r made) in
      let full : 1 ≤ (new_token_bucket c r made).tokens = unfold new_token_bucket in cap in
      omega (arith, kept.0, full)

  client-Waited :
      (rl : RateLimiter) (ip : Text) (r : Readings)
      → IsValid rl
      → IsPositive rl.config
      → ((entry : IpEntry) → find ip rl.ip_buckets ≡ some entry → Waited entry.bucket r.client)
      → 1 ≤ (refill fl (client_bucket rl ip r) r.client).tokens
  unfolding client_bucket entry_or_new
  client-Waited rl ip r valid positive waited = elim (Option-cases (find ip rl.ip_buckets)) [
    | inl absent ↦
        rw (client_bucket, absent)
          (new_bucket-le rl.config.per_ip_capacity rl.config.per_ip_refill_rate r.made r.client
            positive.per_ip_capacity)
    | inr (entry, there) ↦
        rw (client_bucket, there)
          (bucket-Waited rl.config.per_ip_capacity rl.config.per_ip_refill_rate entry.bucket
            r.client
            (AllValues-find (ClientBucket rl.config) ip rl.ip_buckets valid.clients_valid there)
            positive.per_ip_capacity positive.per_ip_rate (waited entry there))
  ]

  -- A limiter that is valid, and whose capacities and rates are at least one, admits a request whose
  -- readings are more than a second after the last refill of the global bucket and, if the client is
  -- known, of the client's, while the nanoseconds since the refill times the rate are below 2^51 for
  -- each of these buckets. (Prompt float64: for such products, the tokens that a refill computes are
  -- not too few.)
  pub allow-Waited :
      (rl : RateLimiter) (ip : Text) (r : Readings)
      → IsValid rl
      → IsPositive rl.config
      → Waited rl.global_bucket r.global
      → ((entry : IpEntry) → find ip rl.ip_buckets ≡ some entry → Waited entry.bucket r.client)
      → (allow fl rl ip r).1 ≡ true
  allow-Waited rl ip r valid positive waited client =
      let global =
        bucket-Waited rl.config.global_capacity rl.config.global_refill_rate rl.global_bucket
          r.global valid.global_valid positive.global_capacity positive.global_rate waited in
      ground (arith, allow_iff fl rl ip r, global, client-Waited rl ip r valid positive client)
