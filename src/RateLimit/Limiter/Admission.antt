-- ===== src/RateLimit/Limiter/Admission.antt =====
-- What one call of `Allow` decides, and what it leaves.
pub mod Throughput
pub mod Waiting
use go_exercise.Base.{
  ℕ, suc, ◌+◌, ◌-◌, ◌≤◌, ◌<◌, ◌≡◌, ◌≢◌, ◌⊎◌, refl, Bool, true, false, none, some, List, [], ◌∷◌,
  arith, inl, inr, leb, ltb, ◌&&◌, if◌then◌else◌, Bool-cases,
}
use go_exercise.Base.Text.{Text, text_eq, text_eq_iff}
use go_exercise.Base.Dict.{find, put, find-put_ne}
use go_exercise.Base.Float64.{Float64}
use go_exercise.RateLimit.Bucket
use go_exercise.RateLimit.Bucket.{TokenBucket, refill, consume, allow_n}
use go_exercise.RateLimit.Bucket.Bounds.{refill-IsValid}
use go_exercise.RateLimit.Limiter.{
  Config, IpEntry, Metrics, RateLimiter, Readings, entry_or_new, track_ip, return_token,
  return_global_token, count_reject_global, count_reject_per_ip, count_allow, allow_ip,
  allow_client, allow,
}

-- The bucket on which the client's limit is tested: the stored one, or a new full one.
unfoldable pub client_bucket : RateLimiter → Text → Readings → TokenBucket
unfolding entry_or_new
client_bucket rl ip r = (entry_or_new rl.config (find ip rl.ip_buckets) r).bucket

return-consume :
    (tb : TokenBucket)
    → tb.tokens ≤ tb.capacity
    → (consume tb 1).1 ≡ true
    → return_token (consume tb 1).0 ≡ tb
unfolding return_token consume
return-consume tb h e = ground arith

module _ (fl : Float64) (rl : RateLimiter) (ip : Text) (r : Readings) (j : Text)
    (other : j ≢ ip) where
  allow_ip_others : find j (allow_ip fl rl ip r).0.ip_buckets ≡ find j rl.ip_buckets
  unfolding allow_ip
  allow_ip_others = find-put_ne ip j _ rl.ip_buckets other

  allow_client_others : find j (allow_client fl rl ip r).0.ip_buckets ≡ find j rl.ip_buckets
  unfolding allow_client count_allow count_reject_per_ip return_global_token
  allow_client_others = ground (arith, allow_ip_others)

module _ (fl : Float64) (rl : RateLimiter) (ip : Text) (r : Readings) where
  -- `Allow` admits a request exactly if both buckets, refilled, hold a token.
  pub allow_iff : (allow fl rl ip r).1 ≡ (
      leb 1 (refill fl rl.global_bucket r.global).tokens
      && leb 1 (refill fl (client_bucket rl ip r) r.client).tokens)
  unfolding allow allow_ip Bucket.allow client_bucket consume
  allow_iff = ground arith

  -- Each call of `Allow` moves exactly one of the three counters, by one: the counter of admitted
  -- requests if it admits, one of the counters of rejections if it does not.
  pub allow_counts_once :
      let after = (allow fl rl ip r).0.metrics in
      let before = rl.metrics in
      (after.rate_limit_allows + after.rejects_global + after.rejects_per_ip
        ≡ before.rate_limit_allows + before.rejects_global + before.rejects_per_ip + 1)
      × (after.rate_limit_allows
          ≡ before.rate_limit_allows + (if (allow fl rl ip r).1 then 1 else 0))
  unfolding allow allow_ip Bucket.allow consume count_allow count_reject_per_ip count_reject_global
      return_global_token
  allow_counts_once = ground arith

  -- If the global bucket holds at most its capacity, a request that is rejected costs it nothing:
  -- the bucket is left as its refill alone leaves it, also where the client's limit rejects after
  -- a global token was taken. An admitted request leaves it one token fewer.
  pub allow_global_cost :
      rl.global_bucket.tokens ≤ rl.global_bucket.capacity
      → (allow fl rl ip r).0.global_bucket ≡ (
          if (allow fl rl ip r).1
          then (consume (refill fl rl.global_bucket r.global) 1).0
          else refill fl rl.global_bucket r.global)
  allow_global_cost h =
      let refilled = refill fl rl.global_bucket r.global in
      let valid = refill-IsValid fl rl.global_bucket r.global (record { bounded = h }) in
      let back = return-consume refilled valid.bounded in
      unfold allow allow_ip Bucket.allow count_allow count_reject_per_ip count_reject_global
        return_global_token consume in
      ground (arith, back)

  -- `Allow` for one client neither reads nor writes the entry of another.
  pub allow_other_clients :
      (j : Text) → j ≢ ip → find j (allow fl rl ip r).0.ip_buckets ≡ find j rl.ip_buckets
  unfolding allow
  allow_other_clients j other =
      let taken = record rl { global_bucket = (Bucket.allow fl rl.global_bucket r.global).0 } in
      let kept = allow_client_others fl taken ip r j other in
      unfold count_reject_global in ground (arith, kept)
