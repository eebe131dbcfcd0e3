-- ===== src/Examples/RateLimiting.antt =====
-- internal/ratelimit at concrete inputs.
use mathlib.Core.Bool.{false≢true}
use go_exercise.Base.{
  ℕ, ◌*◌, ◌+◌, ◌/◌, ◌≡◌, ◌≢◌, refl, true, false, List, [], ◌∷◌, arith, if◌then◌else◌, length,
}
use go_exercise.Base.Int.{second, minute}
use go_exercise.Base.Text.{Text, codes, text_eq, text_eq_iff}
use go_exercise.Base.Dict.{find, put}
use go_exercise.RateLimit.Bucket
use go_exercise.RateLimit.Bucket.{
  TokenBucket, new_token_bucket, refill, consume, allow_n, seconds, tokens_to_add,
}
use go_exercise.RateLimit.Bucket.Throughput
use go_exercise.RateLimit.Limiter.{
  RateLimiter, Readings, Metrics, default_config, allow, cleanup, allow_ip, allow_client,
  count_reject_per_ip, return_global_token, count_allow,
}
use go_exercise.RateLimit.Limiter.Invariant
use go_exercise.RateLimit.Limiter.Admission
use go_exercise.RateLimit.Limiter.Admission.Waiting
use go_exercise.RateLimit.Limiter.Cleanup
use go_exercise.RateLimit.Limiter.Addresses
use go_exercise.Examples.Fixed.{fixed, fixed-IsPrompt}

abbrev pub start : ℕ
start = 1000 * second

-- A bucket of five tokens and two a second, with one token left.
abbrev low : TokenBucket
low = record {
  capacity = 5;
  tokens = 1;
  refill_rate = 2;
  last_refill = start;
  refill_period = second / 2;
}

-- Three calls in two seconds: the second finds the bucket empty.
abbrev calls : List (ℕ × ℕ)
calls = (1, start) ∷ (1, start + 100) ∷ (1, start + 2 * second) ∷ []

run-calls :
    Throughput.run fixed low calls
    ≡ (record low { tokens = 3; last_refill = start + 2 * second }, 2)
unfolding Throughput.run allow_n refill consume tokens_to_add seconds
run-calls = refl

abbrev no_counts : Metrics
no_counts = record {
  rate_limit_allows = 0;
  rejects_global = 0;
  rejects_per_ip = 0;
  ips_tracked = 0;
}

-- A limiter that has seen one client, whose bucket is empty.
abbrev pub alice : Text
alice = codes "10.0.0.1"

abbrev pub bob : Text
bob = codes "10.0.0.2"

abbrev pub limiter : RateLimiter
limiter = record {
  config = default_config;
  global_bucket = new_token_bucket 1000 100 start;
  ip_buckets =
      (
        alice,
        record {
          bucket = record {
            capacity = 100;
            tokens = 0;
            refill_rate = 10;
            last_refill = start;
            refill_period = second / 10;
          };
          last_seen = start;
        },
      )
      ∷ [];
  stopped = false;
  metrics = no_counts;
}

abbrev pub at_start : Readings
at_start = record { global = start; seen = start; made = start; client = start }

-- A client with an empty bucket is rejected, and the global bucket gets its token back.
alice_rejected :
    ((allow fixed limiter alice at_start).1 ≡ false)
    × ((allow fixed limiter alice at_start).0.global_bucket.tokens ≡ 1000)
    × ((allow fixed limiter bob at_start).1 ≡ true)
    × ((allow fixed limiter bob at_start).0.global_bucket.tokens ≡ 999)
unfolding allow allow_client allow_ip Bucket.allow allow_n refill consume tokens_to_add seconds
    new_token_bucket find put text_eq count_reject_per_ip return_global_token count_allow
alice_rejected = (refl, refl, refl, refl)

pub limiter-IsValid : Invariant.IsValid limiter
unfolding find new_token_bucket
limiter-IsValid = record {
  global_valid = omega arith;
  clients_valid = omega arith;
  distinct = (refl, tt);
}

allow_global_cost_example : (allow fixed limiter alice at_start).0.global_bucket ≡ (
    if (allow fixed limiter alice at_start).1
    then (consume (refill fixed limiter.global_bucket start) 1).0
    else refill fixed limiter.global_bucket start)
allow_global_cost_example =
    Admission.allow_global_cost fixed limiter alice at_start
      (unfold new_token_bucket in omega arith)

bob-ne-alice : alice ≢ bob
unfolding text_eq
bob-ne-alice e = false≢true ((text_eq_iff alice bob).1 e)

-- Ten minutes and a second later, the client is forgotten.
cleanup_exact_example :
    (find alice (cleanup limiter (start + 601 * second)).ip_buckets
      ≡ Cleanup.fresh (start + 1 * second) (find alice limiter.ip_buckets))
    × ((cleanup limiter (start + 601 * second)).global_bucket ≡ limiter.global_bucket)
    × ((cleanup limiter (start + 601 * second)).metrics.ips_tracked
        ≡ length (cleanup limiter (start + 601 * second)).ip_buckets)
cleanup_exact_example =
    Cleanup.cleanup_exact limiter (start + 601 * second) (10 * minute) alice
      limiter-IsValid.distinct refl (omega arith)

-- Two requests of one client behind two proxies, under two keys.
abbrev chain : Addresses.Origin
chain = record {
  forwarded_for = codes "1.2.3.4, 10.0.0.9";
  real_ip = [];
  remote_addr = codes "10.0.0.9:4711";
}

extract_ip_whole_header_example : Addresses.extract_ip chain ≡ codes "1.2.3.4, 10.0.0.9"
extract_ip_whole_header_example = Addresses.extract_ip_whole_header chain (λ e. cc) (omega arith)

abbrev later : Readings
later = record {
  global = start + 2 * second;
  seen = start + 2 * second;
  made = start + 2 * second;
  client = start + 2 * second;
}

-- The client whose bucket is empty is admitted two seconds later.
allow-Waited_example : (allow fixed limiter alice later).1 ≡ true
unfolding find new_token_bucket
allow-Waited_example =
    Waiting.allow-Waited fixed fixed-IsPrompt limiter alice later limiter-IsValid
      (record {
        global_capacity = omega arith;
        global_rate = omega arith;
        per_ip_capacity = omega arith;
        per_ip_rate = omega arith;
      })
      (record { a_second = omega arith; in_window = omega arith }) (λ entry there. ground arith)
