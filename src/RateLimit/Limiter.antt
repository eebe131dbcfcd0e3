-- ===== src/RateLimit/Limiter.antt =====
-- internal/ratelimit/limiter.go
--
-- A method gets its readings of `time.Now()`, in the order in which the code makes them. The
-- counters of internal/metrics that the limiter writes are a part of its state here.
pub mod Invariant
pub mod Admission
pub mod Cleanup
pub mod Interleaved
pub mod Addresses
use go_exercise.Base.{
  ℕ, ◌+◌, ◌-◌, ◌*◌, Bool, true, false, Option, none, some, List, [], ◌∷◌, length, ltb,
  if◌then◌else◌, is_some,
}
use go_exercise.Base.Int.{ℤ, pos, negsuc, pos_part, neg_part, sub_ℕ, time_add, minute}
use go_exercise.Base.Text.{Text}
use go_exercise.Base.Dict.{Dict, find, put}
use go_exercise.Base.Float64.{Float64}
use go_exercise.RateLimit.Bucket
use go_exercise.RateLimit.Bucket.{TokenBucket, new_token_bucket, current_tokens}

pub record Config : Type 0 where
  pub per_ip_capacity : ℕ
  pub per_ip_refill_rate : ℕ
  pub global_capacity : ℕ
  pub global_refill_rate : ℕ
  pub ip_cleanup_interval : ℤ
  pub ip_idle_timeout : ℤ

abbrev pub default_config : Config
default_config = record {
  per_ip_capacity = 100;
  per_ip_refill_rate = 10;
  global_capacity = 1000;
  global_refill_rate = 100;
  ip_cleanup_interval = pos (5 * minute);
  ip_idle_timeout = pos (10 * minute);
}

pub record IpEntry : Type 0 where
  pub bucket : TokenBucket
  pub last_seen : ℕ

-- The counters and the gauge of internal/metrics/metrics.go that the limiter writes.
pub record Metrics : Type 0 where
  pub rate_limit_allows : ℕ
  pub rejects_global : ℕ  -- RateLimitRejects, label "global"
  pub rejects_per_ip : ℕ  -- RateLimitRejects, label "per_ip"
  pub ips_tracked : ℕ

pub record RateLimiter : Type 0 where
  pub config : Config
  pub global_bucket : TokenBucket
  pub ip_buckets : Dict IpEntry
  pub stopped : Bool  -- `stopCleanup` is closed
  pub metrics : Metrics

-- The readings of one `Allow`: by the global bucket, by `allowIP`, by a new bucket, and by the
-- client's bucket.
pub record Readings : Type 0 where
  pub global : ℕ
  pub seen : ℕ
  pub made : ℕ
  pub client : ℕ

unfoldable pub new_rate_limiter : Config → Metrics → ℕ → RateLimiter
new_rate_limiter config metrics now = record {
  config = config;
  global_bucket = new_token_bucket config.global_capacity config.global_refill_rate now;
  ip_buckets = [];
  stopped = false;
  metrics = metrics;
}

-- The entry of `ip`, or a new one with a full bucket.
unfoldable pub entry_or_new : Config → Option IpEntry → Readings → IpEntry
entry_or_new config (some entry) r = entry
entry_or_new config none r = record {
  bucket = new_token_bucket config.per_ip_capacity config.per_ip_refill_rate r.made;
  last_seen = r.seen;
}

-- Only a new entry writes the gauge.
unfoldable pub track_ip : Metrics → Option IpEntry → ℕ → Metrics
track_ip m none n = record m { ips_tracked = n }
track_ip m (some _) n = m

unfoldable pub return_token : TokenBucket → TokenBucket
return_token tb = if ltb tb.tokens tb.capacity then record tb { tokens = tb.tokens + 1 } else tb

unfoldable pub return_global_token : RateLimiter → RateLimiter
unfolding return_token
return_global_token rl = record rl { global_bucket = return_token rl.global_bucket }

unfoldable pub count_reject_global : RateLimiter → RateLimiter
count_reject_global rl = record rl {
  metrics = record rl.metrics { rejects_global = rl.metrics.rejects_global + 1 };
}

unfoldable pub count_reject_per_ip : RateLimiter → RateLimiter
count_reject_per_ip rl = record rl {
  metrics = record rl.metrics { rejects_per_ip = rl.metrics.rejects_per_ip + 1 };
}

unfoldable pub count_allow : RateLimiter → RateLimiter
count_allow rl = record rl {
  metrics = record rl.metrics { rate_limit_allows = rl.metrics.rate_limit_allows + 1 };
}

-- The loop of `cleanup` over the map.
unfoldable pub sweep : ℕ → Dict IpEntry → Dict IpEntry
sweep cutoff [] = []
sweep cutoff ((ip, entry) ∷ m) =
    if ltb entry.last_seen cutoff then sweep cutoff m else (ip, entry) ∷ sweep cutoff m

-- `-d`
abbrev negate : ℤ → ℤ
negate d = sub_ℕ (neg_part d) (pos_part d)

unfoldable pub cleanup : RateLimiter → ℕ → RateLimiter
unfolding sweep
cleanup rl now =
    let kept = sweep (time_add now (negate rl.config.ip_idle_timeout)) rl.ip_buckets in
    record rl { ip_buckets = kept; metrics = record rl.metrics { ips_tracked = length kept } }

-- What the select of `cleanupRoutine` receives.
pub data CleanupEvent : Type 0 where
  tick : ℕ → CleanupEvent
  stop_signal : CleanupEvent

unfoldable pub cleanup_routine : RateLimiter → List CleanupEvent → RateLimiter
cleanup_routine rl [] = rl
cleanup_routine rl (tick now ∷ events) = cleanup_routine (cleanup rl now) events
cleanup_routine rl (stop_signal ∷ events) = rl

-- `close(rl.stopCleanup)`; closing it twice panics (`none`).
unfoldable pub stop : RateLimiter → Option RateLimiter
stop rl = if rl.stopped then none else some (record rl { stopped = true })

module _ (fl : Float64) where
  open fl use {Num, of_int, divide}

  unfoldable pub allow_ip : RateLimiter → Text → Readings → RateLimiter × Bool
  unfolding entry_or_new track_ip
  allow_ip rl ip r =
      let found = find ip rl.ip_buckets in
      let entry = entry_or_new rl.config found r in
      let tracked = track_ip rl.metrics found (length (put ip entry rl.ip_buckets)) in
      let (bucket, admitted) = Bucket.allow fl entry.bucket r.client in
      let entry' : IpEntry = record { bucket = bucket; last_seen = r.seen } in
      (record rl { ip_buckets = put ip entry' rl.ip_buckets; metrics = tracked }, admitted)

  -- The part of `Allow` behind the global limit.
  unfoldable pub allow_client : RateLimiter → Text → Readings → RateLimiter × Bool
  allow_client rl ip r =
      let (rl', admitted) = allow_ip rl ip r in
      if admitted
      then (count_allow rl', true)
      else (count_reject_per_ip (return_global_token rl'), false)

  unfoldable pub allow : RateLimiter → Text → Readings → RateLimiter × Bool
  unfolding allow_client
  allow rl ip r =
      let (bucket, admitted) = Bucket.allow fl rl.global_bucket r.global in
      let rl' = record rl { global_bucket = bucket } in
      if admitted then allow_client rl' ip r else (count_reject_global rl', false)

  pub record Stats : Type 0 where
    pub global_tokens : ℕ
    pub global_capacity : ℕ
    pub tracked_ips : ℕ
    pub global_utilization : Num

  unfoldable pub get_stats : RateLimiter → ℕ → RateLimiter × Stats
  get_stats rl now =
      let (bucket, tokens) = current_tokens fl rl.global_bucket now in
      let capacity = bucket.capacity in
      (
        record rl { global_bucket = bucket },
        record {
          global_tokens = tokens;
          global_capacity = capacity;
          tracked_ips = length rl.ip_buckets;
          global_utilization = divide (of_int (sub_ℕ capacity tokens)) (of_int (pos capacity));
        },
      )
