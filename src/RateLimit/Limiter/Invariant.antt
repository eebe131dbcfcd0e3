-- ===== src/RateLimit/Limiter/Invariant.antt =====
-- What holds of a limiter between two calls.
use go_exercise.Base.{
  ℕ, ◌≤◌, ◌≡◌, refl, ◌∙◌, none, List, [], ◌∷◌, arith, inl, inr, ltb, Bool-cases, Option-cases,
}
use go_exercise.Base.Text.{Text}
use go_exercise.Base.Dict.{
  Dict, find, Distinct, Distinct-put, AllValues, AllValues-put, AllValues-find,
}
use go_exercise.Base.Float64.{Float64}
use go_exercise.RateLimit.Bucket
use go_exercise.RateLimit.Bucket.{TokenBucket, new_token_bucket, refill, allow_n}
use go_exercise.RateLimit.Bucket.Bounds.{allow_n-IsValid, allow_n-SameLimits}
use go_exercise.RateLimit.Limiter.{
  Config, IpEntry, Metrics, RateLimiter, Readings, new_rate_limiter, entry_or_new, return_token,
  return_global_token, count_reject_global, count_reject_per_ip, count_allow, sweep, cleanup,
  CleanupEvent, tick, stop_signal, cleanup_routine, allow_ip, allow_client, allow,
}

-- A bucket with the given limits that holds at most its capacity.
pub record IsBucket (capacity rate : ℕ) (tb : TokenBucket) : Type 0 where
  pub bounded : tb.tokens ≤ tb.capacity
  pub capacity_eq : tb.capacity ≡ capacity
  pub rate_eq : tb.refill_rate ≡ rate

abbrev pub ClientBucket : Config → IpEntry → Type 0
ClientBucket config entry = IsBucket config.per_ip_capacity config.per_ip_refill_rate entry.bucket

pub record IsValid (rl : RateLimiter) : Type 0 where
  pub global_valid :
      IsBucket rl.config.global_capacity rl.config.global_refill_rate rl.global_bucket
  pub clients_valid : AllValues (ClientBucket rl.config) rl.ip_buckets
  pub distinct : Distinct rl.ip_buckets

pub new_rate_limiter-IsValid :
    (config : Config) (m : Metrics) (now : ℕ) → IsValid (new_rate_limiter config m now)
unfolding new_rate_limiter new_token_bucket
new_rate_limiter-IsValid config m now = record {
  global_valid = omega arith;
  clients_valid = tt;
  distinct = tt;
}

pub return_token-IsBucket :
    (c r : ℕ) (tb : TokenBucket) → IsBucket c r tb → IsBucket c r (return_token tb)
unfolding return_token
return_token-IsBucket c r tb h = ground arith

module _ (fl : Float64) where
  pub allow-IsBucket :
      (c r : ℕ) (tb : TokenBucket) (now : ℕ)
      → IsBucket c r tb
      → IsBucket c r (Bucket.allow fl tb now).0
  unfolding Bucket.allow
  allow-IsBucket c r tb now h =
      let valid = allow_n-IsValid fl tb 1 now (record { bounded = h.bounded }) in
      let same = allow_n-SameLimits fl tb 1 now in
      record {
        bounded = valid.bounded;
        capacity_eq = same.capacity ∙ h.capacity_eq;
        rate_eq = same.refill_rate ∙ h.rate_eq;
      }

  entry_or_new-IsBucket :
      (config : Config) (ip : Text) (m : Dict IpEntry) (r : Readings)
      → AllValues (ClientBucket config) m
      → ClientBucket config (entry_or_new config (find ip m) r)
  entry_or_new-IsBucket config ip m r h = elim (Option-cases (find ip m)) [
    | inl new ↦ rw new (unfold entry_or_new new_token_bucket in omega arith)
    | inr (entry, old) ↦
        rw old (unfold entry_or_new in AllValues-find (ClientBucket config) ip m h old)
  ]

  pub allow_ip-IsValid :
      (rl : RateLimiter) (ip : Text) (r : Readings) → IsValid rl → IsValid (allow_ip fl rl ip r).0
  unfolding allow_ip
  allow_ip-IsValid rl ip r h = record {
    global_valid = h.global_valid;
    clients_valid =
        AllValues-put (ClientBucket rl.config) ip _ rl.ip_buckets
          (allow-IsBucket _ _ _ r.client
            (entry_or_new-IsBucket rl.config ip rl.ip_buckets r h.clients_valid))
          h.clients_valid;
    distinct = Distinct-put ip _ _ h.distinct;
  }

  -- The counters are no part of the invariant, and giving a token back keeps it.
  return_global_token-IsValid : (rl : RateLimiter) → IsValid rl → IsValid (return_global_token rl)
  unfolding return_global_token
  return_global_token-IsValid rl h = record {
    global_valid = return_token-IsBucket _ _ rl.global_bucket h.global_valid;
    clients_valid = h.clients_valid;
    distinct = h.distinct;
  }

  allow_client-IsValid :
      (rl : RateLimiter) (ip : Text) (r : Readings)
      → IsValid rl
      → IsValid (allow_client fl rl ip r).0
  allow_client-IsValid rl ip r h =
      let after = allow_ip-IsValid rl ip r h in
      let returned = return_global_token-IsValid _ after in
      elim (Bool-cases (allow_ip fl rl ip r).1) [
        | inl yes' ↦
            unfold allow_client count_allow in
            rw yes' (record {
              global_valid = after.global_valid;
              clients_valid = after.clients_valid;
              distinct = after.distinct;
            })
        | inr no' ↦
            unfold allow_client count_reject_per_ip in
            rw no' (record {
              global_valid = returned.global_valid;
              clients_valid = returned.clients_valid;
              distinct = returned.distinct;
            })
      ]

  -- For a limiter whose buckets have the configured limits, hold at most their capacities, and
  -- whose clients stand once in the map, `Allow` leaves one of which this holds.
  pub allow-IsValid :
      (rl : RateLimiter) (ip : Text) (r : Readings) → IsValid rl → IsValid (allow fl rl ip r).0
  allow-IsValid rl ip r h =
      let taken = record rl { global_bucket = (Bucket.allow fl rl.global_bucket r.global).0 } in
      let valid : IsValid taken = record {
        global_valid = allow-IsBucket _ _ rl.global_bucket r.global h.global_valid;
        clients_valid = h.clients_valid;
        distinct = h.distinct;
      } in
      elim (Bool-cases (Bucket.allow fl rl.global_bucket r.global).1) [
        | inl yes' ↦ unfold allow in rw yes' (allow_client-IsValid taken ip r valid)
        | inr no' ↦
            unfold allow count_reject_global in
            rw no' (record {
              global_valid = valid.global_valid;
              clients_valid = valid.clients_valid;
              distinct = valid.distinct;
            })
      ]

sweep-AllValues :
    (P : IpEntry → Type 0) (cutoff : ℕ) (m : Dict IpEntry)
    → AllValues P m
    → AllValues P (sweep cutoff m)
unfolding sweep
sweep-AllValues P cutoff [] h = tt
sweep-AllValues P cutoff ((ip, entry) ∷ m) (p, h) = elim (Bool-cases (ltb entry.last_seen cutoff)) [
  | inl idle ↦ rw idle (sweep-AllValues P cutoff m h)
  | inr fresh ↦ rw fresh (p, sweep-AllValues P cutoff m h)
]

find-sweep_absent :
    (j : Text) (cutoff : ℕ) (m : Dict IpEntry) → find j m ≡ none → find j (sweep cutoff m) ≡ none
unfolding find sweep
find-sweep_absent j cutoff [] h = refl
find-sweep_absent j cutoff ((ip, entry) ∷ m) h = ground (arith, find-sweep_absent j cutoff m)

pub sweep-Distinct : (cutoff : ℕ) (m : Dict IpEntry) → Distinct m → Distinct (sweep cutoff m)
unfolding sweep
sweep-Distinct cutoff [] h = tt
sweep-Distinct cutoff ((ip, entry) ∷ m) h =
    ground (arith, find-sweep_absent ip cutoff m, sweep-Distinct cutoff m h.1)

pub cleanup-IsValid : (rl : RateLimiter) (now : ℕ) → IsValid rl → IsValid (cleanup rl now)
unfolding cleanup
cleanup-IsValid rl now h = record {
  global_valid = h.global_valid;
  clients_valid = sweep-AllValues _ _ rl.ip_buckets h.clients_valid;
  distinct = sweep-Distinct _ rl.ip_buckets h.distinct;
}

-- The cleanup routine keeps the invariant, whatever ticks and stop signal it receives.
pub cleanup_routine-IsValid :
    (events : List CleanupEvent) (rl : RateLimiter)
    → IsValid rl
    → IsValid (cleanup_routine rl events)
unfolding cleanup_routine
cleanup_routine-IsValid [] rl h = h
cleanup_routine-IsValid (tick now ∷ events) rl h =
    cleanup_routine-IsValid events (cleanup rl now) (cleanup-IsValid rl now h)
cleanup_routine-IsValid (stop_signal ∷ events) rl h = h
