-- ===== src/RateLimit/Limiter/Interleaved.antt =====
-- `Allow` under concurrency. It takes the lock of the global bucket, then the limiter's lock for the
-- client, and, if the client is over its limit, the lock of the global bucket once more; between
-- them other requests, rounds of the cleanup and `GetStats` run.
pub mod Bounds
pub mod Validity
use go_exercise.Base.{
  ℕ, suc, ◌+◌, ◌≤◌, ◌≡◌, Bool, true, false, List, [], ◌∷◌, ◌++◌, if◌then◌else◌, arith, refl,
}
use go_exercise.Base.Text.{Text}
use go_exercise.Base.Float64.{Float64}
use go_exercise.RateLimit.Bucket
use go_exercise.RateLimit.Bucket.{TokenBucket}
use go_exercise.RateLimit.Limiter.{
  RateLimiter, Readings, return_global_token, count_reject_global, count_reject_per_ip, count_allow,
  cleanup, allow_ip, allow_client, allow, get_stats,
}

-- The limiter, with the requests that are between two of their steps: `checking` has the clients of
-- those that hold a token of the global bucket and wait for the limiter's lock, `returning` is how
-- many have yet to give theirs back. `admitted` counts those that were admitted.
pub record System : Type 0 where
  pub limiter : RateLimiter
  pub checking : List Text
  pub returning : ℕ
  pub admitted : ℕ

abbrev pub idle : RateLimiter → System
idle rl = record { limiter = rl; checking = []; returning = 0; admitted = 0 }

-- `returnGlobalToken` and the counter behind it.
unfoldable pub give_back : RateLimiter → RateLimiter
unfolding return_global_token count_reject_per_ip
give_back rl = count_reject_per_ip (return_global_token rl)

module _ (fl : Float64) where
  -- Up to the answer of the global bucket.
  unfoldable pub begin_allow : RateLimiter → ℕ → RateLimiter × Bool
  unfolding count_reject_global
  begin_allow rl now =
      let (bucket, admitted) = Bucket.allow fl rl.global_bucket now in
      let rl' = record rl { global_bucket = bucket } in
      (if admitted then rl' else count_reject_global rl', admitted)

  -- `allowIP`, and the counter of a request that is admitted.
  unfoldable pub check_client : RateLimiter → Text → Readings → RateLimiter × Bool
  unfolding count_allow
  check_client rl ip r =
      let (rl', admitted) = allow_ip fl rl ip r in
      (if admitted then count_allow rl' else rl', admitted)

  -- What can happen next, where no clock of the global bucket reads later than `t`.
  pub data Step (t : ℕ) (s : System) : System → Type 0 where
    begins :
        (ip : Text) (now : ℕ)
        → now ≤ t
        → Step t s (record s {
          limiter = (begin_allow s.limiter now).0;
          checking = if (begin_allow s.limiter now).1 then ip ∷ s.checking else s.checking;
        })
    checks :
        (before after : List Text) (ip : Text) (r : Readings)
        → s.checking ≡ before ++ ip ∷ after
        → Step t s (record s {
          limiter = (check_client s.limiter ip r).0;
          checking = before ++ after;
          returning = if (check_client s.limiter ip r).1 then s.returning else s.returning + 1;
          admitted = if (check_client s.limiter ip r).1 then s.admitted + 1 else s.admitted;
        })
    gives_back :
        (n : ℕ)
        → s.returning ≡ suc n
        → Step t s (record s { limiter = give_back s.limiter; returning = n })
    cleans_up : (now : ℕ) → Step t s (record s { limiter = cleanup s.limiter now })
    reads_stats :
        (now : ℕ) → now ≤ t → Step t s (record s { limiter = (get_stats fl s.limiter now).0 })

  pub data Reach (t : ℕ) (s : System) : System → Type 0 where
    start : Reach t s s
    later : {s' s'' : System} → Reach t s s' → Step t s' s'' → Reach t s s''

  -- The steps of a request with nothing between them are `Allow`.
  abbrev pub in_steps : RateLimiter → Text → Readings → RateLimiter × Bool
  in_steps rl ip r =
      let (rl', taken) = begin_allow rl r.global in
      let (rl'', admitted) = check_client rl' ip r in
      if taken then (if admitted then (rl'', true) else (give_back rl'', false)) else (rl', false)

  pub in_steps-allow :
      (rl : RateLimiter) (ip : Text) (r : Readings) → in_steps rl ip r ≡ allow fl rl ip r
  unfolding begin_allow check_client allow allow_client give_back
  in_steps-allow rl ip r = ground arith
