-- ===== src/RateLimit/Limiter/Admission/Throughput.antt =====
-- How many requests a limiter admits over a run, from all clients together.
use go_exercise.Base.{
  ℕ, ◌+◌, ◌-◌, ◌*◌, ◌≤◌, ◌≡◌, Bool, true, false, List, [], ◌∷◌, All, arith, if◌then◌else◌, refl,
  leb,
}
use go_exercise.Base.Int.{second}
use go_exercise.Base.Text.{Text}
use go_exercise.Base.Float64.{Float64}
use go_exercise.RateLimit.Bucket.{TokenBucket, refill, consume}
use go_exercise.RateLimit.Bucket.Bounds.{refill-IsValid}
use go_exercise.RateLimit.Bucket.Throughput.{IsAccurate, InWindow, budget, budget-refill}
use go_exercise.RateLimit.Limiter.{RateLimiter, Readings, cleanup, allow}
use go_exercise.RateLimit.Limiter.Admission.{allow_iff, allow_global_cost}

-- What happens to a limiter: a request of a client, or a round of the cleanup.
pub data Event : Type 0 where
  request : Text → Readings → Event
  sweep_at : ℕ → Event

-- The readings of the global bucket's clock are not behind `t`.
abbrev pub Until : ℕ → Event → Type 0
Until t (request ip r) = r.global ≤ t
Until t (sweep_at now) = Unit

-- What is left of the budget of a refilled bucket, where `b` tells whether a token was taken.
spend :
    (g tb : TokenBucket) (b : Bool) (t : ℕ)
    → tb.tokens ≤ tb.capacity
    → (b ≡ true → leb 1 tb.tokens ≡ true)
    → g ≡ (if b then (consume tb 1).0 else tb)
    → (budget g t + (if b then second else 0) ≤ budget tb t)
      × (g.tokens ≤ g.capacity)
      × (g.last_refill ≡ tb.last_refill)
      × (g.refill_rate ≡ tb.refill_rate)
spend g tb true t h room e = rw e (unfold consume budget in ground (arith, room refl))
spend g tb false t h room e = rw e (omega arith, h, refl, refl)

module _ (fl : Float64) where
  unfoldable pub step : RateLimiter → Event → RateLimiter × Bool
  step rl (request ip r) = allow fl rl ip r
  step rl (sweep_at now) = (cleanup rl now, false)

  -- The limiter after a run of events, and the number of requests that it admitted.
  unfoldable pub run_events : RateLimiter → List Event → RateLimiter × ℕ
  run_events rl [] = (rl, 0)
  run_events rl (e ∷ events) =
      let (rl', admitted) = step rl e in
      let (last, sum) = run_events rl' events in (last, if admitted then 1 + sum else sum)

  module _ (acc : IsAccurate fl) (t : ℕ) where
    budget-allow :
        (rl : RateLimiter) (ip : Text) (r : Readings)
        → r.global ≤ t
        → rl.global_bucket.tokens ≤ rl.global_bucket.capacity
        → InWindow rl.global_bucket t
        → (budget (allow fl rl ip r).0.global_bucket t
              + (if (allow fl rl ip r).1 then second else 0)
            ≤ budget rl.global_bucket t)
          × ((allow fl rl ip r).0.global_bucket.tokens
              ≤ (allow fl rl ip r).0.global_bucket.capacity)
          × InWindow (allow fl rl ip r).0.global_bucket t
    budget-allow rl ip r h bounded w =
        let (less, inside) = budget-refill fl acc rl.global_bucket r.global t h w in
        let refilled = refill fl rl.global_bucket r.global in
        let valid = refill-IsValid fl rl.global_bucket r.global (record { bounded = bounded }) in
        let g = (allow fl rl ip r).0.global_bucket in
        let (spent, fits, last, rate) =
          spend g refilled (allow fl rl ip r).1 t valid.bounded
            (ground (arith, allow_iff fl rl ip r)) (allow_global_cost fl rl ip r bounded) in
        (omega (arith, spent, less), fits, rw (last, rate) inside)

    -- For a limiter whose global bucket holds at most its capacity: the requests that it admits
    -- until time t, from all clients and with any rounds of the cleanup between them, are at most
    -- the tokens in the global bucket and those that the global rate gives in the time since its
    -- last refill. (float64 is accurate, and the window is short enough.)
    pub run_events-le-budget :
        (rl : RateLimiter) (events : List Event)
        → rl.global_bucket.tokens ≤ rl.global_bucket.capacity
        → All (Until t) events
        → InWindow rl.global_bucket t
        → (run_events rl events).1 * second
          ≤ rl.global_bucket.tokens * second
            + (t - rl.global_bucket.last_refill) * rl.global_bucket.refill_rate
    unfolding run_events budget step cleanup
    run_events-le-budget rl [] b h w = omega arith
    run_events-le-budget rl (request ip r ∷ events) b (h, hs) w =
        let (spent, fits, inside) = budget-allow rl ip r h b w in
        let rest = run_events-le-budget (allow fl rl ip r).0 events fits hs inside in
        ground (arith, spent, rest)
    run_events-le-budget rl (sweep_at now ∷ events) b (h, hs) w =
        run_events-le-budget (cleanup rl now) events b hs w
