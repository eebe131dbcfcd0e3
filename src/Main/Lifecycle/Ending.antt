-- ===== src/Main/Lifecycle/Ending.antt =====
-- How the main program ends.
use go_exercise.Base.{
  ◌≡◌, refl, ◌∙◌, Bool, true, false, Option, none, some, List, [], ◌∷◌, arith, inl, inr, Bool-cases,
  ◌||◌, ◌⊎◌,
}
use go_exercise.Base.Text.{Text}
use go_exercise.Base.Float64.{Float64}
use go_exercise.RateLimit.Limiter.{
  RateLimiter, Readings, stop, allow, allow_client, allow_ip, count_allow, count_reject_per_ip,
  count_reject_global, return_global_token, get_stats,
}
use go_exercise.Base.Result.{ok}
use go_exercise.Cache.Fallback.Workers.{
  WorkerEvent, worker_step-Kept, start_background_refresh, stop_background_refresh, close,
}
use go_exercise.Pairs.{Unicode}
use go_exercise.HttpServer.{Request, Body, World, Server}
use go_exercise.HttpServer.Middleware.{serve, is_exempt, update_rate_limit_metrics}
use go_exercise.HttpServer.Chain.{is_options}
use go_exercise.HttpServer.Limits.{serve_limits}
use go_exercise.Main.Lifecycle.{
  Event, request, worker, metrics_tick, signal, server_error, App, CacheKind, with_fallback, alone,
  Stores, Own, Parts, Refresh, whole, start_refresh, stop_refresh, close_cache, start_panics, work,
  Outcome, still_running, ended, panicked, deferred, shutdown, update_gauges, end_by_signal,
  run_main, main_from,
}

-- Whether the first event that ends the program is the signal.
unfoldable pub ended_by_signal : List Event → Option Bool
ended_by_signal [] = none
ended_by_signal (signal ∷ events) = some true
ended_by_signal (server_error ∷ events) = some false
ended_by_signal (request r ∷ events) = ended_by_signal events
ended_by_signal (worker e ∷ events) = ended_by_signal events
ended_by_signal (metrics_tick now ∷ events) = ended_by_signal events

allow-stopped :
    (fl : Float64) (rl : RateLimiter) (ip : Text) (r : Readings)
    → (allow fl rl ip r).0.stopped ≡ rl.stopped
unfolding allow allow_client allow_ip count_allow count_reject_per_ip count_reject_global
    return_global_token
allow-stopped fl rl ip r = ground arith

module _ {V G : Type 0} where
  -- Before and after `StopBackgroundRefresh`: its channel is open, or it is closed and no worker runs.
  abbrev pub IsOpen : (K : CacheKind V G) → Own K → Type 0
  IsOpen (with_fallback P) b = b.stopped ≡ false
  IsOpen (alone Q) b = Unit

  abbrev pub IsStopped : (K : CacheKind V G) → Own K → Type 0
  IsStopped (with_fallback P) b = (b.stopped ≡ true) × (b.workers ≡ 0)
  IsStopped (alone Q) b = Unit

  start_refresh-IsOpen :
      {R : Type 0} (K : CacheKind V G) (s : Parts K R)
      → IsOpen K s.1
      → IsOpen K (start_refresh K s).1
  unfolding start_refresh start_background_refresh
  start_refresh-IsOpen (with_fallback P) ((c, r), b) h = ground arith
  start_refresh-IsOpen (alone Q) s h = tt

  work-IsOpen :
      {R F : Type 0} (fl : Float64) (K : CacheKind V G) (refresh : Refresh K R F) (e : WorkerEvent)
      (s : Parts K R)
      → IsOpen K s.1
      → IsOpen K (work fl K refresh e s).1
  unfolding work
  work-IsOpen fl (with_fallback P) refresh e ((c, r), b) h =
      (worker_step-Kept fl refresh e (whole P c b) r).0 ∙ h
  work-IsOpen fl (alone Q) refresh e s h = tt

  stop_refresh-IsStopped :
      {R : Type 0} (K : CacheKind V G) (s : Parts K R)
      → IsOpen K s.1
      → IsStopped K (close_cache K (stop_refresh K s)).1
  unfolding stop_refresh stop_background_refresh close_cache close
  stop_refresh-IsStopped (with_fallback P) ((c, r), b) h = ground arith
  stop_refresh-IsStopped (alone Q) s h = tt

module _ (fl : Float64) {V G R Num E : Type 0} (K : CacheKind V G) where
  serve-stopped :
      (u : Unicode) (s : Server (Stores K × R) Num E) (r : Request)
      (w : World (Stores K × R) (Body Num E))
      → (serve fl u s r w).0.limiter.stopped ≡ w.limiter.stopped
  serve-stopped u s r w =
      let (back, limiter, log) = serve_limits fl u s r w in
      elim (Bool-cases (is_options r || is_exempt r)) [
        | inl free ↦ rw (limiter, free) refl
        | inr counted ↦ rw (limiter, counted) (allow-stopped fl w.limiter _ r.readings)
      ]

  -- What is left of the program: it runs with the channel of the limiter open, or it has ended with
  -- the background refresh stopped, and the channel is closed if it ended by the signal.
  abbrev pub IsCleanEnd : {F : Type 0} → Option Bool → Outcome (App fl K R Num E) F → Type 0
  IsCleanEnd none o =
      (a : App fl K R Num E) × (o ≡ still_running a)
      × (a.world.limiter.stopped ≡ false)
      × IsOpen K a.own
  IsCleanEnd (some by_signal) o =
      (a : App fl K R Num E) × (o ≡ ended a)
      × IsStopped K a.own
      × (a.world.limiter.stopped ≡ by_signal)

  end_by_signal-IsCleanEnd :
      {F : Type 0} (a : App fl K R Num E)
      → a.world.limiter.stopped ≡ false
      → IsOpen K a.own
      → IsCleanEnd (some true) (end_by_signal fl K {F = F} a)
  unfolding end_by_signal shutdown stop deferred
  end_by_signal-IsCleanEnd {F} a opened h =
      let rl = record a.world.limiter { stopped = true } in
      let a' = record a { world = record a.world { limiter = rl } } in
      (
        deferred fl K a',
        rw (end_by_signal, shutdown, stop, opened) refl,
        stop_refresh-IsStopped K (a.world.state, a.own) h,
        refl,
      )

  module _ (F : Type 0) {H : Type 0} (u : Unicode) (s : Server (Stores K × R) Num E)
      (refresh : Refresh K R H) where
    run_main-IsCleanEnd :
        (events : List Event) (a : App fl K R Num E)
        → a.world.limiter.stopped ≡ false
        → IsOpen K a.own
        → IsCleanEnd (ended_by_signal events) (run_main fl K {F = F} u s refresh events a)
    unfolding run_main ended_by_signal update_gauges update_rate_limit_metrics get_stats deferred
    run_main-IsCleanEnd [] a opened h = (a, refl, opened, h)
    run_main-IsCleanEnd (request r ∷ events) a opened h =
        run_main-IsCleanEnd events _ (serve-stopped u s r a.world ∙ opened) h
    run_main-IsCleanEnd (worker e ∷ events) a opened h =
        run_main-IsCleanEnd events _ opened (work-IsOpen fl K refresh e (a.world.state, a.own) h)
    run_main-IsCleanEnd (metrics_tick now ∷ events) a opened h =
        run_main-IsCleanEnd events _ opened h
    run_main-IsCleanEnd (signal ∷ events) a opened h = end_by_signal-IsCleanEnd a opened h
    run_main-IsCleanEnd (server_error ∷ events) a opened h =
        (deferred fl K a, refl, stop_refresh-IsStopped K (a.world.state, a.own) h, opened)

    -- From a program that has its server and its cache, which may have a fallback or not, with the
    -- channels of the limiter and of the background refresh open. If the cache has a fallback, that is
    -- enabled, there is at least one refresh worker and the refresh interval is not positive, `main`
    -- panics. Otherwise no sequence of requests, events of the background workers and ticks of the
    -- metrics makes it panic: on the signal or the end of the server it ends, with the background
    -- refresh stopped and none of its workers running, and the channel of the limiter is closed if it
    -- was the signal, and open if it was the server; until then it runs with both channels open.
    pub main_from-IsCleanEnd :
        (events : List Event) (a : App fl K R Num E)
        → a.world.limiter.stopped ≡ false
        → IsOpen K a.own
        → ((start_panics K a.own ≡ true)
            × (main_from fl K {F = F} u s refresh (ok a) events ≡ panicked))
          ⊎ ((start_panics K a.own ≡ false)
              × IsCleanEnd
                  (ended_by_signal events)
                  (main_from fl K {F = F} u s refresh (ok a) events))
    unfolding main_from
    main_from-IsCleanEnd events a opened h = elim (Bool-cases (start_panics K a.own)) [
      | inl bad ↦ inl (bad, rw (main_from, bad) refl)
      | inr good ↦ inr (
        good,
        rw (main_from, good)
            (run_main-IsCleanEnd events _ opened (start_refresh-IsOpen K (a.world.state, a.own) h)),
      )
    ]
