-- ===== src/Main/Lifecycle.antt =====
-- cmd/server/main.go from the creation of the cache to the end: what it meets while it runs, the
-- shutdown, and the deferred calls.
--
-- The requests read and write what the methods of the cache do; what only the background refresh has
-- of a `FallbackCache` stands apart from that. A worker's work on one event is one step here.
pub mod Ending
use go_exercise.Base.{
  ℕ, ◌≡◌, refl, Bool, true, false, Option, none, some, List, [], ◌∷◌, arith, inl, inr, Bool-cases,
  Option-cases, ap, ◌∙◌, ◌||◌, if◌then◌else◌,
}
use go_exercise.Base.Int.{ℤ}
use go_exercise.Base.Text.{Text}
use go_exercise.Base.Float64.{Float64}
use go_exercise.Base.Result.{Result, ok, err}
use go_exercise.RateLimit.Limiter.{
  RateLimiter, Readings, stop, allow, allow_client, allow_ip, count_allow, count_reject_per_ip,
  count_reject_global, return_global_token, get_stats,
}
use go_exercise.Cache.Entry.{CacheConfig}
use go_exercise.Cache.Fallback.{CacheApi, FallbackCache}
use go_exercise.Cache.Fallback.Workers.{
  Caches, WorkerEvent, ticker_panics, worker_step, worker_step-Kept, start_background_refresh,
  stop_background_refresh, close, caches_of,
}
use go_exercise.Pairs.{Unicode}
use go_exercise.HttpServer.{Request, Body, World, Server}
use go_exercise.HttpServer.Middleware.{serve, is_exempt, update_rate_limit_metrics}
use go_exercise.HttpServer.Chain.{is_options, decide}
use go_exercise.HttpServer.Limits.{serve_limits}

-- What happens while `main` waits in its `select`, and what it receives there.
pub data Event : Type 0 where
  request : Request → Event
  worker : WorkerEvent → Event
  metrics_tick : ℕ → Event
  signal : Event  -- ctx.Done()
  server_error : Event  -- errCh

-- The cache that `CreateCacheFromEnv` gives: a `FallbackCache` over a primary cache, or another one
-- alone, in memory or of Redis.
pub data CacheKind (V E : Type 0) : Type 1 where
  with_fallback : CacheApi V E → CacheKind V E
  alone : CacheApi V E → CacheKind V E

module _ {V E : Type 0} where
  -- What the methods of the cache read and write.
  abbrev pub Stores : CacheKind V E → Type 0
  Stores (with_fallback P) = Caches P
  Stores (alone Q) = Q.State

-- What the background refresh has of a `FallbackCache`.
pub record Background : Type 0 where
  pub config : CacheConfig
  pub refresh_ch : List Text
  pub stopped : Bool
  pub workers : ℕ

module _ {V E : Type 0} where
  -- A cache alone has no background refresh.
  abbrev pub Own : CacheKind V E → Type 0
  Own (with_fallback P) = Background
  Own (alone Q) = Unit

  abbrev pub Parts : CacheKind V E → Type 0 → Type 0
  Parts K R = (Stores K × R) × Own K

  abbrev pub whole : (P : CacheApi V E) → Caches P → Background → FallbackCache P
  whole P (p, m) b = record {
    primary = p;
    fallback = m;
    config = b.config;
    refresh_ch = b.refresh_ch;
    stopped = b.stopped;
    workers = b.workers;
  }

  abbrev pub parts_of :
      {R : Type 0} (P : CacheApi V E) → FallbackCache P × R → Parts (with_fallback P) R
  parts_of P (f, r) = (
    (caches_of f, r),
    record {
      config = f.config;
      refresh_ch = f.refresh_ch;
      stopped = f.stopped;
      workers = f.workers;
    },
  )

  -- `StartBackgroundRefresh`, `StopBackgroundRefresh` and `Close`. The first two do nothing for a
  -- cache alone.
  unfoldable pub start_refresh : {R : Type 0} (K : CacheKind V E) → Parts K R → Parts K R
  unfolding start_background_refresh
  start_refresh (with_fallback P) ((c, r), b) =
      parts_of P (start_background_refresh (whole P c b), r)
  start_refresh (alone Q) s = s

  unfoldable pub stop_refresh : {R : Type 0} (K : CacheKind V E) → Parts K R → Parts K R
  unfolding stop_background_refresh
  stop_refresh (with_fallback P) ((c, r), b) = parts_of P (stop_background_refresh (whole P c b), r)
  stop_refresh (alone Q) s = s

  unfoldable pub close_cache : {R : Type 0} (K : CacheKind V E) → Parts K R → Parts K R
  unfolding close
  close_cache (with_fallback P) ((c, r), b) = parts_of P (close (whole P c b), r)
  close_cache (alone Q) ((q, r), b) = (((Q.close q).0, r), b)

  -- Whether a worker panics that `StartBackgroundRefresh` starts.
  unfoldable pub start_panics : (K : CacheKind V E) → Own K → Bool
  unfolding ticker_panics
  start_panics (with_fallback P) b = ticker_panics b.config
  start_panics (alone Q) b = false

  -- `refreshFunc` of `main` calls the price service, which calls the cache.
  abbrev pub Refresh : CacheKind V E → Type 0 → Type 0 → Type 0
  Refresh K R F = Text → Stores K × R → (Stores K × R) × Result F (V × ℤ)

  unfoldable pub work :
      {R F : Type 0}
      → Float64
      → (K : CacheKind V E) → Refresh K R F
      → WorkerEvent
      → Parts K R
      → Parts K R
  unfolding worker_step
  work fl (with_fallback P) refresh e ((c, r), b) =
      parts_of P (worker_step fl refresh e (whole P c b, r))
  work fl (alone Q) refresh e s = s

-- The server with its state, of which the cache is a part, and the two gauges.
pub record App (fl : Float64) {V G : Type 0} (K : CacheKind V G) (R Num E : Type 0) : Type 0 where
  pub world : World (Stores K × R) (Body Num E)
  pub own : Own K
  pub gauges : Option (fl.Num × fl.Num)

-- Where a run has come to, over the state of the program.
pub data Outcome (A F : Type 0) : Type 0 where
  still_running : A → Outcome A F
  ended : A → Outcome A F
  panicked : Outcome A F
  fatal : F → Outcome A F  -- log.Fatalf

module _ (fl : Float64) {V G R Num E : Type 0} (K : CacheKind V G) where
  abbrev pub set_cache : (Parts K R → Parts K R) → App fl K R Num E → App fl K R Num E
  set_cache f a =
      let (state, own) = f (a.world.state, a.own) in
      record a { world = record a.world { state = state }; own = own }

  -- `StopBackgroundRefresh` and `Close`, in the order of the deferred calls.
  unfoldable pub deferred : App fl K R Num E → App fl K R Num E
  unfolding stop_refresh close_cache
  deferred a = set_cache (close_cache K) (set_cache (stop_refresh K) a)

  -- `Server.Shutdown`: to close the channel of the limiter twice panics.
  unfoldable pub shutdown : App fl K R Num E → Option (App fl K R Num E)
  unfolding stop
  shutdown a = elim (stop a.world.limiter) [
    | none ↦ none
    | some rl ↦ some (record a { world = record a.world { limiter = rl } })
  ]

  unfoldable pub update_gauges : ℕ → App fl K R Num E → App fl K R Num E
  unfolding update_rate_limit_metrics
  update_gauges now a =
      let (rl, tokens, utilization) = update_rate_limit_metrics fl a.world.limiter now in
      record a { world = record a.world { limiter = rl }; gauges = some (tokens, utilization) }

  -- The end on a signal.
  unfoldable pub end_by_signal : {F : Type 0} → App fl K R Num E → Outcome (App fl K R Num E) F
  unfolding shutdown
  end_by_signal a = elim (shutdown a) [ none ↦ panicked | some a' ↦ ended (deferred a') ]

  module _ {F H : Type 0} (u : Unicode) (s : Server (Stores K × R) Num E)
      (refresh : Refresh K R H) where
    unfoldable pub run_main : List Event → App fl K R Num E → Outcome (App fl K R Num E) F
    unfolding update_gauges end_by_signal work
    run_main [] a = still_running a
    run_main (request r ∷ events) a =
        run_main events (record a { world = (serve fl u s r a.world).0 })
    run_main (worker e ∷ events) a = run_main events (set_cache (work fl K refresh e) a)
    run_main (metrics_tick now ∷ events) a = run_main events (update_gauges now a)
    run_main (signal ∷ events) a = end_by_signal a
    run_main (server_error ∷ events) a = ended (deferred a)

    -- On what `CreateCacheFromEnv` gives. A panic of a worker ends the program.
    unfoldable pub main_from :
        Result F (App fl K R Num E) → List Event → Outcome (App fl K R Num E) F
    unfolding run_main start_refresh start_panics
    main_from (err e) events = fatal e
    main_from (ok a) events =
        if start_panics K a.own then panicked else run_main events (set_cache (start_refresh K) a)
