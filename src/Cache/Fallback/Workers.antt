-- ===== src/Cache/Fallback/Workers.antt =====
-- The background workers of `FallbackCache`.
--
-- A worker's loop is its cases, and a run is a list of the events of one worker, in the order in
-- which its `select` meets them. Its channel to itself, `refreshCh`, holds 1000 keys.
use go_exercise.Base.{
  ℕ, ◌+◌, Bool, ◌&&◌, ◌≡◌, refl, true, none, some, List, [], ◌∷◌, ◌++◌, arith, ltb, length,
  if◌then◌else◌,
}
use go_exercise.Base.Int.{ℤ, pos, negsuc, ltb_ℤ, leb_ℤ}
use go_exercise.Base.Text.{Text}
use go_exercise.Base.Float64.{Float64}
use go_exercise.Cache.Entry.{CacheConfig}
use go_exercise.Base.Result.{Result, ok, err}
use go_exercise.Cache.Memory.{InMemoryCache}
use go_exercise.Cache.Memory.Batch.{get_expiring_keys}
use go_exercise.Cache.Fallback.{CacheApi, FallbackCache, set_fallback, set, evict_expired}

abbrev pub refresh_capacity : ℕ
refresh_capacity = 1000

abbrev pub started : ℤ → ℕ
started (pos n) = n
started (negsuc n) = 0

-- The send in the `select` of `refreshExpiringKeys`, with its default.
unfoldable pub offer : List Text → List Text → List Text
offer [] ch = ch
offer (key ∷ keys) ch = offer keys (if ltb (length ch) refresh_capacity then ch ++ key ∷ [] else ch)

-- Whether a refresh worker is started for which `time.NewTicker` panics: it does if the interval is
-- not positive. That is the first thing that a worker does.
unfoldable pub ticker_panics : CacheConfig → Bool
ticker_panics config =
    config.enable_fallback
    && (ltb_ℤ (pos 0) config.refresh_workers && leb_ℤ config.refresh_interval (pos 0))

-- What the methods of a cache read and write: the primary cache and the fallback.
abbrev pub Caches : {V E : Type 0} → CacheApi V E → Type 0
Caches {V} P = P.State × InMemoryCache V

-- `refreshFunc` may call the methods of the cache itself, and uses what else it stands on, of type
-- `R`. Its error is dropped.
abbrev pub RefreshFunc : {V E : Type 0} → CacheApi V E → Type 0 → Type 0 → Type 0
RefreshFunc {V} P R F = Text → Caches P × R → (Caches P × R) × Result F (V × ℤ)

module _ {V E : Type 0} {P : CacheApi V E} where
  unfoldable pub start_background_refresh : FallbackCache P → FallbackCache P
  start_background_refresh f =
      if f.config.enable_fallback
      then record f { workers = f.workers + started f.config.refresh_workers + 1 }
      else f

  -- `wg.Wait` returns when no worker runs.
  unfoldable pub stop_background_refresh : FallbackCache P → FallbackCache P
  stop_background_refresh f = if f.stopped then f else record f { stopped = true; workers = 0 }

  unfoldable pub close : FallbackCache P → FallbackCache P
  unfolding stop_background_refresh
  close f =
      let f' = stop_background_refresh f in
      let (p, answer) = P.close f'.primary in
      elim answer [ some e ↦ record f' { primary = p } | none ↦ record f' { primary = p } ]

  unfoldable pub refresh_expiring_keys :
      Float64 → (Text → ℕ × ℕ) → FallbackCache P → FallbackCache P
  unfolding offer
  refresh_expiring_keys fl clock f = record f {
    refresh_ch = offer (get_expiring_keys fl f.fallback (fl.decimal 1 1) clock) f.refresh_ch;
  }

  abbrev pub caches_of : FallbackCache P → Caches P
  caches_of f = (f.primary, f.fallback)

  abbrev pub with_caches : FallbackCache P → Caches P → FallbackCache P
  with_caches f (p, m) = record f { primary = p; fallback = m }

  unfoldable pub refresh_key :
      {R F : Type 0} → RefreshFunc P R F → Text → ℕ → ℕ → FallbackCache P × R → FallbackCache P × R
  refresh_key refresh_func key now created (f, r) =
      let ((c, r'), answer) = refresh_func key (caches_of f, r) in
      let f' = with_caches f c in
      elim answer [ err e ↦ (f', r') | ok (value, ttl) ↦ (set f' key value ttl now created, r') ]

-- What `refreshWorker` and `cleanupWorker` wait for.
pub data WorkerEvent : Type 0 where
  key_queued : ℕ → ℕ → WorkerEvent
  refresh_tick : (Text → ℕ × ℕ) → WorkerEvent
  cleanup_tick : (Text → ℕ) → WorkerEvent

module _ {V E R F : Type 0} {P : CacheApi V E} (fl : Float64)
    (refresh_func : RefreshFunc P R F) where
  unfoldable pub take_key : ℕ → ℕ → List Text → FallbackCache P × R → FallbackCache P × R
  take_key now created [] s = s
  take_key now created (key ∷ ch) (f, r) =
      refresh_key refresh_func key now created (record f { refresh_ch = ch }, r)

  -- A worker's whole work on an event, with nothing of the other workers in between.
  unfoldable pub worker_step : WorkerEvent → FallbackCache P × R → FallbackCache P × R
  unfolding take_key
  worker_step (key_queued now created) (f, r) = take_key now created f.refresh_ch (f, r)
  worker_step (refresh_tick clock) (f, r) = (refresh_expiring_keys fl clock f, r)
  worker_step (cleanup_tick clock) (f, r) = ((evict_expired f clock).0, r)

  -- What only the methods of the background refresh touch, as far as they stop it.
  abbrev pub Kept : FallbackCache P → FallbackCache P → Type 0
  Kept f g = (f.stopped ≡ g.stopped) × (f.workers ≡ g.workers) × (f.config ≡ g.config)

  refresh_key-Kept :
      (key : Text) (now created : ℕ) (f : FallbackCache P) (r : R)
      → Kept (refresh_key refresh_func key now created (f, r)).0 f
  unfolding refresh_key set set_fallback
  refresh_key-Kept key now created f r = ground arith

  evict_expired-Kept : (f : FallbackCache P) (clock : Text → ℕ) → Kept (evict_expired f clock).0 f
  unfolding evict_expired
  evict_expired-Kept f clock = ground arith

  take_key-Kept :
      (now created : ℕ) (ch : List Text) (f : FallbackCache P) (r : R)
      → Kept (take_key now created ch (f, r)).0 f
  unfolding take_key
  take_key-Kept now created [] f r = (refl, refl, refl)
  take_key-Kept now created (key ∷ ch) f r =
      refresh_key-Kept key now created (record f { refresh_ch = ch }) r

  -- No event of a worker changes whether the refresh is stopped, or how many workers run.
  pub worker_step-Kept :
      (event : WorkerEvent) (f : FallbackCache P) (r : R) → Kept (worker_step event (f, r)).0 f
  unfolding worker_step refresh_expiring_keys
  worker_step-Kept (key_queued now created) f r = take_key-Kept now created f.refresh_ch f r
  worker_step-Kept (refresh_tick clock) f r = (refl, refl, refl)
  worker_step-Kept (cleanup_tick clock) f r = evict_expired-Kept f clock
