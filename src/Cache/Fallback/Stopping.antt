-- ===== src/Cache/Fallback/Stopping.antt =====
-- The background workers under concurrency, each in the steps that it takes under a lock or in a call
-- of the primary cache, and `StopBackgroundRefresh`. It holds `f.mu` from the test of `stopCh` to the
-- return of `wg.Wait`; until then the workers take further steps: one that is at work goes on, and
-- one that waits may prefer any case of its `select` that is ready.
pub mod Quiet
pub mod Return
use go_exercise.Base.{
  ℕ, zero, suc, if◌then◌else◌, ◌-◌, ◌≡◌, Bool, true, false, Option, none, some, List, [], ◌∷◌, ◌++◌,
  ◌⊎◌, inl, inr,
}
use go_exercise.Base.Int.{ℤ}
use go_exercise.Base.Text.{Text}
use go_exercise.Base.Float64.{Float64}
use go_exercise.Base.Result.{Result, ok, err}
use go_exercise.Cache.Memory.Batch
use go_exercise.Cache.Memory.Batch.{get_expiring_keys}
use go_exercise.Cache.Entry.{CacheConfig}
use go_exercise.Cache.Fallback.{CacheApi, FallbackCache, set_fallback}
use go_exercise.Cache.Fallback.Workers.{
  Caches, caches_of, with_caches, offer, started, start_background_refresh,
}

-- `refreshFunc` in its steps: where it is, and a step, which reads and writes what the methods of
-- the cache do and what else it stands on, and goes on or returns.
pub record RefreshSteps {V E : Type 0} (P : CacheApi V E) (R F : Type 0) : Type 1 where
  pub Local : Type 0
  pub begin : Text → Local
  pub step : Local → Caches P × R → (Caches P × R) × (Local ⊎ Result F (V × ℤ))

-- What a worker is about to do: a step of `refreshFunc`, the two writes of `Set`, the sends of
-- `refreshExpiringKeys`, the two calls of `EvictExpired`.
pub data Job (Local V : Type 0) : Type 0 where
  calling : Text → Local → Job Local V
  setting : Text → V → ℤ → Job Local V
  copying : Text → V → Job Local V
  offering : List Text → Job Local V
  evicting : Job Local V
  clearing : Job Local V

-- `refreshWorker` and `cleanupWorker`.
pub data Kind : Type 0 where
  refresher : Kind
  cleaner : Kind

-- A goroutine that has not returned; without a job it waits in its `select`.
pub record Worker (Local V : Type 0) : Type 0 where
  pub kind : Kind
  pub job : Option (Job Local V)

-- The cache with its workers, whether their context is done, whether a call of
-- `StopBackgroundRefresh` holds `f.mu`, and how many of these calls have returned.
pub record Stopping {V E : Type 0} (P : CacheApi V E) (R Local : Type 0) : Type 0 where
  pub cache : FallbackCache P
  pub rest : R
  pub running : List (Worker Local V)
  pub done : Bool
  pub held : Bool
  pub returned : ℕ

module _ {V E R F : Type 0} {P : CacheApi V E} (fl : Float64) (refresh : RefreshSteps P R F) where
  open refresh use {Local, begin, step}

  abbrev pub refreshers : ℕ → List (Worker Local V)
  refreshers zero = []
  refreshers (suc n) = record { kind = refresher; job = none } ∷ refreshers n

  -- The workers that `StartBackgroundRefresh` starts.
  abbrev pub started_workers : CacheConfig → List (Worker Local V)
  started_workers config =
      if config.enable_fallback
      then record { kind = cleaner; job = none } ∷ refreshers (started config.refresh_workers)
      else []

  -- Behind `StartBackgroundRefresh`.
  abbrev pub begun : FallbackCache P → R → Stopping P R Local
  begun f r = record {
    cache = start_background_refresh f;
    rest = r;
    running = started_workers f.config;
    done = false;
    held = false;
    returned = 0;
  }

  -- Where a call of `refreshFunc` has come to.
  abbrev pub called : Text → Local ⊎ Result F (V × ℤ) → Option (Job Local V)
  called key (inl l) = some (calling key l)
  called key (inr (err e)) = none
  called key (inr (ok (value, ttl))) = some (setting key value ttl)

  -- A step of a worker at its job, with its readings of the clock. `Set` writes the fallback whether
  -- the primary cache took the value or not, and `EvictExpired` goes on to the fallback as well.
  unfoldable pub job_step :
      ℕ
      → ℕ
      → (Text → ℕ)
      → Job Local V
      → FallbackCache P × R
      → (FallbackCache P × R) × Option (Job Local V)
  unfolding set_fallback offer
  job_step now created clock (calling key l) (f, r) =
      let ((c, r'), next) = step l (caches_of f, r) in ((with_caches f c, r'), called key next)
  job_step now created clock (setting key value ttl) (f, r) =
      ((record f { primary = (P.set key value ttl f.primary).0 }, r), some (copying key value))
  job_step now created clock (copying key value) (f, r) =
      ((set_fallback f key value now created, r), none)
  job_step now created clock (offering []) (f, r) = ((f, r), none)
  job_step now created clock (offering (key ∷ keys)) (f, r) =
      ((record f { refresh_ch = offer (key ∷ []) f.refresh_ch }, r), some (offering keys))
  job_step now created clock evicting (f, r) =
      ((record f { primary = (P.evict_expired f.primary).0 }, r), some clearing)
  job_step now created clock clearing (f, r) =
      ((record f { fallback = (Batch.evict_expired f.fallback clock).0 }, r), none)

  pub data Step (s : Stopping P R Local) : Stopping P R Local → Type 0 where
    takes_key :
        (before after : List (Worker Local V)) (key : Text) (ch : List Text)
        → s.running ≡ before ++ record { kind = refresher; job = none } ∷ after
        → s.cache.refresh_ch ≡ key ∷ ch
        → Step s (record s {
          cache = record s.cache { refresh_ch = ch };
          running =
              before ++ record { kind = refresher; job = some (calling key (begin key)) } ∷ after;
        })
    refresh_ticks :
        (before after : List (Worker Local V)) (clock : Text → ℕ × ℕ)
        → s.running ≡ before ++ record { kind = refresher; job = none } ∷ after
        → Step s (record s {
          running =
              before
              ++ record {
                kind = refresher;
                job =
                    some (offering (get_expiring_keys fl s.cache.fallback (fl.decimal 1 1) clock));
              }
                ∷ after;
        })
    cleanup_ticks :
        (before after : List (Worker Local V))
        → s.running ≡ before ++ record { kind = cleaner; job = none } ∷ after
        → Step s (record s {
          running = before ++ record { kind = cleaner; job = some evicting } ∷ after;
        })
    works :
        (before after : List (Worker Local V)) (k : Kind) (j : Job Local V) (now created : ℕ)
        (clock : Text → ℕ)
        → s.running ≡ before ++ record { kind = k; job = some j } ∷ after
        → Step s (record s {
          cache = (job_step now created clock j (s.cache, s.rest)).0.0;
          rest = (job_step now created clock j (s.cache, s.rest)).0.1;
          running =
              before
              ++ record { kind = k; job = (job_step now created clock j (s.cache, s.rest)).1 }
                ∷ after;
        })
    sees_stop :  -- `wg.Done` of a worker that returns
        (before after : List (Worker Local V)) (k : Kind)
        → s.running ≡ before ++ record { kind = k; job = none } ∷ after
        → s.cache.stopped ≡ true
        → Step s (record s {
          cache = record s.cache { workers = s.cache.workers - 1 };
          running = before ++ after;
        })
    sees_done :
        (before after : List (Worker Local V)) (k : Kind)
        → s.running ≡ before ++ record { kind = k; job = none } ∷ after
        → s.done ≡ true
        → Step s (record s {
          cache = record s.cache { workers = s.cache.workers - 1 };
          running = before ++ after;
        })
    cancels : Step s (record s { done = true })
    begins_stop :
        s.held ≡ false
        → s.cache.stopped ≡ false
        → Step s (record s { cache = record s.cache { stopped = true }; held = true })
    finds_stopped :
        s.held ≡ false → s.cache.stopped ≡ true → Step s (record s { returned = suc s.returned })
    ends_wait :  -- `wg.Wait` returns
        s.held ≡ true
        → s.cache.workers ≡ 0
        → Step s (record s { held = false; returned = suc s.returned })

  pub data Reach (s : Stopping P R Local) : Stopping P R Local → Type 0 where
    start : Reach s s
    later : {s' s'' : Stopping P R Local} → Reach s s' → Step s' s'' → Reach s s''
