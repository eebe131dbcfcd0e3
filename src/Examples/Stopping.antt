-- ===== src/Examples/Stopping.antt =====
-- The background workers are stopped, one of them in the middle of a refresh.
use go_exercise.Base.{ℕ, ◌+◌, ◌-◌, ◌==◌, ◌≡◌, refl, true, none, if◌then◌else◌, [], ◌∷◌, inl, inr}
use go_exercise.Base.Int.{pos}
use go_exercise.Base.Result.{ok}
use go_exercise.Cache.Entry.{default_cache_config}
use go_exercise.Cache.Fallback.{FallbackCache, new_fallback_cache, set_fallback}
use go_exercise.Cache.Fallback.Workers.{start_background_refresh}
use go_exercise.Cache.Fallback.Stopping.{
  RefreshSteps, Stopping, Worker, cleaner, refresher, calling, setting, copying, job_step, begun,
  takes_key, works, sees_stop, begins_stop, ends_wait, Reach, start, later,
}
use go_exercise.Cache.Fallback.Stopping.Quiet
use go_exercise.Cache.Fallback.Stopping.Return
use go_exercise.Examples.Fixed.{fixed}
use go_exercise.Examples.Reviving.{store, usd}

-- A refresh that takes two steps.
abbrev refresh : RefreshSteps store ℕ ℕ
refresh = record {
  Local = ℕ;
  begin = λ key. 1;
  step = λ l. λ (c, r). ((c, r + 1), if l == 0 then inr (ok (50, pos 60)) else inl (l - 1));
}

-- One worker that refreshes, with a key to take, and the one that cleans up.
abbrev cache : FallbackCache store
cache = record (new_fallback_cache [] (record default_cache_config { refresh_workers = pos 1 })) {
  refresh_ch = usd ∷ [];
}

abbrev idle_cleaner : Worker ℕ ℕ
idle_cleaner = record { kind = cleaner; job = none }

-- The stop begins behind the first step of the refresh.
abbrev Waiting : Type 0
Waiting =
    (s : Stopping store ℕ ℕ) × Reach fixed refresh (begun fixed refresh cache 0) s × (s.held ≡ true)

waiting : Waiting
unfolding new_fallback_cache start_background_refresh job_step
waiting = (
  _,
  later
      (later (later start (takes_key (idle_cleaner ∷ []) [] usd [] refl refl))
        (works (idle_cleaner ∷ []) [] refresher (calling usd 1) 3 4 (λ key. 0) refl))
      (begins_stop refl refl),
  refl,
)

abbrev Finished : Type 0
Finished =
    (s : Stopping store ℕ ℕ) × Reach fixed refresh (begun fixed refresh cache 0) s
    × (s.returned ≡ 1)

finished : Finished
unfolding waiting new_fallback_cache start_background_refresh job_step set_fallback
finished = (
  _,
  later
      (later
        (later
          (later
            (later
              (later waiting.1
                (works (idle_cleaner ∷ []) [] refresher (calling usd 0) 5 6 (λ key. 0) refl))
              (works (idle_cleaner ∷ []) [] refresher (setting usd 50 (pos 60)) 7 8 (λ key. 0)
                refl))
            (works (idle_cleaner ∷ []) [] refresher (copying usd 50) 9 10 (λ key. 0) refl))
          (sees_stop (idle_cleaner ∷ []) [] refresher refl refl))
        (sees_stop [] [] cleaner refl refl))
      (ends_wait refl refl),
  refl,
)

Reach-stop_example :
    (finished.0.running ≡ [])
    × (finished.0.cache ≡ finished.0.cache)
    × (finished.0.rest ≡ finished.0.rest)
unfolding new_fallback_cache
Reach-stop_example = Quiet.Reach-stop fixed refresh cache 0 0 refl refl finished.1 finished.2 start
