-- ===== src/Examples/Ending.antt =====
-- A run of the main program.
use go_exercise.Base.{ℕ, ◌≡◌, ◌⊎◌, refl, true, false, none, some, List, [], ◌∷◌}
use go_exercise.Base.Int.{pos}
use go_exercise.Base.Result.{ok, err}
use go_exercise.Cache.Entry.{default_cache_config}
use go_exercise.Cache.Fallback.{FallbackCache, new_fallback_cache}
use go_exercise.Cache.Fallback.Workers.{caches_of, ticker_panics, key_queued}
use go_exercise.RateLimit.Limiter.{new_rate_limiter, default_config}
use go_exercise.Cache.Memory.Api.{memory_api}
use go_exercise.HttpServer.{Server, returned, new_writer}
use go_exercise.Main.Lifecycle.{
  Event, request, worker, metrics_tick, signal, server_error, App, CacheKind, Stores, Refresh,
  with_fallback, alone, start_panics, panicked, main_from,
}
use go_exercise.Main.Lifecycle.Ending
use go_exercise.Main.Lifecycle.Ending.{ended_by_signal}
use go_exercise.Examples.Fixed.{fixed}
use go_exercise.Examples.Symbols.{ascii}
use go_exercise.Examples.Reviving.{store}
use go_exercise.Examples.Serving

abbrev kind : CacheKind ℕ ℕ
kind = with_fallback store

abbrev server : Server (Stores kind × ℕ) ℕ ℕ
server = record {
  svc = λ pairs. λ st. (st, ok []);
  checks = [];
  encodes = λ b. true;
  openapi_missing = λ st. true;
  serve_file = λ path. λ r. λ st. λ x. (st, x, returned);
  prometheus = λ r. λ st. λ x. (st, x, returned);
  not_routed = λ r. λ st. λ x. (st, x, returned);
}

abbrev cache : FallbackCache store
cache = new_fallback_cache [] default_cache_config

abbrev app : App fixed kind ℕ ℕ ℕ
app = record {
  world = record {
    limiter =
        new_rate_limiter default_config
          (record {
            rate_limit_allows = 0;
            rejects_global = 0;
            rejects_per_ip = 0;
            ips_tracked = 0;
          })
          0;
    state = (caches_of cache, 0);
    http_requests = [];
    access_log = [];
    response = new_writer;
  };
  own = record { config = default_cache_config; refresh_ch = []; stopped = false; workers = 0 };
  gauges = none;
}

abbrev no_refresh : Refresh kind ℕ ℕ
no_refresh key s = (s, err 0)

abbrev events : List Event
events =
    request Serving.prices ∷ worker (key_queued 5 6) ∷ metrics_tick 7 ∷ signal ∷ server_error ∷ []

main_from-IsCleanEnd_example :
    ((start_panics kind app.own ≡ true)
      × (main_from fixed kind {F = ℕ} ascii server no_refresh (ok app) events ≡ panicked))
    ⊎ ((start_panics kind app.own ≡ false)
        × Ending.IsCleanEnd fixed kind
            (ended_by_signal events)
            (main_from fixed kind {F = ℕ} ascii server no_refresh (ok app) events))
unfolding new_rate_limiter
main_from-IsCleanEnd_example =
    Ending.main_from-IsCleanEnd fixed kind ℕ ascii server no_refresh events app refl refl

starts : ticker_panics default_cache_config ≡ false
unfolding ticker_panics
starts = refl

-- `CACHE_REFRESH_INTERVAL=0s`
crashes : ticker_panics (record default_cache_config { refresh_interval = pos 0 }) ≡ true
unfolding ticker_panics
crashes = refl

-- A cache in memory starts no worker.
alone_starts : start_panics (alone (memory_api {V = ℕ} (λ n. n))) tt ≡ false
unfolding start_panics
alone_starts = refl

signalled : ended_by_signal events ≡ some true
unfolding ended_by_signal
signalled = refl
