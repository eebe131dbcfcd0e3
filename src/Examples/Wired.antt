-- ===== src/Examples/Wired.antt =====
-- The server that the main program makes, at one request.
use go_exercise.Base.{ℕ, ◌≡◌, refl, true, some, [], ◌∷◌, arith}
use go_exercise.Base.Text.{codes, text_eq}
use go_exercise.Base.Result.{ok}
use go_exercise.Cache.Memory.{new_in_memory_cache, effective_ttl}
use go_exercise.Kraken
use go_exercise.Kraken.{TickerError, trim_slashes}
use go_exercise.RateLimit.Limiter.{new_rate_limiter, default_config}
use go_exercise.HttpServer.{Request, Body, World, Server, returned, new_writer, finish}
use go_exercise.HttpServer.Handlers.{handle_ready}
use go_exercise.HttpServer.Limits.{sent_code}
use go_exercise.Main.Wiring.{Prices, main_server}
use go_exercise.Main.Ready
use go_exercise.Main.Ready.{ready_code}
use go_exercise.Examples.Symbols.{ascii}
use go_exercise.Examples.Prices.{network}
use go_exercise.Examples.Repeating.{clock, empty_cache, url}
use go_exercise.Examples.Serving.{request}

abbrev pub Store : Type 0
Store = Prices ℕ ℕ × ℕ

abbrev pub given : Server Store ℕ (TickerError ℕ)
given = record {
  svc = λ pairs. λ st. (st, ok []);
  checks = [];
  encodes = λ b. true;
  openapi_missing = λ st. true;
  serve_file = λ path. λ r. λ st. λ x. (st, x, returned);
  prometheus = λ r. λ st. λ x. (st, x, returned);
  not_routed = λ r. λ st. λ x. (st, x, returned);
}

abbrev pub world : World Store (Body ℕ (TickerError ℕ))
world = record {
  limiter =
      new_rate_limiter default_config
        (record { rate_limit_allows = 0; rejects_global = 0; rejects_per_ip = 0; ips_tracked = 0 })
        0;
  state = (empty_cache, 0);
  http_requests = [];
  access_log = [];
  response = new_writer;
}

abbrev ready : Request
ready = request (codes "GET") (codes "/ready") []

handle_ready-main_server_example :
    let s = main_server network ℕ url clock (λ d. λ n. n) (λ n. n) ascii 0 given in
    let price = Kraken.get_ticker_prices network (trim_slashes url) (codes "XBTUSD" ∷ []) 0 in
    sent_code (finish (handle_ready s ready (record world { response = new_writer })).response).sent
    ≡ some (ready_code price.1)
unfolding text_eq effective_ttl new_in_memory_cache
handle_ready-main_server_example =
    Ready.handle_ready-main_server network ℕ url clock (λ d. λ n. n) (λ n. n) ascii 0 given ready
      world refl refl (omega arith)
