-- ===== src/Examples/Serving.antt =====
-- internal/httpserver at concrete inputs.
use go_exercise.Base.{
  ℕ, ◌≡◌, refl, true, false, ◌||◌, some, [], ◌∷◌, map, inl, arith, if◌then◌else◌,
}
use go_exercise.Base.Text.{Text, codes, text_eq, text_lt, has}
use go_exercise.Base.Split.{split, join}
use go_exercise.Base.Dict.{Dict, find, put}
use go_exercise.RateLimit.Limiter.{new_rate_limiter, default_config}
use go_exercise.Pairs.{
  trim_space, upper_char, space_char, normalize_user_pair, to_kraken_symbol, expected_base_quote,
}
use go_exercise.Ltp.{
  get_ltp, normalize_all, lookup_prices, try_cache, contains, fetch, note, store_prices,
  sorted_quotes, sort_keys, insert_key,
}
use go_exercise.Ltp.Errors.{Refused}
use go_exercise.HttpServer.{
  Request, Body, World, Server, returned, panicked, new_writer, is_get, finish,
}
use go_exercise.HttpServer.Handlers.{requested_pairs, query_get, handle_ltp}
use go_exercise.HttpServer.Middleware.{serve, is_exempt}
use go_exercise.HttpServer.Chain.{is_options, decide}
use go_exercise.HttpServer.Limits
use go_exercise.HttpServer.Limits.{sent_code}
use go_exercise.HttpServer.Recording
use go_exercise.HttpServer.Prices
use go_exercise.Examples.Fixed.{fixed}
use go_exercise.Examples.Symbols.{ascii}
use go_exercise.Examples.Prices.{backend}

-- The metrics are scraped by a handler that panics at once; the others write nothing.
abbrev server : Server (Dict ℕ) ℕ ℕ
server = record {
  svc = get_ltp ascii backend 0;
  checks = [];
  encodes = λ b. true;
  openapi_missing = λ st. false;
  serve_file = λ path. λ r. λ st. λ x. (st, x, returned);
  prometheus = λ r. λ st. λ x. (st, x, panicked);
  not_routed = λ r. λ st. λ x. (st, x, returned);
}

abbrev world : World (Dict ℕ) (Body ℕ ℕ)
world = record {
  limiter =
      new_rate_limiter default_config
        (record { rate_limit_allows = 0; rejects_global = 0; rejects_per_ip = 0; ips_tracked = 0 })
        0;
  state = [];
  http_requests = [];
  access_log = [];
  response = new_writer;
}

abbrev pub request : Text → Text → Text → Request
request method path pairs = record {
  method = method;
  path = path;
  url = path;
  query = (codes "pairs", pairs) ∷ [];
  origin = record { forwarded_for = []; real_ip = []; remote_addr = codes "10.0.0.1:80" };
  readings = record { global = 1; seen = 2; made = 3; client = 4 };
}

abbrev scrape : Request
scrape = request (codes "GET") (codes "/metrics") []

abbrev preflight : Request
preflight = request (codes "OPTIONS") (codes "/api/v1/ltp") []

abbrev pub prices : Request
prices = request (codes "GET") (codes "/api/v1/ltp") (codes "btc/usd, btc/chf")

abbrev bad_prices : Request
bad_prices = request (codes "GET") (codes "/api/v1/ltp") (codes "btcusd")

serve_limits_example :
    ((serve fixed ascii server scrape world).1 ≡ returned)
    × ((serve fixed ascii server scrape world).0.limiter ≡ (
        if is_options scrape || is_exempt scrape
        then world.limiter
        else (decide fixed scrape world).0))
    × ((serve fixed ascii server scrape world).0.access_log
        ≡ (if is_options scrape then [] else (codes "GET", codes "/metrics") ∷ []))
serve_limits_example = Limits.serve_limits fixed ascii server scrape world

serve_stops_example :
    ((serve fixed ascii server preflight world).0.state ≡ [])
    × ((serve fixed ascii server preflight world).0.http_requests ≡ [])
    × (sent_code (serve fixed ascii server preflight world).0.response.sent
        ≡ some (if is_options preflight then 200 else 429))
unfolding text_eq
serve_stops_example = Limits.serve_stops fixed ascii server preflight world refl

-- The panic is answered by 500, and counted so.
serve_counts_example :
    (code : ℕ) × ((serve fixed ascii server scrape world).0.http_requests
      ≡ (codes "GET", codes "/metrics", code) ∷ [])
    × (sent_code (serve fixed ascii server scrape world).0.response.sent ≡ some code)
unfolding text_eq is_exempt
serve_counts_example =
    Recording.serve_counts fixed ascii server scrape world refl refl
      (λ path. λ r. λ st. λ x. λ h. inl h) (λ r. λ st. λ x. λ h. h) (λ r. λ st. λ x. λ h. inl h)

prices_run :
    (requested_pairs ascii prices ≡ codes "btc/usd" ∷ codes "btc/chf" ∷ [])
    × (requested_pairs ascii scrape ≡ codes "BTC/USD" ∷ codes "BTC/CHF" ∷ codes "BTC/EUR" ∷ [])
unfolding requested_pairs find text_eq space_char
prices_run = (refl, refl)

requested_pairs-join_example :
    requested_pairs ascii prices ≡ map (trim_space ascii) (codes "btc/usd" ∷ codes " btc/chf" ∷ [])
unfolding find text_eq space_char query_get trim_space join
requested_pairs-join_example =
    Prices.requested_pairs-join ascii prices (codes "btc/usd") (codes " btc/chf" ∷ []) refl refl
      (λ e. cc) (omega arith) ((λ e. cc), ((λ e. cc), tt))

-- One of the two prices is in the cache.
abbrev cached : World (Dict ℕ) (Body ℕ ℕ)
cached = record world { state = (codes "XXBTZUSD", 51) ∷ [] }

ok_run : sent_code (Prices.answer ascii backend server 0 prices cached).sent ≡ some 200
unfolding handle_ltp get_ltp normalize_user_pair requested_pairs upper_char space_char has split
    text_eq text_lt find put normalize_all lookup_prices try_cache contains to_kraken_symbol fetch
    note store_prices sorted_quotes sort_keys insert_key finish
ok_run = refl

ok_quotes_example :
    (is_get prices ≡ true)
    × Prices.HasQuotes ascii backend server 0
        (codes "BTC/CHF")
        (requested_pairs ascii prices)
        (Prices.answer ascii backend server 0 prices cached)
ok_quotes_example = Prices.ok_quotes ascii backend server 0 prices cached (codes "BTC/CHF") ok_run

refused : Refused ascii (expected_base_quote (codes "BTCUSD")) (requested_pairs ascii bad_prices)
unfolding normalize_user_pair requested_pairs upper_char space_char has split text_eq find
refused = inl refl

bad_get : is_get bad_prices ≡ true
unfolding text_eq
bad_get = refl
