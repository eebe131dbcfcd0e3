-- ===== src/Examples/Prices.antt =====
-- internal/ltp, internal/kraken, internal/health and cmd/server at concrete inputs.
use go_exercise.Base.{
  ℕ, ◌+◌, ◌≡◌, ◌↔◌, refl, true, false, none, some, if◌then◌else◌, List, [], ◌∷◌, ◌==◌,
}
use go_exercise.Base.Int.{pos}
use go_exercise.Base.Text.{Text, codes, text_eq, text_lt, has}
use go_exercise.Base.Split.{split}
use go_exercise.Base.Dict.{Dict, find, put, Distinct}
use go_exercise.Base.Result.{ok, err}
use go_exercise.Cache.Entry.{default_cache_config}
use go_exercise.Pairs.{
  upper_char, space_char, expected_base_quote, normalize_user_pair, to_upper, trim_space,
  to_kraken_symbol,
}
use go_exercise.Backoff
use go_exercise.Backoff.{Error, http_error, Call, is_retryable_http_error}
use go_exercise.Backoff.Attempts
use go_exercise.Backoff.Calls
use go_exercise.Kraken.{
  Transport, TickerEntry, collect_prices, make_request, read_response, assign_result,
  get_ticker_prices,
}
use go_exercise.Health.{Check, unhealthy, cache_check, kraken_check, readiness_check}
use go_exercise.Health.Readiness
use go_exercise.Ltp.{
  Backend, Quote, get_ltp, handler_error, bad_pair, contains, sort_keys, insert_key, normalize_all,
  lookup_prices, try_cache, fetch, note, store_prices, sorted_quotes,
}
use go_exercise.Ltp.Quotes
use go_exercise.Ltp.Requested
use go_exercise.Ltp.Sorting
use go_exercise.Main
use go_exercise.Examples.Symbols.{ascii}
use go_exercise.Examples.Fixed.{fixed}

-- A cache in a map, and an API that knows two prices.
abbrev known_prices : Dict ℕ
known_prices = (codes "XXBTZUSD", 50) ∷ (codes "XBTCHF", 47) ∷ []

abbrev pub backend : Backend ℕ ℕ
backend = record {
  State = Dict ℕ;
  cache_get = λ k. λ s. (s, find k s);
  cache_set = λ k. λ v. λ s. put k v s;
  get_ticker_prices = λ ks. λ s. (s, ok known_prices);
}

abbrev asked_for : List Text
asked_for = codes "btc/usd" ∷ codes " BTC/USD" ∷ codes "btc/chf" ∷ []

abbrev answered : List (Quote ℕ)
answered =
    record { pair = codes "BTC/CHF"; amount = 47 }
    ∷ record { pair = codes "BTC/USD"; amount = 51 }
    ∷ []

-- The price in dollars is in the cache, the other one is not.
get_ltp_run : (get_ltp ascii backend 0 asked_for ((codes "XXBTZUSD", 51) ∷ [])).1 ≡ ok answered
unfolding get_ltp normalize_user_pair upper_char space_char has split text_eq text_lt find put
    normalize_all lookup_prices try_cache contains to_kraken_symbol fetch note store_prices
    sorted_quotes sort_keys insert_key
get_ltp_run = refl

get_ltp_exact_example :
    Sorting.IsAscending (Quotes.pairs_of answered)
    × ((contains (codes "BTC/USD") (Quotes.pairs_of answered) ≡ true)
        ↔ Requested.Requested ascii (codes "BTC/USD") asked_for)
get_ltp_exact_example =
    Quotes.get_ltp_exact ascii backend 0 asked_for answered ((codes "XXBTZUSD", 51) ∷ [])
      (codes "BTC/USD") get_ltp_run

btcusd_refused :
    normalize_user_pair ascii (codes "btcusd") ≡ err (expected_base_quote (codes "BTCUSD"))
unfolding normalize_user_pair upper_char space_char has split
btcusd_refused = refl

symbol_has_no_slash : has 47 (trim_space ascii (to_upper ascii (codes "XXBTZUSD"))) ≡ false
unfolding to_upper trim_space upper_char space_char has
symbol_has_no_slash = refl

refresh_no_slash_example :
    Main.refresh_func ascii backend default_cache_config 0 (codes "XXBTZUSD") [] ≡ (
      [],
      err (
          Main.ltp_failed (
            handler_error 400 (
              bad_pair
                (expected_base_quote (trim_space ascii (to_upper ascii (codes "XXBTZUSD"))))))),
    )
refresh_no_slash_example =
    Main.refresh_no_slash ascii backend default_cache_config 0 (codes "XXBTZUSD") []
      symbol_has_no_slash

-- A call that fails twice and succeeds at the third attempt.
abbrev third_time : Call ℕ
third_time = record {
  State = ℕ;
  fn = λ n. (n + 1, if n == 2 then none else some n);
  should_retry = λ e. true;
  wait = λ a. λ n. (n, none);
}

retry_run :
    (Backoff.retry third_time (pos 5) 0 ≡ (3, none))
    × (Backoff.retry third_time (pos 2) 0 ≡ (2, some (Backoff.attempts_reached (pos 2) (some 1))))
unfolding Backoff.retry Backoff.attempts
retry_run = (refl, refl)

retry_exact_example :
    (Backoff.retry third_time (pos 5) 0 ≡ (3, none))
    ↔ Attempts.Run third_time (pos 5) 1 4 0 (3, none)
retry_exact_example = Attempts.retry_exact third_time 4 0 (3, none)

retry-IsCounted_example :
    Calls.IsCounted third_time
      (pos 2)
      0
      1
      (Backoff.retry (Calls.counted third_time) (pos 2) (0, 0))
      (Backoff.retry third_time (pos 2) 0)
retry-IsCounted_example = Calls.retry-IsCounted third_time 1 0

-- A network that answers 503 first and then with a ticker; the price reads as the number 50.
abbrev ticker : Dict TickerEntry
ticker = (codes "XXBTZUSD", record { c = codes "50" ∷ [] }) ∷ (codes "A", record { c = [] }) ∷ []

abbrev pub network : Transport fixed ℕ
network = record {
  State = ℕ;
  Body = ℕ;
  encode = λ v. codes "pair=";
  new_request = λ url. none;
  send = λ url. λ n. (n + 1, ok (record { status_code = if n == 0 then 503 else 200; body = n }));
  read_limited = λ n. λ body. [];
  decode = λ body. ok (record { error = []; result = ticker });
  scan = λ s. some 50;
  random = λ n. (n, 0);
  sleep = λ d. λ n. (n, none);
}

pub ticker_run :
    get_ticker_prices network (codes "http://host") (codes "XXBTZUSD" ∷ []) 0
    ≡ (2, ok ((codes "XXBTZUSD", 50) ∷ []))
unfolding get_ticker_prices Backoff.retry Backoff.attempts make_request read_response assign_result
    collect_prices put is_retryable_http_error Backoff.new_http_error Backoff.default_config
    Backoff.timed_wait
ticker_run = refl

ticker-Distinct : Distinct ticker
unfolding find text_eq
ticker-Distinct = (refl, (refl, tt))

abbrev checks : List (Check ℕ ℕ)
checks = cache_check true ∷ kraken_check {Num = ℕ} none ∷ []

readiness_exact_example :
    ((readiness_check checks 0).1.checks ≡ Readiness.results_of checks 0)
    × (((readiness_check checks 0).1.status ≡ unhealthy)
        ↔ Readiness.SomeUnhealthy (Readiness.results_of checks 0))
readiness_exact_example = Readiness.readiness_exact checks 0
