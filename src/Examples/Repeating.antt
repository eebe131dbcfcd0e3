-- ===== src/Examples/Repeating.antt =====
-- The price service over the cache in memory, at two requests.
use go_exercise.Base.{ℕ, ◌+◌, ◌*◌, ◌≡◌, ◌∙◌, refl, none, [], ◌∷◌, arith}
use go_exercise.Base.Int.{second}
use go_exercise.Base.Text.{Text, codes, text_eq, has}
use go_exercise.Base.Split.{split}
use go_exercise.Base.Dict.{find}
use go_exercise.Base.Result.{ok}
use go_exercise.Cache.Entry.{default_cache_config}
use go_exercise.Cache.Memory.{new_in_memory_cache, effective_ttl}
use go_exercise.Cache.Memory.Api.{memory_api, api_get}
use go_exercise.Cache.Legacy.{legacy_get, price_in}
use go_exercise.Pairs.{normalize_user_pair, to_kraken_symbol, upper_char, space_char}
use go_exercise.Kraken
use go_exercise.Kraken.{trim_slashes}
use go_exercise.Ltp.{get_ltp}
use go_exercise.Main.Wiring.{Prices, service_backend}
use go_exercise.Main.Repeated
use go_exercise.Main.Origin.{served}
use go_exercise.Examples.Symbols.{ascii}
use go_exercise.Examples.Prices.{network, ticker_run}

-- A clock of which each reading is a second after the one before.
abbrev pub clock : ℕ → ℕ
clock n = 1000 * second + n * second

abbrev pub empty_cache : Prices ℕ ℕ
empty_cache = record { cache = new_in_memory_cache default_cache_config; readings = 0 }

abbrev pub url : Text
url = codes "http://host/"

trimmed : trim_slashes url ≡ codes "http://host"
unfolding trim_slashes
trimmed = refl

lower : normalize_user_pair ascii (codes "btc/usd") ≡ ok (codes "BTC/USD")
unfolding normalize_user_pair upper_char space_char has split
lower = refl

upper : normalize_user_pair ascii (codes "BTC/USD") ≡ ok (codes "BTC/USD")
unfolding normalize_user_pair upper_char space_char has split
upper = refl

symbol : to_kraken_symbol ascii (codes "BTC/USD") ≡ ok (codes "XXBTZUSD")
unfolding to_kraken_symbol normalize_user_pair upper_char space_char has split text_eq
symbol = refl

answered :
    (Kraken.get_ticker_prices network (trim_slashes url) (codes "XXBTZUSD" ∷ []) 0).1
    ≡ ok ((codes "XXBTZUSD", 50) ∷ [])
answered = rw trimmed (rw ticker_run refl)

missing : (legacy_get (memory_api clock) (codes "XXBTZUSD") empty_cache).1 ≡ none
unfolding legacy_get api_get price_in new_in_memory_cache find
missing = refl

get_ltp-get_ltp_example :
    let b = service_backend network ℕ url clock in
    let first = get_ltp ascii b 0 (codes "btc/usd" ∷ []) (empty_cache, 0) in
    let second = get_ltp ascii b 0 (codes "BTC/USD" ∷ []) first.0 in
    (first.1 ≡ ok (record { pair = codes "BTC/USD"; amount = 50 } ∷ []))
    × (second.1 ≡ first.1)
    × (second.0.1 ≡ first.0.1)
unfolding text_eq find effective_ttl new_in_memory_cache
get_ltp-get_ltp_example =
    Repeated.get_ltp-get_ltp network ℕ url clock ascii 0 (codes "btc/usd") (codes "BTC/USD")
      (codes "BTC/USD") (codes "XXBTZUSD") lower upper symbol empty_cache 0
      ((codes "XXBTZUSD", 50) ∷ []) 50 missing answered refl (omega arith)

-- A request after another, whose answer is in the cache.
pub again :
    (get_ltp ascii (service_backend network ℕ url clock) 0 (codes "BTC/USD" ∷ []) (
      served ascii
        (service_backend network ℕ url clock)
        0
        ((codes "btc/usd" ∷ []) ∷ [])
        (empty_cache, 0))).1
    ≡ ok (record { pair = codes "BTC/USD"; amount = 50 } ∷ [])
unfolding text_eq find effective_ttl new_in_memory_cache served
again =
    let both =
      Repeated.get_ltp-get_ltp network ℕ url clock ascii 0 (codes "btc/usd") (codes "BTC/USD")
        (codes "BTC/USD") (codes "XXBTZUSD") lower upper symbol empty_cache 0
        ((codes "XXBTZUSD", 50) ∷ []) 50 missing answered refl (omega arith) in
    both.1 ∙ both.0
