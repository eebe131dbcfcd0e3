-- ===== src/Main/Wiring.antt =====
-- cmd/server/main.go, with the cache in memory: the price service over the older cache interface
-- and the client of Kraken.
use go_exercise.Base.{ℕ, ◌*◌, some, List, []}
use go_exercise.Base.Int.{ℤ, pos, second}
use go_exercise.Base.Text.{Text}
use go_exercise.Base.Dict.{Dict}
use go_exercise.Base.Result.{Result}
use go_exercise.Base.Float64.{Float64}
use go_exercise.Cache.Memory.Api.{Clocked, memory_api}
use go_exercise.Cache.Legacy.{Value, legacy_get, legacy_set}
use go_exercise.Kraken
use go_exercise.Kraken.{Transport, TickerError, trim_slashes}
use go_exercise.Pairs.{Unicode}
use go_exercise.Ltp.{Backend, get_ltp}
use go_exercise.Health.{Check, legacy_cache_check, kraken_check}
use go_exercise.HttpServer.{Server, add_health_check}

-- The cache holds prices, as a value of any type; what `main` puts there is a float64.
abbrev pub Prices : Type 0 → Type 0 → Type 0
Prices Num Other = Clocked (Value Num Other)

module _ {fl : Float64} {E : Type 0} (t : Transport fl E) (Other : Type 0) (kraken_url : Text)
    (clock : ℕ → ℕ) where
  -- `NewService` over `NewLegacyCache` and `NewClient`.
  abbrev pub service_backend : Backend fl.Num (TickerError E)
  service_backend = record {
    State = Prices fl.Num Other × t.State;
    cache_get =
        λ sym. λ (c, w). let (c', price) = legacy_get (memory_api clock) sym c in ((c', w), price);
    cache_set = λ sym. λ price. λ (c, w). (legacy_set (memory_api clock) sym price c, w);
    get_ticker_prices = λ symbols. λ (c, w).
        let (w', answer) = Kraken.get_ticker_prices t (trim_slashes kraken_url) symbols w in
        ((c, w'), answer);
  }

-- `with_timeout` and `cancel` are those of package context, on what the network's state has of it.
module _ {fl : Float64} {E : Type 0} (t : Transport fl E) (Other : Type 0) (kraken_url : Text)
    (clock : ℕ → ℕ) (with_timeout : ℤ → t.State → t.State) (cancel : t.State → t.State) where
  -- The client of Kraken as `KrakenCheck` calls it.
  abbrev pub probe :
      List Text
      → Prices fl.Num Other × t.State
      → (Prices fl.Num Other × t.State) × Result (TickerError E) (Dict fl.Num)
  probe symbols (c, w) =
      let (w', answer) =
        Kraken.get_ticker_prices t (trim_slashes kraken_url) symbols
          (with_timeout (pos (2 * second)) w) in
      ((c, cancel w'), answer)

  abbrev pub cache_health : Check (Prices fl.Num Other × t.State) (TickerError E)
  cache_health =
      let b = service_backend t Other kraken_url clock in
      legacy_cache_check fl (some (b.cache_get, b.cache_set))

  -- The server that `main` makes; `given` has what is not its own.
  unfoldable pub main_server :
      Unicode
      → fl.Num
      → Server (Prices fl.Num Other × t.State) fl.Num (TickerError E)
      → Server (Prices fl.Num Other × t.State) fl.Num (TickerError E)
  unfolding add_health_check
  main_server u z given =
      let new = record given {
        svc = get_ltp u (service_backend t Other kraken_url clock) z;
        checks = [];
      } in
      add_health_check (add_health_check new cache_health) (kraken_check (some probe))
