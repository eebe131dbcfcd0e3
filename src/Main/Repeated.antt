-- ===== src/Main/Repeated.antt =====
-- A request for a price that was just answered.
use go_exercise.Base.{
  ℕ, suc, ◌+◌, ◌*◌, ◌≤◌, ◌≡◌, refl, ◌∙◌, Option, none, some, [], ◌∷◌, ltb, if◌then◌else◌, arith,
}
use go_exercise.Base.Int.{pos, time_add, second}
use go_exercise.Base.Text.{Text}
use go_exercise.Base.Dict.{Dict, find}
use go_exercise.Base.Float64.{Float64}
use go_exercise.Base.Result.{ok}
use go_exercise.Cache.Memory
use go_exercise.Cache.Memory.{effective_ttl}
use go_exercise.Cache.Memory.View.{get-set}
use go_exercise.Cache.Memory.Api.{memory_api, api_get, api_set}
use go_exercise.Cache.Legacy.{float64, price_in, legacy_get, legacy_set}
use go_exercise.Pairs.{Unicode, normalize_user_pair, to_kraken_symbol}
use go_exercise.Kraken
use go_exercise.Kraken.{Transport, TickerError, trim_slashes}
use go_exercise.Ltp.{Backend, get_ltp}
use go_exercise.Ltp.Single.{single_cached, single_fetched}
use go_exercise.Main.Wiring.{Prices, service_backend}

module _ {Num Other : Type 0} (clock : ℕ → ℕ) where
  abbrev pub looked_up : Text → Prices Num Other → Prices Num Other × Option Num
  looked_up sym c = legacy_get (memory_api clock) sym c

  -- Until when a price is kept that is set after `n` readings.
  abbrev pub kept_until : Prices Num Other → ℕ → ℕ
  kept_until c n = time_add (clock n) (effective_ttl c.cache.config (pos (60 * second)))

  -- A price that was set is found while its lifetime lasts.
  pub legacy_get-legacy_set :
      (sym : Text) (price : Num) (c : Prices Num Other)
      → (looked_up sym (legacy_set (memory_api clock) sym price c)).1
        ≡ (if ltb (kept_until c c.readings) (clock (c.readings + 2)) then none else some price)
  unfolding legacy_get legacy_set api_get api_set price_in
  legacy_get-legacy_set sym price c = ground (
    arith,
    get-set c.cache sym (float64 price) (pos (60 * second)) (clock c.readings)
        (clock (suc c.readings)) (clock (c.readings + 2)),
  )

  -- A lookup counts a reading, and leaves the configuration as it is.
  looked_up-config :
      (sym : Text) (c : Prices Num Other)
      → ((looked_up sym c).0.cache.config ≡ c.cache.config)
        × ((looked_up sym c).0.readings ≡ c.readings + 1)
  unfolding legacy_get api_get Memory.get Memory.get_with_metadata
  looked_up-config sym c = ground arith

  found_again :
      (sym : Text) (price : Num) (c : Prices Num Other)
      → clock (c.readings + 3) ≤ kept_until c (c.readings + 1)
      → (looked_up sym (legacy_set (memory_api clock) sym price (looked_up sym c).0)).1 ≡ some price
  found_again sym price c soon =
      let (config, readings) = looked_up-config sym c in
      let stored = legacy_get-legacy_set sym price (looked_up sym c).0 in
      let after : (looked_up sym c).0.readings + 2 ≡ c.readings + 3 = omega (arith, readings) in
      stored ∙ (rw (after, readings, config) (ground (arith, soon)))

module _ {fl : Float64} {E : Type 0} (t : Transport fl E) (Other : Type 0) (kraken_url : Text)
    (clock : ℕ → ℕ) (u : Unicode) (z : fl.Num) (p q n sym : Text)
    (normal : normalize_user_pair u p ≡ ok n) (again : normalize_user_pair u q ≡ ok n)
    (symbol : to_kraken_symbol u n ≡ ok sym) where
  abbrev backend : Backend fl.Num (TickerError E)
  backend = service_backend t Other kraken_url clock

  -- The price `v` of a pair was not in the cache, and Kraken has just answered with it. A request
  -- for the pair, in any spelling, while the lifetime of the cached price lasts, gives the same
  -- quote, and nothing is sent: the state of the network stays as it is.
  pub get_ltp-get_ltp :
      (c : Prices fl.Num Other) (w : t.State) (prices : Dict fl.Num) (v : fl.Num)
      → (legacy_get (memory_api clock) sym c).1 ≡ none
      → (Kraken.get_ticker_prices t (trim_slashes kraken_url) (sym ∷ []) w).1 ≡ ok prices
      → find sym prices ≡ some v
      → clock (c.readings + 3) ≤ kept_until clock c (c.readings + 1)
      → let first = get_ltp u backend z (p ∷ []) (c, w) in
        let second = get_ltp u backend z (q ∷ []) first.0 in
        (first.1 ≡ ok (record { pair = n; amount = v } ∷ []))
        × (second.1 ≡ first.1)
        × (second.0.1 ≡ first.0.1)
  get_ltp-get_ltp c w prices v miss good there soon =
      let c' = legacy_set (memory_api clock) sym v (legacy_get (memory_api clock) sym c).0 in
      let w' = (Kraken.get_ticker_prices t (trim_slashes kraken_url) (sym ∷ []) w).0 in
      let first =
        single_fetched u backend z p n sym normal symbol (c, w) prices v miss good there in
      let second =
        single_cached u backend z q n sym again symbol (c', w') v
          (found_again clock sym v c soon) in
      rw (first, second) (refl, refl, refl)
