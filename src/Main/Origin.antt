-- ===== src/Main/Origin.antt =====
-- From where the prices come that the service answers, with the cache in memory.
pub mod Tracking
pub mod Current
pub mod Answers
use go_exercise.Base.{ℕ, suc, ◌*◌, ◌≤◌, ◌≡◌, ◌⊎◌, some, List, [], ◌∷◌, ◌++◌}
use go_exercise.Base.Int.{pos, time_add, second}
use go_exercise.Base.Text.{Text}
use go_exercise.Base.Dict.{Dict, find}
use go_exercise.Base.Float64.{Float64}
use go_exercise.Base.Result.{Result, ok, err}
use go_exercise.Cache.Entry.{CacheConfig, CacheEntry}
use go_exercise.Cache.Memory.{effective_ttl}
use go_exercise.Cache.Legacy.{Value, float64}
use go_exercise.Pairs.{Unicode}
use go_exercise.Kraken.{Transport, TickerError}
use go_exercise.Ltp.{Backend, get_ltp}
use go_exercise.Main.Wiring.{Prices, service_backend}

-- What happens to prices: Kraken answers, and the service puts one into the cache, at a reading of
-- the clock.
pub data Note (Num : Type 0) : Type 0 where
  answered : Dict Num → Note Num
  cached : Text → Num → ℕ → Note Num

module _ {Num : Type 0} where
  -- Kraken has answered with the price of the symbol.
  abbrev pub Answered : Text → Num → List (Note Num) → Type 0
  Answered sym v [] = ⊥
  Answered sym v (answered prices ∷ h) = (find sym prices ≡ some v) ⊎ Answered sym v h
  Answered sym v (cached sym' v' n ∷ h) = Answered sym v h

  -- The service put the price into the cache, after Kraken had answered with it.
  abbrev pub Cached : Text → Num → ℕ → List (Note Num) → Type 0
  Cached sym v n [] = ⊥
  Cached sym v n (answered prices ∷ h) = Cached sym v n h
  Cached sym v n (cached sym' v' n' ∷ h) =
      ((sym' ≡ sym) × (v' ≡ v) × (n' ≡ n) × Answered sym' v' h) ⊎ Cached sym v n h

  unfoldable pub note_answer :
      {X : Type 0} → Result X (Dict Num) → List (Note Num) → List (Note Num)
  note_answer (ok prices) h = answered prices ∷ h
  note_answer (err e) h = h

-- Requests to the service, one after another.
module _ (u : Unicode) {Num E : Type 0} (b : Backend Num E) (z : Num) where
  unfoldable pub served : List (List Text) → b.State → b.State
  served [] s = s
  served (pairs ∷ requests) s = served requests (get_ltp u b z pairs s).0

module _ {fl : Float64} {E : Type 0} (t : Transport fl E) (Other : Type 0) (kraken_url : Text)
    (clock : ℕ → ℕ) where
  abbrev pub backend : Backend fl.Num (TickerError E)
  backend = service_backend t Other kraken_url clock

  -- The service's backend, with a record of what happens to prices, the latest first.
  abbrev pub recorded : Backend fl.Num (TickerError E)
  recorded = record {
    State = List (Note fl.Num) × (Prices fl.Num Other × t.State);
    cache_get = λ sym. λ (h, s). let (s', v) = backend.cache_get sym s in ((h, s'), v);
    cache_set = λ sym. λ v. λ (h, s). (cached sym v s.0.readings ∷ h, backend.cache_set sym v s);
    get_ticker_prices = λ syms. λ (h, s).
        let (s', answer) = backend.get_ticker_prices syms s in ((note_answer answer h, s'), answer);
  }

  module _ (config : CacheConfig) (h0 : List (Note fl.Num)) (start : ℕ) where
    -- The end of the lifetime of a price that was put into the cache at the `n`-th reading.
    abbrev pub kept_until : ℕ → ℕ
    kept_until n = time_add (clock n) (effective_ttl config (pos (60 * second)))

    -- Kraken has answered with the price since the call of the service started, or the service had
    -- put it into the cache, and it was still alive at a reading of the clock in this call.
    abbrev pub IsCurrent : Text → fl.Num → recorded.State → Type 0
    IsCurrent sym v (h, (c, w)) =
        ((news : List (Note fl.Num)) × (h ≡ news ++ h0) × Answered sym v news)
        ⊎ ((n : ℕ) × (r : ℕ) × Cached sym v n h
            × (start ≤ r)
            × (suc r ≤ c.readings)
            × (clock r ≤ kept_until n))

    -- Each entry of the cache was put there by the service, and has its lifetime.
    abbrev pub IsNoted : Prices fl.Num Other → List (Note fl.Num) → Type 0
    IsNoted c h =
        (j : Text) (e : CacheEntry (Value fl.Num Other))
        → find j c.cache.entries ≡ some e
        → (v : fl.Num) × (n : ℕ) × (e.value ≡ float64 v)
          × Cached j v n h
          × (e.expires_at ≡ kept_until n)

    abbrev pub Holds : recorded.State → Type 0
    Holds (h, (c, w)) =
        (c.cache.config ≡ config)
        × (start ≤ c.readings)
        × ((news : List (Note fl.Num)) × (h ≡ news ++ h0))
        × IsNoted c h
