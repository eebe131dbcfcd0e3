-- ===== src/Main/Origin/Current.antt =====
-- No price is answered that Kraken did not give, or that was kept for too long.
use go_exercise.Base.{ℕ, ◌≡◌, refl, ap, subst, ◌∙◌, List, [], ◌∷◌, All, arith}
use go_exercise.Base.Dict.{find}
use go_exercise.Base.Text.{Text}
use go_exercise.Base.Float64.{Float64}
use go_exercise.Base.Result.{Result, ok, err}
use go_exercise.Cache.Entry.{CacheConfig}
use go_exercise.Cache.Memory.{new_in_memory_cache}
use go_exercise.Pairs.{Unicode, to_kraken_symbol}
use go_exercise.Kraken.{Transport, TickerError}
use go_exercise.Ltp.{Backend, Quote, LtpError, get_ltp}
use go_exercise.Ltp.Tracked.{Quoted, get_ltp-Quoted}
use go_exercise.Ltp.Viewed.{IsView, get_ltp-view}
use go_exercise.Main.Wiring.{Prices}
use go_exercise.Main.Origin.{backend, recorded, served, IsCurrent, IsNoted, Holds}
use go_exercise.Main.Origin.Tracking.{recorded-IsTracked}

module _ {fl : Float64} {E : Type 0} (t : Transport fl E) (Other : Type 0) (kraken_url : Text)
    (clock : ℕ → ℕ) (u : Unicode) (z : fl.Num) where
  abbrev pub service : Backend fl.Num (TickerError E)
  service = backend t Other kraken_url clock

  abbrev pub noting : Backend fl.Num (TickerError E)
  noting = recorded t Other kraken_url clock

  noting-IsView : IsView noting service (λ s. s.1)
  noting-IsView = record { got = λ sym s. refl; stored = λ sym v s. refl; asked = λ syms s. refl }

  served-view :
      (requests : List (List Text)) (s : noting.State)
      → (served u noting z requests s).1 ≡ served u service z requests s.1
  unfolding served
  served-view [] s = refl
  served-view (pairs ∷ requests) s =
      served-view requests (get_ltp u noting z pairs s).0
      ∙ ap (λ x. served u service z requests x.0)
          (get_ltp-view u noting service (λ s. s.1) noting-IsView z pairs s)

  -- Between two calls.
  abbrev Kept : CacheConfig → noting.State → Type 0
  Kept config (h, (c, w)) =
      (c.cache.config ≡ config) × IsNoted t Other kraken_url clock config [] 0 c h

  module _ (config : CacheConfig) where
    abbrev NowHolds : noting.State → noting.State → Type 0
    NowHolds s = Holds t Other kraken_url clock config s.0 s.1.0.readings

    begin-Holds : (s : noting.State) → Kept config s → NowHolds s s
    begin-Holds (h, (c, w)) (config_eq, noted) = (config_eq, omega arith, ([], refl), noted)

    call-Quoted :
        (pairs : List Text) (s : noting.State)
        → Kept config s
        → Quoted u noting
            (NowHolds s)
            (IsCurrent t Other kraken_url clock config s.0 s.1.0.readings)
            (recorded-IsTracked t Other kraken_url clock config s.0 s.1.0.readings)
            (get_ltp u noting z pairs s)
    call-Quoted pairs s kept =
        get_ltp-Quoted u noting _ _
          (recorded-IsTracked t Other kraken_url clock config s.0 s.1.0.readings) z pairs s
          (begin-Holds s kept)

    end-Kept :
        (s : noting.State)
        (r : noting.State × Result (LtpError (TickerError E)) (List (Quote fl.Num)))
        → Quoted u noting
            (NowHolds s)
            (IsCurrent t Other kraken_url clock config s.0 s.1.0.readings)
            (recorded-IsTracked t Other kraken_url clock config s.0 s.1.0.readings)
            r
        → Kept config r.0
    end-Kept s (s', err e) (config_eq, later, news, noted) = (config_eq, noted)
    end-Kept s (s', ok quotes) ((config_eq, later, news, noted), all) = (config_eq, noted)

    served-Kept :
        (requests : List (List Text)) (s : noting.State)
        → Kept config s
        → Kept config (served u noting z requests s)
    unfolding served
    served-Kept [] s kept = kept
    served-Kept (pairs ∷ requests) s kept =
        served-Kept requests _ (end-Kept s (get_ltp u noting z pairs s) (call-Quoted pairs s kept))

    abbrev pub empty : t.State → Prices fl.Num Other × t.State
    empty w = (record { cache = new_in_memory_cache config; readings = 0 }, w)

    empty-Kept : (w : t.State) → Kept config ([], empty w)
    unfolding new_in_memory_cache find
    empty-Kept w = (refl, λ j e there. absurd (cc))

    -- A price of the symbol of the pair that Kraken has answered with in this call, or that the
    -- service had put into the cache, after Kraken had answered with it, and that was still alive when
    -- the cache was read in this call.
    abbrev pub IsQuoted : noting.State → noting.State → Quote fl.Num → Type 0
    IsQuoted before after q =
        (sym : Text) × (to_kraken_symbol u q.pair ≡ ok sym)
        × IsCurrent t Other kraken_url clock config before.0 before.1.0.readings sym q.amount after

    Quoted-IsQuoted :
        (s : noting.State)
        (r : noting.State × Result (LtpError (TickerError E)) (List (Quote fl.Num)))
        (quotes : List (Quote fl.Num))
        → Quoted u noting
            (NowHolds s)
            (IsCurrent t Other kraken_url clock config s.0 s.1.0.readings)
            (recorded-IsTracked t Other kraken_url clock config s.0 s.1.0.readings)
            r
        → r.1 ≡ ok quotes
        → All (IsQuoted s r.0) quotes
    Quoted-IsQuoted s (s', err e) quotes h eq = absurd (cc)
    Quoted-IsQuoted s (s', ok quotes') quotes (h, all) eq =
        let same : quotes' ≡ quotes = ground arith in subst (All (IsQuoted s s')) same all

    -- The service starts with an empty cache in memory, and answers any requests, one after another.
    -- When a request then succeeds, each of its amounts is a price of the symbol of its pair that
    -- Kraken answered with in this call, or that the service had put into the cache, after Kraken had
    -- answered with it, and that was still alive when the cache was read in this call. (The record of
    -- what happened is kept beside the service and changes nothing: with it, the call leaves the
    -- cache and the network as it does without.)
    pub get_ltp-IsQuoted :
        (requests : List (List Text)) (pairs : List Text) (quotes : List (Quote fl.Num))
        (w : t.State)
        → (get_ltp u service z pairs (served u service z requests (empty w))).1 ≡ ok quotes
        → let s = served u noting z requests ([], empty w) in
          let after = get_ltp u noting z pairs s in
          (after.0.1 ≡ (get_ltp u service z pairs (served u service z requests (empty w))).0)
          × All (IsQuoted s after.0) quotes
    get_ltp-IsQuoted requests pairs quotes w succeeded =
        let s = served u noting z requests ([], empty w) in
        let same =
          get_ltp-view u noting service (λ s. s.1) noting-IsView z pairs s
          ∙ ap (get_ltp u service z pairs) (served-view requests ([], empty w)) in
        let kept = served-Kept requests ([], empty w) (empty-Kept w) in
        (
          ap (λ x. x.0) same,
          Quoted-IsQuoted s (get_ltp u noting z pairs s) quotes (call-Quoted pairs s kept)
              (ap (λ x. x.1) same ∙ succeeded),
        )
