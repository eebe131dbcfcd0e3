-- ===== src/Ltp/Viewed.antt =====
-- `GetLTP` over two backends, of which one shows less.
use go_exercise.Base.{◌≡◌, refl, ap, ◌∙◌, List, [], ◌∷◌, map, inl, inr, Option-cases}
use go_exercise.Base.Dict.{Dict, find, put}
use go_exercise.Base.Result.{Result, ok, err, ◌>>=◌, Result-cases}
use go_exercise.Base.Text.{Text}
use go_exercise.Pairs.{Unicode, to_kraken_symbol}
use go_exercise.Ltp.{
  Backend, LtpError, kraken_failed, Needed, normalize_all, note, try_cache, store_prices, fetch,
  lookup_prices, sorted_quotes, get_ltp,
}

abbrev pub seen {ℓ} : {S S' A : Type ℓ} → (S → S') → S × A → S' × A
seen view (s, a) = (view s, a)

-- The operations of `full` are those of `b` on what `view` shows.
pub record IsView {Num E : Type 0} (full b : Backend Num E) (view : full.State → b.State)
    : Type 0 where
  pub got :
      (sym : Text) (s : full.State) → seen view (full.cache_get sym s) ≡ b.cache_get sym (view s)
  pub stored :
      (sym : Text) (v : Num) (s : full.State)
      → view (full.cache_set sym v s) ≡ b.cache_set sym v (view s)
  pub asked :
      (syms : List Text) (s : full.State)
      → seen view (full.get_ticker_prices syms s) ≡ b.get_ticker_prices syms (view s)

module _ (u : Unicode) {Num E : Type 0} (full b : Backend Num E) (view : full.State → b.State)
    (W : IsView full b view) where
  try_cache-view :
      (pairs : List Text) (p : Dict Num × List Needed) (s : full.State)
      → seen view (try_cache u full pairs p s) ≡ try_cache u b pairs p (view s)
  unfolding try_cache note
  try_cache-view [] p s = refl
  try_cache-view (up ∷ pairs) p s = elim (Result-cases (to_kraken_symbol u up)) [
    | inr (e, bad) ↦ rw (try_cache, bad) refl
    | inl (sym, good) ↦
        let (s', v) = full.cache_get sym s in
        rw (try_cache, good)
          (try_cache-view pairs (note u full up sym v p) s'
            ∙ ap (λ (s', v). try_cache u b pairs (note u b up sym v p) s') (W.got sym s))
  ]

  store_prices-view :
      (prices : Dict Num) (needed : List Needed) (results : Dict Num) (s : full.State)
      → seen view (store_prices u full prices needed results s)
        ≡ store_prices u b prices needed results (view s)
  unfolding store_prices
  store_prices-view prices [] results s = refl
  store_prices-view prices (it ∷ needed) results s =
      elim (Option-cases (find it.kraken_sym prices)) [
        | inl absent ↦ rw (store_prices, absent) refl
        | inr (p, there) ↦
            let results' = put it.user_pair p results in
            rw (store_prices, there)
              (store_prices-view prices needed results' (full.cache_set it.kraken_sym p s)
                ∙ ap (store_prices u b prices needed results') (W.stored it.kraken_sym p s))
      ]

  -- What `fetch` does with the answer of the API.
  abbrev ended :
      (b : Backend Num E)
      → List Needed
      → Dict Num
      → b.State × Result E (Dict Num)
      → b.State × Result (LtpError E) (Dict Num)
  ended b needed results (s, err e) = (s, err (kraken_failed e))
  ended b needed results (s, ok prices) = store_prices u b prices needed results s

  ended-view :
      (needed : List Needed) (results : Dict Num) (s : full.State) (answer : Result E (Dict Num))
      → seen view (ended full needed results (s, answer)) ≡ ended b needed results (view s, answer)
  ended-view needed results s (err e) = refl
  ended-view needed results s (ok prices) = store_prices-view prices needed results s

  fetch-view :
      (p : Dict Num × List Needed) (s : full.State)
      → seen view (fetch u full p s) ≡ fetch u b p (view s)
  unfolding fetch
  fetch-view (results, []) s = refl
  fetch-view (results, it ∷ needed) s =
      let syms = map (λ x. x.kraken_sym) (it ∷ needed) in
      let (s', answer) = full.get_ticker_prices syms s in
      ended-view (it ∷ needed) results s' answer
      ∙ ap (ended b (it ∷ needed) results) (W.asked syms s)

  abbrev looked :
      (b : Backend Num E)
      → b.State × Result (LtpError E) (Dict Num × List Needed)
      → b.State × Result (LtpError E) (Dict Num)
  looked b (s, err e) = (s, err e)
  looked b (s, ok p) = fetch u b p s

  looked-view :
      (s : full.State) (found : Result (LtpError E) (Dict Num × List Needed))
      → seen view (looked full (s, found)) ≡ looked b (view s, found)
  looked-view s (err e) = refl
  looked-view s (ok p) = fetch-view p s

  lookup_prices-view :
      (pairs : List Text) (s : full.State)
      → seen view (lookup_prices u full pairs s) ≡ lookup_prices u b pairs (view s)
  unfolding lookup_prices
  lookup_prices-view pairs s =
      let (s', found) = try_cache u full pairs ([], []) s in
      looked-view s' found ∙ ap (looked b) (try_cache-view pairs ([], []) s)

  -- `GetLTP` over `full` gives what it gives over `b`, and leaves what it leaves there.
  pub get_ltp-view :
      (z : Num) (pairs : List Text) (s : full.State)
      → seen view (get_ltp u full z pairs s) ≡ get_ltp u b z pairs (view s)
  unfolding get_ltp
  get_ltp-view z [] s = refl
  get_ltp-view z (p ∷ pairs) s = elim (Result-cases (normalize_all u (p ∷ pairs) [])) [
    | inr (e, bad) ↦ rw (get_ltp, bad) refl
    | inl (normalized, good) ↦
        rw (get_ltp, good)
          (ap (λ (s', found). (s', found >>= λ results. ok (sorted_quotes z results)))
            (lookup_prices-view normalized s))
  ]
