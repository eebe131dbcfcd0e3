-- ===== src/Ltp/Single.antt =====
-- `GetLTP` of one pair, on each of its ways.
use go_exercise.Base.{◌≡◌, refl, Option, none, some, [], ◌∷◌, ◌∙◌, ap}
use go_exercise.Base.Dict.{Dict, find, put}
use go_exercise.Base.Text.{Text, text_eq_refl}
use go_exercise.Base.Result.{ok}
use go_exercise.Pairs.{Unicode, normalize_user_pair, to_kraken_symbol}
use go_exercise.Ltp.{
  Backend, Needed, contains, normalize_all, insert_key, sort_keys, quotes_for, sorted_quotes, note,
  try_cache, store_prices, fetch, lookup_prices, get_ltp,
}

module _ (u : Unicode) {Num E : Type 0} (b : Backend Num E) (z : Num) (p n sym : Text)
    (normal : normalize_user_pair u p ≡ ok n) (symbol : to_kraken_symbol u n ≡ ok sym) where
  open b use {State}

  normalize_one : normalize_all u (p ∷ []) [] ≡ ok (n ∷ [])
  unfolding normalize_all contains
  normalize_one = rw normal refl

  quotes_one : (v : Num) → sorted_quotes z ((n, v) ∷ []) ≡ record { pair = n; amount = v } ∷ []
  unfolding sorted_quotes quotes_for sort_keys insert_key find
  quotes_one v = rw (text_eq_refl n) refl

  -- The state and the price that the cache has.
  abbrev pub looked : State → State × Option Num
  looked s = b.cache_get sym s

  abbrev pub answered : State → State
  answered s = (b.get_ticker_prices (sym ∷ []) (looked s).0).0

  abbrev needed : Needed
  needed = record { user_pair = n; kraken_sym = sym }

  try_cache_one :
      (s : State)
      → try_cache u b (n ∷ []) ([], []) s
        ≡ ((looked s).0, ok (note u b n sym (looked s).1 ([], [])))
  unfolding try_cache
  try_cache_one s = rw (try_cache, symbol) refl

  lookup_one :
      (s : State)
      → lookup_prices u b (n ∷ []) s ≡ fetch u b (note u b n sym (looked s).1 ([], [])) (looked s).0
  unfolding lookup_prices
  lookup_one s = rw (lookup_prices, try_cache_one s, try_cache_one s) refl

  lookup_cached :
      (s : State) (v : Num)
      → (looked s).1 ≡ some v
      → lookup_prices u b (n ∷ []) s ≡ ((looked s).0, ok ((n, v) ∷ []))
  unfolding note fetch put
  lookup_cached s v hit = lookup_one s ∙ rw hit refl

  store_one :
      (prices : Dict Num) (v : Num) (s : State)
      → find sym prices ≡ some v
      → store_prices u b prices (needed ∷ []) [] s ≡ (b.cache_set sym v s, ok ((n, v) ∷ []))
  unfolding store_prices put
  store_one prices v s there = rw (store_prices, there) refl

  fetch_one :
      (prices : Dict Num) (v : Num) (s : State)
      → (b.get_ticker_prices (sym ∷ []) s).1 ≡ ok prices
      → find sym prices ≡ some v
      → fetch u b ([], needed ∷ []) s
        ≡ (b.cache_set sym v (b.get_ticker_prices (sym ∷ []) s).0, ok ((n, v) ∷ []))
  unfolding fetch
  fetch_one prices v s good there =
      rw (fetch, good) (store_one prices v (b.get_ticker_prices (sym ∷ []) s).0 there)

  lookup_fetched :
      (s : State) (prices : Dict Num) (v : Num)
      → (looked s).1 ≡ none
      → (b.get_ticker_prices (sym ∷ []) (looked s).0).1 ≡ ok prices
      → find sym prices ≡ some v
      → lookup_prices u b (n ∷ []) s ≡ (b.cache_set sym v (answered s), ok ((n, v) ∷ []))
  unfolding note
  lookup_fetched s prices v miss good there =
      lookup_one s
      ∙ ap (λ w. fetch u b (note u b n sym w ([], [])) (looked s).0) miss
      ∙ fetch_one prices v (looked s).0 good there

  get_ltp_one :
      (s s' : State) (v : Num)
      → lookup_prices u b (n ∷ []) s ≡ (s', ok ((n, v) ∷ []))
      → get_ltp u b z (p ∷ []) s ≡ (s', ok (record { pair = n; amount = v } ∷ []))
  unfolding get_ltp
  get_ltp_one s s' v e = rw (get_ltp, normalize_one, e, quotes_one v) refl

  -- A price in the cache is the answer, and the API is not called.
  pub single_cached :
      (s : State) (v : Num)
      → (looked s).1 ≡ some v
      → get_ltp u b z (p ∷ []) s ≡ ((looked s).0, ok (record { pair = n; amount = v } ∷ []))
  single_cached s v hit = get_ltp_one s (looked s).0 v (lookup_cached s v hit)

  -- A price that the API has is the answer, and is put into the cache.
  pub single_fetched :
      (s : State) (prices : Dict Num) (v : Num)
      → (looked s).1 ≡ none
      → (b.get_ticker_prices (sym ∷ []) (looked s).0).1 ≡ ok prices
      → find sym prices ≡ some v
      → get_ltp u b z (p ∷ []) s
        ≡ (b.cache_set sym v (answered s), ok (record { pair = n; amount = v } ∷ []))
  single_fetched s prices v miss good there =
      get_ltp_one s (b.cache_set sym v (answered s)) v (lookup_fetched s prices v miss good there)
