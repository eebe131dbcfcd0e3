-- ===== src/Ltp/Tracked.antt =====
-- From where the prices of `GetLTP` come, for any account of where prices come from that the cache
-- and the API keep.
use go_exercise.Base.{
  ◌≡◌, refl, true, some, List, [], ◌∷◌, ◌++◌, map, arith, inl, inr, Bool-cases, Option-cases, All,
  All-append, All-map, is_some,
}
use go_exercise.Base.Dict.{Dict, find, put, find-put}
use go_exercise.Base.Result.{Result, ok, err, ◌>>=◌, Result-cases}
use go_exercise.Base.Text.{Text, text_eq, text_eq→eq, text_eq_refl}
use go_exercise.Pairs.{Unicode, to_kraken_symbol}
use go_exercise.Ltp.Sorting.{sort_keys-All}
use go_exercise.Ltp.{
  Backend, Quote, LtpError, Needed, Partial, normalize_all, sort_keys, amount_or, note, try_cache,
  store_prices, fetch, lookup_prices, quotes_for, sorted_quotes, get_ltp,
}

module _ {Num : Type 0} where
  keys_later :
      (j : Text) (v : Num) (m : Dict Num) (ks : List Text)
      → All (λ k. is_some (find k m) ≡ true) ks
      → All (λ k. is_some (find k ((j, v) ∷ m)) ≡ true) ks
  unfolding find
  keys_later j v m ks = All-map _ _ (λ k p. ground arith) ks

  keys_present : (m : Dict Num) → All (λ k. is_some (find k m) ≡ true) (map (λ e. e.0) m)
  unfolding find
  keys_present [] = tt
  keys_present ((k, v) ∷ m) =
      (ground (arith, text_eq_refl k), keys_later k v m (map (λ e. e.0) m) (keys_present m))

-- `Holds` is an invariant of the state, and `From sym v s` says that `v` is a price of the symbol.
pub record IsTracked {Num E : Type 0} (b : Backend Num E) (Holds : b.State → Type 0)
    (From : Text → Num → b.State → Type 0) : Type 0 where
  pub got : (sym : Text) (s : b.State) → Holds s → Holds (b.cache_get sym s).0
  pub got_from :
      (sym : Text) (v : Num) (s : b.State)
      → Holds s
      → (b.cache_get sym s).1 ≡ some v
      → From sym v (b.cache_get sym s).0
  pub got_keeps :
      (sym : Text) (s : b.State) (j : Text) (v : Num) → From j v s → From j v (b.cache_get sym s).0
  pub asked : (syms : List Text) (s : b.State) → Holds s → Holds (b.get_ticker_prices syms s).0
  pub asked_from :
      (syms : List Text) (s : b.State) (prices : Dict Num) (j : Text) (v : Num)
      → Holds s
      → (b.get_ticker_prices syms s).1 ≡ ok prices
      → find j prices ≡ some v
      → From j v (b.get_ticker_prices syms s).0
  pub asked_keeps :
      (syms : List Text) (s : b.State) (j : Text) (v : Num)
      → From j v s
      → From j v (b.get_ticker_prices syms s).0
  pub stored :
      (sym : Text) (v : Num) (s : b.State) → Holds s → From sym v s → Holds (b.cache_set sym v s)
  pub stored_keeps :
      (sym : Text) (p : Num) (s : b.State) (j : Text) (v : Num)
      → From j v s
      → From j v (b.cache_set sym p s)

module _ (u : Unicode) {Num E : Type 0} (b : Backend Num E) (Holds : b.State → Type 0)
    (From : Text → Num → b.State → Type 0) (T : IsTracked b Holds From) where
  open b use {State}

  -- The price of a pair is one of its symbol.
  abbrev pub IsSourced : Text → Num → State → Type 0
  IsSourced up v s = (sym : Text) × (to_kraken_symbol u up ≡ ok sym) × From sym v s

  abbrev pub AllSourced : Dict Num → State → Type 0
  AllSourced results s = (k : Text) (v : Num) → find k results ≡ some v → IsSourced k v s

  -- Each pair that is needed stands with its symbol.
  abbrev HasSymbols : List Needed → Type 0
  HasSymbols = All (λ it. to_kraken_symbol u it.user_pair ≡ ok it.kraken_sym)

  AllSourced-put :
      (up : Text) (p : Num) (results : Dict Num) (s : State)
      → IsSourced up p s
      → AllSourced results s
      → AllSourced (put up p results) s
  AllSourced-put up p results s new old k v h = elim (Bool-cases (text_eq up k)) [
    | inl same ↦
        let key : up ≡ k = text_eq→eq up k same in
        let value : p ≡ v = ground (arith, find-put up k p results) in rw (← key, ← value) new
    | inr other ↦ old k v (ground (arith, find-put up k p results))
  ]

  AllSourced-keeps :
      (results : Dict Num) (s s' : State)
      → ((j : Text) (v : Num) → From j v s → From j v s')
      → AllSourced results s
      → AllSourced results s'
  AllSourced-keeps results s s' keeps a k v h =
      let (sym, symbol, from) = a k v h in (sym, symbol, keeps sym v from)

  -- What is known after the lookups in the cache, and after all lookups.
  abbrev Tried : State × Result (LtpError E) (Partial u b) → Type 0
  Tried (s, ok (results, needed)) = Holds s × AllSourced results s × HasSymbols needed
  Tried (s, err e) = Holds s

  abbrev Priced : State × Result (LtpError E) (Dict Num) → Type 0
  Priced (s, ok results) = Holds s × AllSourced results s
  Priced (s, err e) = Holds s

  try_cache-Tried :
      (pairs : List Text) (results : Dict Num) (needed : List Needed) (s : State)
      → Holds s
      → AllSourced results s
      → HasSymbols needed
      → Tried (try_cache u b pairs (results, needed) s)
  unfolding try_cache note
  try_cache-Tried [] results needed s h a n = (h, a, n)
  try_cache-Tried (up ∷ pairs) results needed s h a n =
      elim (Result-cases (to_kraken_symbol u up)) [
        | inr (e, bad) ↦ rw (try_cache, bad) h
        | inl (sym, good) ↦
            let s' = (b.cache_get sym s).0 in
            let a' = AllSourced-keeps results s s' (T.got_keeps sym s) a in
            elim (Option-cases ((b.cache_get sym s).1)) [
              | inl miss ↦
                  rw (try_cache, good, miss)
                    (try_cache-Tried pairs results
                      (needed ++ record { user_pair = up; kraken_sym = sym } ∷ []) s'
                      (T.got sym s h) a' (All-append _ needed _ n (good, tt)))
              | inr (v, hit) ↦
                  rw (try_cache, good, hit)
                    (try_cache-Tried pairs (put up v results) needed s' (T.got sym s h)
                      (AllSourced-put up v results s' (sym, good, T.got_from sym v s h hit) a') n)
            ]
      ]

  store_prices-Priced :
      (prices : Dict Num) (needed : List Needed) (results : Dict Num) (s : State)
      → Holds s
      → AllSourced results s
      → HasSymbols needed
      → ((j : Text) (v : Num) → find j prices ≡ some v → From j v s)
      → Priced (store_prices u b prices needed results s)
  unfolding store_prices
  store_prices-Priced prices [] results s h a n from = (h, a)
  store_prices-Priced prices (it ∷ needed) results s h a (symbol, n) from =
      elim (Option-cases (find it.kraken_sym prices)) [
        | inl absent ↦ rw (store_prices, absent) h
        | inr (p, there) ↦
            let s' = b.cache_set it.kraken_sym p s in
            let new = from it.kraken_sym p there in
            let keeps = T.stored_keeps it.kraken_sym p s in
            rw (store_prices, there)
              (store_prices-Priced prices needed (put it.user_pair p results) s'
                (T.stored it.kraken_sym p s h new)
                (AllSourced-put it.user_pair p results s'
                  (it.kraken_sym, symbol, keeps it.kraken_sym p new)
                  (AllSourced-keeps results s s' keeps a))
                n (λ j v e. keeps j v (from j v e)))
      ]

  fetch-Priced :
      (results : Dict Num) (needed : List Needed) (s : State)
      → Holds s
      → AllSourced results s
      → HasSymbols needed
      → Priced (fetch u b (results, needed) s)
  unfolding fetch
  fetch-Priced results [] s h a n = (h, a)
  fetch-Priced results (it ∷ needed) s h a n =
      let syms = map (λ x. x.kraken_sym) (it ∷ needed) in
      let s' = (b.get_ticker_prices syms s).0 in
      elim (Result-cases ((b.get_ticker_prices syms s).1)) [
        | inr (e, bad) ↦ rw (fetch, bad) (T.asked syms s h)
        | inl (prices, good) ↦
            rw (fetch, good)
              (store_prices-Priced prices (it ∷ needed) results s' (T.asked syms s h)
                (AllSourced-keeps results s s' (T.asked_keeps syms s) a) n
                (λ j v e. T.asked_from syms s prices j v h good e))
      ]

  fetched-Priced :
      (s : State) (found : Result (LtpError E) (Partial u b))
      → Tried (s, found)
      → Priced (elim found [ err e ↦ (s, err e) | ok p ↦ fetch u b p s ])
  fetched-Priced s (err e) h = h
  fetched-Priced s (ok (results, needed)) (h, a, n) = fetch-Priced results needed s h a n

  lookup_prices-Priced :
      (pairs : List Text) (s : State) → Holds s → Priced (lookup_prices u b pairs s)
  unfolding lookup_prices
  lookup_prices-Priced pairs s h =
      fetched-Priced _ _ (try_cache-Tried pairs [] [] s h (λ k v e. absurd (unfold find in cc)) tt)

  -- What is known after `GetLTP`.
  abbrev pub Quoted : State × Result (LtpError E) (List (Quote Num)) → Type 0
  Quoted (s, ok quotes) = Holds s × All (λ q. IsSourced q.pair q.amount s) quotes
  Quoted (s, err e) = Holds s

  quotes_for-Sourced :
      (z : Num) (results : Dict Num) (ks : List Text) (s : State)
      → AllSourced results s
      → All (λ k. is_some (find k results) ≡ true) ks
      → All (λ q. IsSourced q.pair q.amount s) (quotes_for z results ks)
  unfolding quotes_for amount_or
  quotes_for-Sourced z results [] s a h = tt
  quotes_for-Sourced z results (k ∷ ks) s a (p, h) = elim (Option-cases (find k results)) [
    | inl absent ↦ absurd (ground arith)
    | inr (v, there) ↦
        let amount : amount_or z (find k results) ≡ v = rw there refl in
        (rw amount (a k v there), quotes_for-Sourced z results ks s a h)
  ]

  found-Quoted :
      (z : Num) (s : State) (found : Result (LtpError E) (Dict Num))
      → Priced (s, found)
      → Quoted (s, found >>= λ results. ok (sorted_quotes z results))
  unfolding sorted_quotes
  found-Quoted z s (err e) h = h
  found-Quoted z s (ok results) (h, a) = (
    h,
    quotes_for-Sourced z results (sort_keys (map (λ e. e.0) results)) s a
        (sort_keys-All _ _ (keys_present results)),
  )

  -- `GetLTP` keeps the invariant, however it ends, and each of its quotes is a price of the symbol of
  -- its pair.
  pub get_ltp-Quoted :
      (z : Num) (pairs : List Text) (s : State) → Holds s → Quoted (get_ltp u b z pairs s)
  unfolding get_ltp
  get_ltp-Quoted z [] s h = h
  get_ltp-Quoted z (p ∷ pairs) s h = elim (Result-cases (normalize_all u (p ∷ pairs) [])) [
    | inr (e, bad) ↦ rw (get_ltp, bad) h
    | inl (normalized, good) ↦
        rw (get_ltp, good) (found-Quoted z _ _ (lookup_prices-Priced normalized s h))
  ]
