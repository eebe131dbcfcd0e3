-- ===== src/Ltp/Errors.antt =====
-- How `GetLTP` fails.
use go_exercise.Base.{◌≡◌, ◌⊎◌, ◌∙◌, refl, ap, List, [], ◌∷◌, map, arith, inl, inr, Option-cases}
use go_exercise.Base.Result.{err, Result-cases}
use go_exercise.Base.Text.{Text}
use go_exercise.Pairs.{to_kraken_symbol, Unicode, PairError, normalize_user_pair}
use go_exercise.Base.Dict.{Dict, find, put}
use go_exercise.Ltp.{
  LtpError, Needed, Partial, kraken_failed, pair_not_found, no_pairs, note, try_cache, store_prices,
  fetch, lookup_prices, Backend, handler_error, bad_pair, add_new, normalize_all, get_ltp,
}

-- One of the pairs is refused with the error.
abbrev pub Refused : Unicode → PairError → List Text → Type 0
Refused u e [] = ⊥
Refused u e (p ∷ pairs) = (normalize_user_pair u p ≡ err e) ⊎ Refused u e pairs

-- One pair that is refused spoils the request.
normalize_all-Refused :
    (u : Unicode) (e : PairError) (pairs ns : List Text)
    → Refused u e pairs
    → (e' : PairError) × (normalize_all u pairs ns ≡ err e') × Refused u e' pairs
unfolding normalize_all
normalize_all-Refused u e [] ns r = absurd r
normalize_all-Refused u e (p ∷ pairs) ns r = elim (Result-cases (normalize_user_pair u p)) [
  | inr (e', bad) ↦ (e', ground arith, inl bad)
  | inl (m, good) ↦
      let later : Refused u e pairs = elim r [ inl bad ↦ absurd (ground arith) | inr r' ↦ r' ] in
      let (e', fails, r'') = normalize_all-Refused u e pairs (add_new m ns) later in
      (e', rw good fails, inr r'')
]

module _ (u : Unicode) {Num E : Type 0} (b : Backend Num E) where
  open b use {State}

  -- A request with a pair that `NormalizeUserPair` refuses gets a `HandlerError` of code 400 with
  -- the refusal of one of its pairs, and leaves the state behind the cache and the API as it is.
  pub get_ltp-Refused :
      (z : Num) (e : PairError) (pairs : List Text) (s : State)
      → Refused u e pairs
      → (e' : PairError) × (get_ltp u b z pairs s ≡ (s, err (handler_error 400 (bad_pair e'))))
        × Refused u e' pairs
  unfolding get_ltp
  get_ltp-Refused z e [] s r = absurd r
  get_ltp-Refused z e (p ∷ pairs) s r =
      let (e', fails, r') = normalize_all-Refused u e (p ∷ pairs) [] r in
      (e', ground (arith, fails), r')

  -- The code of a `HandlerError`, of an error that is one.
  abbrev pub IsBadRequest : LtpError E → Type 0
  IsBadRequest (handler_error code msg) = code ≡ 400
  IsBadRequest (kraken_failed e) = Unit

  try_cache-IsBadRequest :
      (pairs : List Text) (p : Partial u b) (s : State) (e : LtpError E)
      → (try_cache u b pairs p s).1 ≡ err e
      → IsBadRequest e
  unfolding try_cache
  try_cache-IsBadRequest [] p s e h = absurd (ground arith)
  try_cache-IsBadRequest (up ∷ pairs) p s e h = elim (Result-cases (to_kraken_symbol u up)) [
    | inr (x, bad) ↦
        let same : handler_error 400 (bad_pair x) ≡ e = ground arith in rw (← same) refl
    | inl (sym, good) ↦
        let (s', v) = b.cache_get sym s in
        try_cache-IsBadRequest pairs (note u b up sym v p) s' e (ground arith)
  ]

  store_prices-IsBadRequest :
      (prices : Dict Num) (needed : List Needed) (results : Dict Num) (s : State) (e : LtpError E)
      → (store_prices u b prices needed results s).1 ≡ err e
      → IsBadRequest e
  unfolding store_prices
  store_prices-IsBadRequest prices [] results s e h = absurd (ground arith)
  store_prices-IsBadRequest prices (it ∷ needed) results s e h =
      elim (Option-cases (find it.kraken_sym prices)) [
        | inl absent ↦
            let same : handler_error 400 (pair_not_found it.user_pair) ≡ e = ground arith in
            rw (← same) refl
        | inr (p, there) ↦
            store_prices-IsBadRequest prices needed (put it.user_pair p results)
              (b.cache_set it.kraken_sym p s) e (ground arith)
      ]

  fetch-IsBadRequest :
      (p : Partial u b) (s : State) (e : LtpError E) → (fetch u b p s).1 ≡ err e → IsBadRequest e
  unfolding fetch
  fetch-IsBadRequest (results, []) s e h = absurd (ground arith)
  fetch-IsBadRequest (results, it ∷ needed) s e h =
      let (s', answer) = b.get_ticker_prices (map (λ x. x.kraken_sym) (it ∷ needed)) s in
      elim (Result-cases answer) [
        | inr (x, bad) ↦ let same : kraken_failed x ≡ e = ground arith in rw (← same) tt
        | inl (prices, good) ↦
            store_prices-IsBadRequest prices (it ∷ needed) results s' e (ground arith)
      ]

  lookup_prices-IsBadRequest :
      (pairs : List Text) (s : State) (e : LtpError E)
      → (lookup_prices u b pairs s).1 ≡ err e
      → IsBadRequest e
  unfolding lookup_prices
  lookup_prices-IsBadRequest pairs s e h =
      let (s', found) = try_cache u b pairs ([], []) s in
      elim (Result-cases found) [
        | inr (x, bad) ↦
            let same : x ≡ e = ground arith in
            try_cache-IsBadRequest pairs ([], []) s e (bad ∙ ap err same)
        | inl (p, good) ↦ fetch-IsBadRequest p s' e (ground arith)
      ]

  -- Each `HandlerError` of `GetLTP` has the code 400.
  pub get_ltp-IsBadRequest :
      (z : Num) (pairs : List Text) (s : State) (e : LtpError E)
      → (get_ltp u b z pairs s).1 ≡ err e
      → IsBadRequest e
  unfolding get_ltp
  get_ltp-IsBadRequest z [] s e h =
      let same : handler_error 400 no_pairs ≡ e = ground arith in rw (← same) refl
  get_ltp-IsBadRequest z (p ∷ pairs) s e h = elim (Result-cases (normalize_all u (p ∷ pairs) [])) [
    | inr (x, bad) ↦
        let same : handler_error 400 (bad_pair x) ≡ e = ground arith in rw (← same) refl
    | inl (normalized, good) ↦ elim (Result-cases ((lookup_prices u b normalized s).1)) [
      | inl (results, found) ↦ absurd (ground arith)
      | inr (x, failed) ↦
          let same : x ≡ e = ground arith in
          lookup_prices-IsBadRequest normalized s e (failed ∙ ap err same)
    ]
  ]
