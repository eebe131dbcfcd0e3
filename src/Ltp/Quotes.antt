-- ===== src/Ltp/Quotes.antt =====
-- What a successful `GetLTP` returns.
use go_exercise.Base.{
  ◌≡◌, ◌∙◌, sym, ◌↔◌, refl, ap, true, Option, none, some, List, [], ◌∷◌, map, arith, inl, inr,
  Option-cases, is_some,
}
use go_exercise.Base.Dict.{Dict, find, put, Distinct, Distinct-put}
use go_exercise.Base.Result.{ok, Result-cases}
use go_exercise.Base.Text.{Text}
use go_exercise.Pairs.{Unicode, to_kraken_symbol}
use go_exercise.Ltp.{
  Backend, Quote, Needed, Partial, contains, normalize_all, sort_keys, note, try_cache,
  store_prices, fetch, lookup_prices, quotes_for, sorted_quotes, get_ltp,
}
use go_exercise.Ltp.Sorting.{IsAscending, NoRepeats, contains-sort, sort-IsAscending}
use go_exercise.Ltp.Requested.{
  Requested, contains-normalize_all, known, known-try_cache, find-store_prices,
}

module _ {Num : Type 0} where
  abbrev keys : Dict Num → List Text
  keys = map (λ e. e.0)

  contains-keys : (k : Text) (m : Dict Num) → contains k (keys m) ≡ is_some (find k m)
  unfolding contains find
  contains-keys k [] = refl
  contains-keys k ((j, v) ∷ m) = ground (arith, contains-keys k m)

  keys-NoRepeats : (m : Dict Num) → Distinct m → NoRepeats (keys m)
  keys-NoRepeats [] d = tt
  keys-NoRepeats ((k, v) ∷ m) (new, d) = (contains-keys k m ∙ ap is_some new, keys-NoRepeats m d)

  abbrev pub pairs_of : List (Quote Num) → List Text
  pairs_of = map (λ q. q.pair)

  pairs-quotes_for : (z : Num) (m : Dict Num) (ks : List Text) → pairs_of (quotes_for z m ks) ≡ ks
  unfolding quotes_for
  pairs-quotes_for z m [] = refl
  pairs-quotes_for z m (k ∷ ks) = ap (◌∷◌ k) (pairs-quotes_for z m ks)

module _ (u : Unicode) {Num E : Type 0} (b : Backend Num E) where
  open b use {State}

  Distinct-note :
      (up sym : Text) (v : Option Num) (p : Partial u b)
      → Distinct p.0
      → Distinct (note u b up sym v p).0
  unfolding note
  Distinct-note up sym none (results, needed) d = d
  Distinct-note up sym (some v) (results, needed) d = Distinct-put up v results d

  Distinct-try_cache :
      (pairs : List Text) (p out : Partial u b) (s : State)
      → Distinct p.0
      → (try_cache u b pairs p s).1 ≡ ok out
      → Distinct out.0
  unfolding try_cache
  Distinct-try_cache [] p out s d h = let same : p.0 ≡ out.0 = ground arith in rw (← same) d
  Distinct-try_cache (up ∷ pairs) p out s d h = elim (Result-cases (to_kraken_symbol u up)) [
    | inr (e, bad) ↦ absurd (ground arith)
    | inl (sym, good) ↦
        let (s', v) = b.cache_get sym s in
        Distinct-try_cache pairs (note u b up sym v p) out s' (Distinct-note up sym v p d)
          (ground arith)
  ]

  Distinct-store_prices :
      (prices : Dict Num) (needed : List Needed) (results out : Dict Num) (s : State)
      → Distinct results
      → (store_prices u b prices needed results s).1 ≡ ok out
      → Distinct out
  unfolding store_prices
  Distinct-store_prices prices [] results out s d h =
      let same : results ≡ out = ground arith in rw (← same) d
  Distinct-store_prices prices (it ∷ needed) results out s d h =
      elim (Option-cases (find it.kraken_sym prices)) [
        | inl absent ↦ absurd (ground arith)
        | inr (p, there) ↦
            Distinct-store_prices prices needed (put it.user_pair p results) out
              (b.cache_set it.kraken_sym p s) (Distinct-put it.user_pair p results d) (ground arith)
      ]

  -- What `fetch` adds: a price for each pair that is needed.
  fetch_lem :
      (k : Text) (p : Partial u b) (out : Dict Num) (s : State)
      → Distinct p.0
      → (fetch u b p s).1 ≡ ok out
      → (is_some (find k out) ≡ known u b k p) × Distinct out
  unfolding fetch contains
  fetch_lem k (results, []) out s d h =
      let same : results ≡ out = ground arith in rw (← same) (ground arith, d)
  fetch_lem k (results, it ∷ needed) out s d h =
      let (s', answer) = b.get_ticker_prices (map (λ x. x.kraken_sym) (it ∷ needed)) s in
      elim (Result-cases answer) [
        | inr (e, bad) ↦ absurd (ground arith)
        | inl (prices, good) ↦
            let stored : (store_prices u b prices (it ∷ needed) results s').1 ≡ ok out =
              ground arith in
            (
              find-store_prices u b k prices (it ∷ needed) results out s' stored,
              Distinct-store_prices prices (it ∷ needed) results out s' d stored,
            )
      ]

  -- The prices looked up are those of the pairs given.
  lookup_prices_lem :
      (k : Text) (pairs : List Text) (out : Dict Num) (s : State)
      → (lookup_prices u b pairs s).1 ≡ ok out
      → (is_some (find k out) ≡ contains k pairs) × Distinct out
  unfolding lookup_prices contains find
  lookup_prices_lem k pairs out s h =
      let (s', found) = try_cache u b pairs ([], []) s in
      elim (Result-cases found) [
        | inr (e, bad) ↦ absurd (ground arith)
        | inl (p, good) ↦
            let (there, d) =
              fetch_lem k p out s' (Distinct-try_cache pairs ([], []) p s tt good) (ground arith) in
            (there ∙ known-try_cache u b k pairs ([], []) p s good, d)
      ]

  keys-quotes :
      (z : Num) (results : Dict Num) (quotes : List (Quote Num)) (n : Text)
      → Distinct results
      → sorted_quotes z results ≡ quotes
      → IsAscending (pairs_of quotes) × (contains n (pairs_of quotes) ≡ is_some (find n results))
  unfolding sorted_quotes
  keys-quotes z results quotes n d h =
      let same : pairs_of quotes ≡ sort_keys (keys results) =
        ap pairs_of (sym h) ∙ pairs-quotes_for z results (sort_keys (keys results)) in
      rw same (
        sort-IsAscending (keys results) (keys-NoRepeats results d),
        contains-sort n (keys results) ∙ contains-keys n results,
      )

  get_ltp_quotes :
      (z : Num) (p : Text) (pairs : List Text) (quotes : List (Quote Num)) (s : State) (n : Text)
      (normalized : List Text) (results : Dict Num)
      → normalize_all u (p ∷ pairs) [] ≡ ok normalized
      → (lookup_prices u b normalized s).1 ≡ ok results
      → sorted_quotes z results ≡ quotes
      → IsAscending (pairs_of quotes)
        × ((contains n (pairs_of quotes) ≡ true) ↔ Requested u n (p ∷ pairs))
  unfolding contains
  get_ltp_quotes z p pairs quotes s n normalized results good found out =
      let (there, d) = lookup_prices_lem n normalized results s found in
      let (ascending, all) = keys-quotes z results quotes n d out in
      let (to, from) = contains-normalize_all u n (p ∷ pairs) [] normalized good in
      let asked : contains n (pairs_of quotes) ≡ contains n normalized = all ∙ there in
      (
        ascending,
        (
          λ c. elim (to (rw (← asked) c)) [ inl e ↦ absurd (ground arith) | inr r ↦ r ],
          λ r. rw asked (from (inr r)),
        ),
      )

  -- When `GetLTP` succeeds, its quotes stand in the order of their pairs, no pair twice, and they
  -- are for exactly the normal forms of the pairs of the request, whichever of them were in the
  -- cache and whichever came from the API.
  pub get_ltp_exact :
      (z : Num) (pairs : List Text) (quotes : List (Quote Num)) (s : State) (n : Text)
      → (get_ltp u b z pairs s).1 ≡ ok quotes
      → IsAscending (pairs_of quotes)
        × ((contains n (pairs_of quotes) ≡ true) ↔ Requested u n pairs)
  unfolding get_ltp
  get_ltp_exact z [] quotes s n h = absurd (ground arith)
  get_ltp_exact z (p ∷ pairs) quotes s n h = elim (Result-cases (normalize_all u (p ∷ pairs) [])) [
    | inr (e, bad) ↦ absurd (ground arith)
    | inl (normalized, good) ↦ elim (Result-cases ((lookup_prices u b normalized s).1)) [
      | inr (e, bad) ↦ absurd (ground arith)
      | inl (results, found) ↦
          get_ltp_quotes z p pairs quotes s n normalized results good found (ground arith)
    ]
  ]
