-- ===== src/Ltp/Requested.antt =====
-- Which pairs a request asks for, and which the lookups have a price for.
use go_exercise.Base.{
  ◌≡◌, ◌∙◌, ap, ◌⊎◌, ◌↔◌, refl, Bool, true, ◌||◌, Option, none, some, List, [], ◌∷◌, ◌++◌, map,
  arith, inl, inr, Bool-cases, Option-cases, is_some,
}
use go_exercise.Base.Dict.{Dict, find, put, find-put}
use go_exercise.Base.Result.{ok, Result-cases}
use go_exercise.Base.Text.{Text, text_eq, text_eq_iff, text_eq→eq}
use go_exercise.Pairs.{Unicode, normalize_user_pair, to_kraken_symbol}
use go_exercise.Ltp.{
  Backend, Needed, Partial, contains, add_new, normalize_all, note, try_cache, store_prices,
}

-- `n` is the normal form of one of the pairs of the request.
abbrev pub Requested : Unicode → Text → List Text → Type 0
Requested u n [] = ⊥
Requested u n (p ∷ pairs) = (normalize_user_pair u p ≡ ok n) ⊎ Requested u n pairs

contains-append :
    (k : Text) (xs ys : List Text) → contains k (xs ++ ys) ≡ (contains k xs || contains k ys)
unfolding contains
contains-append k [] ys = refl
contains-append k (x ∷ xs) ys = ground (arith, contains-append k xs ys)

contains-add_new :
    (k n : Text) (ns : List Text) → contains k (add_new n ns) ≡ (text_eq n k || contains k ns)
unfolding add_new contains
contains-add_new k n ns = ground (arith, contains-append k ns (n ∷ []), text_eq_iff n k)

module _ (u : Unicode) (n : Text) where
  ask_more :
      (p : Text) (pairs : List Text) (m : Text) (ns : List Text)
      → normalize_user_pair u p ≡ ok m
      → (contains n (add_new m ns) ≡ true) ⊎ Requested u n pairs
      → (contains n ns ≡ true) ⊎ Requested u n (p ∷ pairs)
  ask_more p pairs m ns good (inr r) = inr (inr r)
  ask_more p pairs m ns good (inl c) = elim (Bool-cases (text_eq m n)) [
    | inl same ↦ inr (inl (good ∙ ap ok (text_eq→eq m n same)))
    | inr other ↦ inl (ground (arith, contains-add_new n m ns))
  ]

  asked_less :
      (p : Text) (pairs : List Text) (m : Text) (ns : List Text)
      → normalize_user_pair u p ≡ ok m
      → (contains n ns ≡ true) ⊎ Requested u n (p ∷ pairs)
      → (contains n (add_new m ns) ≡ true) ⊎ Requested u n pairs
  asked_less p pairs m ns good (inl c) = inl (ground (arith, contains-add_new n m ns))
  asked_less p pairs m ns good (inr (inr r)) = inr r
  asked_less p pairs m ns good (inr (inl e)) =
      let same : m ≡ n = ground arith in
      inl (ground (arith, contains-add_new n m ns, text_eq_iff m n))

  -- The normalised pairs are exactly those asked for, beside those that were there.
  pub contains-normalize_all :
      (pairs ns out : List Text)
      → normalize_all u pairs ns ≡ ok out
      → (contains n out ≡ true) ↔ ((contains n ns ≡ true) ⊎ Requested u n pairs)
  unfolding normalize_all
  contains-normalize_all [] ns out h =
      let same : ns ≡ out = ground arith in
      (λ c. inl (rw same c), elim [ inl c ↦ rw (← same) c | inr r ↦ absurd r ])
  contains-normalize_all (p ∷ pairs) ns out h = elim (Result-cases (normalize_user_pair u p)) [
    | inr (e, bad) ↦ absurd (ground arith)
    | inl (m, good) ↦
        let ih = contains-normalize_all pairs (add_new m ns) out (ground arith) in
        (λ c. ask_more p pairs m ns good (ih.0 c), λ a. ih.1 (asked_less p pairs m ns good a))
  ]

module _ (u : Unicode) {Num E : Type 0} (b : Backend Num E) (k : Text) where
  open b use {State}

  -- A price has been found for the pair, or the pair is on the list of those needed.
  abbrev pub known : Partial u b → Bool
  known (results, needed) = is_some (find k results) || contains k (map (λ x. x.user_pair) needed)

  contains-needed :
      (x : Needed) (needed : List Needed)
      → contains k (map (λ y. y.user_pair) (needed ++ x ∷ []))
        ≡ (contains k (map (λ y. y.user_pair) needed) || text_eq x.user_pair k)
  unfolding contains
  contains-needed x [] = ground arith
  contains-needed x (y ∷ needed) = ground (arith, contains-needed x needed)

  known-note :
      (up sym : Text) (v : Option Num) (p : Partial u b)
      → known (note u b up sym v p) ≡ (text_eq up k || known p)
  unfolding note
  known-note up sym none (results, needed) =
      ground (arith, contains-needed (record { user_pair = up; kraken_sym = sym }) needed)
  known-note up sym (some v) (results, needed) = ground (arith, find-put up k v results)

  pub known-try_cache :
      (pairs : List Text) (p out : Partial u b) (s : State)
      → (try_cache u b pairs p s).1 ≡ ok out
      → known out ≡ (known p || contains k pairs)
  unfolding try_cache contains
  known-try_cache [] (results, needed) (results', needed') s h = ground arith
  known-try_cache (up ∷ pairs) p out s h = elim (Result-cases (to_kraken_symbol u up)) [
    | inr (e, bad) ↦ absurd (ground arith)
    | inl (sym, good) ↦
        let (s', v) = b.cache_get sym s in
        let ih = known-try_cache pairs (note u b up sym v p) out s' (ground arith) in
        ground (arith, ih, known-note up sym v p)
  ]

  pub find-store_prices :
      (prices : Dict Num) (needed : List Needed) (results out : Dict Num) (s : State)
      → (store_prices u b prices needed results s).1 ≡ ok out
      → is_some (find k out)
        ≡ (is_some (find k results) || contains k (map (λ x. x.user_pair) needed))
  unfolding store_prices contains
  find-store_prices prices [] results out s h = ground arith
  find-store_prices prices (it ∷ needed) results out s h =
      elim (Option-cases (find it.kraken_sym prices)) [
        | inl absent ↦ absurd (ground arith)
        | inr (p, there) ↦
            let ih =
              find-store_prices prices needed (put it.user_pair p results) out
                (b.cache_set it.kraken_sym p s) (ground arith) in
            ground (arith, ih, find-put it.user_pair k p results)
      ]
