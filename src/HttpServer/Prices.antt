-- ===== src/HttpServer/Prices.antt =====
-- The endpoint of the prices, over the price service.
use go_exercise.Base.{
  ℕ, ◌≡◌, ◌≢◌, ◌↔◌, ◌∙◌, ap, refl, true, some, List, [], ◌∷◌, map, All, arith, inl, inr, Bool-cases,
  if◌then◌else◌,
}
use go_exercise.Base.Text.{Text, codes, Lacks}
use go_exercise.Base.Split.{split, join, split-join}
use go_exercise.Base.Result.{ok, err, Result-cases}
use go_exercise.Pairs.{Unicode, PairError, trim_space}
use go_exercise.Ltp.{
  Backend, Quote, LtpError, handler_error, kraken_failed, bad_pair, contains, get_ltp,
}
use go_exercise.Ltp.Sorting.{IsAscending}
use go_exercise.Ltp.Requested.{Requested}
use go_exercise.Ltp.Quotes.{pairs_of, get_ltp_exact}
use go_exercise.Ltp.Errors.{Refused, get_ltp-Refused, get_ltp-IsBadRequest}
use go_exercise.HttpServer.{
  Request, Body, ltp_body, error_body, plain, of_service, ResponseWriter, World, Server, new_writer,
  finish, json, is_get,
}
use go_exercise.HttpServer.Handlers.{
  handle_ltp, quote_pairs, answer_quotes, not_allowed, requested_pairs, choose_pairs, keep_parts,
  query_get,
}
use go_exercise.HttpServer.Limits.{sent_code}

keep_parts-All :
    (u : Unicode) (ps : List Text)
    → All (λ p. trim_space u p ≢ []) ps
    → keep_parts u ps ≡ map (trim_space u) ps
unfolding keep_parts
keep_parts-All u [] h = refl
keep_parts-All u (p ∷ ps) (h, hs) = ground (arith, keep_parts-All u ps hs)

choose_joined :
    (u : Unicode) (text : Text) (ps : List Text)
    → text ≢ []
    → split b',' text ≡ ps
    → choose_pairs u [] text ≡ keep_parts u ps
unfolding choose_pairs
choose_joined u [] ps h e = absurd (h refl)
choose_joined u (c ∷ text) ps h e = ap (keep_parts u) e

-- A list of pairs that hold no comma, given joined by commas in the parameter `pairs`, is asked for
-- as it is, each pair without the spaces around it; if there is no parameter `pair`, and no pair is
-- of spaces alone.
pub requested_pairs-join :
    (u : Unicode) (r : Request) (p : Text) (ps : List Text)
    → query_get r (codes "pair") ≡ []
    → query_get r (codes "pairs") ≡ join b',' (p ∷ ps)
    → join b',' (p ∷ ps) ≢ []
    → All (Lacks b',') (p ∷ ps)
    → All (λ q. trim_space u q ≢ []) (p ∷ ps)
    → requested_pairs u r ≡ map (trim_space u) (p ∷ ps)
unfolding requested_pairs
requested_pairs-join u r p ps none_given given ne lacks full =
    rw (none_given, given)
      (choose_joined u (join b',' (p ∷ ps)) (p ∷ ps) ne (split-join b',' p ps lacks)
        ∙ keep_parts-All u (p ∷ ps) full)

module _ (u : Unicode) {Num E : Type 0} (b : Backend Num E) (s : Server b.State Num E)
    (z : Num) where
  open b use {State}

  -- The server over the price service.
  abbrev pub priced : Server State Num E
  priced = record s { svc = get_ltp u b z }

  -- What a client gets of the handler.
  abbrev pub answer : Request → World State (Body Num E) → ResponseWriter (Body Num E)
  answer r w = finish (handle_ltp priced u r (record w { response = new_writer })).response

  abbrev fresh : World State (Body Num E) → World State (Body Num E)
  fresh w = record w { response = new_writer }

  json_code :
      (code : ℕ) (body : Body Num E)
      → sent_code (finish (json s.encodes code body new_writer)).sent ≡ some code
  unfolding json finish
  json_code code body = ground arith

  answered_ok :
      (quotes : List (Quote Num))
      → (finish (answer_quotes priced (ok quotes) new_writer)).body
        ≡ (if s.encodes (ltp_body quotes) then ltp_body quotes ∷ [] else [])
  unfolding answer_quotes finish
  answered_ok quotes = ground arith

  -- An error of the service is never answered by 200.
  answered_err :
      (pairs : List Text) (st : State) (e : LtpError E)
      → (get_ltp u b z pairs st).1 ≡ err e
      → sent_code (finish (answer_quotes priced (err e) new_writer)).sent ≢ some 200
  unfolding answer_quotes
  answered_err pairs st (kraken_failed e) h = λ same. ground (arith, json_code 500 (internal_error))
    where
      internal_error : Body Num E
      internal_error = error_body (plain (codes "internal error"))
  answered_err pairs st (handler_error code msg) h = λ same. ground (
    arith,
    json_code code (error_body (of_service msg)),
    get_ltp-IsBadRequest u b z pairs st (handler_error code msg) h,
  )

  -- What the body of a 200 answer holds, for a name that may be asked for.
  abbrev pub HasQuotes : Text → List Text → ResponseWriter (Body Num E) → Type 0
  HasQuotes n pairs x =
      (quotes : List (Quote Num)) × IsAscending (pairs_of quotes)
      × ((contains n (pairs_of quotes) ≡ true) ↔ Requested u n pairs)
      × (x.body ≡ (if s.encodes (ltp_body quotes) then ltp_body quotes ∷ [] else []))

  -- The body of a 200 answer is what the service answers.
  abbrev pub IsServed : List Text → State → ResponseWriter (Body Num E) → Type 0
  IsServed pairs st x =
      (quotes : List (Quote Num)) × ((get_ltp u b z pairs st).1 ≡ ok quotes)
      × (x.body ≡ (if s.encodes (ltp_body quotes) then ltp_body quotes ∷ [] else []))

  pairs-IsServed :
      (pairs : List Text) (w : World State (Body Num E))
      → sent_code (finish (quote_pairs priced pairs (fresh w)).response).sent ≡ some 200
      → IsServed pairs w.state (finish (quote_pairs priced pairs (fresh w)).response)
  unfolding quote_pairs
  pairs-IsServed [] w h = absurd (ground (arith, json_code 400 pairs_needed))
    where
      pairs_needed : Body Num E
      pairs_needed = error_body (plain (codes "query param 'pair' or 'pairs' is required"))
  pairs-IsServed (p ∷ pairs) w h = elim (Result-cases ((get_ltp u b z (p ∷ pairs) w.state).1)) [
    | inr (e, failed) ↦ absurd (answered_err (p ∷ pairs) w.state e failed (rw failed at h))
    | inl (quotes, good) ↦ (quotes, good, rw good (answered_ok quotes))
  ]

  pub ok-IsServed :
      (r : Request) (w : World State (Body Num E))
      → sent_code (answer r w).sent ≡ some 200
      → (is_get r ≡ true) × IsServed (requested_pairs u r) w.state (answer r w)
  unfolding handle_ltp not_allowed
  ok-IsServed r w h = elim (Bool-cases (is_get r)) [
    | inl get ↦ (get, rw get (pairs-IsServed (requested_pairs u r) w (rw get at h)))
    | inr post ↦
        let body : Body Num E = error_body (plain (codes "method not allowed")) in
        absurd (ground (arith, json_code 405 body))
  ]

  -- A client that gets 200 from the endpoint of the prices has made a `GET` request, and the body
  -- is the quotes for exactly the normal forms of the pairs asked for, in the order of the pairs;
  -- it is empty if the quotes cannot be encoded.
  pub ok_quotes :
      (r : Request) (w : World State (Body Num E)) (n : Text)
      → sent_code (answer r w).sent ≡ some 200
      → (is_get r ≡ true) × HasQuotes n (requested_pairs u r) (answer r w)
  ok_quotes r w n h =
      let (get, (quotes, good, body)) = ok-IsServed r w h in
      let (ascending, exact) = get_ltp_exact u b z (requested_pairs u r) quotes w.state n good in
      (get, (quotes, ascending, exact, body))

  get_ltp-Refused_all :
      (pairs : List Text) (w : World State (Body Num E)) (e : PairError)
      → Refused u e pairs
      → (sent_code (finish (quote_pairs priced pairs (fresh w)).response).sent ≡ some 400)
        × ((quote_pairs priced pairs (fresh w)).state ≡ w.state)
  unfolding quote_pairs answer_quotes
  get_ltp-Refused_all [] w e bad = absurd bad
  get_ltp-Refused_all (p ∷ pairs) w e bad =
      let (e', failed, bad') = get_ltp-Refused u b z e (p ∷ pairs) w.state bad in
      rw failed (json_code 400 (error_body (of_service (bad_pair e'))), refl)

  -- A `GET` request for pairs of which one is refused gets 400, and leaves what stands behind the
  -- cache and the API as it is.
  pub handle_ltp-Refused :
      (r : Request) (w : World State (Body Num E)) (e : PairError)
      → is_get r ≡ true
      → Refused u e (requested_pairs u r)
      → (sent_code (answer r w).sent ≡ some 400)
        × ((handle_ltp priced u r (fresh w)).state ≡ w.state)
  unfolding handle_ltp
  handle_ltp-Refused r w e get bad = rw get (get_ltp-Refused_all (requested_pairs u r) w e bad)
