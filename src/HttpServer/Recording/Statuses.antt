-- ===== src/HttpServer/Recording/Statuses.antt =====
-- What the handlers write: at most one status, which the wrapper of the metrics has.
use go_exercise.Base.{ℕ, ◌≡◌, ◌⊎◌, Bool, none, some, List, [], ◌∷◌, arith, inl, inr, Bool-cases}
use go_exercise.Base.Text.{Text, codes}
use go_exercise.Base.Dict.{Dict}
use go_exercise.Base.Result.{Result, ok, err}
use go_exercise.Pairs.{Unicode}
use go_exercise.Ltp.{Quote, LtpError, handler_error, kraken_failed}
use go_exercise.Health
use go_exercise.Health.{health_check, readiness_check}
use go_exercise.HttpServer.{
  Request, Body, ResponseWriter, World, Flow, returned, panicked, Foreign, Server, json, encode,
  write, write_header, is_get, health_body, swagger_html, text_body, http_error, set_header,
}
use go_exercise.HttpServer.Handlers.{
  Route, ltp, health, ready, openapi, docs, metrics, elsewhere, dispatch, quote_pairs,
  answer_quotes, requested_pairs, not_allowed, write_health, health_status, report_ready,
  handle_ltp, handle_health, handle_ready, handle_openapi, handle_swagger_ui, allow_origin,
}

module _ {B : Type 0} where
  -- Nothing is sent, and the wrapper has its first status.
  abbrev pub Fresh : ResponseWriter B → Type 0
  Fresh x = (x.sent ≡ none) × (x.recorded ≡ some 200)

  -- A status is sent, and the wrapper has the same.
  abbrev pub Answered : ResponseWriter B → Type 0
  Answered x =
      (code : ℕ) × (header : Dict Text) × (x.sent ≡ some (code, header)) × (x.recorded ≡ some code)

  abbrev pub Settled : ResponseWriter B → Flow → Type 0
  Settled x returned = Fresh x ⊎ Answered x
  Settled x panicked = Fresh x

  write_header-Answered :
      (code : ℕ) (x : ResponseWriter B) → Fresh x → Answered (write_header code x)
  unfolding write_header
  write_header-Answered code x h = (code, x.header, ground arith, ground arith)

  write-Answered : (b : B) (x : ResponseWriter B) → Answered x → Answered (write b x)
  unfolding write
  write-Answered b x (code, header, sent, same) = (code, header, ground arith, ground arith)

  encode-Answered :
      (encodes : B → Bool) (b : B) (x : ResponseWriter B)
      → Answered x
      → Answered (encode encodes b x)
  unfolding encode
  encode-Answered encodes b x h = elim (Bool-cases (encodes b)) [
    | inl good ↦ rw good (write-Answered b x h)
    | inr bad ↦ rw bad h
  ]

  -- Setting headers sends nothing; `json` and `http.Error` send their status.
  pub json-Answered :
      (encodes : B → Bool) (code : ℕ) (b : B) (x : ResponseWriter B)
      → Fresh x
      → Answered (json encodes code b x)
  unfolding json
  json-Answered encodes code b x h = encode-Answered encodes b _ (
      write_header-Answered code (set_header (codes "Content-Type") (codes "application/json") x) h)

  http_error-Answered :
      (code : ℕ) (b : B) (x : ResponseWriter B) → Fresh x → Answered (http_error code b x)
  unfolding http_error
  http_error-Answered code b x h =
      let x' =
        set_header (codes "X-Content-Type-Options") (codes "nosniff")
          (set_header (codes "Content-Type") (codes "text/plain; charset=utf-8") x) in
      write-Answered b (write_header code x') (write_header-Answered code x' h)

  -- A body that is written first sends 200, which is what the wrapper has.
  encode-Settled :
      (encodes : B → Bool) (b : B) (x : ResponseWriter B)
      → Fresh x
      → Settled (encode encodes b x) returned
  unfolding encode write
  encode-Settled encodes b x h = elim (Bool-cases (encodes b)) [
    | inl good ↦ rw good (inr (200, x.header, ground arith, ground arith))
    | inr bad ↦ rw bad (inl h)
  ]

module _ {S Num E : Type 0} where
  -- A handler that writes at most one status, and panics before that or not at all.
  abbrev pub IsCalm : Foreign S (Body Num E) → Type 0
  IsCalm f =
      (r : Request) (st : S) (x : ResponseWriter (Body Num E))
      → Fresh x
      → Settled (f r st x).1 (f r st x).2

  quote_pairs-Settled :
      (s : Server S Num E) (pairs : List Text) (w : World S (Body Num E))
      → Fresh w.response
      → Settled (quote_pairs s pairs w).response returned
  unfolding quote_pairs
  quote_pairs-Settled s [] w h = inr (json-Answered s.encodes 400 _ w.response h)
  quote_pairs-Settled s (p ∷ pairs) w h = answer ((s.svc (p ∷ pairs) w.state).1)
    where
      answer :
          (a : Result (LtpError E) (List (Quote Num)))
          → Settled (answer_quotes s a w.response) returned
      answer (ok quotes) = encode-Settled s.encodes _ _ h
      answer (err (handler_error code msg)) = inr (json-Answered s.encodes code _ w.response h)
      answer (err (kraken_failed e)) = inr (json-Answered s.encodes 500 _ w.response h)

  not_allowed-Settled :
      (s : Server S Num E) (w : World S (Body Num E))
      → Fresh w.response
      → Settled (not_allowed s w).response returned
  unfolding not_allowed
  not_allowed-Settled s w h = inr (json-Answered s.encodes 405 _ w.response h)

  write_health-Settled :
      (s : Server S Num E) (answer : Health.Response E) (x : ResponseWriter (Body Num E))
      → Fresh x
      → Settled (write_health s answer x) returned
  unfolding write_health
  write_health-Settled s answer x h =
      let x' = set_header (codes "Content-Type") (codes "application/json") x in
      let code = health_status answer.status in
      inr (
        encode-Answered s.encodes (health_body answer) (write_header code x')
          (write_header-Answered code x' h))

  swagger-Settled :
      (s : Server S Num E) (r : Request) (w : World S (Body Num E))
      → Fresh w.response
      → Settled (handle_swagger_ui s r w).response returned
  unfolding handle_swagger_ui
  swagger-Settled s r w h = elim (Bool-cases (is_get r)) [
    | inr other ↦
        rw other
          (inr (http_error-Answered 405 (text_body (codes "Method not allowed")) w.response h))
    | inl get ↦
        let x' =
          allow_origin s
            (set_header (codes "Content-Type") (codes "text/html; charset=utf-8") w.response) in
        rw get
          (inr (write-Answered swagger_html (write_header 200 x') (write_header-Answered 200 x' h)))
  ]

  openapi-Settled :
      (s : Server S Num E) (r : Request) (w : World S (Body Num E))
      → ((path : Text) → IsCalm (s.serve_file path))
      → Fresh w.response
      → Settled (handle_openapi s r w).0.response (handle_openapi s r w).1
  unfolding handle_openapi
  openapi-Settled s r w files h = elim (Bool-cases (is_get r)) [
    | inr other ↦
        rw other
          (inr (http_error-Answered 405 (text_body (codes "Method not allowed")) w.response h))
    | inl get ↦ elim (Bool-cases (s.openapi_missing w.state)) [
      | inl missing ↦
          rw (get, missing)
            (inr (
              http_error-Answered 404 (text_body (codes "OpenAPI specification not found"))
                w.response h))
      | inr there ↦
          rw (get, there)
            (files (codes "docs/openapi.yaml") r w.state
              (allow_origin s
                (set_header (codes "Content-Type") (codes "application/yaml") w.response))
              h)
    ]
  ]

  pub dispatch-Settled :
      (s : Server S Num E) (u : Unicode) (to : Route) (r : Request) (w : World S (Body Num E))
      → ((path : Text) → IsCalm (s.serve_file path))
      → IsCalm s.prometheus
      → IsCalm s.not_routed
      → Fresh w.response
      → Settled (dispatch s u to r w).0.response (dispatch s u to r w).1
  unfolding dispatch handle_ltp handle_health handle_ready report_ready
  dispatch-Settled s u ltp r w files scrape other h = elim (Bool-cases (is_get r)) [
    | inl get ↦ rw get (quote_pairs-Settled s (requested_pairs u r) w h)
    | inr post ↦ rw post (not_allowed-Settled s w h)
  ]
  dispatch-Settled s u health r w files scrape other h = elim (Bool-cases (is_get r)) [
    | inl get ↦ rw get (write_health-Settled s (health_check s.checks) w.response h)
    | inr post ↦ rw post (not_allowed-Settled s w h)
  ]
  dispatch-Settled s u ready r w files scrape other h = elim (Bool-cases (is_get r)) [
    | inl get ↦ rw get (write_health-Settled s (readiness_check s.checks w.state).1 w.response h)
    | inr post ↦ rw post (not_allowed-Settled s w h)
  ]
  dispatch-Settled s u openapi r w files scrape other h = openapi-Settled s r w files h
  dispatch-Settled s u docs r w files scrape other h = swagger-Settled s r w h
  dispatch-Settled s u metrics r w files scrape other h = scrape r w.state w.response h
  dispatch-Settled s u elsewhere r w files scrape other h = other r w.state w.response h
