-- ===== src/HttpServer/Handlers.antt =====
-- The handlers of the server, and the mux.
use go_exercise.Base.{ℕ, not, Option, none, some, List, [], ◌∷◌, if◌then◌else◌}
use go_exercise.Base.Text.{Text, codes, text_eq, is_empty}
use go_exercise.Base.Dict.{find}
use go_exercise.Base.Split.{split}
use go_exercise.Base.Result.{Result, ok, err}
use go_exercise.Pairs.{Unicode, trim_space}
use go_exercise.Health
use go_exercise.Health.{Status, healthy, unhealthy, health_check, readiness_check}
use go_exercise.Ltp.{Quote, LtpError, handler_error, kraken_failed}
use go_exercise.HttpServer.{
  Request, plain, of_service, Body, error_body, ltp_body, health_body, text_body, swagger_html,
  ResponseWriter, World, Handler, foreign, quiet, Server, returned, set_header, write_header, write,
  encode, json, http_error, respond, is_get,
}

-- `q.Get(k)`: the empty text if the parameter is absent.
abbrev pub text_or_empty : Option Text → Text
text_or_empty none = []
text_or_empty (some v) = v

unfoldable pub query_get : Request → Text → Text
query_get r k = text_or_empty (find k r.query)

-- The loop over the parts of `pairs`.
unfoldable pub keep_parts : Unicode → List Text → List Text
unfolding trim_space
keep_parts u [] = []
keep_parts u (p ∷ parts) =
    let rest = keep_parts u parts in
    if is_empty (trim_space u p) then rest else trim_space u p ∷ rest

abbrev pub supported_pairs : List Text
supported_pairs = codes "BTC/USD" ∷ codes "BTC/CHF" ∷ codes "BTC/EUR" ∷ []

-- The values of `pair` and of `pairs`.
unfoldable pub choose_pairs : Unicode → Text → Text → List Text
unfolding keep_parts split
choose_pairs u (c ∷ pair) pairs = (c ∷ pair) ∷ []
choose_pairs u [] (c ∷ pairs) = keep_parts u (split b',' (c ∷ pairs))
choose_pairs u [] [] = supported_pairs

unfoldable pub requested_pairs : Unicode → Request → List Text
unfolding choose_pairs query_get
requested_pairs u r = choose_pairs u (query_get r (codes "pair")) (query_get r (codes "pairs"))

unfoldable pub health_status : Status → ℕ
health_status healthy = 200
health_status unhealthy = 503

-- The routes that `New` gives to the mux.
pub data Route : Type 0 where
  ltp : Route
  health : Route
  ready : Route
  openapi : Route
  docs : Route
  metrics : Route
  elsewhere : Route

unfoldable pub route : Request → Route
route r =
    if text_eq r.path (codes "/api/v1/ltp")
    then ltp
    else if text_eq r.path (codes "/health")
    then health
    else if text_eq r.path (codes "/ready")
    then ready
    else if text_eq r.path (codes "/openapi.yaml")
    then openapi
    else if text_eq r.path (codes "/docs")
    then docs
    else if text_eq r.path (codes "/metrics")
    then metrics
    else elsewhere

module _ {S Num E : Type 0} (s : Server S Num E) where
  -- The response to an error of the service.
  unfoldable pub service_error :
      LtpError E → ResponseWriter (Body Num E) → ResponseWriter (Body Num E)
  unfolding json
  service_error (handler_error code msg) w = json s.encodes code (error_body (of_service msg)) w
  service_error (kraken_failed e) w =
      json s.encodes 500 (error_body (plain (codes "internal error"))) w

  unfoldable pub answer_quotes :
      Result (LtpError E) (List (Quote Num))
      → ResponseWriter (Body Num E)
      → ResponseWriter (Body Num E)
  unfolding service_error set_header encode
  answer_quotes (err e) w = service_error e w
  answer_quotes (ok quotes) w =
      encode s.encodes (ltp_body quotes)
        (set_header (codes "Content-Type") (codes "application/json") w)

  unfoldable pub quote_pairs : List Text → World S (Body Num E) → World S (Body Num E)
  unfolding json answer_quotes
  quote_pairs [] w =
      respond
        (json s.encodes 400
          (error_body (plain (codes "query param 'pair' or 'pairs' is required"))))
        w
  quote_pairs (p ∷ pairs) w =
      let (state, answer) = s.svc (p ∷ pairs) w.state in
      record w { state = state; response = answer_quotes answer w.response }

  unfoldable pub not_allowed : World S (Body Num E) → World S (Body Num E)
  unfolding json
  not_allowed = respond (json s.encodes 405 (error_body (plain (codes "method not allowed"))))

  unfoldable pub handle_ltp : Unicode → Request → World S (Body Num E) → World S (Body Num E)
  unfolding not_allowed quote_pairs
  handle_ltp u r w = if is_get r then quote_pairs (requested_pairs u r) w else not_allowed w

  unfoldable pub write_health :
      Health.Response E → ResponseWriter (Body Num E) → ResponseWriter (Body Num E)
  unfolding health_status set_header write_header encode
  write_health response w = encode s.encodes (health_body response) (
      write_header (health_status response.status)
        (set_header (codes "Content-Type") (codes "application/json") w))

  unfoldable pub handle_health : Request → World S (Body Num E) → World S (Body Num E)
  unfolding not_allowed write_health health_check
  handle_health r w =
      if is_get r then respond (write_health (health_check s.checks)) w else not_allowed w

  unfoldable pub report_ready : World S (Body Num E) → World S (Body Num E)
  unfolding write_health
  report_ready w =
      let (state, response) = readiness_check s.checks w.state in
      record w { state = state; response = write_health response w.response }

  unfoldable pub handle_ready : Request → World S (Body Num E) → World S (Body Num E)
  unfolding not_allowed report_ready
  handle_ready r w = if is_get r then report_ready w else not_allowed w

  unfoldable pub allow_origin : ResponseWriter (Body Num E) → ResponseWriter (Body Num E)
  unfolding set_header
  allow_origin = set_header (codes "Access-Control-Allow-Origin") (codes "*")

  unfoldable pub handle_openapi : Handler S (Body Num E)
  unfolding http_error set_header allow_origin
  handle_openapi r w =
      if not (is_get r)
      then (respond (http_error 405 (text_body (codes "Method not allowed"))) w, returned)
      else if s.openapi_missing w.state
      then (
        respond (http_error 404 (text_body (codes "OpenAPI specification not found"))) w,
        returned,
      )
      else foreign (s.serve_file (codes "docs/openapi.yaml")) r (
          respond
            (λ x. allow_origin (set_header (codes "Content-Type") (codes "application/yaml") x)) w)

  unfoldable pub handle_swagger_ui : Request → World S (Body Num E) → World S (Body Num E)
  unfolding http_error set_header allow_origin write_header write
  handle_swagger_ui r w =
      if is_get r
      then respond
          (λ x. write swagger_html (
            write_header 200 (
              allow_origin
                (set_header (codes "Content-Type") (codes "text/html; charset=utf-8") x))))
          w
      else respond (http_error 405 (text_body (codes "Method not allowed"))) w

  unfoldable pub dispatch : Unicode → Route → Handler S (Body Num E)
  dispatch u ltp = quiet (handle_ltp u)
  dispatch u health = quiet handle_health
  dispatch u ready = quiet handle_ready
  dispatch u openapi = handle_openapi
  dispatch u docs = quiet handle_swagger_ui
  dispatch u metrics = foreign s.prometheus
  dispatch u elsewhere = foreign s.not_routed

  unfoldable pub mux : Unicode → Handler S (Body Num E)
  unfolding route
  mux u r = dispatch u (route r) r
