-- ===== src/HttpServer/Middleware.antt =====
-- The chain of middleware, and a request through the server.
use go_exercise.Base.{ℕ, Bool, ◌||◌, Option, none, some, [], ◌∷◌, ◌++◌, if◌then◌else◌}
use go_exercise.Base.Int.{pos}
use go_exercise.Base.Text.{codes, text_eq}
use go_exercise.Base.Float64.{Float64}
use go_exercise.RateLimit.Limiter.{RateLimiter, allow, get_stats}
use go_exercise.RateLimit.Limiter.Addresses.{extract_ip}
use go_exercise.Pairs.{Unicode}
use go_exercise.HttpServer.{
  Request, plain, Body, error_body, ResponseWriter, World, Flow, returned, panicked, Handler,
  Server, new_writer, set_header, write_header, json, finish, respond,
}
use go_exercise.HttpServer.Handlers.{mux}

unfoldable pub cors_headers : {B : Type 0} → ResponseWriter B → ResponseWriter B
unfolding set_header
cors_headers w = set_header (codes "Access-Control-Allow-Headers") (codes "Content-Type") (
    set_header (codes "Access-Control-Allow-Methods") (codes "GET, OPTIONS")
      (set_header (codes "Access-Control-Allow-Origin") (codes "*") w))

-- `rw.statusCode`
unfoldable pub status_label : Option ℕ → ℕ
status_label none = 200
status_label (some code) = code

unfoldable pub is_exempt : Request → Bool
is_exempt r =
    text_eq r.path (codes "/health")
    || text_eq r.path (codes "/ready")
    || text_eq r.path (codes "/metrics")

module _ {S Num E : Type 0} where
  unfoldable pub cors : Handler S (Body Num E) → Handler S (Body Num E)
  unfolding cors_headers write_header
  cors next r w =
      let w' = respond cors_headers w in
      if text_eq r.method (codes "OPTIONS")
      then (respond (write_header 200) w', returned)
      else next r w'

  unfoldable pub log_request : Request → World S (Body Num E) × Flow → World S (Body Num E) × Flow
  log_request r (w, panicked) = (w, panicked)
  log_request r (w, returned) =
      (record w { access_log = w.access_log ++ (r.method, r.url) ∷ [] }, returned)

  unfoldable pub logging : Handler S (Body Num E) → Handler S (Body Num E)
  unfolding log_request
  logging next r w = log_request r (next r w)

  unfoldable pub recover_with :
      (Body Num E → Bool) → World S (Body Num E) × Flow → World S (Body Num E) × Flow
  unfolding json
  recover_with encodes (w, returned) = (w, returned)
  recover_with encodes (w, panicked) =
      (respond (json encodes 500 (error_body (plain (codes "internal server error")))) w, returned)

  unfoldable pub recovery : (Body Num E → Bool) → Handler S (Body Num E) → Handler S (Body Num E)
  unfolding recover_with
  recovery encodes next r w = recover_with encodes (next r w)

  unfoldable pub count_request : Request → World S (Body Num E) × Flow → World S (Body Num E) × Flow
  unfolding status_label
  count_request r (w, panicked) = (w, panicked)
  count_request r (w, returned) = (
    record w {
      http_requests = w.http_requests ++ (r.method, r.path, status_label w.response.recorded) ∷ [];
      response = record w.response { recorded = none };
    },
    returned,
  )

  unfoldable pub metrics_middleware : Handler S (Body Num E) → Handler S (Body Num E)
  unfolding count_request
  metrics_middleware next r w =
      count_request r (next r (respond (λ x. record x { recorded = some 200 }) w))

module _ (fl : Float64) {S Num E : Type 0} where
  unfoldable pub rate_limit_middleware :
      (Body Num E → Bool) → Handler S (Body Num E) → Handler S (Body Num E)
  unfolding is_exempt json
  rate_limit_middleware encodes next r w =
      if is_exempt r
      then next r w
      else (let (limiter, admitted) = allow fl w.limiter (extract_ip r.origin) r.readings in
          let w' = record w { limiter = limiter } in
          if admitted then next r w' else (
            respond (json encodes 429 (error_body (plain (codes "rate limit exceeded")))) w',
            returned,
          ))

  unfoldable pub handler : Unicode → Server S Num E → Handler S (Body Num E)
  handler u s = cors (
      logging (rate_limit_middleware s.encodes (metrics_middleware (recovery s.encodes (mux s u)))))

  -- A request, from a fresh writer to the end of the handler. After a panic that gets out of the
  -- handler there is no response.
  unfoldable pub serve :
      Unicode → Server S Num E → Request → World S (Body Num E) → World S (Body Num E) × Flow
  unfolding handler finish
  serve u s r w =
      let (w', flow) = handler u s r (record w { response = new_writer }) in
      (respond finish w', flow)

module _ (fl : Float64) where
  open fl use {of_int}

  -- The two gauges that are set, and the limiter after its bucket is refilled.
  unfoldable pub update_rate_limit_metrics : RateLimiter → ℕ → RateLimiter × fl.Num × fl.Num
  update_rate_limit_metrics rl now =
      let (rl', stats) = get_stats fl rl now in
      (rl', of_int (pos stats.global_tokens), stats.global_utilization)
