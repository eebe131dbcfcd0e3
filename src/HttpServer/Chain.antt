-- ===== src/HttpServer/Chain.antt =====
-- The chain of middleware as a whole: the four ways that a request can take.
pub mod Untouched
use go_exercise.Base.{◌≡◌, ◌∙◌, ap, refl, Bool, true, false, none, some, List, [], ◌∷◌, ◌++◌, arith}
use go_exercise.Base.Text.{Text, codes, text_eq}
use go_exercise.Base.Float64.{Float64}
use go_exercise.RateLimit.Limiter.{RateLimiter, allow}
use go_exercise.RateLimit.Limiter.Addresses.{extract_ip}
use go_exercise.Pairs.{Unicode}
use go_exercise.HttpServer.{
  Request, Body, World, Flow, returned, panicked, Handler, Server, new_writer, respond, finish,
  json, plain, error_body, write_header,
}
use go_exercise.HttpServer.Handlers.{
  Route, ltp, health, ready, openapi, docs, metrics, elsewhere, route, dispatch, mux, quote_pairs,
  requested_pairs, handle_ltp, handle_health, handle_ready, handle_swagger_ui, handle_openapi,
}
use go_exercise.HttpServer.Middleware.{
  status_label, cors, logging, log_request, recovery, recover_with, metrics_middleware,
  count_request, is_exempt, rate_limit_middleware, handler, serve, cors_headers,
}
use go_exercise.HttpServer.Chain.Untouched.{Apart, dispatch-Apart, recover_with-Apart}

abbrev pub is_options : Request → Bool
is_options r = text_eq r.method (codes "OPTIONS")

module _ {S Num E : Type 0} where
  -- The world after the mux and `recovery`, behind a fresh wrapper of the writer.
  abbrev pub recovered :
      Server S Num E → Unicode → Request → World S (Body Num E) → World S (Body Num E)
  recovered s u r w =
      (recovery s.encodes (mux s u) r (respond (λ x. record x { recorded = some 200 }) w)).0

  pub recovered-Apart :
      (s : Server S Num E) (u : Unicode) (r : Request) (w : World S (Body Num E))
      → Apart w (recovered s u r w)
        × ((recovery s.encodes (mux s u) r (respond (λ x. record x { recorded = some 200 }) w)).1
            ≡ returned)
  unfolding recovery mux
  recovered-Apart s u r w =
      let w' = respond (λ x. record x { recorded = some 200 }) w in
      recover_with-Apart s.encodes w (mux s u r w') (dispatch-Apart s u (route r) r w')

  count_returned :
      (r : Request) (x : World S (Body Num E) × Flow)
      → x.1 ≡ returned
      → count_request r x ≡ (
        record x.0 {
          http_requests =
              x.0.http_requests ++ (r.method, r.path, status_label x.0.response.recorded) ∷ [];
          response = record x.0.response { recorded = none };
        },
        returned,
      )
  unfolding count_request
  count_returned r (w, returned) h = refl
  count_returned r (w, panicked) h = cc

  -- What lies behind the limiter counts the request, and returns.
  inner_lem :
      (s : Server S Num E) (u : Unicode) (r : Request) (w : World S (Body Num E))
      → let after = recovered s u r w in
        let label = status_label after.response.recorded in
        metrics_middleware (recovery s.encodes (mux s u)) r w ≡ (
          record after {
            http_requests = after.http_requests ++ (r.method, r.path, label) ∷ [];
            response = record after.response { recorded = none };
          },
          returned,
        )
  unfolding metrics_middleware
  inner_lem s u r w =
      let w' = respond (λ x. record x { recorded = some 200 }) w in
      count_returned r (recovery s.encodes (mux s u) r w') (recovered-Apart s u r w).1

  -- The world behind the CORS headers.
  abbrev pub entered : World S (Body Num E) → World S (Body Num E)
  entered w = respond cors_headers (record w { response = new_writer })

  abbrev pub logged : Request → World S (Body Num E) → World S (Body Num E)
  logged r w = record w { access_log = w.access_log ++ (r.method, r.url) ∷ [] }

  -- A request that gets past the limiter, from there to its end.
  abbrev pub passed :
      Server S Num E → Unicode → Request → World S (Body Num E) → World S (Body Num E)
  passed s u r w =
      let after = recovered s u r w in
      respond finish (
        logged r (record after {
          http_requests =
              after.http_requests ++ (r.method, r.path, status_label after.response.recorded) ∷ [];
          response = record after.response { recorded = none };
        }))

  abbrev pub stopped : Server S Num E → Request → World S (Body Num E) → World S (Body Num E)
  stopped s r w =
      respond finish (
        logged r
          (respond (json s.encodes 429 (error_body (plain (codes "rate limit exceeded")))) w))

module _ {S Num E : Type 0} where
  cors_options :
      (next : Handler S (Body Num E)) (r : Request) (w : World S (Body Num E))
      → is_options r ≡ true
      → cors next r w ≡ (respond (write_header 200) (respond cors_headers w), returned)
  unfolding cors
  cors_options next r w h = rw h refl

  cors_other :
      (next : Handler S (Body Num E)) (r : Request) (w : World S (Body Num E))
      → is_options r ≡ false
      → cors next r w ≡ next r (respond cors_headers w)
  unfolding cors
  cors_other next r w h = rw h refl

  logging_lem :
      (next : Handler S (Body Num E)) (r : Request) (w w' : World S (Body Num E))
      → next r w ≡ (w', returned)
      → logging next r w ≡ (logged r w', returned)
  unfolding logging log_request
  logging_lem next r w w' h = ap (log_request r) h

  rate_exempt :
      (fl : Float64) (encodes : Body Num E → Bool) (next : Handler S (Body Num E)) (r : Request)
      (w : World S (Body Num E))
      → is_exempt r ≡ true
      → rate_limit_middleware fl encodes next r w ≡ next r w
  unfolding rate_limit_middleware
  rate_exempt fl encodes next r w h = rw h refl

  abbrev pub decide : Float64 → Request → World S (Body Num E) → RateLimiter × Bool
  decide fl r w = allow fl w.limiter (extract_ip r.origin) r.readings

  rate_admitted :
      (fl : Float64) (encodes : Body Num E → Bool) (next : Handler S (Body Num E)) (r : Request)
      (w : World S (Body Num E))
      → is_exempt r ≡ false
      → (decide fl r w).1 ≡ true
      → rate_limit_middleware fl encodes next r w
        ≡ next r (record w { limiter = (decide fl r w).0 })
  unfolding rate_limit_middleware
  rate_admitted fl encodes next r w h a = rw (h, a) refl

  rate_stopped :
      (fl : Float64) (encodes : Body Num E → Bool) (next : Handler S (Body Num E)) (r : Request)
      (w : World S (Body Num E))
      → is_exempt r ≡ false
      → (decide fl r w).1 ≡ false
      → rate_limit_middleware fl encodes next r w ≡ (
        respond
            (json encodes 429 (error_body (plain (codes "rate limit exceeded"))))
            (record w { limiter = (decide fl r w).0 }),
        returned,
      )
  unfolding rate_limit_middleware
  rate_stopped fl encodes next r w h a = rw (h, a) refl

module _ (fl : Float64) {S Num E : Type 0} (u : Unicode) (s : Server S Num E) where
  serve_lem :
      (r : Request) (w w' : World S (Body Num E))
      → handler fl u s r (record w { response = new_writer }) ≡ (w', returned)
      → serve fl u s r w ≡ (respond finish w', returned)
  unfolding serve
  serve_lem r w w' h = ap (λ x. (respond finish x.0, x.1)) h

  -- A request that gets past `cors` and is handled behind it.
  behind_cors :
      (r : Request) (w w' : World S (Body Num E))
      → is_options r ≡ false
      → rate_limit_middleware fl s.encodes
          (metrics_middleware (recovery s.encodes (mux s u)))
          r
          (entered w)
        ≡ (w', returned)
      → serve fl u s r w ≡ (respond finish (logged r w'), returned)
  unfolding handler
  behind_cors r w w' other h =
      let limited =
        rate_limit_middleware fl s.encodes (metrics_middleware (recovery s.encodes (mux s u))) in
      serve_lem r w (logged r w') (
        cors_other (logging limited) r (record w { response = new_writer }) other
        ∙ logging_lem limited r (entered w) w' h)

  pub serve_options :
      (r : Request) (w : World S (Body Num E))
      → is_options r ≡ true
      → serve fl u s r w ≡ (respond finish (respond (write_header 200) (entered w)), returned)
  unfolding handler
  serve_options r w h =
      serve_lem r w (respond (write_header 200) (entered w))
        (cors_options _ r (record w { response = new_writer }) h)

  pub serve_exempt :
      (r : Request) (w : World S (Body Num E))
      → is_options r ≡ false
      → is_exempt r ≡ true
      → serve fl u s r w ≡ (passed s u r (entered w), returned)
  serve_exempt r w h k =
      behind_cors r w _ h (rate_exempt fl s.encodes _ r (entered w) k ∙ inner_lem s u r (entered w))

  pub serve_admitted :
      (r : Request) (w : World S (Body Num E))
      → is_options r ≡ false
      → is_exempt r ≡ false
      → (decide fl r w).1 ≡ true
      → serve fl u s r w
        ≡ (passed s u r (record (entered w) { limiter = (decide fl r w).0 }), returned)
  serve_admitted r w h k a = behind_cors r w _ h (
      rate_admitted fl s.encodes _ r (entered w) k a
      ∙ inner_lem s u r (record (entered w) { limiter = (decide fl r w).0 }))

  pub serve_stopped :
      (r : Request) (w : World S (Body Num E))
      → is_options r ≡ false
      → is_exempt r ≡ false
      → (decide fl r w).1 ≡ false
      → serve fl u s r w
        ≡ (stopped s r (record (entered w) { limiter = (decide fl r w).0 }), returned)
  serve_stopped r w h k a = behind_cors r w _ h (rate_stopped fl s.encodes _ r (entered w) k a)
