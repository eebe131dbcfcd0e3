-- ===== src/HttpServer/Recording.antt =====
-- Which requests are counted in `http_requests`, and under which status.
pub mod Statuses
use go_exercise.Base.{
  ℕ, ◌≡◌, ◌⊎◌, ap, refl, Bool, true, false, ◌||◌, none, some, List, [], ◌∷◌, ◌++◌, arith, inl, inr,
  Bool-cases,
}
use go_exercise.Base.Text.{Text, codes}
use go_exercise.Base.Dict.{Dict}
use go_exercise.Base.Float64.{Float64}
use go_exercise.Base.Result.{Result, ok, err}
use go_exercise.Pairs.{Unicode}
use go_exercise.Ltp.{Quote, LtpError, handler_error, kraken_failed}
use go_exercise.Health
use go_exercise.Health.{health_check, readiness_check}
use go_exercise.HttpServer.{
  Request, Body, ResponseWriter, World, Flow, returned, panicked, Foreign, Server, json, encode,
  write, write_header, is_get, health_body, swagger_html, text_body, http_error, set_header,
  respond, finish,
}
use go_exercise.HttpServer.Handlers.{
  Route, ltp, health, ready, openapi, docs, metrics, elsewhere, route, dispatch, mux, quote_pairs,
  answer_quotes, requested_pairs, not_allowed, write_health, health_status, report_ready,
  handle_ltp, handle_health, handle_ready, handle_openapi, handle_swagger_ui, allow_origin,
}
use go_exercise.HttpServer.Middleware.{
  is_exempt, serve, recovery, recover_with, status_label, cors_headers,
}
use go_exercise.HttpServer.Chain.{
  is_options, decide, entered, passed, recovered, serve_exempt, serve_admitted, recovered-Apart,
}
use go_exercise.HttpServer.Limits.{sent_code}
use go_exercise.HttpServer.Recording.Statuses.{
  Settled, Fresh, Answered, IsCalm, json-Answered, dispatch-Settled,
}

module _ {S Num E : Type 0} where
  -- `recovery` answers a panic by 500, which is the first status then.
  recover_with-Settled :
      (encodes : Body Num E → Bool) (x : World S (Body Num E) × Flow)
      → Settled x.0.response x.1
      → Settled (recover_with encodes x).0.response returned
  unfolding recover_with
  recover_with-Settled encodes (w, returned) h = h
  recover_with-Settled encodes (w, panicked) h = inr (json-Answered encodes 500 _ w.response h)

  recovered-Settled :
      (s : Server S Num E) (u : Unicode) (r : Request) (w : World S (Body Num E))
      → ((path : Text) → IsCalm (s.serve_file path))
      → IsCalm s.prometheus
      → IsCalm s.not_routed
      → w.response.sent ≡ none
      → Settled (recovered s u r w).response returned
  unfolding recovery mux
  recovered-Settled s u r w files scrape other unsent =
      let w' = respond (λ x. record x { recorded = some 200 }) w in
      recover_with-Settled s.encodes (dispatch s u (route r) r w')
        (dispatch-Settled s u (route r) r w' files scrape other (unsent, refl))

  passed-label :
      (s : Server S Num E) (u : Unicode) (r : Request) (w : World S (Body Num E))
      → Settled (recovered s u r w).response returned
      → sent_code (passed s u r w).response.sent
        ≡ some (status_label (recovered s u r w).response.recorded)
  unfolding finish status_label
  passed-label s u r w (inl (unsent, fresh)) = rw (unsent, fresh) refl
  passed-label s u r w (inr (code, header, sent, same)) = rw (sent, same) refl

module _ (fl : Float64) {S Num E : Type 0} (u : Unicode) (s : Server S Num E) where
  passed_counts :
      (w : World S (Body Num E))
      → ((path : Text) → IsCalm (s.serve_file path))
      → IsCalm s.prometheus
      → IsCalm s.not_routed
      → w.response.sent ≡ none
      → (r : Request)
      → (code : ℕ) × ((passed s u r w).http_requests
          ≡ w.http_requests ++ (r.method, r.path, code) ∷ [])
        × (sent_code (passed s u r w).response.sent ≡ some code)
  passed_counts w files scrape other unsent r =
      let (limiter, requests, log) = (recovered-Apart s u r w).0 in
      let code = status_label (recovered s u r w).response.recorded in
      (
        code,
        ap (λ l. l ++ (r.method, r.path, code) ∷ []) requests,
        passed-label s u r w (recovered-Settled s u r w files scrape other unsent),
      )

  -- A request that gets past the limiter is counted in `http_requests` once, under its method, its
  -- path and the status that the client gets; if the handlers that are not the server's own write
  -- at most one status, and panic before that or not at all.
  pub serve_counts :
      (r : Request) (w : World S (Body Num E))
      → is_options r ≡ false
      → (is_exempt r || (decide fl r w).1) ≡ true
      → ((path : Text) → IsCalm (s.serve_file path))
      → IsCalm s.prometheus
      → IsCalm s.not_routed
      → (code : ℕ) × ((serve fl u s r w).0.http_requests
          ≡ w.http_requests ++ (r.method, r.path, code) ∷ [])
        × (sent_code (serve fl u s r w).0.response.sent ≡ some code)
  unfolding cors_headers
  serve_counts r w h pass files scrape other = elim (Bool-cases (is_exempt r)) [
    | inl exempt ↦
        rw (serve_exempt fl u s r w h exempt) (passed_counts (entered w) files scrape other refl r)
    | inr counted ↦
        let w' = record (entered w) { limiter = (decide fl r w).0 } in
        rw (serve_admitted fl u s r w h counted (ground arith))
          (passed_counts w' files scrape other refl r)
  ]
