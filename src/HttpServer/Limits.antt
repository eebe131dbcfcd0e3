-- ===== src/HttpServer/Limits.antt =====
-- Which requests the rate limiter decides about, and what becomes of those that it stops.
use go_exercise.Base.{
  ℕ, ◌≡◌, refl, true, not, ◌||◌, Option, none, some, [], ◌∷◌, ◌++◌, arith, inl, inr, Bool-cases,
  if◌then◌else◌,
}
use go_exercise.Base.Text.{Text}
use go_exercise.Base.Dict.{Dict}
use go_exercise.Base.Float64.{Float64}
use go_exercise.Pairs.{Unicode}
use go_exercise.HttpServer.{
  Request, Body, World, returned, Server, json, finish, write_header, respond,
}
use go_exercise.HttpServer.Middleware.{is_exempt, serve, cors_headers}
use go_exercise.HttpServer.Chain.{
  is_options, decide, entered, stopped, serve_options, serve_exempt, serve_admitted, serve_stopped,
  recovered-Apart,
}

abbrev pub sent_code : Option (ℕ × Dict Text) → Option ℕ
sent_code none = none
sent_code (some (code, header)) = some code

sent_options :
    {S B : Type 0} (w : World S B)
    → w.response.sent ≡ none
    → ((respond finish (respond (write_header 200) w)).state ≡ w.state)
      × ((respond finish (respond (write_header 200) w)).http_requests ≡ w.http_requests)
      × (sent_code (respond finish (respond (write_header 200) w)).response.sent ≡ some 200)
unfolding finish write_header
sent_options w h = ground arith

sent_stopped :
    {S Num E : Type 0} (s : Server S Num E) (r : Request) (w : World S (Body Num E))
    → w.response.sent ≡ none
    → ((stopped s r w).state ≡ w.state)
      × ((stopped s r w).http_requests ≡ w.http_requests)
      × (sent_code (stopped s r w).response.sent ≡ some 429)
unfolding finish json
sent_stopped s r w h = ground arith

module _ (fl : Float64) {S Num E : Type 0} (u : Unicode) (s : Server S Num E) where
  -- Every request returns, whatever the handlers that are not the server's own do. The limiter
  -- decides about those that are neither `OPTIONS` nor for one of the three paths that it leaves
  -- out, and keeps its state for all others. The access log gets all but the `OPTIONS` requests.
  pub serve_limits :
      (r : Request) (w : World S (Body Num E))
      → ((serve fl u s r w).1 ≡ returned)
        × ((serve fl u s r w).0.limiter
            ≡ (if is_options r || is_exempt r then w.limiter else (decide fl r w).0))
        × ((serve fl u s r w).0.access_log
            ≡ (if is_options r then w.access_log else w.access_log ++ (r.method, r.url) ∷ []))
  serve_limits r w = elim (Bool-cases (is_options r)) [
    | inl options ↦ rw (serve_options fl u s r w options, options) (refl, refl, refl)
    | inr other ↦ elim (Bool-cases (is_exempt r)) [
      | inl exempt ↦
          let (limiter, requests, log) = (recovered-Apart s u r (entered w)).0 in
          rw (serve_exempt fl u s r w other exempt, other, exempt, log) (refl, limiter, refl)
      | inr counted ↦ elim (Bool-cases ((decide fl r w).1)) [
        | inl good ↦
            let w' = record (entered w) { limiter = (decide fl r w).0 } in
            let (limiter, requests, log) = (recovered-Apart s u r w').0 in
            rw (serve_admitted fl u s r w other counted good, other, counted, log)
              (refl, limiter, refl)
        | inr bad ↦
            rw (serve_stopped fl u s r w other counted bad, other, counted) (refl, refl, refl)
      ]
    ]
  ]

  -- A request that the limiter stops gets the status 429, and an `OPTIONS` request gets 200: for
  -- neither is the service or a check called, what these stand on stays as it is, and the request
  -- is not counted in `http_requests`.
  pub serve_stops :
      (r : Request) (w : World S (Body Num E))
      → (is_options r || not (is_exempt r || (decide fl r w).1)) ≡ true
      → ((serve fl u s r w).0.state ≡ w.state)
        × ((serve fl u s r w).0.http_requests ≡ w.http_requests)
        × (sent_code (serve fl u s r w).0.response.sent ≡ some (if is_options r then 200 else 429))
  unfolding cors_headers
  serve_stops r w h = elim (Bool-cases (is_options r)) [
    | inl options ↦ rw (serve_options fl u s r w options, options) (sent_options (entered w) refl)
    | inr other ↦ elim (Bool-cases (is_exempt r)) [
      | inl exempt ↦ absurd (ground arith)
      | inr counted ↦ elim (Bool-cases ((decide fl r w).1)) [
        | inl good ↦ absurd (ground arith)
        | inr bad ↦
            rw (serve_stopped fl u s r w other counted bad, other)
              (sent_stopped s r (record (entered w) { limiter = (decide fl r w).0 }) refl)
      ]
    ]
  ]
