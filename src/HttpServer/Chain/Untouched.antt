-- ===== src/HttpServer/Chain/Untouched.antt =====
-- What the handlers leave to the middleware: the limiter, the counter and the access log.
use go_exercise.Base.{◌≡◌, refl, Bool, List, [], ◌∷◌, arith}
use go_exercise.Base.Text.{Text}
use go_exercise.Pairs.{Unicode}
use go_exercise.HttpServer.{Request, Body, World, Flow, returned, panicked, Server}
use go_exercise.HttpServer.Handlers.{
  Route, ltp, health, ready, openapi, docs, metrics, elsewhere, dispatch, quote_pairs,
  requested_pairs, handle_ltp, handle_health, handle_ready, handle_swagger_ui, handle_openapi,
}
use go_exercise.HttpServer.Middleware.{recover_with}

module _ {S Num E : Type 0} where
  -- The limiter, the counter and the log as a handler that touches none of the three leaves them.
  abbrev pub Apart : World S (Body Num E) → World S (Body Num E) → Type 0
  Apart w w' =
      (w'.limiter ≡ w.limiter)
      × (w'.http_requests ≡ w.http_requests)
      × (w'.access_log ≡ w.access_log)

  quote_pairs-Apart :
      (s : Server S Num E) (pairs : List Text) (w : World S (Body Num E))
      → Apart w (quote_pairs s pairs w)
  unfolding quote_pairs
  quote_pairs-Apart s [] w = (refl, refl, refl)
  quote_pairs-Apart s (p ∷ pairs) w = (refl, refl, refl)

  pub dispatch-Apart :
      (s : Server S Num E) (u : Unicode) (to : Route) (r : Request) (w : World S (Body Num E))
      → Apart w (dispatch s u to r w).0
  unfolding dispatch handle_ltp handle_health handle_ready handle_openapi handle_swagger_ui
  dispatch-Apart s u ltp r w = ground (arith, quote_pairs-Apart s (requested_pairs u r) w)
  dispatch-Apart s u health r w = ground arith
  dispatch-Apart s u ready r w = ground arith
  dispatch-Apart s u openapi r w = ground arith
  dispatch-Apart s u docs r w = ground arith
  dispatch-Apart s u metrics r w = (refl, refl, refl)
  dispatch-Apart s u elsewhere r w = (refl, refl, refl)

  pub recover_with-Apart :
      (encodes : Body Num E → Bool) (w : World S (Body Num E)) (x : World S (Body Num E) × Flow)
      → Apart w x.0
      → Apart w (recover_with encodes x).0 × ((recover_with encodes x).1 ≡ returned)
  unfolding recover_with
  recover_with-Apart encodes w (w', returned) h = (h, refl)
  recover_with-Apart encodes w (w', panicked) h = (h, refl)
