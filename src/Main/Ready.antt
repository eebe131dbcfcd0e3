-- ===== src/Main/Ready.antt =====
-- The readiness of the server that `main` makes.
use go_exercise.Base.{
  ℕ, ◌+◌, ◌*◌, ◌≤◌, ◌≡◌, refl, ap, ◌∙◌, true, none, some, List, [], ◌∷◌, arith, inl, inr,
}
use go_exercise.Base.Int.{ℤ, pos, second}
use go_exercise.Base.Text.{Text, codes}
use go_exercise.Base.Dict.{Dict}
use go_exercise.Base.Float64.{Float64}
use go_exercise.Base.Result.{Result, ok, err}
use go_exercise.Cache.Memory.Api.{memory_api}
use go_exercise.Cache.Legacy.{legacy_set}
use go_exercise.Pairs.{Unicode}
use go_exercise.Kraken
use go_exercise.Kraken.{Transport, TickerError, trim_slashes}
use go_exercise.Health.{
  Status, healthy, unhealthy, CheckResult, Response, Check, add_check, readiness_check, run_checks,
  worse, read_back, legacy_cache_check, kraken_check,
}
use go_exercise.Health.Readiness.{Status-cases}
use go_exercise.HttpServer.{
  Request, Body, World, Server, new_writer, is_get, finish, add_health_check,
}
use go_exercise.HttpServer.Handlers.{handle_ready, report_ready, write_health, health_status}
use go_exercise.HttpServer.Limits.{sent_code}
use go_exercise.Main.Wiring.{Prices, probe, cache_health, main_server}
use go_exercise.Main.Repeated.{looked_up, kept_until, legacy_get-legacy_set}

unfoldable status_of : {A B : Type 0} → Result A B → Status
status_of (ok b) = healthy
status_of (err e) = unhealthy

kraken_check_status :
    {S F Num : Type 0} (call : List Text → S → S × Result F (Dict Num)) (s : S)
    → (kraken_check (some call) s).1.status ≡ status_of (call (codes "XBTUSD" ∷ []) s).1
unfolding kraken_check status_of
kraken_check_status call s = ground arith

worse_healthy : {F : Type 0} (r : CheckResult F) → worse r healthy ≡ r.status
unfolding worse
worse_healthy r = elim (Status-cases r.status) [
  | inl good ↦ rw (worse, good) refl
  | inr bad ↦ rw (worse, bad) refl
]

-- The status of the readiness by the answer of Kraken.
abbrev pub ready_code : {A B : Type 0} → Result A B → ℕ
ready_code (ok b) = 200
ready_code (err e) = 503

health_status_code : {A B : Type 0} (r : Result A B) → health_status (status_of r) ≡ ready_code r
unfolding health_status status_of
health_status_code (ok b) = refl
health_status_code (err e) = refl

-- Behind a healthy check, the second one decides.
two_checks :
    {S F : Type 0} (first next : Check S F) (s s' : S) (name : Text)
    → first s ≡ (s', record { name = name; status = healthy; error = none })
    → (readiness_check (first ∷ next ∷ []) s).1.status ≡ (next s').1.status
unfolding readiness_check run_checks worse
two_checks first next s s' name h = rw h (worse_healthy (next s').1)

write_health_code :
    {S Num F : Type 0} (s : Server S Num F) (answer : Response F)
    → sent_code (finish (write_health s answer new_writer)).sent
      ≡ some (health_status answer.status)
unfolding write_health finish
write_health_code s answer = ground arith

module _ {fl : Float64} {E : Type 0} (t : Transport fl E) (Other : Type 0) (kraken_url : Text)
    (clock : ℕ → ℕ) (with_timeout : ℤ → t.State → t.State) (cancel : t.State → t.State) where
  open fl use {Num, decimal, same}

  abbrev key : Text
  key = codes "health_check"

  -- The cache after the test of its check.
  abbrev tested : Prices Num Other → Prices Num Other
  tested c = (looked_up clock key (legacy_set (memory_api clock) key (decimal 12345 2) c)).0

  -- The value that the check of the cache sets is read back.
  cache_health-healthy :
      (c : Prices Num Other) (w : t.State)
      → same (decimal 12345 2) (decimal 12345 2) ≡ true
      → clock (c.readings + 2) ≤ kept_until clock c c.readings
      → cache_health t Other kraken_url clock with_timeout cancel (c, w)
        ≡ ((tested c, w), record { name = codes "legacy_cache"; status = healthy; error = none })
  unfolding legacy_cache_check read_back
  cache_health-healthy c w reflexive soon =
      ground (arith, legacy_get-legacy_set clock key (decimal 12345 2) c)

  -- A `GET` request to `/ready` of the server that `main` makes, with the cache in memory, gets 200
  -- exactly if the call of Kraken for one symbol ends without an error, whatever prices it returns,
  -- and 503 if with one. The check of the cache, before that, succeeds, however the cache was: the
  -- price that it sets still lives when it is read, and a number is equal to itself.
  pub handle_ready-main_server :
      (u : Unicode) (z : Num) (given : Server (Prices Num Other × t.State) Num (TickerError E))
      (r : Request) (w : World (Prices Num Other × t.State) (Body Num (TickerError E)))
      → is_get r ≡ true
      → same (decimal 12345 2) (decimal 12345 2) ≡ true
      → clock (w.state.0.readings + 2) ≤ kept_until clock w.state.0 w.state.0.readings
      → let s = main_server t Other kraken_url clock with_timeout cancel u z given in
        let price =
          Kraken.get_ticker_prices t
            (trim_slashes kraken_url)
            (codes "XBTUSD" ∷ [])
            (with_timeout (pos (2 * second)) w.state.1) in
        sent_code (finish (handle_ready s r (record w { response = new_writer })).response).sent
        ≡ some (ready_code price.1)
  unfolding handle_ready report_ready main_server add_health_check add_check
  handle_ready-main_server u z given r w get reflexive soon =
      let s = main_server t Other kraken_url clock with_timeout cancel u z given in
      let call = probe t Other kraken_url clock with_timeout cancel in
      let (c, n) = w.state in
      let cached = cache_health-healthy c n reflexive soon in
      let status =
        two_checks (cache_health t Other kraken_url clock with_timeout cancel)
          (kraken_check (some call)) (c, n) (tested c, n) (codes "legacy_cache") cached
        ∙ kraken_check_status call (tested c, n) in
      rw get (
        write_health_code s (readiness_check s.checks w.state).1
        ∙ ap (λ x. some (health_status x)) status
        ∙ ap some (health_status_code (call (codes "XBTUSD" ∷ []) (tested c, n)).1))
