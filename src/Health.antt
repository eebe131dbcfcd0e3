-- ===== src/Health.antt =====
-- internal/health: the checker and its checks.
--
-- A check is a function on the state of what it looks at. The text of an error is a value.
pub mod Readiness
use go_exercise.Base.{Bool, true, false, Option, none, some, List, [], ◌∷◌, ◌++◌, if◌then◌else◌}
use go_exercise.Base.Text.{Text, codes}
use go_exercise.Base.Dict.{Dict}
use go_exercise.Base.Float64.{Float64}
use go_exercise.Base.Result.{Result, ok, err}

pub data Status : Type 0 where
  healthy : Status
  unhealthy : Status

pub data CheckError (E : Type 0) : Type 0 where
  cache_is_nil : CheckError E
  kraken_client_is_nil : CheckError E
  read_write_failed : CheckError E  -- cache read/write test failed
  kraken_failed : E → CheckError E  -- kraken API health check failed: + err.Error()

pub record CheckResult (E : Type 0) : Type 0 where
  pub name : Text
  pub status : Status
  pub error : Option (CheckError E)

pub record Response (E : Type 0) : Type 0 where
  pub status : Status
  pub checks : List (CheckResult E)

abbrev pub Check : Type 0 → Type 0 → Type 0
Check S E = S → S × CheckResult E

unfoldable pub add_check : {S E : Type 0} → List (Check S E) → Check S E → List (Check S E)
add_check checks check = checks ++ check ∷ []

unfoldable pub health_check : {S E : Type 0} → List (Check S E) → Response E
health_check checks = record { status = healthy; checks = [] }

unfoldable pub worse : {E : Type 0} → CheckResult E → Status → Status
worse result overall = elim result.status [ unhealthy ↦ unhealthy | healthy ↦ overall ]

-- The loop over the checks, with the results and the status so far.
unfoldable pub run_checks : {S E : Type 0} → List (Check S E) → Response E → S → S × Response E
unfolding worse
run_checks [] sofar s = (s, sofar)
run_checks (check ∷ checks) sofar s =
    let (s', result) = check s in
    run_checks checks
      (record { status = worse result sofar.status; checks = sofar.checks ++ result ∷ [] }) s'

unfoldable pub readiness_check : {S E : Type 0} → List (Check S E) → S → S × Response E
unfolding run_checks
readiness_check [] s = (s, record { status = healthy; checks = [] })
readiness_check (check ∷ checks) s =
    run_checks (check ∷ checks) (record { status = healthy; checks = [] }) s

-- `CacheCheck.Check`: `present` is whether the cache is not nil.
unfoldable pub cache_check : {S E : Type 0} → Bool → Check S E
cache_check false s =
    (s, record { name = codes "cache"; status = unhealthy; error = some cache_is_nil })
cache_check true s = (s, record { name = codes "cache"; status = healthy; error = none })

-- `KrakenCheck.Check`, over the client's method under the deadline of two
-- seconds, if there is a client.
unfoldable pub kraken_check :
    {S E Num : Type 0} → Option (List Text → S → S × Result E (Dict Num)) → Check S E
kraken_check none s =
    (s, record { name = codes "kraken_api"; status = unhealthy; error = some kraken_client_is_nil })
kraken_check (some get_ticker_prices) s =
    let (s', answer) = get_ticker_prices (codes "XBTUSD" ∷ []) s in
    elim answer [
      | err e ↦ (
        s',
        record { name = codes "kraken_api"; status = unhealthy; error = some (kraken_failed e) },
      )
      | ok prices ↦ (s', record { name = codes "kraken_api"; status = healthy; error = none })
    ]

-- legacy_cache_check.go: `LegacyCacheCheck.Check`, over `Get` and `Set` of the cache, if it is there.
module _ (fl : Float64) where
  open fl use {Num, decimal, same}

  unfoldable pub read_back : {E : Type 0} → Num → Option Num → Option (CheckError E)
  read_back test_value none = some read_write_failed
  read_back test_value (some value) = if same value test_value then none else some read_write_failed

  unfoldable pub legacy_cache_check :
      {S E : Type 0} → Option ((Text → S → S × Option Num) × (Text → Num → S → S)) → Check S E
  unfolding read_back
  legacy_cache_check none s =
      (s, record { name = codes "legacy_cache"; status = unhealthy; error = some cache_is_nil })
  legacy_cache_check (some (get, set)) s =
      let test_value = decimal 12345 2 in
      let (s', value) = get (codes "health_check") (set (codes "health_check") test_value s) in
      elim (read_back test_value value) [
        | none ↦ (s', record { name = codes "legacy_cache"; status = healthy; error = none })
        | some e ↦ (s', record { name = codes "legacy_cache"; status = unhealthy; error = some e })
      ]
