-- ===== src/Main.antt =====
-- cmd/server/main.go: the settings that it reads, and the function that the background refresh calls;
-- Lifecycle has the run from the creation of the cache to the end.
pub mod Wiring
pub mod Repeated
pub mod Ready
pub mod Origin
pub mod Lifecycle
use go_exercise.Base.{◌*◌, ◌≡◌, false, Option, none, some, List, [], ◌∷◌, if◌then◌else◌, arith}
use go_exercise.Base.Int.{ℤ, pos, second}
use go_exercise.Base.Text.{Text, codes, is_empty, has}
use go_exercise.Base.Result.{Result, ok, err}
use go_exercise.Cache.Entry.{CacheConfig}
use go_exercise.Pairs.{
  Unicode, to_upper, trim_space, check_pair, normalize_user_pair, expected_base_quote,
}
use go_exercise.Ltp.{Backend, Quote, LtpError, handler_error, bad_pair, normalize_all, get_ltp}

abbrev pub or_default : {A : Type 0} → A → Option A → A
or_default before none = before
or_default before (some a) = a

-- `getenv`: an empty variable counts as absent.
unfoldable pub get_env : (Text → Text) → Text → Text → Text
get_env env key default_value = if is_empty (env key) then default_value else env key

-- `getDuration`
unfoldable pub get_duration : (Text → Option ℤ) → (Text → Text) → Text → ℤ → ℤ
get_duration parse_duration env key default_value =
    if is_empty (env key)
    then default_value
    else or_default default_value (parse_duration (env key))

-- What `main` reads of the environment itself.
pub record Settings : Type 0 where
  pub addr : Text
  pub kraken_url : Text
  pub timeout : ℤ

unfoldable pub read_settings : (Text → Option ℤ) → (Text → Text) → Settings
unfolding get_env get_duration
read_settings parse_duration env = record {
  addr = get_env env (codes "HTTP_ADDR") (codes ":8080");
  kraken_url = get_env env (codes "KRAKEN_URL") (codes "https://api.kraken.com");
  timeout = get_duration parse_duration env (codes "HTTP_TIMEOUT") (pos (3 * second));
}

pub data RefreshError (E : Type 0) : Type 0 where
  ltp_failed : LtpError E → RefreshError E
  no_quotes : Text → RefreshError E  -- no quotes returned for key: %s

module _ (u : Unicode) {Num E : Type 0} (b : Backend Num E) (cache_config : CacheConfig) where
  open b use {State}

  unfoldable pub refreshed :
      Text → Result (LtpError E) (List (Quote Num)) → Result (RefreshError E) (Num × ℤ)
  refreshed key (err e) = err (ltp_failed e)
  refreshed key (ok []) = err (no_quotes key)
  refreshed key (ok (q ∷ quotes)) = ok (q.amount, cache_config.default_ttl)

  unfoldable pub refresh_func : Num → Text → State → State × Result (RefreshError E) (Num × ℤ)
  unfolding refreshed
  refresh_func z key s = let (s', answer) = get_ltp u b z (key ∷ []) s in (s', refreshed key answer)

  -- The refresh of a key that has no slash, after it is trimmed and in upper case, fails with the
  -- error 400 of `NormalizeUserPair`, and leaves the state behind the cache and the API as it is.
  pub refresh_no_slash :
      (z : Num) (key : Text) (s : State)
      → has 47 (trim_space u (to_upper u key)) ≡ false
      → refresh_func z key s ≡ (
        s,
        err (
            ltp_failed
              (handler_error 400 (bad_pair (expected_base_quote (trim_space u (to_upper u key)))))),
      )
  unfolding refresh_func get_ltp normalize_all normalize_user_pair check_pair
  refresh_no_slash z key s h = ground arith
