-- ===== src/Cache/Redis/Address.antt =====
-- `NewRedisCache` and `parseRedisURL`; `url.Parse` is a parameter.
use go_exercise.Base.{Bool, ◌||◌, Option, none, some, [], ◌∷◌, ◌==◌, if◌then◌else◌}
use go_exercise.Base.Int.{ℤ}
use go_exercise.Base.Text.{Text, codes, has_prefix, is_empty}
use go_exercise.Base.Number.{parse_int}
use go_exercise.Base.Result.{Result, ok, err}
use go_exercise.Cache.Entry.{CacheConfig}

-- `redis.Options`, as far as they are set.
pub record RedisOptions : Type 0 where
  pub addr : Text
  pub password : Text
  pub db : ℤ

-- What is read of a URL; the password is that of `u.User`, if both are there.
pub record Url : Type 0 where
  pub host : Text
  pub password : Option Text
  pub path : Text

pub data RedisUrlError (E : Type 0) : Type 0 where
  invalid_url : E → RedisUrlError E  -- invalid Redis URL: %w
  missing_host : RedisUrlError E  -- missing host in Redis URL

pub data NewRedisError (E : Type 0) : Type 0 where
  failed_to_parse : RedisUrlError E → NewRedisError E
  failed_to_connect : E → NewRedisError E

-- `strings.Contains`
unfoldable pub has_text : Text → Text → Bool
has_text part [] = has_prefix [] part
has_text part (c ∷ s) = has_prefix (c ∷ s) part || has_text part s

unfoldable pub choose_password : Text → Option Text → Text
choose_password default_password none = default_password
choose_password default_password (some []) = default_password
choose_password default_password (some (c ∷ pass)) = c ∷ pass

abbrev pub or_int : ℤ → Option ℤ → ℤ
or_int default_value none = default_value
or_int default_value (some n) = n

-- `strings.TrimPrefix(s, "/")`
abbrev pub trim_slash : Text → Text
trim_slash [] = []
trim_slash (c ∷ s) = if c == b'/' then s else c ∷ s

unfoldable pub choose_db : ℤ → Text → ℤ
unfolding parse_int
choose_db default_db path =
    if is_empty (trim_slash path)
    then default_db
    else or_int default_db (parse_int (trim_slash path))

unfoldable pub options_of : {E : Type 0} → Text → ℤ → Url → Result (RedisUrlError E) RedisOptions
unfolding choose_password choose_db
options_of default_password default_db u =
    if is_empty u.host
    then err missing_host
    else ok (record {
      addr = u.host;
      password = choose_password default_password u.password;
      db = choose_db default_db u.path;
    })

module _ {E : Type 0} (parse_url : Text → Result E Url) where
  unfoldable pub parse_redis_url : Text → Text → ℤ → Result (RedisUrlError E) RedisOptions
  unfolding has_text options_of
  parse_redis_url redis_url default_password default_db =
      if has_text (codes "://") redis_url
      then elim (parse_url redis_url) [
        | err e ↦ err (invalid_url e)
        | ok u ↦ options_of default_password default_db u
      ]
      else ok (record { addr = redis_url; password = default_password; db = default_db })

  -- `ping` is the error of `Ping` by a client with the options, within five seconds.
  unfoldable pub new_redis_cache :
      (RedisOptions → Option E) → CacheConfig → Result (NewRedisError E) RedisOptions
  unfolding parse_redis_url
  new_redis_cache ping config =
      elim (parse_redis_url config.redis_url config.redis_password config.redis_db) [
        | err e ↦ err (failed_to_parse e)
        | ok opts ↦ elim (ping opts) [ some e ↦ err (failed_to_connect e) | none ↦ ok opts ]
      ]
