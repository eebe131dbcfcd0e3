-- ===== src/Cache/Factory.antt =====
-- internal/cache/factory.go: the configuration from the environment, and which cache is created.
--
-- The environment gives the empty text for a variable that is not set. `time.ParseDuration`, the
-- parser of URLs and the first `Ping` of a Redis client are parameters.
pub mod Defaults
pub mod Creation
use go_exercise.Base.{Bool, true, false, ◌||◌, Option, none, some, List, [], ◌∷◌, if◌then◌else◌}
use go_exercise.Base.Int.{ℤ}
use go_exercise.Base.Text.{Text, codes, text_eq, is_empty}
use go_exercise.Base.Number.{parse_int, parse_bool}
use go_exercise.Base.Result.{Result, ok, err}
use go_exercise.Cache.Entry.{CacheConfig, default_cache_config}
use go_exercise.Cache.Redis.Address.{Url, RedisOptions, NewRedisError, new_redis_cache}

pub data CacheType : Type 0 where
  memory : CacheType
  redis : CacheType
  fallback : CacheType

-- A cache that is created: its kind, with what it is made of.
pub data Created : Type 0 where
  in_memory_cache : CacheConfig → Created
  redis_cache : RedisOptions → CacheConfig → Created
  fallback_cache : RedisOptions → CacheConfig → Created

-- The three values of `CACHE_TYPE` that are taken.
unfoldable pub cache_type_of : Text → Option CacheType
cache_type_of s =
    if text_eq s (codes "memory")
    then some memory
    else if text_eq s (codes "redis")
    then some redis
    else if text_eq s (codes "fallback")
    then some fallback
    else none

unfoldable pub type_from_url : Text → CacheType
type_from_url redis_url =
    if is_empty redis_url || text_eq redis_url (codes "redis://localhost:6379")
    then memory
    else fallback

abbrev pub type_or : CacheType → Option CacheType → CacheType
type_or other none = other
type_or other (some t) = t

-- An empty value is none of the three.
unfoldable pub get_cache_type : (Text → Text) → CacheConfig → CacheType
unfolding cache_type_of type_from_url
get_cache_type env config =
    type_or (type_from_url config.redis_url) (cache_type_of (env (codes "CACHE_TYPE")))

-- A setting that is not empty and can be read.
abbrev pub setting : {A : Type 0} → (Text → Option A) → A → Text → A
setting parse before [] = before
setting parse before (c ∷ s) = elim (parse (c ∷ s)) [ none ↦ before | some a ↦ a ]

abbrev pub any_text : Text → Option Text
any_text s = some s

module _ (parse_duration : Text → Option ℤ) where
  unfoldable pub load_config : (Text → Text) → CacheConfig
  load_config env = record {
    redis_url = setting any_text default_cache_config.redis_url (env (codes "REDIS_URL"));
    redis_password =
        setting any_text default_cache_config.redis_password (env (codes "REDIS_PASSWORD"));
    redis_db = setting parse_int default_cache_config.redis_db (env (codes "REDIS_DB"));
    default_ttl =
        setting parse_duration default_cache_config.default_ttl (env (codes "CACHE_DEFAULT_TTL"));
    max_ttl = setting parse_duration default_cache_config.max_ttl (env (codes "CACHE_MAX_TTL"));
    max_size = setting parse_int default_cache_config.max_size (env (codes "CACHE_MAX_SIZE"));
    eviction_policy =
        setting any_text default_cache_config.eviction_policy (env (codes "CACHE_EVICTION_POLICY"));
    refresh_interval =
        setting parse_duration default_cache_config.refresh_interval
          (env (codes "CACHE_REFRESH_INTERVAL"));
    refresh_workers =
        setting parse_int default_cache_config.refresh_workers
          (env (codes "CACHE_REFRESH_WORKERS"));
    enable_fallback =
        setting parse_bool default_cache_config.enable_fallback
          (env (codes "CACHE_ENABLE_FALLBACK"));
    fallback_ttl =
        setting parse_duration default_cache_config.fallback_ttl (env (codes "CACHE_FALLBACK_TTL"));
  }

module _ {E : Type 0} (parse_url : Text → Result E Url) (ping : RedisOptions → Option E) where
  unfoldable pub create_fallback_cache : CacheConfig → Created
  create_fallback_cache config = elim (new_redis_cache parse_url ping config) [
    | err e ↦ in_memory_cache config
    | ok opts ↦ fallback_cache opts config
  ]

  unfoldable pub create_redis_cache : CacheConfig → Result (NewRedisError E) Created
  create_redis_cache config = elim (new_redis_cache parse_url ping config) [
    | err e ↦ err e
    | ok opts ↦ ok (redis_cache opts config)
  ]

  unfoldable pub create_as : CacheType → CacheConfig → Result (NewRedisError E) Created
  unfolding create_fallback_cache create_redis_cache
  create_as memory config = ok (in_memory_cache config)
  create_as redis config = create_redis_cache config
  create_as fallback config = ok (create_fallback_cache config)

  unfoldable pub create_cache : (Text → Text) → CacheConfig → Result (NewRedisError E) Created
  unfolding get_cache_type create_as
  create_cache env config = create_as (get_cache_type env config) config

  unfoldable pub create_cache_from_env :
      (Text → Option ℤ) → (Text → Text) → Result (NewRedisError E) Created
  unfolding create_cache
  create_cache_from_env parse_duration env = create_cache env (load_config parse_duration env)
