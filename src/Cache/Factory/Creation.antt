-- ===== src/Cache/Factory/Creation.antt =====
-- When no cache can be created.
use go_exercise.Base.{◌≡◌, ◌↔◌, refl, Option, arith, inl, inr}
use go_exercise.Base.Int.{ℤ}
use go_exercise.Base.Text.{Text, codes, text_eq, text_eq_iff}
use go_exercise.Base.Result.{Result, err, Result-cases}
use go_exercise.Cache.Entry.{CacheConfig}
use go_exercise.Cache.Redis.Address.{Url, RedisOptions, NewRedisError, new_redis_cache}
use go_exercise.Cache.Factory.{
  CacheType, memory, redis, fallback, cache_type_of, type_from_url, type_or, get_cache_type,
  load_config, create_redis_cache, create_as, create_cache, create_cache_from_env,
}

-- Redis alone is asked for by its name only.
type-redis :
    (redis_url s : Text)
    → type_or (type_from_url redis_url) (cache_type_of s) ≡ redis
    → s ≡ codes "redis"
unfolding cache_type_of type_from_url
type-redis redis_url s h = ground (
  arith,
  text_eq_iff s (codes "memory"),
  text_eq_iff s (codes "redis"),
  text_eq_iff s (codes "fallback"),
)

redis-type :
    (redis_url s : Text)
    → s ≡ codes "redis"
    → type_or (type_from_url redis_url) (cache_type_of s) ≡ redis
unfolding cache_type_of text_eq
redis-type redis_url s h = rw h refl

module _ {E : Type 0} (parse_url : Text → Result E Url) (ping : RedisOptions → Option E) where
  create_as-redis :
      (t : CacheType) (config : CacheConfig) (e : NewRedisError E)
      → create_as parse_url ping t config ≡ err e
      → (t ≡ redis) × (new_redis_cache parse_url ping config ≡ err e)
  unfolding create_as create_redis_cache
  create_as-redis memory config e h = cc
  create_as-redis fallback config e h = cc
  create_as-redis redis config e h = (
    refl,
    elim (Result-cases (new_redis_cache parse_url ping config)) [
      | inl (opts, good) ↦ absurd (ground arith)
      | inr (e', bad) ↦ ground arith
    ],
  )

  redis-create_as :
      (t : CacheType) (config : CacheConfig) (e : NewRedisError E)
      → t ≡ redis
      → new_redis_cache parse_url ping config ≡ err e
      → create_as parse_url ping t config ≡ err e
  unfolding create_as create_redis_cache
  redis-create_as t config e h bad = rw h (rw (create_redis_cache, bad) refl)

  -- `CreateCacheFromEnv` fails exactly when `CACHE_TYPE` asks for Redis alone and the Redis cache
  -- cannot be made, by its URL or by its `Ping`: with any other value Redis is not needed.
  pub create_fails_iff :
      (parse_duration : Text → Option ℤ) (env : Text → Text)
      → ((e : NewRedisError E) × (create_cache_from_env parse_url ping parse_duration env ≡ err e))
        ↔ ((env (codes "CACHE_TYPE") ≡ codes "redis")
            × (e : NewRedisError E) × (new_redis_cache parse_url ping
                  (load_config parse_duration env)
                ≡ err e))
  unfolding create_cache_from_env create_cache get_cache_type
  create_fails_iff parse_duration env =
      let config = load_config parse_duration env in
      let asked = env (codes "CACHE_TYPE") in
      let t = type_or (type_from_url config.redis_url) (cache_type_of asked) in
      (
        λ (e, h).
            let (is_redis, bad) = create_as-redis t config e h in
            (type-redis config.redis_url asked is_redis, e, bad),
        λ (given, e, bad).
            (e, redis-create_as t config e (redis-type config.redis_url asked given) bad),
      )
