-- ===== src/Cache/Redis/Api.antt =====
-- `RedisCache` as a `Cache`.
use go_exercise.Cache.Entry.{CacheConfig}
use go_exercise.Cache.Fallback.{CacheApi}
use go_exercise.Cache.Redis.{
  RedisClient, Codec, RedisError, get_with_metadata, get, set, delete, clear, set_with_metadata,
  expire, ttl, size, ping, close,
}
use go_exercise.Cache.Redis.Batch.{get_multiple, set_multiple, evict_expired}

module _ {V Data E : Type 0} (c : RedisClient Data E) (codec : Codec V Data E)
    (config : CacheConfig) where
  open c use {State}
  open codec use {marshal, unmarshal}

  abbrev pub redis_api : CacheApi V (RedisError E)
  redis_api = record {
    State = State;
    get = get c codec config;
    set = set c codec config;
    delete = delete c codec config;
    clear = clear c codec config;
    get_multiple = get_multiple c codec config;
    set_multiple = set_multiple c codec config;
    get_with_metadata = get_with_metadata c codec config;
    set_with_metadata = set_with_metadata c codec config;
    expire = expire c codec config;
    ttl = ttl c codec config;
    evict_expired = evict_expired c codec config;
    size = size c codec config;
    ping = ping c codec config;
    close = close c codec config;
  }
