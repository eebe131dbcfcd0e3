-- ===== src/Examples/Storing.antt =====
-- The cache in Redis and the factory at concrete inputs.
use go_exercise.Base.{
  ℕ, ◌+◌, ◌≡◌, ◌↔◌, refl, ap, Option, none, some, [], ◌∷◌, inl, ltb, arith, if◌then◌else◌,
}
use go_exercise.Base.Int.{ℤ, pos, time_add}
use go_exercise.Base.Text.{Text, codes, text_eq, has_prefix}
use go_exercise.Base.Dict.{Dict, find, put, remove, find-put_self}
use go_exercise.Base.Result.{Result, ok, err}
use go_exercise.Cache.Entry.{CacheEntry, default_cache_config}
use go_exercise.Cache.Memory.{effective_ttl}
use go_exercise.Cache.Redis
use go_exercise.Cache.Redis.{RedisClient, ReadError, redis_nil, Codec, RedisError}
use go_exercise.Cache.Redis.Address.{
  Url, RedisOptions, NewRedisError, parse_redis_url, new_redis_cache,
}
use go_exercise.Cache.Redis.Storing
use go_exercise.Cache.Factory.{load_config, create_cache_from_env}
use go_exercise.Cache.Factory.Creation

-- A Redis that keeps the entries themselves, forgets nothing, and whose clock ticks at each reading.
abbrev Kept : Type 0
Kept = ℕ × Dict (CacheEntry ℕ)

abbrev read : Option (CacheEntry ℕ) → Result (ReadError ℕ) (CacheEntry ℕ)
read none = err redis_nil
read (some e) = ok e

abbrev client : RedisClient (CacheEntry ℕ) ℕ
client = record {
  State = Kept;
  now = λ (t, m). ((t + 1, m), t);
  get = λ k. λ (t, m). ((t, m), read (find k m));
  set = λ k. λ e. λ ttl. λ (t, m). ((t, put k e m), none);
  del = λ k. λ (t, m). ((t, remove k m), none);
  flush_db = λ (t, m). ((t, []), none);
  mget = λ ks. λ s. (s, err 0);
  exec = λ cmds. λ s. (s, some 0);
  expire = λ k. λ ttl. λ s. (s, none);
  ttl = λ k. λ s. (s, err 0);
  keys = λ s. (s, ok []);
  db_size = λ s. (s, ok 0);
  ping = λ s. (s, none);
  close = λ s. (s, none);
}

abbrev codec : Codec ℕ (CacheEntry ℕ) ℕ
codec = record { marshal = ok; unmarshal = ok }

read_found :
    (d : CacheEntry ℕ) (found : Option (CacheEntry ℕ))
    → found ≡ some d
    → Storing.OrMissing d (read found)
read_found d found h = inl (ap read h)

client-IsStore : Storing.IsStore client
client-IsStore = record {
  reads_back = λ k d ttl (t, m) h. read_found d (find k (put k d m)) (find-put_self k d m);
  expire_keeps = λ k ttl s d h. inl h;
}

codec_decodes : (e d : CacheEntry ℕ) → codec.marshal e ≡ ok d → codec.unmarshal d ≡ ok e
codec_decodes e d h = ground arith

abbrev usd : Text
usd = codes "XXBTZUSD"

redis_get-set_example :
    (Redis.get client codec default_cache_config usd
      (Redis.set client codec default_cache_config usd 50 (pos 60) (10, [])).0).1
    ≡ ok (
        if ltb (time_add 10 (effective_ttl default_cache_config (pos 60))) 12
        then none
        else some 50)
unfolding Redis.set find put text_eq
redis_get-set_example =
    Storing.redis_get-set client codec default_cache_config usd 50 (pos 60) (10, [])
      (Storing.stamped client codec default_cache_config 50 (pos 60) (10, []))
      (Storing.stamped client codec default_cache_config 50 (pos 60) (10, [])) client-IsStore
      codec_decodes refl refl refl

abbrev entry : CacheEntry ℕ
entry = record { value = 50; expires_at = 100; created_at = 40 }

-- A lifetime of 500 does not keep an entry that ends at 100.
get-expire_example :
    (Redis.get client codec default_cache_config usd
      (Redis.expire client codec default_cache_config usd (pos 500) (150, (usd, entry) ∷ [])).0).1
    ≡ ok (if ltb 100 150 then none else some 50)
unfolding Redis.expire find text_eq
get-expire_example =
    Storing.get-expire client codec default_cache_config usd (pos 500) (150, (usd, entry) ∷ [])
      entry entry entry client-IsStore refl refl refl

abbrev parse_url : Text → Result ℕ Url
parse_url s = ok (record { host = codes "redis:6379"; password = none; path = codes "/2" })

abbrev cannot_connect : RedisOptions → Option ℕ
cannot_connect opts = some 0

abbrev only_redis : Text → Text
only_redis k = if text_eq k (codes "CACHE_TYPE") then codes "redis" else []

abbrev no_durations : Text → Option ℤ
no_durations s = none

create_fails_iff_example :
    ((e : NewRedisError ℕ) × (create_cache_from_env parse_url cannot_connect no_durations only_redis
        ≡ err e))
    ↔ ((only_redis (codes "CACHE_TYPE") ≡ codes "redis")
        × (e : NewRedisError ℕ) × (new_redis_cache parse_url cannot_connect
              (load_config no_durations only_redis)
            ≡ err e))
create_fails_iff_example =
    Creation.create_fails_iff parse_url cannot_connect no_durations only_redis

-- A number, a truth value and a duration that cannot be read.
abbrev bad_settings : Text → Text
bad_settings k =
    if text_eq k (codes "CACHE_MAX_SIZE")
    then codes "10k"
    else if text_eq k (codes "CACHE_ENABLE_FALLBACK")
    then codes "yes"
    else if text_eq k (codes "CACHE_MAX_TTL")
    then codes "1 day"
    else []

url_runs :
    (parse_redis_url parse_url (codes "localhost:6379") (codes "pw") (pos 1)
      ≡ ok (record { addr = codes "localhost:6379"; password = codes "pw"; db = pos 1 }))
    × (parse_redis_url parse_url (codes "redis://redis:6379/2") (codes "pw") (pos 1)
        ≡ ok (record { addr = codes "redis:6379"; password = codes "pw"; db = pos 2 }))
unfolding parse_redis_url has_prefix
url_runs = (refl, refl)
