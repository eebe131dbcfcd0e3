-- ===== src/Cache/Redis.antt =====
-- internal/cache/redis.go: `RedisCache`, over a client of Redis and a codec of JSON.
--
-- The client is github.com/redis/go-redis, and a record of functions on a state here, which the
-- clock belongs to. The codec is that of encoding/json for the values that the cache holds.
pub mod Address
pub mod Storing
pub mod Batch
pub mod Api
use go_exercise.Base.{
  ℕ, suc, ◌+◌, Bool, true, false, Option, none, some, List, [], ◌∷◌, ◌++◌, if◌then◌else◌, length,
}
use go_exercise.Base.Int.{ℤ, pos, leb_ℤ, time_add}
use go_exercise.Base.Text.{Text}
use go_exercise.Base.Dict.{Dict, put}
use go_exercise.Base.Result.{Result, ok, err}
use go_exercise.Cache.Entry.{CacheEntry, CacheConfig, is_expired, entry_ttl}
use go_exercise.Cache.Memory.{effective_ttl, value_of}
use go_exercise.Cache.Fallback.{CacheApi}

-- A failed read: `redis.Nil`, or another error.
pub data ReadError (E : Type 0) : Type 0 where
  redis_nil : ReadError E
  read_failed : E → ReadError E

-- A command in a pipeline.
pub data Command (Data : Type 0) : Type 0 where
  set_command : Text → Data → ℤ → Command Data
  del_command : Text → Command Data

pub record RedisClient (Data E : Type 0) : Type 1 where
  pub State : Type 0
  pub now : State → State × ℕ  -- time.Now
  pub get : Text → State → State × Result (ReadError E) Data
  pub set : Text → Data → ℤ → State → State × Option E
  pub del : Text → State → State × Option E
  pub flush_db : State → State × Option E
  pub mget : List Text → State → State × Result E (List (Option Data))
  pub exec : List (Command Data) → State → State × Option E
  pub expire : Text → ℤ → State → State × Option E
  pub ttl : Text → State → State × Result E ℤ
  pub keys : State → State × Result E (List Text)  -- KEYS *
  pub db_size : State → State × Result E ℕ
  pub ping : State → State × Option E
  pub close : State → State × Option E

pub record Codec (V Data E : Type 0) : Type 0 where
  pub marshal : CacheEntry V → Result E Data
  pub unmarshal : Data → Result E (CacheEntry V)

pub data RedisError (E : Type 0) : Type 0 where
  client_failed : E → RedisError E
  marshal_failed : E → RedisError E  -- failed to marshal cache entry: %w
  marshal_key_failed : Text → E → RedisError E  -- failed to marshal cache entry for key %s: %w
  unmarshal_failed : E → RedisError E  -- failed to unmarshal cache entry: %w

abbrev pub client_error : {E : Type 0} → Option E → Option (RedisError E)
client_error none = none
client_error (some e) = some (client_failed e)

abbrev pub client_result : {E A : Type 0} → Result E A → Result (RedisError E) A
client_result (ok a) = ok a
client_result (err e) = err (client_failed e)

module _ {V Data E : Type 0} (c : RedisClient Data E) (codec : Codec V Data E)
    (config : CacheConfig) where
  open c use {State}
  open codec use {marshal, unmarshal}

  -- An entry that has expired is deleted, and the error of that is dropped.
  unfoldable pub keep_live :
      Text → CacheEntry V → State → State × Result (RedisError E) (Option (CacheEntry V))
  keep_live key entry s =
      let (s', now) = c.now s in
      if is_expired entry now then ((c.del key s').0, ok none) else (s', ok (some entry))

  unfoldable pub read_entry :
      Text
      → Result (ReadError E) Data
      → State
      → State × Result (RedisError E) (Option (CacheEntry V))
  unfolding keep_live
  read_entry key (err redis_nil) s = (s, ok none)
  read_entry key (err (read_failed e)) s = (s, err (client_failed e))
  read_entry key (ok val) s = elim (unmarshal val) [
    | err e ↦ (s, err (unmarshal_failed e))
    | ok entry ↦ keep_live key entry s
  ]

  unfoldable pub get_with_metadata :
      Text → State → State × Result (RedisError E) (Option (CacheEntry V))
  unfolding read_entry
  get_with_metadata key s = let (s', answer) = c.get key s in read_entry key answer s'

  abbrev pub entry_value :
      Result (RedisError E) (Option (CacheEntry V)) → Result (RedisError E) (Option V)
  entry_value (err e) = err e
  entry_value (ok found) = ok (value_of found)

  -- `Get` is `GetWithMetadata`, line by line, but for the value that it returns.
  unfoldable pub get : Text → State → State × Result (RedisError E) (Option V)
  unfolding get_with_metadata
  get key s = let (s', found) = get_with_metadata key s in (s', entry_value found)

  -- The entry of a value with a lifetime, by two readings of the clock.
  unfoldable pub stamp : V → ℤ → State → State × CacheEntry V
  stamp value ttl s =
      let (s', now) = c.now s in
      let (s'', created) = c.now s' in
      (s'', record { value = value; expires_at = time_add now ttl; created_at = created })

  unfoldable pub set : Text → V → ℤ → State → State × Option (RedisError E)
  unfolding stamp
  set key value ttl s =
      let lifetime = effective_ttl config ttl in
      let (s', entry) = stamp value lifetime s in
      elim (marshal entry) [
        | err e ↦ (s', some (marshal_failed e))
        | ok val ↦ let (s'', e) = c.set key val lifetime s' in (s'', client_error e)
      ]

  unfoldable pub delete : Text → State → State × Option (RedisError E)
  delete key s = let (s', e) = c.del key s in (s', client_error e)

  unfoldable pub clear : State → State × Option (RedisError E)
  clear s = let (s', e) = c.flush_db s in (s', client_error e)

  unfoldable pub set_with_metadata : Text → CacheEntry V → State → State × Option (RedisError E)
  set_with_metadata key entry s = elim (marshal entry) [
    | err e ↦ (s, some (marshal_failed e))
    | ok val ↦
        let (s', now) = c.now s in
        let left = entry_ttl entry now in
        let (s'', e) = c.set key val (if leb_ℤ left (pos 0) then config.default_ttl else left) s' in
        (s'', client_error e)
  ]

  unfoldable pub expire : Text → ℤ → State → State × Option (RedisError E)
  expire key ttl s = let (s', e) = c.expire key ttl s in (s', client_error e)

  unfoldable pub ttl : Text → State → State × Result (RedisError E) ℤ
  ttl key s = let (s', left) = c.ttl key s in (s', client_result left)

  unfoldable pub size : State → State × Result (RedisError E) ℕ
  size s = let (s', n) = c.db_size s in (s', client_result n)

  unfoldable pub ping : State → State × Option (RedisError E)
  ping s = let (s', e) = c.ping s in (s', client_error e)

  unfoldable pub close : State → State × Option (RedisError E)
  close s = let (s', e) = c.close s in (s', client_error e)
