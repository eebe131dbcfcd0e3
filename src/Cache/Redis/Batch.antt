-- ===== src/Cache/Redis/Batch.antt =====
-- The methods of `RedisCache` that walk over keys: `GetMultiple`, `SetMultiple`, `EvictExpired`.
use go_exercise.Base.{ℕ, Bool, true, Option, none, some, List, [], ◌∷◌, ◌++◌, if◌then◌else◌, length}
use go_exercise.Base.Int.{ℤ}
use go_exercise.Base.Text.{Text}
use go_exercise.Base.Dict.{Dict, put}
use go_exercise.Base.Result.{Result, ok, err}
use go_exercise.Cache.Entry.{CacheEntry, CacheConfig, is_expired}
use go_exercise.Cache.Redis.{
  RedisClient, Codec, RedisError, client_failed, marshal_key_failed, Command, set_command,
  del_command, client_error, get_with_metadata, stamp, ttl,
}

module _ {V Data E : Type 0} (c : RedisClient Data E) (codec : Codec V Data E)
    (config : CacheConfig) where
  open c use {State}
  open codec use {marshal, unmarshal}

  unfoldable pub add_live : Text → CacheEntry V → ℕ → Dict V → Dict V
  add_live key entry now result =
      if is_expired entry now then result else put key entry.value result

  -- The loop over the values; the client gives one for each key.
  unfoldable pub collect_values : List Text → List (Option Data) → Dict V → State → State × Dict V
  unfolding add_live
  collect_values [] vals result s = (s, result)
  collect_values (key ∷ keys) [] result s = (s, result)
  collect_values (key ∷ keys) (none ∷ vals) result s = collect_values keys vals result s
  collect_values (key ∷ keys) (some val ∷ vals) result s = elim (unmarshal val) [
    | err e ↦ collect_values keys vals result s
    | ok entry ↦
        let (s', now) = c.now s in collect_values keys vals (add_live key entry now result) s'
  ]

  unfoldable pub get_multiple : List Text → State → State × Result (RedisError E) (Dict V)
  get_multiple [] s = (s, ok [])
  get_multiple (key ∷ keys) s =
      let (s', answer) = c.mget (key ∷ keys) s in
      elim answer [
        | err e ↦ (s', err (client_failed e))
        | ok vals ↦ let (s'', result) = collect_values (key ∷ keys) vals [] s' in (s'', ok result)
      ]

  -- The loop that fills the pipeline.
  unfoldable pub fill_pipeline :
      ℤ → Dict V → List (Command Data) → State → State × Result (RedisError E) (List (Command Data))
  unfolding stamp
  fill_pipeline ttl [] pipe s = (s, ok pipe)
  fill_pipeline ttl ((key, value) ∷ items) pipe s =
      let (s', entry) = stamp c codec config value ttl s in
      elim (marshal entry) [
        | err e ↦ (s', err (marshal_key_failed key e))
        | ok val ↦ fill_pipeline ttl items (pipe ++ set_command key val ttl ∷ []) s'
      ]

  unfoldable pub set_multiple : Dict V → ℤ → State → State × Option (RedisError E)
  set_multiple [] ttl s = (s, none)
  set_multiple (item ∷ items) ttl s =
      let (s', filled) = fill_pipeline ttl (item ∷ items) [] s in
      elim filled [
        | err e ↦ (s', some e)
        | ok pipe ↦ let (s'', e) = c.exec pipe s' in (s'', client_error e)
      ]

  -- `!exists || entry.IsExpired()`, for a key that was read without an error.
  unfoldable pub is_gone : Option (CacheEntry V) → State → State × Bool
  is_gone none s = (s, true)
  is_gone (some entry) s = let (s', now) = c.now s in (s', is_expired entry now)

  -- The loop over all keys, with the pipeline of deletions.
  unfoldable pub scan_expired : List Text → List Text → State → State × List Text
  unfolding is_gone
  scan_expired [] gone s = (s, gone)
  scan_expired (key ∷ keys) gone s =
      let (s', found) = get_with_metadata c codec config key s in
      elim found [
        | err e ↦ scan_expired keys gone s'
        | ok entry ↦
            let (s'', expired) = is_gone entry s' in
            scan_expired keys (if expired then gone ++ key ∷ [] else gone) s''
      ]

  abbrev pub deletions : List Text → List (Command Data)
  deletions [] = []
  deletions (key ∷ keys) = del_command key ∷ deletions keys

  abbrev pub count_or : ℕ → Option E → Result (RedisError E) ℕ
  count_or count none = ok count
  count_or count (some e) = err (client_failed e)

  delete_gone : List Text → State → State × Result (RedisError E) ℕ
  delete_gone [] s = (s, ok 0)
  delete_gone (key ∷ gone) s =
      let (s', e) = c.exec (deletions (key ∷ gone)) s in (s', count_or (length (key ∷ gone)) e)

  -- The count that comes with an error is dropped.
  unfoldable pub evict_expired : State → State × Result (RedisError E) ℕ
  unfolding delete_gone
  evict_expired s =
      let (s', answer) = c.keys s in
      elim answer [
        | err e ↦ (s', err (client_failed e))
        | ok keys ↦ let (s'', gone) = scan_expired keys [] s' in delete_gone gone s''
      ]
