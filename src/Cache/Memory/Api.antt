-- ===== src/Cache/Memory/Api.antt =====
-- `InMemoryCache` as a `Cache`: the methods over a clock that they read themselves.
use go_exercise.Base.{ℕ, suc, ◌+◌, Option, none, List, [], ◌∷◌, if◌then◌else◌, length}
use go_exercise.Base.Int.{ℤ}
use go_exercise.Base.Text.{Text, text_eq}
use go_exercise.Base.Dict.{Dict}
use go_exercise.Base.Result.{Result, ok}
use go_exercise.Cache.Memory
use go_exercise.Cache.Memory.{InMemoryCache, TtlError}
use go_exercise.Cache.Memory.Batch
use go_exercise.Cache.Memory.Batch.{Item}
use go_exercise.Cache.Fallback.{CacheApi}

-- The cache, and how often the clock was read: `clock n` is what its n-th reading gives. A method
-- leaves out a reading that it does not make.
pub record Clocked (V : Type 0) : Type 0 where
  pub cache : InMemoryCache V
  pub readings : ℕ

-- The place of a key, and of the reading for its test by `EvictExpired`.
unfoldable pub place : {A : Type 0} → Text → Dict A → ℕ
place key [] = 0
place key ((k, a) ∷ m) = let rest = place key m in if text_eq k key then 0 else suc rest

module _ (clock : ℕ → ℕ) where
  -- Each key with a reading for its test.
  unfoldable pub timed_keys : ℕ → List Text → List (Text × ℕ)
  timed_keys n [] = []
  timed_keys n (key ∷ keys) = (key, clock n) ∷ timed_keys (suc n) keys

module _ {V : Type 0} (clock : ℕ → ℕ) where
  -- The cache after a method that read the clock `n` times.
  abbrev pub after : ℕ → InMemoryCache V → Clocked V → Clocked V
  after n m s = record { cache = m; readings = s.readings + n }

  unfoldable pub timed_items : ℕ → Dict V → List (Item V)
  timed_items n [] = []
  timed_items n ((key, value) ∷ items) =
      record { key = key; value = value; now = clock n; created = clock (suc n) }
      ∷ timed_items (suc (suc n)) items

  unfoldable pub api_get : Text → Clocked V → Clocked V × Result TtlError (Option V)
  unfolding Memory.get
  api_get key s =
      let (m, found) = Memory.get s.cache key (clock s.readings) in (after 1 m s, ok found)

  unfoldable pub api_set : Text → V → ℤ → Clocked V → Clocked V × Option TtlError
  unfolding Memory.set
  api_set key value ttl s = (
    after 2 (Memory.set s.cache key value ttl (clock s.readings) (clock (suc s.readings))) s,
    none,
  )

  unfoldable pub api_evict_expired : Clocked V → Clocked V × Result TtlError ℕ
  unfolding Batch.evict_expired place
  api_evict_expired s =
      let entries = s.cache.entries in
      let (m, count) =
        Batch.evict_expired s.cache (λ key. clock (s.readings + place key entries)) in
      (after (length entries) m s, ok count)

  abbrev pub memory_api : CacheApi V TtlError
  memory_api = record {
    State = Clocked V;
    get = api_get;
    set = api_set;
    delete = λ key. λ s. (after 0 (Memory.delete s.cache key) s, none);
    clear = λ s. (after 0 (Memory.clear s.cache) s, none);
    get_multiple = λ keys. λ s. (
      after (length keys) s.cache s,
      ok (Batch.get_multiple s.cache (timed_keys clock s.readings keys)),
    );
    set_multiple = λ items. λ ttl. λ s. (
      after (length items + length items)
          (Batch.set_multiple s.cache (timed_items s.readings items) ttl) s,
      none,
    );
    get_with_metadata = λ key. λ s.
        let (m, found) = Memory.get_with_metadata s.cache key (clock s.readings) in
        (after 1 m s, ok found);
    set_with_metadata =
        λ key. λ entry. λ s. (after 0 (Memory.set_with_metadata s.cache key entry) s, none);
    expire =
        λ key. λ ttl. λ s. (after 1 (Memory.expire s.cache key ttl (clock s.readings)) s, none);
    ttl = λ key. λ s.
        (after 2 s.cache s, Memory.ttl s.cache key (clock s.readings) (clock (suc s.readings)));
    evict_expired = api_evict_expired;
    size = λ s. (s, ok (Memory.size s.cache));
    ping = λ s. (s, none);
    close = λ s. (s, none);
  }
