-- ===== src/Cache/Fallback/Simulation.antt =====
-- A `FallbackCache` whose primary cache is down, beside the cache in memory alone.
use go_exercise.Base.{ℕ, ◌≡◌, refl, ap, sym, Option, List, [], ◌∷◌, arith}
use go_exercise.Base.Int.{ℤ}
use go_exercise.Base.Text.{Text}
use go_exercise.Base.Dict.{Dict}
use go_exercise.Base.Result.{Result, err}
use go_exercise.Cache.Entry.{CacheEntry}
use go_exercise.Cache.Memory
use go_exercise.Cache.Memory.{InMemoryCache, TtlError}
use go_exercise.Cache.Memory.Batch
use go_exercise.Cache.Memory.Batch.{Item}
use go_exercise.Cache.Fallback
use go_exercise.Cache.Fallback.{
  CacheApi, FallbackCache, names, set_fallback, read_fallback, read_fallback_entry,
}

-- A call of a method, with the readings of the clock that it makes.
pub data Operation (V : Type 0) : Type 0 where
  get : Text → ℕ → ℕ → Operation V
  set : Text → V → ℤ → ℕ → ℕ → Operation V
  delete : Text → Operation V
  clear : Operation V
  get_multiple : List (Text × ℕ) → Operation V
  set_multiple : List (Item V) → ℤ → Operation V
  get_with_metadata : Text → ℕ → Operation V
  set_with_metadata : Text → CacheEntry V → Operation V
  expire : Text → ℤ → ℕ → Operation V
  ttl : Text → ℕ → ℕ → Operation V
  evict_expired : (Text → ℕ) → Operation V
  size : Operation V

-- What a call returns.
pub data Answer (V : Type 0) : Type 0 where
  done : Answer V
  found : Option V → Answer V
  values : Dict V → Answer V
  found_entry : Option (CacheEntry V) → Answer V
  left : Result TtlError ℤ → Answer V
  count : ℕ → Answer V

module _ {V : Type 0} where
  -- The cache in memory, where each lifetime is `fallback_ttl`.
  unfoldable pub memory_step : ℤ → InMemoryCache V → Operation V → InMemoryCache V × Answer V
  memory_step t m (get key now created) = let (m', v) = Memory.get m key now in (m', found v)
  memory_step t m (set key v d now created) = (Memory.set m key v t now created, done)
  memory_step t m (delete key) = (Memory.delete m key, done)
  memory_step t m clear = (Memory.clear m, done)
  memory_step t m (get_multiple keys) = (m, values (Batch.get_multiple m keys))
  memory_step t m (set_multiple items d) = (Batch.set_multiple m items t, done)
  memory_step t m (get_with_metadata key now) =
      let (m', e) = Memory.get_with_metadata m key now in (m', found_entry e)
  memory_step t m (set_with_metadata key e) = (Memory.set_with_metadata m key e, done)
  memory_step t m (expire key d now) = (Memory.expire m key t now, done)
  memory_step t m (ttl key now now') = (m, left (Memory.ttl m key now now'))
  memory_step t m (evict_expired clock) = let (m', n) = Batch.evict_expired m clock in (m', count n)
  memory_step t m size = (m, count (Memory.size m))

  unfoldable pub memory_run :
      ℤ → InMemoryCache V → List (Operation V) → InMemoryCache V × List (Answer V)
  memory_run t m [] = (m, [])
  memory_run t m (op ∷ ops) =
      let (m', a) = memory_step t m op in
      let (m'', answers) = memory_run t m' ops in (m'', a ∷ answers)

-- The primary cache fails at every read. What it does at writes does not matter.
pub record IsDown {V E : Type 0} (P : CacheApi V E) : Type 0 where
  pub get_fails : (key : Text) (s : P.State) → (e : E) × ((P.get key s).1 ≡ err e)
  pub get_multiple_fails :
      (keys : List Text) (s : P.State) → (e : E) × ((P.get_multiple keys s).1 ≡ err e)
  pub get_with_metadata_fails :
      (key : Text) (s : P.State) → (e : E) × ((P.get_with_metadata key s).1 ≡ err e)
  pub ttl_fails : (key : Text) (s : P.State) → (e : E) × ((P.ttl key s).1 ≡ err e)
  pub evict_expired_fails : (s : P.State) → (e : E) × ((P.evict_expired s).1 ≡ err e)
  pub size_fails : (s : P.State) → (e : E) × ((P.size s).1 ≡ err e)

module _ {V E : Type 0} {P : CacheApi V E} where
  unfoldable pub fallback_step : FallbackCache P → Operation V → FallbackCache P × Answer V
  fallback_step f (get key now created) =
      let (f', v) = Fallback.get f key now created in (f', found v)
  fallback_step f (set key v d now created) = (Fallback.set f key v d now created, done)
  fallback_step f (delete key) = (Fallback.delete f key, done)
  fallback_step f clear = (Fallback.clear f, done)
  fallback_step f (get_multiple keys) =
      let (f', result) = Fallback.get_multiple f keys in (f', values result)
  fallback_step f (set_multiple items d) = (Fallback.set_multiple f items d, done)
  fallback_step f (get_with_metadata key now) =
      let (f', e) = Fallback.get_with_metadata f key now in (f', found_entry e)
  fallback_step f (set_with_metadata key e) = (Fallback.set_with_metadata f key e, done)
  fallback_step f (expire key d now) = (Fallback.expire f key d now, done)
  fallback_step f (ttl key now now') = let (f', d) = Fallback.ttl f key now now' in (f', left d)
  fallback_step f (evict_expired clock) =
      let (f', n) = Fallback.evict_expired f clock in (f', count n)
  fallback_step f size = let (f', n) = Fallback.size f in (f', count n)

  unfoldable pub fallback_run :
      FallbackCache P → List (Operation V) → FallbackCache P × List (Answer V)
  fallback_run f [] = (f, [])
  fallback_run f (op ∷ ops) =
      let (f', a) = fallback_step f op in
      let (f'', answers) = fallback_run f' ops in (f'', a ∷ answers)

  -- After a step, the fallback and the answer are those of the cache in memory.
  abbrev Agrees : FallbackCache P → Operation V → Type 0
  Agrees f op =
      ((fallback_step f op).0.config ≡ f.config)
      × (((fallback_step f op).0.fallback, (fallback_step f op).1)
          ≡ memory_step f.config.fallback_ttl f.fallback op)

  step-Agrees : (down : IsDown P) (f : FallbackCache P) (op : Operation V) → Agrees f op
  unfolding fallback_step memory_step Fallback.get read_fallback Fallback.set set_fallback
      Fallback.delete Fallback.clear Fallback.get_multiple Fallback.set_multiple
      Fallback.get_with_metadata read_fallback_entry Fallback.set_with_metadata Fallback.expire
      Fallback.ttl Fallback.evict_expired Fallback.size
  step-Agrees down f (get key now created) =
      let (e, fails) = down.get_fails key f.primary in ground (arith, fails)
  step-Agrees down f (set key v d now created) = ground arith
  step-Agrees down f (delete key) = ground arith
  step-Agrees down f clear = ground arith
  step-Agrees down f (get_multiple keys) =
      let (e, fails) = down.get_multiple_fails (names keys) f.primary in ground (arith, fails)
  step-Agrees down f (set_multiple items d) = ground arith
  step-Agrees down f (get_with_metadata key now) =
      let (e, fails) = down.get_with_metadata_fails key f.primary in ground (arith, fails)
  step-Agrees down f (set_with_metadata key entry) = ground arith
  step-Agrees down f (expire key d now) = ground arith
  step-Agrees down f (ttl key now now') =
      let (e, fails) = down.ttl_fails key f.primary in ground (arith, fails)
  step-Agrees down f (evict_expired clock) =
      let (e, fails) = down.evict_expired_fails f.primary in ground (arith, fails)
  step-Agrees down f size = let (e, fails) = down.size_fails f.primary in ground (arith, fails)

  -- While every read of the primary cache fails, whatever it does at writes, a run of calls of the
  -- fallback cache gives the answers that the cache in memory gives alone, if each lifetime is the
  -- one that the configuration sets for the fallback, and it leaves the same fallback.
  pub fallback_run-memory_run :
      (down : IsDown P) (f : FallbackCache P) (ops : List (Operation V))
      → ((fallback_run f ops).0.fallback, (fallback_run f ops).1)
        ≡ memory_run f.config.fallback_ttl f.fallback ops
  unfolding fallback_run memory_run
  fallback_run-memory_run down f [] = refl
  fallback_run-memory_run down f (op ∷ ops) =
      let (config, step) = step-Agrees down f op in
      let rest = fallback_run-memory_run down (fallback_step f op).0 ops in
      let rest' = rw config at rest in
      rw (sym step) (ap (λ r. (r.0, (fallback_step f op).1 ∷ r.1)) rest')
