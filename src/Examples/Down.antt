-- ===== src/Examples/Down.antt =====
-- The cache with a fallback over a cache that is down.
use go_exercise.Base.{ℕ, ◌≡◌, refl, suc, none, some, List, [], ◌∷◌}
use go_exercise.Base.Int.{pos}
use go_exercise.Base.Text.{Text, codes, text_eq}
use go_exercise.Base.Dict.{find, put, remove}
use go_exercise.Base.Result.{err}
use go_exercise.Cache.Entry.{default_cache_config, is_expired}
use go_exercise.Cache.Memory
use go_exercise.Cache.Memory.{new_in_memory_cache, effective_ttl, make_room}
use go_exercise.Cache.Fallback.{CacheApi, FallbackCache, new_fallback_cache}
use go_exercise.Cache.Fallback.Simulation
use go_exercise.Cache.Fallback.Simulation.{
  IsDown, Operation, Answer, get, set, delete, size, done, found, count, fallback_run, memory_run,
}

-- It fails at everything, and counts the calls.
abbrev broken : CacheApi ℕ ℕ
broken = record {
  State = ℕ;
  get = λ k. λ s. (suc s, err 0);
  set = λ k. λ v. λ ttl. λ s. (suc s, some 0);
  delete = λ k. λ s. (suc s, some 0);
  clear = λ s. (suc s, some 0);
  get_multiple = λ ks. λ s. (suc s, err 0);
  set_multiple = λ m. λ ttl. λ s. (suc s, some 0);
  get_with_metadata = λ k. λ s. (suc s, err 0);
  set_with_metadata = λ k. λ e. λ s. (suc s, some 0);
  expire = λ k. λ ttl. λ s. (suc s, some 0);
  ttl = λ k. λ s. (suc s, err 0);
  evict_expired = λ s. (suc s, err 0);
  size = λ s. (suc s, err 0);
  ping = λ s. (suc s, some 0);
  close = λ s. (suc s, none);
}

broken-IsDown : IsDown broken
broken-IsDown = record {
  get_fails = λ k s. (0, refl);
  get_multiple_fails = λ ks s. (0, refl);
  get_with_metadata_fails = λ k s. (0, refl);
  ttl_fails = λ k s. (0, refl);
  evict_expired_fails = λ s. (0, refl);
  size_fails = λ s. (0, refl);
}

abbrev cache : FallbackCache broken
cache = new_fallback_cache 0 default_cache_config

abbrev usd : Text
usd = codes "XXBTZUSD"

abbrev calls : List (Operation ℕ)
calls = set usd 50 (pos 60) 10 11 ∷ get usd 12 13 ∷ size ∷ delete usd ∷ get usd 14 15 ∷ []

calls_run :
    (memory_run cache.config.fallback_ttl cache.fallback calls).1
    ≡ done ∷ found (some 50) ∷ count 1 ∷ done ∷ found none ∷ []
unfolding memory_run Simulation.memory_step Memory.set Memory.get Memory.size Memory.delete
    new_fallback_cache new_in_memory_cache effective_ttl make_room is_expired find put remove
    text_eq
calls_run = refl

fallback_run-memory_run_example :
    ((fallback_run cache calls).0.fallback, (fallback_run cache calls).1)
    ≡ memory_run cache.config.fallback_ttl cache.fallback calls
fallback_run-memory_run_example = Simulation.fallback_run-memory_run broken-IsDown cache calls
