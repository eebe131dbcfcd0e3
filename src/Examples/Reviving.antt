-- ===== src/Examples/Reviving.antt =====
-- A deleted value that comes back.
use go_exercise.Base.{ℕ, ◌≡◌, refl, none, some, [], ◌∷◌, inr}
use go_exercise.Base.Text.{Text, codes, text_eq}
use go_exercise.Base.Dict.{Dict, find, put, remove}
use go_exercise.Base.Result.{ok, err}
use go_exercise.Cache.Entry.{default_cache_config}
use go_exercise.Cache.Memory
use go_exercise.Cache.Memory.{effective_ttl}
use go_exercise.Cache.Fallback.{
  CacheApi, FallbackCache, new_fallback_cache, set_fallback, get, delete,
}
use go_exercise.Cache.Fallback.Races
use go_exercise.Cache.Fallback.Races.{serve_answer, ask_primary}

-- A primary cache that keeps all that is set until it is deleted.
abbrev pub store : CacheApi ℕ ℕ
store = record {
  State = Dict ℕ;
  get = λ k. λ s. (s, ok (find k s));
  set = λ k. λ v. λ ttl. λ s. (put k v s, none);
  delete = λ k. λ s. (remove k s, none);
  clear = λ s. ([], none);
  get_multiple = λ ks. λ s. (s, err 0);
  set_multiple = λ m. λ ttl. λ s. (s, some 0);
  get_with_metadata = λ k. λ s. (s, err 0);
  set_with_metadata = λ k. λ e. λ s. (s, some 0);
  expire = λ k. λ ttl. λ s. (s, some 0);
  ttl = λ k. λ s. (s, err 0);
  evict_expired = λ s. (s, err 0);
  size = λ s. (s, err 0);
  ping = λ s. (s, none);
  close = λ s. (s, none);
}

abbrev pub usd : Text
usd = codes "XXBTZUSD"

abbrev cache : FallbackCache store
cache = new_fallback_cache ((usd, 50) ∷ []) default_cache_config

get_revives_deleted_example :
    (get (Races.deleted_between cache usd 10 11) usd 1000 1001).1 ≡ some 50
unfolding find put remove text_eq new_fallback_cache Memory.new_in_memory_cache effective_ttl delete
    serve_answer set_fallback ask_primary
get_revives_deleted_example =
    Races.get_revives_deleted cache usd 50 10 11 1000 1001 refl (inr refl) refl
