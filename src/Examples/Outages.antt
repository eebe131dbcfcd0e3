-- ===== src/Examples/Outages.antt =====
-- The cache with a fallback at concrete inputs.
use go_exercise.Base.{ℕ, ◌≡◌, refl, false, Option, none, some, List, [], ◌∷◌, ltb}
use go_exercise.Base.Int.{pos}
use go_exercise.Base.Text.{Text, codes}
use go_exercise.Base.Dict.{find}
use go_exercise.Base.Result.{Result, ok, err}
use go_exercise.Cache.Entry.{default_cache_config}
use go_exercise.Cache.Memory
use go_exercise.Cache.Memory.{effective_ttl}
use go_exercise.Cache.Memory.View.{view}
use go_exercise.Cache.Fallback.{
  CacheApi, FallbackCache, new_fallback_cache, set_fallback, get, set, get_multiple,
}
use go_exercise.Cache.Fallback.Outage
use go_exercise.Cache.Fallback.Union

-- A cache whose state is the list of the answers that its next reads get; it refuses all else.
abbrev answer :
    {V : Type 0} → List (Result ℕ (Option V)) → List (Result ℕ (Option V)) × Result ℕ (Option V)
answer [] = ([], err 0)
answer (r ∷ rs) = (rs, r)

abbrev scripted : (V : Type 0) → CacheApi V ℕ
scripted V = record {
  State = List (Result ℕ (Option V));
  get = λ k. λ s. answer s;
  set = λ k. λ v. λ ttl. λ s. (s, some 0);
  delete = λ k. λ s. (s, some 0);
  clear = λ s. (s, some 0);
  get_multiple = λ ks. λ s. (s, err 0);
  set_multiple = λ m. λ ttl. λ s. (s, some 0);
  get_with_metadata = λ k. λ s. (s, err 0);
  set_with_metadata = λ k. λ e. λ s. (s, some 0);
  expire = λ k. λ ttl. λ s. (s, some 0);
  ttl = λ k. λ s. (s, err 0);
  evict_expired = λ s. (s, err 0);
  size = λ s. (s, err 0);
  ping = λ s. (s, some 0);
  close = λ s. (s, none);
}

abbrev usd : Text
usd = codes "XXBTZUSD"

-- The primary cache answers once and is then out of reach.
abbrev once : FallbackCache (scripted ℕ)
once = new_fallback_cache (ok (some 50) ∷ []) default_cache_config

abbrev down : FallbackCache (scripted ℕ)
down = new_fallback_cache [] default_cache_config

once_runs :
    (Outage.primary_get once usd ≡ ok (some 50))
    × (Outage.primary_get (get once usd 10 11).0 usd ≡ err 0)
    × (ltb (Outage.fallback_expiry once 10) 1000 ≡ false)
unfolding new_fallback_cache get set_fallback effective_ttl Memory.new_in_memory_cache
once_runs = (refl, refl, refl)

get-get_outage_example :
    ((get once usd 10 11).1 ≡ some 50) × ((get (get once usd 10 11).0 usd 1000 1001).1 ≡ some 50)
get-get_outage_example =
    Outage.get-get_outage once usd 50 10 11 1000 1001 0 once_runs.0 once_runs.1 once_runs.2

down_runs :
    (Outage.primary_get (set down usd 50 (pos 60) 10 11) usd ≡ err 0)
    × (ltb (Outage.fallback_expiry down 10) 1000 ≡ false)
    × (Outage.primary_get down usd ≡ err 0)
unfolding new_fallback_cache set set_fallback effective_ttl Memory.new_in_memory_cache
down_runs = (refl, refl, refl)

-- The primary cache refuses 51 and answers with the 50 that it has.
lost_runs :
    (Outage.primary_get (set once usd 51 (pos 60) 10 11) usd ≡ ok (some 50))
    × (ltb (Outage.fallback_expiry once 10) 1000 ≡ false)
    × (ltb (Outage.fallback_expiry (set once usd 51 (pos 60) 10 11) 20) 1000 ≡ false)
unfolding new_fallback_cache set set_fallback effective_ttl Memory.new_in_memory_cache Memory.set
    Memory.make_room
lost_runs = (refl, refl, refl)

lost_write_example :
    (view (set once usd 51 (pos 60) 10 11).fallback 1000 usd ≡ some 51)
    × ((get (set once usd 51 (pos 60) 10 11) usd 20 21).1 ≡ some 50)
    × (view (get (set once usd 51 (pos 60) 10 11) usd 20 21).0.fallback 1000 usd ≡ some 50)
lost_write_example =
    Outage.lost_write once usd 51 50 (pos 60) 10 11 20 21 1000 once_runs.0 lost_runs.0 lost_runs.1
      lost_runs.2

-- The primary cache fails; the fallback has a key whose `Set` it refused.
abbrev stored : FallbackCache (scripted ℕ)
stored = set down usd 50 (pos 60) 10 11

get_multiple_exact_example :
    find usd (get_multiple stored ((usd, 20) ∷ [])).1
    ≡ Union.or_else
        (Union.primary_answer usd ((scripted ℕ).get_multiple (usd ∷ []) stored.primary).1)
        (Union.served (find usd stored.fallback.entries) usd ((usd, 20) ∷ []))
get_multiple_exact_example = Union.get_multiple_exact stored ((usd, 20) ∷ []) usd
