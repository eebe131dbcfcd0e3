-- ===== src/Examples/Caching.antt =====
-- internal/cache at concrete inputs.
use go_exercise.Base.{
  ℕ, ◌+◌, ◌≤◌, ◌<◌, ◌≡◌, ◌≢◌, refl, true, none, some, List, [], ◌∷◌, arith, ltb, if◌then◌else◌,
  length,
}
use mathlib.Core.Bool.{false≢true}
use go_exercise.Base.Int.{ℤ, pos, time_add}
use go_exercise.Base.Text.{Text, codes, text_eq, text_eq_iff}
use go_exercise.Base.Dict.{find, remove}
use go_exercise.Cache.Entry.{CacheEntry, CacheConfig, default_cache_config, is_expired}
use go_exercise.Cache.Memory.{
  InMemoryCache, evict_count, evict_lru, make_room, get, set, sort_by_age, insert_by_age,
  delete_keys,
}
use go_exercise.Cache.Memory.Batch.{Item, set_multiple, evict_expired}
use go_exercise.Cache.Memory.View
use go_exercise.Cache.Memory.Lifetime
use go_exercise.Cache.Memory.View.{view}
use go_exercise.Cache.Memory.Eviction
use go_exercise.Cache.Memory.Bounds
use go_exercise.Cache.Memory.Bounds.Batches
use go_exercise.Cache.Memory.Races

abbrev usd : Text
usd = codes "XXBTZUSD"

abbrev eur : Text
eur = codes "XXBTZEUR"

abbrev small : CacheConfig
small = record default_cache_config { max_size = pos 2 }

abbrev old_usd : CacheEntry ℕ
old_usd = record { value = 50; expires_at = 100; created_at = 40 }

abbrev new_eur : CacheEntry ℕ
new_eur = record { value = 48; expires_at = 200; created_at = 60 }

-- Two entries, at the most that the configuration allows.
abbrev full : InMemoryCache ℕ
full = record {
  config = small;
  entries = (eur, new_eur) ∷ (usd, old_usd) ∷ [];
  stats = record { hits = 0; misses = 0; evictions = 0; refreshes = 0 };
}

full-IsBounded : Bounds.IsBounded 2 full
unfolding find text_eq
full-IsBounded = record { max_size_eq = refl; fits = omega arith; distinct = (refl, (refl, tt)) }

-- The older entry goes.
evicts_usd :
    (find usd (evict_lru full).entries ≡ none)
    × (find eur (evict_lru full).entries ≡ some new_eur)
    × (find usd full.entries ≡ some old_usd)
unfolding find text_eq evict_lru evict_count sort_by_age insert_by_age delete_keys remove
evicts_usd = (refl, refl, refl)

get-view_example :
    ((get full usd 150).1 ≡ view full 150 usd)
    × (view (get full usd 150).0 160 eur ≡ view full 160 eur)
    × ((get full usd 150).0.stats.hits + (get full usd 150).0.stats.misses ≡ 0 + 0 + 1)
get-view_example = View.get-view full usd 150 160 eur (omega arith)

get-gets-set_example :
    (d : ℤ) × Lifetime.IsLifetime small (pos 30) d
    × ((get (Lifetime.gets ((eur, 160) ∷ []) (set full usd 51 (pos 30) 150 151)) usd 180).1
        ≡ (if ltb (time_add 150 d) 180 then none else some 51))
get-gets-set_example =
    Lifetime.get-gets-set full usd 51 (pos 30) 150 151 ((eur, 160) ∷ []) 180 (omega arith, tt)

evict_expired_exact_example :
    (find usd (evict_expired full (λ k. 150)).0.entries
      ≡ View.unexpired 150 (find usd full.entries))
    × (length (evict_expired full (λ k. 150)).0.entries + (evict_expired full (λ k. 150)).1 ≡ 2)
    × ((evict_expired full (λ k. 150)).0.stats.evictions ≡ 0 + (evict_expired full (λ k. 150)).1)
evict_expired_exact_example = View.evict_expired_exact full (λ k. 150) usd full-IsBounded.distinct

usd-ne-eur : eur ≢ usd
unfolding text_eq
usd-ne-eur e = false≢true ((text_eq_iff eur usd).1 e)

view-set_ne_example : view (set full usd 51 (pos 30) 70 71) 80 eur ≡ view (make_room full 0) 80 eur
view-set_ne_example = View.view-set_ne full usd eur 51 (pos 30) 70 71 80 usd-ne-eur

evict_lru_oldest_example : (find eur full.entries ≡ some new_eur) × (40 ≤ 60)
evict_lru_oldest_example =
    Eviction.evict_lru_oldest full usd eur {x = old_usd} {e = new_eur} full-IsBounded.distinct
      (omega arith) evicts_usd.2 evicts_usd.0 evicts_usd.1

abbrev calls : List (Bounds.Call ℕ)
calls =
    Bounds.write (codes "XBTCHF") 47 (pos 30) 70 71
    ∷ Bounds.read usd 80
    ∷ Bounds.renew eur (pos 10) 90
    ∷ Bounds.erase_expired (λ k. 100)
    ∷ []

run-IsBounded_example : Bounds.IsBounded 2 (Bounds.run full calls)
run-IsBounded_example = Bounds.run-IsBounded 2 full calls (omega arith) full-IsBounded

abbrev item : Text → Item ℕ
item key = record { key = key; value = 1; now = 70; created = 71 }

a-ne-b : codes "a" ≢ codes "b"
unfolding text_eq
a-ne-b e = false≢true ((text_eq_iff (codes "a") (codes "b")).1 e)

-- Two new items beside one of two old entries: three, where two are allowed.
set_multiple_exceeds_example :
    2 < length (set_multiple full (item (codes "a") ∷ item (codes "b") ∷ []) (pos 30)).entries
unfolding find text_eq evict_count
set_multiple_exceeds_example =
    Batches.set_multiple_exceeds 2 full (item (codes "a") ∷ item (codes "b") ∷ []) (pos 30)
      full-IsBounded (omega arith) (refl, (a-ne-b, tt), (refl, tt, tt)) (omega arith)

get_in_two_steps_example :
    Races.finish_get (Races.begin_get full usd 150).0 usd (Races.begin_get full usd 150).1
    ≡ get full usd 150
get_in_two_steps_example = Races.get_in_two_steps full usd 150

usd_is_old : is_expired old_usd 150 ≡ true
unfolding is_expired
usd_is_old = refl

get_loses_set_example :
    (let (seen, phase) = Races.begin_get full usd 150 in
      view (Races.finish_get (set seen usd 51 (pos 30) 150 151) usd phase).0 160 usd)
    ≡ none
get_loses_set_example =
    Races.get_loses_set full usd 150 {e = old_usd} 51 (pos 30) 150 151 160 evicts_usd.2 usd_is_old
