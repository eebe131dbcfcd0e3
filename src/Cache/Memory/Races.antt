-- ===== src/Cache/Memory/Races.antt =====
-- `Get` under concurrency: it looks its key up under the read lock and, if the entry has expired,
-- deletes the key under the write lock, which it takes afresh. Between the two, others run.
use go_exercise.Base.{ℕ, ◌≡◌, true, Option, none, some, arith, if◌then◌else◌}
use go_exercise.Base.Int.{ℤ}
use go_exercise.Base.Text.{Text, text_eq_refl}
use go_exercise.Base.Dict.{find, remove, find-remove}
use go_exercise.Cache.Entry.{CacheEntry, is_expired}
use go_exercise.Cache.Memory.{InMemoryCache, record_hit, record_miss, get, set}
use go_exercise.Cache.Memory.View.{view}

-- Where a `Get` stands after its lookup: it has its answer, or it still has to delete the key.
pub data GetPhase (V : Type 0) : Type 0 where
  answered : Option V → GetPhase V
  must_delete : GetPhase V

module _ {V : Type 0} where
  after_lookup : InMemoryCache V → ℕ → Option (CacheEntry V) → InMemoryCache V × GetPhase V
  after_lookup m now none = (record m { stats = record_miss m.stats }, answered none)
  after_lookup m now (some e) =
      if is_expired e now
      then (m, must_delete)
      else (record m { stats = record_hit m.stats }, answered (some e.value))

  -- Up to the test of `IsExpired`.
  unfoldable pub begin_get : InMemoryCache V → Text → ℕ → InMemoryCache V × GetPhase V
  unfolding after_lookup
  begin_get m key now = after_lookup m now (find key m.entries)

  -- The deletion, on the cache that is there by then, and the answer.
  unfoldable pub finish_get : InMemoryCache V → Text → GetPhase V → InMemoryCache V × Option V
  finish_get m key (answered v) = (m, v)
  finish_get m key must_delete =
      (record m { entries = remove key m.entries; stats = record_miss m.stats }, none)

  -- With nothing between its two steps, a `Get` in two steps is the `Get` in one.
  pub get_in_two_steps :
      (m : InMemoryCache V) (key : Text) (now : ℕ)
      → finish_get (begin_get m key now).0 key (begin_get m key now).1 ≡ get m key now
  unfolding begin_get finish_get get
  get_in_two_steps m key now = ground arith

  -- If the entry of a key has expired when a `Get` looks it up, and a `Set` of the key with any
  -- value and lifetime is made before the `Get` deletes the key, then the value that was set is
  -- gone: from then on the cache shows nothing at the key.
  pub get_loses_set :
      (m : InMemoryCache V) (key : Text) (now : ℕ) {e : CacheEntry V} (v : V) (ttl : ℤ)
      (written created later : ℕ)
      → find key m.entries ≡ some e
      → is_expired e now ≡ true
      → (let (seen, phase) = begin_get m key now in
          view (finish_get (set seen key v ttl written created) key phase).0 later key)
        ≡ none
  unfolding begin_get
  get_loses_set m key now v ttl written created later there old =
      rw (there, old)
        (unfold finish_get view in
          ground (
            arith,
            find-remove key key (set m key v ttl written created).entries,
            text_eq_refl key,
          ))
