-- ===== src/Cache/Fallback/Races.antt =====
-- `Get` of `FallbackCache` under concurrency: it asks the primary cache, and then reads or writes the
-- fallback; no lock is held over both, so that other calls run between the two.
use go_exercise.Base.{ℕ, ◌≡◌, ◌⊎◌, ◌∙◌, false, Option, none, some, arith, ltb, ap}
use go_exercise.Base.Text.{Text}
use go_exercise.Base.Result.{Result, ok, err}
use go_exercise.Cache.Memory
use go_exercise.Cache.Memory.View.{view}
use go_exercise.Cache.Fallback.{CacheApi, FallbackCache, set_fallback, read_fallback, get, delete}
use go_exercise.Cache.Fallback.Outage.{
  primary_get, fallback_expiry, view-set_fallback, get-view_fallback,
}

module _ {V E : Type 0} {P : CacheApi V E} where
  -- Up to the answer of the primary cache.
  unfoldable pub ask_primary : FallbackCache P → Text → FallbackCache P × Result E (Option V)
  ask_primary f key = let (p, answer) = P.get key f.primary in (record f { primary = p }, answer)

  -- What follows the answer, on the caches that are there by then.
  unfoldable pub serve_answer :
      FallbackCache P → Text → Result E (Option V) → ℕ → ℕ → FallbackCache P × Option V
  unfolding read_fallback set_fallback
  serve_answer f key (err e) now created = read_fallback f key now
  serve_answer f key (ok none) now created = read_fallback f key now
  serve_answer f key (ok (some v)) now created = (set_fallback f key v now created, some v)

  -- With nothing between its two steps, a `Get` in two steps is the `Get` in one.
  pub get_in_two_steps :
      (f : FallbackCache P) (key : Text) (now created : ℕ)
      → serve_answer (ask_primary f key).0 key (ask_primary f key).1 now created
        ≡ get f key now created
  unfolding ask_primary serve_answer get
  get_in_two_steps f key now created = ground arith

  delete-expiry :
      (f : FallbackCache P) (key : Text) (now : ℕ)
      → fallback_expiry (delete f key) now ≡ fallback_expiry f now
  unfolding delete Memory.delete
  delete-expiry f key now = ground arith

  -- The cache after a `Get` whose primary cache has answered, a `Delete` of the key in between.
  abbrev pub deleted_between : FallbackCache P → Text → ℕ → ℕ → FallbackCache P
  deleted_between f key now created =
      let (seen, answer) = ask_primary f key in
      (serve_answer (delete seen key) key answer now created).0

  -- If the primary cache answers a `Get` with a value, and a `Delete` of the key runs before the
  -- `Get` goes on, then the value is back: a later `Get` at which the primary cache does not have
  -- the key, or fails, returns the deleted value, up to and at the end of the fallback's lifetime.
  pub get_revives_deleted :
      (f : FallbackCache P) (key : Text) (v : V) (now created later created' : ℕ)
      → primary_get f key ≡ ok (some v)
      → ((e : E) × (primary_get (deleted_between f key now created) key ≡ err e))
        ⊎ (primary_get (deleted_between f key now created) key ≡ ok none)
      → ltb (fallback_expiry f now) later ≡ false
      → (get (deleted_between f key now created) key later created').1 ≡ some v
  unfolding ask_primary
  get_revives_deleted f key v now created later created' answered gone fresh =
      let seen : FallbackCache P = record f { primary = (P.get key f.primary).0 } in
      let shown =
        view-set_fallback (delete seen key) key v now created later
          (ap (λ x. ltb x later) (delete-expiry seen key now) ∙ fresh) in
      let back : view (deleted_between f key now created).fallback later key ≡ some v =
        rw (deleted_between, answered) (unfold serve_answer in shown) in
      get-view_fallback (deleted_between f key now created) key later created' gone ∙ back
