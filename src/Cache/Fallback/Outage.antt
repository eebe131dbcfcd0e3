-- ===== src/Cache/Fallback/Outage.antt =====
-- What `FallbackCache` serves while the primary cache fails, and after it has failed.
use go_exercise.Base.{
  ℕ, ◌≡◌, ◌⊎◌, ◌∙◌, sym, refl, ap, false, Option, none, some, arith, ltb, inl, inr, Option-cases,
}
use go_exercise.Base.Int.{ℤ, time_add}
use go_exercise.Base.Text.{Text}
use go_exercise.Base.Result.{Result, ok, err}
use go_exercise.Cache.Memory.{effective_ttl}
use go_exercise.Cache.Memory.View.{view, get-view, get-set}
use go_exercise.Cache.Fallback.{CacheApi, FallbackCache, set_fallback, read_fallback, get, set}

module _ {V E : Type 0} {P : CacheApi V E} where
  abbrev pub primary_get : FallbackCache P → Text → Result E (Option V)
  primary_get f key = (P.get key f.primary).1

  abbrev pub fallback_expiry : FallbackCache P → ℕ → ℕ
  fallback_expiry f now = time_add now (effective_ttl f.fallback.config f.config.fallback_ttl)

  pub view-set_fallback :
      (f : FallbackCache P) (key : Text) (v : V) (now created later : ℕ)
      → ltb (fallback_expiry f now) later ≡ false
      → view (set_fallback f key v now created).fallback later key ≡ some v
  unfolding set_fallback
  view-set_fallback f key v now created later fresh =
      let m = (set_fallback f key v now created).fallback in
      let stored = get-set f.fallback key v f.config.fallback_ttl now created later in
      sym ((get-view m key later later key (omega arith)).0) ∙ stored ∙ rw fresh refl

  -- The cache after the primary cache has been asked.
  abbrev asked : FallbackCache P → Text → FallbackCache P
  asked f key = record f { primary = (P.get key f.primary).0 }

  abbrev told : FallbackCache P → Text → V → ℤ → FallbackCache P
  told f key v ttl = record f { primary = (P.set key v ttl f.primary).0 }

  get_found :
      (f : FallbackCache P) (key : Text) (v : V) (now created : ℕ)
      → primary_get f key ≡ ok (some v)
      → get f key now created ≡ (set_fallback (asked f key) key v now created, some v)
  unfolding get
  get_found f key v now created found = ground arith

  set_told :
      (f : FallbackCache P) (key : Text) (v : V) (ttl : ℤ) (now created : ℕ)
      → set f key v ttl now created ≡ set_fallback (told f key v ttl) key v now created
  unfolding set
  set_told f key v ttl now created = elim (Option-cases ((P.set key v ttl f.primary).1)) [
    | inl took ↦ ground arith
    | inr (e, refused) ↦ ground arith
  ]

  get-set_fallback :
      (f : FallbackCache P) (key : Text) (v : V) (now created later created' : ℕ) (e : E)
      → primary_get (set_fallback f key v now created) key ≡ err e
      → ltb (fallback_expiry f now) later ≡ false
      → (get (set_fallback f key v now created) key later created').1 ≡ some v
  unfolding get set_fallback read_fallback
  get-set_fallback f key v now created later created' e fails fresh =
      let stored = get-set f.fallback key v f.config.fallback_ttl now created later in
      rw (get, fails) (stored ∙ rw fresh refl)

  -- When the primary cache has answered a `Get` with a value and fails at the next `Get` of the
  -- key, that `Get` still returns the value, up to and at the end of the fallback's lifetime.
  pub get-get_outage :
      (f : FallbackCache P) (key : Text) (v : V) (now created later created' : ℕ) (e : E)
      → primary_get f key ≡ ok (some v)
      → primary_get (get f key now created).0 key ≡ err e
      → ltb (fallback_expiry f now) later ≡ false
      → ((get f key now created).1 ≡ some v)
        × ((get (get f key now created).0 key later created').1 ≡ some v)
  get-get_outage f key v now created later created' e found fails fresh =
      let served = get_found f key v now created found in
      let fails' = rw served at fails in
      (
        ap (λ r. r.1) served,
        rw served (get-set_fallback (asked f key) key v now created later created' e fails' fresh),
      )

  -- When the primary cache fails at a `Get`, after a `Set` of the key that it took or refused, the
  -- `Get` returns the value set, up to and at the end of the fallback's lifetime.
  pub get-set_outage :
      (f : FallbackCache P) (key : Text) (v : V) (ttl : ℤ) (now created later created' : ℕ) (e : E)
      → primary_get (set f key v ttl now created) key ≡ err e
      → ltb (fallback_expiry f now) later ≡ false
      → (get (set f key v ttl now created) key later created').1 ≡ some v
  get-set_outage f key v ttl now created later created' e fails fresh =
      let stored = set_told f key v ttl now created in
      let fails' = rw stored at fails in
      rw stored
        (get-set_fallback (told f key v ttl) key v now created later created' e fails' fresh)

  -- When the primary cache has an older value of a key, before a `Set` of the key and still after it,
  -- as when it refuses the write: the fallback has the value that was set, and would show it at
  -- `last`, but a `Get` before that returns the older value, and leaves the older value in the
  -- fallback, which then shows that at `last`. (`last` is within both lifetimes of the fallback.)
  pub lost_write :
      (f : FallbackCache P) (key : Text) (v older : V) (ttl : ℤ)
      (now created later created' last : ℕ)
      → primary_get f key ≡ ok (some older)
      → primary_get (set f key v ttl now created) key ≡ ok (some older)
      → ltb (fallback_expiry f now) last ≡ false
      → ltb (fallback_expiry (set f key v ttl now created) later) last ≡ false
      → (view (set f key v ttl now created).fallback last key ≡ some v)
        × ((get (set f key v ttl now created) key later created').1 ≡ some older)
        × (view (get (set f key v ttl now created) key later created').0.fallback last key
            ≡ some older)
  lost_write f key v older ttl now created later created' last had found lives fresh =
      let f' = set f key v ttl now created in
      let told_eq = set_told f key v ttl now created in
      let served = get_found f' key older later created' found in
      (
        rw told_eq (view-set_fallback (told f key v ttl) key v now created last lives),
        ap (λ r. r.1) served,
        rw served (view-set_fallback (asked f' key) key older later created' last fresh),
      )

  -- While the primary cache fails, and when it does not have the key, `Get` answers from the
  -- fallback with the live value of the key.
  pub get-view_fallback :
      (f : FallbackCache P) (key : Text) (now created : ℕ)
      → ((e : E) × (primary_get f key ≡ err e)) ⊎ (primary_get f key ≡ ok none)
      → (get f key now created).1 ≡ view f.fallback now key
  unfolding get read_fallback
  get-view_fallback f key now created (inl (e, fails)) =
      rw (get, fails) ((get-view f.fallback key now now key (omega arith)).0)
  get-view_fallback f key now created (inr missing) =
      rw (get, missing) ((get-view f.fallback key now now key (omega arith)).0)
