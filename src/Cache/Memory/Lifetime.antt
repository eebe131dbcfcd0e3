-- ===== src/Cache/Memory/Lifetime.antt =====
-- How long a value is kept.
use go_exercise.Base.{
  ℕ, ◌≤◌, ◌≡◌, ◌⊎◌, refl, sym, ◌∙◌, none, some, List, [], ◌∷◌, All, arith, inl, inr, ltb,
  if◌then◌else◌, Bool-cases,
}
use go_exercise.Base.Int.{ℤ, pos, ◌≤ℤ◌, leb_ℤ, ltb_ℤ, time_add}
use go_exercise.Base.Text.{Text}
use go_exercise.Cache.Entry.{CacheConfig}
use go_exercise.Cache.Memory.{InMemoryCache, effective_ttl, get, set}
use go_exercise.Cache.Memory.View.{view, get-view, get-set}

-- What a `Set` asks for: its lifetime, or the default one if that is not positive.
abbrev pub IsAsked : CacheConfig → ℤ → ℤ → Type 0
IsAsked config ttl asked =
    ((ttl ≤ℤ pos 0) × (asked ≡ config.default_ttl)) ⊎ ((pos 1 ≤ℤ ttl) × (asked ≡ ttl))

-- The lesser of what is asked for and the maximum.
pub record IsLifetime (config : CacheConfig) (ttl d : ℤ) : Type 0 where
  pub asked : ℤ
  pub is_asked : IsAsked config ttl asked
  pub within_asked : d ≤ℤ asked
  pub within_max : d ≤ℤ config.max_ttl
  pub is_one : (d ≡ asked) ⊎ (d ≡ config.max_ttl)

clamp :
    (config : CacheConfig) (ttl asked : ℤ)
    → IsAsked config ttl asked
    → IsLifetime config ttl (if ltb_ℤ config.max_ttl asked then config.max_ttl else asked)
clamp config ttl asked h = elim (Bool-cases (ltb_ℤ config.max_ttl asked)) [
  | inl over ↦ rw over (record {
    asked = asked;
    is_asked = h;
    within_asked = ground arith;
    within_max = omega arith;
    is_one = inr refl;
  })
  | inr under ↦ rw under (record {
    asked = asked;
    is_asked = h;
    within_asked = omega arith;
    within_max = ground arith;
    is_one = inl refl;
  })
]

effective_ttl-IsLifetime :
    (config : CacheConfig) (ttl : ℤ) → IsLifetime config ttl (effective_ttl config ttl)
unfolding effective_ttl
effective_ttl-IsLifetime config ttl = elim (Bool-cases (leb_ℤ ttl (pos 0))) [
  | inl none_given ↦ rw none_given (clamp config ttl config.default_ttl (inl (ground arith, refl)))
  | inr given ↦ rw given (clamp config ttl ttl (inr (ground arith, refl)))
]

module _ {V : Type 0} where
  -- Calls of `Get`, each with its reading of the clock.
  abbrev pub gets : List (Text × ℕ) → InMemoryCache V → InMemoryCache V
  gets [] m = m
  gets ((key, now) ∷ calls) m = gets calls (get m key now).0

  view-gets :
      (calls : List (Text × ℕ)) (m : InMemoryCache V) (later : ℕ) (j : Text)
      → All (λ c. c.1 ≤ later) calls
      → view (gets calls m) later j ≡ view m later j
  view-gets [] m later j h = refl
  view-gets ((key, now) ∷ calls) m later j (first, h) =
      view-gets calls (get m key now).0 later j h ∙ (get-view m key now later j first).1

  -- After a `Set` and calls of `Get` of any keys, none of them later than `later`, a `Get` of the key
  -- at `later` returns the value of the `Set` up to and at the end of its lifetime, and misses from
  -- then on, whatever was evicted to make room. The lifetime is the lesser of the maximum and of what
  -- was asked for: the one given, or the default one if the one given is not positive.
  pub get-gets-set :
      (m : InMemoryCache V) (key : Text) (v : V) (ttl : ℤ) (now created : ℕ)
      (calls : List (Text × ℕ)) (later : ℕ)
      → All (λ c. c.1 ≤ later) calls
      → (d : ℤ) × IsLifetime m.config ttl d
        × ((get (gets calls (set m key v ttl now created)) key later).1
            ≡ (if ltb (time_add now d) later then none else some v))
  get-gets-set m key v ttl now created calls later h =
      let m' = set m key v ttl now created in
      (
        effective_ttl m.config ttl,
        effective_ttl-IsLifetime m.config ttl,
        (get-view (gets calls m') key later later key (omega arith)).0
            ∙ view-gets calls m' later key h
            ∙ sym ((get-view m' key later later key (omega arith)).0)
            ∙ get-set m key v ttl now created later,
      )
