-- ===== src/Cache/Memory/Entries.antt =====
-- Which entries a cache holds after `Get` and `Set`.
use go_exercise.Base.{
  ℕ, ◌+◌, ◌≤◌, Bool, true, ◌≡◌, ◌⊎◌, refl, ap, false, some, [], ◌∷◌, arith, inl, inr, if◌then◌else◌,
  length, Bool-cases, Option-cases,
}
use go_exercise.Base.Int.{ℤ, pos, leb_ℤ, time_add}
use go_exercise.Base.Text.{Text, text_eq, text_eq→eq}
use go_exercise.Base.Dict.{Dict, find, find-put, find-remove}
use go_exercise.Cache.Entry.{CacheEntry, is_expired}
use go_exercise.Cache.Memory.{
  InMemoryCache, effective_ttl, make_room, evict_lru, evict_from, get, set,
}
use go_exercise.Cache.Memory.Deletion.{find-delete_keys}
use go_exercise.Cache.Memory.Eviction.{victims}

module _ {V : Type 0} where
  pub find-get :
      (m : InMemoryCache V) (key : Text) (now : ℕ) (j : Text) {e : CacheEntry V}
      → find j (get m key now).0.entries ≡ some e
      → find j m.entries ≡ some e
  unfolding get
  find-get m key now j {e} h = ground (arith, find-remove key j m.entries)

  -- The entries of `m'` are some of those of `m`, with the same configuration.
  record IsCut (m' m : InMemoryCache V) : Type 0 where
    kept : (j : Text) {e : CacheEntry V} → find j m'.entries ≡ some e → find j m.entries ≡ some e
    config_eq : m'.config ≡ m.config

  evict_from-IsCut : (m : InMemoryCache V) (l : Dict (CacheEntry V)) → IsCut (evict_from m l) m
  unfolding evict_from
  evict_from-IsCut m [] = record { kept = λ j h. h; config_eq = refl }
  evict_from-IsCut m (x ∷ l) = record {
    kept = λ j h. ground (arith, find-delete_keys j (victims (x ∷ l)) m.entries);
    config_eq = refl;
  }

  make_room-IsCut : (m : InMemoryCache V) → IsCut (make_room m 0) m
  unfolding make_room evict_lru
  make_room-IsCut m = go (leb_ℤ m.config.max_size (pos (length m.entries + 0)))
    where
      go : (b : Bool) → IsCut (if b then evict_lru m else m) m
      go true = evict_from-IsCut m m.entries
      go false = record { kept = λ j h. h; config_eq = refl }

  -- An entry that is there after `Set` was there, or is the one that was set.
  pub find-set :
      (m : InMemoryCache V) (key : Text) (v : V) (ttl : ℤ) (now created : ℕ) (j : Text)
      {e : CacheEntry V}
      → find j (set m key v ttl now created).entries ≡ some e
      → ((key ≡ j) × (e.value ≡ v) × (e.expires_at ≡ time_add now (effective_ttl m.config ttl)))
        ⊎ (find j m.entries ≡ some e)
  unfolding set
  find-set m key v ttl now created j {e} h =
      let cut = make_room-IsCut m in
      let new : CacheEntry V = record {
        value = v;
        expires_at = time_add now (effective_ttl m.config ttl);
        created_at = created;
      } in
      let read = find-put key j new (make_room m 0).entries in
      elim (Bool-cases (text_eq key j)) [
        | inl same ↦
            let e_eq : e ≡ new = ground (arith, read) in
            inl (text_eq→eq key j same, ap (λ f. f.value) e_eq, ap (λ f. f.expires_at) e_eq)
        | inr other ↦ inr (cut.kept j (ground (arith, read)))
      ]

  -- What `Get` returns is the value of an entry that has not expired.
  pub get-found :
      (m : InMemoryCache V) (key : Text) (now : ℕ) (v : V)
      → (get m key now).1 ≡ some v
      → (e : CacheEntry V) × (find key m.entries ≡ some e) × (e.value ≡ v) × (now ≤ e.expires_at)
  unfolding get is_expired
  get-found m key now v h = elim (Option-cases (find key m.entries)) [
    | inl absent ↦ absurd (ground arith)
    | inr (e, there) ↦ (e, there, ground arith, ground arith)
  ]

  pub config-get :
      (m : InMemoryCache V) (key : Text) (now : ℕ) → (get m key now).0.config ≡ m.config
  unfolding get
  config-get m key now = ground arith

  pub config-set :
      (m : InMemoryCache V) (key : Text) (v : V) (ttl : ℤ) (now created : ℕ)
      → (set m key v ttl now created).config ≡ m.config
  unfolding set
  config-set m key v ttl now created = (make_room-IsCut m).config_eq
