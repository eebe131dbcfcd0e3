-- ===== src/Cache/Redis/Storing.antt =====
-- What a value stored in Redis becomes.
use go_exercise.Base.{
  ◌≡◌, ◌∙◌, sym, ◌⊎◌, refl, ap, Option, none, some, ltb, arith, inl, inr, Bool-cases, if◌then◌else◌,
}
use go_exercise.Base.Int.{ℤ, time_add}
use go_exercise.Base.Text.{Text}
use go_exercise.Base.Result.{Result, ok, err}
use go_exercise.Cache.Entry.{CacheEntry, CacheConfig, is_expired}
use go_exercise.Cache.Memory.{effective_ttl}
use go_exercise.Cache.Redis.{
  RedisClient, ReadError, Codec, client_error, keep_live, read_entry, get_with_metadata, get, stamp,
  set, expire,
}

-- The value that a read finds, or a read that finds none.
abbrev pub OrMissing : {Data E : Type 0} → Data → Result (ReadError E) Data → Type 0
OrMissing {Data} {E} d r = (r ≡ ok d) ⊎ ((e : ReadError E) × (r ≡ err e))

-- What the cache relies on of Redis: a read gives the value that was stored, or none.
pub record IsStore {Data E : Type 0} (c : RedisClient Data E) : Type 0 where
  pub reads_back :
      (key : Text) (d : Data) (ttl : ℤ) (s : c.State)
      → (c.set key d ttl s).1 ≡ none
      → OrMissing d ((c.get key (c.set key d ttl s).0).1)
  pub expire_keeps :
      (key : Text) (ttl : ℤ) (s : c.State) (d : Data)
      → (c.get key s).1 ≡ ok d
      → OrMissing d ((c.get key (c.expire key ttl s).0).1)

no_client_error : {E : Type 0} (e : Option E) → client_error e ≡ none → e ≡ none
no_client_error none h = refl
no_client_error (some e) h = cc

read_same :
    {Data E : Type 0} (d has : Data) (r : Result (ReadError E) Data)
    → OrMissing d r
    → r ≡ ok has
    → has ≡ d
read_same d has r (inl found) there = ground arith
read_same d has r (inr (e, missing)) there = absurd (ground arith)

module _ {V Data E : Type 0} (c : RedisClient Data E) (codec : Codec V Data E)
    (config : CacheConfig) where
  open c use {State}

  -- The entry that `Set` writes.
  abbrev pub stamped : V → ℤ → State → CacheEntry V
  stamped v ttl s = (stamp c codec config v (effective_ttl config ttl) s).1

  -- The answer to a `Get` for which Redis has the entry.
  get_entry :
      (key : Text) (s : State) (val : Data) (entry : CacheEntry V)
      → (c.get key s).1 ≡ ok val
      → codec.unmarshal val ≡ ok entry
      → (get c codec config key s).1
        ≡ ok (if ltb entry.expires_at (c.now (c.get key s).0).1 then none else some entry.value)
  unfolding get is_expired
  get_entry key s val entry there decoded =
      elim (Bool-cases (ltb entry.expires_at (c.now (c.get key s).0).1)) [
        | inl old ↦ rw (get_with_metadata, there, read_entry, decoded, keep_live, old) refl
        | inr fresh ↦ rw (get_with_metadata, there, read_entry, decoded, keep_live, fresh) refl
      ]

  -- After a `Set` that Redis takes, a `Get` of the key, for which Redis still has a value, returns
  -- the value of the `Set` up to and at the end of the lifetime that the configuration allows, and
  -- misses from then on. (Redis gives back no other value than was stored, and the codec reads what
  -- it wrote.)
  pub redis_get-set :
      (key : Text) (v : V) (ttl : ℤ) (s : State) (val has : Data)
      → IsStore c
      → ((e : CacheEntry V) (d : Data) → codec.marshal e ≡ ok d → codec.unmarshal d ≡ ok e)
      → codec.marshal (stamped v ttl s) ≡ ok val
      → (set c codec config key v ttl s).1 ≡ none
      → (c.get key (set c codec config key v ttl s).0).1 ≡ ok has
      → (get c codec config key (set c codec config key v ttl s).0).1
        ≡ ok (
            if ltb
              (time_add (c.now s).1 (effective_ttl config ttl))
              (c.now (c.get key (set c codec config key v ttl s).0).0).1
            then none
            else some v)
  unfolding set
  redis_get-set key v ttl s val has store decodes written taken there =
      let lifetime = effective_ttl config ttl in
      let s' = (stamp c codec config v lifetime s).0 in
      let after : (set c codec config key v ttl s).0 ≡ (c.set key val lifetime s').0 =
        rw (set, written) refl in
      let took : (c.set key val lifetime s').1 ≡ none =
        let given : (set c codec config key v ttl s).1
            ≡ client_error ((c.set key val lifetime s').1) =
          rw (set, written) refl in
        no_client_error ((c.set key val lifetime s').1) (sym given ∙ taken) in
      let there' = rw after at there in
      let same =
        read_same val has ((c.get key (c.set key val lifetime s').0).1)
          (store.reads_back key val lifetime s' took) there' in
      rw after (
        get_entry key (c.set key val lifetime s').0 val (stamped v ttl s) (there' ∙ ap ok same)
          (decodes (stamped v ttl s) val written))

  -- Where Redis has an entry before `Expire`, and still has one when a `Get` asks it afterwards, the
  -- `Get` goes by the end that the entry was stored with, whatever the lifetime given to `Expire`: it
  -- returns the value up to and at that end, and misses from then on. (Redis may drop the entry
  -- earlier; `EXPIRE` changes no value of Redis.)
  pub get-expire :
      (key : Text) (ttl : ℤ) (s : State) (val has : Data) (entry : CacheEntry V)
      → IsStore c
      → (c.get key s).1 ≡ ok val
      → codec.unmarshal val ≡ ok entry
      → (c.get key (expire c codec config key ttl s).0).1 ≡ ok has
      → (get c codec config key (expire c codec config key ttl s).0).1
        ≡ ok (
            if ltb entry.expires_at (c.now (c.get key (expire c codec config key ttl s).0).0).1
            then none
            else some entry.value)
  unfolding expire
  get-expire key ttl s val has entry store before decoded there =
      let same : has ≡ val =
        read_same val has ((c.get key (c.expire key ttl s).0).1)
          (store.expire_keeps key ttl s val before) there in
      get_entry key (c.expire key ttl s).0 val entry (there ∙ ap ok same) decoded
