-- ===== src/Cache/Fallback/Stopping/Return.antt =====
-- A call of `StopBackgroundRefresh` that waits can return.
use go_exercise.Base.{
  ℕ, zero, suc, ◌+◌, ◌≤◌, ◌<◌, ◌≡◌, ◌⊎◌, refl, true, Option, none, some, List, [], ◌∷◌, arith, inl,
  inr, length,
}
use go_exercise.Base.Int.{ℤ}
use go_exercise.Base.Float64.{Float64}
use go_exercise.Base.Result.{Result, ok, err}
use go_exercise.Base.Text.{Text}
use go_exercise.Cache.Fallback.{CacheApi, FallbackCache}
use go_exercise.Cache.Fallback.Workers.{Caches, caches_of}
use go_exercise.Cache.Fallback.Stopping.{
  RefreshSteps, Job, calling, setting, copying, offering, evicting, clearing, Kind, Worker, called,
  job_step, Step, works, sees_stop, Reach, start, later,
}
use go_exercise.Cache.Fallback.Stopping.Quiet.{
  State, Phase, before_stop, in_wait, after_stop, IsCounted, Step-IsCounted,
}

-- What is relied on of `refreshFunc`: it returns, each step brings it nearer to that.
pub record IsReturning {V E R F : Type 0} {P : CacheApi V E} (refresh : RefreshSteps P R F)
    : Type 0 where
  pub steps_left : refresh.Local → ℕ
  pub fewer :
      (l l' : refresh.Local) (x : Caches P × R)
      → (refresh.step l x).1 ≡ inl l'
      → steps_left l' < steps_left l

module _ {V E R F : Type 0} {P : CacheApi V E} (fl : Float64) (refresh : RefreshSteps P R F)
    (ret : IsReturning refresh) where
  open refresh use {Local}

  abbrev left : Option (Job Local V) → ℕ
  left none = 0
  left (some (calling key l)) = ret.steps_left l + 3
  left (some (setting key value ttl)) = 2
  left (some (copying key value)) = 1
  left (some (offering keys)) = suc (length keys)
  left (some evicting) = 2
  left (some clearing) = 1

  left-called :
      (key : Text) (next : Local ⊎ Result F (V × ℤ)) (n : ℕ)
      → ((l : Local) → next ≡ inl l → ret.steps_left l < n)
      → left (called fl refresh key next) < n + 3
  left-called key (inl l) n h = omega (arith, h l refl)
  left-called key (inr (err e)) n h = omega arith
  left-called key (inr (ok (value, ttl))) n h = omega arith

  -- Each step at a job leaves fewer.
  left-job_step :
      (j : Job Local V) (f : FallbackCache P) (r : R)
      → left (job_step fl refresh 0 0 (λ key. 0) j (f, r)).1 < left (some j)
  unfolding job_step
  left-job_step (calling key l) f r =
      left-called key (refresh.step l (caches_of f, r)).1 (ret.steps_left l)
        (λ l' e. ret.fewer l l' (caches_of f, r) e)
  left-job_step (setting key value ttl) f r = omega arith
  left-job_step (copying key value) f r = omega arith
  left-job_step (offering []) f r = omega arith
  left-job_step (offering (key ∷ keys)) f r = omega arith
  left-job_step evicting f r = omega arith
  left-job_step clearing f r = omega arith

  sooner :
      {s s' s'' : State fl refresh}
      → Step fl refresh s s'
      → Reach fl refresh s' s''
      → Reach fl refresh s s''
  sooner st start = later start st
  sooner st (later r st') = later (sooner st r) st'

  -- A state in which one more call of `StopBackgroundRefresh` has returned.
  abbrev pub Returned : State fl refresh → Type 0
  Returned s = (s' : State fl refresh) × Reach fl refresh s s' × (s'.returned ≡ suc s.returned)

  -- The first worker finishes its job and returns; what is left is done by `rest`.
  finish :
      (n : ℕ) (k : Kind) (j : Option (Job Local V)) (ws : List (Worker Local V))
      (s : State fl refresh)
      → left j ≤ n
      → s.running ≡ record { kind = k; job = j } ∷ ws
      → IsCounted fl refresh s
      → s.held ≡ true
      → ((s' : State fl refresh)
          → s'.running ≡ ws
          → IsCounted fl refresh s'
          → s'.held ≡ true
          → Returned s')
      → Returned s
  finish n k none ws s h e i held rest =
      let st = sees_stop [] ws k e (stopped_in_wait i.phase held) in
      let (s', r, back) = rest _ refl (Step-IsCounted fl refresh i st) held in
      (s', sooner st r, back)
    where
      stopped_in_wait : Phase fl refresh s → s.held ≡ true → s.cache.stopped ≡ true
      stopped_in_wait (before_stop h r o) held = absurd (ground arith)
      stopped_in_wait (in_wait h r o) held = o
      stopped_in_wait (after_stop h z o) held = o
  finish zero k (some j) ws s h e i held rest =
      absurd (omega (arith, left-job_step j s.cache s.rest))
  finish (suc n) k (some j) ws s h e i held rest =
      let st = works [] ws k j 0 0 (λ key. 0) e in
      let (s', r, back) =
        finish n k (job_step fl refresh 0 0 (λ key. 0) j (s.cache, s.rest)).1 ws _
          (omega (arith, left-job_step j s.cache s.rest)) refl (Step-IsCounted fl refresh i st) held
          rest in
      (s', sooner st r, back)
