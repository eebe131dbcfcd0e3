-- ===== src/Cache/Fallback/Stopping/Quiet.antt =====
-- What the calls of `StopBackgroundRefresh` wait for.
use go_exercise.Base.{
  ℕ, zero, suc, ◌-◌, ◌≤◌, ◌≡◌, refl, sym, ap, ◌∙◌, true, false, List, [], ◌∷◌, ◌++◌, arith, inl,
  inr, Bool-cases, length, length-append,
}
use go_exercise.Base.Float64.{Float64}
use go_exercise.Base.Text.{Text}
use go_exercise.Cache.Fallback.{CacheApi, FallbackCache, set_fallback}
use go_exercise.Cache.Fallback.Workers.{started, start_background_refresh}
use go_exercise.Cache.Fallback.Stopping.{
  RefreshSteps, Job, calling, setting, copying, offering, evicting, clearing, Stopping, job_step,
  Step, takes_key, refresh_ticks, cleanup_ticks, works, sees_stop, sees_done, cancels, begins_stop,
  finds_stopped, ends_wait, Reach, start, later, refreshers, begun,
}

module _ {V E R F : Type 0} {P : CacheApi V E} (fl : Float64) (refresh : RefreshSteps P R F) where
  open refresh use {Local}

  abbrev pub State : Type 0
  State = Stopping P R Local

  job_step_kept :
      (now created : ℕ) (clock : Text → ℕ) (j : Job Local V) (f : FallbackCache P) (r : R)
      → ((job_step fl refresh now created clock j (f, r)).0.0.stopped ≡ f.stopped)
        × ((job_step fl refresh now created clock j (f, r)).0.0.workers ≡ f.workers)
  unfolding job_step set_fallback
  job_step_kept now created clock (calling key l) f r = (refl, refl)
  job_step_kept now created clock (setting key value ttl) f r = (refl, refl)
  job_step_kept now created clock (copying key value) f r = (refl, refl)
  job_step_kept now created clock (offering []) f r = (refl, refl)
  job_step_kept now created clock (offering (key ∷ keys)) f r = (refl, refl)
  job_step_kept now created clock evicting f r = (refl, refl)
  job_step_kept now created clock clearing f r = (refl, refl)

  length-replaced :
      {W : Type 0} (before after ws : List W) (w w' : W) (n : ℕ)
      → n ≡ length ws
      → ws ≡ before ++ w ∷ after
      → n ≡ length (before ++ w' ∷ after)
  length-replaced before after ws w w' n h e =
      omega
        (arith, h, ap length e, length-append before (w ∷ after), length-append before (w' ∷ after))

  length-removed :
      {W : Type 0} (before after ws : List W) (w : W) (n : ℕ)
      → n ≡ length ws
      → ws ≡ before ++ w ∷ after
      → n - 1 ≡ length (before ++ after)
  length-removed before after ws w n h e =
      omega (arith, h, ap length e, length-append before (w ∷ after), length-append before after)

  -- Where the calls of `StopBackgroundRefresh` stand.
  pub data Phase (s : State) : Type 0 where
    before_stop : s.held ≡ false → s.returned ≡ 0 → s.cache.stopped ≡ false → Phase s
    in_wait : s.held ≡ true → s.returned ≡ 0 → s.cache.stopped ≡ true → Phase s
    after_stop : s.held ≡ false → s.cache.workers ≡ 0 → s.cache.stopped ≡ true → Phase s

  -- `wg` counts the workers that have not returned.
  pub record IsCounted (s : State) : Type 0 where
    pub counted : s.cache.workers ≡ length s.running
    pub phase : Phase s

  keep-Phase :
      {s s' : State}
      → s'.held ≡ s.held
      → s'.returned ≡ s.returned
      → s'.cache.stopped ≡ s.cache.stopped
      → s'.cache.workers ≤ s.cache.workers
      → Phase s
      → Phase s'
  keep-Phase a b c d (before_stop h r o) = before_stop (a ∙ h) (b ∙ r) (c ∙ o)
  keep-Phase a b c d (in_wait h r o) = in_wait (a ∙ h) (b ∙ r) (c ∙ o)
  keep-Phase a b c d (after_stop h z o) = after_stop (a ∙ h) (omega arith) (c ∙ o)

  begin-Phase :
      {s : State}
      → s.held ≡ false
      → s.cache.stopped ≡ false
      → Phase s
      → Phase (record s { cache = record s.cache { stopped = true }; held = true })
  begin-Phase h' o' (before_stop h r o) = in_wait refl r refl
  begin-Phase h' o' (in_wait h r o) = absurd (ground arith)
  begin-Phase h' o' (after_stop h z o) = absurd (ground arith)

  found-Phase :
      {s : State}
      → s.held ≡ false
      → s.cache.stopped ≡ true
      → Phase s
      → Phase (record s { returned = suc s.returned })
  found-Phase h' o' (before_stop h r o) = absurd (ground arith)
  found-Phase h' o' (in_wait h r o) = absurd (ground arith)
  found-Phase h' o' (after_stop h z o) = after_stop h z o

  end-Phase :
      {s : State}
      → s.held ≡ true
      → s.cache.workers ≡ 0
      → Phase s
      → Phase (record s { held = false; returned = suc s.returned })
  end-Phase h' z' (before_stop h r o) = absurd (ground arith)
  end-Phase h' z' (in_wait h r o) = after_stop refl z' o
  end-Phase h' z' (after_stop h z o) = absurd (ground arith)

  pub Step-IsCounted : {s s' : State} → IsCounted s → Step fl refresh s s' → IsCounted s'
  Step-IsCounted {s} i (takes_key before after key ch e q) = record {
    counted = length-replaced before after s.running _ _ _ i.counted e;
    phase = keep-Phase refl refl refl (omega arith) i.phase;
  }
  Step-IsCounted {s} i (refresh_ticks before after clock e) = record {
    counted = length-replaced before after s.running _ _ _ i.counted e;
    phase = keep-Phase refl refl refl (omega arith) i.phase;
  }
  Step-IsCounted {s} i (cleanup_ticks before after e) = record {
    counted = length-replaced before after s.running _ _ _ i.counted e;
    phase = keep-Phase refl refl refl (omega arith) i.phase;
  }
  Step-IsCounted {s} i (works before after k j now created clock e) =
      let (stopped, workers) = job_step_kept now created clock j s.cache s.rest in
      record {
        counted = workers ∙ length-replaced before after s.running _ _ _ i.counted e;
        phase = keep-Phase refl refl stopped (omega (arith, workers)) i.phase;
      }
  Step-IsCounted {s} i (sees_stop before after k e o) = record {
    counted = length-removed before after s.running _ _ i.counted e;
    phase = keep-Phase refl refl refl (omega arith) i.phase;
  }
  Step-IsCounted {s} i (sees_done before after k e d) = record {
    counted = length-removed before after s.running _ _ i.counted e;
    phase = keep-Phase refl refl refl (omega arith) i.phase;
  }
  Step-IsCounted i cancels = record {
    counted = i.counted;
    phase = keep-Phase refl refl refl (omega arith) i.phase;
  }
  Step-IsCounted i (begins_stop h o) = record {
    counted = i.counted;
    phase = begin-Phase h o i.phase;
  }
  Step-IsCounted i (finds_stopped h o) = record {
    counted = i.counted;
    phase = found-Phase h o i.phase;
  }
  Step-IsCounted i (ends_wait h z) = record { counted = i.counted; phase = end-Phase h z i.phase }

  pub Reach-IsCounted : {s s' : State} → IsCounted s → Reach fl refresh s s' → IsCounted s'
  Reach-IsCounted i start = i
  Reach-IsCounted i (later r st) = Step-IsCounted (Reach-IsCounted i r) st

  length-refreshers : (n : ℕ) → length (refreshers fl refresh n) ≡ n
  length-refreshers zero = refl
  length-refreshers (suc n) = ap suc (length-refreshers n)

  pub begun-IsCounted :
      (f : FallbackCache P) (r : R)
      → f.stopped ≡ false
      → f.workers ≡ 0
      → IsCounted (begun fl refresh f r)
  unfolding start_background_refresh
  begun-IsCounted f r open_ idle = elim (Bool-cases f.config.enable_fallback) [
    | inl on ↦ record {
      counted = rw on (omega (arith, idle, length-refreshers (started f.config.refresh_workers)));
      phase = rw on (before_stop refl refl open_);
    }
    | inr off ↦ record { counted = rw off idle; phase = rw off (before_stop refl refl open_) }
  ]

  no_worker :
      {W : Type 0} (before after ws : List W) (w : W) → ws ≡ [] → ws ≡ before ++ w ∷ after → ⊥
  no_worker before after ws w none_left e =
      omega (arith, ap length none_left, ap length e, length-append before (w ∷ after))

  -- No call of `StopBackgroundRefresh` waits, the workers have returned, and the cache is `c`.
  record IsQuiet (c : FallbackCache P) (r : R) (s : State) : Type 0 where
    none_left : s.running ≡ []
    same_cache : s.cache ≡ c
    same_rest : s.rest ≡ r
    closed : s.cache.stopped ≡ true
    free : s.held ≡ false

  Step-IsQuiet :
      {c : FallbackCache P} {r : R} {s s' : State}
      → IsQuiet c r s
      → Step fl refresh s s'
      → IsQuiet c r s'
  Step-IsQuiet {s = s} q (takes_key before after key ch e h) =
      absurd (no_worker before after s.running _ q.none_left e)
  Step-IsQuiet {s = s} q (refresh_ticks before after clock e) =
      absurd (no_worker before after s.running _ q.none_left e)
  Step-IsQuiet {s = s} q (cleanup_ticks before after e) =
      absurd (no_worker before after s.running _ q.none_left e)
  Step-IsQuiet {s = s} q (works before after k j now created clock e) =
      absurd (no_worker before after s.running _ q.none_left e)
  Step-IsQuiet {s = s} q (sees_stop before after k e o) =
      absurd (no_worker before after s.running _ q.none_left e)
  Step-IsQuiet {s = s} q (sees_done before after k e d) =
      absurd (no_worker before after s.running _ q.none_left e)
  Step-IsQuiet q cancels = record {
    none_left = q.none_left;
    same_cache = q.same_cache;
    same_rest = q.same_rest;
    closed = q.closed;
    free = q.free;
  }
  Step-IsQuiet q (begins_stop h o) = let closed = q.closed in absurd (ground arith)
  Step-IsQuiet q (finds_stopped h o) = record {
    none_left = q.none_left;
    same_cache = q.same_cache;
    same_rest = q.same_rest;
    closed = q.closed;
    free = q.free;
  }
  Step-IsQuiet q (ends_wait h z) = let free = q.free in absurd (ground arith)

  Reach-stays :
      {c : FallbackCache P} {r : R} {s s' : State}
      → IsQuiet c r s
      → Reach fl refresh s s'
      → IsQuiet c r s'
  Reach-stays q start = q
  Reach-stays q (later r st) = Step-IsQuiet (Reach-stays q r) st

  empty_list : {W : Type 0} (ws : List W) → length ws ≡ 0 → ws ≡ []
  empty_list [] h = refl
  empty_list (w ∷ ws) h = absurd (omega arith)

  returned-IsQuiet :
      {s : State} (n : ℕ) → IsCounted s → s.returned ≡ suc n → IsQuiet s.cache s.rest s
  returned-IsQuiet {s} n i back = elim i.phase [
    | before_stop h none_back o ↦ absurd (omega arith)
    | in_wait h none_back o ↦ absurd (omega arith)
    | after_stop h z o ↦ record {
      none_left = empty_list s.running (sym i.counted ∙ z);
      same_cache = refl;
      same_rest = refl;
      closed = o;
      free = h;
    }
  ]

  -- From a cache whose background refresh was started once, with the steps of its workers, of which
  -- several may be in the middle of a refresh or of a cleanup, and of the calls of
  -- `StopBackgroundRefresh` in any order: when such a call has returned, all workers have returned,
  -- and from then on none of these steps changes the cache or what `refreshFunc` stands on. (The
  -- calls of the other methods of the cache are not among the steps.)
  pub Reach-stop :
      (f : FallbackCache P) (r : R) (n : ℕ) {s s' : State}
      → f.stopped ≡ false
      → f.workers ≡ 0
      → Reach fl refresh (begun fl refresh f r) s
      → s.returned ≡ suc n
      → Reach fl refresh s s'
      → (s'.running ≡ []) × (s'.cache ≡ s.cache) × (s'.rest ≡ s.rest)
  Reach-stop f r n open_ idle before_ back after_ =
      let q =
        Reach-stays
          (returned-IsQuiet n (Reach-IsCounted (begun-IsCounted f r open_ idle) before_) back)
          after_ in
      (q.none_left, q.same_cache, q.same_rest)
