-- ===== src/Backoff/Labels.antt =====
-- What the metrics of `Retry` count.
use go_exercise.Base.{
  ℕ, zero, suc, ◌+◌, ◌≤◌, ◌≡◌, ◌⊎◌, refl, ap, sym, ◌∙◌, Option, List, [], ◌∷◌, ◌++◌, map, arith,
  inl, inr, Bool-cases, Option-cases, append_snoc, append_nil,
}
use go_exercise.Base.Int.{ℤ, pos}
use go_exercise.Base.Text.{Text}
use go_exercise.Backoff.{RetryError, attempts, retry}
use go_exercise.Backoff.Observed.{
  BackoffMetrics, TimedCall, count_attempt, observe_delay, unobserved, observed_attempts,
  observed_retry,
}

-- The labels of `count` attempts from the one with the given number on.
unfoldable pub numbered : Text → ℕ → ℕ → List (Text × ℕ)
numbered service a zero = []
numbered service a (suc count) = (service, a) ∷ numbered service (a + 1) count

abbrev pub delayed : List (Text × ℕ × ℤ) → List (Text × ℕ)
delayed = map (λ x. (x.0, x.1))

module _ {E : Type 0} (k : TimedCall E) (service : Text) (max : ℤ) where
  open k use {State, fn, should_retry, calculate_delay, sleep}

  -- The end of the loop is the one without the metrics. `n + 1` attempts are counted, and the delays
  -- behind the first `d` of them.
  pub record IsObserved (a left : ℕ) (s : State) (m : BackoffMetrics)
      (o : (State × BackoffMetrics) × Option (RetryError E)) : Type 0 where
    pub same_end : (o.0.0, o.1) ≡ attempts (unobserved k) max a left s
    pub n : ℕ
    pub d : ℕ
    pub at_most : n ≤ left
    pub between : (d ≡ n) ⊎ (d ≡ suc n)
    pub attempts_counted : o.0.1.backoff_attempts ≡ m.backoff_attempts ++ numbered service a (suc n)
    pub delays_observed :
        delayed o.0.1.backoff_delay ≡ delayed m.backoff_delay ++ numbered service a d

  delayed-snoc :
      (xs : List (Text × ℕ × ℤ)) (y : Text × ℕ × ℤ)
      → delayed (xs ++ y ∷ []) ≡ delayed xs ++ (y.0, y.1) ∷ []
  delayed-snoc [] y = refl
  delayed-snoc (x ∷ xs) y = ap (◌∷◌ (x.0, x.1)) (delayed-snoc xs y)

  -- The loop ends at its first attempt, before the wait or in it.
  ends_at_once :
      (a left : ℕ) (s : State) (m : BackoffMetrics) (s' : State) (r : Option (RetryError E))
      → (s', r) ≡ attempts (unobserved k) max a left s
      → IsObserved a left s m ((s', count_attempt service a m), r)
  unfolding numbered count_attempt
  ends_at_once a left s m s' r same = record {
    same_end = same;
    n = 0;
    d = 0;
    at_most = omega arith;
    between = inl refl;
    attempts_counted = refl;
    delays_observed = sym (append_nil (delayed m.backoff_delay));
  }

  ends_in_wait :
      (a left : ℕ) (s : State) (m : BackoffMetrics) (delay : ℤ) (s' : State)
      (r : Option (RetryError E))
      → (s', r) ≡ attempts (unobserved k) max a left s
      → IsObserved a left s m ((s', observe_delay service a delay (count_attempt service a m)), r)
  unfolding numbered count_attempt observe_delay
  ends_in_wait a left s m delay s' r same = record {
    same_end = same;
    n = 0;
    d = 1;
    at_most = omega arith;
    between = inr refl;
    attempts_counted = refl;
    delays_observed = delayed-snoc m.backoff_delay (service, a, delay);
  }

  -- An attempt and its delay, before those of the loop that goes on.
  goes_on :
      (a left : ℕ) (s s' : State) (m : BackoffMetrics) (delay : ℤ)
      {o : (State × BackoffMetrics) × Option (RetryError E)}
      → attempts (unobserved k) max a (suc left) s ≡ attempts (unobserved k) max (a + 1) left s'
      → IsObserved (a + 1) left s' (observe_delay service a delay (count_attempt service a m)) o
      → IsObserved a (suc left) s m o
  unfolding numbered count_attempt observe_delay
  goes_on a left s s' m delay step h = record {
    same_end = h.same_end ∙ sym step;
    n = suc h.n;
    d = suc h.d;
    at_most = omega (arith, h.at_most);
    between = elim h.between [ inl e ↦ inl (ap suc e) | inr e ↦ inr (ap suc e) ];
    attempts_counted =
        h.attempts_counted
        ∙ append_snoc m.backoff_attempts (service, a) (numbered service (a + 1) (suc h.n));
    delays_observed =
        h.delays_observed
        ∙ ap (λ l. l ++ numbered service (a + 1) h.d)
            (delayed-snoc m.backoff_delay (service, a, delay))
        ∙ append_snoc (delayed m.backoff_delay) (service, a) (numbered service (a + 1) h.d);
  }

  observed_attempts-IsObserved :
      (a left : ℕ) (s : State) (m : BackoffMetrics)
      → IsObserved a left s m (observed_attempts k service max a left s m)
  unfolding observed_attempts attempts
  observed_attempts-IsObserved a zero s m = elim (Option-cases ((fn s).1)) [
    | inl done ↦ rw (observed_attempts, done) (ends_at_once a 0 s m _ _ (rw (attempts, done) refl))
    | inr (e, failed) ↦ elim (Bool-cases (should_retry e)) [
      | inl more ↦
          rw (observed_attempts, failed, more)
            (ends_at_once a 0 s m _ _ (rw (attempts, failed, more) refl))
      | inr refused ↦
          rw (observed_attempts, failed, refused)
            (ends_at_once a 0 s m _ _ (rw (attempts, failed, refused) refl))
    ]
  ]
  observed_attempts-IsObserved a (suc left) s m = elim (Option-cases ((fn s).1)) [
    | inl done ↦
        rw (observed_attempts, done) (ends_at_once a (suc left) s m _ _ (rw (attempts, done) refl))
    | inr (e, failed) ↦ elim (Bool-cases (should_retry e)) [
      | inr refused ↦
          rw (observed_attempts, failed, refused)
            (ends_at_once a (suc left) s m _ _ (rw (attempts, failed, refused) refl))
      | inl more ↦
          let (s', delay) = calculate_delay a (fn s).0 in
          elim (Option-cases ((sleep delay s').1)) [
            | inr (c, ended) ↦
                rw (observed_attempts, failed, more, ended)
                  (ends_in_wait a (suc left) s m delay _ _
                    (rw (attempts, failed, more, ended) refl))
            | inl waited ↦
                rw (observed_attempts, failed, more, waited)
                  (goes_on a left s (sleep delay s').0 m delay
                    (rw (attempts, failed, more, waited) refl)
                    (observed_attempts-IsObserved (a + 1) left (sleep delay s').0 _))
          ]
    ]
  ]

module _ {E : Type 0} (k : TimedCall E) (service : Text) where
  -- With `MaxAttempts` at least one, `Retry` with its metrics ends as it does without them; it counts
  -- the attempts from 1 on, each once, at least one and at most `MaxAttempts`; and it observes a
  -- delay behind each of them, but for the last, behind which it may observe one.
  pub observed_retry-IsObserved :
      (left : ℕ) (s : k.State) (m : BackoffMetrics)
      → ((
        (observed_retry k service (pos (suc left)) s m).0.0,
        (observed_retry k service (pos (suc left)) s m).1,
      )
          ≡ retry (unobserved k) (pos (suc left)) s)
        × IsObserved k service
            (pos (suc left))
            1
            left
            s
            m
            (observed_retry k service (pos (suc left)) s m)
  unfolding observed_retry retry
  observed_retry-IsObserved left s m =
      let h = observed_attempts-IsObserved k service (pos (suc left)) 1 left s m in (h.same_end, h)
