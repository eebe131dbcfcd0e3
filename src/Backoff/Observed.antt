-- ===== src/Backoff/Observed.antt =====
-- `Retry` with its metrics: `backoff_attempts_total` and `backoff_delay_seconds`.
use go_exercise.Base.{ℕ, zero, suc, ◌+◌, Bool, true, false, Option, none, some, List, [], ◌∷◌, ◌++◌}
use go_exercise.Base.Int.{ℤ, pos, negsuc}
use go_exercise.Base.Text.{Text}
use go_exercise.Backoff.{Call, RetryError, not_retried, cancelled, attempts_reached}

-- Each increment and each observation, by its labels.
pub record BackoffMetrics : Type 0 where
  pub backoff_attempts : List (Text × ℕ)
  pub backoff_delay : List (Text × ℕ × ℤ)

-- A call with its delay apart from the `select`.
pub record TimedCall (E : Type 0) : Type 1 where
  pub State : Type 0
  pub fn : State → State × Option E
  pub should_retry : E → Bool
  pub calculate_delay : ℕ → State → State × ℤ
  pub sleep : ℤ → State → State × Option E

unfoldable pub count_attempt : Text → ℕ → BackoffMetrics → BackoffMetrics
count_attempt service attempt m = record m {
  backoff_attempts = m.backoff_attempts ++ (service, attempt) ∷ [];
}

unfoldable pub observe_delay : Text → ℕ → ℤ → BackoffMetrics → BackoffMetrics
observe_delay service attempt delay m = record m {
  backoff_delay = m.backoff_delay ++ (service, attempt, delay) ∷ [];
}

module _ {E : Type 0} (k : TimedCall E) where
  open k use {State, fn, should_retry, calculate_delay, sleep}

  -- The same without the metrics.
  abbrev pub unobserved : Call E
  unobserved = record {
    State = State;
    fn = fn;
    should_retry = should_retry;
    wait = λ attempt. λ s. let (s', delay) = calculate_delay attempt s in sleep delay s';
  }

  module _ (service : Text) (max : ℤ) where
    unfoldable pub observed_attempts :
        ℕ → ℕ → State → BackoffMetrics → (State × BackoffMetrics) × Option (RetryError E)
    unfolding count_attempt observe_delay
    observed_attempts attempt zero s m =
        let m' = count_attempt service attempt m in
        let (s', answer) = fn s in
        elim answer [
          | none ↦ ((s', m'), none)
          | some e ↦ elim (should_retry e) [
            | false ↦ ((s', m'), some (not_retried e))
            | true ↦ ((s', m'), some (attempts_reached max (some e)))
          ]
        ]
    observed_attempts attempt (suc left) s m =
        let m' = count_attempt service attempt m in
        let (s', answer) = fn s in
        elim answer [
          | none ↦ ((s', m'), none)
          | some e ↦ elim (should_retry e) [
            | false ↦ ((s', m'), some (not_retried e))
            | true ↦
                let (s'', delay) = calculate_delay attempt s' in
                let m'' = observe_delay service attempt delay m' in
                let (s3, ended) = sleep delay s'' in
                elim ended [
                  | some c ↦ ((s3, m''), some (cancelled c))
                  | none ↦ observed_attempts (attempt + 1) left s3 m''
                ]
          ]
        ]

    unfoldable pub observed_retry :
        State → BackoffMetrics → (State × BackoffMetrics) × Option (RetryError E)
    unfolding observed_attempts
    observed_retry s m = start max
      where
        start : ℤ → (State × BackoffMetrics) × Option (RetryError E)
        start (pos (suc left)) = observed_attempts 1 left s m
        start (pos zero) = ((s, m), some (attempts_reached max none))
        start (negsuc n) = ((s, m), some (attempts_reached max none))
