-- ===== src/Backoff.antt =====
-- internal/backoff/backoff.go
--
-- The function to retry, the test of its error and the wait are functions on a state. The wait
-- gives none when the timer fires and the error of the context when that is done first. The loop
-- over the attempts is a recursion on those left.
pub mod Attempts
pub mod Calls
pub mod Observed
pub mod Labels
use go_exercise.Base.{
  ℕ, zero, suc, ◌+◌, ◌-◌, ◌*◌, ◌==◌, Bool, true, false, ◌||◌, ◌&&◌, Option, none, some, List, [],
  ◌∷◌, ltb, leb, if◌then◌else◌,
}
use go_exercise.Base.Int.{ℤ, pos, negsuc, second}
use go_exercise.Base.Text.{Text}
use go_exercise.Base.Float64.{Float64}

pub record Config (Num : Type 0) : Type 0 where
  pub base_delay : ℤ
  pub max_delay : ℤ
  pub max_attempts : ℤ
  pub multiplier : Num
  pub jitter_factor : Num

module _ (fl : Float64) where
  open fl use {Num, of_int, truncate, decimal, plus, minus, times, power, less}

  unfoldable pub default_config : Config Num
  default_config = record {
    base_delay = pos 100000000;
    max_delay = pos (30 * second);
    max_attempts = pos 5;
    multiplier = of_int (pos 2);
    jitter_factor = decimal 1 1;
  }

  unfoldable pub limit_delay : Config Num → Num → Num
  limit_delay c delay = if less (of_int c.max_delay) delay then of_int c.max_delay else delay

  -- `r` is what `rng.Float64` gives.
  unfoldable pub add_jitter : Config Num → Num → Num → Num
  add_jitter c r delay =
      if less (of_int (pos 0)) c.jitter_factor
      then plus delay
          (times (minus (times r (of_int (pos 2))) (of_int (pos 1))) (times delay c.jitter_factor))
      else delay

  unfoldable pub avoid_negative : Config Num → Num → Num
  avoid_negative c delay = if less delay (of_int (pos 0)) then of_int c.base_delay else delay

  -- `before` is `attempt-1`.
  unfoldable pub calculate_delay : Config Num → ℕ → Num → ℤ
  unfolding limit_delay add_jitter avoid_negative
  calculate_delay c before r =
      let delay = times (of_int c.base_delay) (power c.multiplier (of_int (pos before))) in
      truncate (avoid_negative c (add_jitter c r (limit_delay c delay)))

  -- What stands between two attempts: the delay, with a number of `rng` if there is jitter, and the
  -- `select` of the context and the timer.
  unfoldable pub timed_wait :
      {S E : Type 0} → Config Num → (S → S × Num) → (ℤ → S → S × Option E) → ℕ → S → S × Option E
  unfolding calculate_delay
  timed_wait c random sleep attempt s =
      if less (of_int (pos 0)) c.jitter_factor
      then (let (s', r) = random s in sleep (calculate_delay c (attempt - 1) r) s')
      else sleep (calculate_delay c (attempt - 1) (of_int (pos 0))) s

pub record HttpError : Type 0 where
  pub status_code : ℕ
  pub message : Text

-- An error, by its dynamic type.
pub data Error (E : Type 0) : Type 0 where
  http_error : HttpError → Error E
  other_error : E → Error E

unfoldable pub new_http_error : ℕ → Text → HttpError
new_http_error status_code message = record { status_code = status_code; message = message }

unfoldable pub is_retryable_http_error : {E : Type 0} → Error E → Bool
is_retryable_http_error (http_error e) =
    (e.status_code == 429) || (leb 500 e.status_code && ltb e.status_code 600)
is_retryable_http_error (other_error e) = false

pub data RetryError (E : Type 0) : Type 0 where
  not_retried : E → RetryError E  -- err
  cancelled : E → RetryError E  -- ctx.Err()
  attempts_reached : ℤ → Option E → RetryError E  -- max attempts (%d) reached, last error: %w

-- What a retried call stands on. `wait attempt` is `timed_wait` of the
-- configuration.
pub record Call (E : Type 0) : Type 1 where
  pub State : Type 0
  pub fn : State → State × Option E
  pub should_retry : E → Bool
  pub wait : ℕ → State → State × Option E

module _ {E : Type 0} (k : Call E) (max : ℤ) where
  open k use {State, fn, should_retry, wait}

  -- The loop from an attempt on, with `left` attempts after it.
  unfoldable pub attempts : ℕ → ℕ → State → State × Option (RetryError E)
  attempts attempt zero s =
      let (s', answer) = fn s in
      elim answer [
        | none ↦ (s', none)
        | some e ↦ elim (should_retry e) [
          | false ↦ (s', some (not_retried e))
          | true ↦ (s', some (attempts_reached max (some e)))
        ]
      ]
  attempts attempt (suc left) s =
      let (s', answer) = fn s in
      elim answer [
        | none ↦ (s', none)
        | some e ↦ elim (should_retry e) [
          | false ↦ (s', some (not_retried e))
          | true ↦
              let (s'', ended) = wait attempt s' in
              elim ended [
                | some c ↦ (s'', some (cancelled c))
                | none ↦ attempts (attempt + 1) left s''
              ]
        ]
      ]

  start : ℤ → State → State × Option (RetryError E)
  start (pos (suc left)) s = attempts 1 left s
  start (pos zero) s = (s, some (attempts_reached max none))
  start (negsuc n) s = (s, some (attempts_reached max none))

  unfoldable pub retry : State → State × Option (RetryError E)
  unfolding start
  retry s = start max s
