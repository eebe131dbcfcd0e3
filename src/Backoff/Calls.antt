-- ===== src/Backoff/Calls.antt =====
-- How often `Retry` calls its function.
use go_exercise.Base.{
  ℕ, zero, suc, ◌+◌, ◌≤◌, ◌≡◌, refl, Option, some, arith, inl, inr, Bool-cases, Option-cases,
}
use go_exercise.Base.Int.{ℤ, pos}
use go_exercise.Backoff.{Call, RetryError, attempts_reached, attempts, retry}

module _ {E : Type 0} (k : Call E) where
  open k use {State, fn, should_retry, wait}

  -- The same call, with a count of the calls of its function.
  abbrev pub counted : Call E
  counted = record {
    State = State × ℕ;
    fn = λ (s, n). let (s', e) = fn s in ((s', n + 1), e);
    should_retry = should_retry;
    wait = λ a. λ (s, n). let (s', e) = wait a s in ((s', n), e);
  }

  -- The end of a loop of which the calls are counted, beside the end of the loop, for `n` calls
  -- before and at most `left + 1` from then on.
  abbrev pub IsCounted :
      ℤ → ℕ → ℕ → (State × ℕ) × Option (RetryError E) → State × Option (RetryError E) → Type 0
  IsCounted max n left r plain =
      ((r.0.0, r.1) ≡ plain)
      × (n + 1 ≤ r.0.1)
      × (r.0.1 ≤ n + left + 1)
      × ((e : E) → r.1 ≡ some (attempts_reached max (some e)) → r.0.1 ≡ n + left + 1)

  attempts-IsCounted :
      (max : ℤ) (a left : ℕ) (s : State) (n : ℕ)
      → IsCounted max n left (attempts counted max a left (s, n)) (attempts k max a left s)
  unfolding attempts
  attempts-IsCounted max a zero s n = elim (Option-cases ((fn s).1)) [
    | inl done ↦ rw (attempts, done) (refl, omega arith, omega arith, λ e h. absurd (ground arith))
    | inr (e, failed) ↦ elim (Bool-cases (should_retry e)) [
      | inl more ↦ rw (attempts, failed, more) (refl, omega arith, omega arith, λ e h. omega arith)
      | inr refused ↦
          rw (attempts, failed, refused)
            (refl, omega arith, omega arith, λ e h. absurd (ground arith))
    ]
  ]
  attempts-IsCounted max a (suc left) s n = elim (Option-cases ((fn s).1)) [
    | inl done ↦ rw (attempts, done) (refl, omega arith, omega arith, λ e h. absurd (ground arith))
    | inr (e, failed) ↦ elim (Bool-cases (should_retry e)) [
      | inr refused ↦
          rw (attempts, failed, refused)
            (refl, omega arith, omega arith, λ e h. absurd (ground arith))
      | inl more ↦ elim (Option-cases ((wait a (fn s).0).1)) [
        | inr (c, ended) ↦
            rw (attempts, failed, more, ended)
              (refl, omega arith, omega arith, λ e h. absurd (ground arith))
        | inl waited ↦
            let (same, least, most, full) =
              attempts-IsCounted max (a + 1) left (wait a (fn s).0).0 (n + 1) in
            rw (attempts, failed, more, waited)
              (same, omega arith, omega arith, λ e h. ground (arith, full e h))
      ]
    ]
  ]

  -- With `MaxAttempts` at least one, `Retry` calls its function at least once and at most so many
  -- times, and exactly so many if it ends with the error that the attempts are used up. The count
  -- does not change the end.
  pub retry-IsCounted :
      (left : ℕ) (s : State)
      → IsCounted
          (pos (suc left))
          0
          left
          (retry counted (pos (suc left)) (s, 0))
          (retry k (pos (suc left)) s)
  unfolding retry
  retry-IsCounted left s = attempts-IsCounted (pos (suc left)) 1 left s 0
