-- ===== src/Backoff/Attempts.antt =====
-- `Retry` against a description of its runs.
use go_exercise.Base.{
  ℕ, zero, suc, ◌+◌, ◌≡◌, ◌↔◌, ◌∙◌, ap, refl, true, false, Option, none, some, arith, inl, inr,
  Bool-cases, Option-cases,
}
use go_exercise.Base.Int.{ℤ, pos}
use go_exercise.Backoff.{
  Call, RetryError, not_retried, cancelled, attempts_reached, attempts, retry,
}

module _ {E : Type 0} (k : Call E) where
  open k use {State, fn, should_retry, wait}

  -- `Retried a s n b t`: from the attempt `a` in the state `s`, `n` attempts in a row fail, each is
  -- to be retried, and each wait runs to its end; then comes the attempt `b` in the state `t`.
  pub data Retried : ℕ → State → ℕ → ℕ → State → Type 0 where
    first : {a : ℕ} {s : State} → Retried a s 0 a s
    again :
        {a n b : ℕ} {s t : State} (e : E)
        → (fn s).1 ≡ some e
        → should_retry e ≡ true
        → (wait a (fn s).0).1 ≡ none
        → Retried (a + 1) (wait a (fn s).0).0 n b t
        → Retried a s (suc n) b t

  -- How the call of the attempt `a` in the state `s`, with `left` attempts after it, ends the loop.
  pub data Ends (max : ℤ) : ℕ → ℕ → State → State × Option (RetryError E) → Type 0 where
    succeeds : {a left : ℕ} {s : State} → (fn s).1 ≡ none → Ends max a left s ((fn s).0, none)
    refuses :
        {a left : ℕ} {s : State} (e : E)
        → (fn s).1 ≡ some e
        → should_retry e ≡ false
        → Ends max a left s ((fn s).0, some (not_retried e))
    exhausts :
        {a : ℕ} {s : State} (e : E)
        → (fn s).1 ≡ some e
        → should_retry e ≡ true
        → Ends max a 0 s ((fn s).0, some (attempts_reached max (some e)))
    stops :
        {a left : ℕ} {s : State} (e c : E)
        → (fn s).1 ≡ some e
        → should_retry e ≡ true
        → (wait a (fn s).0).1 ≡ some c
        → Ends max a (suc left) s ((wait a (fn s).0).0, some (cancelled c))

  -- The loop makes some attempts that fail and are retried, and one more that ends it.
  abbrev pub Run : ℤ → ℕ → ℕ → State → State × Option (RetryError E) → Type 0
  Run max a left s r =
      (n : ℕ) × (rest : ℕ) × (b : ℕ) × (t : State) × (n + rest ≡ left)
      × Retried a s n b t
      × Ends max b rest t r

  last_attempt : (max : ℤ) (a : ℕ) (s : State) → Ends max a 0 s (attempts k max a 0 s)
  unfolding attempts
  last_attempt max a s = elim (Option-cases ((fn s).1)) [
    | inl done ↦ rw (attempts, done) (succeeds done)
    | inr (e, failed) ↦ elim (Bool-cases (should_retry e)) [
      | inl more ↦ rw (attempts, failed, more) (exhausts e failed more)
      | inr refused ↦ rw (attempts, failed, refused) (refuses e failed refused)
    ]
  ]

  attempts-Run : (max : ℤ) (a left : ℕ) (s : State) → Run max a left s (attempts k max a left s)
  unfolding attempts
  attempts-Run max a zero s = (0, 0, a, s, omega arith, first, last_attempt max a s)
  attempts-Run max a (suc left) s = elim (Option-cases ((fn s).1)) [
    | inl done ↦ rw (attempts, done) (0, suc left, a, s, omega arith, first, succeeds done)
    | inr (e, failed) ↦ elim (Bool-cases (should_retry e)) [
      | inr refused ↦
          rw (attempts, failed, refused)
            (0, suc left, a, s, omega arith, first, refuses e failed refused)
      | inl more ↦ elim (Option-cases ((wait a (fn s).0).1)) [
        | inr (c, ended) ↦
            rw (attempts, failed, more, ended)
              (0, suc left, a, s, omega arith, first, stops e c failed more ended)
        | inl waited ↦
            let (n, rest, b, t, sum, retried, ends) =
              attempts-Run max (a + 1) left (wait a (fn s).0).0 in
            rw (attempts, failed, more, waited)
              (suc n, rest, b, t, omega arith, again e failed more waited retried, ends)
      ]
    ]
  ]

  Ends-attempts :
      {max : ℤ} {a left : ℕ} {s : State} {r : State × Option (RetryError E)}
      → Ends max a left s r
      → attempts k max a left s ≡ r
  unfolding attempts
  Ends-attempts {left = zero} (succeeds done) = rw (attempts, done) refl
  Ends-attempts {left = suc n} (succeeds done) = rw (attempts, done) refl
  Ends-attempts {left = zero} (refuses e failed refused) = rw (attempts, failed, refused) refl
  Ends-attempts {left = suc n} (refuses e failed refused) = rw (attempts, failed, refused) refl
  Ends-attempts (exhausts e failed more) = rw (attempts, failed, more) refl
  Ends-attempts (stops e c failed more ended) = rw (attempts, failed, more, ended) refl

  Retried-attempts :
      {a n b : ℕ} {s t : State} (max : ℤ) (left rest : ℕ)
      → Retried a s n b t
      → n + rest ≡ left
      → attempts k max a left s ≡ attempts k max b rest t
  unfolding attempts
  Retried-attempts max left rest (first {a} {s}) sum =
      ap (λ n. attempts k max a n s) (ground (arith, sum))
  Retried-attempts max zero rest (again e failed more waited retried) sum = absurd (omega arith)
  Retried-attempts max (suc left) rest (again e failed more waited retried) sum =
      rw (attempts, failed, more, waited) (Retried-attempts max left rest retried (omega arith))

  -- With `MaxAttempts` at least one, `Retry` ends in a state with an error exactly when so many
  -- attempts fail, are to be retried and are waited out, and the next one, which is at most the
  -- last, ends it: it succeeds, its error is not to be retried, it is the last, or the context is
  -- done during the wait.
  pub retry_exact :
      (left : ℕ) (s : State) (r : State × Option (RetryError E))
      → (retry k (pos (suc left)) s ≡ r) ↔ Run (pos (suc left)) 1 left s r
  unfolding retry
  retry_exact left s r = (
    λ same. rw (← same) (attempts-Run (pos (suc left)) 1 left s),
    λ (n, rest, b, t, sum, retried, ends).
        Retried-attempts (pos (suc left)) left rest retried sum ∙ Ends-attempts ends,
  )

  -- The loop that ends without an error ends by a call that succeeds.
  pub Ends-success :
      {max : ℤ} {a left : ℕ} {s : State} {r : State × Option (RetryError E)}
      → Ends max a left s r
      → r.1 ≡ none
      → ((fn s).1 ≡ none) × ((fn s).0 ≡ r.0)
  Ends-success (succeeds done) h = (done, refl)
  Ends-success (refuses e failed refused) h = absurd (ground arith)
  Ends-success (exhausts e failed more) h = absurd (ground arith)
  Ends-success (stops e c failed more ended) h = absurd (ground arith)
