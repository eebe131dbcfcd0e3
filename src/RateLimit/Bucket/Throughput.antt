-- ===== src/RateLimit/Bucket/Throughput.antt =====
-- How much a token bucket lets through over a run of calls.
use go_exercise.Base.{
  ℕ, ◌+◌, ◌-◌, ◌*◌, ◌^◌, ◌≤◌, ◌<◌, ◌≡◌, List, [], ◌∷◌, All, arith, if◌then◌else◌, inl, inr, leb,
  Bool-cases,
}
use go_exercise.Base.Int.{pos_part, second}
use go_exercise.Base.Float64.{Float64}
use go_exercise.RateLimit.Bucket.{TokenBucket, tokens_to_add, refill, consume, allow_n}

-- What IEEE 754 gives: the three roundings of `elapsed.Seconds() * rate` stay below 10⁻⁹ while the
-- product is below 2⁵¹ / 10⁹, so the truncation never passes the exact quotient.
pub record IsAccurate (fl : Float64) : Type 0 where
  pub credit_le :
      (elapsed rate : ℕ)
      → elapsed * rate < 2 ^ 51
      → pos_part (tokens_to_add fl elapsed rate) * second ≤ elapsed * rate

-- Billionths of a token that the bucket holds, or earns until `t`.
unfoldable pub budget : TokenBucket → ℕ → ℕ
budget tb t = tb.tokens * second + (t - tb.last_refill) * tb.refill_rate

-- The window until `t` is short enough for the arithmetic.
abbrev pub InWindow : TokenBucket → ℕ → Type 0
InWindow tb t = (t - tb.last_refill) * tb.refill_rate < 2 ^ 51

-- A run of `AllowN` calls, each with its `n` and its time; the sum of the admitted `n`.
-- A window that is cut at `now` is the sum of its two parts, each no longer than the whole.
split_window :
    (last now t r : ℕ) → last ≤ now → now ≤ t → ((t - now) * r + (now - last) * r ≡ (t - last) * r)
split_window last now t r h k =
    let e : t - last ≡ (t - now) + (now - last) = omega arith in rw e (omega arith)

module _ (fl : Float64) where
  unfoldable pub run : TokenBucket → List (ℕ × ℕ) → TokenBucket × ℕ
  run tb [] = (tb, 0)
  run tb ((n, now) ∷ calls) =
      let (tb', admitted) = allow_n fl tb n now in
      let (last, sum) = run tb' calls in (last, if admitted then n + sum else sum)

  pub budget-refill :
      (acc : IsAccurate fl) (tb : TokenBucket) (now t : ℕ)
      → now ≤ t
      → InWindow tb t
      → (budget (refill fl tb now) t ≤ budget tb t) × InWindow (refill fl tb now) t
  unfolding refill budget
  budget-refill acc tb now t h w = elim (Bool-cases (leb now tb.last_refill)) [
    | inl early ↦ ground arith
    | inr later ↦
        let parts = split_window tb.last_refill now t tb.refill_rate (ground arith) h in
        let credit = acc.credit_le (now - tb.last_refill) tb.refill_rate (omega arith) in
        ground (arith, parts, credit)
  ]

  pub budget-consume :
      (tb : TokenBucket) (n t : ℕ)
      → (budget (consume tb n).0 t + (if (consume tb n).1 then n * second else 0) ≡ budget tb t)
        × (InWindow tb t → InWindow (consume tb n).0 t)
  unfolding consume budget
  budget-consume tb n t = ground arith

  pub budget-allow_n :
      (acc : IsAccurate fl) (tb : TokenBucket) (n now t : ℕ)
      → now ≤ t
      → InWindow tb t
      → (budget (allow_n fl tb n now).0 t + (if (allow_n fl tb n now).1 then n * second else 0)
          ≤ budget tb t)
        × InWindow (allow_n fl tb n now).0 t
  unfolding allow_n
  budget-allow_n acc tb n now t h w =
      let (less, inside) = budget-refill acc tb now t h w in
      let (spent, kept) = budget-consume (refill fl tb now) n t in (rw spent less, kept inside)

  -- The tokens that a run of `AllowN` calls grants until time t, in billionths, are at most those
  -- in the bucket and those that the rate gives in the time since its last refill; the clock may
  -- stand still or go back between calls. (float64 is accurate, and the window is short enough.)
  pub run-le-budget :
      (acc : IsAccurate fl) (tb : TokenBucket) (calls : List (ℕ × ℕ)) (t : ℕ)
      → All (λ c. c.1 ≤ t) calls
      → InWindow tb t
      → (run tb calls).1 * second ≤ tb.tokens * second + (t - tb.last_refill) * tb.refill_rate
  unfolding run budget
  run-le-budget acc tb [] t _ w = omega arith
  run-le-budget acc tb ((n, now) ∷ calls) t (h, hs) w =
      let tb' = (allow_n fl tb n now).0 in
      let (spent, inside) = budget-allow_n acc tb n now t h w in
      let rest = run-le-budget acc tb' calls t hs inside in ground (arith, spent, rest)
