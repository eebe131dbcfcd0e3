-- ===== src/RateLimit/Limiter/Interleaved/Bounds.antt =====
-- How many requests are admitted, however the requests are interleaved.
use go_exercise.Base.{
  ℕ, ◌+◌, ◌-◌, ◌*◌, ◌≤◌, ◌≡◌, refl, List, [], ◌∷◌, ◌++◌, arith, inl, inr, if◌then◌else◌, length,
  Bool-cases,
}
use go_exercise.Base.Int.{second}
use go_exercise.Base.Text.{Text}
use go_exercise.Base.Float64.{Float64}
use go_exercise.RateLimit.Bucket
use go_exercise.RateLimit.Bucket.Bounds.{allow_n-IsValid, refill-IsValid}
use go_exercise.RateLimit.Bucket.Throughput.{
  IsAccurate, InWindow, budget, budget-refill, budget-allow_n,
}
use go_exercise.RateLimit.Limiter.{
  RateLimiter, Readings, return_token, return_global_token, cleanup, allow_ip, get_stats,
}
use go_exercise.RateLimit.Limiter.Interleaved.{
  System, idle, give_back, begin_allow, check_client, Step, begins, checks, gives_back, cleans_up,
  reads_stats, Reach, start, later,
}

-- The requests that hold a token of the global bucket, or have used one.
abbrev pub holders : System → ℕ
holders s = length s.checking + s.returning + s.admitted

-- In billionths of a token: the budget until `t` and the tokens that are held are at most `total`.
pub record IsWithin (t total : ℕ) (s : System) : Type 0 where
  pub paid : budget s.limiter.global_bucket t + holders s * second ≤ total
  pub bounded : s.limiter.global_bucket.tokens ≤ s.limiter.global_bucket.capacity
  pub in_window : InWindow s.limiter.global_bucket t

length-middle : (xs ys : List Text) (x : Text) → length (xs ++ x ∷ ys) ≡ length (xs ++ ys) + 1
length-middle [] ys x = omega arith
length-middle (y ∷ xs) ys x = ground (arith, length-middle xs ys x)

give_back-budget :
    (rl : RateLimiter) (t : ℕ)
    → rl.global_bucket.tokens ≤ rl.global_bucket.capacity
    → InWindow rl.global_bucket t
    → (budget (give_back rl).global_bucket t ≤ budget rl.global_bucket t + second)
      × ((give_back rl).global_bucket.tokens ≤ (give_back rl).global_bucket.capacity)
      × InWindow (give_back rl).global_bucket t
unfolding give_back return_global_token return_token budget
give_back-budget rl t h w = ground arith

module _ (fl : Float64) (acc : IsAccurate fl) (t : ℕ) where
  begin_allow-budget :
      (rl : RateLimiter) (now : ℕ)
      → now ≤ t
      → rl.global_bucket.tokens ≤ rl.global_bucket.capacity
      → InWindow rl.global_bucket t
      → (budget (begin_allow fl rl now).0.global_bucket t
            + (if (begin_allow fl rl now).1 then second else 0)
          ≤ budget rl.global_bucket t)
        × ((begin_allow fl rl now).0.global_bucket.tokens
            ≤ (begin_allow fl rl now).0.global_bucket.capacity)
        × InWindow (begin_allow fl rl now).0.global_bucket t
  unfolding begin_allow Bucket.allow
  begin_allow-budget rl now h bounded w =
      let spent = budget-allow_n fl acc rl.global_bucket 1 now t h w in
      let valid = allow_n-IsValid fl rl.global_bucket 1 now (record { bounded = bounded }) in
      ground (arith, spent, valid.bounded)

  check_client-global :
      (rl : RateLimiter) (ip : Text) (r : Readings)
      → (check_client fl rl ip r).0.global_bucket ≡ rl.global_bucket
  unfolding check_client allow_ip
  check_client-global rl ip r = ground arith

  get_stats-global :
      (rl : RateLimiter) (now : ℕ)
      → (get_stats fl rl now).0.global_bucket ≡ Bucket.refill fl rl.global_bucket now
  unfolding get_stats Bucket.current_tokens
  get_stats-global rl now = refl

  Step-IsWithin :
      (total : ℕ) {s s' : System} → IsWithin t total s → Step fl t s s' → IsWithin t total s'
  unfolding cleanup
  Step-IsWithin total {s} h (begins ip now early) =
      let (spent, fits, inside) = begin_allow-budget s.limiter now early h.bounded h.in_window in
      elim (Bool-cases ((begin_allow fl s.limiter now).1)) [
        | inl taken ↦ record {
          paid = rw taken (omega (arith, rw taken at spent, h.paid));
          bounded = fits;
          in_window = inside;
        }
        | inr refused ↦ record {
          paid = rw refused (omega (arith, rw refused at spent, h.paid));
          bounded = fits;
          in_window = inside;
        }
      ]
  Step-IsWithin total {s} h (checks before after ip r e) =
      let same = check_client-global s.limiter ip r in
      let fewer : length s.checking ≡ length (before ++ after) + 1 =
        rw e (length-middle before after ip) in
      elim (Bool-cases ((check_client fl s.limiter ip r).1)) [
        | inl admitted ↦ record {
          paid = rw (admitted, same) (omega (arith, fewer, h.paid));
          bounded = rw same h.bounded;
          in_window = rw same h.in_window;
        }
        | inr refused ↦ record {
          paid = rw (refused, same) (omega (arith, fewer, h.paid));
          bounded = rw same h.bounded;
          in_window = rw same h.in_window;
        }
      ]
  Step-IsWithin total {s} h (gives_back n e) =
      let (back, fits, inside) = give_back-budget s.limiter t h.bounded h.in_window in
      record { paid = omega (arith, back, h.paid, e); bounded = fits; in_window = inside }
  Step-IsWithin total {s} h (cleans_up now) = record {
    paid = h.paid;
    bounded = h.bounded;
    in_window = h.in_window;
  }
  Step-IsWithin total {s} h (reads_stats now early) =
      let same = get_stats-global s.limiter now in
      let (less, inside) = budget-refill fl acc s.limiter.global_bucket now t early h.in_window in
      let valid = refill-IsValid fl s.limiter.global_bucket now (record { bounded = h.bounded }) in
      record {
        paid = rw same (omega (arith, less, h.paid));
        bounded = rw same valid.bounded;
        in_window = rw same inside;
      }

  Reach-IsWithin :
      (total : ℕ) {s s' : System} → IsWithin t total s → Reach fl t s s' → IsWithin t total s'
  Reach-IsWithin total h start = h
  Reach-IsWithin total h (later r st) = Step-IsWithin total (Reach-IsWithin total h r) st

  -- For a limiter whose global bucket holds at most its capacity: in whatever order the steps of any
  -- requests are taken, with rounds of the cleanup and readings of the statistics between them, the
  -- requests that are admitted, together with those that are still on their way behind the global
  -- limit, are at most the tokens in the global bucket and those that the global rate gives in the
  -- time since its last refill, until the latest reading of its clock. (float64 is accurate, and
  -- the window is short enough.)
  pub Reach-holders :
      (rl : RateLimiter) {s : System}
      → rl.global_bucket.tokens ≤ rl.global_bucket.capacity
      → InWindow rl.global_bucket t
      → Reach fl t (idle rl) s
      → holders s * second
        ≤ rl.global_bucket.tokens * second
          + (t - rl.global_bucket.last_refill) * rl.global_bucket.refill_rate
  unfolding budget
  Reach-holders rl {s} h w r =
      let within =
        Reach-IsWithin (budget rl.global_bucket t) {s = idle rl}
          (record { paid = omega arith; bounded = h; in_window = w }) r in
      omega (arith, within.paid)
