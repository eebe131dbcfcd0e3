-- ===== src/Examples/Interleaving.antt =====
-- Two requests that the rate limiter handles at once.
use go_exercise.Base.{ℕ, ◌+◌, ◌-◌, ◌*◌, ◌≤◌, ◌≡◌, refl, [], ◌∷◌, arith}
use go_exercise.Base.Int.{second, minute}
use go_exercise.Base.Dict.{find, put}
use go_exercise.Base.Text.{text_eq}
use go_exercise.RateLimit.Bucket
use go_exercise.RateLimit.Bucket.{
  refill, consume, allow_n, tokens_to_add, seconds, new_token_bucket,
}
use go_exercise.RateLimit.Limiter.{allow_ip, count_allow, return_global_token}
use go_exercise.RateLimit.Limiter.Invariant.{IsValid}
use go_exercise.RateLimit.Limiter.Interleaved.{
  System, idle, begin_allow, check_client, give_back, begins, checks, gives_back, Reach, start,
  later,
}
use go_exercise.RateLimit.Limiter.Interleaved.Bounds
use go_exercise.RateLimit.Limiter.Interleaved.Validity
use go_exercise.Examples.Fixed.{fixed, fixed-IsAccurate}
use go_exercise.Examples.RateLimiting
use go_exercise.Examples.RateLimiting.{alice, bob, limiter, limiter-IsValid, at_start}

abbrev t : ℕ
t = RateLimiting.start + minute

-- Both pass the global limit; the first one, whose bucket is empty, then gives its token back.
abbrev Both : Type 0
Both = (s : System) × Reach fixed t (idle limiter) s × (s.admitted ≡ 1) × (s.returning ≡ 0)

both : Both
unfolding begin_allow check_client give_back Bucket.allow allow_n refill consume tokens_to_add
    seconds new_token_bucket allow_ip find put text_eq count_allow return_global_token
both = (
  _,
  later
      (later
        (later
          (later (later start (begins alice RateLimiting.start (omega arith)))
            (begins bob RateLimiting.start (omega arith)))
          (checks (bob ∷ []) [] alice at_start refl))
        (checks [] [] bob at_start refl))
      (gives_back 0 refl),
  refl,
  refl,
)

Reach-holders_example :
    Bounds.holders both.0 * second
    ≤ limiter.global_bucket.tokens * second
      + (t - limiter.global_bucket.last_refill) * limiter.global_bucket.refill_rate
Reach-holders_example =
    Bounds.Reach-holders fixed fixed-IsAccurate t limiter (unfold new_token_bucket in omega arith)
      (unfold new_token_bucket in omega arith) both.1

Reach-IsValid_example : IsValid both.0.limiter
Reach-IsValid_example = Validity.Reach-IsValid fixed t limiter-IsValid both.1
