-- ===== src/Examples/Observing.antt =====
-- The metrics of the client of Kraken, at concrete inputs.
use go_exercise.Base.{ℕ, ◌+◌, ◌≡◌, refl, true, none, some, [], ◌∷◌, if◌then◌else◌, ◌==◌}
use go_exercise.Base.Int.{pos}
use go_exercise.Base.Text.{Text, codes}
use go_exercise.Backoff.Observed.{BackoffMetrics, TimedCall, observed_retry}
use go_exercise.Backoff.Labels.{numbered}
use go_exercise.Kraken.{get_ticker_prices}
use go_exercise.Kraken.Observed
use go_exercise.Kraken.Observed.{KrakenMetrics, observed_ticker_prices, status_of}
use go_exercise.Examples.Prices.{network}

abbrev none_yet : BackoffMetrics
none_yet = record { backoff_attempts = []; backoff_delay = [] }

-- A call that fails twice and succeeds at the third attempt.
abbrev third_time : TimedCall ℕ
third_time = record {
  State = ℕ;
  fn = λ n. (n + 1, if n == 2 then none else some n);
  should_retry = λ e. true;
  calculate_delay = λ a. λ n. (n, pos (100 + a));
  sleep = λ d. λ n. (n, none);
}

abbrev service : Text
service = codes "x"

third_run : observed_retry third_time service (pos 5) 0 none_yet ≡ (
  (
    3,
    record {
      backoff_attempts = (service, 1) ∷ (service, 2) ∷ (service, 3) ∷ [];
      backoff_delay = (service, 1, pos 101) ∷ (service, 2, pos 102) ∷ [];
    },
  ),
  none,
)
unfolding observed_retry
third_run = refl

abbrev quiet : KrakenMetrics
quiet = record { backoff = none_yet; kraken_requests = [] }

observed_ticker_prices_exact_example :
    let (end, answer) =
      observed_ticker_prices network (codes "http://host") (codes "XXBTZUSD" ∷ []) 0 quiet in
    ((end.0, answer) ≡ get_ticker_prices network (codes "http://host") (codes "XXBTZUSD" ∷ []) 0)
    × (end.1.kraken_requests ≡ status_of network answer ∷ [])
    × (n : ℕ) × Observed.MayAttempt network (codes "XXBTZUSD" ∷ []) n
    × (end.1.backoff.backoff_attempts ≡ numbered (codes "kraken") 1 n)
observed_ticker_prices_exact_example =
    Observed.observed_ticker_prices_exact network (codes "http://host") (codes "XXBTZUSD" ∷ []) 0
      quiet
