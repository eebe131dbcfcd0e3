-- ===== src/Kraken/Observed.antt =====
-- `GetTickerPrices` with its metrics: `kraken_requests_total`, and those of `Retry`.
use go_exercise.Base.{
  ℕ, suc, ◌-◌, ◌≤◌, ◌≡◌, refl, sym, ap, ◌∙◌, Option, none, some, List, [], ◌∷◌, ◌++◌, if◌then◌else◌,
  Bool-cases, inl, inr, fun_ext, append_nil, arith,
}
use go_exercise.Base.Int.{ℤ, pos}
use go_exercise.Base.Text.{Text, codes}
use go_exercise.Base.Dict.{Dict}
use go_exercise.Base.Float64.{Float64}
use go_exercise.Base.Result.{Result, ok, err}
use go_exercise.Backoff
use go_exercise.Backoff.{
  Error, other_error, Call, RetryError, is_retryable_http_error, retry, timed_wait, default_config,
}
use go_exercise.Backoff.Observed.{BackoffMetrics, TimedCall, unobserved, observed_retry}
use go_exercise.Backoff.Labels.{numbered, observed_retry-IsObserved}
use go_exercise.Kraken.{
  Transport, ClientError, failed, TickerError, no_symbols, retry_error, ticker_call,
  get_ticker_prices,
}

pub record KrakenMetrics : Type 0 where
  pub backoff : BackoffMetrics
  pub kraken_requests : List Text  -- the label of each increment

unfoldable pub count_status : Text → KrakenMetrics → KrakenMetrics
count_status status m = record m { kraken_requests = m.kraken_requests ++ status ∷ [] }

module _ {fl : Float64} {E : Type 0} (t : Transport fl E) where
  open fl use {Num, of_int, less}
  open t use {State, random, sleep}

  -- The delay of an attempt: `calculateDelay`, with a number of `rng` if there is jitter.
  unfoldable pub delay_of : ℕ → State → State × ℤ
  delay_of attempt s =
      if less (of_int (pos 0)) (default_config fl).jitter_factor
      then (let (s', r) = random s in
          (s', Backoff.calculate_delay fl (default_config fl) (attempt - 1) r))
      else (s, Backoff.calculate_delay fl (default_config fl) (attempt - 1) (of_int (pos 0)))

  abbrev pub timed_ticker : Text → List Text → TimedCall (Error (ClientError E))
  timed_ticker base_url symbols = record {
    State = State × Dict Num;
    fn = (ticker_call t base_url symbols).fn;
    should_retry = is_retryable_http_error;
    calculate_delay =
        λ attempt. λ (s, result). let (s', delay) = delay_of attempt s in ((s', result), delay);
    sleep = λ delay. λ (s, result).
        let (s', ended) = sleep delay s in
        ((s', result), elim ended [ none ↦ none | some e ↦ some (other_error (failed e)) ]);
  }

  -- What follows the retries, and the deferred count.
  unfoldable pub ticker_end :
      KrakenMetrics
      → ((State × Dict Num) × BackoffMetrics) × Option (RetryError (Error (ClientError E)))
      → (State × KrakenMetrics) × Result (TickerError E) (Dict Num)
  unfolding count_status
  ticker_end m (((s, result), backoff), some e) =
      ((s, count_status (codes "error") (record m { backoff = backoff })), err (retry_error e))
  ticker_end m (((s, result), backoff), none) =
      ((s, count_status (codes "success") (record m { backoff = backoff })), ok result)

  unfoldable pub observed_ticker_prices :
      Text
      → List Text
      → State
      → KrakenMetrics
      → (State × KrakenMetrics) × Result (TickerError E) (Dict Num)
  unfolding ticker_end observed_retry count_status
  observed_ticker_prices base_url [] s m = ((s, count_status (codes "error") m), err no_symbols)
  observed_ticker_prices base_url (sym ∷ symbols) s m = ticker_end m (
      observed_retry (timed_ticker base_url (sym ∷ symbols)) (codes "kraken")
        (default_config fl).max_attempts (s, []) m.backoff)

  -- The status under which a call is counted.
  abbrev pub status_of : Result (TickerError E) (Dict Num) → Text
  status_of (ok prices) = codes "success"
  status_of (err e) = codes "error"

  timed_wait_lem :
      (attempt : ℕ) (s : State)
      → sleep (delay_of attempt s).1 (delay_of attempt s).0
        ≡ timed_wait fl (default_config fl) random sleep attempt s
  unfolding timed_wait delay_of
  timed_wait_lem attempt s =
      elim (Bool-cases (less (of_int (pos 0)) (default_config fl).jitter_factor)) [
        | inl jitter ↦ rw (delay_of, timed_wait, jitter) refl
        | inr still ↦ rw (delay_of, timed_wait, still) refl
      ]

  -- Without its metrics, the retried call is that of `GetTickerPrices`.
  retry-timed_ticker :
      (base_url : Text) (symbols : List Text) (max : ℤ) (x : State × Dict Num)
      → retry (unobserved (timed_ticker base_url symbols)) max x
        ≡ retry (ticker_call t base_url symbols) max x
  retry-timed_ticker base_url symbols max x =
      ap
        (λ w.
          retry
            (record (ticker_call t base_url symbols) {
              wait = λ attempt. λ (s, result).
                  let (s', ended) = w attempt s in
                  (
                    (s', result),
                    elim ended [ none ↦ none | some e ↦ some (other_error (failed e)) ],
                  );
            })
            max x)
        (fun_ext (λ attempt. fun_ext (λ s. timed_wait_lem attempt s)))

  -- What `GetTickerPrices` makes of the end of the retries.
  abbrev result_of :
      (State × Dict Num) × Option (RetryError (Error (ClientError E)))
      → State × Result (TickerError E) (Dict Num)
  result_of r = elim r.1 [ some e ↦ (r.0.0, err (retry_error e)) | none ↦ (r.0.0, ok r.0.1) ]

  ticker_end_lem :
      (m : KrakenMetrics)
      (o : ((State × Dict Num) × BackoffMetrics) × Option (RetryError (Error (ClientError E))))
      → (((ticker_end m o).0.0, (ticker_end m o).1) ≡ result_of (o.0.0, o.1))
        × ((ticker_end m o).0.1.kraken_requests
            ≡ m.kraken_requests ++ status_of (ticker_end m o).1 ∷ [])
        × ((ticker_end m o).0.1.backoff ≡ o.0.1)
  unfolding ticker_end count_status
  ticker_end_lem m (((s, result), backoff), some e) = (refl, refl, refl)
  ticker_end_lem m (((s, result), backoff), none) = (refl, refl, refl)

  -- How many attempts a call makes.
  abbrev pub MayAttempt : List Text → ℕ → Type 0
  MayAttempt [] n = n ≡ 0
  MayAttempt (symbol ∷ symbols) n = (1 ≤ n) × (n ≤ 5)

  -- A call of `GetTickerPrices` with its metrics ends as it does without them, and it is counted
  -- once, as a success exactly if it returns prices. Its attempts are counted from 1 on, each once:
  -- none if there are no symbols, and else at least one and at most five.
  pub observed_ticker_prices_exact :
      (base_url : Text) (symbols : List Text) (s : State) (m : KrakenMetrics)
      → let (end, answer) = observed_ticker_prices base_url symbols s m in
        ((end.0, answer) ≡ get_ticker_prices t base_url symbols s)
        × (end.1.kraken_requests ≡ m.kraken_requests ++ status_of answer ∷ [])
        × (n : ℕ) × MayAttempt symbols n
        × (end.1.backoff.backoff_attempts
            ≡ m.backoff.backoff_attempts ++ numbered (codes "kraken") 1 n)
  unfolding observed_ticker_prices get_ticker_prices default_config count_status numbered
  observed_ticker_prices_exact base_url [] s m =
      (refl, refl, 0, refl, sym (append_nil m.backoff.backoff_attempts))
  observed_ticker_prices_exact base_url (sym ∷ symbols) s m =
      let call = timed_ticker base_url (sym ∷ symbols) in
      let o = observed_retry call (codes "kraken") (pos 5) (s, []) m.backoff in
      let (same, h) = observed_retry-IsObserved call (codes "kraken") 4 (s, []) m.backoff in
      let (end, counted, kept) = ticker_end_lem m o in
      (
        end ∙ ap result_of (same ∙ retry-timed_ticker base_url (sym ∷ symbols) (pos 5) (s, [])),
        counted,
        suc h.n,
        (omega arith, omega (arith, h.at_most)),
        ap (λ b. b.backoff_attempts) kept ∙ h.attempts_counted,
      )
