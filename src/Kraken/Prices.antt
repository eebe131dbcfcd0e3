-- ===== src/Kraken/Prices.antt =====
-- Which prices the client returns.
use go_exercise.Base.{
  ℕ, ◌≡◌, ◌∙◌, ap, refl, Option, none, some, List, [], ◌∷◌, arith, inl, inr, Bool-cases,
  Option-cases, if◌then◌else◌,
}
use go_exercise.Base.Int.{pos}
use go_exercise.Base.Text.{Text, text_eq, text_eq_iff}
use go_exercise.Base.Dict.{Dict, find, find-put, Distinct}
use go_exercise.Base.Float64.{Float64}
use go_exercise.Base.Result.{ok, Result-cases}
use go_exercise.Backoff.{retry, default_config}
use go_exercise.Backoff.Attempts.{Retried, retry_exact, Ends-success}
use go_exercise.Kraken.{
  Transport, TickerEntry, entry_price, put_price, collect_prices, make_request, assign_result,
  ticker_call, get_ticker_prices,
}

module _ {fl : Float64} {E : Type 0} (t : Transport fl E) where
  open fl use {Num}

  -- The price that an answer has for a symbol.
  abbrev pub price_of : Option TickerEntry → Option Num
  price_of none = none
  price_of (some entry) = entry_price t entry

  abbrev pub or_else : Option Num → Option Num → Option Num
  or_else none v = v
  or_else (some p) v = some p

  find-put_price :
      (k s : Text) (p : Option Num) (out : Dict Num)
      → find k (put_price t s p out) ≡ (if text_eq s k then or_else p (find k out) else find k out)
  unfolding put_price
  find-put_price k s none out = ground arith
  find-put_price k s (some p) out = ground (arith, find-put s k p out)

  find-collect :
      (k : Text) (result : Dict TickerEntry) (out : Dict Num)
      → Distinct result
      → find k (collect_prices t result out) ≡ or_else (price_of (find k result)) (find k out)
  unfolding collect_prices find
  find-collect k [] out d = refl
  find-collect k ((s, entry) ∷ result) out (new, d) =
      let out' = put_price t s (entry_price t entry) out in
      let ih = find-collect k result out' d in
      elim (Bool-cases (text_eq s k)) [
        | inl same ↦
            let gone : find k result ≡ none = ground (arith, text_eq_iff s k) in
            ih ∙ rw (gone, same) (find-put_price k s (entry_price t entry) out ∙ rw same refl)
        | inr other ↦
            ih
            ∙ rw other (
                ap (or_else (price_of (find k result)))
                  (find-put_price k s (entry_price t entry) out ∙ rw other refl))
      ]

  or_else-none : (p : Option Num) → or_else p none ≡ p
  or_else-none none = refl
  or_else-none (some p) = refl

  -- The prices that are read from an answer are exactly those of its symbols whose entry has a
  -- first text of `c` that reads as a number; an entry without one is passed over.
  pub collect_prices_exact :
      (k : Text) (result : Dict TickerEntry)
      → Distinct result
      → find k (collect_prices t result []) ≡ price_of (find k result)
  unfolding find
  collect_prices_exact k result d =
      find-collect k result [] d ∙ or_else-none (price_of (find k result))

  open t use {State}

  -- A call that succeeds leaves its prices in the variable.
  answered :
      (base_url : Text) (symbols : List Text) (r : State × Dict Num) (s' : State)
      (prices : Dict Num)
      → ((ticker_call t base_url symbols).fn r).1 ≡ none
      → ((ticker_call t base_url symbols).fn r).0 ≡ (s', prices)
      → make_request t base_url symbols r.0 ≡ (s', ok prices)
  unfolding assign_result
  answered base_url symbols r s' prices good same =
      elim (Result-cases ((make_request t base_url symbols r.0).1)) [
        | inr (e, bad) ↦ absurd (ground arith)
        | inl (m, fine) ↦ ground arith
      ]

  -- When the client returns prices, they are those of its last request, in the state in which that
  -- one leaves the network, after so many requests that failed with a status to be retried.
  pub get_ticker_prices_ok :
      (base_url : Text) (symbols : List Text) (s s' : State) (prices : Dict Num)
      → get_ticker_prices t base_url symbols s ≡ (s', ok prices)
      → (n : ℕ) × (b : ℕ) × (r : State × Dict Num) × Retried
          (ticker_call t base_url symbols)
          1
          (s, [])
          n
          b
          r
        × (make_request t base_url symbols r.0 ≡ (s', ok prices))
  unfolding get_ticker_prices default_config
  get_ticker_prices_ok base_url [] s s' prices h = absurd (ground arith)
  get_ticker_prices_ok base_url (x ∷ symbols) s s' prices h =
      let call = ticker_call t base_url (x ∷ symbols) in
      let r = retry call (pos 5) (s, []) in
      elim (Option-cases r.1) [
        | inr (e, failed) ↦ absurd (ground arith)
        | inl done ↦
            let (n, rest, b, at, sum, retried, ends) = (retry_exact call 4 (s, []) r).0 refl in
            let (good, same) = Ends-success call ends done in
            (
              n,
              b,
              at,
              retried,
              answered base_url (x ∷ symbols) at s' prices good (same ∙ ground arith),
            )
      ]
