-- ===== src/Kraken.antt =====
-- internal/kraken: the client of the ticker.
--
-- The HTTP client, the encoding of the query, the JSON decoder and the reading of a number from a
-- text are library code, and fields of a record here. Observed has the metrics.
pub mod Prices
pub mod Observed
use go_exercise.Base.{
  ℕ, ◌==◌, Bool, true, false, not, Option, none, some, List, [], ◌∷◌, ◌++◌, if◌then◌else◌,
}
use go_exercise.Base.Int.{ℤ, pos}
use go_exercise.Base.Text.{Text, codes}
use go_exercise.Base.Split.{join}
use go_exercise.Base.Dict.{Dict, find, put}
use go_exercise.Base.Float64.{Float64}
use go_exercise.Base.Result.{Result, ok, err}
use go_exercise.Backoff.{
  Error, http_error, other_error, new_http_error, is_retryable_http_error, Call, RetryError, retry,
  timed_wait, default_config,
}

pub record TickerEntry : Type 0 where
  pub c : List Text

pub record TickerResponse : Type 0 where
  pub error : List Text
  pub result : Dict TickerEntry

pub record HttpResponse (Body : Type 0) : Type 0 where
  pub status_code : ℕ
  pub body : Body

-- An error of the client that has no status code.
pub data ClientError (E : Type 0) : Type 0 where
  failed : E → ClientError E  -- of the request, the transport, the decoder, or the context
  api_error : Text → ClientError E  -- errors.New(strings.Join(tr.Error, "; "))

pub data TickerError (E : Type 0) : Type 0 where
  no_symbols : TickerError E  -- no symbols provided
  retry_error : RetryError (Error (ClientError E)) → TickerError E

-- What the client calls, over the state of the network.
pub record Transport (fl : Float64) (E : Type 0) : Type 1 where
  pub State : Type 0
  pub Body : Type 0
  pub encode : List (Text × Text) → Text  -- url.Values.Encode
  pub new_request : Text → Option E  -- the error of http.NewRequestWithContext
  pub send : Text → State → State × Result E (HttpResponse Body)  -- http.Client.Do
  pub read_limited : ℕ → Body → Text  -- io.ReadAll(io.LimitReader(body, n))
  pub decode : Body → Result E TickerResponse  -- json.Decoder.Decode
  pub scan : Text → Option fl.Num  -- fmt.Sscan into a float64
  pub random : State → State × fl.Num  -- rng.Float64 of the client's backoff
  pub sleep : ℤ → State → State × Option E  -- the select of ctx.Done and time.After

drop_slashes : Text → Text
drop_slashes [] = []
drop_slashes (c ∷ s) = if c == 47 then drop_slashes s else c ∷ s

reversed : Text → Text → Text
reversed [] out = out
reversed (c ∷ s) out = reversed s (c ∷ out)

-- `baseURL` of `NewClient`: strings.TrimRight(baseURL, "/").
unfoldable pub trim_slashes : Text → Text
unfolding drop_slashes reversed
trim_slashes s = reversed (drop_slashes (reversed s [])) []

-- strings.Join(errors, "; ")
unfoldable pub join_errors : List Text → Text
join_errors [] = []
join_errors (p ∷ []) = p
join_errors (p ∷ q ∷ ps) = p ++ codes "; " ++ join_errors (q ∷ ps)

module _ {fl : Float64} {E : Type 0} (t : Transport fl E) where
  open fl use {Num}
  open t use {State, Body, encode, new_request, send, read_limited, decode, scan, random, sleep}

  unfoldable pub entry_price : TickerEntry → Option Num
  entry_price entry = elim entry.c [ [] ↦ none | price ∷ rest ↦ scan price ]

  unfoldable pub put_price : Text → Option Num → Dict Num → Dict Num
  put_price sym none out = out
  put_price sym (some price) out = put sym price out

  -- The loop over `tr.Result`.
  unfoldable pub collect_prices : Dict TickerEntry → Dict Num → Dict Num
  unfolding entry_price put_price
  collect_prices [] out = out
  collect_prices ((sym, entry) ∷ result) out =
      collect_prices result (put_price sym (entry_price entry) out)

  unfoldable pub read_ticker : TickerResponse → Result (Error (ClientError E)) (Dict Num)
  read_ticker tr = elim tr.error [
    | [] ↦ ok (collect_prices tr.result [])
    | e ∷ es ↦ err (other_error (api_error (join_errors (e ∷ es))))
  ]

  unfoldable pub read_response : HttpResponse Body → Result (Error (ClientError E)) (Dict Num)
  unfolding read_ticker
  read_response resp =
      if not (resp.status_code == 200)
      then err (http_error (new_http_error resp.status_code (read_limited 1024 resp.body)))
      else elim (decode resp.body) [ err e ↦ err (other_error (failed e)) | ok tr ↦ read_ticker tr ]

  unfoldable pub make_request :
      Text → List Text → State → State × Result (Error (ClientError E)) (Dict Num)
  unfolding read_response
  make_request base_url symbols s =
      let query = encode ((codes "pair", join 44 symbols) ∷ []) in
      let endpoint = base_url ++ codes "/0/public/Ticker?" ++ query in
      elim (new_request endpoint) [
        | some e ↦ (s, err (other_error (failed e)))
        | none ↦
            let (s', answer) = send endpoint s in
            elim answer [
              | err e ↦ (s', err (other_error (failed e)))
              | ok resp ↦ (s', read_response resp)
            ]
      ]

  -- `result, err = c.makeRequest(ctx, symbols)`: on an error the result is nil.
  unfoldable pub assign_result :
      Result (Error (ClientError E)) (Dict Num) → Dict Num × Option (Error (ClientError E))
  assign_result (ok prices) = (prices, none)
  assign_result (err e) = ([], some e)

  -- The call that is retried, on the state of the network and the variable `result`.
  abbrev pub ticker_call : Text → List Text → Call (Error (ClientError E))
  ticker_call base_url symbols = record {
    State = State × Dict Num;
    fn = λ (s, result).
        let (s', answer) = make_request base_url symbols s in
        let (result', e) = assign_result answer in ((s', result'), e);
    should_retry = is_retryable_http_error;
    wait = λ attempt. λ (s, result).
        let (s', ended) = timed_wait fl (default_config fl) random sleep attempt s in
        ((s', result), elim ended [ none ↦ none | some e ↦ some (other_error (failed e)) ]);
  }

  unfoldable pub get_ticker_prices :
      Text → List Text → State → State × Result (TickerError E) (Dict Num)
  get_ticker_prices base_url [] s = (s, err no_symbols)
  get_ticker_prices base_url (sym ∷ symbols) s =
      let ((s', result), ended) =
        retry (ticker_call base_url (sym ∷ symbols)) (default_config fl).max_attempts (s, []) in
      elim ended [ some e ↦ (s', err (retry_error e)) | none ↦ (s', ok result) ]
