-- ===== src/Ltp.antt =====
-- internal/ltp/service.go
--
-- The cache and the API are interfaces in the source, and a record of functions on a state here.
-- The message of an error is a value that stands for the format and its argument.
pub mod Sorting
pub mod Requested
pub mod Quotes
pub mod Errors
pub mod Single
pub mod Tracked
pub mod Viewed
use go_exercise.Base.{
  ℕ, Bool, true, false, ◌||◌, Option, none, some, List, [], ◌∷◌, ◌++◌, map, if◌then◌else◌,
}
use go_exercise.Base.Dict.{Dict, find, put}
use go_exercise.Base.Result.{Result, ok, err, ◌>>=◌}
use go_exercise.Base.Text.{Text, text_eq, text_lt}
use go_exercise.Pairs.{Unicode, PairError, normalize_user_pair, to_kraken_symbol}

pub record Quote (Num : Type 0) : Type 0 where
  pub pair : Text
  pub amount : Num

pub data Message : Type 0 where
  no_pairs : Message  -- no pairs provided
  bad_pair : PairError → Message  -- err.Error()
  pair_not_found : Text → Message  -- pair not found or unsupported: %s

pub data LtpError (E : Type 0) : Type 0 where
  handler_error : ℕ → Message → LtpError E  -- HandlerError{Code, Msg}
  kraken_failed : E → LtpError E  -- kraken: %w

-- `Cache` and `KrakenAPI`, over the state of all that stands behind them.
pub record Backend (Num E : Type 0) : Type 1 where
  pub State : Type 0
  pub cache_get : Text → State → State × Option Num
  pub cache_set : Text → Num → State → State
  pub get_ticker_prices : List Text → State → State × Result E (Dict Num)

-- A pair whose price is not in the cache.
pub record Needed : Type 0 where
  pub user_pair : Text
  pub kraken_sym : Text

unfoldable pub contains : Text → List Text → Bool
contains k [] = false
contains k (j ∷ ks) = text_eq j k || contains k ks

-- `seen` and `normalized` of the source hold the same pairs.
unfoldable pub add_new : Text → List Text → List Text
add_new n normalized = if contains n normalized then normalized else normalized ++ n ∷ []

unfoldable pub normalize_all : Unicode → List Text → List Text → Result PairError (List Text)
unfolding add_new
normalize_all u [] normalized = ok normalized
normalize_all u (p ∷ pairs) normalized = do
  n ← normalize_user_pair u p
  normalize_all u pairs (add_new n normalized)

-- `sort.Slice` by `strings.Compare`.
unfoldable pub insert_key : Text → List Text → List Text
insert_key k [] = k ∷ []
insert_key k (j ∷ ks) = if text_lt j k then j ∷ insert_key k ks else k ∷ j ∷ ks

unfoldable pub sort_keys : List Text → List Text
sort_keys [] = []
sort_keys (k ∷ ks) = insert_key k (sort_keys ks)

module _ {Num : Type 0} where
  -- `results[k]`, the zero value if it is absent
  unfoldable pub amount_or : Num → Option Num → Num
  amount_or zero_amount none = zero_amount
  amount_or zero_amount (some v) = v

  unfoldable pub quotes_for : Num → Dict Num → List Text → List (Quote Num)
  unfolding amount_or
  quotes_for z results [] = []
  quotes_for z results (k ∷ keys) =
      record { pair = k; amount = amount_or z (find k results) } ∷ quotes_for z results keys

  unfoldable pub sorted_quotes : Num → Dict Num → List (Quote Num)
  unfolding quotes_for
  sorted_quotes z results = quotes_for z results (sort_keys (map (λ e. e.0) results))

module _ (u : Unicode) {Num E : Type 0} (b : Backend Num E) where
  open b use {State, cache_get, cache_set, get_ticker_prices}

  -- What the loop over the cache carries: the prices found and the pairs needed.
  abbrev pub Partial : Type 0
  Partial = Dict Num × List Needed

  unfoldable pub note : Text → Text → Option Num → Partial → Partial
  note up sym (some v) (results, needed) = (put up v results, needed)
  note up sym none (results, needed) =
      (results, needed ++ record { user_pair = up; kraken_sym = sym } ∷ [])

  unfoldable pub try_cache : List Text → Partial → State → State × Result (LtpError E) Partial
  try_cache [] found s = (s, ok found)
  try_cache (up ∷ pairs) found s = elim (to_kraken_symbol u up) [
    | err e ↦ (s, err (handler_error 400 (bad_pair e)))
    | ok sym ↦ let (s', v) = cache_get sym s in try_cache pairs (note up sym v found) s'
  ]

  unfoldable pub store_prices :
      Dict Num → List Needed → Dict Num → State → State × Result (LtpError E) (Dict Num)
  store_prices prices [] results s = (s, ok results)
  store_prices prices (it ∷ needed) results s = elim (find it.kraken_sym prices) [
    | none ↦ (s, err (handler_error 400 (pair_not_found it.user_pair)))
    | some p ↦ store_prices prices needed (put it.user_pair p results) (cache_set it.kraken_sym p s)
  ]

  unfoldable pub fetch : Partial → State → State × Result (LtpError E) (Dict Num)
  fetch (results, []) s = (s, ok results)
  fetch (results, it ∷ needed) s =
      let (s', answer) = get_ticker_prices (map (λ x. x.kraken_sym) (it ∷ needed)) s in
      elim answer [
        | err e ↦ (s', err (kraken_failed e))
        | ok prices ↦ store_prices prices (it ∷ needed) results s'
      ]

  unfoldable pub lookup_prices : List Text → State → State × Result (LtpError E) (Dict Num)
  lookup_prices normalized s =
      let (s', found) = try_cache normalized ([], []) s in
      elim found [ err e ↦ (s', err e) | ok p ↦ fetch p s' ]

  unfoldable pub get_ltp : Num → List Text → State → State × Result (LtpError E) (List (Quote Num))
  get_ltp z [] s = (s, err (handler_error 400 no_pairs))
  get_ltp z (p ∷ pairs) s = elim (normalize_all u (p ∷ pairs) []) [
    | err e ↦ (s, err (handler_error 400 (bad_pair e)))
    | ok normalized ↦
        let (s', found) = lookup_prices normalized s in
        (s', found >>= λ results. ok (sorted_quotes z results))
  ]
