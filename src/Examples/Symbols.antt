-- ===== src/Examples/Symbols.antt =====
-- internal/pairs at concrete inputs.
use go_exercise.Base.{◌≡◌, ◌↔◌, refl, false, inl, arith}
use go_exercise.Base.Result.{ok, err}
use go_exercise.Base.Split.{split}
use go_exercise.Base.Text.{Text, codes, text_eq, has, has_prefix, byte_len}
use go_exercise.Pairs.{
  Unicode, upper_char, space_char, to_upper, trim_space, normalize_user_pair, to_kraken_symbol,
  from_kraken_symbol, expected_base_quote, invalid_pair, invalid_symbol,
}
use go_exercise.Pairs.Normal
use go_exercise.Pairs.Normal.Trim
use go_exercise.Pairs.Symbols

-- Tables that know no letter and no space above ASCII.
abbrev pub ascii : Unicode
ascii = record { upper_above = λ c. c; space_above = λ c. false }

pub ascii-IsUpperTable : Trim.IsUpperTable ascii
unfolding upper_char
ascii-IsUpperTable = record { upper_idem = λ c h. ground arith }

normalize_runs :
    (normalize_user_pair ascii (codes " btc/usd ") ≡ ok (codes "BTC/USD"))
    × (normalize_user_pair ascii (codes "btcusd") ≡ err (expected_base_quote (codes "BTCUSD")))
    × (normalize_user_pair ascii (codes "btc/") ≡ err (invalid_pair (codes "BTC/")))
    × (normalize_user_pair ascii (codes "a/b/c") ≡ err (invalid_pair (codes "A/B/C")))
unfolding normalize_user_pair upper_char space_char has split
normalize_runs = (refl, refl, refl, refl)

symbol_runs :
    (to_kraken_symbol ascii (codes "btc/chf") ≡ ok (codes "XBTCHF"))
    × (to_kraken_symbol ascii (codes "eth/usd") ≡ ok (codes "ETHZUSD"))
    × (from_kraken_symbol (codes "XBTZEUR") ≡ ok (codes "BTC/EUR"))
    × (from_kraken_symbol (codes "XXBTZ") ≡ err (invalid_symbol (codes "XXBTZ")))
unfolding to_kraken_symbol from_kraken_symbol upper_char space_char has split text_eq has_prefix
    byte_len
symbol_runs = (refl, refl, refl, refl)

normalize_iff_example : (normalize_user_pair ascii (codes " btc/usd ") ≡ ok (codes "BTC/USD")) ↔ (
    (codes "BTC/USD" ≡ trim_space ascii (to_upper ascii (codes " btc/usd ")))
    × Normal.IsPair (trim_space ascii (to_upper ascii (codes " btc/usd "))))
normalize_iff_example = Normal.normalize_iff ascii (codes " btc/usd ") (codes "BTC/USD")

from_kraken-to_kraken_example :
    (s : Text) × (to_kraken_symbol ascii (codes " btc/usd ") ≡ ok s)
    × (from_kraken_symbol s ≡ ok (codes "BTC/USD"))
from_kraken-to_kraken_example =
    Symbols.from_kraken-to_kraken ascii (codes " btc/usd ") (codes "BTC/USD") normalize_runs.0
      (inl refl)

-- Two pairs of one symbol.
same_symbol :
    (to_kraken_symbol ascii (codes "BTC/USD") ≡ ok (codes "XXBTZUSD"))
    × (to_kraken_symbol ascii (codes "XX/BTZUSD") ≡ ok (codes "XXBTZUSD"))
unfolding to_kraken_symbol normalize_user_pair upper_char space_char has split text_eq
same_symbol = (refl, refl)
