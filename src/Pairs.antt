-- ===== src/Pairs.antt =====
-- internal/pairs/pairs.go
--
-- The error texts are values here: the constructor stands for the format, its argument is the
-- text that the format quotes.
pub mod Normal
pub mod Symbols
use go_exercise.Base.{
  ℕ, suc, ◌+◌, ◌-◌, ◌≡◌, Bool, true, false, not, ◌&&◌, ◌||◌, List, [], ◌∷◌, ◌++◌, map, ◌==◌, ltb,
  leb, if◌then◌else◌, drop,
}
use go_exercise.Base.Result.{Result, ok, err, ◌>>=◌}
use go_exercise.Base.Split.{split}
use go_exercise.Base.Text.{Text, codes, text_eq, has, has_prefix, is_empty, byte_len}

pub data PairError : Type 0 where
  expected_base_quote : Text → PairError  -- invalid pair: %q (expected BASE/QUOTE)
  invalid_pair : Text → PairError  -- invalid pair: %q
  invalid_symbol : Text → PairError  -- invalid kraken symbol: %q
  unsupported_symbol : Text → PairError  -- unsupported kraken symbol: %q
  unsupported_quote : Text → PairError  -- unsupported quote currency in symbol: %q
  index_panic : PairError  -- no error of the code: the panic of an index out of range

-- Package unicode, above ASCII: the tables of upper case and of white space.
pub record Unicode : Type 0 where
  pub upper_above : ℕ → ℕ
  pub space_above : ℕ → Bool

-- `parts[0] + "/" + parts[1]`, or the error
unfoldable pub join_parts : Text → List Text → Result PairError Text
join_parts p (base ∷ quote ∷ []) =
    if is_empty base || is_empty quote then err (invalid_pair p) else ok (base ++ b'/' ∷ quote)
join_parts p _ = err (invalid_pair p)

unfoldable pub kraken_base : Text → Text → Text
kraken_base base quote =
    if text_eq base (codes "BTC")
    then (if text_eq quote (codes "CHF") then codes "XBT" else codes "XXBT")
    else base

unfoldable pub kraken_quote : Text → Text
kraken_quote quote =
    if text_eq quote (codes "USD")
    then codes "ZUSD"
    else if text_eq quote (codes "EUR")
    then codes "ZEUR"
    else quote

unfoldable pub symbol_of : List Text → Result PairError Text
unfolding kraken_base kraken_quote
symbol_of (base ∷ quote ∷ _) = ok (kraken_base base quote ++ kraken_quote quote)
symbol_of _ = err index_panic

-- The second switch of `FromKrakenSymbol`, with the base that the first one found.
unfoldable pub user_pair : Text → Text → Text → Result PairError Text
user_pair sym base quote =
    if text_eq quote (codes "ZUSD")
    then ok (base ++ codes "/USD")
    else if text_eq quote (codes "ZEUR")
    then ok (base ++ codes "/EUR")
    else if text_eq quote (codes "CHF")
    then ok (base ++ codes "/CHF")
    else err (unsupported_quote sym)

unfoldable pub from_kraken_symbol : Text → Result PairError Text
unfolding user_pair
from_kraken_symbol sym =
    if ltb (byte_len sym) 6
    then err (invalid_symbol sym)
    else if has_prefix sym (codes "XXBT")
    then user_pair sym (codes "BTC") (drop 4 sym)
    else if has_prefix sym (codes "XBT")
    then user_pair sym (codes "BTC") (drop 3 sym)
    else err (unsupported_symbol sym)

module _ (u : Unicode) where
  open u use {upper_above, space_above}

  unfoldable pub upper_char : ℕ → ℕ
  upper_char c =
      if ltb c 128 then (if leb b'a' c && leb c b'z' then c - 32 else c) else upper_above c

  unfoldable pub space_char : ℕ → Bool
  space_char c = if ltb c 128 then c == b' ' || (leb 9 c && leb c 13) else space_above c

  -- `strings.ToUpper(s)`
  unfoldable pub to_upper : Text → Text
  to_upper = map upper_char

  unfoldable pub trim_left : Text → Text
  trim_left [] = []
  trim_left (c ∷ s) = if space_char c then trim_left s else c ∷ s

  unfoldable pub trim_right : Text → Text
  trim_right [] = []
  trim_right (c ∷ s) =
      let rest = trim_right s in if is_empty rest && space_char c then [] else c ∷ rest

  -- `strings.TrimSpace(s)`
  unfoldable pub trim_space : Text → Text
  unfolding trim_left trim_right
  trim_space s = trim_right (trim_left s)

  -- What `NormalizeUserPair` does with the trimmed text in upper case.
  unfoldable pub check_pair : Text → Result PairError Text
  unfolding join_parts
  check_pair p =
      if is_empty p || not (has b'/' p)
      then err (expected_base_quote p)
      else join_parts p (split b'/' p)

  unfoldable pub normalize_user_pair : Text → Result PairError Text
  unfolding to_upper trim_space check_pair
  normalize_user_pair p = check_pair (trim_space (to_upper p))

  unfoldable pub to_kraken_symbol : Text → Result PairError Text
  unfolding normalize_user_pair symbol_of
  to_kraken_symbol user_pair = do n ← normalize_user_pair user_pair; symbol_of (split b'/' n)
