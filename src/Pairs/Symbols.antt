-- ===== src/Pairs/Symbols.antt =====
-- Kraken's symbols: what the two mappings give, and how they undo each other.
use go_exercise.Base.{◌≡◌, ◌⊎◌, refl, ◌∙◌, ◌∷◌, ◌++◌, arith, inl, inr, drop}
use go_exercise.Base.Result.{ok}
use go_exercise.Base.Split.{split, split_no_separator, split-append}
use go_exercise.Base.Text.{Text, codes, text_eq, has_prefix, byte_len}
use go_exercise.Pairs.{
  Unicode, kraken_base, kraken_quote, user_pair, from_kraken_symbol, normalize_user_pair,
  to_kraken_symbol, symbol_of,
}
use go_exercise.Pairs.Normal.{normalize_iff}

-- The pairs that the service is for.
abbrev pub IsSupported : Text → Type 0
IsSupported n = (n ≡ codes "BTC/USD") ⊎ (n ≡ codes "BTC/EUR") ⊎ (n ≡ codes "BTC/CHF")

-- The symbol of a supported pair.
pub symbols_of_supported :
    (symbol_of (split b'/' (codes "BTC/USD")) ≡ ok (codes "XXBTZUSD"))
    × (symbol_of (split b'/' (codes "BTC/EUR")) ≡ ok (codes "XXBTZEUR"))
    × (symbol_of (split b'/' (codes "BTC/CHF")) ≡ ok (codes "XBTCHF"))
unfolding symbol_of split text_eq
symbols_of_supported = (refl, refl, refl)

pub pairs_of_symbols :
    (from_kraken_symbol (codes "XXBTZUSD") ≡ ok (codes "BTC/USD"))
    × (from_kraken_symbol (codes "XXBTZEUR") ≡ ok (codes "BTC/EUR"))
    × (from_kraken_symbol (codes "XBTCHF") ≡ ok (codes "BTC/CHF"))
unfolding from_kraken_symbol byte_len has_prefix text_eq
pairs_of_symbols = (refl, refl, refl)

user_pair-IsSupported : (s quote n : Text) → user_pair s (codes "BTC") quote ≡ ok n → IsSupported n
unfolding user_pair
user_pair-IsSupported s quote n h = ground arith

module _ (u : Unicode) where
  -- On an input that `NormalizeUserPair` accepts, `ToKrakenSymbol` never fails: it maps the two
  -- parts of the normalised pair and joins them.
  pub to_kraken_parts :
      (p n : Text)
      → normalize_user_pair u p ≡ ok n
      → (base : Text) × (quote : Text) × (n ≡ base ++ b'/' ∷ quote)
        × (to_kraken_symbol u p ≡ ok (kraken_base base quote ++ kraken_quote quote))
  unfolding to_kraken_symbol
  to_kraken_parts p n h =
      let (e, (a, b, whole, _, _, la, lb)) = (normalize_iff u p n).0 h in
      (
        a,
        b,
        e ∙ whole,
        rw (h, e, whole, split-append b'/' a b la, split_no_separator b'/' b lb) refl,
      )

  -- A supported pair survives the way to Kraken's symbol and back, in its normal form.
  pub from_kraken-to_kraken :
      (p n : Text)
      → normalize_user_pair u p ≡ ok n
      → IsSupported n
      → (s : Text) × (to_kraken_symbol u p ≡ ok s) × (from_kraken_symbol s ≡ ok n)
  unfolding to_kraken_symbol
  from_kraken-to_kraken p n h (inl e) =
      (codes "XXBTZUSD", rw (h, e) symbols_of_supported.0, rw e pairs_of_symbols.0)
  from_kraken-to_kraken p n h (inr (inl e)) =
      (codes "XXBTZEUR", rw (h, e) symbols_of_supported.1, rw e pairs_of_symbols.1)
  from_kraken-to_kraken p n h (inr (inr e)) =
      (codes "XBTCHF", rw (h, e) symbols_of_supported.2, rw e pairs_of_symbols.2)

-- `FromKrakenSymbol` returns nothing but the three supported pairs.
pub from_kraken-IsSupported : (s n : Text) → from_kraken_symbol s ≡ ok n → IsSupported n
unfolding from_kraken_symbol
from_kraken-IsSupported s n h =
    ground (arith, user_pair-IsSupported s (drop 4 s) n, user_pair-IsSupported s (drop 3 s) n)
