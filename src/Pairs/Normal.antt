-- ===== src/Pairs/Normal.antt =====
-- What `NormalizeUserPair` accepts and returns.
pub mod Trim
use go_exercise.Base.{
  ℕ, ◌+◌, ◌≡◌, ◌≢◌, ◌↔◌, refl, sym, ap, ◌∙◌, Bool, true, false, not, ◌||◌, List, [], ◌∷◌, ◌++◌,
  arith, inl, inr, Bool-cases, if◌then◌else◌, All, ◌==◌,
}
use go_exercise.Base.Result.{Result, ok, err}
use go_exercise.Base.Text.{Text, Lacks, has, has-append, is_empty}
use go_exercise.Base.Split.{split, split_no_separator, split-append, join, join-split, split-Lacks}
use go_exercise.Pairs.{
  Unicode, PairError, join_parts, to_upper, trim_space, check_pair, normalize_user_pair,
}

-- `BASE/QUOTE`: two parts that are not empty and hold no slash.
abbrev pub IsPair : Text → Type 0
IsPair q =
    (base : Text) × (quote : Text) × (q ≡ base ++ b'/' ∷ quote)
    × (base ≢ [])
    × (quote ≢ [])
    × Lacks b'/' base
    × Lacks b'/' quote

nonempty : (s : Text) → is_empty s ≡ false → s ≢ []
nonempty [] h = λ e. cc
nonempty (c ∷ s) h = λ e. cc

is_empty_ne : (s : Text) → s ≢ [] → is_empty s ≡ false
is_empty_ne [] h = absurd (h refl)
is_empty_ne (c ∷ s) h = refl

parts-IsPair :
    (q n : Text) (ps : List Text)
    → join b'/' ps ≡ q
    → All (Lacks b'/') ps
    → join_parts q ps ≡ ok n
    → (n ≡ q) × IsPair q
unfolding join_parts join
parts-IsPair q n (a ∷ b ∷ []) e (la, (lb, _)) h = elim (Bool-cases (is_empty a || is_empty b)) [
  | inl bad ↦ absurd (ground arith)
  | inr good ↦
      let whole : n ≡ a ++ b'/' ∷ b = ground arith in
      (whole ∙ e, (a, b, sym e, nonempty a (ground arith), nonempty b (ground arith), la, lb))
]
parts-IsPair q n [] e l h = absurd (cc)
parts-IsPair q n (a ∷ []) e l h = absurd (cc)
parts-IsPair q n (a ∷ b ∷ c ∷ ps) e l h = absurd (cc)

module _ (u : Unicode) where
  check_pair-IsPair : (q n : Text) → check_pair u q ≡ ok n → (n ≡ q) × IsPair q
  check_pair-IsPair q n h = elim (Bool-cases (is_empty q || not (has b'/' q))) [
    | inl bad ↦ absurd (unfold check_pair in ground arith)
    | inr good ↦
        parts-IsPair q n (split b'/' q) (join-split b'/' q) (split-Lacks b'/' q)
          (unfold check_pair in ground arith)
  ]

  pub IsPair-check_pair : (q : Text) → IsPair q → check_pair u q ≡ ok q
  unfolding check_pair join_parts has
  IsPair-check_pair q ([], b, e, na, nb, la, lb) = absurd (na refl)
  IsPair-check_pair q (c ∷ a, b, e, na, nb, la, lb) =
      rw (e, split-append b'/' (c ∷ a) b la, split_no_separator b'/' b lb)
        (ground (arith, has-append b'/' a (b'/' ∷ b), is_empty_ne b nb))

  -- `NormalizeUserPair` accepts an input exactly if its trimmed text in upper case is two parts
  -- that are not empty, joined by one slash, and it returns that text.
  pub normalize_iff :
      (p n : Text)
      → (normalize_user_pair u p ≡ ok n)
        ↔ ((n ≡ trim_space u (to_upper u p)) × IsPair (trim_space u (to_upper u p)))
  unfolding normalize_user_pair
  normalize_iff p n = (
    check_pair-IsPair (trim_space u (to_upper u p)) n,
    λ (e, pair). rw e (IsPair-check_pair (trim_space u (to_upper u p)) pair),
  )
