-- ===== src/Pairs/Normal/Trim.antt =====
-- Normalising a pair again changes nothing: what upper case and trimming leave alone.
use go_exercise.Base.{
  ℕ, ◌≡◌, ◌≤◌, refl, sym, false, [], ◌∷◌, arith, inl, inr, Bool-cases, ltb, ◌&&◌, All,
}
use go_exercise.Base.Result.{ok}
use go_exercise.Base.Text.{Text, is_empty}
use go_exercise.Pairs.{
  Unicode, upper_char, space_char, to_upper, trim_left, trim_right, trim_space, normalize_user_pair,
}
use go_exercise.Pairs.Normal.{normalize_iff}

-- What the table of package unicode satisfies: the upper case of a character is in upper case.
pub record IsUpperTable (u : Unicode) : Type 0 where
  pub upper_idem : (c : ℕ) → 128 ≤ c → upper_char u (u.upper_above c) ≡ u.upper_above c

module _ (u : Unicode) where
  IsUpper : Text → Type 0
  IsUpper = All (λ c. upper_char u c ≡ c)

  pub upper_char_idem :
      (table : IsUpperTable u) (c : ℕ) → upper_char u (upper_char u c) ≡ upper_char u c
  upper_char_idem table c = elim (Bool-cases (ltb c 128)) [
    | inl ascii ↦ unfold upper_char in ground arith
    | inr wide ↦
        let same : upper_char u c ≡ u.upper_above c = unfold upper_char in rw wide in
        rw same (table.upper_idem c (ground arith))
  ]

  to_upper-IsUpper : (table : IsUpperTable u) (s : Text) → IsUpper (to_upper u s)
  unfolding to_upper IsUpper
  to_upper-IsUpper table [] = tt
  to_upper-IsUpper table (c ∷ s) = (upper_char_idem table c, to_upper-IsUpper table s)

  to_upper_fixed : (s : Text) → IsUpper s → to_upper u s ≡ s
  unfolding to_upper IsUpper
  to_upper_fixed [] h = refl
  to_upper_fixed (c ∷ s) (e, h) = cc (e, to_upper_fixed s h)

  trim_left-IsUpper : (s : Text) → IsUpper s → IsUpper (trim_left u s)
  unfolding trim_left IsUpper
  trim_left-IsUpper [] h = tt
  trim_left-IsUpper (c ∷ s) (e, h) = elim (Bool-cases (space_char u c)) [
    | inl space ↦ rw space (trim_left-IsUpper s h)
    | inr other ↦ rw other (e, h)
  ]

  trim_right-IsUpper : (s : Text) → IsUpper s → IsUpper (trim_right u s)
  unfolding trim_right IsUpper
  trim_right-IsUpper [] h = tt
  trim_right-IsUpper (c ∷ s) (e, h) =
      elim (Bool-cases (is_empty (trim_right u s) && space_char u c)) [
        | inl space ↦ rw space tt
        | inr other ↦ rw other (e, trim_right-IsUpper s h)
      ]

  trim_right_idem : (s : Text) → trim_right u (trim_right u s) ≡ trim_right u s
  unfolding trim_right
  trim_right_idem [] = refl
  trim_right_idem (c ∷ s) = ground (arith, trim_right_idem s)

  -- A text whose first character, if it has one, is no space.
  abbrev NoLeadingSpace : Text → Type 0
  NoLeadingSpace [] = Unit
  NoLeadingSpace (c ∷ s) = space_char u c ≡ false

  trim_left-NoLeadingSpace : (s : Text) → NoLeadingSpace (trim_left u s)
  unfolding trim_left
  trim_left-NoLeadingSpace [] = tt
  trim_left-NoLeadingSpace (c ∷ s) = elim (Bool-cases (space_char u c)) [
    | inl space ↦ rw space (trim_left-NoLeadingSpace s)
    | inr other ↦ rw other other
  ]

  trim_left-trim_right :
      (s : Text) → NoLeadingSpace s → trim_left u (trim_right u s) ≡ trim_right u s
  unfolding trim_left trim_right
  trim_left-trim_right [] h = refl
  trim_left-trim_right (c ∷ s) h = ground arith

  pub trim_space_idem : (s : Text) → trim_space u (trim_space u s) ≡ trim_space u s
  unfolding trim_space
  trim_space_idem s =
      rw (trim_left-trim_right (trim_left u s) (trim_left-NoLeadingSpace s))
        (trim_right_idem (trim_left u s))

  -- If the table of upper case is idempotent, `NormalizeUserPair` accepts what it returned, and
  -- returns it unchanged.
  pub normalize_idem :
      (table : IsUpperTable u) (p n : Text)
      → normalize_user_pair u p ≡ ok n
      → normalize_user_pair u n ≡ ok n
  normalize_idem table p n h =
      let (e, pair) = (normalize_iff u p n).0 h in
      let upper : IsUpper n = rw e (
        unfold trim_space in
        trim_right-IsUpper _ (trim_left-IsUpper _ (to_upper-IsUpper table p))) in
      let same : trim_space u (to_upper u n) ≡ n =
        rw (to_upper_fixed n upper, e) (trim_space_idem (to_upper u p)) in
      (normalize_iff u n n).1 (sym same, rw (same, e) pair)
