-- ===== src/Ltp/Sorting.antt =====
-- Sorting the pairs by `strings.Compare`.
use go_exercise.Base.{◌≡◌, refl, true, false, ◌||◌, List, [], ◌∷◌, All, arith, inl, inr, Bool-cases}
use go_exercise.Base.Text.{Text, text_eq, text_lt}
use go_exercise.Ltp.{contains, insert_key, sort_keys}

text_lt_trans : (a b c : Text) → text_lt a b ≡ true → text_lt b c ≡ true → text_lt a c ≡ true
unfolding text_lt
text_lt_trans [] b [] h k = absurd (go b k)
  where
    go : (b : Text) → text_lt b [] ≡ true → ⊥
    go [] e = cc
    go (x ∷ b) e = cc
text_lt_trans [] b (z ∷ c) h k = refl
text_lt_trans (x ∷ a) [] c h k = absurd (cc)
text_lt_trans (x ∷ a) (y ∷ b) [] h k = absurd (cc)
text_lt_trans (x ∷ a) (y ∷ b) (z ∷ c) h k = ground (arith, text_lt_trans a b c)

-- Of two different texts one comes first.
text_lt_total : (a b : Text) → text_lt a b ≡ false → text_eq a b ≡ false → text_lt b a ≡ true
unfolding text_lt text_eq
text_lt_total [] [] h k = absurd (cc)
text_lt_total [] (y ∷ b) h k = absurd (cc)
text_lt_total (x ∷ a) [] h k = refl
text_lt_total (x ∷ a) (y ∷ b) h k = ground (arith, text_lt_total a b)

-- Each text comes before all that stand behind it.
abbrev pub IsAscending : List Text → Type 0
IsAscending [] = Unit
IsAscending (k ∷ ks) = All (λ j. text_lt k j ≡ true) ks × IsAscending ks

-- No text stands twice.
abbrev pub NoRepeats : List Text → Type 0
NoRepeats [] = Unit
NoRepeats (k ∷ ks) = (contains k ks ≡ false) × NoRepeats ks

after_trans :
    (a b : Text) (ks : List Text)
    → text_lt a b ≡ true
    → All (λ j. text_lt b j ≡ true) ks
    → All (λ j. text_lt a j ≡ true) ks
after_trans a b [] h all = tt
after_trans a b (k ∷ ks) h (p, all) = (text_lt_trans a b k h p, after_trans a b ks h all)

insert-after :
    (a k : Text) (ks : List Text)
    → text_lt a k ≡ true
    → All (λ j. text_lt a j ≡ true) ks
    → All (λ j. text_lt a j ≡ true) (insert_key k ks)
unfolding insert_key
insert-after a k [] h all = (h, tt)
insert-after a k (j ∷ ks) h (p, all) = elim (Bool-cases (text_lt j k)) [
  | inl later ↦ rw later (p, insert-after a k ks h all)
  | inr first ↦ rw first (h, (p, all))
]

insert-IsAscending :
    (k : Text) (ks : List Text)
    → contains k ks ≡ false
    → IsAscending ks
    → IsAscending (insert_key k ks)
unfolding insert_key contains
insert-IsAscending k [] new h = (tt, tt)
insert-IsAscending k (j ∷ ks) new (all, h) = elim (Bool-cases (text_lt j k)) [
  | inl later ↦ rw later (insert-after j k ks later all, insert-IsAscending k ks (ground arith) h)
  | inr first ↦
      let before = text_lt_total j k first (ground arith) in
      rw first ((before, after_trans k j ks before all), (all, h))
]

contains-insert :
    (j k : Text) (ks : List Text) → contains j (insert_key k ks) ≡ (text_eq k j || contains j ks)
unfolding contains insert_key
contains-insert j k [] = refl
contains-insert j k (i ∷ ks) = ground (arith, contains-insert j k ks)

-- Sorting keeps what is in the list.
pub contains-sort : (j : Text) (ks : List Text) → contains j (sort_keys ks) ≡ contains j ks
unfolding contains sort_keys
contains-sort j [] = refl
contains-sort j (k ∷ ks) = ground (arith, contains-insert j k (sort_keys ks), contains-sort j ks)

pub sort-IsAscending : (ks : List Text) → NoRepeats ks → IsAscending (sort_keys ks)
unfolding sort_keys
sort-IsAscending [] h = tt
sort-IsAscending (k ∷ ks) (new, h) =
    insert-IsAscending k (sort_keys ks) (ground (arith, contains-sort k ks)) (sort-IsAscending ks h)

-- What holds of every text still does of the sorted ones.
insert_key-All :
    (P : Text → Type 0) (k : Text) (ks : List Text) → P k → All P ks → All P (insert_key k ks)
unfolding insert_key
insert_key-All P k [] p h = (p, tt)
insert_key-All P k (j ∷ ks) p (q, h) = elim (Bool-cases (text_lt j k)) [
  | inl later ↦ rw later (q, insert_key-All P k ks p h)
  | inr first ↦ rw first (p, (q, h))
]

pub sort_keys-All : (P : Text → Type 0) (ks : List Text) → All P ks → All P (sort_keys ks)
unfolding sort_keys
sort_keys-All P [] h = tt
sort_keys-All P (k ∷ ks) (p, h) = insert_key-All P k (sort_keys ks) p (sort_keys-All P ks h)
