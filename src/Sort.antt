-- ===== src/Sort.antt =====
-- `Vec<String>::sort` and `dedup`: the order of texts, and what sorting and removing repeats give.
use libarena_rs.Common.{
  ◌≡◌, refl, inl, inr, Bool, true, false, ◌&&◌, ◌||◌, List, [], ◌∷◌, arith, ltb, ◌==◌,
  if◌then◌else◌, Text, text_eq, text_eq_iff, contains, All, Bool-cases,
}

-- `a <= b` on strings.
unfoldable pub text_leb : Text → Text → Bool
text_leb [] b = true
text_leb (x ∷ a) [] = false
text_leb (x ∷ a) (y ∷ b) = ltb x y || ((x == y) && text_leb a b)

pub text_leb_total : (a b : Text) → text_leb a b ≡ false → text_leb b a ≡ true
unfolding text_leb
text_leb_total [] b h = cc
text_leb_total (x ∷ a) [] h = refl
text_leb_total (x ∷ a) (y ∷ b) h = ground (arith, text_leb_total a b)

pub text_leb_antisym : (a b : Text) → text_leb a b ≡ true → text_leb b a ≡ true → a ≡ b
unfolding text_leb
text_leb_antisym [] [] h k = refl
text_leb_antisym [] (y ∷ b) h k = cc
text_leb_antisym (x ∷ a) [] h k = cc
text_leb_antisym (x ∷ a) (y ∷ b) h k = ground (arith, text_leb_antisym a b)

pub text_leb_trans :
    (a b c : Text) → text_leb a b ≡ true → text_leb b c ≡ true → text_leb a c ≡ true
unfolding text_leb
text_leb_trans [] b c h k = refl
text_leb_trans (x ∷ a) [] c h k = cc
text_leb_trans (x ∷ a) (y ∷ b) [] h k = cc
text_leb_trans (x ∷ a) (y ∷ b) (z ∷ c) h k = ground (arith, text_leb_trans a b c)

unfoldable pub insert : Text → List Text → List Text
insert a [] = a ∷ []
insert a (x ∷ xs) = let rest = insert a xs in if text_leb a x then a ∷ x ∷ xs else x ∷ rest

-- The sorted order of a list of strings; equal strings are alike, so every sort gives this one.
unfoldable pub sort : List Text → List Text
unfolding insert text_leb
sort [] = []
sort (x ∷ xs) = insert x (sort xs)

-- An element that equals the one in front of it is removed.
dedup_after : Text → List Text → List Text
dedup_after a [] = []
dedup_after a (x ∷ xs) = elim (text_eq a x) [
  | true ↦ dedup_after a xs
  | false ↦ x ∷ dedup_after x xs
]

unfoldable pub dedup : List Text → List Text
unfolding dedup_after text_eq
dedup [] = []
dedup (x ∷ xs) = x ∷ dedup_after x xs

abbrev pub Below : Text → List Text → Type 0
Below a = All (λ x. text_leb a x ≡ true)

abbrev pub IsSorted : List Text → Type 0
IsSorted [] = Unit
IsSorted (x ∷ xs) = Below x xs × IsSorted xs

abbrev pub StrictlyBelow : Text → List Text → Type 0
StrictlyBelow a = All (λ x. text_leb x a ≡ false)

-- In strictly rising order: sorted, with no repeats.
abbrev pub IsRising : List Text → Type 0
IsRising [] = Unit
IsRising (x ∷ xs) = StrictlyBelow x xs × IsRising xs

Below-trans : (a b : Text) (xs : List Text) → text_leb a b ≡ true → Below b xs → Below a xs
Below-trans a b [] h k = tt
Below-trans a b (x ∷ xs) h (k, ks) = (text_leb_trans a b x h k, Below-trans a b xs h ks)

Below-insert :
    (a b : Text) (xs : List Text) → text_leb a b ≡ true → Below a xs → Below a (insert b xs)
unfolding insert
Below-insert a b [] h k = (h, tt)
Below-insert a b (x ∷ xs) h (k, ks) = ground (arith, Below-insert a b xs h ks)

insert-IsSorted : (a : Text) (xs : List Text) → IsSorted xs → IsSorted (insert a xs)
unfolding insert
insert-IsSorted a [] s = (tt, tt)
insert-IsSorted a (x ∷ xs) (b, s) = elim (Bool-cases (text_leb a x)) [
  | inl le ↦ rw le ((le, Below-trans a x xs le b), (b, s))
  | inr gt ↦ rw gt (Below-insert x a xs (text_leb_total a x gt) b, insert-IsSorted a xs s)
]

pub sort-IsSorted : (xs : List Text) → IsSorted (sort xs)
unfolding sort
sort-IsSorted [] = tt
sort-IsSorted (x ∷ xs) = insert-IsSorted x (sort xs) (sort-IsSorted xs)

contains-insert : (a b : Text) (xs : List Text) → contains (insert b xs) a ≡ contains (b ∷ xs) a
unfolding insert contains
contains-insert a b [] = refl
contains-insert a b (x ∷ xs) = ground (arith, contains-insert a b xs)

pub contains-sort : (a : Text) (xs : List Text) → contains (sort xs) a ≡ contains xs a
unfolding sort contains
contains-sort a [] = refl
contains-sort a (x ∷ xs) = ground (arith, contains-insert a x (sort xs), contains-sort a xs)

contains-dedup_after :
    (a b : Text) (xs : List Text) → contains (b ∷ dedup_after b xs) a ≡ contains (b ∷ xs) a
unfolding dedup_after contains
contains-dedup_after a b [] = refl
contains-dedup_after a b (x ∷ xs) =
    ground (arith, text_eq_iff b x, contains-dedup_after a b xs, contains-dedup_after a x xs)

-- Removing repeats loses no element and adds none.
pub contains-dedup : (a : Text) (xs : List Text) → contains (dedup xs) a ≡ contains xs a
unfolding dedup
contains-dedup a [] = refl
contains-dedup a (x ∷ xs) = contains-dedup_after a x xs

not_leb_of_ne : (a x : Text) → text_leb a x ≡ true → text_eq a x ≡ false → text_leb x a ≡ false
not_leb_of_ne a x h ne = elim (Bool-cases (text_leb x a)) [
  | inl back ↦ ground (arith, text_leb_antisym a x h back, text_eq_iff a x)
  | inr out ↦ out
]

StrictlyBelow-trans :
    (a b : Text) (xs : List Text) → text_leb b a ≡ false → StrictlyBelow b xs → StrictlyBelow a xs
StrictlyBelow-trans a b [] h k = tt
StrictlyBelow-trans a b (x ∷ xs) h (k, ks) = (
  elim (Bool-cases (text_leb x a)) [
    | inl le ↦ ground (arith, text_leb_trans x a b le (text_leb_total b a h))
    | inr out ↦ out
  ],
  StrictlyBelow-trans a b xs h ks,
)

dedup_after-IsRising :
    (a : Text) (xs : List Text)
    → Below a xs
    → IsSorted xs
    → StrictlyBelow a (dedup_after a xs) × IsRising (dedup_after a xs)
unfolding dedup_after
dedup_after-IsRising a [] b s = (tt, tt)
dedup_after-IsRising a (x ∷ xs) (b, bs) (bx, s) = elim (Bool-cases (text_eq a x)) [
  | inl same ↦ rw (dedup_after, same) (dedup_after-IsRising a xs bs s)
  | inr new ↦
      let lt : text_leb x a ≡ false = not_leb_of_ne a x b new in
      let (above, rising) = dedup_after-IsRising x xs bx s in
      rw (dedup_after, new) ((lt, StrictlyBelow-trans a x _ lt above), (above, rising))
]

-- A sorted list without repeats is strictly rising.
pub dedup-IsRising : (xs : List Text) → IsSorted xs → IsRising (dedup xs)
unfolding dedup
dedup-IsRising [] s = tt
dedup-IsRising (x ∷ xs) (b, s) = dedup_after-IsRising x xs b s

module _ (P : Text → Type 0) where
  All-insert : (a : Text) (xs : List Text) → P a → All P xs → All P (insert a xs)
  unfolding insert
  All-insert a [] h hs = (h, tt)
  All-insert a (x ∷ xs) h (hx, hs) = elim (Bool-cases (text_leb a x)) [
    | inl le ↦ rw le (h, (hx, hs))
    | inr gt ↦ rw gt (hx, All-insert a xs h hs)
  ]

  pub All-sort : (xs : List Text) → All P xs → All P (sort xs)
  unfolding sort
  All-sort [] h = tt
  All-sort (x ∷ xs) (h, hs) = All-insert x (sort xs) h (All-sort xs hs)

  All-dedup_after : (a : Text) (xs : List Text) → All P xs → All P (dedup_after a xs)
  unfolding dedup_after
  All-dedup_after a [] h = tt
  All-dedup_after a (x ∷ xs) (h, hs) = elim (Bool-cases (text_eq a x)) [
    | inl same ↦ rw (dedup_after, same) (All-dedup_after a xs hs)
    | inr new ↦ rw (dedup_after, new) (h, All-dedup_after x xs hs)
  ]

  -- What holds of all elements still does when they are sorted and repeats are removed.
  pub All-dedup : (xs : List Text) → All P xs → All P (dedup xs)
  unfolding dedup
  All-dedup [] h = tt
  All-dedup (x ∷ xs) (h, hs) = (h, All-dedup_after x xs hs)
