-- ===== src/Smoke/Sorting.antt =====
-- The insertion sort of the sort test.
use mathlib.Core.List.{Perm, perm_middle}
use mathlib.Core.List.Perm
use libarena_rs.Common.{
  ℕ, zero, suc, ◌+◌, ◌-◌, ◌≤◌, ◌<◌, ◌≡◌, refl, ◌∙◌, ap, inl, inr, false, some, List, [], ◌∷◌, ◌++◌,
  arith, length, length-append, ◌%◌, is_nil, ltb, if◌then◌else◌, Bool-cases, All, append-nil,
}
use libarena_rs.Smoke.{
  get, set, swap, sift, sort_from, check_sorted, push_random, next_random, sort_test,
}

-- The front of a vector, reversed, before the rest.
abbrev rev_append : List ℕ → List ℕ → List ℕ
rev_append [] q = q
rev_append (a ∷ r) q = rev_append r (a ∷ q)

-- Insertion into a falling list.
abbrev place : List ℕ → ℕ → List ℕ
place [] x = x ∷ []
place (a ∷ r) x = let rest = place r x in if ltb x a then a ∷ rest else x ∷ a ∷ r

abbrev place_all : List ℕ → List ℕ → List ℕ
place_all r [] = r
place_all r (x ∷ q) = place_all (place r x) q

-- Positions in the rest, behind the front.
abbrev behind : List ℕ → ℕ → ℕ
behind [] i = i
behind (a ∷ r) i = behind r (suc i)

behind_is : (r : List ℕ) (i : ℕ) → behind r i ≡ length r + i
behind_is [] i = omega arith
behind_is (a ∷ r) i = omega (arith, behind_is r (suc i))

get-behind : (r q : List ℕ) (i : ℕ) → get (rev_append r q) (behind r i) ≡ get q i
get-behind [] q i = refl
get-behind (a ∷ r) q i = get-behind r (a ∷ q) (suc i)

set-behind :
    (r q : List ℕ) (i x : ℕ) → set (rev_append r q) (behind r i) x ≡ rev_append r (set q i x)
set-behind [] q i x = refl
set-behind (a ∷ r) q i x = set-behind r (a ∷ q) (suc i) x

module _ (a x : ℕ) (r q : List ℕ) where
  abbrev both : List ℕ
  both = rev_append r (a ∷ x ∷ q)

  first_at : behind r 0 ≡ length r
  first_at = omega (arith, behind_is r 0)

  second_at : behind r 1 ≡ suc (length r)
  second_at = omega (arith, behind_is r 1)

  get_first : get both (length r) ≡ some a
  get_first = rw first_at at (get-behind r (a ∷ x ∷ q) 0)

  get_second : get both (suc (length r)) ≡ some x
  get_second = rw second_at at (get-behind r (a ∷ x ∷ q) 1)

  swap_lem : swap both (length r) (suc (length r)) ≡ rev_append r (x ∷ a ∷ q)
  unfolding swap
  swap_lem =
      rw (swap, get_first, get_second)
        (ap (λ v. set v (suc (length r)) a) (rw first_at at (set-behind r (a ∷ x ∷ q) 0 x))
          ∙ rw second_at at (set-behind r (x ∷ x ∷ q) 1 a))

-- The inner loop puts the element behind a sorted front in its place.
sift_lem :
    (r q : List ℕ) (x : ℕ) → sift (length r) (rev_append r (x ∷ q)) ≡ rev_append (place r x) q
unfolding sift
sift_lem [] q x = refl
sift_lem (a ∷ r) q x = elim (Bool-cases (ltb x a)) [
  | inl below ↦
      rw (sift, get_first a x r q, get_second a x r q, below, swap_lem a x r q)
        (sift_lem r (a ∷ q) x)
  | inr above ↦ rw (sift, get_first a x r q, get_second a x r q, above) refl
]

length-place : (r : List ℕ) (x : ℕ) → length (place r x) ≡ suc (length r)
length-place [] x = refl
length-place (a ∷ r) x = ground (arith, length-place r x)

sort_from_lem :
    (q r : List ℕ)
    → sort_from (length q) (length r) (rev_append r q) ≡ rev_append (place_all r q) []
unfolding sort_from
sort_from_lem [] r = refl
sort_from_lem (x ∷ q) r =
    ap (sort_from (length q) (suc (length r))) (sift_lem r q x)
    ∙ rw (← length-place r x) (sort_from_lem q (place r x))

All-place : (P : ℕ → Type 0) (r : List ℕ) (x : ℕ) → P x → All P r → All P (place r x)
All-place P [] x h hr = (h, tt)
All-place P (a ∷ r) x h (ha, hr) = elim (Bool-cases (ltb x a)) [
  | inl below ↦ rw below (ha, All-place P r x h hr)
  | inr above ↦ rw above (h, (ha, hr))
]

-- Each element is at least those behind it.
abbrev IsFalling : List ℕ → Type 0
IsFalling [] = Unit
IsFalling (a ∷ r) = All (λ y. y ≤ a) r × IsFalling r

All-weaken : (a b : ℕ) (r : List ℕ) → a ≤ b → All (λ y. y ≤ a) r → All (λ y. y ≤ b) r
All-weaken a b [] h hr = tt
All-weaken a b (y ∷ r) h (hy, hr) = (omega arith, All-weaken a b r h hr)

place-IsFalling : (r : List ℕ) (x : ℕ) → IsFalling r → IsFalling (place r x)
place-IsFalling [] x h = (tt, tt)
place-IsFalling (a ∷ r) x (below_a, falling) = elim (Bool-cases (ltb x a)) [
  | inl below ↦
      rw below (All-place (λ y. y ≤ a) r x (ground arith) below_a, place-IsFalling r x falling)
  | inr above ↦
      let le : a ≤ x = ground arith in
      rw above ((le, All-weaken a x r le below_a), (below_a, falling))
]

place_all-IsFalling : (r q : List ℕ) → IsFalling r → IsFalling (place_all r q)
place_all-IsFalling r [] h = h
place_all-IsFalling r (x ∷ q) h = place_all-IsFalling (place r x) q (place-IsFalling r x h)

check_sorted-rev_append :
    (r q : List ℕ) (m : ℕ)
    → All (λ y. y ≤ m) r
    → IsFalling r
    → check_sorted m q ≡ 0
    → check_sorted 0 (rev_append r (m ∷ q)) ≡ 0
unfolding check_sorted
check_sorted-rev_append [] q m h f c = ground arith
check_sorted-rev_append (a ∷ r) q m (ha, h) (below, f) c =
    check_sorted-rev_append r (m ∷ q) a below f (ground arith)

check_falling : (r : List ℕ) → IsFalling r → check_sorted 0 (rev_append r []) ≡ 0
unfolding check_sorted
check_falling [] f = refl
check_falling (a ∷ r) (below, f) = check_sorted-rev_append r [] a below f refl

place-Perm : (r : List ℕ) (x : ℕ) → Perm (place r x) (x ∷ r)
place-Perm [] x = Perm.refl _
place-Perm (a ∷ r) x = elim (Bool-cases (ltb x a)) [
  | inl below ↦ rw below (Perm.trans (Perm.cons a (place-Perm r x)) (Perm.swap x a r))
  | inr above ↦ rw above (Perm.refl _)
]

rev_append-Perm : (r q : List ℕ) → Perm (rev_append r q) (r ++ q)
rev_append-Perm [] q = Perm.refl q
rev_append-Perm (a ∷ r) q = Perm.trans (rev_append-Perm r (a ∷ q)) (perm_middle r q)

place_all-Perm : (r q : List ℕ) → Perm (place_all r q) (r ++ q)
place_all-Perm r [] = rw append-nil (Perm.refl r)
place_all-Perm r (x ∷ q) =
    Perm.trans (place_all-Perm (place r x) q)
      (Perm.trans (Perm.append (place-Perm r x) (Perm.refl q)) (Perm.symm (perm_middle r q)))

-- The loops of the sort test, over a whole vector.
abbrev pub insertion_sort : List ℕ → List ℕ
insertion_sort v = sort_from (length v - 1) 1 v

insertion_sort_is :
    (x : ℕ) (q : List ℕ) → insertion_sort (x ∷ q) ≡ rev_append (place_all (x ∷ []) q) []
insertion_sort_is x q =
    let e : suc (length q) - 1 ≡ length q = omega arith in rw e (sort_from_lem q (x ∷ []))

-- For every vector, the sort's loops end in a rearrangement of it that passes the test's check.
pub insertion_sort_lem :
    (v : List ℕ) → (check_sorted 0 (insertion_sort v) ≡ 0) × Perm (insertion_sort v) v
insertion_sort_lem [] = (unfold sort_from check_sorted in refl, unfold sort_from in Perm.refl [])
insertion_sort_lem (x ∷ q) = rw (insertion_sort_is x q) (
  check_falling _ (place_all-IsFalling (x ∷ []) q (tt, tt)),
  Perm.trans (rev_append-Perm (place_all (x ∷ []) q) [])
      (rw append-nil (place_all-Perm (x ∷ []) q)),
)

length-rev_append : (r q : List ℕ) → length (rev_append r q) ≡ length r + length q
length-rev_append [] q = omega arith
length-rev_append (a ∷ r) q = omega (arith, length-rev_append r (a ∷ q))

length-place_all : (r q : List ℕ) → length (place_all r q) ≡ length r + length q
length-place_all r [] = omega arith
length-place_all r (x ∷ q) = omega (arith, length-place_all (place r x) q, length-place r x)

length-insertion_sort : (v : List ℕ) → length (insertion_sort v) ≡ length v
length-insertion_sort [] = unfold sort_from in refl
length-insertion_sort (x ∷ q) =
    rw (insertion_sort_is x q)
      (omega (arith, length-rev_append (place_all (x ∷ []) q) [], length-place_all (x ∷ []) q))

length-push_random : (n x : ℕ) (v : List ℕ) → length (push_random n x v) ≡ n + length v
length-push_random zero x v = omega arith
length-push_random (suc n) x v = omega (
  arith,
  length-push_random n (next_random x) (v ++ next_random x % 1000 ∷ []),
  length-append v (next_random x % 1000 ∷ []),
)

nonempty : (v : List ℕ) → 0 < length v → is_nil v ≡ false
nonempty [] h = absurd (omega arith)
nonempty (x ∷ v) h = refl

-- The sort test passes for every seed and every number of elements but 0.
pub sort_test_lem : (n seed : ℕ) → 0 < n → sort_test n seed ≡ 0
unfolding sort_test
sort_test_lem n seed h =
    let v = push_random n seed [] in
    let size : length v ≡ n = omega (arith, length-push_random n seed []) in
    let passes : check_sorted 0 (sort_from (n - 1) 1 v) ≡ 0 = rw size at (insertion_sort_lem v).0 in
    let kept : length (sort_from (n - 1) 1 v) ≡ n = rw size at (length-insertion_sort v) in
    let some_left = nonempty (sort_from (n - 1) 1 v) (omega (arith, kept)) in
    rw (passes, kept, some_left) (ground arith)
