-- ===== src/Smoke.antt =====
-- examples/collections_smoke.rs: the self-checking programs. A `Vec`, a `VecDeque` and a `String` are
-- lists; 32- and 64-bit arithmetic wraps where the source's could.
pub mod Sorting
pub mod Rounds
use libarena_rs.Common.{
  ℕ, zero, suc, ◌+◌, ◌-◌, ◌*◌, ◌/◌, ◌%◌, ◌^◌, Bool, true, false, not, ◌&&◌, ◌||◌, Option, none,
  some, List, [], ◌∷◌, ◌++◌, Text, codes, length, is_nil, starts_with, ltb, leb, ◌==◌,
  if◌then◌else◌, map,
}
use libarena_rs.Build.Knobs.{ends_with}

module _ {A : Type 0} where
  -- `slice::get`.
  abbrev pub get : List A → ℕ → Option A
  get [] i = none
  get (x ∷ v) zero = some x
  get (x ∷ v) (suc i) = get v i

  abbrev pub set : List A → ℕ → A → List A
  set [] i a = []
  set (x ∷ v) zero a = a ∷ v
  set (x ∷ v) (suc i) a = x ∷ set v i a

  abbrev pub push : List A → A → List A
  push v a = v ++ a ∷ []

  abbrev pub truncate : List A → ℕ → List A
  truncate v zero = []
  truncate [] (suc n) = []
  truncate (x ∷ v) (suc n) = x ∷ truncate v n

  abbrev pub pop_back : List A → Option A × List A
  pop_back [] = (none, [])
  pop_back (x ∷ []) = (some x, [])
  pop_back (x ∷ y ∷ v) = let (last, rest) = pop_back (y ∷ v) in (last, x ∷ rest)

  abbrev pub pop_front : List A → Option A × List A
  pop_front [] = (none, [])
  pop_front (x ∷ v) = (some x, v)

  -- `v.swap(i, j)`, within bounds.
  unfoldable pub swap : List A → ℕ → ℕ → List A
  swap v i j = elim (get v i) [
    | none ↦ v
    | some a ↦ elim (get v j) [ none ↦ v | some b ↦ set (set v i b) j a ]
  ]

-- `from..from + n`
abbrev pub range : ℕ → ℕ → List ℕ
range from zero = []
range from (suc n) = from ∷ range (suc from) n

-- The sum of an iterator over integers of `w` bits.
abbrev pub sum : ℕ → List ℕ → ℕ
sum w [] = 0
sum w (x ∷ xs) = (x + sum w xs) % 2 ^ w

abbrev pub has : Option ℕ → ℕ → Bool
has none n = false
has (some m) n = m == n

unfoldable pub test_rs_box : ℕ
test_rs_box =
    if not (0xdead_beef == 0xdead_beef)
    then 1
    else if not (has (get (map (λ _. 7) (range 0 16)) 15) 7)
    then 2
    else 0

-- `v.push(i * i)` for each of the numbers.
abbrev pub push_squares : List ℕ → List ℕ → List ℕ
push_squares [] v = v
push_squares (i ∷ is) v = push_squares is (push v (i * i % 2 ^ 64))

unfoldable pub test_rs_vec : ℕ
test_rs_vec =
    let v = push_squares (range 0 100) [] in
    let w = truncate v 10 in
    if not (length v == 100)
    then 1
    else if not (sum 64 v == sum 64 (map (λ i. i * i % 2 ^ 64) (range 0 100)))
    then 2
    else if not (length w == 10) || not (has (get w 9) 81)
    then 3
    else 0

abbrev pub push_str : ℕ → Text → Text → Text
push_str zero part s = s
push_str (suc n) part s = push_str n part (s ++ part)

abbrev pub make_ascii_uppercase : Text → Text
make_ascii_uppercase = map (λ c. if leb 97 c && leb c 122 then c - 32 else c)

unfoldable pub test_rs_string : ℕ
test_rs_string =
    let s = push_str 10 (codes "arena") [] in
    let upper = make_ascii_uppercase s in
    if not (length s == 50)
    then 1
    else if not (starts_with (codes "arenaarena") s) || not (ends_with (codes "arena") s)
    then 2
    else if not (starts_with (codes "ARENA") upper) || not (length upper == length s)
    then 3
    else 0

-- Even numbers go to the back of the queue, odd ones to its front.
abbrev pub push_both : List ℕ → List ℕ → List ℕ
push_both [] q = q
push_both (i ∷ is) q = push_both is (if i % 2 == 0 then push q i else i ∷ q)

unfoldable pub test_rs_vecdeque : ℕ
test_rs_vecdeque =
    let q = push_both (range 0 64) [] in
    let (front, q1) = pop_front q in
    let (back, q2) = pop_back q1 in
    if not (length q == 64)
    then 1
    else if not (has front 63) || not (has back 62)
    then 2
    else if not (sum 32 q2 == sum 32 (range 0 64) - 63 - 62)
    then 3
    else 0

-- The pseudo-random numbers of the sort test.
abbrev pub next_random : ℕ → ℕ
next_random x = (x * 1664525 % 2 ^ 32 + 1013904223) % 2 ^ 32

abbrev pub push_random : ℕ → ℕ → List ℕ → List ℕ
push_random zero x v = v
push_random (suc n) x v = push_random n (next_random x) (push v (next_random x % 1000))

-- The loop `while j > 0`: the element at `j` moves down by swaps.
unfoldable pub sift : ℕ → List ℕ → List ℕ
unfolding swap
sift zero v = v
sift (suc j) v = elim (get v j) [
  | none ↦ v
  | some a ↦ elim (get v (suc j)) [
    | none ↦ v
    | some b ↦ let rest = sift j (swap v j (suc j)) in if ltb b a then rest else v
  ]
]

-- The loop `for i in i..i + n`.
unfoldable pub sort_from : ℕ → ℕ → List ℕ → List ℕ
sort_from zero i v = v
sort_from (suc n) i v = sort_from n (suc i) (sift i v)

-- The loop over `v.iter()` that looks for an element below the one before.
unfoldable pub check_sorted : ℕ → List ℕ → ℕ
check_sorted prev [] = 0
check_sorted prev (k ∷ v) = let rest = check_sorted k v in if ltb k prev then 1 else rest

-- The sort test from a seed, over `n` numbers.
unfoldable pub sort_test : ℕ → ℕ → ℕ
unfolding sort_from check_sorted
sort_test n seed =
    let v = sort_from (n - 1) 1 (push_random n seed []) in
    let checked = check_sorted 0 v in
    if not (checked == 0) then checked else if is_nil v || ltb n (length v) then 2 else 0

unfoldable pub test_rs_sort : ℕ
unfolding sort_test
test_rs_sort = sort_test 24 1

-- One round: 64 elements are pushed, and all but the first 16 dropped.
abbrev pub push_all : ℕ → List ℕ → List ℕ → List ℕ
push_all base [] v = v
push_all base (i ∷ is) v = push_all base is (push v ((base + i) % 2 ^ 64))

unfoldable pub rounds : ℕ → ℕ → List ℕ → List ℕ
rounds zero round v = v
rounds (suc n) round v =
    rounds n (suc round) (truncate (push_all (round * 1000 % 2 ^ 64) (range 0 64) v) 16)

unfoldable pub test_rs_grow_shrink : ℕ
unfolding rounds
test_rs_grow_shrink =
    let v = rounds 8 0 [] in
    if not (length v == 16) then 1 else if not (sum 64 v == sum 64 (range 0 16)) then 2 else 0

-- `main` off BPF: the lines that are printed, and the number of failed tests as the exit status.
unfoldable pub run_tests : List (Text × ℕ) → ℕ → List Text × ℕ
run_tests [] failed = ([], failed)
run_tests ((name, r) ∷ tests) failed = elim (r == 0) [
  | true ↦ let (lines, status) = run_tests tests failed in ((codes "OK   " ++ name) ∷ lines, status)
  | false ↦
      let (lines, status) = run_tests tests (suc failed) in
      ((codes "FAIL " ++ name) ∷ lines, status)
]

unfoldable pub main : List Text × ℕ
main =
    run_tests
      ((codes "test_rs_box", test_rs_box)
        ∷ (codes "test_rs_vec", test_rs_vec)
        ∷ (codes "test_rs_string", test_rs_string)
        ∷ (codes "test_rs_vecdeque", test_rs_vecdeque)
        ∷ (codes "test_rs_sort", test_rs_sort)
        ∷ (codes "test_rs_grow_shrink", test_rs_grow_shrink)
        ∷ [])
      0
