-- ===== src/Tests/Smoke.antt =====
-- The smoke programs, run.
use mathlib.Core.List.{Perm}
use libarena_rs.Common.{ℕ, ◌≡◌, refl, List, [], ◌∷◌, arith, starts_with, text_eq}
use libarena_rs.Build.Knobs.{ends_with}
use libarena_rs.Smoke.{
  test_rs_box, test_rs_vec, test_rs_string, test_rs_vecdeque, test_rs_sort, test_rs_grow_shrink,
  check_sorted, rounds,
}
use libarena_rs.Smoke.Sorting.{insertion_sort, insertion_sort_lem, sort_test_lem}

box_passes : test_rs_box ≡ 0
unfolding test_rs_box
box_passes = refl

vec_passes : test_rs_vec ≡ 0
unfolding test_rs_vec
vec_passes = refl

string_passes : test_rs_string ≡ 0
unfolding test_rs_string starts_with ends_with text_eq
string_passes = refl

vecdeque_passes : test_rs_vecdeque ≡ 0
unfolding test_rs_vecdeque
vecdeque_passes = refl

sort_passes : test_rs_sort ≡ 0
unfolding test_rs_sort
sort_passes = sort_test_lem 24 1 (omega arith)

grow_shrink_passes : test_rs_grow_shrink ≡ 0
unfolding test_rs_grow_shrink rounds
grow_shrink_passes = refl

abbrev numbers : List ℕ
numbers = 3 ∷ 1 ∷ 2 ∷ 1 ∷ []

insertion_sort_lem_example :
    (check_sorted 0 (insertion_sort numbers) ≡ 0) × Perm (insertion_sort numbers) numbers
insertion_sort_lem_example = insertion_sort_lem numbers
