-- ===== src/Glue/Comparing.antt =====
-- `bpf_arena_memcmp` against the order of lists of bytes.
use libarena_rs.Common.{
  ℕ, zero, suc, ◌+◌, ◌^◌, ◌≤◌, ◌<◌, ◌≡◌, refl, Bool, true, List, [], ◌∷◌, arith, ltb, ◌==◌,
  if◌then◌else◌, sym, ◌∙◌,
}
use native.Mathlib.Nat.{mod-eq_of_lt}
use libarena_rs.Glue.{Bytes, index, ℤ, pos, negsuc, compare_from, bpf_arena_memcmp}

-- The bytes behind a pointer.
abbrev pub bytes_at : Bytes → ℕ → ℕ → List ℕ
bytes_at mem p zero = []
bytes_at mem p (suc n) = mem p ∷ bytes_at mem (suc p) n

-- The sign of the comparison of two lists in the order of a dictionary.
abbrev pub compare_bytes : List ℕ → List ℕ → ℤ
compare_bytes [] [] = pos 0
compare_bytes [] (y ∷ ys) = negsuc 0
compare_bytes (x ∷ xs) [] = pos 1
compare_bytes (x ∷ xs) (y ∷ ys) =
    let rest = compare_bytes xs ys in if x == y then rest else if ltb x y then negsuc 0 else pos 1

module _ (can_loop : ℕ → Bool) (n : ℕ) (lasts : (i : ℕ) → i < n → can_loop i ≡ true) (mem : Bytes)
    (a b : ℕ) (a_fits : a + n ≤ 2 ^ 64) (b_fits : b + n ≤ 2 ^ 64) where
  compare_from_lem :
      (rounds i p q : ℕ)
      → i + rounds ≡ n
      → p ≡ a + i
      → q ≡ b + i
      → compare_from can_loop mem a b i rounds
        ≡ compare_bytes (bytes_at mem p rounds) (bytes_at mem q rounds)
  unfolding compare_from
  compare_from_lem zero i p q e ep eq = refl
  compare_from_lem (suc rounds) i p q e ep eq =
      let left : index a i ≡ p = mod-eq_of_lt (omega arith) ∙ sym ep in
      let right : index b i ≡ q = mod-eq_of_lt (omega arith) ∙ sym eq in
      rw
        (
          lasts i (omega arith),
          left,
          right,
          compare_from_lem rounds (i + 1) (suc p) (suc q) (omega (arith, e)) (omega (arith, ep))
              (omega (arith, eq)),
        )
        refl

  -- Where the kernel lets every round begin and neither range wraps, the glue compares the bytes behind
  -- its pointers as a dictionary does: by the first that differ, with 0 for equal ones.
  pub bpf_arena_memcmp_lem :
      bpf_arena_memcmp can_loop mem a b n ≡ compare_bytes (bytes_at mem a n) (bytes_at mem b n)
  unfolding bpf_arena_memcmp
  bpf_arena_memcmp_lem = compare_from_lem n 0 a b (omega arith) (omega arith) (omega arith)
