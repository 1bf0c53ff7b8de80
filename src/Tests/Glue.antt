-- ===== src/Tests/Glue.antt =====
-- The glue's loops on overlapping ranges, within the rounds that the kernel allows.
use libarena_rs.Common.{ℕ, ◌+◌, ◌≡◌, ◌<◌, refl, Bool, true, [], ◌∷◌, arith, ltb, ◌%◌}
use libarena_rs.Glue.{
  Bytes, bpf_arena_memcpy, copy_up, copy_down, bpf_arena_memcmp, compare_from, negsuc,
}
use libarena_rs.Glue.Copying.{copy, bpf_arena_memcpy_lem}
use libarena_rs.Glue.Comparing.{bpf_arena_memcmp_lem, bytes_at, compare_bytes}

abbrev rounds_left : ℕ → Bool
rounds_left i = ltb i 8388608

lasts : (i : ℕ) → i < 3 → rounds_left i ≡ true
lasts i h = ground arith

abbrev bytes : Bytes
bytes x = (x + 7) % 256

-- Both directions move overlapping bytes whole.
up_down :
    (bytes_at (bpf_arena_memcpy rounds_left bytes 100 101 3) 100 3 ≡ 108 ∷ 109 ∷ 110 ∷ [])
    × (bytes_at (bpf_arena_memcpy rounds_left bytes 101 100 3) 101 3 ≡ 107 ∷ 108 ∷ 109 ∷ [])
unfolding bpf_arena_memcpy copy_up copy_down
up_down = (refl, refl)

bpf_arena_memcpy_lem_example :
    bpf_arena_memcpy rounds_left bytes 101 100 3 102 ≡ copy bytes 100 101 3 102
bpf_arena_memcpy_lem_example =
    bpf_arena_memcpy_lem rounds_left 3 lasts bytes 101 100 (omega arith) (omega arith) 102

sign : bpf_arena_memcmp rounds_left bytes 100 101 3 ≡ negsuc 0
unfolding bpf_arena_memcmp compare_from
sign = refl

bpf_arena_memcmp_lem_example :
    bpf_arena_memcmp rounds_left bytes 100 101 3
    ≡ compare_bytes (bytes_at bytes 100 3) (bytes_at bytes 101 3)
bpf_arena_memcmp_lem_example =
    bpf_arena_memcmp_lem rounds_left 3 lasts bytes 100 101 (omega arith) (omega arith)
