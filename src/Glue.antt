-- ===== src/Glue.antt =====
-- csrc/arena_glue.bpf.c: the byte loops that the pipeline puts in place of the memory intrinsics. An
-- address is a 64-bit number, and `can_loop` says of each round whether the kernel lets it begin.
pub mod Copying
pub mod Comparing
use libarena_rs.Common.{ℕ, zero, suc, ◌+◌, ◌-◌, ◌%◌, ◌^◌, Bool, ltb, leb, ◌==◌, if◌then◌else◌}

-- The bytes behind addresses.
abbrev pub Bytes : Type 0
Bytes = ℕ → ℕ

-- The address of `base[i]`.
abbrev pub index : ℕ → ℕ → ℕ
index base i = (base + i) % 2 ^ 64

-- `*(u8 *)addr = value`
abbrev pub store : Bytes → ℕ → ℕ → Bytes
store mem addr value x = if x == addr then value else mem x

-- An `int`.
pub data ℤ : Type 0 where
  pos negsuc : ℕ → ℤ

module _ (can_loop : ℕ → Bool) where
  -- `for (i = zero; i < n && can_loop; i++)`, with `rounds` the rounds that are left up to `n`.
  unfoldable pub copy_up : ℕ → ℕ → Bytes → ℕ → ℕ → Bytes
  copy_up d s mem i zero = mem
  copy_up d s mem i (suc rounds) =
      let rest = copy_up d s (store mem (index d i) (mem (index s i))) (i + 1) rounds in
      if can_loop i then rest else mem

  -- The same from the last byte down, with its check of `k`.
  unfoldable pub copy_down : ℕ → ℕ → ℕ → Bytes → ℕ → ℕ → Bytes
  copy_down d s n mem i zero = mem
  copy_down d s n mem i (suc rounds) =
      let k = n - 1 - i in
      let rest = copy_down d s n (store mem (index d k) (mem (index s k))) (i + 1) rounds in
      if can_loop i then (if leb n k then mem else rest) else mem

  unfoldable pub bpf_arena_memcpy : Bytes → ℕ → ℕ → ℕ → Bytes
  bpf_arena_memcpy mem dst src n =
      if ltb dst src then copy_up dst src mem 0 n else copy_down dst src n mem 0 n

  unfoldable pub compare_from : Bytes → ℕ → ℕ → ℕ → ℕ → ℤ
  compare_from mem x y i zero = pos 0
  compare_from mem x y i (suc rounds) =
      let rest = compare_from mem x y (i + 1) rounds in
      if can_loop i
      then (if mem (index x i) == mem (index y i)
          then rest
          else if ltb (mem (index x i)) (mem (index y i))
          then negsuc 0
          else pos 1)
      else pos 0

  unfoldable pub bpf_arena_memcmp : Bytes → ℕ → ℕ → ℕ → ℤ
  unfolding compare_from
  bpf_arena_memcmp mem a b n = compare_from mem a b 0 n

  unfoldable pub set_from : ℕ → ℕ → Bytes → ℕ → ℕ → Bytes
  set_from p c mem i zero = mem
  set_from p c mem i (suc rounds) =
      let rest = set_from p c (store mem (index p i) c) (i + 1) rounds in
      if can_loop i then rest else mem

  unfoldable pub bpf_arena_memset : Bytes → ℕ → ℕ → ℕ → Bytes
  bpf_arena_memset mem s c n = set_from s c mem 0 n

  -- The `int` is cut to a byte, and the pointer is given back.
  unfoldable pub memset : Bytes → ℕ → ℕ → ℕ → ℕ × Bytes
  memset mem s c n = (s, set_from s (c % 2 ^ 8) mem 0 n)

-- `arena_free_u64` over libarena's `arena_free`: the number is the pointer.
abbrev pub arena_free_u64 : {Heap : Type 0} → (Heap → ℕ → Heap) → Heap → ℕ → Heap
arena_free_u64 arena_free h ptr = arena_free h ptr
