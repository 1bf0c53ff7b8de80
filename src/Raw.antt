-- ===== src/Raw.antt =====
-- src/raw.rs: the raw entry points over libarena, whose C code is a parameter, and the stand-ins
-- over `posix_memalign` and `free` that take its place on other targets.
pub mod Pow2
pub mod Hosted
pub mod Laws
use libarena_rs.Common.{
  ℕ, ◌+◌, ◌*◌, ◌^◌, zero, suc, Bool, Option, none, some, ◌==◌, leb, if◌then◌else◌, min, max,
}
use libarena_rs.Cast.{Machine, cast_kern, cast_user, as_ptr}

-- The two C functions, over the state of the allocator.
pub record Libarena : Type 1 where
  pub Heap : Type 0
  pub arena_malloc_internal : Heap → ℕ → ℕ × Heap
  pub arena_free_u64 : Heap → ℕ → Heap

-- `posix_memalign` (`none` is a status other than 0) and `free`.
pub record Posix : Type 1 where
  pub Heap : Type 0
  pub posix_memalign : Heap → ℕ → ℕ → Option ℕ × Heap
  pub free : Heap → ℕ → Heap

-- `usize::next_power_of_two` of 64 bits, without overflow checks: 0 if no power fits.
next_power_from : ℕ → ℕ → ℕ → ℕ
next_power_from zero p n = 0
next_power_from (suc left) p n =
    let rest = next_power_from left (p * 2) n in if leb n p then p else rest

unfoldable pub next_power_of_two : ℕ → ℕ
unfolding next_power_from
next_power_of_two n = next_power_from 64 1 n

module _ (c : Posix) where
  -- The test of the status, and the address as a number.
  status_to_addr : Option ℕ × c.Heap → ℕ × c.Heap
  status_to_addr (none, h) = (0, h)
  status_to_addr (some p, h) = (p, h)

  -- `next_power_of_two` stays shut here.
  unfoldable pub hosted_malloc_internal : c.Heap → ℕ → ℕ × c.Heap
  unfolding status_to_addr
  hosted_malloc_internal h size =
      let sz = next_power_of_two (max size 16) in
      status_to_addr (c.posix_memalign h (min sz 4096) sz)

  unfoldable pub hosted_free_u64 : c.Heap → ℕ → c.Heap
  hosted_free_u64 h ptr = c.free h ptr

  -- What the names resolve to on a target other than BPF.
  abbrev pub hosted_libarena : Libarena
  hosted_libarena = record {
    Heap = c.Heap;
    arena_malloc_internal = hosted_malloc_internal;
    arena_free_u64 = hosted_free_u64;
  }

module _ (m : Machine) (l : Libarena) where
  unfoldable pub arena_malloc_user : l.Heap → ℕ → ℕ × l.Heap
  arena_malloc_user h size = l.arena_malloc_internal h size

  unfoldable pub arena_free_user : l.Heap → ℕ → l.Heap
  arena_free_user h addr = l.arena_free_u64 h addr

  -- A kernel-view pointer, null on failure.
  unfoldable pub arena_malloc : l.Heap → ℕ → ℕ × l.Heap
  arena_malloc h size =
      let (ua, h') = l.arena_malloc_internal h size in
      if ua == 0 then (0, h') else (as_ptr m (cast_kern m ua), h')

  unfoldable pub arena_free : l.Heap → ℕ → l.Heap
  arena_free h ptr = l.arena_free_u64 h (cast_user m ptr)
