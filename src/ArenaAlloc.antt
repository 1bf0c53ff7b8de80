-- ===== src/ArenaAlloc.antt =====
-- src/arena_alloc.rs: `ArenaAlloc`, the `GlobalAlloc` over libarena. The pointer's layout is not
-- used when it is freed.
pub mod Contract
pub mod Clients
use libarena_rs.Common.{ℕ, zero, suc, ◌+◌, ◌-◌, Bool, ltb, ◌==◌, leb, ◌&&◌, if◌then◌else◌, min}
use libarena_rs.Cast.{Machine}
use libarena_rs.Raw.{Libarena, arena_malloc, arena_free}

pub record Layout : Type 0 where
  pub size : ℕ
  pub align : ℕ

-- Bytes to request from the buddy allocator.
unfoldable pub request_size : Layout → ℕ
request_size layout =
    let sz = if ltb layout.align layout.size then layout.size else layout.align in
    if sz == 0 then 1 else sz

module _ (m : Machine) (l : Libarena) where
  unfoldable pub alloc : l.Heap → Layout → ℕ × l.Heap
  alloc h layout = arena_malloc m l h (request_size layout)

  unfoldable pub dealloc : l.Heap → ℕ → Layout → l.Heap
  dealloc h ptr layout = arena_free m l h ptr
