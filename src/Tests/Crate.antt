-- ===== src/Tests/Crate.antt =====
-- The crate over a BPF machine with its arena at 2 ^ 32 and an allocator that has one block.
use native.Mathlib.Nat.{dvd_of_mod-eq-zero}
use libarena_rs.Common.{
  ℕ, ◌+◌, ◌/◌, ◌%◌, ◌^◌, ◌<◌, ◌≡◌, refl, ◌≢◌, ◌&&◌, none, some, List, [], ◌∷◌, arith, ◌==◌, leb,
  if◌then◌else◌, is_nil, Bool-cases, inl, inr, leb→le,
}
use libarena_rs.Cast.{Machine, bpf, r3, addr_space_cast, cast_kern, cast_kern_imm, cast_user_imm}
use libarena_rs.Cast.Encoding.{decode, cast_insn, decode-addr_space_cast}
use libarena_rs.Cast.Views.{RunsCasts, IsFaithful, bpf-IsFaithful}
use libarena_rs.Raw.{Libarena, arena_malloc}
use libarena_rs.Raw.Laws.{Block, Served, IsAllocator, release}
use libarena_rs.ArenaAlloc.{Layout, request_size, alloc, dealloc}
use libarena_rs.ArenaAlloc.Contract.{IsValid, alloc_lem, dealloc-alloc, Fits}
use libarena_rs.ArenaAlloc.Clients.{
  Client, Reach, here, next, allocates, frees, allocator-IsSafe, IsSafe, disown,
}

cast_kern_bytes : addr_space_cast r3 cast_kern_imm ≡ 0xbf ∷ 0x33 ∷ 1 ∷ 0 ∷ 1 ∷ 0 ∷ 0 ∷ 0 ∷ []
unfolding addr_space_cast
cast_kern_bytes = refl

cast_user_bytes : addr_space_cast r3 cast_user_imm ≡ 0xbf ∷ 0x33 ∷ 1 ∷ 0 ∷ 0 ∷ 0 ∷ 1 ∷ 0 ∷ []
unfolding addr_space_cast
cast_user_bytes = refl

decode-addr_space_cast_example : decode (addr_space_cast r3 65536) ≡ some (cast_insn r3 1 0)
decode-addr_space_cast_example =
    decode-addr_space_cast r3 1 0 (λ e. cc e) (omega arith) (omega arith)

-- What a kernel cast does where the arena's addresses have 1 in their upper half.
abbrev convert : ℕ → ℕ → ℕ → ℕ
convert d s a = if s == 1 then a % 2 ^ 32 else if a == 0 then 0 else 2 ^ 32 + a

abbrev execute : List ℕ → ℕ → ℕ
execute bytes a = elim (decode bytes) [
  | none ↦ 0
  | some i ↦ convert (i.imm / 65536) (i.imm % 65536) a
]

abbrev pub toy_machine : Machine
toy_machine = record { arch = bpf; usize_bits = 64; reg = r3; execute = execute }

abbrev pub InToy : ℕ → Type 0
InToy a = (2 ^ 32 < a) × (a < 2 ^ 33)

toy_runs :
    (bytes : List ℕ) (d s a : ℕ)
    → d < 65536
    → s < 65536
    → decode bytes ≡ some (cast_insn r3 d s)
    → execute bytes a ≡ convert d s a
toy_runs bytes d s a hd hs e = rw (execute, e) (ground arith)

toy_casts : RunsCasts toy_machine InToy
toy_casts = record {
  convert = convert;
  runs = toy_runs;
  allocatable = λ e. cc e;
  wide = refl;
  to_kernel = λ a h. refl;
  to_user = λ a h. ground arith;
  to_user_null = refl;
  not_null = λ a h. omega arith;
}

bpf-IsFaithful_example : IsFaithful toy_machine InToy
bpf-IsFaithful_example = bpf-IsFaithful toy_machine InToy refl toy_casts

pub toy_views : IsFaithful toy_machine InToy
toy_views = bpf-IsFaithful toy_machine InToy refl toy_casts

abbrev pub toy_addr : ℕ
toy_addr = 0x1_0000_1000

-- One block of 64 bytes, handed out where it is not live.
abbrev one_block : Libarena
one_block = record {
  Heap = List Block;
  arena_malloc_internal = λ h n.
      if is_nil h && leb n 64
      then (toy_addr, record { addr = toy_addr; size = 64 } ∷ [])
      else (0, h);
  arena_free_u64 = λ h a. release a h;
}

one_block-Served :
    (h : List Block) (n : ℕ)
    → (one_block.arena_malloc_internal h n).0 ≢ 0
    → Served 12 InToy n
        (one_block.arena_malloc_internal h n).0
        h
        (one_block.arena_malloc_internal h n).1
one_block-Served [] n ok = elim (Bool-cases (leb n 64)) [
  | inl fits ↦ rw fits (record {
    exponent = 6;
    grown = refl;
    enough = leb→le n 64 fits;
    aligned = dvd_of_mod-eq-zero 64 refl;
    fresh = tt;
    in_arena = omega arith;
  })
  | inr large ↦ absurd (ok (rw large))
]
one_block-Served (b ∷ h) n ok = absurd (ok refl)

one_block-IsAllocator : IsAllocator one_block 12 InToy
one_block-IsAllocator = record {
  blocks = λ h. h;
  refused = λ h n pos fits null. ground arith;
  served = λ h n pos fits ok. one_block-Served h n ok;
  released = λ h a live. refl;
}

abbrev pub layout : Layout
layout = record { size = 24; align = 64 }

unfoldable pub layout-IsValid : IsValid layout
layout-IsValid = record { align_log = 6; align_is = refl; fits = omega arith }

-- The unit tests of the crate.
request_sizes :
    (request_size layout ≡ 64)
    × (request_size (record { size = 100; align = 8 }) ≡ 100)
    × (request_size (record { size = 0; align = 1 }) ≡ 1)
unfolding request_size
request_sizes = (refl, refl, refl)

abbrev one_alloc : ℕ × List Block
one_alloc = alloc toy_machine one_block [] layout

one_alloc_ok : one_alloc.0 ≢ 0
unfolding alloc arena_malloc request_size cast_kern decode
one_alloc_ok e = absurd (omega arith)

alloc_lem_example :
    (one_alloc.0 ≡ 0 → one_alloc.1 ≡ [])
    × (one_alloc.0 ≢ 0 → Fits toy_machine layout one_alloc.0 [] one_alloc.1)
unfolding layout-IsValid alloc one_block-IsAllocator
alloc_lem_example =
    alloc_lem toy_machine one_block 12 InToy toy_views one_block-IsAllocator [] layout
      layout-IsValid (omega arith) (omega arith)

dealloc-alloc_example : dealloc toy_machine one_block one_alloc.1 one_alloc.0 layout ≡ []
unfolding layout-IsValid dealloc one_block-IsAllocator
dealloc-alloc_example =
    dealloc-alloc toy_machine one_block 12 InToy toy_views one_block-IsAllocator [] layout
      layout-IsValid (omega arith) (omega arith) one_alloc_ok

abbrev client : List Block → List (ℕ × Layout) → Client toy_machine one_block 12
client h os = record { heap = h; owned = os }

one-Reach :
    Reach toy_machine one_block 12 (client [] []) (client one_alloc.1 ((one_alloc.0, layout) ∷ []))
unfolding layout-IsValid
one-Reach = next here (allocates (client [] []) layout layout-IsValid (omega arith) one_alloc_ok)

allocator-IsSafe_example :
    IsSafe toy_machine one_block 12 InToy toy_views one_block-IsAllocator
      (omega arith)
      (client one_alloc.1 ((one_alloc.0, layout) ∷ []))
unfolding one_block-IsAllocator
allocator-IsSafe_example =
    allocator-IsSafe toy_machine one_block 12 InToy toy_views one_block-IsAllocator (omega arith) []
      refl one-Reach

freed : Reach toy_machine one_block 12 (client [] []) (
    client
      (dealloc toy_machine one_block one_alloc.1 one_alloc.0 layout)
      (disown one_alloc.0 ((one_alloc.0, layout) ∷ [])))
freed = next one-Reach (frees _ one_alloc.0 layout (ground arith))
