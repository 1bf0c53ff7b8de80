-- ===== src/Raw/Laws.antt =====
-- What the allocator of libarena documents, over the blocks that are live: the interface between
-- the C code and the Rust side.
use Prim.Native.Nat.{◌∣◌}
use native.Mathlib.Nat.{mod-eq_of_lt}
use libarena_rs.Common.{
  ℕ, ◌+◌, ◌^◌, ◌≤◌, ◌<◌, ◌≡◌, ◌≢◌, ◌⊎◌, Bool, true, false, List, [], ◌∷◌, arith, ◌==◌, ◌||◌,
  if◌then◌else◌, min, All, Bool-cases, inl, inr, ==_iff,
}
use libarena_rs.Cast.{Machine, cast_kern, as_ptr}
use libarena_rs.Cast.Views.{IsFaithful}
use libarena_rs.Raw.{Libarena, arena_malloc}

-- A live allocation, by its user-form address.
pub record Block : Type 0 where
  pub addr : ℕ
  pub size : ℕ

abbrev pub Disjoint : Block → Block → Type 0
Disjoint b c = (b.addr + b.size ≤ c.addr) ⊎ (c.addr + c.size ≤ b.addr)

abbrev pub is_live : ℕ → List Block → Bool
is_live a [] = false
is_live a (b ∷ bs) = (b.addr == a) || is_live a bs

-- The blocks after the one at an address is freed.
abbrev pub release : ℕ → List Block → List Block
release a [] = []
release a (b ∷ bs) = let rest = release a bs in if b.addr == a then bs else b ∷ rest

-- A request that was served: a new block, a power of two in size that covers the request, aligned
-- to its size up to the limit, apart from every live block.
pub record Served (limit : ℕ) (InArena : ℕ → Type 0) (n a : ℕ) (before after : List Block)
    : Type 0 where
  pub exponent : ℕ
  pub grown : after ≡ record { addr = a; size = 2 ^ exponent } ∷ before
  pub enough : n ≤ 2 ^ exponent
  pub aligned : 2 ^ min exponent limit ∣ a
  pub fresh : All (Disjoint (record { addr = a; size = 2 ^ exponent })) before
  pub in_arena : InArena a

-- The documented behaviour of the allocator. The limit is the exponent of the largest alignment.
pub record IsAllocator (l : Libarena) (limit : ℕ) (InArena : ℕ → Type 0) : Type 0 where
  pub blocks : l.Heap → List Block
  pub refused :
      (h : l.Heap) (n : ℕ)
      → 0 < n
      → n ≤ 2 ^ 63
      → (l.arena_malloc_internal h n).0 ≡ 0
      → blocks (l.arena_malloc_internal h n).1 ≡ blocks h
  pub served :
      (h : l.Heap) (n : ℕ)
      → 0 < n
      → n ≤ 2 ^ 63
      → (l.arena_malloc_internal h n).0 ≢ 0
      → Served limit InArena n
          (l.arena_malloc_internal h n).0
          (blocks h)
          (blocks (l.arena_malloc_internal h n).1)
  pub released :
      (h : l.Heap) (a : ℕ)
      → is_live a (blocks h) ≡ true
      → blocks (l.arena_free_u64 h a) ≡ release a (blocks h)

module _ (m : Machine) (l : Libarena) (limit : ℕ) (InArena : ℕ → Type 0)
    (views : IsFaithful m InArena) (laws : IsAllocator l limit InArena) where
  abbrev user_addr : l.Heap → ℕ → ℕ
  user_addr h n = (l.arena_malloc_internal h n).0

  -- A pointer from `arena_malloc` is the kernel view of an address that was served.
  pub arena_malloc-Served :
      (h : l.Heap) (n : ℕ)
      → 0 < n
      → n ≤ 2 ^ 63
      → (arena_malloc m l h n).0 ≢ 0
      → Served limit InArena n
          (user_addr h n)
          (laws.blocks h)
          (laws.blocks (arena_malloc m l h n).1)
        × ((arena_malloc m l h n).0 ≡ cast_kern m (user_addr h n))
  unfolding arena_malloc
  arena_malloc-Served h n pos fits ok = elim (Bool-cases (user_addr h n == 0)) [
    | inl null ↦ absurd (ok (rw null))
    | inr found ↦
        let s = laws.served h n pos fits (ground arith) in
        rw found (s, mod-eq_of_lt (views.fits _ s.in_arena))
  ]

  -- A null pointer from `arena_malloc` means that nothing was allocated.
  pub arena_malloc_refused :
      (h : l.Heap) (n : ℕ)
      → 0 < n
      → n ≤ 2 ^ 63
      → (arena_malloc m l h n).0 ≡ 0
      → laws.blocks (arena_malloc m l h n).1 ≡ laws.blocks h
  unfolding arena_malloc
  arena_malloc_refused h n pos fits null = elim (Bool-cases (user_addr h n == 0)) [
    | inl none_left ↦ rw none_left (laws.refused h n pos fits ((==_iff _ _).0 none_left))
    | inr found ↦
        let s = laws.served h n pos fits (ground arith) in
        let p : as_ptr m (cast_kern m (user_addr h n)) ≡ 0 = rw found at null in
        absurd (views.non_null _ s.in_arena (omega (arith, mod-eq_of_lt (views.fits _ s.in_arena))))
  ]
