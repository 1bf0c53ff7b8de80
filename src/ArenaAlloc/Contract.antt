-- ===== src/ArenaAlloc/Contract.antt =====
-- The `GlobalAlloc` contract: what `alloc` gives fits the layout, and `dealloc` frees just that.
use Prim.Native.Nat.{◌∣◌}
use mathlib.Core.Path.{subst}
use native.Mathlib.Nat.{dvd_trans, dvd-mod_iff}
use libarena_rs.Common.{
  ℕ, ◌+◌, ◌-◌, ◌%◌, ◌^◌, ◌≤◌, ◌<◌, ◌≡◌, ◌≢◌, true, List, ◌∷◌, arith, min, max, All, ◌∙◌, sym,
}
use libarena_rs.Cast.{Machine, cast_kern, cast_user}
use libarena_rs.Cast.Views.{IsFaithful}
use libarena_rs.Raw.{Libarena, arena_free}
use libarena_rs.Raw.Pow2.{pow_dvd-pow, exponent_le, pow_pos}
use libarena_rs.Raw.Laws.{
  Block, Disjoint, is_live, release, IsAllocator, arena_malloc-Served, arena_malloc_refused,
}
use libarena_rs.ArenaAlloc.{Layout, request_size, alloc, dealloc}

-- What `Layout::from_size_align` accepts with 64-bit sizes: an alignment that is a power of two,
-- and a size that does not pass `isize::MAX` when it is rounded up to it.
pub record IsValid (layout : Layout) : Type 0 where
  pub align_log : ℕ
  pub align_is : layout.align ≡ 2 ^ align_log
  pub fits : layout.size + layout.align ≤ 2 ^ 63

-- The request for a valid layout is the larger of its size and its alignment, is not 0 and is at most
-- 2 ^ 63.
pub request_size_lem :
    (layout : Layout)
    → IsValid layout
    → (request_size layout ≡ max layout.size layout.align)
      × (0 < request_size layout)
      × (request_size layout ≤ 2 ^ 63)
unfolding request_size
request_size_lem layout v = ground (arith, pow_pos v.align_log)

-- Powers of two that are in order divide one another.
pow_dvd_of_le : (j k : ℕ) → j ≤ k → 2 ^ j ∣ 2 ^ k
pow_dvd_of_le j k h = let e : k - j + j ≡ k = omega arith in rw e at (pow_dvd-pow j (k - j))

-- Numbers with the same low 32 bits are divided by the same powers of two up to there.
dvd_of_low_bits : (j a b : ℕ) → j ≤ 32 → a % 2 ^ 32 ≡ b % 2 ^ 32 → 2 ^ j ∣ b → 2 ^ j ∣ a
dvd_of_low_bits j a b h e d =
    let whole = pow_dvd_of_le j 32 h in
    (dvd-mod_iff (2 ^ j) whole).0 (rw e ((dvd-mod_iff (2 ^ j) whole).1 d))

-- An allocation for a layout: a pointer that is not null, aligned, in front of a new block that is
-- large enough and apart from every live one.
pub record Fits (m : Machine) (layout : Layout) (ptr : ℕ) (before after : List Block) : Type 0 where
  pub block : Block
  pub grown : after ≡ block ∷ before
  pub kernel_view : cast_kern m block.addr ≡ ptr
  pub user_view : cast_user m ptr ≡ block.addr
  pub aligned : layout.align ∣ ptr
  pub enough : layout.size ≤ block.size
  pub fresh : All (Disjoint block) before

pub live_head : (b : Block) (bs : List Block) → is_live b.addr (b ∷ bs) ≡ true
live_head b bs = ground arith

pub release_head : (b : Block) (bs : List Block) → release b.addr (b ∷ bs) ≡ bs
release_head b bs = ground arith

module _ (m : Machine) (l : Libarena) (limit : ℕ) (InArena : ℕ → Type 0)
    (views : IsFaithful m InArena) (laws : IsAllocator l limit InArena) where
  -- Where the casts are faithful and the allocator keeps its contract, and for a valid layout whose
  -- alignment is within the allocator's limit (2 ^ 32 at most), `alloc` returns null and allocates
  -- nothing, or returns a pointer to a new block that fits the layout: the pointer is a multiple of the
  -- alignment and the block's kernel view, and the block has the size at least and is apart from every
  -- live one.
  pub alloc_lem :
      (h : l.Heap) (layout : Layout)
      → (v : IsValid layout) → v.align_log ≤ limit
      → limit ≤ 32
      → ((alloc m l h layout).0 ≡ 0 → laws.blocks (alloc m l h layout).1 ≡ laws.blocks h)
        × ((alloc m l h layout).0 ≢ 0
            → Fits m layout
                (alloc m l h layout).0
                (laws.blocks h)
                (laws.blocks (alloc m l h layout).1))
  unfolding alloc
  alloc_lem h layout v small low =
      let (size_is, pos, bound) = request_size_lem layout v in
      (
        arena_malloc_refused m l limit InArena views laws h (request_size layout) pos bound,
        λ ok.
            let (s, kernel) =
              arena_malloc-Served m l limit InArena views laws h (request_size layout) pos bound
                ok in
            let covers : v.align_log ≤ s.exponent =
              exponent_le v.align_log s.exponent (omega (arith, s.enough, v.align_is, size_is)) in
            record {
              block = record { addr = _; size = 2 ^ s.exponent };
              grown = s.grown;
              kernel_view = sym kernel;
              user_view = rw kernel (views.round_trip _ s.in_arena);
              aligned = rw kernel (
                  subst (λ a. a ∣ cast_kern m (l.arena_malloc_internal h (request_size layout)).0)
                    (sym v.align_is)
                    (dvd_of_low_bits v.align_log _ _ (omega arith) (views.low_bits _ s.in_arena) (
                      dvd_trans _ (pow_dvd_of_le v.align_log (min s.exponent limit) (omega arith))
                        s.aligned)));
              enough = omega (arith, s.enough, size_is);
              fresh = s.fresh;
            },
      )

  -- Where the casts are faithful and the allocator keeps its contract, and for a valid layout whose
  -- alignment is within the allocator's limit (2 ^ 32 at most): freeing what `alloc` has just returned,
  -- if it is not null, leaves the live blocks as they were before.
  pub dealloc-alloc :
      (h : l.Heap) (layout : Layout)
      → (v : IsValid layout) → v.align_log ≤ limit
      → limit ≤ 32
      → (alloc m l h layout).0 ≢ 0
      → laws.blocks (dealloc m l (alloc m l h layout).1 (alloc m l h layout).0 layout)
        ≡ laws.blocks h
  unfolding dealloc arena_free
  dealloc-alloc h layout v small low ok =
      let after = (alloc m l h layout).1 in
      let f = (alloc_lem h layout v small low).1 ok in
      rw (dealloc, arena_free, f.user_view)
        (laws.released after f.block.addr (rw f.grown (live_head f.block _))
          ∙ rw f.grown (release_head f.block _))
