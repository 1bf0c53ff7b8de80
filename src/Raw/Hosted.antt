-- ===== src/Raw/Hosted.antt =====
-- The hosted stand-ins meet the allocator's contract as far as alignments of 4096 bytes.
use Prim.Native.Nat.{◌∣◌}
use native.Mathlib.Decide.{dec_le}
use native.Mathlib.Nat.{pow-le-pow_right}
use libarena_rs.Common.{
  ℕ, ◌^◌, ◌≤◌, ◌≡◌, refl, ◌≢◌, inl, inr, true, Option, none, some, List, ◌∷◌, arith, min, max, All,
  Option-cases,
}
use libarena_rs.Raw.{
  Posix, hosted_libarena, hosted_malloc_internal, hosted_free_u64, next_power_of_two,
  status_to_addr,
}
use libarena_rs.Raw.Pow2.{next_power_of_two_lem, exponent_le}
use libarena_rs.Raw.Laws.{Block, Disjoint, is_live, release, Served, IsAllocator}

-- POSIX: a request fails or gives a new block of the size asked for, aligned as asked, apart from
-- every live one. A request is for an alignment that is a power of two and a multiple of a
-- pointer's size.
pub record IsPosix (c : Posix) (InArena : ℕ → Type 0) : Type 0 where
  pub blocks : c.Heap → List Block
  pub failed :
      (h : c.Heap) (align size : ℕ)
      → (c.posix_memalign h align size).0 ≡ none
      → blocks (c.posix_memalign h align size).1 ≡ blocks h
  pub memalign :
      (h : c.Heap) (align size align_log a : ℕ)
      → align ≡ 2 ^ align_log
      → 3 ≤ align_log
      → (c.posix_memalign h align size).0 ≡ some a
      → (a ≢ 0)
        × (2 ^ align_log ∣ a)
        × InArena a
        × All (Disjoint (record { addr = a; size = size })) (blocks h)
        × (blocks (c.posix_memalign h align size).1 ≡ record { addr = a; size = size } ∷ blocks h)
  pub freed :
      (h : c.Heap) (a : ℕ)
      → is_live a (blocks h) ≡ true
      → blocks (c.free h a) ≡ release a (blocks h)

pub min_pow : (e : ℕ) → min (2 ^ e) 4096 ≡ 2 ^ min e 12
min_pow e = elim (dec_le e 12) [
  | yes le ↦
      let small : 2 ^ e ≤ 2 ^ 12 = pow-le-pow_right (omega arith) le in
      let same : min e 12 ≡ e = omega arith in rw same (omega arith)
  | no gt ↦
      let large : 2 ^ 12 ≤ 2 ^ e = pow-le-pow_right (omega arith) {i = 12} (omega arith) in
      let same : min e 12 ≡ 12 = omega arith in rw same (omega arith)
]

-- What `hosted::arena_malloc_internal` asks of `posix_memalign`: a block of a power of two that
-- covers the request, and its own size as its alignment, 4096 at most.
pub record Asks (size block align : ℕ) : Type 0 where
  pub exponent : ℕ
  pub block_is : block ≡ 2 ^ exponent
  pub align_is : align ≡ 2 ^ min exponent 12
  pub at_least_16 : 4 ≤ exponent
  pub enough : size ≤ block

pub hosted-Asks :
    (size : ℕ)
    → size ≤ 2 ^ 63
    → Asks size (next_power_of_two (max size 16)) (min (next_power_of_two (max size 16)) 4096)
hosted-Asks size h =
    let r = next_power_of_two_lem (max size 16) (omega arith) in
    record {
      exponent = r.exponent;
      block_is = r.is_power;
      align_is = rw r.is_power (min_pow r.exponent);
      at_least_16 = exponent_le 4 r.exponent (omega (arith, r.is_power, r.enough));
      enough = omega (arith, r.enough);
    }

module _ (c : Posix) (InArena : ℕ → Type 0) (laws : IsPosix c InArena) where
  abbrev asked : c.Heap → ℕ → ℕ → ℕ × c.Heap
  asked h align sz = status_to_addr c (c.posix_memalign h align sz)

  asked_found : (r : Option ℕ × c.Heap) (a : ℕ) → r.0 ≡ some a → status_to_addr c r ≡ (a, r.1)
  unfolding status_to_addr
  asked_found (none, h) a e = cc
  asked_found (some p, h) a e = ground arith

  asked_failed : (r : Option ℕ × c.Heap) → r.0 ≡ none → status_to_addr c r ≡ (0, r.1)
  unfolding status_to_addr
  asked_failed (none, h) e = refl
  asked_failed (some p, h) e = cc

  -- A request with a power of two from 16 on, and the alignment that goes with it.
  module _ (h : c.Heap) (n e align sz : ℕ) (align_is : align ≡ 2 ^ min e 12) (sz_is : sz ≡ 2 ^ e)
      (big : 4 ≤ e) (enough : n ≤ sz) where
    asked_refused : (asked h align sz).0 ≡ 0 → laws.blocks (asked h align sz).1 ≡ laws.blocks h
    asked_refused null = elim (Option-cases (c.posix_memalign h align sz).0) [
      | inl failed ↦
          rw (asked_failed (c.posix_memalign h align sz) failed) (laws.failed h align sz failed)
      | inr (a, found) ↦
          let facts = laws.memalign h align sz (min e 12) a align_is (omega arith) found in
          absurd (facts.0 (rw (asked_found (c.posix_memalign h align sz) a found) at null))
    ]

    asked-Served :
        (asked h align sz).0 ≢ 0
        → Served 12 InArena n
            (asked h align sz).0
            (laws.blocks h)
            (laws.blocks (asked h align sz).1)
    asked-Served ok = elim (Option-cases (c.posix_memalign h align sz).0) [
      | inl failed ↦ absurd (ok (rw (asked_failed (c.posix_memalign h align sz) failed)))
      | inr (a, found) ↦
          let (real, aligned, inside, fresh, grown) =
            laws.memalign h align sz (min e 12) a align_is (omega arith) found in
          rw (asked_found (c.posix_memalign h align sz) a found) (record {
            exponent = e;
            grown = rw (← sz_is) grown;
            enough = omega arith;
            aligned = aligned;
            fresh = rw (← sz_is) fresh;
            in_arena = inside;
          })
    ]

  -- Over any system allocator that behaves as POSIX says, the stand-ins are an allocator: a request of
  -- 1 to 2 ^ 63 bytes is refused and changes nothing, or gets a new block of a power of two that covers
  -- it, apart from every live block and aligned to the smaller of its size and 4096 bytes; freeing a
  -- live block removes just that block.
  pub hosted-IsAllocator : IsAllocator (hosted_libarena c) 12 InArena
  unfolding hosted_malloc_internal hosted_free_u64
  hosted-IsAllocator = record {
    blocks = laws.blocks;
    refused = λ h n pos fits null.
        let a = hosted-Asks n fits in
        asked_refused h n a.exponent _ _ a.align_is a.block_is a.at_least_16 a.enough null;
    served = λ h n pos fits ok.
        let a = hosted-Asks n fits in
        asked-Served h n a.exponent _ _ a.align_is a.block_is a.at_least_16 a.enough ok;
    released = laws.freed;
  }
