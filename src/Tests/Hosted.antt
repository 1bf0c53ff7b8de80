-- ===== src/Tests/Hosted.antt =====
-- The hosted stand-ins over a system allocator that has one block.
use Prim.Native.Nat.{◌∣◌}
use libarena_rs.Common.{
  ℕ, ◌+◌, ◌^◌, ◌≤◌, ◌≡◌, refl, ◌≢◌, ◌&&◌, none, some, List, [], ◌∷◌, arith, leb, if◌then◌else◌,
  is_nil, Bool-cases, inl, inr, leb→le, ◌-◌, All,
}
use libarena_rs.Raw.{Posix, hosted_libarena}
use libarena_rs.Raw.Pow2.{exponent_le, pow_dvd-pow}
use libarena_rs.Raw.Laws.{Block, IsAllocator, release, Disjoint}
use libarena_rs.Raw.Hosted.{IsPosix, hosted-IsAllocator}

-- A system allocator that has one block too, page-aligned.
abbrev one_page : Posix
one_page = record {
  Heap = List Block;
  posix_memalign = λ h align size.
      if is_nil h && leb align 4096
      then (some 4096, record { addr = 4096; size = size } ∷ [])
      else (none, h);
  free = λ h a. release a h;
}

AtPage : ℕ → Type 0
AtPage a = a ≡ 4096

one_page_memalign :
    (h : List Block) (align size k a : ℕ)
    → align ≡ 2 ^ k
    → (one_page.posix_memalign h align size).0 ≡ some a
    → (a ≢ 0)
      × (2 ^ k ∣ a)
      × AtPage a
      × All (Disjoint (record { addr = a; size = size })) h
      × ((one_page.posix_memalign h align size).1 ≡ record { addr = a; size = size } ∷ h)
unfolding AtPage
one_page_memalign (b ∷ h) align size k a is_pow found = cc
one_page_memalign [] align size k a is_pow found = elim (Bool-cases (leb align 4096)) [
  | inr large ↦ cc (rw large at found)
  | inl fits ↦
      let e : some 4096 ≡ some a = rw fits at found in
      let at_page : 4096 ≡ a = cc e in
      let small : k ≤ 12 = exponent_le k 12 (omega (arith, leb→le align 4096 fits)) in
      let whole : 12 - k + k ≡ 12 = omega arith in
      let divides : 2 ^ k ∣ 2 ^ 12 = rw whole at (pow_dvd-pow k (12 - k)) in
      rw (fits, ← at_page) ((λ z. cc z), divides, refl, tt, refl)
]

one_page-IsPosix : IsPosix one_page AtPage
one_page-IsPosix = record {
  blocks = λ h. h;
  failed = λ h align size none_given. ground arith;
  memalign = λ h align size k a is_pow big found. one_page_memalign h align size k a is_pow found;
  freed = λ h a live. refl;
}

hosted-IsAllocator_example : IsAllocator (hosted_libarena one_page) 12 AtPage
hosted-IsAllocator_example = hosted-IsAllocator one_page AtPage one_page-IsPosix
