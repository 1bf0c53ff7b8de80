-- ===== src/Glue/Copying.antt =====
-- The copies and fills of the glue against `memmove` and `memset`.
use libarena_rs.Common.{
  ℕ, zero, suc, ◌+◌, ◌-◌, ◌%◌, ◌^◌, ◌≤◌, ◌<◌, ◌≡◌, refl, ◌∙◌, Bool, true, false, ◌&&◌, arith, ltb,
  leb, if◌then◌else◌, Bool-cases, inl, inr,
}
use native.Mathlib.Nat.{mod-eq_of_lt}
use libarena_rs.Glue.{
  Bytes, index, store, copy_up, copy_down, bpf_arena_memcpy, set_from, bpf_arena_memset, memset,
}

-- What `memmove` promises: each byte of the target has the old value of its byte of the source.
unfoldable pub copy : Bytes → ℕ → ℕ → ℕ → Bytes
copy mem src dst n x = if leb dst x && ltb x (dst + n) then mem (src + (x - dst)) else mem x

-- What `memset` promises.
unfoldable pub write_bytes : Bytes → ℕ → ℕ → ℕ → Bytes
write_bytes mem dst value n x = if leb dst x && ltb x (dst + n) then value else mem x

module _ (can_loop : ℕ → Bool) (n : ℕ) (lasts : (i : ℕ) → i < n → can_loop i ≡ true) where
  module _ (mem : Bytes) (dst src : ℕ) (dst_fits : dst + n ≤ 2 ^ 64)
      (src_fits : src + n ≤ 2 ^ 64) where
    copy_up_lem :
        dst < src
        → (rounds i : ℕ) (now : Bytes) → i + rounds ≡ n
        → ((x : ℕ) → now x ≡ copy mem src dst i x)
        → (x : ℕ) → copy_up can_loop dst src now i rounds x ≡ copy mem src dst n x
    unfolding copy_up copy
    copy_up_lem below zero i now e inv x = let all : i ≡ n = omega (arith, e) in inv x ∙ rw all refl
    copy_up_lem below (suc rounds) i now e inv x =
        let to : index dst i ≡ dst + i = mod-eq_of_lt (omega arith) in
        let from : index src i ≡ src + i = mod-eq_of_lt (omega arith) in
        let onward = lasts i (omega arith) in
        rw (onward, to, from)
          (copy_up_lem below rounds (i + 1) (store now (dst + i) (now (src + i))) (omega (arith, e))
            (λ y. ground (arith, inv y, inv (src + i))) x)

    -- What the descending loop has copied after `i` rounds: the last `i` bytes.
    abbrev copied_down : ℕ → Bytes
    copied_down i x =
        if leb (dst + (n - i)) x && ltb x (dst + n) then mem (src + (x - dst)) else mem x

    copy_down_lem :
        src ≤ dst
        → (rounds i : ℕ) (now : Bytes) → i + rounds ≡ n
        → ((x : ℕ) → now x ≡ copied_down i x)
        → (x : ℕ) → copy_down can_loop dst src n now i rounds x ≡ copy mem src dst n x
    unfolding copy_down copy
    copy_down_lem above zero i now e inv x =
        let all : dst + (n - i) ≡ dst = omega (arith, e) in inv x ∙ rw all refl
    copy_down_lem above (suc rounds) i now e inv x =
        let k = n - 1 - i in
        let to : index dst k ≡ dst + k = mod-eq_of_lt (omega arith) in
        let from : index src k ≡ src + k = mod-eq_of_lt (omega arith) in
        let onward = lasts i (omega arith) in
        let inside : leb n k ≡ false = ground arith in
        rw (onward, to, from, inside)
          (copy_down_lem above rounds (i + 1) (store now (dst + k) (now (src + k)))
            (omega (arith, e)) (λ y. ground (arith, inv y, inv (src + k))) x)

    -- Where the kernel lets every round begin and neither range wraps, the glue's copy is `memmove`: it
    -- leaves behind `dst` the bytes that stood behind `src` before it, and every other byte as it was,
    -- also where the ranges overlap.
    pub bpf_arena_memcpy_lem :
        (x : ℕ) → bpf_arena_memcpy can_loop mem dst src n x ≡ copy mem src dst n x
    unfolding bpf_arena_memcpy copy
    bpf_arena_memcpy_lem x = elim (Bool-cases (ltb dst src)) [
      | inl below ↦
          rw below (copy_up_lem (ground arith) n 0 mem (omega arith) (λ y. ground arith) x)
      | inr above ↦
          rw above (copy_down_lem (ground arith) n 0 mem (omega arith) (λ y. ground arith) x)
    ]

  module _ (mem : Bytes) (p c : ℕ) (fits : p + n ≤ 2 ^ 64) where
    set_from_lem :
        (rounds i : ℕ) (now : Bytes)
        → i + rounds ≡ n
        → ((x : ℕ) → now x ≡ write_bytes mem p c i x)
        → (x : ℕ) → set_from can_loop p c now i rounds x ≡ write_bytes mem p c n x
    unfolding set_from write_bytes
    set_from_lem zero i now e inv x = let all : i ≡ n = omega (arith, e) in inv x ∙ rw all refl
    set_from_lem (suc rounds) i now e inv x =
        let to : index p i ≡ p + i = mod-eq_of_lt (omega arith) in
        rw (lasts i (omega arith), to)
          (set_from_lem rounds (i + 1) (store now (p + i) c) (omega (arith, e))
            (λ y. ground (arith, inv y)) x)

  -- Under the same conditions `memset` fills with the low byte of its argument, as the glue's own fill
  -- does with a byte, changes nothing else, and gives its pointer back.
  pub memset_lem :
      (mem : Bytes) (p c : ℕ)
      → p + n ≤ 2 ^ 64
      → ((memset can_loop mem p c n).0 ≡ p)
        × ((x : ℕ) → (memset can_loop mem p c n).1 x ≡ write_bytes mem p (c % 2 ^ 8) n x)
        × ((x : ℕ) → bpf_arena_memset can_loop mem p c n x ≡ write_bytes mem p c n x)
  unfolding memset bpf_arena_memset
  memset_lem mem p c fits = (
    refl,
    set_from_lem mem p (c % 2 ^ 8) fits n 0 mem (omega arith)
        (λ y. unfold write_bytes in ground arith),
    set_from_lem mem p c fits n 0 mem (omega arith) (λ y. unfold write_bytes in ground arith),
  )
