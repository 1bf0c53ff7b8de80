-- ===== src/Cast/Encoding.antt =====
-- The bytes of the macro against the instruction format of BPF.
use libarena_rs.Common.{
  ℕ, ◌+◌, ◌*◌, ◌/◌, ◌%◌, ◌^◌, ◌<◌, ◌≡◌, refl, ◌≢◌, Option, none, some, List, [], ◌∷◌, arith,
}
use libarena_rs.Cast.{Register, r0, r1, r2, r3, r4, r5, r6, r7, r8, r9, r10, Insn, addr_space_cast}

-- An instruction as the kernel reads it: eight bytes, the destination register in the low half of
-- the second byte, numbers in little-endian order.
unfoldable pub decode : List ℕ → Option Insn
decode (c ∷ rs ∷ o0 ∷ o1 ∷ i0 ∷ i1 ∷ i2 ∷ i3 ∷ []) = some (record {
  code = c;
  dst = rs % 16;
  src = rs / 16;
  off = o0 + 256 * o1;
  imm = i0 + 256 * i1 + 65536 * i2 + 16777216 * i3;
})
decode _ = none

abbrev pub number : Register → ℕ
number r0 = 0
number r1 = 1
number r2 = 2
number r3 = 3
number r4 = 4
number r5 = 5
number r6 = 6
number r7 = 7
number r8 = 8
number r9 = 9
number r10 = 10

-- BPF_ALU64 | BPF_MOV | BPF_X
abbrev pub alu64_mov_x : ℕ
alu64_mov_x = 0x07 + 0xb0 + 0x08

-- The cast of register `r` from address space `src_as` to `dst_as`, as the comment of cast.rs
-- describes it.
abbrev pub cast_insn : Register → ℕ → ℕ → Insn
cast_insn r dst_as src_as = record {
  code = alu64_mov_x;
  dst = number r;
  src = number r;
  off = 1;
  imm = src_as + 65536 * dst_as;
}

long_value :
    (n : ℕ)
    → n < 2 ^ 32
    → n % 256 + 256 * (n / 256 % 256) + 65536 * (n / 65536 % 256) + 16777216 * (n / 16777216 % 256)
      ≡ n
long_value n h = omega arith

-- For every register that an operand can be in, and address spaces of 16 bits, the bytes are one
-- whole instruction: the 64-bit register move with offset 1, onto the same register, with the
-- source space in the low half of the immediate and the destination space in the high half.
pub decode-addr_space_cast :
    (r : Register) (dst_as src_as : ℕ)
    → r ≢ r10
    → dst_as < 65536
    → src_as < 65536
    → decode (addr_space_cast r (src_as + 65536 * dst_as)) ≡ some (cast_insn r dst_as src_as)
unfolding decode addr_space_cast
decode-addr_space_cast r10 d s h hd hs = absurd (h refl)
decode-addr_space_cast r0 d s h hd hs = ground (arith, long_value (s + 65536 * d))
decode-addr_space_cast _ d s h hd hs = ground (arith, long_value (s + 65536 * d))

-- The frame pointer has no `.ifc` line: there the bytes are no instruction.
decode_frame_pointer : (imm : ℕ) → decode (addr_space_cast r10 imm) ≡ none
unfolding decode addr_space_cast
decode_frame_pointer imm = refl
