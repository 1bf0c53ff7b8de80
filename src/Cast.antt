-- ===== src/Cast.antt =====
-- src/cast.rs: the `addr_space_cast` instruction, encoded by hand as assembler directives, and the
-- wrappers around it. What a BPF machine does with an instruction is a parameter.
pub mod Encoding
pub mod Views
use libarena_rs.Common.{
  ℕ, ◌+◌, ◌*◌, ◌/◌, ◌%◌, ◌^◌, Bool, true, false, Option, none, some, List, [], ◌∷◌, ◌++◌,
}

-- The registers that the BPF backend may give to an `inout(reg)` operand, and the frame pointer.
pub data Register : Type 0 where
  r0 r1 r2 r3 r4 r5 r6 r7 r8 r9 r10 : Register

-- The `.ifc {0}, rN` lines: one of them is assembled, or none.
unfoldable pub operand_byte : Register → List ℕ
operand_byte r0 = 0x00 ∷ []
operand_byte r1 = 0x11 ∷ []
operand_byte r2 = 0x22 ∷ []
operand_byte r3 = 0x33 ∷ []
operand_byte r4 = 0x44 ∷ []
operand_byte r5 = 0x55 ∷ []
operand_byte r6 = 0x66 ∷ []
operand_byte r7 = 0x77 ∷ []
operand_byte r8 = 0x88 ∷ []
operand_byte r9 = 0x99 ∷ []
operand_byte r10 = []

-- `.short n` and `.long n` on a little-endian target.
abbrev pub short : ℕ → List ℕ
short n = n % 256 ∷ (n / 256 % 256) ∷ []

abbrev pub long : ℕ → List ℕ
long n = n % 256 ∷ (n / 256 % 256) ∷ (n / 65536 % 256) ∷ (n / 16777216 % 256) ∷ []

-- The macro `addr_space_cast!(a, imm)`: the bytes that it assembles to when `a` is in register `r`.
unfoldable pub addr_space_cast : Register → ℕ → List ℕ
unfolding operand_byte
addr_space_cast r imm = (0xbf ∷ operand_byte r) ++ (short 1 ++ long imm)

abbrev pub cast_kern_imm : ℕ
cast_kern_imm = 1

abbrev pub cast_user_imm : ℕ
cast_user_imm = 65536

-- A BPF instruction: opcode, registers, 16-bit offset, 32-bit immediate.
pub record Insn : Type 0 where
  pub code : ℕ
  pub dst : ℕ
  pub src : ℕ
  pub off : ℕ
  pub imm : ℕ

-- What `target_arch` the crate is compiled for, and the width of `usize` there.
pub data Arch : Type 0 where
  bpf hosted : Arch

-- A machine that runs the assembled bytes on the value of the operand's register.
pub record Machine : Type 0 where
  pub arch : Arch
  pub usize_bits : ℕ
  -- The register that the compiler has chosen for the operand.
  pub reg : Register
  pub execute : List ℕ → ℕ → ℕ

module _ (m : Machine) where
  unfoldable pub cast_kern : ℕ → ℕ
  unfolding addr_space_cast
  cast_kern addr = elim m.arch [
    | bpf ↦ m.execute (addr_space_cast m.reg cast_kern_imm) addr
    | hosted ↦ addr
  ]

  unfoldable pub cast_user : ℕ → ℕ
  unfolding addr_space_cast
  cast_user addr = elim m.arch [
    | bpf ↦ m.execute (addr_space_cast m.reg cast_user_imm) addr
    | hosted ↦ addr
  ]

  -- `x as usize as *mut T`, of a 64-bit number.
  abbrev pub as_ptr : ℕ → ℕ
  as_ptr a = a % 2 ^ m.usize_bits

  unfoldable pub cast_kern_ptr : ℕ → ℕ
  unfolding cast_kern
  cast_kern_ptr p = as_ptr (cast_kern p)

  unfoldable pub cast_user_ptr : ℕ → ℕ
  unfolding cast_user
  cast_user_ptr p = as_ptr (cast_user p)
