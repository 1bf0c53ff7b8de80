-- ===== src/Passes/BtfRename/Elf.antt =====
-- The object file around the BTF in btf_rename.py: the search for the section, and the grown section
-- at the end of the file.
pub mod Appended
use libarena_rs.Common.{
  ℕ, zero, suc, ◌+◌, ◌*◌, ◌-◌, ◌%◌, ◌≤◌, ◌<◌, max, ◌≡◌, refl, sym, ap, ◌∙◌, Bool, true, false,
  Option, none, some, List, [], ◌∷◌, ◌++◌, arith, Text, codes, text_eq, ◌==◌, if◌then◌else◌, length,
  length-append,
}
use libarena_rs.Passes.Bytes.{
  Bytes, Error, key_error, assertion_error, Result, ok, raised, ◌>>=◌, drop, take, byte_at, unpack,
  pack, until_nul, decode,
}
use libarena_rs.Passes.BtfRename.{btf_rename}

unfoldable pub is_elf : Bytes → Result Bool
unfolding text_eq
is_elf buf =
    let rest = byte_at buf 4 >>= λ wide.
    let low = byte_at buf 5 >>= λ order. ok (order == 1) in if wide == 2 then low else ok false in
    if text_eq (take 4 buf) (127 ∷ codes "ELF") then rest else ok false

-- A section's header.
pub record Section : Type 0 where
  pub base : ℕ
  pub name : ℕ
  pub offset : ℕ
  pub size : ℕ
  pub align : ℕ

unfoldable pub shdr : Bytes → ℕ → ℕ → ℕ → Result Section
unfolding unpack
shdr buf e_shoff e_shentsize i =
    let base = e_shoff + i * e_shentsize in
    unpack 4 buf base >>= λ name. unpack 8 buf (base + 24) >>= λ offset.
    unpack 8 buf (base + 32) >>= λ size. unpack 8 buf (base + 48) >>= λ align.
    ok (record { base = base; name = name; offset = offset; size = size; align = align })

unfoldable pub find_from : Bytes → Text → ℕ → (ℕ → Result Section) → ℕ → ℕ → Result Section
unfolding until_nul decode text_eq
find_from buf want stroff header zero i = raised key_error
find_from buf want stroff header (suc left) i =
    let rest = find_from buf want stroff header left (i + 1) in
    header i >>= λ s. until_nul (drop (stroff + s.name) buf) >>= λ bytes.
    decode bytes >>= λ name. if text_eq name want then ok s else rest

unfoldable pub search_sections : Bytes → Text → Result Section
unfolding unpack shdr find_from
search_sections buf want = unpack 8 buf 40 >>= λ e_shoff. unpack 2 buf 58 >>= λ e_shentsize.
    unpack 2 buf 60 >>= λ e_shnum. unpack 2 buf 62 >>= λ e_shstrndx.
    shdr buf e_shoff e_shentsize e_shstrndx >>= λ strings.
    find_from buf want strings.offset (shdr buf e_shoff e_shentsize) e_shnum 0

unfoldable pub elf_find_section : Bytes → Text → Result Section
unfolding is_elf search_sections
elf_find_section buf want = is_elf buf >>= λ elf.
    let found = search_sections buf want in if elf then found else raised assertion_error

abbrev pub zeros : ℕ → Bytes
zeros zero = []
zeros (suc n) = 0 ∷ zeros n

-- How many bytes are put in for the section to begin at a multiple of its alignment.
abbrev pub padding : Bytes → Section → ℕ
padding buf s = let align = max s.align 1 in (align - length buf % align) % align

-- The grown section at the end of the file, and its header on it.
unfoldable pub append_section : Bytes → Section → Bytes → Result Bytes
unfolding pack
append_section buf s grown =
    pack 8 (buf ++ (zeros (padding buf s) ++ grown)) (s.base + 24) (length buf + padding buf s)
    >>= λ b. pack 8 b (s.base + 32) (length grown)

unfoldable pub after_renaming :
    Bytes → Section → Option (Result (Option Bytes)) → Option (Result (Option Bytes))
unfolding append_section
after_renaming buf s none = none
after_renaming buf s (some (raised e)) = some (raised e)
after_renaming buf s (some (ok none)) = some (ok none)
after_renaming buf s (some (ok (some grown))) =
    some (append_section buf s grown >>= λ b. ok (some b))

-- `main`, on the file's bytes: `ok none` where the file is left alone; `none` if the fuel runs out.
unfoldable pub rename_file : ℕ → Bytes → Option (Result (Option Bytes))
unfolding elf_find_section btf_rename after_renaming
rename_file fuel buf = elim (elf_find_section buf (codes ".BTF")) [
  | raised e ↦ some (raised e)
  | ok s ↦ after_renaming buf s (btf_rename fuel (take s.size (drop s.offset buf)))
]
