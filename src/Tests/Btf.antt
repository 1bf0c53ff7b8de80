-- ===== src/Tests/Btf.antt =====
-- linker/scripts/btf_rename.py on a small BTF: the integer `u32`, the structure `Map<u32>` and a pointer.
use libarena_rs.Common.{◌≡◌, refl, Option, some, [], ◌∷◌, ◌++◌, arith, codes, All, false}
use libarena_rs.Passes.Bytes.{
  Bytes, Result, ok, drop, take, read, written, unpack, overwrite, pack, until_nul, decode, encode,
}
use libarena_rs.Passes.BtfRename.{
  Header, read_header, lookup, extra, valid_ident, sanitized_name, get_str, intern, give_name,
  renamed_int, new_name, apply_name, rename_type, rename_round, rename_loop, grown, btf_rename,
}
use libarena_rs.Passes.BtfRename.Ends.{btf_rename_ends}
use libarena_rs.Passes.BtfRename.Walk.{type_at}
use libarena_rs.Passes.BtfRename.Elf.{
  Section, is_elf, shdr, find_from, search_sections, elf_find_section, append_section,
  after_renaming, rename_file,
}
use libarena_rs.Passes.BtfRename.Elf.Appended.{IsAppended, rename_file_lem}
use libarena_rs.Passes.BtfRename.Loop.{types_of, IsInFront}
use libarena_rs.Passes.BtfRename.Names.{IsNamed, btf_rename_lem}

abbrev old : Bytes
old =
    159 ∷ 235 ∷ 1 ∷ 0 ∷ 24 ∷ 0 ∷ 0 ∷ 0 ∷ 0 ∷ 0 ∷ 0 ∷ 0 ∷ 40 ∷ 0 ∷ 0 ∷ 0 ∷ 40 ∷ 0 ∷ 0 ∷ 0 ∷ 14 ∷ 0
    ∷ 0 ∷ 0 ∷ 1 ∷ 0 ∷ 0 ∷ 0 ∷ 0 ∷ 0 ∷ 0 ∷ 1 ∷ 4 ∷ 0 ∷ 0 ∷ 0 ∷ 32 ∷ 0 ∷ 0 ∷ 0 ∷ 5 ∷ 0 ∷ 0 ∷ 0 ∷ 0 ∷ 0
    ∷ 0 ∷ 4 ∷ 0 ∷ 0 ∷ 0 ∷ 0 ∷ 0 ∷ 0 ∷ 0 ∷ 0 ∷ 0 ∷ 0 ∷ 0 ∷ 2 ∷ 1 ∷ 0 ∷ 0 ∷ 0 ∷ 0 ∷ 117 ∷ 51 ∷ 50 ∷ 0
    ∷ 77 ∷ 97 ∷ 112 ∷ 60 ∷ 117 ∷ 51 ∷ 50 ∷ 62 ∷ 0 ∷ []

abbrev new : Bytes
new =
    159 ∷ 235 ∷ 1 ∷ 0 ∷ 24 ∷ 0 ∷ 0 ∷ 0 ∷ 0 ∷ 0 ∷ 0 ∷ 0 ∷ 40 ∷ 0 ∷ 0 ∷ 0 ∷ 40 ∷ 0 ∷ 0 ∷ 0 ∷ 36 ∷ 0
    ∷ 0 ∷ 0 ∷ 14 ∷ 0 ∷ 0 ∷ 0 ∷ 0 ∷ 0 ∷ 0 ∷ 1 ∷ 4 ∷ 0 ∷ 0 ∷ 0 ∷ 32 ∷ 0 ∷ 0 ∷ 0 ∷ 27 ∷ 0 ∷ 0 ∷ 0 ∷ 0
    ∷ 0 ∷ 0 ∷ 4 ∷ 0 ∷ 0 ∷ 0 ∷ 0 ∷ 0 ∷ 0 ∷ 0 ∷ 0 ∷ 0 ∷ 0 ∷ 0 ∷ 2 ∷ 1 ∷ 0 ∷ 0 ∷ 0 ∷ 0 ∷ 117 ∷ 51 ∷ 50
    ∷ 0 ∷ 77 ∷ 97 ∷ 112 ∷ 60 ∷ 117 ∷ 51 ∷ 50 ∷ 62 ∷ 0 ∷ 117 ∷ 110 ∷ 115 ∷ 105 ∷ 103 ∷ 110 ∷ 101
    ∷ 100 ∷ 32 ∷ 105 ∷ 110 ∷ 116 ∷ 0 ∷ 77 ∷ 97 ∷ 112 ∷ 95 ∷ 117 ∷ 51 ∷ 50 ∷ 95 ∷ 0 ∷ []

abbrev header : Header
header = record { types_base = 24; types_end = 64; str_base = 64; str_len = 14 }

header_read : read_header old ≡ ok header
unfolding read_header unpack read
header_read = refl

old_renamed : btf_rename 10 old ≡ some (ok (some new))
unfolding btf_rename read_header rename_loop grown rename_round rename_type apply_name give_name
    intern new_name renamed_int valid_ident lookup extra get_str sanitized_name unpack read pack
    overwrite written until_nul decode encode
old_renamed = refl

in_front : All (IsInFront header) (types_of 10 header old 24)
unfolding types_of type_at unpack read extra
in_front =
    ((omega arith, omega arith), ((omega arith, omega arith), ((omega arith, omega arith), tt)))

btf_rename_lem_example : All (IsNamed header old new) (types_of 10 header old 24)
btf_rename_lem_example = btf_rename_lem 10 old header (some new) header_read old_renamed in_front

btf_rename_ends_example : (r : Result (Option Bytes)) × (btf_rename 60 old ≡ some r)
btf_rename_ends_example = btf_rename_ends 60 old header header_read (omega arith)

abbrev elf_header : Bytes
elf_header =
    127 ∷ 69 ∷ 76 ∷ 70 ∷ 2 ∷ 1 ∷ 0 ∷ 0 ∷ 0 ∷ 0 ∷ 0 ∷ 0 ∷ 0 ∷ 0 ∷ 0 ∷ 0 ∷ 0 ∷ 0 ∷ 0 ∷ 0 ∷ 0 ∷ 0 ∷ 0
    ∷ 0 ∷ 0 ∷ 0 ∷ 0 ∷ 0 ∷ 0 ∷ 0 ∷ 0 ∷ 0 ∷ 0 ∷ 0 ∷ 0 ∷ 0 ∷ 0 ∷ 0 ∷ 0 ∷ 0 ∷ 151 ∷ 0 ∷ 0 ∷ 0 ∷ 0 ∷ 0
    ∷ 0 ∷ 0 ∷ 0 ∷ 0 ∷ 0 ∷ 0 ∷ 0 ∷ 0 ∷ 0 ∷ 0 ∷ 0 ∷ 0 ∷ 64 ∷ 0 ∷ 3 ∷ 0 ∷ 2 ∷ 0 ∷ []

abbrev section_names : Bytes
section_names = 0 ∷ 46 ∷ 66 ∷ 84 ∷ 70 ∷ 0 ∷ 46 ∷ 115 ∷ 0 ∷ []

abbrev section_headers : Bytes
section_headers =
    0 ∷ 0 ∷ 0 ∷ 0 ∷ 0 ∷ 0 ∷ 0 ∷ 0 ∷ 0 ∷ 0 ∷ 0 ∷ 0 ∷ 0 ∷ 0 ∷ 0 ∷ 0 ∷ 0 ∷ 0 ∷ 0 ∷ 0 ∷ 0 ∷ 0 ∷ 0 ∷ 0
    ∷ 0 ∷ 0 ∷ 0 ∷ 0 ∷ 0 ∷ 0 ∷ 0 ∷ 0 ∷ 0 ∷ 0 ∷ 0 ∷ 0 ∷ 0 ∷ 0 ∷ 0 ∷ 0 ∷ 0 ∷ 0 ∷ 0 ∷ 0 ∷ 0 ∷ 0 ∷ 0 ∷ 0
    ∷ 0 ∷ 0 ∷ 0 ∷ 0 ∷ 0 ∷ 0 ∷ 0 ∷ 0 ∷ 0 ∷ 0 ∷ 0 ∷ 0 ∷ 0 ∷ 0 ∷ 0 ∷ 0 ∷ 1 ∷ 0 ∷ 0 ∷ 0 ∷ 0 ∷ 0 ∷ 0 ∷ 0
    ∷ 0 ∷ 0 ∷ 0 ∷ 0 ∷ 0 ∷ 0 ∷ 0 ∷ 0 ∷ 0 ∷ 0 ∷ 0 ∷ 0 ∷ 0 ∷ 0 ∷ 0 ∷ 0 ∷ 64 ∷ 0 ∷ 0 ∷ 0 ∷ 0 ∷ 0 ∷ 0 ∷ 0
    ∷ 78 ∷ 0 ∷ 0 ∷ 0 ∷ 0 ∷ 0 ∷ 0 ∷ 0 ∷ 0 ∷ 0 ∷ 0 ∷ 0 ∷ 0 ∷ 0 ∷ 0 ∷ 0 ∷ 4 ∷ 0 ∷ 0 ∷ 0 ∷ 0 ∷ 0 ∷ 0 ∷ 0
    ∷ 0 ∷ 0 ∷ 0 ∷ 0 ∷ 0 ∷ 0 ∷ 0 ∷ 0 ∷ 6 ∷ 0 ∷ 0 ∷ 0 ∷ 0 ∷ 0 ∷ 0 ∷ 0 ∷ 0 ∷ 0 ∷ 0 ∷ 0 ∷ 0 ∷ 0 ∷ 0 ∷ 0
    ∷ 0 ∷ 0 ∷ 0 ∷ 0 ∷ 0 ∷ 0 ∷ 0 ∷ 0 ∷ 142 ∷ 0 ∷ 0 ∷ 0 ∷ 0 ∷ 0 ∷ 0 ∷ 0 ∷ 9 ∷ 0 ∷ 0 ∷ 0 ∷ 0 ∷ 0 ∷ 0
    ∷ 0 ∷ 0 ∷ 0 ∷ 0 ∷ 0 ∷ 0 ∷ 0 ∷ 0 ∷ 0 ∷ 1 ∷ 0 ∷ 0 ∷ 0 ∷ 0 ∷ 0 ∷ 0 ∷ 0 ∷ 0 ∷ 0 ∷ 0 ∷ 0 ∷ 0 ∷ 0 ∷ 0
    ∷ 0 ∷ []

abbrev moved_headers : Bytes
moved_headers =
    0 ∷ 0 ∷ 0 ∷ 0 ∷ 0 ∷ 0 ∷ 0 ∷ 0 ∷ 0 ∷ 0 ∷ 0 ∷ 0 ∷ 0 ∷ 0 ∷ 0 ∷ 0 ∷ 0 ∷ 0 ∷ 0 ∷ 0 ∷ 0 ∷ 0 ∷ 0 ∷ 0
    ∷ 0 ∷ 0 ∷ 0 ∷ 0 ∷ 0 ∷ 0 ∷ 0 ∷ 0 ∷ 0 ∷ 0 ∷ 0 ∷ 0 ∷ 0 ∷ 0 ∷ 0 ∷ 0 ∷ 0 ∷ 0 ∷ 0 ∷ 0 ∷ 0 ∷ 0 ∷ 0 ∷ 0
    ∷ 0 ∷ 0 ∷ 0 ∷ 0 ∷ 0 ∷ 0 ∷ 0 ∷ 0 ∷ 0 ∷ 0 ∷ 0 ∷ 0 ∷ 0 ∷ 0 ∷ 0 ∷ 0 ∷ 1 ∷ 0 ∷ 0 ∷ 0 ∷ 0 ∷ 0 ∷ 0 ∷ 0
    ∷ 0 ∷ 0 ∷ 0 ∷ 0 ∷ 0 ∷ 0 ∷ 0 ∷ 0 ∷ 0 ∷ 0 ∷ 0 ∷ 0 ∷ 0 ∷ 0 ∷ 0 ∷ 0 ∷ 88 ∷ 1 ∷ 0 ∷ 0 ∷ 0 ∷ 0 ∷ 0 ∷ 0
    ∷ 100 ∷ 0 ∷ 0 ∷ 0 ∷ 0 ∷ 0 ∷ 0 ∷ 0 ∷ 0 ∷ 0 ∷ 0 ∷ 0 ∷ 0 ∷ 0 ∷ 0 ∷ 0 ∷ 4 ∷ 0 ∷ 0 ∷ 0 ∷ 0 ∷ 0 ∷ 0
    ∷ 0 ∷ 0 ∷ 0 ∷ 0 ∷ 0 ∷ 0 ∷ 0 ∷ 0 ∷ 0 ∷ 6 ∷ 0 ∷ 0 ∷ 0 ∷ 0 ∷ 0 ∷ 0 ∷ 0 ∷ 0 ∷ 0 ∷ 0 ∷ 0 ∷ 0 ∷ 0 ∷ 0
    ∷ 0 ∷ 0 ∷ 0 ∷ 0 ∷ 0 ∷ 0 ∷ 0 ∷ 0 ∷ 0 ∷ 142 ∷ 0 ∷ 0 ∷ 0 ∷ 0 ∷ 0 ∷ 0 ∷ 0 ∷ 9 ∷ 0 ∷ 0 ∷ 0 ∷ 0 ∷ 0
    ∷ 0 ∷ 0 ∷ 0 ∷ 0 ∷ 0 ∷ 0 ∷ 0 ∷ 0 ∷ 0 ∷ 0 ∷ 1 ∷ 0 ∷ 0 ∷ 0 ∷ 0 ∷ 0 ∷ 0 ∷ 0 ∷ 0 ∷ 0 ∷ 0 ∷ 0 ∷ 0 ∷ 0
    ∷ 0 ∷ 0 ∷ []

abbrev object : Bytes
object = elf_header ++ (old ++ (section_names ++ section_headers))

abbrev new_object : Bytes
new_object = elf_header ++ (old ++ (section_names ++ (moved_headers ++ 0 ∷ new)))

object_renamed : rename_file 10 object ≡ some (ok (some new_object))
unfolding rename_file elf_find_section is_elf search_sections shdr find_from after_renaming
    append_section btf_rename read_header rename_loop grown rename_round rename_type apply_name
    give_name intern new_name renamed_int valid_ident lookup extra get_str sanitized_name unpack
    read pack overwrite written until_nul decode encode
object_renamed = refl

rename_file_lem_example :
    (s : Section) × (elf_find_section object (codes ".BTF") ≡ ok s)
    × ((g : Bytes) × (btf_rename 10 (take s.size (drop s.offset object)) ≡ some (ok (some g)))
        × IsAppended object s g new_object)
rename_file_lem_example = rename_file_lem 10 object new_object object_renamed

-- A name that begins with a digit stays as it is: it is not valid, and its new name is the same.
digit_stays : new_name 4 (codes "0sync") ≡ some (false, codes "0sync")
unfolding new_name renamed_int lookup valid_ident sanitized_name
digit_stays = refl
