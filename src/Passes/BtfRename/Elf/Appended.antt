-- ===== src/Passes/BtfRename/Elf/Appended.antt =====
-- The grown section at the end of the file that btf_rename.py writes.
use native.Mathlib.Nat.{mod-lt, add-mod-mod, mod-add-mod, mod_self}
use libarena_rs.Common.{
  ℕ, zero, suc, ◌+◌, ◌*◌, ◌-◌, ◌%◌, ◌≤◌, ◌<◌, max, ◌≡◌, refl, sym, ap, ◌∙◌, Bool, true, false,
  Option, none, some, ◌++◌, arith, Text, codes, text_eq, if◌then◌else◌, length, inl, inr,
}
use libarena_rs.Passes.Bytes.{
  Bytes, assertion_error, Result, ok, raised, ◌>>=◌, drop, take, unpack, pack, until_nul, decode,
}
use libarena_rs.Passes.Bytes.Laws.{
  ok->>=, ok_inj, Result-cases, length-drop, drop-pack, drop-append, drop_past, drop_all,
  unpack-pack,
}
use libarena_rs.Passes.Bytes.Bounds.{
  unpack-before, unpack-inside, take-pack, take_less, take-append, take_all,
}
use libarena_rs.Passes.BtfRename.{btf_rename}
use libarena_rs.Passes.BtfRename.Elf.{
  Section, is_elf, search_sections, shdr, find_from, elf_find_section, zeros, padding,
  append_section, after_renaming, rename_file,
}

-- The bytes of a file with a grown section, against those of the file before.
pub record IsAppended (buf : Bytes) (s : Section) (grown out : Bytes) : Type 0 where
  pub place : ℕ
  pub behind : length buf ≤ place
  pub aligned : place % max s.align 1 ≡ 0
  pub offset : unpack 8 out (s.base + 24) ≡ ok place
  pub size : unpack 8 out (s.base + 32) ≡ ok (length grown)
  pub payload : take (length grown) (drop place out) ≡ grown
  pub front : take (s.base + 24) out ≡ take (s.base + 24) buf
  pub rest : take (length buf - (s.base + 40)) (drop (s.base + 40) out) ≡ drop (s.base + 40) buf

length-zeros : (n : ℕ) → length (zeros n) ≡ n
length-zeros zero = refl
length-zeros (suc n) = ap suc (length-zeros n)

padded : (len align : ℕ) → 0 < align → (len + (align - len % align) % align) % align ≡ 0
padded len align some_align =
    let small : len % align < align = mod-lt len some_align in
    let e : len % align + (align - len % align) ≡ align = omega (arith, small) in
    add-mod-mod len (align - len % align) align
    ∙ sym (mod-add-mod len align (align - len % align))
    ∙ ap (λ n. n % align) e
    ∙ mod_self align

append_section-IsAppended :
    (buf : Bytes) (s : Section) (grown out : Bytes)
    → s.base + 56 ≤ length buf
    → append_section buf s grown ≡ ok out
    → IsAppended buf s grown out
unfolding append_section
append_section-IsAppended buf s grown out inside h =
    let pad = padding buf s in
    let whole = buf ++ (zeros pad ++ grown) in
    let place = length buf + pad in
    let (b, one, two) = ok->>= (pack 8 whole (s.base + 24) place) h in
    let payload : drop place out ≡ grown =
      drop-pack 8 b (s.base + 32) (length grown) out place two (omega (arith, inside))
      ∙ drop-pack 8 whole (s.base + 24) place b place one (omega (arith, inside))
      ∙ drop_past pad buf (zeros pad ++ grown)
      ∙ ap (λ n. drop n (zeros pad ++ grown)) (sym (length-zeros pad))
      ∙ drop_all (zeros pad) grown in
    let rest : drop (s.base + 40) out ≡ drop (s.base + 40) buf ++ (zeros pad ++ grown) =
      drop-pack 8 b (s.base + 32) (length grown) out (s.base + 40) two (omega arith)
      ∙ drop-pack 8 whole (s.base + 24) place b (s.base + 40) one (omega arith)
      ∙ drop-append (s.base + 40) buf (zeros pad ++ grown) (omega (arith, inside)) in
    let long : length buf - (s.base + 40) ≡ length (drop (s.base + 40) buf) =
      let e = length-drop (s.base + 40) buf (omega (arith, inside)) in omega (arith, e) in
    record {
      place = place;
      behind = omega arith;
      aligned = padded (length buf) (max s.align 1) (omega arith);
      offset =
          unpack-before 8 b (s.base + 32) (length grown) out 8 (s.base + 24) two (omega arith)
          ∙ unpack-pack 8 whole (s.base + 24) place b one;
      size = unpack-pack 8 b (s.base + 32) (length grown) out two;
      payload = ap (take (length grown)) payload ∙ take_all grown;
      front =
          take_less (s.base + 24) (s.base + 32) out b
            (take-pack 8 b (s.base + 32) (length grown) out two) (omega arith)
          ∙ take-pack 8 whole (s.base + 24) place b one
          ∙ take-append (s.base + 24) buf (zeros pad ++ grown) (omega (arith, inside));
      rest =
          ap (take (length buf - (s.base + 40))) rest
          ∙ ap (λ n. take n (drop (s.base + 40) buf ++ (zeros pad ++ grown))) long
          ∙ take-append (length (drop (s.base + 40) buf)) (drop (s.base + 40) buf) _ (omega arith)
          ∙ take_all (drop (s.base + 40) buf);
    }

shdr-inside :
    (buf : Bytes) (e_shoff e_shentsize i : ℕ) (s : Section)
    → shdr buf e_shoff e_shentsize i ≡ ok s
    → s.base + 56 ≤ length buf
unfolding shdr
shdr-inside buf e_shoff e_shentsize i s h =
    let base = e_shoff + i * e_shentsize in
    let (name, _, h1) = ok->>= (unpack 4 buf base) h in
    let (offset, _, h2) = ok->>= (unpack 8 buf (base + 24)) h1 in
    let (size, _, h3) = ok->>= (unpack 8 buf (base + 32)) h2 in
    let (align, reads, h4) = ok->>= (unpack 8 buf (base + 48)) h3 in
    let same = ap (λ (x : Section). x.base) (ok_inj h4) in
    let inside = unpack-inside 8 (base + 48) align buf reads (omega arith) in
    omega (arith, same, inside)

-- A section that is found is one of the headers' sections.
find_from-inside :
    (buf : Bytes) (want : Text) (stroff : ℕ) (header : ℕ → Result Section) (left i : ℕ)
    (s : Section)
    → ((j : ℕ) (t : Section) → header j ≡ ok t → t.base + 56 ≤ length buf)
    → find_from buf want stroff header left i ≡ ok s
    → s.base + 56 ≤ length buf
unfolding find_from
find_from-inside buf want stroff header zero i s inside h = absurd (cc)
find_from-inside buf want stroff header (suc left) i s inside h =
    let (t, there, h1) = ok->>= (header i) h in
    let (bytes, _, h2) = ok->>= (until_nul (drop (stroff + t.name) buf)) h1 in
    let (name, _, h3) = ok->>= (decode bytes) h2 in
    chosen_inside (text_eq name want) t s (find_from buf want stroff header left (i + 1))
      (inside i t there) (find_from-inside buf want stroff header left (i + 1) s inside) h3
  where
    chosen_inside :
        (found : Bool) (t s : Section) (rest : Result Section)
        → t.base + 56 ≤ length buf
        → (rest ≡ ok s → s.base + 56 ≤ length buf)
        → (if found then ok t else rest) ≡ ok s
        → s.base + 56 ≤ length buf
    chosen_inside true t s rest here later e = rw (ok_inj e) here
    chosen_inside false t s rest here later e = later e

search_sections-inside :
    (buf : Bytes) (want : Text) (s : Section)
    → search_sections buf want ≡ ok s
    → s.base + 56 ≤ length buf
unfolding search_sections
search_sections-inside buf want s h =
    let (e_shoff, _, h1) = ok->>= (unpack 8 buf 40) h in
    let (e_shentsize, _, h2) = ok->>= (unpack 2 buf 58) h1 in
    let (e_shnum, _, h3) = ok->>= (unpack 2 buf 60) h2 in
    let (e_shstrndx, _, h4) = ok->>= (unpack 2 buf 62) h3 in
    let (strings, _, h5) = ok->>= (shdr buf e_shoff e_shentsize e_shstrndx) h4 in
    find_from-inside buf want strings.offset (shdr buf e_shoff e_shentsize) e_shnum 0 s
      (shdr-inside buf e_shoff e_shentsize) h5

elf_find_section-inside :
    (buf : Bytes) (want : Text) (s : Section)
    → elf_find_section buf want ≡ ok s
    → s.base + 56 ≤ length buf
unfolding elf_find_section
elf_find_section-inside buf want s h =
    let (elf, _, h1) = ok->>= (is_elf buf) h in
    search_sections-inside buf want s (passed elf (search_sections buf want) h1)
  where
    passed :
        (elf : Bool) (r : Result Section) {s : Section}
        → (if elf then r else raised assertion_error) ≡ ok s
        → r ≡ ok s
    passed true r e = e
    passed false r e = absurd (cc)

after_renaming-ok :
    (buf : Bytes) (s : Section) (o : Option (Result (Option Bytes))) (out : Bytes)
    → s.base + 56 ≤ length buf
    → after_renaming buf s o ≡ some (ok (some out))
    → (grown : Bytes) × (o ≡ some (ok (some grown))) × IsAppended buf s grown out
unfolding after_renaming
after_renaming-ok buf s none out inside e = absurd (cc)
after_renaming-ok buf s (some (raised x)) out inside e = absurd (cc)
after_renaming-ok buf s (some (ok none)) out inside e = absurd (cc)
after_renaming-ok buf s (some (ok (some grown))) out inside e =
    let f : append_section buf s grown >>= (λ b. ok (some b)) ≡ ok (some out) = cc in
    let (b, appends, g) = ok->>= (append_section buf s grown) f in
    let h : some out ≡ some b = ok_inj g in
    let same : b ≡ out = cc in
    (grown, refl, append_section-IsAppended buf s grown out inside (appends ∙ ap ok same))

-- When btf_rename.py changes a file, it has found the section `.BTF` and renamed its bytes, and the
-- new file has the grown bytes behind all the old ones, at a multiple of the section's alignment, the
-- section's header says so, and the bytes in front of that header's place and size are the old ones,
-- as are those behind them up to the old end.
pub rename_file_lem :
    (fuel : ℕ) (buf out : Bytes)
    → rename_file fuel buf ≡ some (ok (some out))
    → (s : Section) × (elf_find_section buf (codes ".BTF") ≡ ok s)
      × ((grown : Bytes) × (btf_rename fuel (take s.size (drop s.offset buf))
            ≡ some (ok (some grown)))
          × IsAppended buf s grown out)
unfolding rename_file
rename_file_lem fuel buf out e = elim (Result-cases (elf_find_section buf (codes ".BTF"))) [
  | inl (x, fails) ↦
      let same : rename_file fuel buf ≡ some (raised x) = rw (rename_file, fails) refl in
      let bad : some (raised x) ≡ some (ok (some out)) = sym same ∙ e in absurd (cc)
  | inr (s, finds) ↦
      let same : rename_file fuel buf
          ≡ after_renaming buf s (btf_rename fuel (take s.size (drop s.offset buf))) =
        rw (rename_file, finds) refl in
      (
        s,
        finds,
        after_renaming-ok buf s _ out (elf_find_section-inside buf (codes ".BTF") s finds)
            (sym same ∙ e),
      )
]
