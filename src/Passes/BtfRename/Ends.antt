-- ===== src/Passes/BtfRename/Ends.antt =====
-- The loop of btf_rename.py ends.
use libarena_rs.Common.{
  ℕ, zero, suc, ◌+◌, ◌<◌, ◌≤◌, Bool, true, false, ◌==◌, if◌then◌else◌, ◌≡◌, refl, Option, some,
  arith, ltb, ltb→lt, Bool-cases, inl, inr,
}
use libarena_rs.Passes.Bytes.{Bytes, assertion_error, unpack, Result, ok, raised}
use libarena_rs.Passes.Bytes.Laws.{Result-cases, ok->>=, ok_inj}
use libarena_rs.Passes.BtfRename.{
  Header, Renaming, rename_round, rename_loop, read_header, first, renamed_from, btf_rename,
}
use libarena_rs.Passes.BtfRename.Rounds.{rename_round-IsRound, IsRound-pos}

rename_loop_ends :
    (fuel : ℕ) (h : Header) (s : Renaming)
    → h.types_end < s.pos + fuel
    → 0 < fuel
    → (r : Result Renaming) × (rename_loop fuel h s ≡ some r)
unfolding rename_loop
rename_loop_ends zero h s far some_fuel = absurd (omega (arith, some_fuel))
rename_loop_ends (suc fuel) h s far some_fuel = elim (Bool-cases (ltb s.pos h.types_end)) [
  | inr at_end ↦ rw (rename_loop, at_end) (ok s, refl)
  | inl going ↦ elim (Result-cases (rename_round h s)) [
    | inl (e, fails) ↦ rw (rename_loop, going, fails) (raised e, refl)
    | inr (t, works) ↦
        let pos = IsRound-pos h s t (rename_round-IsRound h s t works) in
        let before = ltb→lt _ _ going in
        rw (rename_loop, going, works)
          (rename_loop_ends fuel h t (omega (arith, pos, far, before)) (omega (arith, far, before)))
  ]
]

checked :
    (magic : Bool) (g h : Header) → (if magic then ok g else raised assertion_error) ≡ ok h → h ≡ g
checked true g h e = ok_inj e
checked false g h e = absurd (cc)

types_in_order : (buf : Bytes) (h : Header) → read_header buf ≡ ok h → h.types_base ≤ h.types_end
unfolding read_header
types_in_order buf h e =
    let (magic, _, e1) = ok->>= (unpack 2 buf 0) e in
    let (hdr_len, _, e2) = ok->>= (unpack 4 buf 4) e1 in
    let (type_off, _, e3) = ok->>= (unpack 4 buf 8) e2 in
    let (type_len, _, e4) = ok->>= (unpack 4 buf 12) e3 in
    let (str_off, _, e5) = ok->>= (unpack 4 buf 16) e4 in
    let (str_len, _, e6) = ok->>= (unpack 4 buf 20) e5 in
    let same = checked (magic == 60319) _ h e6 in rw same (omega arith)

-- With more fuel than the types have bytes, btf_rename.py ends, with a result or an exception: each
-- round goes on by at least the 12 bytes of a type's header, whatever the bytes are.
pub btf_rename_ends :
    (fuel : ℕ) (buf : Bytes) (h : Header)
    → read_header buf ≡ ok h
    → h.types_end < h.types_base + fuel
    → (r : Result (Option Bytes)) × (btf_rename fuel buf ≡ some r)
unfolding btf_rename renamed_from
btf_rename_ends fuel buf h reads enough =
    let ordered = types_in_order buf h reads in
    let (r, ends) = rename_loop_ends fuel h (first h buf) enough (omega (arith, enough, ordered)) in
    rw (btf_rename, reads, ends) (_, refl)
