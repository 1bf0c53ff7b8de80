-- ===== src/Passes/BtfRename/Loop.antt =====
-- The loop of btf_rename.py, over the types of the bytes as they were read.
use mathlib.Core.Path.{subst}
use libarena_rs.Common.{
  ℕ, zero, suc, ◌+◌, ◌≤◌, ◌≡◌, refl, sym, ap, ◌∙◌, true, false, some, List, [], ◌∷◌, ◌++◌,
  append_assoc, append-nil, arith, ltb, All, Bool-cases, inl, inr,
}
use libarena_rs.Passes.Bytes.{Bytes, Error, ok, raised, drop, unpack}
use libarena_rs.Passes.Bytes.Laws.{Result-cases}
use libarena_rs.Passes.BtfRename.{Header, Renaming, rename_round, rename_loop}
use libarena_rs.Passes.BtfRename.Rounds.{
  changes, IsRound, IsRound-pos, kind_of, rename_round-IsRound,
}
use libarena_rs.Passes.BtfRename.Interned.{IsInterned-append}
use libarena_rs.Passes.BtfRename.Walk.{
  type_at, drop_further, unpack_same, IsField, nameless, stays, becomes, IsAhead, IsStep,
  typed-IsStep,
}

-- The types of the bytes as they were read, with places, kinds, and offsets of names.
unfoldable pub types_of : ℕ → Header → Bytes → ℕ → List (ℕ × ℕ × ℕ)
unfolding type_at
types_of zero h old pos = []
types_of (suc fuel) h old pos = elim (ltb pos h.types_end) [
  | false ↦ []
  | true ↦ elim (type_at old pos) [
    | raised e ↦ []
    | ok (kind, off, n) ↦ (pos, kind, off) ∷ types_of fuel h old (pos + (12 + n))
  ]
]

-- The header of a type lies behind that of the BTF and in front of the strings.
abbrev pub IsInFront : Header → ℕ × ℕ × ℕ → Type 0
IsInFront h (pos, _, _) = (24 ≤ pos) × (pos + 12 ≤ h.str_base)

abbrev pub IsDone : Header → Bytes → Renaming → ℕ × ℕ × ℕ → Type 0
IsDone h old t (pos, kind, off) = IsField h old t pos kind off

pub record IsLooped (h : Header) (old : Bytes) (s t : Renaming) (types : List (ℕ × ℕ × ℕ))
    : Type 0 where
  pub strings : drop h.str_base t.buf ≡ drop h.str_base old
  pub front : (p : ℕ) → p + 4 ≤ s.pos → unpack 4 t.buf p ≡ unpack 4 s.buf p
  pub more : Bytes
  pub grows : t.new_strings ≡ s.new_strings ++ more
  pub fields : All (IsDone h old t) types
  pub more_changes : changes s ≤ changes t
  pub same : changes t ≡ 0 → t.buf ≡ s.buf

-- The field of a type stays when later rounds leave it alone.
IsField-later :
    (h : Header) (old : Bytes) (s t : Renaming) (more : Bytes) (pos kind off : ℕ)
    → unpack 4 t.buf pos ≡ unpack 4 s.buf pos
    → t.new_strings ≡ s.new_strings ++ more
    → changes s ≤ changes t
    → IsField h old s pos kind off
    → IsField h old t pos kind off
IsField-later h old s t more pos kind off same grows c (nameless z e) = nameless z (same ∙ e)
IsField-later h old s t more pos kind off same grows c (stays name a b e) =
    stays name a b (same ∙ e)
IsField-later h old s t more pos kind off same grows c
      (becomes name new c_name place a b e i some_given) =
    becomes name new c_name place a b (same ∙ e)
      (rw grows (IsInterned-append h.str_len s.new_strings more new place i))
      (omega (arith, c, some_given))

module _ (h : Header) (old : Bytes) where
  at_place :
      (s t : Renaming) (r : IsRound h s t)
      → drop s.pos s.buf ≡ drop s.pos old
      → type_at old s.pos ≡ ok (kind_of r.info, r.name_off, r.n)
  unfolding type_at
  at_place s t r ahead =
      let a : unpack 4 old s.pos ≡ ok r.name_off =
        sym (unpack_same 4 s.pos s.buf old ahead) ∙ r.reads_name in
      let b : unpack 4 old (s.pos + 4) ≡ ok r.info =
        sym (
          unpack_same 4 (s.pos + 4) s.buf old
            (drop_further s.pos (s.pos + 4) s.buf old ahead (omega arith)))
        ∙ r.reads_info in
      let c = r.size in rw (type_at, a, b, c) refl

  round-IsStep :
      (s t : Renaming) (r : IsRound h s t)
      → IsAhead h old s
      → s.pos + 12 ≤ h.str_base
      → IsStep h old (kind_of r.info) r.name_off s t
  round-IsStep s t r inv before =
      let step =
        typed-IsStep h old s inv (kind_of r.info) r.name_off r.after before r.reads_name r.typed in
      rw r.next (record {
        strings = step.strings;
        ahead = step.ahead;
        entries = step.entries;
        front = step.front;
        more = step.more;
        grows = step.grows;
        field =
            IsField-later h old r.after _ [] s.pos (kind_of r.info) r.name_off refl
              (sym (append-nil _)) (omega arith) step.field;
        more_changes = step.more_changes;
        same = step.same;
      })

  still-IsAhead :
      (s t : Renaming) (r : IsRound h s t)
      → IsStep h old (kind_of r.info) r.name_off s t
      → IsAhead h old t
  still-IsAhead s t r step =
      let pos = IsRound-pos h s t r in
      record {
        strings = step.strings;
        ahead = drop_further (s.pos + 12) t.pos t.buf old step.ahead (omega (arith, pos));
        entries = step.entries;
      }

  loop_end :
      (fuel : ℕ) (s : Renaming)
      → ltb s.pos h.types_end ≡ false
      → rename_loop (suc fuel) h s ≡ some (ok s)
  unfolding rename_loop
  loop_end fuel s e = rw (rename_loop, e) refl

  loop_next :
      (fuel : ℕ) (s u : Renaming)
      → ltb s.pos h.types_end ≡ true
      → rename_round h s ≡ ok u
      → rename_loop (suc fuel) h s ≡ rename_loop fuel h u
  unfolding rename_loop
  loop_next fuel s u e f = rw (rename_loop, e, f) refl

  loop_raises :
      (fuel : ℕ) (s : Renaming) (x : Error)
      → ltb s.pos h.types_end ≡ true
      → rename_round h s ≡ raised x
      → rename_loop (suc fuel) h s ≡ some (raised x)
  unfolding rename_loop
  loop_raises fuel s x e f = rw (rename_loop, e, f) refl

  types_end : (fuel pos : ℕ) → ltb pos h.types_end ≡ false → types_of (suc fuel) h old pos ≡ []
  unfolding types_of
  types_end fuel pos e = rw (types_of, e) refl

  types_next :
      (fuel pos kind off n : ℕ)
      → ltb pos h.types_end ≡ true
      → type_at old pos ≡ ok (kind, off, n)
      → types_of (suc fuel) h old pos ≡ (pos, kind, off) ∷ types_of fuel h old (pos + (12 + n))
  unfolding types_of
  types_next fuel pos kind off n e f = rw (types_of, e, f) refl

  IsLooped-step :
      (s u t : Renaming) (r : IsRound h s u) (types : List (ℕ × ℕ × ℕ))
      → IsStep h old (kind_of r.info) r.name_off s u
      → IsLooped h old u t types
      → IsLooped h old s t ((s.pos, kind_of r.info, r.name_off) ∷ types)
  IsLooped-step s u t r types step looped =
      let pos = IsRound-pos h s u r in
      record {
        strings = looped.strings;
        front = λ p a. looped.front p (omega (arith, a, pos)) ∙ step.front p a;
        more = step.more ++ looped.more;
        grows =
            looped.grows
            ∙ ap (λ x. x ++ looped.more) step.grows
            ∙ append_assoc s.new_strings step.more looped.more;
        fields = (
          IsField-later h old u t looped.more s.pos (kind_of r.info) r.name_off
              (looped.front s.pos (omega (arith, pos))) looped.grows looped.more_changes step.field,
          looped.fields,
        );
        more_changes = omega (arith, step.more_changes, looped.more_changes);
        same = λ z. looped.same z ∙ step.same (omega (arith, z, looped.more_changes));
      }

  pub loop-IsLooped :
      (fuel : ℕ) (s t : Renaming)
      → rename_loop fuel h s ≡ some (ok t)
      → IsAhead h old s
      → All (IsInFront h) (types_of fuel h old s.pos)
      → IsLooped h old s t (types_of fuel h old s.pos)
  unfolding rename_loop
  loop-IsLooped zero s t e inv before = absurd (cc)
  loop-IsLooped (suc fuel) s t e inv before = elim (Bool-cases (ltb s.pos h.types_end)) [
    | inr at_end ↦
        let same : some (ok t) ≡ some (ok s) = sym e ∙ loop_end fuel s at_end in
        let here : t ≡ s = cc in
        rw (types_end fuel s.pos at_end, here)
          (record {
            strings = inv.strings;
            front = λ p _. refl;
            more = [];
            grows = sym (append-nil s.new_strings);
            fields = tt;
            more_changes = omega arith;
            same = λ _. refl;
          })
    | inl going ↦ elim (Result-cases (rename_round h s)) [
      | inl (x, fails) ↦
          let bad : some (ok t) ≡ some (raised x) = sym e ∙ loop_raises fuel s x going fails in
          absurd (cc)
      | inr (u, works) ↦
          let r = rename_round-IsRound h s u works in
          let next =
            types_next fuel s.pos (kind_of r.info) r.name_off r.n going (at_place s u r inv.ahead)
            ∙ ap (λ p. (s.pos, kind_of r.info, r.name_off) ∷ types_of fuel h old p)
                (sym (IsRound-pos h s u r)) in
          let (here, later) = subst (All (IsInFront h)) next before in
          let step = round-IsStep s u r inv here.1 in
          rw next (
            IsLooped-step s u t r _ step (
              loop-IsLooped fuel u t (sym (loop_next fuel s u going works) ∙ e)
                (still-IsAhead s u r step) later))
    ]
  ]
