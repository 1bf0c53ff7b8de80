-- ===== src/Passes/TrapToRet/Cleared.antt =====
-- No trap that can be rewritten is left behind.
use libarena_rs.Common.{
  ℕ, ◌+◌, ◌<◌, ◌≡◌, ◌⊎◌, refl, ap, ◌∙◌, Bool, true, false, ◌&&◌, ◌||◌, Option, none, some, List, [],
  ◌∷◌, ◌++◌, arith, Text, codes, text_eq, ◌==◌, ==_iff, length, Bool-cases, Option-cases, inl, inr,
  starts_with,
}
use libarena_rs.Passes.Pattern.{strip, match}
use libarena_rs.Passes.TrapToRet.{
  State, loop, initial, is_trap, is_unreachable, is_int, type_after, defined_type,
}
use libarena_rs.Passes.TrapToRet.Laws.{
  loop-rewrite, return_line, replacement, rewrite, rewrite_kept, rewrite_replaced,
}

-- A function does not begin on the line of a trap.
defined_type_trap : (l : Text) → is_trap l ≡ true → defined_type l ≡ none
unfolding defined_type match is_trap
defined_type_trap [] h = refl
defined_type_trap (c ∷ s) h = elim (Bool-cases (c == b'd')) [
  | inl same ↦ let e : c ≡ b'd' = (==_iff c b'd').0 same in absurd (cc (rw e at h))
  | inr other ↦ rw (defined_type, match, other) refl
]

type_after_untyped : (ty : Option Text) (l : Text) → defined_type l ≡ none → type_after ty l ≡ ty
unfolding type_after
type_after_untyped ty l h = rw (type_after, h) refl

module _ (cookie : Text) where
  -- What a line that was put in is not.
  return_line_lem :
      (ty : Option Text) (r : Text)
      → return_line cookie ty ≡ some r
      → (is_unreachable r ≡ false) × (is_trap r ≡ false) × (defined_type r ≡ none)
  unfolding return_line is_unreachable strip starts_with is_trap defined_type match
  return_line_lem none r e = absurd (cc e)
  return_line_lem (some ty) r e = elim (Bool-cases (text_eq ty (codes "void"))) [
    | inl void ↦
        let is_r : codes "  ret void" ≡ r = cc (rw void at e) in rw (← is_r) (refl, refl, refl)
    | inr other ↦ elim (Bool-cases (is_int ty)) [
      | inl int ↦
          let is_r : codes "  ret " ++ (ty ++ 32 ∷ cookie) ≡ r = cc (rw (other, int) at e) in
          rw (← is_r) (refl, refl, refl)
      | inr unknown ↦ absurd (cc (rw (other, unknown) at e))
    ]
  ]

  put_in_lem :
      (ty : Option Text) (l m r : Text)
      → replacement cookie ty l m ≡ some r
      → (is_unreachable r ≡ false)
        × (is_trap r ≡ false)
        × (defined_type r ≡ none)
        × (defined_type l ≡ none)
  unfolding replacement
  put_in_lem ty l m r e = elim (Bool-cases (is_trap l && is_unreachable m)) [
    | inl pair ↦
        let (a, b, c) = return_line_lem ty r (rw pair at e) in
        (a, b, c, defined_type_trap l (ground (arith, pair)))
    | inr other ↦ absurd (cc (rw other at e))
  ]

  abbrev is_some : Option Text → Bool
  is_some none = false
  is_some (some l) = true

  -- A trap that would be rewritten stands in the lines.
  unfoldable pub has_trap : Option Text → List Text → Bool
  has_trap ty [] = false
  has_trap ty (l ∷ []) = false
  has_trap ty (l ∷ m ∷ ls) =
      is_some (replacement cookie (type_after ty l) l m) || has_trap (type_after ty l) (m ∷ ls)

  replacement_untrapped :
      (ty : Option Text) (l m : Text) → is_trap l ≡ false → replacement cookie ty l m ≡ none
  unfolding replacement
  replacement_untrapped ty l m h = rw h refl

  -- A pair that was left alone is left alone before any other line that is not `unreachable`, too.
  replacement_other :
      (ty : Option Text) (l m h : Text)
      → replacement cookie ty l m ≡ none
      → (h ≡ m) ⊎ (is_unreachable h ≡ false)
      → replacement cookie ty l h ≡ none
  unfolding replacement
  replacement_other ty l m h kept (inl same) = rw same kept
  replacement_other ty l m h kept (inr other) = elim (Bool-cases (is_trap l)) [
    | inl trap ↦ rw (trap, other) refl
    | inr no_trap ↦ rw no_trap refl
  ]

  -- The first line of a result is the first line, or one that was put in.
  record StartsWith (m : Text) (out : List Text) : Type 0 where
    head : Text
    tail : List Text
    split_at : out ≡ head ∷ tail
    head_is : (head ≡ m) ⊎ (is_unreachable head ≡ false)

  rewrite-StartsWith :
      (ty : Option Text) (m : Text) (ls : List Text) → StartsWith m (rewrite cookie ty (m ∷ ls)).0
  rewrite-StartsWith ty m [] = record {
    head = m;
    tail = [];
    split_at = unfold rewrite in refl;
    head_is = inl refl;
  }
  rewrite-StartsWith ty m (l ∷ ls) =
      elim (Option-cases (replacement cookie (type_after ty m) m l)) [
        | inl kept ↦
            rw (rewrite_kept cookie ty m l ls kept)
              (record { head = m; tail = _; split_at = refl; head_is = inl refl })
        | inr (r, replaced) ↦ rw (rewrite_replaced cookie ty m l r ls replaced) (record {
          head = r;
          tail = _;
          split_at = refl;
          head_is = inr (put_in_lem (type_after ty m) m l r replaced).0;
        })
      ]

  has_trap_two :
      (ty : Option Text) (l h : Text) (t : List Text)
      → replacement cookie (type_after ty l) l h ≡ none
      → has_trap (type_after ty l) (h ∷ t) ≡ false
      → has_trap ty (l ∷ h ∷ t) ≡ false
  unfolding has_trap
  has_trap_two ty l h t kept rest = rw (has_trap, kept) rest

  has_trap_kept :
      (ty : Option Text) (l m : Text) (out : List Text)
      → replacement cookie (type_after ty l) l m ≡ none
      → StartsWith m out
      → has_trap (type_after ty l) out ≡ false
      → has_trap ty (l ∷ out) ≡ false
  has_trap_kept ty l m out kept starts rest = rw starts.split_at (
      has_trap_two ty l starts.head starts.tail
        (replacement_other (type_after ty l) l m starts.head kept starts.head_is)
        (rw starts.split_at at rest))

  has_trap_put_in :
      (ty : Option Text) (r : Text) (out : List Text)
      → is_trap r ≡ false
      → defined_type r ≡ none
      → has_trap ty out ≡ false
      → has_trap ty (r ∷ out) ≡ false
  has_trap_put_in ty r [] no_trap no_type rest = unfold has_trap in refl
  has_trap_put_in ty r (h ∷ t) no_trap no_type rest =
      let same : type_after ty r ≡ ty = type_after_untyped ty r no_type in
      has_trap_two ty r h t (replacement_untrapped (type_after ty r) r h no_trap) (rw same rest)

  has_trap-rewrite :
      (ty : Option Text) (ls : List Text) → has_trap ty (rewrite cookie ty ls).0 ≡ false
  has_trap-rewrite ty [] = unfold has_trap rewrite in refl
  has_trap-rewrite ty (l ∷ []) = unfold has_trap rewrite in refl
  has_trap-rewrite ty (l ∷ m ∷ ls) =
      elim (Option-cases (replacement cookie (type_after ty l) l m)) [
        | inl kept ↦ rw (rewrite_kept cookie ty l m ls kept) (
            has_trap_kept ty l m _ kept (rewrite-StartsWith (type_after ty l) m ls)
              (has_trap-rewrite (type_after ty l) (m ∷ ls)))
        | inr (r, replaced) ↦
            let (_, no_trap, no_type, same) = put_in_lem (type_after ty l) l m r replaced in
            let same_type : type_after ty l ≡ ty = type_after_untyped ty l same in
            rw (rewrite_replaced cookie ty l m r ls replaced, same_type)
              (has_trap_put_in ty r _ no_trap no_type (has_trap-rewrite ty ls))
      ]

  length-rewrite :
      (ty : Option Text) (ls : List Text)
      → length (rewrite cookie ty ls).0 + (rewrite cookie ty ls).1 ≡ length ls
  length-rewrite ty [] = unfold rewrite in refl
  length-rewrite ty (l ∷ []) = unfold rewrite in refl
  length-rewrite ty (l ∷ m ∷ ls) = elim (Option-cases (replacement cookie (type_after ty l) l m)) [
    | inl kept ↦
        rw (rewrite_kept cookie ty l m ls kept)
          (omega (arith, length-rewrite (type_after ty l) (m ∷ ls)))
    | inr (r, replaced) ↦
        rw (rewrite_replaced cookie ty l m r ls replaced)
          (omega (arith, length-rewrite (type_after ty l) ls))
  ]

  -- Without such a trap the lines stay as they are.
  rewrite_idle :
      (ty : Option Text) (ls : List Text) → has_trap ty ls ≡ false → rewrite cookie ty ls ≡ (ls, 0)
  unfolding has_trap
  rewrite_idle ty [] h = unfold rewrite in refl
  rewrite_idle ty (l ∷ []) h = unfold rewrite in refl
  rewrite_idle ty (l ∷ m ∷ ls) h = elim (Option-cases (replacement cookie (type_after ty l) l m)) [
    | inl kept ↦
        let rest : has_trap (type_after ty l) (m ∷ ls) ≡ false = rw (has_trap, kept) at h in
        rw (rewrite_kept cookie ty l m ls kept, rewrite_idle (type_after ty l) (m ∷ ls) rest) refl
    | inr (r, replaced) ↦ absurd (cc (rw (has_trap, replaced) at h))
  ]

  -- Where the script's loop ends, no trap with `unreachable` behind it is left where the return type
  -- that it has read last is `void` or an integer's, one line is gone for each that was rewritten, and the loop on the lines that
  -- it left, with fuel for them, ends with these lines and rewrites nothing.
  pub loop_clears :
      (fuel again : ℕ) (lines : List Text)
      → length lines < fuel
      → length lines < again
      → (t : State) × (loop cookie fuel lines (initial cookie) ≡ some t)
        × (has_trap none t.out ≡ false)
        × (length t.out + t.rewritten ≡ length lines)
        × ((u : State) × (loop cookie again t.out (initial cookie) ≡ some u)
            × (u.out ≡ t.out)
            × (u.rewritten ≡ 0))
  loop_clears fuel again lines enough more =
      let (t, ends, out, n) = loop-rewrite cookie fuel lines enough in
      let clear : has_trap none t.out ≡ false = rw out (has_trap-rewrite none lines) in
      let size : length t.out + t.rewritten ≡ length lines =
        rw (out, n) (length-rewrite none lines) in
      let (u, ends_again, out_again, n_again) =
        loop-rewrite cookie again t.out (omega (arith, size, more)) in
      (
        t,
        ends,
        clear,
        size,
        (
          u,
          ends_again,
          out_again ∙ ap (λ r. r.0) (rewrite_idle none t.out clear),
          n_again ∙ ap (λ r. r.1) (rewrite_idle none t.out clear),
        ),
      )
