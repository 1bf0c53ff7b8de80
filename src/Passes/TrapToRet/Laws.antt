-- ===== src/Passes/TrapToRet/Laws.antt =====
-- The loop of trap_to_ret.py against a reading of the lines one by one.
use libarena_rs.Common.{
  ℕ, zero, suc, ◌+◌, ◌<◌, ◌≡◌, refl, sym, ap, ◌∙◌, Bool, true, false, ◌&&◌, Option, none, some,
  List, [], ◌∷◌, ◌++◌, append_assoc, append-nil, arith, Text, codes, text_eq, if◌then◌else◌, length,
  Bool-cases, Option-cases, inl, inr, split, join, ◌==◌,
}
use libarena_rs.Passes.TrapToRet.{
  State, get, keep, replace, rewrite_pair, unreachable_at, round, round_on, loop, initial, is_trap,
  is_unreachable, is_int, type_after, trap_to_ret,
}

module _ (cookie : Text) where
  -- The line that takes the place of a trap in a function of this type.
  unfoldable pub return_line : Option Text → Option Text
  return_line none = none
  return_line (some ty) =
      if text_eq ty (codes "void")
      then some (codes "  ret void")
      else if is_int ty
      then some (codes "  ret " ++ (ty ++ 32 ∷ cookie))
      else none

  -- What two lines are replaced by, if they are a trap that is rewritten.
  abbrev choose : Bool → Option Text → Option Text
  choose true ty = return_line ty
  choose false ty = none

  unfoldable pub replacement : Option Text → Text → Text → Option Text
  replacement ty l m = choose (is_trap l && is_unreachable m) ty

  -- The lines of the result, and the number of traps that were rewritten.
  unfoldable pub rewrite : Option Text → List Text → List Text × ℕ
  rewrite ty [] = ([], 0)
  rewrite ty (l ∷ []) = (l ∷ [], 0)
  rewrite ty (l ∷ m ∷ ls) = elim (replacement (type_after ty l) l m) [
    | some r ↦ let (out, n) = rewrite (type_after ty l) ls in (r ∷ out, suc n)
    | none ↦ let (out, n) = rewrite (type_after ty l) (m ∷ ls) in (l ∷ out, n)
  ]

  pub rewrite_kept :
      (ty : Option Text) (l m : Text) (ls : List Text)
      → replacement (type_after ty l) l m ≡ none
      → rewrite ty (l ∷ m ∷ ls)
        ≡ (l ∷ (rewrite (type_after ty l) (m ∷ ls)).0, (rewrite (type_after ty l) (m ∷ ls)).1)
  unfolding rewrite
  rewrite_kept ty l m ls h = rw (rewrite, h) refl

  pub rewrite_replaced :
      (ty : Option Text) (l m r : Text) (ls : List Text)
      → replacement (type_after ty l) l m ≡ some r
      → rewrite ty (l ∷ m ∷ ls)
        ≡ (r ∷ (rewrite (type_after ty l) ls).0, suc (rewrite (type_after ty l) ls).1)
  unfolding rewrite
  rewrite_replaced ty l m r ls h = rw (rewrite, h) refl

  -- The lines from an index on.
  abbrev IsAt : List Text → ℕ → List Text → Type 0
  IsAt lines i rest = (k : ℕ) → get lines (i + k) ≡ get rest k

  IsAt-next :
      (lines : List Text) (i : ℕ) (l : Text) (rest : List Text)
      → IsAt lines i (l ∷ rest)
      → IsAt lines (i + 1) rest
  IsAt-next lines i l rest h k = let e : i + 1 + k ≡ i + suc k = omega arith in rw e (h (suc k))

  apply : Option Text → Text → State → State
  apply (some r) l s = replace cookie r s
  apply none l s = keep cookie l s

  round_on_lem :
      (b : Bool) (ty : Option Text) (l : Text) (s : State)
      → round_on cookie b ty l s ≡ apply (choose b ty) l s
  unfolding round_on apply return_line rewrite_pair
  round_on_lem false ty l s = refl
  round_on_lem true none l s = refl
  round_on_lem true (some ty) l s = elim (Bool-cases (text_eq ty (codes "void"))) [
    | inl void ↦ rw void refl
    | inr other ↦ elim (Bool-cases (is_int ty)) [
      | inl int ↦ rw (other, int) refl
      | inr unknown ↦ rw (other, unknown) refl
    ]
  ]

  abbrev typed : State → Text → State
  typed s l = record s { ret_ty = type_after s.ret_ty l }

  -- One round on a pair of lines.
  round_pair :
      (lines : List Text) (l m : Text) (s : State)
      → unreachable_at cookie lines (s.i + 1) ≡ is_unreachable m
      → round cookie lines l s ≡ apply (replacement (type_after s.ret_ty l) l m) l (typed s l)
  unfolding replacement round
  round_pair lines l m s h = rw h (round_on_lem (is_trap l && is_unreachable m) _ l _)

  -- One round on the last line.
  round_last :
      (lines : List Text) (l : Text) (s : State)
      → unreachable_at cookie lines (s.i + 1) ≡ false
      → round cookie lines l s ≡ keep cookie l (typed s l)
  unfolding round round_on
  round_last lines l s h = elim (Bool-cases (is_trap l)) [
    | inl trap ↦ rw (h, trap) refl
    | inr other ↦ rw (h, other) refl
  ]

  abbrev heads : List Text → Bool
  heads rest = elim (get rest 0) [ none ↦ false | some l ↦ is_unreachable l ]

  next_unreachable :
      (lines : List Text) (i : ℕ) {l : Text} (rest : List Text)
      → IsAt lines i (l ∷ rest)
      → unreachable_at cookie lines (i + 1) ≡ heads rest
  unfolding unreachable_at
  next_unreachable lines i rest here =
      ap (λ (o : Option Text). elim o as (λ _. Bool) [ none ↦ false | some l ↦ is_unreachable l ])
        (here 1)

  abbrev Ends : Option State → State → List Text → Type 0
  Ends r s rest =
      (t : State) × (r ≡ some t)
      × (t.out ≡ s.out ++ (rewrite s.ret_ty rest).0)
      × (t.rewritten ≡ s.rewritten + (rewrite s.ret_ty rest).1)

  loop_lem :
      (fuel : ℕ) (lines : List Text) (s : State) (rest : List Text)
      → IsAt lines s.i rest
      → length rest < fuel
      → Ends (loop cookie fuel lines s) s rest
  unfolding loop rewrite apply
  loop_lem zero lines s rest here short = absurd (omega (arith, short))
  loop_lem (suc fuel) lines s [] here short =
      let at_end : get lines s.i ≡ none = sym (ap (get lines) (omega arith)) ∙ here 0 in
      rw (loop, at_end) (s, refl, rw append-nil refl, omega arith)
  loop_lem (suc fuel) lines s (l ∷ []) here short =
      let at_line : get lines s.i ≡ some l = ap (get lines) (omega arith) ∙ here 0 in
      let last : unreachable_at cookie lines (s.i + 1) ≡ false =
        next_unreachable lines s.i [] here in
      let (t, ends, out, n) =
        loop_lem fuel lines (keep cookie l (typed s l)) [] (IsAt-next lines s.i l [] here)
          (omega (arith, short)) in
      rw (loop, at_line, round_last lines l s last) (t, ends, out ∙ append-nil _, n ∙ omega arith)
  loop_lem (suc fuel) lines s (l ∷ m ∷ ls) here short =
      let at_line : get lines s.i ≡ some l = ap (get lines) (omega arith) ∙ here 0 in
      let next : unreachable_at cookie lines (s.i + 1) ≡ is_unreachable m =
        next_unreachable lines s.i (m ∷ ls) here in
      elim (Option-cases (replacement (type_after s.ret_ty l) l m)) [
        | inl kept ↦
            let (t, ends, out, n) =
              loop_lem fuel lines (keep cookie l (typed s l)) (m ∷ ls)
                (IsAt-next lines s.i l (m ∷ ls) here) (omega (arith, short)) in
            rw (loop, at_line, round_pair lines l m s next, rewrite_kept s.ret_ty l m ls kept, kept)
              (t, ends, out ∙ append_assoc s.out (l ∷ []) _, n)
        | inr (r, replaced) ↦
            let two : IsAt lines (s.i + 2) ls =
              λ k. ap (get lines) (omega arith) ∙ here (suc (suc k)) in
            let (t, ends, out, n) =
              loop_lem fuel lines (replace cookie r (typed s l)) ls two (omega (arith, short)) in
            rw
              (
                loop,
                at_line,
                round_pair lines l m s next,
                rewrite_replaced s.ret_ty l m r ls replaced,
                replaced,
              )
              (t, ends, out ∙ append_assoc s.out (r ∷ []) _, n ∙ omega arith)
      ]

  pub loop-rewrite :
      (fuel : ℕ) (lines : List Text)
      → length lines < fuel
      → (t : State) × (loop cookie fuel lines (initial cookie) ≡ some t)
        × (t.out ≡ (rewrite none lines).0)
        × (t.rewritten ≡ (rewrite none lines).1)
  loop-rewrite fuel lines enough =
      let (t, ends, out, n) =
        loop_lem fuel lines (initial cookie) lines
          (λ k. let e : 0 + k ≡ k = omega arith in rw e refl) enough in
      (t, ends, out, omega (arith, n))

  -- With more fuel than there are lines the script's loop ends: its result is that of reading the lines
  -- one by one, with a trap and the `unreachable` behind it replaced by a return where the return type
  -- that it has read last is `void` or an integer's, and every other line as it was.
  pub trap_to_ret_ends :
      (text : Text) (fuel : ℕ)
      → length (split (λ c. c == 10) text) < fuel
      → trap_to_ret cookie fuel text
        ≡ some (
          join (10 ∷ []) (rewrite none (split (λ c. c == 10) text)).0,
          (rewrite none (split (λ c. c == 10) text)).1,
        )
  unfolding trap_to_ret
  trap_to_ret_ends text fuel enough =
      let (t, ends, out, n) = loop-rewrite fuel (split (λ c. c == 10) text) enough in
      rw (trap_to_ret, ends, out, n) refl
