-- ===== src/Smoke/Rounds.antt =====
-- The rounds of growing and shrinking.
use libarena_rs.Common.{
  ℕ, zero, suc, ◌+◌, ◌*◌, ◌^◌, ◌%◌, ◌≡◌, refl, ◌∙◌, ap, List, [], ◌∷◌, ◌++◌, length, append_assoc,
  append-nil,
}
use libarena_rs.Smoke.{push_all, truncate, range, rounds}

abbrev added : ℕ → List ℕ → List ℕ
added base [] = []
added base (i ∷ is) = (base + i) % 2 ^ 64 ∷ added base is

push_all_lem : (base : ℕ) (is v : List ℕ) → push_all base is v ≡ v ++ added base is
push_all_lem base [] v = rw append-nil refl
push_all_lem base (i ∷ is) v =
    push_all_lem base is (v ++ (base + i) % 2 ^ 64 ∷ [])
    ∙ append_assoc v ((base + i) % 2 ^ 64 ∷ []) (added base is)

truncate-append : (v w : List ℕ) → truncate (v ++ w) (length v) ≡ v
truncate-append [] w = refl
truncate-append (x ∷ v) w = ap (◌∷◌ x) (truncate-append v w)

-- A round keeps a vector that has 16 elements.
rounds_kept : (n round : ℕ) (v : List ℕ) → length v ≡ 16 → rounds n round v ≡ v
unfolding rounds
rounds_kept zero round v h = refl
rounds_kept (suc n) round v h =
    ap (rounds n (suc round)) (
      ap (λ x. truncate x 16) (push_all_lem (round * 1000 % 2 ^ 64) (range 0 64) v)
      ∙ rw h at (truncate-append v (added (round * 1000 % 2 ^ 64) (range 0 64))))
    ∙ rounds_kept n (suc round) v h

-- After any number of rounds but 0, the vector holds the numbers from 0 to 15.
rounds_lem : (n : ℕ) → rounds (suc n) 0 [] ≡ range 0 16
unfolding rounds
rounds_lem n = rounds_kept n 1 (range 0 16) refl
