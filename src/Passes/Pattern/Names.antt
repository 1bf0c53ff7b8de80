-- ===== src/Passes/Pattern/Names.antt =====
-- What the first group of a match holds.
use libarena_rs.Common.{
  ℕ, zero, suc, ◌≡◌, refl, Bool, true, false, Option, none, some, List, [], ◌∷◌, ◌++◌, Text,
  Bool-cases, Option-cases, inl, inr, All, All-append, IsField, ◌-◌, ◌==◌, length,
}
use libarena_rs.Passes.Pattern.{
  Class, one, many, lazy, group, maybe, mark, boundary, not_ahead, Pattern, Match, Rest, greedy,
  optional, lazily, capture, captured, match, at_boundary, any_ahead, find_from, find_all,
  first_groups,
}

module _ (q : ℕ → Bool) where
  -- No character of the class is a separator.
  abbrev pub Avoids : Class → Type 0
  Avoids p = (c : ℕ) → p c ≡ true → q c ≡ false

  -- The first group of a pattern has such a class.
  abbrev pub FirstAvoids : Pattern → Type 0
  FirstAvoids [] = Unit
  FirstAvoids (group p ∷ ats) = Avoids p
  FirstAvoids (mark ∷ ats) = ⊥
  FirstAvoids (_ ∷ ats) = FirstAvoids ats

  -- The first group is a word.
  abbrev pub IsNamed : List Text → Type 0
  IsNamed [] = Unit
  IsNamed (g ∷ gs) = IsField q g

  abbrev Names : Option Match → Type 0
  Names none = Unit
  Names (some m) = IsNamed m.0

  abbrev Finds : Rest → Type 0
  Finds k = (prev : Option ℕ) (s : Text) → Names (k prev s)

  greedy-Finds : (p : Class) (k : Rest) → Finds k → Finds (greedy p k)
  unfolding greedy
  greedy-Finds p k h prev [] = h prev []
  greedy-Finds p k h prev (c ∷ s) = elim (Bool-cases (p c)) [
    | inl yes_p ↦ elim (Option-cases (greedy p k (some c) s)) [
      | inl failed ↦ rw (greedy, yes_p, failed) (h prev (c ∷ s))
      | inr (m, found) ↦ rw (greedy, yes_p, found) (rw found at (greedy-Finds p k h (some c) s))
    ]
    | inr no_p ↦ rw (greedy, no_p) (h prev (c ∷ s))
  ]

  optional-Finds : (p : Class) (k : Rest) → Finds k → Finds (optional p k)
  unfolding optional
  optional-Finds p k h prev [] = h prev []
  optional-Finds p k h prev (c ∷ s) = elim (Bool-cases (p c)) [
    | inl yes_p ↦ elim (Option-cases (k (some c) s)) [
      | inl failed ↦ rw (optional, yes_p, failed) (h prev (c ∷ s))
      | inr (m, found) ↦ rw (optional, yes_p, found) (rw found at (h (some c) s))
    ]
    | inr no_p ↦ rw (optional, no_p) (h prev (c ∷ s))
  ]

  lazily-Finds : (p : Class) (k : Rest) → Finds k → Finds (lazily p k)
  unfolding lazily
  lazily-Finds p k h prev [] = h prev []
  lazily-Finds p k h prev (c ∷ s) = elim (Option-cases (k prev (c ∷ s))) [
    | inr (m, found) ↦ rw (lazily, found) (rw found at (h prev (c ∷ s)))
    | inl failed ↦ elim (Bool-cases (p c)) [
      | inl yes_p ↦ rw (lazily, failed, yes_p) (lazily-Finds p k h (some c) s)
      | inr no_p ↦ rw (lazily, failed, no_p) tt
    ]
  ]

  captured-Names : (g : Text) (o : Option Match) → IsField q g → Names (captured g o)
  captured-Names g none h = tt
  captured-Names g (some m) h = h

  IsField-snoc : (g : Text) (c : ℕ) → IsField q g → q c ≡ false → IsField q (g ++ c ∷ [])
  IsField-snoc [] c (h, nonempty) hc = absurd (cc nonempty)
  IsField-snoc (x ∷ g) c (h, nonempty) hc =
      (All-append (λ c. q c ≡ false) (x ∷ g) (c ∷ []) h (hc, tt), refl)

  capture-Finds :
      (p : Class) (k : Rest) → Avoids p → (acc : Text) → IsField q acc → Finds (capture p k acc)
  unfolding capture
  capture-Finds p k avoids acc word prev [] = captured-Names acc (k prev []) word
  capture-Finds p k avoids acc word prev (c ∷ s) = elim (Bool-cases (p c)) [
    | inl yes_p ↦
        let longer = IsField-snoc acc c word (avoids c yes_p) in
        elim (Option-cases (capture p k (acc ++ c ∷ []) (some c) s)) [
          | inl failed ↦ rw (capture, yes_p, failed) (captured-Names acc (k prev (c ∷ s)) word)
          | inr (m, found) ↦
              rw (capture, yes_p, found)
                (rw found at (capture-Finds p k avoids (acc ++ c ∷ []) longer (some c) s))
        ]
    | inr no_p ↦ rw (capture, no_p) (captured-Names acc (k prev (c ∷ s)) word)
  ]

  match-Finds : (p : Pattern) → FirstAvoids p → Finds (match p)
  unfolding match
  match-Finds [] h prev s = tt
  match-Finds (one p ∷ ats) h prev [] = tt
  match-Finds (one p ∷ ats) h prev (c ∷ s) = elim (Bool-cases (p c)) [
    | inl yes_p ↦ rw (match, yes_p) (match-Finds ats h (some c) s)
    | inr no_p ↦ rw (match, no_p) tt
  ]
  match-Finds (many p ∷ ats) h prev s = greedy-Finds p (match ats) (match-Finds ats h) prev s
  match-Finds (lazy p ∷ ats) h prev s = lazily-Finds p (match ats) (match-Finds ats h) prev s
  match-Finds (maybe p ∷ ats) h prev s = optional-Finds p (match ats) (match-Finds ats h) prev s
  match-Finds (mark ∷ ats) h prev s = absurd h
  match-Finds (group p ∷ ats) h prev [] = tt
  match-Finds (group p ∷ ats) h prev (c ∷ s) = elim (Bool-cases (p c)) [
    | inl yes_p ↦
        rw (match, yes_p)
          (capture-Finds p (match ats) h (c ∷ []) ((h c yes_p, tt), refl) (some c) s)
    | inr no_p ↦ rw (match, no_p) tt
  ]
  match-Finds (boundary ∷ ats) h prev s = elim (Bool-cases (at_boundary prev s)) [
    | inl yes_b ↦ rw (match, yes_b) (match-Finds ats h prev s)
    | inr no_b ↦ rw (match, no_b) tt
  ]
  match-Finds (not_ahead ws ∷ ats) h prev s = elim (Bool-cases (any_ahead ws s)) [
    | inl ahead ↦ rw (match, ahead) tt
    | inr clear ↦ rw (match, clear) (match-Finds ats h prev s)
  ]

  find_from-Names :
      (p : Pattern)
      → FirstAvoids p
      → (start : Bool) (skip : ℕ) (s : Text) → All IsNamed (find_from p start skip s)
  unfolding find_from
  find_from-Names p h start skip [] = tt
  find_from-Names p h start (suc skip) (c ∷ s) = find_from-Names p h (c == 10) skip s
  find_from-Names p h false zero (c ∷ s) = find_from-Names p h (c == 10) zero s
  find_from-Names p h true zero (c ∷ s) = elim (Option-cases (match p none (c ∷ s))) [
    | inl failed ↦ rw (find_from, failed) (find_from-Names p h (c == 10) zero s)
    | inr (m, found) ↦
        rw (find_from, found)
          (
            rw found at (match-Finds p h none (c ∷ s)),
            find_from-Names p h (c == 10) (length s - length m.1) s,
          )
  ]

  -- The groups that begin the matches of such a pattern are words.
  pub find_all-Names : (p : Pattern) → FirstAvoids p → (s : Text) → All IsNamed (find_all p s)
  unfolding find_all
  find_all-Names p h s = find_from-Names p h true zero s

  pub first_groups-IsField :
      (ms : List (List Text)) → All IsNamed ms → All (IsField q) (first_groups ms)
  first_groups-IsField [] h = tt
  first_groups-IsField ([] ∷ ms) (_, h) = first_groups-IsField ms h
  first_groups-IsField ((g ∷ gs) ∷ ms) (word, h) = (word, first_groups-IsField ms h)
