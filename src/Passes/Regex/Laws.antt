-- ===== src/Passes/Regex/Laws.antt =====
-- What a match says about the text.
use libarena_rs.Common.{
  ℕ, zero, suc, ◌-◌, ◌≤◌, ◌≡◌, refl, sym, ap, ◌∙◌, Bool, true, false, Option, none, some, [], ◌∷◌,
  ◌++◌, arith, Text, ltb, lt→ltb, ◌==◌, ==_iff, length, length-append, All, Bool-cases,
  Option-cases, inl, inr,
}
use libarena_rs.Passes.Pattern.{Class}
use libarena_rs.Passes.Bytes.{take}
use libarena_rs.Passes.Regex.{
  when, at_boundary, ends_line, char, group, line_end, boundary, lit, many, some_of, Groups, Found,
  Rest, match, greedy,
}

-- Every character is of the class.
abbrev pub IsOf : Class → Text → Type 0
IsOf p = All (λ c. p c ≡ true)

-- A match of a part, and the way from behind it.
pub record IsSplit (w : Text) (k : Rest) (g : Groups) (s : Text) (m : Found) : Type 0 where
  pub behind : Text
  pub prev : Option ℕ
  pub joins : s ≡ w ++ behind
  pub goes_on : k prev g behind ≡ some m

shorter : (s : Text) → ltb (length s) (suc (length s)) ≡ true
shorter s = lt→ltb (length s) (suc (length s)) (omega arith)

greedy_last :
    (p : Class) (k : Rest) (n : ℕ) (prev : Option ℕ) (g : Groups) (c : ℕ) (s : Text)
    → p c ≡ true
    → greedy (match (char p)) k n (some c) g s ≡ none
    → greedy (match (char p)) k (suc n) prev g (c ∷ s) ≡ k prev g (c ∷ s)
unfolding greedy match
greedy_last p k n prev g c s is_p e = rw (greedy, match, is_p, shorter s, e) refl

greedy_more :
    (p : Class) (k : Rest) (n : ℕ) (prev : Option ℕ) (g : Groups) (c : ℕ) (s : Text) (m : Found)
    → p c ≡ true
    → greedy (match (char p)) k n (some c) g s ≡ some m
    → greedy (match (char p)) k (suc n) prev g (c ∷ s) ≡ some m
unfolding greedy match
greedy_more p k n prev g c s m is_p e = rw (greedy, match, is_p, shorter s, e) refl

greedy_other :
    (p : Class) (k : Rest) (n : ℕ) (prev : Option ℕ) (g : Groups) (c : ℕ) (s : Text)
    → p c ≡ false
    → greedy (match (char p)) k (suc n) prev g (c ∷ s) ≡ k prev g (c ∷ s)
unfolding greedy match
greedy_other p k n prev g c s other = rw (greedy, match, other) refl

-- Characters of a class, as many as there are or fewer.
greedy-IsSplit :
    (p : Class) (k : Rest) (n : ℕ) (prev : Option ℕ) (g : Groups) (s : Text) (m : Found)
    → greedy (match (char p)) k n prev g s ≡ some m
    → (w : Text) × IsOf p w × IsSplit w k g s m
unfolding greedy match
greedy-IsSplit p k zero prev g s m e =
    ([], tt, record { behind = s; prev = prev; joins = refl; goes_on = e })
greedy-IsSplit p k (suc n) prev g [] m e =
    ([], tt, record { behind = []; prev = prev; joins = refl; goes_on = e })
greedy-IsSplit p k (suc n) prev g (c ∷ s) m e = elim (Bool-cases (p c)) [
  | inr other ↦ (
    [],
    tt,
    record {
      behind = c ∷ s;
      prev = prev;
      joins = refl;
      goes_on = sym (greedy_other p k n prev g c s other) ∙ e;
    },
  )
  | inl is_p ↦ elim (Option-cases (greedy (match (char p)) k n (some c) g s)) [
    | inl fails ↦ (
      [],
      tt,
      record {
        behind = c ∷ s;
        prev = prev;
        joins = refl;
        goes_on = sym (greedy_last p k n prev g c s is_p fails) ∙ e;
      },
    )
    | inr (m', more) ↦
        let same = sym (greedy_more p k n prev g c s m' is_p more) ∙ e in
        let (w, h, split) = greedy-IsSplit p k n (some c) g s m (more ∙ same) in
        (
          c ∷ w,
          (is_p, h),
          record {
            behind = split.behind;
            prev = split.prev;
            joins = ap (λ t. c ∷ t) split.joins;
            goes_on = split.goes_on;
          },
        )
  ]
]

-- A literal stands there.
pub lit-IsSplit :
    (w : Text) (k : Rest) (prev : Option ℕ) (g : Groups) (s : Text) (m : Found)
    → match (lit w) k prev g s ≡ some m
    → IsSplit w k g s m
unfolding match
lit-IsSplit [] k prev g s m e = record { behind = s; prev = prev; joins = refl; goes_on = e }
lit-IsSplit (c ∷ w) k prev g [] m e = absurd (cc e)
lit-IsSplit (c ∷ w) k prev g (d ∷ s) m e = elim (Bool-cases (d == c)) [
  | inr other ↦ absurd (cc (rw (match, other) at e))
  | inl same ↦
      let split = lit-IsSplit w k (some d) g s m (rw (match, same) at e) in
      record {
        behind = split.behind;
        prev = split.prev;
        joins =
            ap (λ t. d ∷ t) split.joins ∙ ap (λ x. x ∷ (w ++ split.behind)) ((==_iff d c).0 same);
        goes_on = split.goes_on;
      }
]

take-append : (w t : Text) (n : ℕ) → n ≡ length w → take n (w ++ t) ≡ w
take-append [] t zero e = refl
take-append [] t (suc n) e = absurd (omega (arith, e))
take-append (c ∷ w) t zero e = absurd (omega (arith, e))
take-append (c ∷ w) t (suc n) e = ap (λ s. c ∷ s) (take-append w t n (omega (arith, e)))

captured : (w t : Text) → take (length (w ++ t) - length t) (w ++ t) ≡ w
captured w t = let e = length-append w t in take-append w t _ (omega (arith, e))

abbrev capturing : ℕ → Rest → Text → Rest
capturing n k s prev h t = k prev ((n, take (length s - length t) s) ∷ h) t

group-IsSplit :
    (n : ℕ) (k : Rest) (g : Groups) (s w : Text) (m : Found)
    → IsSplit w (capturing n k s) g s m
    → IsSplit w k ((n, w) ∷ g) s m
group-IsSplit n k g s w m split = record {
  behind = split.behind;
  prev = split.prev;
  joins = split.joins;
  goes_on =
      ap (λ x. k split.prev ((n, x) ∷ g) split.behind)
        (sym (captured w split.behind)
          ∙ ap (λ x. take (length x - length split.behind) x) (sym split.joins))
      ∙ split.goes_on;
}

-- A group of characters of a class.
pub many-IsSplit :
    (n : ℕ) (p : Class) (k : Rest) (prev : Option ℕ) (g : Groups) (s : Text) (m : Found)
    → match (group n (many p)) k prev g s ≡ some m
    → (w : Text) × IsOf p w × IsSplit w k ((n, w) ∷ g) s m
unfolding match
many-IsSplit n p k prev g s m e =
    let (w, h, split) = greedy-IsSplit p (capturing n k s) (length s) prev g s m e in
    (w, h, group-IsSplit n k g s w m split)

-- The same, with at least one.
pub some_of-IsSplit :
    (n : ℕ) (p : Class) (k : Rest) (prev : Option ℕ) (g : Groups) (s : Text) (m : Found)
    → match (group n (some_of p)) k prev g s ≡ some m
    → (c : ℕ) × (w : Text) × IsOf p (c ∷ w) × IsSplit (c ∷ w) k ((n, c ∷ w) ∷ g) s m
unfolding match
some_of-IsSplit n p k prev g [] m e = absurd (cc e)
some_of-IsSplit n p k prev g (c ∷ s) m e = elim (Bool-cases (p c)) [
  | inr other ↦ absurd (cc (rw (match, other) at e))
  | inl is_p ↦
      let (w, h, split) =
        greedy-IsSplit p (capturing n k (c ∷ s)) (length s) (some c) g s m (rw is_p at e) in
      (
        c,
        w,
        (is_p, h),
        group-IsSplit n k g (c ∷ s) (c ∷ w) m (record {
          behind = split.behind;
          prev = split.prev;
          joins = ap (λ t. c ∷ t) split.joins;
          goes_on = split.goes_on;
        }),
      )
]

when-some : (b : Bool) (o : Option Found) (m : Found) → when b o ≡ some m → o ≡ some m
when-some true o m e = e
when-some false o m e = absurd (cc e)

pub match-boundary :
    (k : Rest) (prev : Option ℕ) (g : Groups) (s : Text) (m : Found)
    → match boundary k prev g s ≡ some m
    → k prev g s ≡ some m
unfolding match
match-boundary k prev g s m e = when-some (at_boundary prev s) (k prev g s) m e

pub match-line_end :
    (k : Rest) (prev : Option ℕ) (g : Groups) (s : Text) (m : Found)
    → match line_end k prev g s ≡ some m
    → (ends_line s ≡ true) × (k prev g s ≡ some m)
unfolding match
match-line_end k prev g s m e = taken (ends_line s) e
  where
    taken : (b : Bool) → when b (k prev g s) ≡ some m → (b ≡ true) × (k prev g s ≡ some m)
    taken true e = (refl, e)
    taken false e = absurd (cc e)

many-whole :
    (p : Class) (k : Rest) (n : ℕ) (prev : Option ℕ) (g : Groups) (w : Text) (m : Found)
    → IsOf p w
    → length w ≤ n
    → ((q : Option ℕ) → k q g [] ≡ some m)
    → greedy (match (char p)) k n prev g w ≡ some m
unfolding greedy match
many-whole p k zero prev g [] m h l e = e prev
many-whole p k (suc n) prev g [] m h l e = e prev
many-whole p k zero prev g (c ∷ w) m h l e = absurd (omega (arith, l))
many-whole p k (suc n) prev g (c ∷ w) m (is_p, h) l e =
    greedy_more p k n prev g c w m is_p (many-whole p k n (some c) g w m h (omega (arith, l)) e)

take-whole : (s : Text) → take (length s) s ≡ s
take-whole [] = refl
take-whole (c ∷ s) = ap (λ x. c ∷ x) (take-whole s)

-- What a group at the end of the text captures.
pub take_to_end : (s : Text) → take (length s - 0) s ≡ s
take_to_end s = let e : length s - 0 ≡ length s = omega arith in ap (λ n. take n s) e ∙ take-whole s

-- Characters of a class, one at least, up to the end of the text.
pub match-some_of :
    (p : Class) (k : Rest) (prev : Option ℕ) (g : Groups) (c : ℕ) (w : Text) (m : Found)
    → IsOf p (c ∷ w)
    → ((q : Option ℕ) → k q g [] ≡ some m)
    → match (some_of p) k prev g (c ∷ w) ≡ some m
unfolding match
match-some_of p k prev g c w m (is_p, h) e =
    rw (match, is_p) (many-whole p k (length w) (some c) g w m h (omega arith) e)

-- One character of a class in front of one that is none.
pub match-many_one :
    (p : Class) (k : Rest) (prev : Option ℕ) (g : Groups) (b c : ℕ) (s : Text) (m : Found)
    → p b ≡ true
    → p c ≡ false
    → k (some b) g (c ∷ s) ≡ some m
    → match (many p) k prev g (b ∷ c ∷ s) ≡ some m
unfolding match
match-many_one p k prev g b c s m is_p other e =
    greedy_more p k (suc (length s)) prev g b (c ∷ s) m is_p
      (greedy_other p k (length s) (some b) g c s other ∙ e)

pub match-some_one :
    (p : Class) (k : Rest) (prev : Option ℕ) (g : Groups) (b c : ℕ) (s : Text) (m : Found)
    → p b ≡ true
    → p c ≡ false
    → k (some b) g (c ∷ s) ≡ some m
    → match (some_of p) k prev g (b ∷ c ∷ s) ≡ some m
unfolding match
match-some_one p k prev g b c s m is_p other e =
    rw (match, is_p) (greedy_other p k (length s) (some b) g c s other ∙ e)
