-- ===== src/Common/Words.antt =====
-- `str::split`, `split_whitespace`, `lines` and `join`, and how they undo one another.
use Prim.Native.Nat.{ℕ, zero, suc, ◌+◌, ◌/◌, ◌%◌}
use mathlib.Core.Path.{◌≡◌, refl, ap, ◌∙◌}
use mathlib.Core.Bool.{Bool, true, false, not, ◌&&◌, ◌||◌}
use mathlib.Core.List.{List, [], ◌∷◌, ◌++◌, append-nil, append_assoc}
use native.Mathlib.Omega.{arith}
use libarena_rs.Common.Checks.{◌==◌, leb, ltb, if◌then◌else◌}
use libarena_rs.Common.Lists.{is_nil, keep_if, All, All-append}
use libarena_rs.Common.Strings.{Text}

-- `char::is_whitespace`: the White_Space property of Unicode.
unfoldable pub is_whitespace : ℕ → Bool
is_whitespace c =
    (leb 9 c && leb c 13)
    || (c == 32)
    || (c == 0x85)
    || (c == 0xa0)
    || (c == 0x1680)
    || (leb 0x2000 c && leb c 0x200a)
    || (c == 0x2028)
    || (c == 0x2029)
    || (c == 0x202f)
    || (c == 0x205f)
    || (c == 0x3000)

-- The parts of a text between the characters that meet a test; `cur` is the part being read.
unfoldable pub split_from : (ℕ → Bool) → Text → Text → List Text
split_from p [] cur = cur ∷ []
split_from p (c ∷ s) cur = elim (p c) [
  | true ↦ cur ∷ split_from p s []
  | false ↦ split_from p s (cur ++ c ∷ [])
]

unfoldable pub split : (ℕ → Bool) → Text → List Text
unfolding split_from
split p s = split_from p s []

-- `s.split(p).filter(|s| !s.is_empty())`.
unfoldable pub fields : (ℕ → Bool) → Text → List Text
unfolding split
fields p s = keep_if (λ w. not (is_nil w)) (split p s)

-- `str::split_whitespace`.
unfoldable pub split_whitespace : Text → List Text
unfolding fields is_whitespace
split_whitespace = fields is_whitespace

trim_start : Text → Text
trim_start [] = []
trim_start (c ∷ s) = let rest = trim_start s in if is_whitespace c then rest else c ∷ s

trim_end : Text → Text
trim_end [] = []
trim_end (c ∷ s) = let rest = trim_end s in if is_nil rest && is_whitespace c then [] else c ∷ rest

-- `str::trim`.
unfoldable pub trim : Text → Text
unfolding trim_start trim_end is_whitespace
trim s = trim_end (trim_start s)

-- A line without its `\n` has its last `\r` removed too.
strip_cr : Text → Text
strip_cr [] = []
strip_cr (c ∷ []) = if c == 13 then [] else c ∷ []
strip_cr (c ∷ d ∷ s) = c ∷ strip_cr (d ∷ s)

-- A text that ends in a line feed has no empty line behind it; only a terminated line loses `\r`.
terminated : List Text → List Text
terminated [] = []
terminated (l ∷ []) = if is_nil l then [] else l ∷ []
terminated (l ∷ m ∷ ls) = strip_cr l ∷ terminated (m ∷ ls)

-- `str::lines`.
unfoldable pub lines : Text → List Text
unfolding split strip_cr terminated
lines s = terminated (split (λ c. c == 10) s)

-- `[String]::join`.
unfoldable pub join : Text → List Text → Text
join sep [] = []
join sep (w ∷ []) = w
join sep (w ∷ v ∷ ws) = w ++ (sep ++ join sep (v ∷ ws))

-- `ws.join("\n") + "\n"`, the form in which the linker writes its lists.
abbrev pub list_file : List Text → Text
list_file ws = join (10 ∷ []) ws ++ 10 ∷ []

module _ (p : ℕ → Bool) where
  -- No character of the text meets the test.
  abbrev pub Lacks : Text → Type 0
  Lacks = All (λ c. p c ≡ false)

  -- A part that a split with its empty parts left out can give.
  abbrev pub IsField : Text → Type 0
  IsField w = Lacks w × (is_nil w ≡ false)

  split_from-append :
      (w s cur : Text) → Lacks w → split_from p (w ++ s) cur ≡ split_from p s (cur ++ w)
  unfolding split_from
  split_from-append [] s cur h = rw append-nil
  split_from-append (c ∷ w) s cur (hc, h) =
      rw hc (split_from-append w s (cur ++ c ∷ []) h ∙ rw append_assoc)

  is_field_snoc : (cur : Text) (c : ℕ) → is_nil (cur ++ c ∷ []) ≡ false
  is_field_snoc [] c = refl
  is_field_snoc (x ∷ cur) c = refl

  fields_from-IsField :
      (s cur : Text) → Lacks cur → All IsField (keep_if (λ w. not (is_nil w)) (split_from p s cur))
  unfolding split_from
  fields_from-IsField [] cur h = ground arith
  fields_from-IsField (c ∷ s) cur h = ground (
    arith,
    fields_from-IsField s [],
    fields_from-IsField s (cur ++ c ∷ []),
    All-append (λ c. p c ≡ false) cur (c ∷ []) h,
  )

  -- Each part is not empty and holds no separator.
  pub fields-IsField : (s : Text) → All IsField (fields p s)
  unfolding fields
  fields-IsField s = fields_from-IsField s [] tt

  split_from-sep :
      (w s : Text) (sep : ℕ)
      → Lacks w
      → p sep ≡ true
      → split_from p (w ++ sep ∷ s) [] ≡ w ∷ split_from p s []
  unfolding split_from
  split_from-sep w s sep h hs = split_from-append w (sep ∷ s) [] h ∙ step w
    where
      step : (cur : Text) → split_from p (sep ∷ s) cur ≡ cur ∷ split_from p s []
      step cur = rw (split_from, hs)

  fields-sep :
      (w s : Text) (sep : ℕ) → IsField w → p sep ≡ true → fields p (w ++ sep ∷ s) ≡ w ∷ fields p s
  unfolding fields
  fields-sep w s sep (h, nonempty) hs = rw (split_from-sep w s sep h hs, nonempty)

  -- A list of parts, joined by a separator and ended by one, is read back.
  pub fields-join :
      (ws : List Text) (sep end : ℕ)
      → All IsField ws
      → p sep ≡ true
      → p end ≡ true
      → fields p (join (sep ∷ []) ws ++ end ∷ []) ≡ ws
  unfolding join
  fields-join [] sep end h hs he = unfold fields split_from in rw he
  fields-join (w ∷ []) sep end (h, _) hs he =
      fields-sep w [] end h he ∙ unfold fields split_from in refl
  fields-join (w ∷ v ∷ ws) sep end (h, hv) hs he =
      ap (fields p) (append_assoc w (sep ∷ join (sep ∷ []) (v ∷ ws)) (end ∷ []))
      ∙ fields-sep w (join (sep ∷ []) (v ∷ ws) ++ end ∷ []) sep h hs
      ∙ ap (λ fs. w ∷ fs) (fields-join (v ∷ ws) sep end hv hs he)

-- What the linker writes as a list file is read back by `split_whitespace`.
pub split_whitespace-list_file :
    (ws : List Text) → All (IsField is_whitespace) ws → split_whitespace (list_file ws) ≡ ws
unfolding split_whitespace
split_whitespace-list_file ws h = fields-join is_whitespace ws 10 10 h refl refl

-- The same with blanks between the words.
pub split_whitespace_line :
    (ws : List Text)
    → All (IsField is_whitespace) ws
    → split_whitespace (join (32 ∷ []) ws ++ 10 ∷ []) ≡ ws
unfolding split_whitespace
split_whitespace_line ws h = fields-join is_whitespace ws 32 10 h refl refl

-- Words are never empty and hold no white space.
pub split_whitespace-IsField : (s : Text) → All (IsField is_whitespace) (split_whitespace s)
unfolding split_whitespace
split_whitespace-IsField s = fields-IsField is_whitespace s

digits : ℕ → ℕ → Text → Text
digits zero n acc = acc
digits (suc fuel) n acc =
    let rest = digits fuel (n / 10) ((48 + n % 10) ∷ acc) in
    if ltb n 10 then (48 + n) ∷ acc else rest

-- A number in decimal, as `{}` writes it; it has no more digits than its value, and one at least.
unfoldable pub decimal : ℕ → Text
unfolding digits
decimal n = digits (suc n) n []
