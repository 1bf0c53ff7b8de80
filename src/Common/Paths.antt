-- ===== src/Common/Paths.antt =====
-- `Path::parent`, `file_stem` and `with_extension` on Unix, of paths that do not end in a `.`
-- component.
use Prim.Native.Nat.{ℕ}
use mathlib.Core.Path.{◌≡◌, refl, sym, ap, ◌∙◌}
use mathlib.Core.Bool.{Bool, true, false, not, ◌&&◌, ◌||◌}
use mathlib.Core.Option.{Option, none, some}
use mathlib.Core.List.{[], ◌∷◌, ◌++◌, append_assoc}
use mathlib.Core.Logic.{inl, inr}
use native.Mathlib.Omega.{arith}
use libarena_rs.Common.Checks.{◌==◌, if◌then◌else◌, Bool-cases}
use libarena_rs.Common.Lists.{is_nil, last, All}
use libarena_rs.Common.Strings.{Text, codes, text_eq, join_path, starts_with}

abbrev pub is_slash : ℕ → Bool
is_slash c = c == b'/'

-- A path without the separators at its end.
unfoldable pub drop_slashes : Text → Text
drop_slashes [] = []
drop_slashes (c ∷ s) =
    let rest = drop_slashes s in if is_nil rest && is_slash c then [] else c ∷ rest

-- Everything up to the last separator, and what is behind it.
unfoldable pub cut : Text → Text × Text
cut [] = ([], [])
cut (c ∷ s) = let (d, n) = cut s in if is_slash c || not (is_nil d) then (c ∷ d, n) else ([], c ∷ n)

-- `Path::parent`.
unfoldable pub parent : Text → Option Text
unfolding drop_slashes cut
parent path =
    let t = drop_slashes path in
    let d = (cut t).0 in
    if is_nil t then none else some (if is_nil (drop_slashes d) then d else drop_slashes d)

-- What is in front of the last dot of a name, if something is; else the name.
before_dot : Text → Option Text
before_dot [] = none
before_dot (c ∷ s) = elim (before_dot s) [
  | some b ↦ some (c ∷ b)
  | none ↦ if c == b'.' then some [] else none
]

unfoldable pub stem : Text → Text
unfolding before_dot
stem name = elim (before_dot name) [ none ↦ name | some b ↦ if is_nil b then name else b ]

unfoldable pub is_file_name : Text → Bool
unfolding text_eq
is_file_name n = not (is_nil n || text_eq n (codes ".") || text_eq n (codes ".."))

-- `Path::file_stem`.
unfoldable pub file_stem : Text → Option Text
unfolding drop_slashes cut is_file_name stem
file_stem path =
    let n = (cut (drop_slashes path)).1 in if is_file_name n then some (stem n) else none

-- `Path::with_extension`, of an extension that is not empty.
unfoldable pub with_extension : Text → Text → Text
unfolding drop_slashes cut is_file_name stem
with_extension path ext =
    let (d, n) = cut (drop_slashes path) in
    if is_file_name n then d ++ (stem n ++ b'.' ∷ ext) else path

-- A text with no separator in it.
abbrev pub IsName : Text → Type 0
IsName = All (λ c. is_slash c ≡ false)

cut_name : (n : Text) → IsName n → cut n ≡ ([], n)
unfolding cut
cut_name [] h = refl
cut_name (c ∷ n) (hc, h) = rw (cut_name n h, hc)

is_nil-append : (d n : Text) → is_nil n ≡ false → is_nil (d ++ n) ≡ false
is_nil-append [] n e = e
is_nil-append (c ∷ d) n e = refl

last_snoc : (d : Text) (x y : ℕ) → last (d ++ x ∷ []) y ≡ x
last_snoc [] x y = refl
last_snoc (c ∷ d) x y = last_snoc d x c

-- A name behind a directory that ends in a separator.
cut-append :
    (c : ℕ) (d n : Text) → IsName n → is_slash (last d c) ≡ true → cut ((c ∷ d) ++ n) ≡ (c ∷ d, n)
unfolding cut
cut-append c [] n h e = rw (cut_name n h, e)
cut-append c (x ∷ d) n h e = rw (cut-append x d n h e) (ground arith)

drop_slashes-append :
    (d n : Text) → drop_slashes n ≡ n → is_nil n ≡ false → drop_slashes (d ++ n) ≡ d ++ n
unfolding drop_slashes
drop_slashes-append [] n h e = h
drop_slashes-append (c ∷ d) n h e = rw (drop_slashes-append d n h e, is_nil-append d n e)

drop_slashes_name : (n : Text) → IsName n → drop_slashes n ≡ n
unfolding drop_slashes
drop_slashes_name [] h = refl
drop_slashes_name (c ∷ n) (hc, h) = rw (drop_slashes_name n h, hc) (ground arith)

-- A directory as the front of the paths of its entries.
abbrev pub as_front : Text → Text
as_front d = if is_nil d || (last d 0 == b'/') then d else d ++ b'/' ∷ []

pub join_path-front :
    (d n : Text) → starts_with (codes "/") n ≡ false → join_path d n ≡ as_front d ++ n
unfolding join_path
join_path-front d n h = rw h (elim (Bool-cases (is_nil d || (last d 0 == b'/'))) [
  | inl e ↦ rw e
  | inr e ↦ rw (e, append_assoc)
])

cut_front : (d n : Text) → IsName n → cut (as_front d ++ n) ≡ (as_front d, n)
cut_front [] n h = cut_name n h
cut_front (c ∷ d) n h = elim (Bool-cases (last d c == b'/')) [
  | inl e ↦ rw e (cut-append c d n h e)
  | inr e ↦ rw e (cut-append c (d ++ b'/' ∷ []) n h (rw last_snoc))
]

module _ (d n : Text) (name : IsName n) (proper : is_file_name n ≡ true) where
  nonempty : is_nil n ≡ false
  unfolding is_file_name
  nonempty = ground arith

  whole : drop_slashes (as_front d ++ n) ≡ as_front d ++ n
  whole = drop_slashes-append (as_front d) n (drop_slashes_name n name) nonempty

  -- The stem of an entry of a directory is that of its name.
  pub file_stem-front : file_stem (as_front d ++ n) ≡ some (stem n)
  unfolding file_stem
  file_stem-front = rw (file_stem, whole, cut_front d n name, proper)

  -- An entry with another extension stands in the same directory.
  pub with_extension-front :
      (ext : Text) → with_extension (as_front d ++ n) ext ≡ as_front d ++ (stem n ++ b'.' ∷ ext)
  unfolding with_extension
  with_extension-front ext = rw (with_extension, whole, cut_front d n name, proper)

last-append : (x d : Text) (c y : ℕ) → last (x ++ c ∷ d) y ≡ last d c
last-append [] d c y = refl
last-append (z ∷ x) d c y = last-append x d c z

-- A directory below another one, in front of the paths of its entries.
as_front-append :
    (x d : Text) (c : ℕ)
    → is_slash (last d c) ≡ false
    → as_front (x ++ c ∷ d) ≡ x ++ c ∷ (d ++ b'/' ∷ [])
as_front-append x d c h =
    rw (is_nil-append x (c ∷ d) refl, last-append x d c 0, h) (append_assoc x (c ∷ d) (b'/' ∷ []))

-- The stem of a file in a directory below.
pub file_stem-below :
    (base d n : Text) (c : ℕ)
    → is_slash c ≡ false
    → is_slash (last d c) ≡ false
    → IsName n
    → is_file_name n ≡ true
    → file_stem (join_path base (c ∷ (d ++ b'/' ∷ n))) ≡ some (stem n)
unfolding join_path starts_with
file_stem-below base d n c hc hd name proper =
    ap file_stem (
      join_path-front base (c ∷ (d ++ b'/' ∷ n)) (ground (arith, hc))
      ∙ sym (
          ap (λ z. z ++ n) (as_front-append (as_front base) d c hd)
          ∙ append_assoc (as_front base) (c ∷ (d ++ b'/' ∷ [])) n
          ∙ ap (λ z. as_front base ++ c ∷ z) (append_assoc d (b'/' ∷ []) n)))
    ∙ file_stem-front (as_front base ++ c ∷ d) n name proper

-- Joining below a directory and joining a path that begins with it.
pub join_path_assoc :
    (base d n : Text) (c : ℕ)
    → is_slash c ≡ false
    → is_slash (last d c) ≡ false
    → starts_with (codes "/") n ≡ false
    → join_path (join_path base (c ∷ d)) n ≡ join_path base (join_path (c ∷ d) n)
unfolding starts_with
join_path_assoc base d n c hc hd relative =
    join_path-front (join_path base (c ∷ d)) n relative
    ∙ ap (λ x. as_front x ++ n) (join_path-front base (c ∷ d) (ground (arith, hc)))
    ∙ ap (λ x. x ++ n) (as_front-append (as_front base) d c hd)
    ∙ append_assoc (as_front base) (c ∷ (d ++ b'/' ∷ [])) n
    ∙ sym (join_path-front base (c ∷ (d ++ b'/' ∷ []) ++ n) (ground (arith, hc)))
    ∙ ap (join_path base)
        (sym (join_path-front (c ∷ d) n relative ∙ ap (λ x. x ++ n) (as_front-append [] d c hd)))
