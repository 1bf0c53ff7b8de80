-- ===== src/Common/Strings.antt =====
-- Rust strings and paths as lists of Unicode scalar values, with the functions of the standard
-- library that the program calls on them. Comparing scalar values in order is comparing UTF-8 bytes.
use Prim.Native.Nat.{ℕ}
use Prim.Native.Char.{code}
use Prim.Native.String.{String}
use mathlib.Core.Path.{◌≡◌, refl}
use mathlib.Core.Logic.{◌↔◌}
use mathlib.Core.Bool.{Bool, true, false, ◌&&◌, ◌||◌}
use mathlib.Core.Option.{Option, none, some}
use mathlib.Core.List.{List, [], ◌∷◌, ◌++◌}
use native.Mathlib.Omega.{arith}
use libarena_rs.Common.Checks.{◌==◌, if◌then◌else◌}
use libarena_rs.Common.Lists.{last, is_nil}

abbrev pub Text : Type 0
Text = List ℕ

-- A literal of the source.
abbrev pub codes : String → Text
codes String.[] = []
codes (String.◌∷◌ c s) = code c ∷ codes s

unfoldable pub text_eq : Text → Text → Bool
text_eq [] [] = true
text_eq [] (y ∷ ys) = false
text_eq (x ∷ xs) [] = false
text_eq (x ∷ xs) (y ∷ ys) = (x == y) && text_eq xs ys

pub text_eq_iff : (a b : Text) → (text_eq a b ≡ true) ↔ (a ≡ b)
unfolding text_eq
text_eq_iff [] [] = (λ _. refl, λ _. refl)
text_eq_iff [] (y ∷ ys) = (λ h. cc, λ h. cc)
text_eq_iff (x ∷ xs) [] = (λ h. cc, λ h. cc)
text_eq_iff (x ∷ xs) (y ∷ ys) = ground (arith, text_eq_iff xs ys)

pub text_eq_refl : (a : Text) → text_eq a a ≡ true
text_eq_refl a = (text_eq_iff a a).1 refl

unfoldable pub contains : List Text → Text → Bool
contains [] a = false
contains (x ∷ xs) a = text_eq x a || contains xs a

-- One of a few words.
abbrev pub among : List Text → Text → Bool
among [] a = false
among (x ∷ xs) a = text_eq a x || among xs a

-- `str::strip_prefix`.
unfoldable pub strip_prefix : Text → Text → Option Text
strip_prefix [] s = some s
strip_prefix (p ∷ ps) [] = none
strip_prefix (p ∷ ps) (c ∷ s) = let rest = strip_prefix ps s in if p == c then rest else none

-- `starts_with`, of strings and of byte slices.
unfoldable pub starts_with : Text → Text → Bool
starts_with [] s = true
starts_with (p ∷ ps) [] = false
starts_with (p ∷ ps) (c ∷ s) = (p == c) && starts_with ps s

pub strip_prefix-append : (p s : Text) → strip_prefix p (p ++ s) ≡ some s
unfolding strip_prefix
strip_prefix-append [] s = refl
strip_prefix-append (c ∷ p) s = ground (arith, strip_prefix-append p s)

pub starts_with-strip_prefix :
    (p s r : Text) → strip_prefix p s ≡ some r → (starts_with p s ≡ true) × (s ≡ p ++ r)
unfolding strip_prefix starts_with
starts_with-strip_prefix [] s r h = ground arith
starts_with-strip_prefix (p ∷ ps) [] r h = cc
starts_with-strip_prefix (p ∷ ps) (c ∷ s) r h = ground (arith, starts_with-strip_prefix ps s r)

-- `Path::join` on Unix: an absolute path replaces, and a separator is put in where none stands.
unfoldable pub join_path : Text → Text → Text
unfolding starts_with
join_path base name =
    if starts_with (codes "/") name
    then name
    else if is_nil base || (last base 0 == b'/')
    then base ++ name
    else base ++ b'/' ∷ name
