-- ===== src/Passes/Bytes.antt =====
-- What btf_rename.py uses of Python's bytes: slices, little-endian numbers, strings that end in a NUL,
-- UTF-8. An exception is a value.
pub mod Laws
pub mod Bounds
use libarena_rs.Common.{
  ℕ, zero, suc, ◌+◌, ◌*◌, ◌-◌, ◌/◌, ◌%◌, ◌^◌, Bool, true, false, ◌&&◌, Option, none, some, List, [],
  ◌∷◌, ◌++◌, Text, ltb, leb, ◌==◌, if◌then◌else◌, length,
}

abbrev pub Bytes : Type 0
Bytes = List ℕ

pub data Error : Type 0 where
  struct_error value_error key_error index_error assertion_error decode_error : Error

pub data Result (A : Type 0) : Type 0 where
  ok : A → Result A
  raised : Error → Result A

module _ {A B : Type 0} where
  infixl 5 ◌>>=◌
  abbrev pub ◌>>=◌ : Result A → (A → Result B) → Result B
  ok a >>= f = f a
  raised e >>= f = raised e

-- `s[n:]` and `s[:n]`.
abbrev pub drop : ℕ → Bytes → Bytes
drop zero s = s
drop (suc n) [] = []
drop (suc n) (c ∷ s) = drop n s

abbrev pub take : ℕ → Bytes → Bytes
take zero s = []
take (suc n) [] = []
take (suc n) (c ∷ s) = c ∷ take n s

-- `s[i]`
abbrev pub byte_at : Bytes → ℕ → Result ℕ
byte_at s i = elim (drop i s) [ [] ↦ raised index_error | c ∷ _ ↦ ok c ]

-- A number of `w` bytes, the lowest first.
unfoldable pub read : ℕ → Bytes → Result ℕ
read zero s = ok 0
read (suc w) [] = raised struct_error
read (suc w) (c ∷ s) = read w s >>= λ high. ok (c + 256 * high)

unfoldable pub written : ℕ → ℕ → Bytes
written zero v = []
written (suc w) v = (v % 256) ∷ written w (v / 256)

-- `struct.unpack_from`, of one number.
unfoldable pub unpack : ℕ → Bytes → ℕ → Result ℕ
unfolding read
unpack w buf pos = read w (drop pos buf)

unfoldable pub overwrite : ℕ → Bytes → ℕ → ℕ → Bytes
unfolding written
overwrite w buf pos v = take pos buf ++ (written w v ++ drop (pos + w) buf)

-- `struct.pack_into`: a number that does not fit, and a place outside, are errors.
unfoldable pub pack : ℕ → Bytes → ℕ → ℕ → Result Bytes
unfolding overwrite
pack w buf pos v =
    if ltb v (256 ^ w) && leb (pos + w) (length buf)
    then ok (overwrite w buf pos v)
    else raised struct_error

-- The bytes in front of the first NUL.
unfoldable pub until_nul : Bytes → Result Bytes
until_nul [] = raised value_error
until_nul (zero ∷ s) = ok []
until_nul (suc c ∷ s) = until_nul s >>= λ t. ok (suc c ∷ t)

-- What the first byte of a code point says: how many bytes follow, its own bits, and the range of the
-- second byte.
lead : ℕ → Option (ℕ × ℕ × ℕ × ℕ)
lead a =
    if ltb a 128
    then some (0, a, 128, 191)
    else if ltb a 194
    then none
    else if ltb a 224
    then some (1, a - 192, 128, 191)
    else if a == 224
    then some (2, 0, 160, 191)
    else if a == 237
    then some (2, 13, 128, 159)
    else if ltb a 240
    then some (2, a - 224, 128, 191)
    else if a == 240
    then some (3, 0, 144, 191)
    else if ltb a 244
    then some (3, a - 240, 128, 191)
    else if a == 244
    then some (3, 4, 128, 143)
    else none

-- Where `need` bytes of a code point are still to come, the next one in a range.
decode_from : ℕ → ℕ → ℕ → ℕ → Bytes → Result Text
unfolding lead
decode_from zero bits lo hi [] = ok []
decode_from (suc need) bits lo hi [] = raised decode_error
decode_from zero bits lo hi (a ∷ s) = elim (lead a) [
  | none ↦ raised decode_error
  | some (zero, point, _, _) ↦ decode_from zero 0 0 0 s >>= λ t. ok (point ∷ t)
  | some (suc need, start, low, high) ↦ decode_from (suc need) start low high s
]
decode_from (suc zero) bits lo hi (a ∷ s) = elim (leb lo a && leb a hi) [
  | false ↦ raised decode_error
  | true ↦ decode_from zero 0 0 0 s >>= λ t. ok ((64 * bits + a % 64) ∷ t)
]
decode_from (suc (suc need)) bits lo hi (a ∷ s) = elim (leb lo a && leb a hi) [
  | false ↦ raised decode_error
  | true ↦ decode_from (suc need) (64 * bits + a % 64) 128 191 s
]

-- `bytes.decode`
unfoldable pub decode : Bytes → Result Text
unfolding decode_from
decode s = decode_from zero 0 0 0 s

point_bytes : ℕ → Bytes
point_bytes c =
    if ltb c 128
    then c ∷ []
    else if ltb c 2048
    then (192 + c / 64) ∷ (128 + c % 64) ∷ []
    else if ltb c 65536
    then (224 + c / 4096) ∷ (128 + c / 64 % 64) ∷ (128 + c % 64) ∷ []
    else (240 + c / 262144) ∷ (128 + c / 4096 % 64) ∷ (128 + c / 64 % 64) ∷ (128 + c % 64) ∷ []

-- `str.encode`
unfoldable pub encode : Text → Bytes
unfolding point_bytes
encode [] = []
encode (c ∷ s) = point_bytes c ++ encode s
