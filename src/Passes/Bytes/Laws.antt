-- ===== src/Passes/Bytes/Laws.antt =====
-- Numbers and strings in bytes that are written and grown.
use libarena_rs.Common.{
  ℕ, zero, suc, ◌+◌, ◌*◌, ◌-◌, ◌/◌, ◌%◌, ◌^◌, ◌≤◌, ◌<◌, ◌≡◌, ◌⊎◌, refl, sym, ap, ◌∙◌, Bool, true,
  false, ◌&&◌, [], ◌∷◌, ◌++◌, arith, Text, ltb, leb, lt→ltb, length, length-append, All, inl, inr,
  if◌then◌else◌,
}
use native.Mathlib.Nat.{div-lt_iff_lt-mul}
use libarena_rs.Passes.Bytes.{
  Bytes, Error, struct_error, Result, ok, raised, ◌>>=◌, drop, take, read, written, unpack, pack,
  overwrite, until_nul, lead, decode_from, decode, point_bytes, encode,
}

-- ASCII, and no NUL.
abbrev pub IsPlain : ℕ → Type 0
IsPlain c = (0 < c) × (c < 128)

pub encode_plain : (s : Text) → All IsPlain s → encode s ≡ s
unfolding encode point_bytes
encode_plain [] h = refl
encode_plain (c ∷ s) ((_, low), h) = rw (lt→ltb c 128 low, encode_plain s h) refl

pub decode_plain : (s : Text) → All IsPlain s → decode s ≡ ok s
unfolding decode decode_from lead
decode_plain [] h = refl
decode_plain (c ∷ s) ((_, low), h) =
    let rest : decode_from zero 0 0 0 s ≡ ok s = decode_plain s h in
    rw (decode_from, lt→ltb c 128 low, rest) refl

pub until_nul_plain : (s more : Text) → All IsPlain s → until_nul (s ++ 0 ∷ more) ≡ ok s
unfolding until_nul
until_nul_plain [] more h = refl
until_nul_plain (zero ∷ s) more ((above, _), h) = absurd (omega (arith, above))
until_nul_plain (suc c ∷ s) more (_, h) = rw (until_nul_plain s more h) refl

pub Result-cases :
    {A : Type 0} (r : Result A) → ((e : Error) × (r ≡ raised e)) ⊎ ((a : A) × (r ≡ ok a))
Result-cases (ok a) = inr (a, refl)
Result-cases (raised e) = inl (e, refl)

pub ok_inj : {A : Type 0} {a b : A} → ok a ≡ ok b → b ≡ a
ok_inj h = cc

-- A chain that ends well, taken apart.
pub ok->>= :
    {A B : Type 0} (r : Result A) {f : A → Result B} {b : B}
    → r >>= f ≡ ok b
    → (a : A) × (r ≡ ok a) × (f a ≡ ok b)
ok->>= (ok a) h = (a, refl, h)
ok->>= (raised e) h = absurd (cc)

pub until_nul-append : (a b s : Bytes) → until_nul a ≡ ok s → until_nul (a ++ b) ≡ ok s
unfolding until_nul
until_nul-append [] b s h = absurd (cc)
until_nul-append (zero ∷ a) b s h = h
until_nul-append (suc c ∷ a) b s h =
    let (t, front, whole) = ok->>= (until_nul a) h in rw (until_nul-append a b t front) whole

pub drop-append : (n : ℕ) (a b : Bytes) → n ≤ length a → drop n (a ++ b) ≡ drop n a ++ b
drop-append zero a b h = refl
drop-append (suc n) [] b h = absurd (omega (arith, h))
drop-append (suc n) (c ∷ a) b h = drop-append n a b (omega (arith, h))

pub drop_all : (a b : Bytes) → drop (length a) (a ++ b) ≡ b
drop_all [] b = refl
drop_all (c ∷ a) b = drop_all a b

length-written : (w v : ℕ) → length (written w v) ≡ w
unfolding written
length-written zero v = refl
length-written (suc w) v = ap suc (length-written w (v / 256))

length-take : (n : ℕ) (s : Bytes) → n ≤ length s → length (take n s) ≡ n
length-take zero s h = refl
length-take (suc n) [] h = absurd (omega (arith, h))
length-take (suc n) (c ∷ s) h = ap suc (length-take n s (omega (arith, h)))

pub length-drop : (n : ℕ) (s : Bytes) → n ≤ length s → length (drop n s) + n ≡ length s
length-drop zero s h = omega arith
length-drop (suc n) [] h = absurd (omega (arith, h))
length-drop (suc n) (c ∷ s) h = omega (arith, length-drop n s (omega (arith, h)))

pub drop_nil : (n : ℕ) → drop n [] ≡ []
drop_nil zero = refl
drop_nil (suc n) = refl

pub drop_both : (m n : ℕ) (s : Bytes) → drop m (drop n s) ≡ drop (n + m) s
drop_both m zero s = ap (λ k. drop k s) (omega arith)
drop_both m (suc n) [] = drop_nil m ∙ sym (drop_nil (suc n + m))
drop_both m (suc n) (c ∷ s) =
    let e : suc (n + m) ≡ suc n + m = omega arith in drop_both m n s ∙ ap (λ k. drop k (c ∷ s)) e

pub drop_past : (m : ℕ) (a b : Bytes) → drop (length a + m) (a ++ b) ≡ drop m b
drop_past m [] b = ap (λ k. drop k b) (omega arith)
drop_past m (c ∷ a) b =
    let e : suc (length a) + m ≡ suc (length a + m) = omega arith in
    ap (λ k. drop k (c ∷ (a ++ b))) e ∙ drop_past m a b

chosen :
    {A : Type 0} (c : Bool) {a b : A}
    → (if c then ok a else raised struct_error) ≡ ok b
    → (b ≡ a) × (c ≡ true)
chosen true h = (cc, refl)
chosen false h = absurd (cc)

-- What `pack` gives when it gives bytes.
pub pack-ok :
    (w : ℕ) (buf : Bytes) (pos v : ℕ) (b : Bytes)
    → pack w buf pos v ≡ ok b
    → (b ≡ overwrite w buf pos v) × (pos + w ≤ length buf) × (v < 256 ^ w)
unfolding pack
pack-ok w buf pos v b h =
    let (e, sound) = chosen (ltb v (256 ^ w) && leb (pos + w) (length buf)) h in
    (e, ground (arith, sound), ground (arith, sound))

read_written : (w v : ℕ) (rest : Bytes) → v < 256 ^ w → read w (written w v ++ rest) ≡ ok v
unfolding read written
read_written zero v rest h = let e : 0 ≡ v = omega (arith, h) in ap ok e
read_written (suc w) v rest h =
    let e : v % 256 + 256 * (v / 256) ≡ v = omega arith in
    let low : v < 256 ^ w * 256 = omega (arith, h) in
    let small : v / 256 < 256 ^ w = (div-lt_iff_lt-mul (omega arith)).1 low in
    let high : read w (written w (v / 256) ++ rest) ≡ ok (v / 256) =
      read_written w (v / 256) rest small in
    rw high (ap ok e)

length-overwrite :
    (w : ℕ) (buf : Bytes) (pos v : ℕ)
    → pos + w ≤ length buf
    → length (overwrite w buf pos v) ≡ length buf
unfolding overwrite
length-overwrite w buf pos v h =
    let a = length-append (take pos buf) (written w v ++ drop (pos + w) buf) in
    let b = length-append (written w v) (drop (pos + w) buf) in
    let c = length-take pos buf (omega (arith, h)) in
    let d = length-written w v in
    let e = length-drop (pos + w) buf h in omega (arith, a, b, c, d, e)

pub length-pack :
    (w : ℕ) (buf : Bytes) (pos v : ℕ) (b : Bytes) → pack w buf pos v ≡ ok b → length b ≡ length buf
length-pack w buf pos v b h =
    let (e, inside, _) = pack-ok w buf pos v b h in
    ap length e ∙ length-overwrite w buf pos v inside

-- The bytes behind those that are written.
pub drop-pack :
    (w : ℕ) (buf : Bytes) (pos v : ℕ) (b : Bytes) (k : ℕ)
    → pack w buf pos v ≡ ok b
    → pos + w ≤ k
    → drop k b ≡ drop k buf
unfolding overwrite
drop-pack w buf pos v b k h behind =
    let (e, inside, _) = pack-ok w buf pos v b h in
    let at_pos : length (take pos buf) ≡ pos = length-take pos buf (omega (arith, inside)) in
    let in_front : length (written w v) ≡ w = length-written w v in
    let m = k - (pos + w) in
    let one : k ≡ length (take pos buf) + (w + m) = omega (arith, at_pos, behind) in
    let two : w + m ≡ length (written w v) + m = omega (arith, in_front) in
    ap (drop k) e
    ∙ ap (λ i. drop i (overwrite w buf pos v)) one
    ∙ drop_past (w + m) (take pos buf) _
    ∙ ap (λ i. drop i (written w v ++ drop (pos + w) buf)) two
    ∙ drop_past m (written w v) _
    ∙ drop_both m (pos + w) buf
    ∙ ap (λ i. drop i buf) (omega (arith, behind))

-- A number that is written is read back.
pub unpack-pack :
    (w : ℕ) (buf : Bytes) (pos v : ℕ) (b : Bytes) → pack w buf pos v ≡ ok b → unpack w b pos ≡ ok v
unfolding unpack overwrite
unpack-pack w buf pos v b h =
    let (e, inside, fits) = pack-ok w buf pos v b h in
    let at_pos : length (take pos buf) ≡ pos = length-take pos buf (omega (arith, inside)) in
    ap (λ s. read w (drop pos s)) e
    ∙ ap (λ i. read w (drop i (overwrite w buf pos v))) (sym at_pos)
    ∙ ap (read w) (drop_all (take pos buf) _)
    ∙ read_written w v _ fits

read-append : (w v : ℕ) (a b : Bytes) → read w a ≡ ok v → read w (a ++ b) ≡ ok v
unfolding read
read-append zero v a b h = h
read-append (suc w) v [] b h = absurd (cc)
read-append (suc w) v (c ∷ a) b h =
    let (high, reads, e) = ok->>= (read w a) h in
    let again : read w (a ++ b) ≡ ok high = read-append w high a b reads in rw again e

pub unpack-append :
    (w p v : ℕ) (a b : Bytes) → p ≤ length a → unpack w a p ≡ ok v → unpack w (a ++ b) p ≡ ok v
unfolding unpack
unpack-append w p v a b h e = ap (read w) (drop-append p a b h) ∙ read-append w v (drop p a) b e
