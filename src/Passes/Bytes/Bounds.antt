-- ===== src/Passes/Bytes/Bounds.antt =====
-- Where numbers are read and written in bytes, and what lies in front.
use libarena_rs.Common.{
  ℕ, zero, suc, ◌+◌, ◌*◌, ◌≤◌, ◌<◌, ◌≡◌, refl, sym, ap, ◌∙◌, [], ◌∷◌, ◌++◌, arith, length,
}
use libarena_rs.Passes.Bytes.{Bytes, ok, ◌>>=◌, drop, take, read, unpack, pack, overwrite}
use libarena_rs.Passes.Bytes.Laws.{ok->>=, pack-ok}

read-take : (w n : ℕ) (s : Bytes) → w ≤ n → read w (take n s) ≡ read w s
unfolding read
read-take zero n s h = refl
read-take (suc w) zero s h = absurd (omega (arith, h))
read-take (suc w) (suc n) [] h = refl
read-take (suc w) (suc n) (c ∷ s) h =
    ap (λ r. r >>= λ high. ok (c + 256 * high)) (read-take w n s (omega (arith, h)))

-- Numbers in front of a place, of bytes that are the same up to it.
read_front :
    (w p n : ℕ) (a b : Bytes)
    → take n a ≡ take n b
    → p + w ≤ n
    → read w (drop p a) ≡ read w (drop p b)
read_front w zero n a b e h =
    sym (read-take w n a (omega (arith, h))) ∙ ap (read w) e ∙ read-take w n b (omega (arith, h))
read_front w (suc p) zero a b e h = absurd (omega (arith, h))
read_front w (suc p) (suc n) [] [] e h = refl
read_front w (suc p) (suc n) [] (d ∷ b) e h = absurd (cc)
read_front w (suc p) (suc n) (c ∷ a) [] e h = absurd (cc)
read_front w (suc p) (suc n) (c ∷ a) (d ∷ b) e h = read_front w p n a b (cc) (omega (arith, h))

take_front : (n : ℕ) (a b : Bytes) → n ≤ length a → take n (take n a ++ b) ≡ take n a
take_front zero a b h = refl
take_front (suc n) [] b h = absurd (omega (arith, h))
take_front (suc n) (c ∷ a) b h = ap (λ s. c ∷ s) (take_front n a b (omega (arith, h)))

-- The numbers in front of what is written.
pub unpack-before :
    (w : ℕ) (buf : Bytes) (pos v : ℕ) (b : Bytes) (n p : ℕ)
    → pack w buf pos v ≡ ok b
    → p + n ≤ pos
    → unpack n b p ≡ unpack n buf p
unfolding unpack overwrite
unpack-before w buf pos v b n p h before =
    let (e, inside, _) = pack-ok w buf pos v b h in
    read_front n p pos b buf (ap (take pos) e ∙ take_front pos buf _ (omega (arith, inside))) before

read-bound : (w v : ℕ) (s : Bytes) → read w s ≡ ok v → w ≤ length s
unfolding read
read-bound zero v s h = omega arith
read-bound (suc w) v [] h = absurd (cc)
read-bound (suc w) v (c ∷ s) h =
    let (high, reads, e) = ok->>= (read w s) h in
    let rest = read-bound w high s reads in omega (arith, rest)

bound_behind : (p w : ℕ) (s : Bytes) → w ≤ length (drop p s) → 0 < w → p + w ≤ length s
bound_behind zero w s h some_bytes = omega (arith, h)
bound_behind (suc p) w [] h some_bytes = absurd (omega (arith, h, some_bytes))
bound_behind (suc p) w (c ∷ s) h some_bytes =
    let rest = bound_behind p w s h some_bytes in omega (arith, rest)

-- A number that is read lies inside.
pub unpack-inside : (w p v : ℕ) (s : Bytes) → unpack w s p ≡ ok v → 0 < w → p + w ≤ length s
unfolding unpack
unpack-inside w p v s h some_bytes = bound_behind p w s (read-bound w v (drop p s) h) some_bytes

-- The bytes in front of what is written.
pub take-pack :
    (w : ℕ) (buf : Bytes) (pos v : ℕ) (b : Bytes)
    → pack w buf pos v ≡ ok b
    → take pos b ≡ take pos buf
unfolding overwrite
take-pack w buf pos v b h =
    let (e, inside, _) = pack-ok w buf pos v b h in
    ap (take pos) e ∙ take_front pos buf _ (omega (arith, inside))

pub take_less : (k n : ℕ) (a b : Bytes) → take n a ≡ take n b → k ≤ n → take k a ≡ take k b
take_less zero n a b e h = refl
take_less (suc k) zero a b e h = absurd (omega (arith, h))
take_less (suc k) (suc n) [] [] e h = refl
take_less (suc k) (suc n) [] (d ∷ b) e h = absurd (cc)
take_less (suc k) (suc n) (c ∷ a) [] e h = absurd (cc)
take_less (suc k) (suc n) (c ∷ a) (d ∷ b) e h =
    let rest : take k a ≡ take k b = take_less k n a b (cc) (omega (arith, h)) in
    let same : c ≡ d = cc in ap (λ x. x ∷ take k a) same ∙ ap (λ s. d ∷ s) rest

pub take-append : (k : ℕ) (a b : Bytes) → k ≤ length a → take k (a ++ b) ≡ take k a
take-append zero a b h = refl
take-append (suc k) [] b h = absurd (omega (arith, h))
take-append (suc k) (c ∷ a) b h = ap (λ s. c ∷ s) (take-append k a b (omega (arith, h)))

pub take_all : (a : Bytes) → take (length a) a ≡ a
take_all [] = refl
take_all (c ∷ a) = ap (λ s. c ∷ s) (take_all a)
