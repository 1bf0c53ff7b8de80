-- ===== src/Raw/Pow2.antt =====
-- Rounding up to a power of two.
use native.Mathlib.Nat.{pow-le-pow_right, dvd-mul_right_of_dvd, dvd_refl, pow-suc}
use native.Mathlib.Decide.{dec_le}
use Prim.Native.Nat.{◌∣◌}
use libarena_rs.Common.{
  ℕ, zero, suc, ◌+◌, ◌*◌, ◌^◌, ◌≤◌, ◌<◌, ◌≡◌, refl, ◌⊎◌, inl, inr, arith, leb, Bool-cases, leb→le,
  le→leb,
}
use libarena_rs.Raw.{next_power_from, next_power_of_two}

-- Between powers of two, the order of the exponents is divisibility.
pub pow_dvd-pow : (j d : ℕ) → 2 ^ j ∣ 2 ^ (d + j)
pow_dvd-pow j zero = let e : 0 + j ≡ j = omega arith in rw e (dvd_refl (2 ^ j))
pow_dvd-pow j (suc d) =
    let e : suc d + j ≡ suc (d + j) = omega arith in
    rw (e, pow-suc) (dvd-mul_right_of_dvd (2 ^ j) (pow_dvd-pow j d) 2)

pub pow_pos : (k : ℕ) → 0 < 2 ^ k
pow_pos k = pow-le-pow_right {n = 2} (omega arith) {i = 0} {j = k} (omega arith)

pub exponent_le : (j k : ℕ) → 2 ^ j ≤ 2 ^ k → j ≤ k
exponent_le j k h = elim (dec_le j k) [
  | yes le ↦ le
  | no gt ↦
      let more : 2 ^ suc k ≤ 2 ^ j = pow-le-pow_right (omega arith) (omega arith) in
      absurd (omega (arith, pow-suc 2 k, pow_pos k))
]

-- The power found is the least one from the start.
pub record IsRoundedUp (n p : ℕ) : Type 0 where
  pub exponent : ℕ
  pub is_power : p ≡ 2 ^ exponent
  pub enough : n ≤ p
  pub least : (p ≡ 1) ⊎ (p < 2 * n)

next_power_from_lem :
    (left k n : ℕ)
    → n ≤ 2 ^ (left + k)
    → (2 ^ k ≡ 1) ⊎ (2 ^ k < 2 * n)
    → IsRoundedUp n (next_power_from (suc left) (2 ^ k) n)
unfolding next_power_from
next_power_from_lem zero k n h least =
    let e : 0 + k ≡ k = omega arith in
    let fits : n ≤ 2 ^ k = rw e at h in
    rw (le→leb n (2 ^ k) fits)
      (record { exponent = k; is_power = refl; enough = fits; least = least })
next_power_from_lem (suc left) k n h least = elim (Bool-cases (leb n (2 ^ k))) [
  | inl fits ↦
      rw fits (record { exponent = k; is_power = refl; enough = leb→le _ _ fits; least = least })
  | inr small ↦
      let e : suc left + k ≡ left + suc k = omega arith in
      rw (small, ← pow-suc 2 k)
        (next_power_from_lem left (suc k) n (rw e at h) (inr (ground (arith, pow-suc 2 k))))
]

-- For n up to 2 ^ 63, `next_power_of_two` is a power of two that is at least n and is either 1 or less
-- than 2 * n, so it is the least such power.
pub next_power_of_two_lem : (n : ℕ) → n ≤ 2 ^ 63 → IsRoundedUp n (next_power_of_two n)
unfolding next_power_of_two
next_power_of_two_lem n h = next_power_from_lem 63 0 n h (inl refl)
