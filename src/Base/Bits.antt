-- ===== src/Base/Bits.antt =====
-- The compiler's count of leading zeros, by the length of a number in bits.
use native.Mathlib.Nat.{pow-suc, pow-le-pow_right}
use tomat_os.Base.{
  ℕ, zero, suc, ◌-◌, ◌*◌, ◌/◌, ◌^◌, ◌≤◌, ◌<◌, ◌≡◌, refl, false, inl, inr, arith, ◌==◌, Bool-cases,
  if◌then◌else◌, dec_le,
}

-- The length of `x` in a word of `width` bits.
unfoldable pub bit_length : ℕ → ℕ → ℕ
bit_length zero x = 0
bit_length (suc width) x = if x == 0 then 0 else suc (bit_length width (x / 2))

-- `__builtin_clz` at 32 bits and `__builtin_clzl` at 64.
unfoldable pub count_leading_zeros : ℕ → ℕ → ℕ
unfolding bit_length
count_leading_zeros width x = width - bit_length width x

pub bit_length-le : (w x : ℕ) → bit_length w x ≤ w
unfolding bit_length
bit_length-le zero x = omega arith
bit_length-le (suc w) x = ground (arith, bit_length-le w (x / 2))

pub bit_length-zero : (w : ℕ) → bit_length w 0 ≡ 0
unfolding bit_length
bit_length-zero zero = refl
bit_length-zero (suc w) = refl

pub lt-pow-bit_length : (w x : ℕ) → x < 2 ^ w → x < 2 ^ bit_length w x
unfolding bit_length
lt-pow-bit_length zero x h = h
lt-pow-bit_length (suc w) x h = elim (Bool-cases (x == 0)) [
  | inl e ↦ rw e (ground arith)
  | inr e ↦ rw e (
      omega (
        arith,
        pow-suc 2 w,
        pow-suc 2 (bit_length w (x / 2)),
        lt-pow-bit_length w (x / 2) (omega (arith, pow-suc 2 w)),
      ))
]

pub pow-bit_length-le : (w x : ℕ) → 0 < x → 2 ^ bit_length w x ≤ 2 * x
unfolding bit_length
pow-bit_length-le zero x h = omega arith
pow-bit_length-le (suc w) x h = elim (Bool-cases (x / 2 == 0)) [
  | inl e ↦
      let nz : (x == 0) ≡ false = ground arith in
      let half : x / 2 ≡ 0 = ground arith in rw (nz, half, bit_length-zero w) (omega arith)
  | inr e ↦
      let nz : (x == 0) ≡ false = ground arith in
      rw nz (
        omega (arith, pow-suc 2 (bit_length w (x / 2)), pow-bit_length-le w (x / 2) (ground arith)))
]

pub pow-pos : (k : ℕ) → 0 < 2 ^ k
pow-pos zero = omega arith
pow-pos (suc k) = omega (arith, pow-suc 2 k, pow-pos k)

-- What the allocators compute: the power of two that is the least one above `y`, and its logarithm.
pub clz-pow :
    (w y : ℕ)
    → y < 2 ^ w
    → 0 < y
    → (k : ℕ) × (w - count_leading_zeros w y ≡ k) × (k ≤ w) × (y < 2 ^ k) × (2 ^ k ≤ 2 * y)
unfolding count_leading_zeros
clz-pow w y h pos = (
  bit_length w y,
  omega (arith, bit_length-le w y),
  bit_length-le w y,
  lt-pow-bit_length w y h,
  pow-bit_length-le w y pos,
)

pub bit_length-pow : (w k : ℕ) → k < w → bit_length w (2 ^ k) ≡ suc k
unfolding bit_length
bit_length-pow zero k h = elim h [ ]
bit_length-pow (suc w) zero h = rw (bit_length-zero w)
bit_length-pow (suc w) (suc k) h =
    let half : 2 ^ suc k / 2 ≡ 2 ^ k = omega (arith, pow-suc 2 k) in
    let nz : (2 ^ suc k == 0) ≡ false = ground (arith, pow-suc 2 k, pow-pos k) in
    rw (nz, half, bit_length-pow w k (omega arith))

pub log-pow : (w k : ℕ) → k < w → w - count_leading_zeros w (2 ^ k) ≡ suc k
unfolding count_leading_zeros
log-pow w k h = omega (arith, bit_length-pow w k h)

-- An exponent is bounded through its power.
pub pow_lt_inv : (k m : ℕ) → 2 ^ k < 2 ^ m → k < m
pow_lt_inv k m h = elim (dec_le m k) [
  | yes le ↦ absurd (omega (arith, pow-le-pow_right {n = 2} (omega arith) le))
  | no gt ↦ omega arith
]
