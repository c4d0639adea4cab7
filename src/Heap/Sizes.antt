-- ===== src/Heap/Sizes.antt =====
-- kernel/mem/alloc.c: the size class of a request.
use native.Mathlib.Nat.{pow-suc, pow-le-pow_right}
use tomat_os.Base.{ℕ, suc, ◌+◌, ◌-◌, ◌*◌, ◌^◌, ◌≤◌, ◌<◌, ◌≡◌, none, some, arith, lt→ltb, not-ltb}
use tomat_os.Base.Bits.{count_leading_zeros, clz-pow, log-pow, pow_lt_inv}
use tomat_os.Heap.{shift_one, at_least_8, aligned_size, class_order, region_count}
use tomat_os.Heap.Class.{block_bytes}

-- The power of two that `mem_alloc` computes.
size_steps :
    (size : ℕ)
    → size < 2 ^ 64
    → (k : ℕ) × (64 - count_leading_zeros 64 (at_least_8 size - 1) ≡ k)
      × (3 ≤ k)
      × (k < 65)
      × (at_least_8 size ≤ 2 ^ k)
      × (2 ^ k ≤ 2 * (at_least_8 size - 1))
size_steps size h =
    let y : ℕ = at_least_8 size - 1 in
    let y_lo : 7 ≤ y = ground arith in
    let y_hi : y < 2 ^ 64 = ground arith in
    let (k, e, kw, lo, hi) = clz-pow 64 y y_hi (omega arith) in
    (k, e, pow_lt_inv 2 k (omega arith), omega arith, omega arith, hi)

eight : (m : ℕ) → 8 ≤ 2 ^ (m + 3)
eight m = pow-le-pow_right {n = 2} (omega arith) {i = 3} (omega arith)

least : (k m s : ℕ) → 2 ^ k ≤ 2 * (s - 1) → s ≤ 2 ^ (m + 3) → k - 3 ≤ m
least k m s hi fits =
    let up : 2 ^ suc (m + 3) ≡ 2 ^ (m + 3) * 2 = pow-suc 2 (m + 3) in
    omega (arith, pow_lt_inv k (suc (m + 3)) (omega (arith, eight m)))

class_order-pow : (k : ℕ) → k < 64 → class_order (2 ^ k) ≡ k - 3
unfolding class_order
class_order-pow k h = omega (arith, log-pow 64 k h)

-- The class of a size, and that it is the least.
abbrev pub IsSizeClass : (size order : ℕ) → Type 0
IsSizeClass size order =
    (order < region_count)
    × (size ≤ block_bytes order)
    × ((m : ℕ) → size ≤ block_bytes m → order ≤ m)

pub size_class :
    (size : ℕ)
    → size ≤ 2 ^ 26
    → (order : ℕ) × (aligned_size (at_least_8 size) ≡ some (block_bytes order))
      × (class_order (block_bytes order) ≡ order)
      × IsSizeClass size order
unfolding aligned_size shift_one
size_class size h =
    let (k, e, three, w, lo, hi) = size_steps size (omega arith) in
    let y_hi : at_least_8 size - 1 < 2 ^ 26 = ground arith in
    let k_hi : k < 27 = pow_lt_inv k 27 (omega arith) in
    let back : k - 3 + 3 ≡ k = omega arith in
    (
      k - 3,
      rw (e, back, lt→ltb k 31 (omega arith)),
      (let order : class_order (2 ^ k) ≡ k - 3 = class_order-pow k (omega arith) in rw back order),
      (
        omega arith,
        (let fits : size ≤ 2 ^ k = ground arith in rw back fits),
        λ m fits. least k m (at_least_8 size) hi (ground (arith, eight m)),
      ),
    )

-- A size that the shift still holds, but no class.
pub size_too_big :
    (size : ℕ)
    → 2 ^ 26 < size
    → size ≤ 2 ^ 30
    → (aligned : ℕ) × (aligned_size (at_least_8 size) ≡ some aligned)
      × (region_count ≤ class_order aligned)
unfolding aligned_size shift_one
size_too_big size lo hi =
    let (k, e, three, w, above, below) = size_steps size (omega arith) in
    let y : at_least_8 size ≡ size = ground arith in
    let k_hi : k < 31 = pow_lt_inv k 31 (omega arith) in
    let k_lo : 26 < k = pow_lt_inv 26 k (omega arith) in
    (2 ^ k, rw (e, lt→ltb k 31 k_hi), omega (arith, class_order-pow k (omega arith)))

-- A size whose shift leaves the range of `int`.
pub size_undefined :
    (size : ℕ) → 2 ^ 30 < size → size < 2 ^ 64 → aligned_size (at_least_8 size) ≡ none
unfolding aligned_size shift_one
size_undefined size lo hi =
    let (k, e, three, w, above, below) = size_steps size hi in
    let y : at_least_8 size ≡ size = ground arith in
    let k_lo : 30 < k = pow_lt_inv 30 k (omega arith) in rw (e, not-ltb k 31 (omega arith))
