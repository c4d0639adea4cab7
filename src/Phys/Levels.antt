-- ===== src/Phys/Levels.antt =====
-- kernel/mem/phys.c: the level of the smallest block that holds a size.
use native.Mathlib.Nat.{pow-suc, pow-le-pow_right}
use tomat_os.Base.{
  ℕ, suc, ◌+◌, ◌-◌, ◌*◌, ◌^◌, ◌≤◌, ◌<◌, ◌≡◌, ap, Option, none, some, arith, ltb, not-ltb, lt→ltb,
  if◌then◌else◌,
}
use tomat_os.Base.Bits.{count_leading_zeros, clz-pow, log-pow, pow_lt_inv}
use tomat_os.Phys.Blocks.{block_size}
use tomat_os.Phys.Region.{buddy_level_count, buddy_first_level}

abbrev pub buddy_top_level_size : ℕ
buddy_top_level_size = 2 ^ (buddy_level_count - 1 + buddy_first_level)

abbrev at_least_16 : ℕ → ℕ
at_least_16 size = if ltb size 16 then 16 else size

abbrev round_up : ℕ → ℕ
round_up size = 2 ^ (32 - count_leading_zeros 32 (size - 1))

-- The size is an `uint32_t`; `none` is -1.
unfoldable pub get_level_by_size : ℕ → Option ℕ
get_level_by_size size =
    if ltb buddy_top_level_size size
    then none
    else some (32 - count_leading_zeros 32 (round_up (at_least_16 size)) - 1 - buddy_first_level)

level_value : (k : ℕ) → k < 28 → 32 - count_leading_zeros 32 (2 ^ k) - 1 - 4 ≡ k - 4
level_value k h = omega (arith, log-pow 32 k (omega arith))

sixteen : (m : ℕ) → 16 ≤ 2 ^ (m + 4)
sixteen m = pow-le-pow_right {n = 2} (omega arith) {i = 4} (omega arith)

level_steps :
    (size : ℕ)
    → size ≤ buddy_top_level_size
    → (k : ℕ) × (get_level_by_size size ≡ some (k - 4))
      × (4 ≤ k)
      × (k < 28)
      × (at_least_16 size ≤ 2 ^ k)
      × (2 ^ k ≤ 2 * (at_least_16 size - 1))
unfolding get_level_by_size
level_steps size h =
    let y : ℕ = at_least_16 size - 1 in
    let y_lo : 15 ≤ y = ground arith in
    let y_hi : y < 2 ^ 27 = ground arith in
    let (k, e, kw, lo, hi) = clz-pow 32 y (omega arith) (omega arith) in
    let k_hi : k < 28 = pow_lt_inv k 28 (omega arith) in
    (
      k,
      rw (not-ltb _ _ h, e) (ap (λ (n : ℕ). some n) (level_value k k_hi)),
      pow_lt_inv 3 k (omega arith),
      k_hi,
      omega arith,
      hi,
    )

-- Every block holds sixteen bytes.
covers : (size m : ℕ) → size ≤ 2 ^ (m + 4) → at_least_16 size ≤ 2 ^ (m + 4)
covers size m h = ground (arith, sixteen m)

least : (k m s : ℕ) → 2 ^ k ≤ 2 * (s - 1) → s ≤ 2 ^ (m + 4) → k - 4 ≤ m
least k m s hi fits =
    let up : 2 ^ suc (m + 4) ≡ 2 ^ (m + 4) * 2 = pow-suc 2 (m + 4) in
    omega (arith, pow_lt_inv k (suc (m + 4)) (omega (arith, sixteen m)))

abbrev pub IsLeast : (size : ℕ) → Type 0
IsLeast size =
    (l : ℕ) × (get_level_by_size size ≡ some l)
    × (l < buddy_level_count)
    × (size ≤ block_size l)
    × ((m : ℕ) → size ≤ block_size m → l ≤ m)

-- For a size of at most 128 MB `get_level_by_size` returns the least level whose blocks hold it.
pub get_level_by_size-IsLeast : (size : ℕ) → size ≤ buddy_top_level_size → IsLeast size
unfolding block_size
get_level_by_size-IsLeast size h =
    let (k, run, four, lt, lo, hi) = level_steps size h in
    (
      k - 4,
      run,
      omega arith,
      (let e : k - 4 + 4 ≡ k = omega arith in rw e (ground arith)),
      λ m fits. least k m (at_least_16 size) hi (covers size m fits),
    )

-- Only a size above the top level is refused.
pub get_level_by_size-none :
    (size : ℕ) → buddy_top_level_size < size → get_level_by_size size ≡ none
unfolding get_level_by_size
get_level_by_size-none size h = rw (lt→ltb _ _ h)

-- A block that holds more than half a page is of whole pages.
pub level-paged : (size l : ℕ) → 2048 < size → size ≤ block_size l → 8 ≤ l
unfolding block_size
level-paged size l big fits =
    let up : 11 < l + 4 = pow_lt_inv 11 (l + 4) (omega arith) in omega arith
