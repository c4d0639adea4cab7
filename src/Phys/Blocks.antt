-- ===== src/Phys/Blocks.antt =====
-- The geometry of buddy blocks: an address is in the block at `a` of level `l` when both have the
-- same index `x / block_size l`, and the index at the next level is half of it.
use native.Mathlib.Nat.{
  div-div-eq-div-mul, div-add-mod, mul-mod_right, mul-div_cancel_left, mul_assoc, add-div_right,
  add-mod_right, lt-mul-div-succ, mul-div-le, mul_comm, div-eq_of_lt-le, mod-eq-sub-mod,
  div-eq-sub-div,
}
use native.Mathlib.Numerals.{towards_suc}
use tomat_os.Base.{
  ℕ, zero, suc, ◌+◌, ◌-◌, ◌*◌, ◌/◌, ◌%◌, ◌^◌, ◌≤◌, ◌<◌, ◌≡◌, ◌≢◌, ◌⊎◌, dec_le, sym, ◌∙◌, ap, inl,
  inr, arith, ◌==◌, eq_of_==, Bool-cases,
}

-- Facts about multiples of a number `s`.
module _ (s : ℕ) where
  mul-le : (k : ℕ) → 0 < k → s ≤ s * k
  mul-le k h = grind arith

  pub multiple : (a : ℕ) → a % s ≡ 0 → a ≡ s * (a / s)
  multiple a h = omega (arith, div-add-mod a s)

  pub eq_of_index : (a b : ℕ) → a % s ≡ 0 → b % s ≡ 0 → a / s ≡ b / s → a ≡ b
  eq_of_index a b ha hb e = multiple a ha ∙ ap (λ (t : ℕ). s * t) e ∙ sym (multiple b hb)

  multiple_two : (a : ℕ) → a % (s * 2) ≡ 0 → a ≡ s * (2 * (a / (s * 2)))
  multiple_two a h = omega (arith, div-add-mod a (s * 2), mul_assoc s 2 (a / (s * 2)))

  pub mod_half : (a : ℕ) → a % (s * 2) ≡ 0 → a % s ≡ 0
  mod_half a h = ap (λ (t : ℕ). t % s) (multiple_two a h) ∙ mul-mod_right s _

  index_even : 0 < s → (a : ℕ) → a % (s * 2) ≡ 0 → a / s % 2 ≡ 0
  index_even pos a h =
      omega (
        arith,
        ap (λ (t : ℕ). t / s) (multiple_two a h),
        mul-div_cancel_left (2 * (a / (s * 2))) pos,
      )

  even_index : (a : ℕ) → a % s ≡ 0 → a / s % 2 ≡ 0 → a % (s * 2) ≡ 0
  even_index a h e =
      let t : ℕ = a / s / 2 in
      let twice : a ≡ s * 2 * t =
        omega (arith, multiple a h, mul_assoc s 2 t, ap (λ (k : ℕ). s * k) (even e)) in
      ap (λ (k : ℕ). k % (s * 2)) twice ∙ mul-mod_right (s * 2) t
    where
      even : {n : ℕ} → n % 2 ≡ 0 → n ≡ 2 * (n / 2)
      even e = omega arith

  pub in_block : 0 < s → (a x : ℕ) → a % s ≡ 0 → a ≤ x → x < a + s → x / s ≡ a / s
  in_block pos a x h lo hi =
      div-eq_of_lt-le {k = a / s} s (omega (arith, mul_comm (a / s) s, multiple a h))
        (omega (arith, mul_comm (a / s) s, multiple a h))

  pub block_bounds : 0 < s → (a x : ℕ) → a % s ≡ 0 → x / s ≡ a / s → (a ≤ x) × (x < a + s)
  block_bounds pos a x h e = (
    omega (arith, multiple a h, mul-div-le x s, ap (λ (k : ℕ). s * k) e),
    omega (arith, multiple a h, lt-mul-div-succ x pos, ap (λ (k : ℕ). s * k) e),
  )

  -- The buddy of the lower half of a pair is the upper half, and the other way round.
  pub upper_buddy :
      0 < s
      → (a : ℕ) → a % (s * 2) ≡ 0
      → ((a + s) % s ≡ 0) × ((a + s) / s ≡ a / s + 1) × (a / s % 2 ≡ 0)
  upper_buddy pos a h = (add-mod_right a s ∙ mod_half a h, add-div_right a pos, index_even pos a h)

  pub lower_buddy :
      0 < s
      → (a : ℕ) → a % s ≡ 0
      → a % (s * 2) ≢ 0
      → (s ≤ a) × ((a - s) % (s * 2) ≡ 0) × ((a - s) / s + 1 ≡ a / s)
  lower_buddy pos a h ne =
      (le, even_index (a - s) (sym again ∙ h) (omega (arith, odd, index)), index)
    where
      odd : a / s % 2 ≡ 1
      odd = elim (Bool-cases (a / s % 2 == 0)) [
        | inl e ↦ absurd (ne (even_index a h (eq_of_== _ _ e)))
        | inr e ↦ ground arith
      ]

      le : s ≤ a
      le = omega (arith, multiple a h, odd, mul-le (a / s) (omega (arith, odd)))

      again : a % s ≡ (a - s) % s
      again = mod-eq-sub-mod le

      index : (a - s) / s + 1 ≡ a / s
      index = sym (div-eq-sub-div pos le)

unfoldable pub block_size : ℕ → ℕ
block_size level = 2 ^ (level + 4)

pub block_size-suc : (l : ℕ) → block_size (suc l) ≡ block_size l * 2
unfolding block_size
block_size-suc l = simp towards_suc (omega arith)

pub block_size-pos : (l : ℕ) → 0 < block_size l
unfolding block_size
block_size-pos zero = omega arith
block_size-pos (suc l) = omega (arith, block_size-suc l, block_size-pos l)

pub index-suc : (l x : ℕ) → x / block_size (suc l) ≡ x / block_size l / 2
index-suc l x = rw block_size-suc (sym (div-div-eq-div-mul x (block_size l) 2))

pub aligned-pred : (l a : ℕ) → a % block_size (suc l) ≡ 0 → a % block_size l ≡ 0
aligned-pred l a h = mod_half (block_size l) a (rw block_size-suc at h)

-- What holds at a level holds below it (alignment) and above it (a common block).
pub aligned-le : (m l a : ℕ) → l ≤ m → a % block_size m ≡ 0 → a % block_size l ≡ 0
aligned-le zero l a le h = let e : l ≡ 0 = omega arith in rw e h
aligned-le (suc m) l a le h = elim (dec_le l m) [
  | yes low ↦ aligned-le m l a low (aligned-pred m a h)
  | no top ↦ let e : l ≡ suc m = omega arith in rw e h
]

pub index-le :
    (m l x y : ℕ)
    → l ≤ m
    → x / block_size l ≡ y / block_size l
    → x / block_size m ≡ y / block_size m
index-le zero l x y le h = let e : l ≡ 0 = omega arith in rw (← e) h
index-le (suc m) l x y le h = elim (dec_le l m) [
  | yes low ↦ omega (arith, index-suc m x, index-suc m y, index-le m l x y low h)
  | no top ↦ let e : l ≡ suc m = omega arith in rw (← e) h
]

pub aligned-page : (l a : ℕ) → 8 ≤ l → a % block_size l ≡ 0 → a % 4096 ≡ 0
unfolding block_size
aligned-page l a le h = aligned-le l 8 a le h

-- The block at `z` of a level is its two halves.
module _ (l z : ℕ) (aligned : z % block_size (suc l) ≡ 0) where
  aligned_two : z % (block_size l * 2) ≡ 0
  aligned_two = rw (← block_size-suc l) aligned

  pub upper-aligned : (z + block_size l) % block_size l ≡ 0
  upper-aligned = (upper_buddy (block_size l) (block_size-pos l) z aligned_two).0

  pub upper-index : (z + block_size l) / block_size l ≡ z / block_size l + 1
  upper-index = (upper_buddy (block_size l) (block_size-pos l) z aligned_two).1

  pub halves :
      (x : ℕ)
      → x / block_size (suc l) ≡ z / block_size (suc l)
      → (x / block_size l ≡ z / block_size l)
        ⊎ (x / block_size l ≡ (z + block_size l) / block_size l)
  halves x e = omega (
    arith,
    index-suc l x,
    index-suc l z,
    upper_buddy (block_size l) (block_size-pos l) z aligned_two,
  )

  pub in_lower :
      (x : ℕ)
      → x / block_size l ≡ z / block_size l
      → x / block_size (suc l) ≡ z / block_size (suc l)
  in_lower x e = omega (arith, index-suc l x, index-suc l z)

  pub in_upper :
      (x : ℕ)
      → x / block_size l ≡ (z + block_size l) / block_size l
      → x / block_size (suc l) ≡ z / block_size (suc l)
  in_upper x e = omega (
    arith,
    index-suc l x,
    index-suc l z,
    upper_buddy (block_size l) (block_size-pos l) z aligned_two,
  )
