-- ===== src/Heap/Mark.antt =====
-- Moving the watermark of a size class.
use native.Mathlib.Nat.{add-mod_right, pow-suc}
use tomat_os.Base.{
  ℕ, zero, suc, ◌+◌, ◌-◌, ◌%◌, ◌^◌, ◌≤◌, ◌<◌, ◌≡◌, sym, ap, ◌∙◌, inl, inr, Bool, false, List, arith,
  ◌==◌, Bool-cases, dec_lt, ltb, plus, subst,
}
use tomat_os.Base.Bits.{pow-pos}
use tomat_os.Phys.Blocks.{in_block, eq_of_index, mod_half}
use tomat_os.Heap.{alloc_region_top, region_count}
use tomat_os.Heap.Class.{IsBlock, IsClass, block_bytes}

-- Multiples of a number are at least that number apart.
pub next_multiple : (s a b : ℕ) → 0 < s → a % s ≡ 0 → b % s ≡ 0 → a < b → a + s ≤ b
next_multiple s a b pos ha hb lt = elim (dec_lt b (a + s)) [
  | no far ↦ omega arith
  | yes near ↦
      let same : b ≡ a = eq_of_index s b a hb ha (in_block s pos a b ha (omega arith) near) in
      omega arith
]

pub pow-aligned : (d k a : ℕ) → a % 2 ^ (d + k) ≡ 0 → a % 2 ^ k ≡ 0
pow-aligned zero k a h = let e : k ≡ 0 + k = omega arith in ap (λ (t : ℕ). a % 2 ^ t) e ∙ h
pow-aligned (suc d) k a h = pow-aligned d k a (
    mod_half (2 ^ (d + k)) a (
      let e : suc (d + k) ≡ suc d + k = omega arith in
      ap (λ (t : ℕ). a % t) (sym (pow-suc 2 (d + k))) ∙ ap (λ (t : ℕ). a % 2 ^ t) e ∙ h))

-- The part of a class starts and ends on a multiple of its block size.
pub part-aligned : (o a : ℕ) → o < region_count → a % 2 ^ 39 ≡ 0 → a % block_bytes o ≡ 0
part-aligned o a lt h =
    let sum : 36 - o + (o + 3) ≡ 39 = omega arith in
    pow-aligned (36 - o) (o + 3) a (ap (λ (t : ℕ). a % 2 ^ t) sum ∙ h)

pub grow_room :
    (o mark : ℕ)
    → o < region_count
    → mark % block_bytes o ≡ 0
    → mark < alloc_region_top o
    → mark + block_bytes o ≤ alloc_region_top o
grow_room o mark lt h low =
    next_multiple (block_bytes o) mark (alloc_region_top o) (pow-pos (o + 3)) h
      (part-aligned o (alloc_region_top o) lt (omega arith)) low

module _ {o list mark : ℕ} {word : ℕ → ℕ} {live : ℕ → ℕ → Bool} {free : List ℕ}
    (c : IsClass o list mark word live free) (lt : o < region_count)
    (low : mark < alloc_region_top o) where
  abbrev pos : 0 < block_bytes o
  pos = pow-pos (o + 3)

  widen : (a : ℕ) → IsBlock o mark a → IsBlock o (mark + block_bytes o) a
  widen a b = record {
    from_bottom = b.from_bottom;
    below = omega (arith, b.below);
    aligned = b.aligned;
  }

  new-IsBlock : IsBlock o (mark + block_bytes o) mark
  new-IsBlock = record {
    from_bottom = c.from_bottom;
    below = omega (arith, pos);
    aligned = c.mark_aligned;
  }

  -- The block at the watermark is free of both kinds.
  pub mark-fresh : live o mark ≡ false
  mark-fresh = elim (Bool-cases (live o mark)) [
    | inl h ↦ absurd (omega (arith, (c.live_block mark h).below))
    | inr h ↦ h
  ]

  pub grow-IsClass : IsClass o list (mark + block_bytes o) word (plus live o mark) free
  grow-IsClass = record {
    chain = c.chain;
    nodup = c.nodup;
    from_bottom = omega (arith, c.from_bottom);
    to_top = grow_room o mark lt c.mark_aligned low;
    mark_aligned = add-mod_right mark (block_bytes o) ∙ c.mark_aligned;
    free_block = λ a h. widen a (c.free_block a h);
    live_block = λ a h. elim (Bool-cases (a == mark)) [
      | inl y ↦
          (let q : mark ≡ a = ground arith in
            subst (IsBlock o (mark + block_bytes o)) q new-IsBlock)
      | inr y ↦ widen a (c.live_block a (ground arith))
    ];
    alone = λ a h. let b = (c.free_block a h).below in ground (arith, c.alone a);
    all = λ a b. elim (Bool-cases (ltb a mark)) [
      | inl y ↦ ground (
        arith,
        c.all a (record { from_bottom = b.from_bottom; below = ground arith; aligned = b.aligned }),
      )
      | inr y ↦
          let same : a ≡ mark =
            eq_of_index (block_bytes o) a mark b.aligned c.mark_aligned
              (in_block (block_bytes o) pos mark a c.mark_aligned (ground arith) b.below) in
          ground arith
    ];
  }
