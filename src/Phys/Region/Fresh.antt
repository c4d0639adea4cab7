-- ===== src/Phys/Region/Fresh.antt =====
-- A region before any memory is added to it, and memory that no block covers yet.
use tomat_os.Base.{
  ℕ, ◌+◌, ◌*◌, ◌%◌, ◌^◌, ◌≤◌, ◌<◌, ◌≡◌, refl, Bool, true, false, ◌&&◌, ◌==◌, [], arith, inl, inr,
  Bool-cases, has, subst₂, has-nil, distinct-nil,
}
use tomat_os.Phys.Blocks.{block_size, block_size-pos, block_bounds}
use tomat_os.Phys.Region.{MemoryRegion, entry, page_size}
use tomat_os.Phys.Region.Inv.{IsPlaced, Covered, InFree, InBlock, plus, held, region_end}
use tomat_os.Phys.Region.Moves.{Pending, IsValid}

-- The lists are initialised and the metadata is zero.
abbrev pub fresh_region : (base page_count : ℕ) → MemoryRegion
fresh_region base page_count = record {
  page_count = page_count;
  base = base;
  free_list = λ _. [];
  metadata = λ _. entry 0 false;
}

abbrev pub no_blocks : ℕ → ℕ → Bool
no_blocks l a = false

nothing_held : (base pages m a : ℕ) → held (fresh_region base pages) no_blocks m a ≡ false
nothing_held base pages m a = ground (arith, has-nil a)

pub fresh_region-IsValid :
    (base pages : ℕ)
    → base % page_size ≡ 0
    → base + pages * page_size + 2 ^ 27 ≤ 2 ^ 64
    → IsValid (fresh_region base pages) no_blocks
fresh_region-IsValid base pages aligned fits = record {
  base_aligned = aligned;
  fits = fits;
  nodup = λ m. distinct-nil;
  placed = λ m a h. absurd (ground (arith, nothing_held base pages m a));
  apart = λ x l a m b h k i j. absurd (ground (arith, nothing_held base pages l a));
  alone = λ m a h. refl;
  free_entry = λ m a h. absurd (ground (arith, nothing_held base pages m a));
  live_entry = λ m a h. absurd (ground arith);
  settled_live = λ m a h. h;
  covered = λ x h lo hi f. absurd (ground arith);
}

-- No free block and none that is handed out covers an address of the range.
pub record IsUnclaimed (r : MemoryRegion) (live : ℕ → ℕ → Bool) (lo hi : ℕ) : Type 0 where
  pub not_free : (x : ℕ) → lo ≤ x → x < hi → InFree r x → ⊥
  pub not_live : (x : ℕ) → lo ≤ x → x < hi → Covered live x → ⊥

module _ {r : MemoryRegion} {live : ℕ → ℕ → Bool} {lo hi : ℕ} (l : ℕ) (c : IsValid r live)
    (u : IsUnclaimed r live lo hi) (place : IsPlaced r.base (region_end r) l lo)
    (room : lo + block_size l ≤ hi) where
  -- An address of the new block is in no old one.
  new_apart : (x m a : ℕ) → held r live m a ≡ true → InBlock l lo x → InBlock m a x → ⊥
  new_apart x m a h i j =
      let (b, e) = block_bounds (block_size l) (block_size-pos l) lo x place.aligned i in
      elim (Bool-cases (has a (r.free_list m))) [
        | inl f ↦
            u.not_free x b (omega arith) (record { level = m; addr = a; holds = f; inside = j })
        | inr g ↦
            u.not_live x b (omega arith)
              (record { level = m; addr = a; holds = ground arith; inside = j })
      ]

  not_held : held r live l lo ≡ true → ⊥
  not_held h = new_apart lo l lo h refl refl

  adopt-apart :
      (x m a n b : ℕ)
      → held r (plus live l lo) m a ≡ true
      → held r (plus live l lo) n b ≡ true
      → InBlock m a x
      → InBlock n b x
      → (m ≡ n) × (a ≡ b)
  adopt-apart x m a n b h k i j = elim (Bool-cases (m == l && a == lo)) [
    | inl is ↦ elim (Bool-cases (n == l && b == lo)) [
      | inl is' ↦ ground arith
      | inr not' ↦ absurd (
          new_apart x n b (ground arith)
            (subst₂ (λ s t. InBlock s t x) (ground arith) (ground arith) i) j)
    ]
    | inr not ↦ elim (Bool-cases (n == l && b == lo)) [
      | inl is' ↦ absurd (
          new_apart x m a (ground arith)
            (subst₂ (λ s t. InBlock s t x) (ground arith) (ground arith) j) i)
      | inr not' ↦ c.apart x m a n b (ground arith) (ground arith) i j
    ]
  ]

  pub adopt : Pending r live l lo
  adopt = record {
    core = record {
      base_aligned = c.base_aligned;
      fits = c.fits;
      nodup = c.nodup;
      placed = λ m a h. elim (Bool-cases (m == l && a == lo)) [
        | inl is ↦
            subst₂ (λ s t. IsPlaced r.base (region_end r) s t) (ground arith) (ground arith) place
        | inr not ↦ c.placed m a (ground arith)
      ];
      apart = adopt-apart;
      alone = λ m a h. ground (arith, c.alone m a, not_held);
      free_entry = c.free_entry;
      live_entry = c.live_entry;
      settled_live = λ m a h. ground arith;
      covered = λ x h lo' hi' f.
          let o = c.covered x h lo' hi' f in
          record {
            level = o.level;
            addr = o.addr;
            holds = ground (arith, o.holds);
            inside = o.inside;
          };
    };
    fresh = ground (arith, not_held);
  }
