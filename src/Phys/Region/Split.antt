-- ===== src/Phys/Region/Split.antt =====
-- A pending block is cut in two: its upper half goes on the list of the level below.
use tomat_os.Base.{
  ℕ, suc, ◌+◌, ◌-◌, ◌/◌, ◌%◌, ◌≤◌, ◌<◌, ◌≡◌, ◌⊎◌, inl, inr, refl, sym, ap, ◌∙◌, subst, subst₂, Bool,
  true, false, ◌&&◌, ◌==◌, arith, Bool-cases, eq_of_==, has, has-cons, distinct-cons,
}
use tomat_os.Phys.Blocks.{
  block_size, block_size-pos, block_size-suc, halves, in_lower, in_upper, upper-aligned,
  aligned-pred, aligned-page, eq_of_index,
}
use tomat_os.Phys.Region.{MemoryRegion, list_add, set_metadata, page_size}
use tomat_os.Phys.Region.Inv.{
  IsPlaced, Covered, InFree, InBlock, plus, held, region_end, page_index, page_level,
}
use tomat_os.Phys.Region.Moves.{Pending}

-- Two page-aligned addresses of a region with one index are the same.
pub page_index-inj :
    (base a b : ℕ)
    → base % page_size ≡ 0
    → a % page_size ≡ 0
    → b % page_size ≡ 0
    → base ≤ a
    → base ≤ b
    → (a - base) / page_size ≡ (b - base) / page_size
    → a ≡ b
page_index-inj base a b hb ha hc la lb e = omega arith

-- The region once the block at `z` of level `suc l` is cut.
abbrev pub cut_region : MemoryRegion → ℕ → ℕ → MemoryRegion
cut_region r l z =
    set_metadata (page_index r (z + block_size l)) l true (list_add l (z + block_size l) r)

module _ {r : MemoryRegion} {live : ℕ → ℕ → Bool} {l z : ℕ} (c : Pending r live (suc l) z)
    (paged : page_level ≤ l) where
  open c use {core}

  abbrev upper : ℕ
  upper = z + block_size l

  abbrev cut : MemoryRegion
  cut = cut_region r l z

  z_held : held r (plus live (suc l) z) (suc l) z ≡ true
  z_held = ground arith

  z-IsPlaced : IsPlaced r.base (region_end r) (suc l) z
  z-IsPlaced = core.placed (suc l) z z_held

  split-down :
      (m a : ℕ)
      → held cut (plus live l z) m a ≡ true
      → ((m ≡ l) × ((a ≡ z) ⊎ (a ≡ upper)))
        ⊎ ((held r (plus live (suc l) z) m a ≡ true) × ((m == suc l && a == z) ≡ false))
  unfolding set_metadata list_add
  split-down m a h = ground (arith, has-cons a upper (r.free_list l), core.alone (suc l) z, c.fresh)

  split-up :
      (m a : ℕ)
      → held r (plus live (suc l) z) m a ≡ true
      → (m == suc l && a == z) ≡ false
      → held cut (plus live l z) m a ≡ true
  unfolding set_metadata list_add
  split-up m a h n = ground (arith, has-cons a upper (r.free_list l))

  half-IsPlaced : (a : ℕ) → (a ≡ z) ⊎ (a ≡ upper) → IsPlaced r.base (region_end r) l a
  half-IsPlaced a h =
      let Z = z-IsPlaced in
      record {
        below = omega (arith, Z.below);
        paged = paged;
        aligned = elim h [
          | inl e ↦ rw e (aligned-pred l z Z.aligned)
          | inr e ↦ rw e (upper-aligned l z Z.aligned)
        ];
        from_base = omega (arith, Z.from_base);
        to_end = omega (arith, Z.to_end, block_size-suc l);
      }

  half_inside :
      (x a : ℕ)
      → (a ≡ z) ⊎ (a ≡ upper)
      → x / block_size l ≡ a / block_size l
      → x / block_size (suc l) ≡ z / block_size (suc l)
  half_inside x a h i = elim h [
    | inl e ↦ in_lower l z z-IsPlaced.aligned x (i ∙ ap (λ t. t / block_size l) e)
    | inr e ↦ in_upper l z z-IsPlaced.aligned x (i ∙ ap (λ t. t / block_size l) e)
  ]

  half_apart :
      (x a n b : ℕ)
      → (a ≡ z) ⊎ (a ≡ upper)
      → held r (plus live (suc l) z) n b ≡ true
      → (n == suc l && b == z) ≡ false
      → x / block_size l ≡ a / block_size l
      → x / block_size n ≡ b / block_size n
      → ⊥
  half_apart x a n b h k other i j =
      let (e, f) = core.apart x n b (suc l) z k z_held j (half_inside x a h i) in ground arith

  split-IsPlaced :
      (m a : ℕ) → held cut (plus live l z) m a ≡ true → IsPlaced r.base (region_end r) m a
  split-IsPlaced m a h = elim (split-down m a h) [
    | inl (e, f) ↦ rw e (half-IsPlaced a f)
    | inr (old, _) ↦ core.placed m a old
  ]

  split-apart :
      (x m a n b : ℕ)
      → held cut (plus live l z) m a ≡ true
      → held cut (plus live l z) n b ≡ true
      → x / block_size m ≡ a / block_size m
      → x / block_size n ≡ b / block_size n
      → (m ≡ n) × (a ≡ b)
  split-apart x m a n b h k i j = elim (split-down m a h) [
    | inl (e, f) ↦
        let i' : x / block_size l ≡ a / block_size l =
          subst (λ s. x / block_size s ≡ a / block_size s) e i in
        elim (split-down n b k) [
          | inl (e', f') ↦
              let j' : x / block_size l ≡ b / block_size l =
                subst (λ s. x / block_size s ≡ b / block_size s) e' j in
              (
                e ∙ sym e',
                eq_of_index (block_size l) a b (half-IsPlaced a f).aligned
                    (half-IsPlaced b f').aligned (sym i' ∙ j'),
              )
          | inr (old, other) ↦ absurd (half_apart x a n b f old other i' j)
        ]
    | inr (old, other) ↦ elim (split-down n b k) [
      | inl (e', f') ↦ absurd (
          half_apart x b m a f' old other (subst (λ s. x / block_size s ≡ b / block_size s) e' j) i)
      | inr (old', _) ↦ core.apart x m a n b old old' i j
    ]
  ]

  half_held : (a : ℕ) → (a ≡ z) ⊎ (a ≡ upper) → held cut (plus live l z) l a ≡ true
  unfolding set_metadata list_add
  half_held a h = ground (arith, has-cons a upper (r.free_list l))

  split-Covered :
      (x : ℕ) → Covered (held r (plus live (suc l) z)) x → Covered (held cut (plus live l z)) x
  split-Covered x o = elim (Bool-cases (o.level == suc l && o.addr == z)) [
    | inl is ↦
        elim (halves l z z-IsPlaced.aligned x (
          subst₂ (λ s t. x / block_size s ≡ t / block_size s) (ground arith) (ground arith)
            o.inside)) [
              | inl e ↦ record { level = l; addr = z; holds = half_held z (inl refl); inside = e }
              | inr e ↦ record {
                level = l;
                addr = upper;
                holds = half_held upper (inr refl);
                inside = e;
              }
            ]
    | inr other ↦ record {
      level = o.level;
      addr = o.addr;
      holds = split-up o.level o.addr o.holds other;
      inside = o.inside;
    }
  ]

  -- No old block stands at either half on the lower level.
  half_new : (a : ℕ) → (a ≡ z) ⊎ (a ≡ upper) → held r (plus live (suc l) z) l a ≡ true → ⊥
  half_new a h k = half_apart a a l a h k (ground arith) refl refl

  half_fresh :
      (a : ℕ) → (a ≡ z) ⊎ (a ≡ upper) → (has a (r.free_list l) ≡ false) × (live l a ≡ false)
  half_fresh a h = ground (arith, half_new a h)

  -- The entry of the upper half is no other block's.
  upper_index :
      (m a : ℕ)
      → held r (plus live (suc l) z) m a ≡ true
      → (m == suc l && a == z) ≡ false
      → (page_index r upper == page_index r a) ≡ false
  upper_index m a h other = elim (Bool-cases (page_index r upper == page_index r a)) [
    | inl e ↦
        let U = half-IsPlaced upper (inr refl) in
        let A = core.placed m a h in
        let same : upper ≡ a =
          page_index-inj r.base upper a core.base_aligned (aligned-page l upper paged U.aligned)
            (aligned-page m a A.paged A.aligned) U.from_base A.from_base (eq_of_== _ _ e) in
        absurd
          (half_apart upper upper m a (inr refl) h other refl (ap (λ t. t / block_size m) same))
    | inr e ↦ e
  ]

  free_other : (m a : ℕ) → has a (r.free_list m) ≡ true → (m == suc l && a == z) ≡ false
  free_other m a h = ground (arith, core.alone (suc l) z)

  z_ne_upper : (z == upper) ≡ false
  z_ne_upper = ground (arith, block_size-pos l)

  cut-Covered :
      (x : ℕ)
      → x % page_size ≡ 0
      → r.base ≤ x
      → x < region_end r
      → (cut.metadata (page_index r x)).free ≡ true
      → Covered (held r (plus live (suc l) z)) x
  unfolding set_metadata list_add
  cut-Covered x h lo hi f = elim (Bool-cases (page_index r upper == page_index r x)) [
    | inl e ↦
        let U = half-IsPlaced upper (inr refl) in
        let same : upper ≡ x =
          page_index-inj r.base upper x core.base_aligned (aligned-page l upper paged U.aligned) h
            U.from_base lo (eq_of_== _ _ e) in
        record {
          level = suc l;
          addr = z;
          holds = z_held;
          inside = half_inside x upper (inr refl) (ap (λ t. t / block_size l) (sym same));
        }
    | inr e ↦ core.covered x h lo hi (rw e at f)
  ]

  pub split-Pending : Pending cut live l z
  unfolding set_metadata list_add
  split-Pending = record {
    core = record {
      base_aligned = core.base_aligned;
      fits = core.fits;
      nodup = λ m.
          ground
            (arith, distinct-cons upper (r.free_list l), core.nodup m, half_fresh upper (inr refl));
      placed = split-IsPlaced;
      apart = split-apart;
      alone = λ m a h. ground (
        arith,
        has-cons a upper (r.free_list l),
        core.alone m a,
        half_fresh upper (inr refl),
        half_fresh z (inl refl),
        z_ne_upper,
      );
      free_entry = λ m a h. ground (
        arith,
        has-cons a upper (r.free_list l),
        core.free_entry m a,
        upper_index m a,
        free_other m a,
      );
      live_entry = λ m a h.
          ground (arith, core.live_entry m a, core.settled_live m a, upper_index m a, c.fresh);
      settled_live = λ m a h. ground arith;
      covered = λ x h lo hi f. split-Covered x (cut-Covered x h lo hi f);
    };
    fresh = (half_fresh z (inl refl)).1;
  }

  -- What is free or pending stays so.
  pub split_keeps : (x : ℕ) → InFree r x ⊎ InBlock (suc l) z x → InFree cut x ⊎ InBlock l z x
  unfolding set_metadata list_add
  split_keeps x (inl o) = inl (record {
    level = o.level;
    addr = o.addr;
    holds = ground (arith, has-cons o.addr upper (r.free_list l), o.holds);
    inside = o.inside;
  })
  split_keeps x (inr e) = elim (halves l z z-IsPlaced.aligned x e) [
    | inl i ↦ inr i
    | inr i ↦ inl (record {
      level = l;
      addr = upper;
      holds = ground (arith, has-cons upper upper (r.free_list l));
      inside = i;
    })
  ]

  pub split_back : (x : ℕ) → InFree cut x ⊎ InBlock l z x → InFree r x ⊎ InBlock (suc l) z x
  unfolding set_metadata list_add
  split_back x (inr e) = inr (half_inside x z (inl refl) e)
  split_back x (inl o) = elim (Bool-cases (o.level == l && o.addr == upper)) [
    | inl is ↦ inr (
        half_inside x upper (inr refl) (
          subst₂ (λ s t. x / block_size s ≡ t / block_size s) (ground arith) (ground arith)
            o.inside))
    | inr other ↦ inl (record {
      level = o.level;
      addr = o.addr;
      holds = ground (arith, has-cons o.addr upper (r.free_list l), o.holds);
      inside = o.inside;
    })
  ]
