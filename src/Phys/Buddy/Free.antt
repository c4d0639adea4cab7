-- ===== src/Phys/Buddy/Free.antt =====
-- `free_at_level` keeps the region well-formed, gives back exactly the block, and merges it fully.
use tomat_os.Base.{
  ℕ, zero, suc, ◌+◌, ◌-◌, ◌/◌, ◌<◌, ◌≡◌, ◌⊎◌, inl, inr, refl, ap, ◌∙◌, Bool, true, false, ◌&&◌,
  ◌==◌, arith, Bool-cases, Option-cases, lt→ltb, has, has-cons, subst₂, some, none,
}
use tomat_os.Phys.Blocks.{block_size, block_size-pos}
use tomat_os.Phys.Region.{
  MemoryRegion, page_metadata, set_metadata, list_add, unlink, entry, buddy_level_count,
}
use tomat_os.Phys.Region.Inv.{IsPlaced, InFree, InBlock, region_end, page_index}
use tomat_os.Phys.Region.Moves.{Pending, IsValid, minus, take_live}
use tomat_os.Phys.Region.Merge.{IsPair, p_inside, merge, merge_keeps, merge_back}
use tomat_os.Phys.Region.Put.{put_free}
use tomat_os.Phys.Buddy.{neighbor, merged, coalesce, mark, free_at_level}
use tomat_os.Phys.Buddy.Neighbor.{
  page_metadata-some, page_metadata-of_inside, list_del-has, neighbor-IsPair, neighbor-has,
  neighbor-ne,
}

-- What the merging loop reaches from a pending block.
pub record Merged (r : MemoryRegion) (live : ℕ → ℕ → Bool) (l p : ℕ) (l' p' : ℕ) (r' : MemoryRegion)
    : Type 0 where
  pub pending : Pending r' live l' p'
  pub same_base : r'.base ≡ r.base
  pub same_count : r'.page_count ≡ r.page_count
  pub keeps : (x : ℕ) → InFree r x ⊎ InBlock l p x → InFree r' x ⊎ InBlock l' p' x
  pub back : (x : ℕ) → InFree r' x ⊎ InBlock l' p' x → InFree r x ⊎ InBlock l p x
  pub covers : (x : ℕ) → InBlock l p x → InBlock l' p' x
  pub stuck : l' < 23 → has (neighbor l' p') (r'.free_list l') ≡ false

module _ {live : ℕ → ℕ → Bool} where
  stop :
      {r : MemoryRegion} {l p : ℕ}
      → Pending r live l p
      → (l < 23 → has (neighbor l p) (r.free_list l) ≡ false)
      → Merged r live l p l p r
  stop c s = record {
    pending = c;
    same_base = refl;
    same_count = refl;
    keeps = λ x h. h;
    back = λ x h. h;
    covers = λ x h. h;
    stuck = s;
  }

  extend :
      {r : MemoryRegion} {l p l' p' : ℕ} {r' : MemoryRegion} {q z : ℕ} (pair : IsPair l p q z)
      (c : Pending r live l p) (on : has q (r.free_list l) ≡ true) (low : suc l < buddy_level_count)
      → Merged (unlink q r) live (suc l) z l' p' r'
      → Merged r live l p l' p' r'
  unfolding unlink
  extend pair c on low m = record {
    pending = m.pending;
    same_base = m.same_base;
    same_count = m.same_count;
    keeps = λ x h. m.keeps x (merge_keeps pair c on low x h);
    back = λ x h. merge_back pair c on low x (m.back x h);
    covers = λ x h. m.covers x (p_inside pair x h);
    stuck = m.stuck;
  }

  -- A neighbor that the code passes over is not free at the level.
  passed_none :
      {r : MemoryRegion} {l p : ℕ}
      → Pending r live l p
      → page_metadata r (neighbor l p) ≡ none
      → has (neighbor l p) (r.free_list l) ≡ false
  passed_none {r} {l} {p} c e = elim (Bool-cases (has (neighbor l p) (r.free_list l))) [
    | inl on ↦
        let N = c.core.placed l (neighbor l p) (ground arith) in
        let at =
          page_metadata-of_inside r (neighbor l p) N.from_base
            (omega (arith, N.to_end, block_size-pos l)) in
        absurd (ground arith)
    | inr off ↦ off
  ]

  passed_some :
      {r : MemoryRegion} {l p i : ℕ}
      → Pending r live l p
      → page_metadata r (neighbor l p) ≡ some i
      → ((r.metadata i).free ≡ false) ⊎ (((r.metadata i).level == l) ≡ false)
      → has (neighbor l p) (r.free_list l) ≡ false
  passed_some {r} {l} {p} {i} c e h = elim (Bool-cases (has (neighbor l p) (r.free_list l))) [
    | inl on ↦
        let at = page_metadata-some r (neighbor l p) i e in
        let is : r.metadata i ≡ entry l true =
          ap r.metadata at.0 ∙ c.core.free_entry l (neighbor l p) on in
        absurd (ground (arith, is, h))
    | inr off ↦ off
  ]

  coalesce-Merged :
      (n l p : ℕ) (r : MemoryRegion)
      → n + l ≡ 23
      → Pending r live l p
      → (l' p' : ℕ) × (r' : MemoryRegion) × (coalesce n l p r ≡ some (l', p', r'))
        × Merged r live l p l' p' r'
  unfolding coalesce
  coalesce-Merged zero l p r e c = (l, p, r, refl, stop c (λ lt. absurd (omega arith)))
  coalesce-Merged (suc n) l p r e c = elim (Option-cases (page_metadata r (neighbor l p))) [
    | inl at ↦ rw (at, coalesce) (l, p, r, refl, stop c (λ _. passed_none c at))
    | inr (i, at) ↦ elim (Bool-cases ((r.metadata i).free)) [
      | inr f ↦ rw (at, f, coalesce) (l, p, r, refl, stop c (λ _. passed_some c at (inl f)))
      | inl f ↦ elim (Bool-cases ((r.metadata i).level == l)) [
        | inr g ↦ rw (at, f, g, coalesce) (l, p, r, refl, stop c (λ _. passed_some c at (inr g)))
        | inl g ↦
            let pair = neighbor-IsPair l p c in
            let on = neighbor-has l p c pair at (ground arith) in
            let low : suc l < 24 = omega arith in
            let (l', p', r', run, m) =
              coalesce-Merged n (suc l) (merged l p) (unlink (neighbor l p) r) (omega arith)
                (merge pair c on low) in
            rw (at, f, g, list_del-has l (neighbor l p) r (omega arith) on, coalesce)
              (l', p', r', run, extend pair c on low m)
      ]
    ]
  ]

-- What `free_at_level` reaches: a well-formed region whose free memory is what was free and the
-- block. All of the block is in one free block, of the largest level or with no free neighbor of its
-- own level to merge with.
pub record Freed (r : MemoryRegion) (live : ℕ → ℕ → Bool) (l p : ℕ) (r' : MemoryRegion)
    : Type 0 where
  pub valid : IsValid r' live
  pub same_base : r'.base ≡ r.base
  pub same_count : r'.page_count ≡ r.page_count
  pub keeps : (x : ℕ) → InFree r x ⊎ InBlock l p x → InFree r' x
  pub back : (x : ℕ) → InFree r' x → InFree r x ⊎ InBlock l p x
  pub merged_level : ℕ
  pub merged_addr : ℕ
  pub covers : (x : ℕ) → InBlock l p x → InBlock merged_level merged_addr x
  pub listed : has merged_addr (r'.free_list merged_level) ≡ true
  pub unmergeable :
      merged_level < 23
      → has (neighbor merged_level merged_addr) (r'.free_list merged_level) ≡ false

module _ {r : MemoryRegion} {live : ℕ → ℕ → Bool} (l p : ℕ) (c : Pending r live l p) where
  abbrev put : MemoryRegion
  put = list_add l p (set_metadata (page_index r p) l true r)

  p-IsPlaced : IsPlaced r.base (region_end r) l p
  p-IsPlaced = c.core.placed l p (ground arith)

  mark-some :
      (level : ℕ) (b : Bool) → mark p level b r ≡ some (set_metadata (page_index r p) level b r)
  unfolding mark
  mark-some level b = rw (
      page_metadata-of_inside r p p-IsPlaced.from_base
        (omega (arith, p-IsPlaced.to_end, block_size-pos l)))

  put-keeps : (x : ℕ) → InFree r x ⊎ InBlock l p x → InFree put x
  unfolding set_metadata list_add
  put-keeps x (inl o) = record {
    level = o.level;
    addr = o.addr;
    holds = ground (arith, has-cons o.addr p (r.free_list l), o.holds);
    inside = o.inside;
  }
  put-keeps x (inr e) = record {
    level = l;
    addr = p;
    holds = ground (arith, has-cons p p (r.free_list l));
    inside = e;
  }

  put-back : (x : ℕ) → InFree put x → InFree r x ⊎ InBlock l p x
  unfolding set_metadata list_add
  put-back x o = elim (Bool-cases (o.level == l && o.addr == p)) [
    | inl is ↦
        inr (
          subst₂ (λ s t. x / block_size s ≡ t / block_size s) (ground arith) (ground arith)
            o.inside)
    | inr other ↦ inl (record {
      level = o.level;
      addr = o.addr;
      holds = ground (arith, has-cons o.addr p (r.free_list l), o.holds);
      inside = o.inside;
    })
  ]

  neighbor_ne : (neighbor l p == p) ≡ false
  neighbor_ne = neighbor-ne l p c (neighbor-IsPair l p c)

  put-stuck :
      has (neighbor l p) (r.free_list l) ≡ false → has (neighbor l p) (put.free_list l) ≡ false
  unfolding set_metadata list_add
  put-stuck h = ground (arith, has-cons (neighbor l p) p (r.free_list l), neighbor_ne)

  put-listed : has p (put.free_list l) ≡ true
  unfolding set_metadata list_add
  put-listed = ground (arith, has-cons p p (r.free_list l))

-- From a pending block, be it a fresh one or one that was handed out.
pub free-Pending :
    {r : MemoryRegion} {live : ℕ → ℕ → Bool} (l p : ℕ)
    → Pending r live l p
    → (r' : MemoryRegion) × (free_at_level r p l ≡ some r') × Freed r live l p r'
unfolding free_at_level set_metadata list_add
free-Pending {r} {live} l p c =
    let low = (c.core.placed l p (ground arith)).below in
    let (l', p', r', run, m) = coalesce-Merged (23 - l) l p r (omega arith) c in
    (
      put l' p' m.pending,
      rw (lt→ltb _ _ low, run, mark-some l' p' m.pending l' true) refl,
      record {
        valid = put_free l' p' m.pending;
        same_base = m.same_base;
        same_count = m.same_count;
        keeps = λ x h. put-keeps l' p' m.pending x (m.keeps x h);
        back = λ x h. m.back x (put-back l' p' m.pending x h);
        merged_level = l';
        merged_addr = p';
        covers = m.covers;
        listed = put-listed l' p' m.pending;
        unmergeable = λ lt. put-stuck l' p' m.pending (m.stuck lt);
      },
    )

-- Giving a block back reaches such a region.
abbrev pub Frees : (live : ℕ → ℕ → Bool) (l p : ℕ) → MemoryRegion → Type 0
Frees live l p r =
    (r' : MemoryRegion) × (free_at_level r p l ≡ some r') × Freed r (minus live l p) l p r'

-- In a well-formed region `free_at_level` does not fault on a block that is handed out. The region
-- stays well-formed with the block no longer handed out, the free addresses are those that were free
-- and those of the block, and all of the block lies in one listed free block, which is of the largest
-- level or has no free neighbor of its own level.
pub free_at_level-Freed :
    {r : MemoryRegion} {live : ℕ → ℕ → Bool} (l p : ℕ)
    → IsValid r live
    → live l p ≡ true
    → Frees live l p r
free_at_level-Freed l p v out = free-Pending l p (take_live l p v out)
