-- ===== src/Phys/Buddy/Alloc.antt =====
-- `allocate_from_level` keeps the region well-formed and hands out a free block.
use tomat_os.Base.{
  ℕ, zero, suc, ◌+◌, ◌-◌, ◌/◌, ◌≤◌, ◌<◌, ◌≡◌, ◌⊎◌, inl, inr, refl, sym, ap, ◌∙◌, Bool, true, false,
  ◌==◌, arith, Bool-cases, Option-cases, eq_of_==, lt→ltb, has, has-without, has-cons, List-cases,
  some, none, Option, [], subst, subst₂, dec_le,
}
use tomat_os.Phys.Blocks.{block_size, block_size-pos, block_size-suc}
use tomat_os.Phys.Region.{MemoryRegion, set_metadata, list_add, unlink, buddy_level_count}
use tomat_os.Phys.Region.Inv.{InFree, InBlock, plus, region_end, page_index, page_level}
use tomat_os.Phys.Region.Moves.{Pending, IsValid, take_free}
use tomat_os.Phys.Region.Split.{cut_region, split-Pending, split_keeps, split_back}
use tomat_os.Phys.Region.Put.{put_live}
use tomat_os.Phys.Buddy.{find_block, mark, split, take_block, allocate_from_level, add64}
use tomat_os.Phys.Buddy.Neighbor.{page_metadata-of_inside, list_del-has}

mark-some :
    (r : MemoryRegion) (p level : ℕ) (b : Bool)
    → r.base ≤ p
    → p < region_end r
    → mark p level b r ≡ some (set_metadata (page_index r p) level b r)
unfolding mark
mark-some r p level b lo hi = rw (page_metadata-of_inside r p lo hi)

-- What the splitting loop reaches from a pending block of level `m`.
record SplitTo (r : MemoryRegion) (live : ℕ → ℕ → Bool) (m level b : ℕ) (r' : MemoryRegion)
    : Type 0 where
  pending : Pending r' live level b
  same_base : r'.base ≡ r.base
  same_count : r'.page_count ≡ r.page_count
  keeps : (x : ℕ) → InFree r x ⊎ InBlock m b x → InFree r' x ⊎ InBlock level b x
  back : (x : ℕ) → InFree r' x ⊎ InBlock level b x → InFree r x ⊎ InBlock m b x

module _ {live : ℕ → ℕ → Bool} (level b : ℕ) (paged : page_level ≤ level) where
  split_step :
      (n : ℕ) (r : MemoryRegion)
      → Pending r live (suc (level + n)) b
      → split (suc n) level b r ≡ split n level b (cut_region r (level + n) b)
  unfolding split list_add
  split_step n r c =
      let Z = c.core.placed (suc (level + n)) b (ground arith) in
      let half : block_size (suc (level + n)) / 2 ≡ block_size (level + n) =
        omega (arith, block_size-suc (level + n)) in
      let sum : add64 b (block_size (level + n)) ≡ b + block_size (level + n) =
        omega
          (arith, Z.to_end, c.core.fits, block_size-suc (level + n), block_size-pos (level + n)) in
      rw (
        half,
        sum,
        mark-some (list_add (level + n) (b + block_size (level + n)) r) (b + block_size (level + n))
            (level + n) true (omega (arith, Z.from_base))
            (omega (arith, Z.to_end, block_size-suc (level + n), block_size-pos (level + n))),
      )

  join :
      (n : ℕ) (r : MemoryRegion) (c : Pending r live (suc (level + n)) b)
      (paged' : page_level ≤ level + n) {r' : MemoryRegion}
      → SplitTo (cut_region r (level + n) b) live (level + n) level b r'
      → SplitTo r live (suc (level + n)) level b r'
  unfolding set_metadata list_add
  join n r c paged' s = record {
    pending = s.pending;
    same_base = s.same_base;
    same_count = s.same_count;
    keeps = λ x h. s.keeps x (split_keeps c paged' x h);
    back = λ x h. split_back c paged' x (s.back x h);
  }

  split-SplitTo :
      (n m : ℕ) (r : MemoryRegion)
      → m ≡ level + n
      → Pending r live m b
      → (r' : MemoryRegion) × (split n level b r ≡ some r') × SplitTo r live m level b r'
  unfolding split
  split-SplitTo zero m r e c =
      let e' : m ≡ level = omega arith in
      (
        r,
        refl,
        subst (λ t. SplitTo r live t level b r) (sym e')
            (record {
              pending = subst (λ t. Pending r live t b) e' c;
              same_base = refl;
              same_count = refl;
              keeps = λ x h. h;
              back = λ x h. h;
            }),
      )
  split-SplitTo (suc n) m r e c =
      let e' : m ≡ suc (level + n) = omega arith in
      let c' : Pending r live (suc (level + n)) b = subst (λ t. Pending r live t b) e' c in
      let paged' : page_level ≤ level + n = omega arith in
      let (r', run, s) =
        split-SplitTo n (level + n) (cut_region r (level + n) b) refl (split-Pending c' paged') in
      (
        r',
        split_step n r c' ∙ run,
        subst (λ t. SplitTo r live t level b r') (sym e') (join n r c' paged' s),
      )

find_block-some :
    (n l : ℕ) (r : MemoryRegion) {t b : ℕ}
    → find_block n l r ≡ some (t, b)
    → (l ≤ t) × (t < l + n) × (has b (r.free_list t) ≡ true)
unfolding find_block
find_block-some zero l r h = absurd (ground arith)
find_block-some (suc n) l r {t} {b} h = elim (List-cases (r.free_list l)) [
  | inl e ↦
      let (lo, hi, on) = find_block-some n (l + 1) r {t = t} {b = b} (rw (e, find_block) at h) in
      (omega arith, omega arith, on)
  | inr (x, rest, e) ↦
      let same : ◌≡◌ {A = Option (ℕ × ℕ)} (some (l, x)) (some (t, b)) = rw (e, find_block) at h in
      let u : l ≡ t = ground arith in
      (ground arith, ground arith, rw (← u, e) (ground (arith, has-cons b x rest)))
]

find_block-none :
    (n l : ℕ) (r : MemoryRegion)
    → find_block n l r ≡ none
    → (t : ℕ) → l ≤ t
    → t < l + n
    → r.free_list t ≡ []
unfolding find_block
find_block-none zero l r h t lo hi = absurd (omega arith)
find_block-none (suc n) l r h t lo hi = elim (List-cases (r.free_list l)) [
  | inl e ↦ elim (dec_le t l) [
    | yes le ↦ let u : t ≡ l = omega arith in rw u e
    | no gt ↦ find_block-none n (l + 1) r (rw (e, find_block) at h) t (omega arith) (omega arith)
  ]
  | inr (x, rest, e) ↦
      let bad : ◌≡◌ {A = Option (ℕ × ℕ)} (some (l, x)) none = rw (e, find_block) at h in cc
]

-- What `allocate_from_level` reaches when it finds a block: a well-formed region, the block handed
-- out, and the free memory that is left.
pub record Allocated (r : MemoryRegion) (live : ℕ → ℕ → Bool) (level p : ℕ) (r' : MemoryRegion)
    : Type 0 where
  pub valid : IsValid r' (plus live level p)
  pub same_base : r'.base ≡ r.base
  pub same_count : r'.page_count ≡ r.page_count
  pub fresh : live level p ≡ false
  pub keeps : (x : ℕ) → InFree r x → InFree r' x ⊎ InBlock level p x
  pub back : (x : ℕ) → InFree r' x ⊎ InBlock level p x → InFree r x

-- No block of the level or above is free.
abbrev pub HasNoRoom : (level : ℕ) → MemoryRegion → Type 0
HasNoRoom level r = (t : ℕ) → level ≤ t → t < buddy_level_count → r.free_list t ≡ []

-- The two ways in which an allocation from a region can end.
abbrev pub Allocates : (live : ℕ → ℕ → Bool) (level : ℕ) → MemoryRegion → Type 0
Allocates live level r =
    ((allocate_from_level r (some level) ≡ some (none, r)) × HasNoRoom level r)
    ⊎ ((p : ℕ) × (r' : MemoryRegion) × (allocate_from_level r (some level) ≡ some (some p, r'))
        × Allocated r live level p r')

module _ {r : MemoryRegion} {live : ℕ → ℕ → Bool} (v : IsValid r live) (level : ℕ)
    (paged : page_level ≤ level) where
  take-keeps :
      (t b x : ℕ)
      → has b (r.free_list t) ≡ true
      → InFree r x
      → InFree (unlink b r) x ⊎ InBlock t b x
  unfolding unlink
  take-keeps t b x on o = elim (Bool-cases (b == o.addr)) [
    | inl e ↦
        let same : b ≡ o.addr = eq_of_== _ _ e in
        let (u, _) =
          v.apart b o.level o.addr t b (ground (arith, o.holds)) (ground arith)
            (ap (λ s. s / block_size o.level) same) refl in
        inr (subst₂ (λ s a. x / block_size s ≡ a / block_size s) u (sym same) o.inside)
    | inr e ↦ inl (record {
      level = o.level;
      addr = o.addr;
      holds = ground (arith, has-without b o.addr (r.free_list o.level), o.holds);
      inside = o.inside;
    })
  ]

  take-back :
      (t b x : ℕ)
      → has b (r.free_list t) ≡ true
      → InFree (unlink b r) x ⊎ InBlock t b x
      → InFree r x
  unfolding unlink
  take-back t b x on (inl o) = record {
    level = o.level;
    addr = o.addr;
    holds = ground (arith, has-without b o.addr (r.free_list o.level), o.holds);
    inside = o.inside;
  }
  take-back t b x on (inr e) = record { level = t; addr = b; holds = on; inside = e }

  take_block-Allocated :
      (t b : ℕ)
      → level ≤ t
      → has b (r.free_list t) ≡ true
      → (r' : MemoryRegion) × (take_block level t b r ≡ some (some b, r'))
        × Allocated r live level b r'
  unfolding take_block set_metadata unlink
  take_block-Allocated t b le on =
      let T = v.placed t b (ground arith) in
      let (r', run, s) =
        split-SplitTo level b paged (t - level) t (unlink b r) (omega arith) (take_free t b v on) in
      let P = s.pending.core.placed level b (ground arith) in
      (
        set_metadata (page_index r' b) level false r',
        rw (
          list_del-has t b r T.below on,
          run,
          mark-some r' b level false P.from_base (omega (arith, P.to_end, block_size-pos level)),
        ),
        record {
          valid = put_live level b s.pending;
          same_base = s.same_base;
          same_count = s.same_count;
          fresh = s.pending.fresh;
          keeps = λ x h. s.keeps x (take-keeps t b x on h);
          back = λ x h. take-back t b x on (s.back x h);
        },
      )

  -- From a well-formed region, at a level of whole pages, `allocate_from_level` does not fault. Either
  -- no block of the level or above is free, it returns `NULL` and nothing changes; or it returns a
  -- block that was not handed out, the region stays well-formed with that block handed out, and the
  -- addresses that were free are those that are still free and those of the block.
  pub allocate_from_level-Allocated : level < buddy_level_count → Allocates live level r
  unfolding allocate_from_level
  allocate_from_level-Allocated lt = elim (Option-cases (find_block (24 - level) level r)) [
    | inl e ↦ inl (
      rw (lt→ltb level 24 lt, e, allocate_from_level),
      λ t lo hi. find_block-none (24 - level) level r e t lo (omega arith),
    )
    | inr ((t, b), e) ↦
        let (lo, hi, on) = find_block-some (24 - level) level r e in
        let (r', run, a) = take_block-Allocated t b lo on in
        inr (b, r', rw (lt→ltb level 24 lt, e, allocate_from_level) run, a)
  ]
