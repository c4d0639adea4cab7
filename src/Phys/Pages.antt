-- ===== src/Phys/Pages.antt =====
-- kernel/mem/phys.c as the allocator of pages that the page tables use: `phys_alloc(PAGE_SIZE)` and
-- `phys_free`.
use native.Mathlib.Nat.{pow-le-pow_right}
use tomat_os.Base.{
  ℕ, ◌+◌, ◌-◌, ◌*◌, ◌/◌, ◌%◌, ◌^◌, ◌≤◌, ◌<◌, ◌≡◌, ◌==◌, ◌||◌, inl, inr, sym, ap, ◌∙◌, Bool, true,
  false, Option, none, some, List, [], ◌∷◌, arith, Bool-cases, dec_le, subst,
}
use tomat_os.Virt.Pages.{PageAllocator, IsFresh, direct_map_offset}
use tomat_os.Phys.Blocks.{block_size, block_size-pos, block_bounds, aligned-page}
use tomat_os.Phys.Region.{MemoryRegion, page_size}
use tomat_os.Phys.Region.Inv.{Covered, IsPlaced, InBlock, page_level, region_end}
use tomat_os.Phys.Allocator.{Memory, contains, phys_alloc, phys_free}
use tomat_os.Phys.Allocator.Regions.{AllValid, AllClear, Alike, homed, Clear-homed}
use tomat_os.Phys.Allocator.Sound.{IsSound}
use tomat_os.Phys.Allocator.Alloc.{IsServed, phys_alloc-IsServed}

-- The regions lie in the direct map.
abbrev pub AllDirect : List MemoryRegion → Type 0
AllDirect [] = Unit
AllDirect (r ∷ rs) = (direct_map_offset ≤ r.base) × AllDirect rs

AllDirect-Alike : (rs ss : List MemoryRegion) → Alike rs ss → AllDirect rs → AllDirect ss
AllDirect-Alike [] [] k h = tt
AllDirect-Alike [] (y ∷ ss) k h = absurd k
AllDirect-Alike (x ∷ rs) [] k h = absurd k
AllDirect-Alike (x ∷ rs) (y ∷ ss) (g, g', k) (h, hs) =
    (omega (arith, g, h), AllDirect-Alike rs ss k hs)

-- A block that is handed out lies in its region whole.
block-contains :
    (r : MemoryRegion) (blocks : ℕ → ℕ → Bool) (l a x : ℕ)
    → IsPlaced r.base (region_end r) l a
    → InBlock l a x
    → contains r x ≡ true
block-contains r blocks l a x P i =
    let (lo, hi) = block_bounds (block_size l) (block_size-pos l) a x P.aligned i in
    ground (arith, P.from_base, P.to_end)

block-homed :
    (rs : List MemoryRegion) (blocks : ℕ → ℕ → Bool) (l a x : ℕ)
    → AllValid blocks rs
    → blocks l a ≡ true
    → homed rs a ≡ true
    → InBlock l a x
    → homed rs x ≡ true
block-homed [] blocks l a x v on h i = absurd (ground arith)
block-homed (r ∷ rs) blocks l a x (v, vs) on h i = elim (Bool-cases (contains r a)) [
  | inl at ↦
      let inside = block-contains r blocks l a x (v.placed l a (ground arith)) i in ground arith
  | inr out ↦ let later = block-homed rs blocks l a x vs on (ground arith) i in ground arith
]

-- An address is in one block at most of those that are handed out.
block_unique :
    (rs : List MemoryRegion) (blocks : ℕ → ℕ → Bool) (l a m b x : ℕ)
    → AllValid blocks rs
    → AllClear rs
    → blocks l a ≡ true
    → blocks m b ≡ true
    → homed rs a ≡ true
    → homed rs b ≡ true
    → InBlock l a x
    → InBlock m b x
    → (l ≡ m) × (a ≡ b)
block_unique [] blocks l a m b x v c p q h k i j = absurd (ground arith)
block_unique (r ∷ rs) blocks l a m b x (v, vs) (c, cs) p q h k i j =
    elim (Bool-cases (contains r a)) [
      | inl at ↦
          let here = block-contains r blocks l a x (v.placed l a (ground arith)) i in
          let nowhere = Clear-homed r rs x c here in
          elim (Bool-cases (contains r b)) [
            | inl at' ↦ v.apart x l a m b (ground arith) (ground arith) i j
            | inr out' ↦
                let there = block-homed rs blocks m b x vs q (ground arith) j in
                absurd (ground arith)
          ]
      | inr out ↦
          let there = block-homed rs blocks l a x vs p (ground arith) i in
          elim (Bool-cases (contains r b)) [
            | inl at' ↦
                let here = block-contains r blocks m b x (v.placed m b (ground arith)) j in
                let nowhere = Clear-homed r rs x c here in absurd (ground arith)
            | inr out' ↦
                block_unique rs blocks l a m b x vs cs p q (ground arith) (ground arith) i j
          ]
    ]

-- The frame of a block that starts in a region.
block-frame :
    (rs : List MemoryRegion) (blocks : ℕ → ℕ → Bool) (l a : ℕ)
    → AllValid blocks rs
    → AllDirect rs
    → homed rs a ≡ true
    → (direct_map_offset ≤ a) × (a < 2 ^ 64)
block-frame [] blocks l a v d h = absurd (ground arith)
block-frame (r ∷ rs) blocks l a (v, vs) (d, ds) h = elim (Bool-cases (contains r a)) [
  | inl at ↦ (ground (arith, d), ground (arith, v.fits))
  | inr out ↦ block-frame rs blocks l a vs ds (ground arith)
]

-- Every frame in use is in a block that is handed out.
abbrev pub PhysHolds : (ℕ → Bool) → Memory → Type 0
PhysHolds live m =
    (blocks : ℕ → ℕ → Bool) × IsSound blocks m
    × AllDirect m.regions
    × ((f : ℕ) → live f ≡ true → Covered blocks (direct_map_offset + 4096 * f))

abbrev Answers : (cpu : ℕ) (live : ℕ → Bool) (m : Memory) → Type 0
Answers cpu live m =
    (live' : ℕ → Bool) × (m' : Memory) × (page : Option ℕ) × (phys_alloc cpu page_size m
      ≡ some (page, m'))
    × PhysHolds live' m'
    × ((f : ℕ) → live f ≡ true → live' f ≡ true)
    × IsFresh live live' page

grown-Covered :
    {blocks blocks' : ℕ → ℕ → Bool} {x : ℕ}
    → ((l a : ℕ) → blocks l a ≡ true → blocks' l a ≡ true)
    → Covered blocks x
    → Covered blocks' x
grown-Covered g o = record {
  level = o.level;
  addr = o.addr;
  holds = g o.level o.addr o.holds;
  inside = o.inside;
}

answered :
    (cpu : ℕ) (live : ℕ → Bool) (m m' : Memory) (blocks blocks' : ℕ → ℕ → Bool) (ptr : Option ℕ)
    → AllDirect m.regions
    → ((f : ℕ) → live f ≡ true → Covered blocks (direct_map_offset + 4096 * f))
    → phys_alloc cpu page_size m ≡ some (ptr, m')
    → IsServed blocks blocks' page_level m ptr m'
    → Answers cpu live m
answered cpu live m m' blocks blocks' none direct in_use run s = (
  live,
  m',
  none,
  run,
  (
    blocks',
    s.sound,
    AllDirect-Alike m.regions m'.regions s.alike direct,
    λ f h. grown-Covered s.grows (in_use f h),
  ),
  (λ f h. h),
  tt,
)
answered cpu live m m' blocks blocks' (some p) direct in_use run s =
    let g = s.sound.regional in
    let direct' = AllDirect-Alike m.regions m'.regions s.alike direct in
    let at_home = g.homes page_level p s.answer.taken in
    let (lo, hi) = block-frame m'.regions blocks' page_level p g.valid direct' at_home in
    let f : ℕ = (p - direct_map_offset) / 4096 in
    let whole : p % 4096 ≡ 0 = page_aligned p s.answer.aligned in
    let is : p ≡ direct_map_offset + 4096 * f = omega arith in
    let unused : live f ≡ false = elim (Bool-cases (live f)) [
      | inr o ↦ o
      | inl y ↦
          let o = in_use f y in
          let (same, there) =
            block_unique m'.regions blocks' o.level o.addr page_level p
              (direct_map_offset + 4096 * f) g.valid g.clear (s.grows o.level o.addr o.holds)
              s.answer.taken (g.homes o.level o.addr (s.grows o.level o.addr o.holds)) at_home
              o.inside (ap (λ t. t / block_size page_level) (sym is)) in
          let no_block = s.answer.fresh in let block = o.holds in absurd (ground arith)
    ] in
    (
      (λ g. live g || (f == g)),
      m',
      some p,
      run,
      (
        blocks',
        s.sound,
        direct',
        λ g h. elim (Bool-cases (live g)) [
          | inl y ↦ grown-Covered s.grows (in_use g y)
          | inr n ↦
              let here : f ≡ g = ground arith in
              record {
                level = page_level;
                addr = p;
                holds = s.answer.taken;
                inside =
                    ap (λ t. (direct_map_offset + 4096 * t) / block_size page_level) (sym here)
                    ∙ ap (λ t. t / block_size page_level) (sym is);
              }
        ],
      ),
      (λ g h. ground arith),
      (f, is, omega (arith, hi, lo), unused, ground arith),
    )
  where
    page_aligned : (a : ℕ) → a % block_size page_level ≡ 0 → a % 4096 ≡ 0
    page_aligned a h = aligned-page page_level a (omega arith) h

-- A smaller block than a page does not hold one.
at_least_page : (level : ℕ) → page_size ≤ block_size level → level ≤ page_level → level ≡ page_level
unfolding block_size
at_least_page level fits up = elim (dec_le page_level level) [
  | yes le ↦ omega (arith, le, up)
  | no lt ↦
      let small : 2 ^ (level + 4) ≤ 2 ^ 11 =
        pow-le-pow_right {n = 2} (omega arith) {j = 11} (omega arith) in
      absurd (omega (arith, fits, small))
]

pub phys_alloc-Holds :
    (cpu : ℕ) (live : ℕ → Bool) (m : Memory) → PhysHolds live m → Answers cpu live m
unfolding block_size
phys_alloc-Holds cpu live m (blocks, sound, direct, in_use) =
    let (blocks', m', ptr, level, run, served, fits, least) =
      phys_alloc-IsServed cpu page_size sound (omega arith) (omega arith) in
    let up : level ≤ page_level = least page_level (omega arith) in
    let at : level ≡ page_level = at_least_page level fits up in
    answered cpu live m m' blocks blocks' ptr direct in_use run
      (subst (λ l. IsServed blocks blocks' l m ptr m') at served)

-- `phys_alloc` and `phys_free` on a core that is not in the allocator.
abbrev pub phys_pages : (cpu : ℕ) → PageAllocator
phys_pages cpu = record {
  State = Memory;
  alloc = phys_alloc cpu page_size;
  free = λ p. phys_free (some p);
  Holds = PhysHolds;
  alloc-Holds = phys_alloc-Holds cpu;
}
