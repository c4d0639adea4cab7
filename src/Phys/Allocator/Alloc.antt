-- ===== src/Phys/Allocator/Alloc.antt =====
-- `phys_alloc` hands out an aligned block that is large enough and that nobody holds.
use tomat_os.Base.{
  ℕ, ◌%◌, ◌^◌, ◌≤◌, ◌<◌, ◌≡◌, ◌≢◌, inl, inr, refl, sym, ap, ◌∙◌, Bool, true, false, Option, none,
  some, arith,
}
use tomat_os.Phys.Blocks.{block_size}
use tomat_os.Phys.Region.{buddy_level_count}
use tomat_os.Phys.Region.Inv.{plus, page_level}
use tomat_os.Phys.Levels.{
  get_level_by_size, get_level_by_size-IsLeast, level-paged, buddy_top_level_size,
}
use tomat_os.Phys.Allocator.{Memory, cpu_is, locked_alloc, phys_alloc, release}
use tomat_os.Phys.Allocator.Regions.{AllFull, Alike, Alike-trans, alloc_from-Granted, level_unique}
use tomat_os.Phys.Allocator.Sound.{
  IsSound, Filled, fill_irq_alloc-Filled, Granted-IsRegional, plus-IsReserve,
}

-- The block at `p` of the level goes from free to handed out, and is nobody's reserve.
pub record IsGiven (live live' : ℕ → ℕ → Bool) (level p : ℕ) (m' : Memory) : Type 0 where
  pub fresh : live level p ≡ false
  pub taken : live' level p ≡ true
  pub aligned : p % block_size level ≡ 0
  pub unreserved : (cpu : ℕ) → m'.reserved_page cpu ≢ some p

-- The result is `NULL` for want of room, or a block that was given.
abbrev pub Answer : (live live' : ℕ → ℕ → Bool) → ℕ → Memory → Option ℕ → Memory → Type 0
Answer live live' level m none m' = AllFull level m.regions
Answer live live' level m (some p) m' = IsGiven live live' level p m'

-- What an allocation of the level reaches.
pub record IsServed (live live' : ℕ → ℕ → Bool) (level : ℕ) (m : Memory) (ptr : Option ℕ)
    (m' : Memory) : Type 0 where
  pub sound : IsSound live' m'
  pub grows : (l a : ℕ) → live l a ≡ true → live' l a ≡ true
  pub alike : Alike m.regions m'.regions
  pub answer : Answer live live' level m ptr m'

released-IsSound :
    {live live' : ℕ → ℕ → Bool} {m m' : Memory}
    → Filled live m live' m'
    → IsSound live' (release (record m' { lock_cpu = none }))
released-IsSound f = record {
  unlocked = refl;
  no_holder = refl;
  regional = f.regional;
  reserve = f.reserve;
}

-- The page that goes to the reserve is not the block that was just handed out.
given-unreserved :
    {live live' : ℕ → ℕ → Bool} {m m' : Memory} (level p : ℕ)
    → IsSound live m
    → live level p ≡ false
    → (m₁ : Memory) → m₁.reserved_page ≡ m.reserved_page
    → Filled (plus live level p) m₁ live' m'
    → (cpu : ℕ) → m'.reserved_page cpu ≢ some p
given-unreserved {live} {live'} {m} {m'} level p s fresh m₁ same f cpu e =
    let page : live' page_level p ≡ true = f.reserve.taken cpu p e in
    let here : live' level p ≡ true = f.grows level p (ground arith) in
    let l : level ≡ page_level =
      level_unique m'.regions live' level page_level p f.regional.valid
        (f.regional.homes level p here) here page in
    elim (f.apart cpu p e) [
      | inl old ↦
          ground (arith, s.reserve.taken cpu p (ap (λ (g : ℕ → Option ℕ). g cpu) (sym same) ∙ old))
      | inr no_page ↦ ground arith
    ]

module _ {live : ℕ → ℕ → Bool} {m : Memory} (cpu level : ℕ) (s : IsSound live m) where
  pub locked_alloc-IsServed :
      page_level ≤ level
      → level < buddy_level_count
      → (live' : ℕ → ℕ → Bool) × (m' : Memory) × (ptr : Option ℕ) × (locked_alloc cpu level m
          ≡ some (ptr, m'))
        × IsServed live live' level m ptr m'
  unfolding locked_alloc
  locked_alloc-IsServed paged low =
      elim (alloc_from-Granted level paged low m.regions s.regional.valid s.regional.clear) [
        | inl (run, full) ↦
            let (live', m', fill, f) =
              fill_irq_alloc-Filled cpu (record m { locked = true; lock_cpu = some cpu }) s.regional
                s.reserve in
            (
              live',
              release (record m' { lock_cpu = none }),
              none,
              rw (s.unlocked, run, fill),
              record {
                sound = released-IsSound f;
                grows = f.grows;
                alike = f.alike;
                answer = full;
              },
            )
        | inr (p, rs', run, a) ↦
            let (live', m', fill, f) =
              fill_irq_alloc-Filled cpu
                (record m { regions = rs'; locked = true; lock_cpu = some cpu })
                (Granted-IsRegional s.regional a) (plus-IsReserve level p s.reserve) in
            (
              live',
              release (record m' { lock_cpu = none }),
              some p,
              rw (s.unlocked, run, fill),
              record {
                sound = released-IsSound f;
                grows = λ l x h. f.grows l x (ground arith);
                alike = Alike-trans m.regions rs' m'.regions a.alike f.alike;
                answer = record {
                  fresh = a.fresh;
                  taken = f.grows level p (ground arith);
                  aligned = a.aligned;
                  unreserved = given-unreserved level p s a.fresh _ refl f;
                };
              },
            )
      ]

-- Outside of the allocator a request of a known level goes to the locked part.
phys_alloc_lem :
    (cpu size level : ℕ) (m : Memory)
    → m.lock_cpu ≡ none
    → get_level_by_size (size % 2 ^ 32) ≡ some level
    → phys_alloc cpu size m ≡ locked_alloc cpu level m
unfolding phys_alloc
phys_alloc_lem cpu size level m e at =
    let outside : cpu_is m.lock_cpu cpu ≡ false = rw e in rw outside (ground (arith, at))

-- An allocation of `size` bytes, at the least level that holds them.
abbrev pub Serves : (live : ℕ → ℕ → Bool) (cpu size : ℕ) → Memory → Type 0
Serves live cpu size m =
    (live' : ℕ → ℕ → Bool) × (m' : Memory) × (ptr : Option ℕ) × (level : ℕ) × (phys_alloc cpu size m
      ≡ some (ptr, m'))
    × IsServed live live' level m ptr m'
    × (size ≤ block_size level)
    × ((l : ℕ) → size ≤ block_size l → level ≤ l)

-- In a sound state `phys_alloc` of more than 2048 bytes and at most 128 MB does not fault and leaves a
-- sound state in which all that was handed out still is. It returns `NULL` only if no region has a
-- free block of the level or above; else it returns a block of the least level that holds the size,
-- which is aligned to its size, was not handed out before, is handed out now, and is in no reserve.
pub phys_alloc-IsServed :
    {live : ℕ → ℕ → Bool} {m : Memory} (cpu size : ℕ)
    → IsSound live m
    → 2048 < size
    → size ≤ buddy_top_level_size
    → Serves live cpu size m
unfolding phys_alloc
phys_alloc-IsServed {m} cpu size s lo hi =
    let (level, at, low, fits, least) = get_level_by_size-IsLeast size hi in
    let (live', m', ptr, run, served) =
      locked_alloc-IsServed cpu level s (level-paged size level lo fits) low in
    let whole : size % 2 ^ 32 ≡ size = omega arith in
    (
      live',
      m',
      ptr,
      level,
      phys_alloc_lem cpu size level m s.no_holder (rw whole at) ∙ run,
      served,
      fits,
      least,
    )
