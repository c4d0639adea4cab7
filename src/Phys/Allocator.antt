-- ===== src/Phys/Allocator.antt =====
-- kernel/mem/phys.c: the allocator over all regions, with the page that each core keeps in reserve.
-- The region lock is a flag: taking it while it is held never returns, which is a fault here.
pub mod Regions
pub mod Sound
pub mod Alloc
pub mod Free
use tomat_os.Base.{
  ℕ, zero, suc, ◌+◌, ◌*◌, ◌%◌, ◌^◌, Bool, true, false, ◌&&◌, Option, none, some, List, [], ◌∷◌, ltb,
  leb, ◌==◌, if◌then◌else◌, ◌>>=◌, update, get_elem?, set,
}
use tomat_os.Phys.Blocks.{block_size}
use tomat_os.Phys.Region.{MemoryRegion, page_metadata, page_size}
use tomat_os.Phys.Levels.{get_level_by_size}
use tomat_os.Phys.Buddy.{allocate_from_level, free_at_level}

pub record Memory : Type 0 where
  pub regions : List MemoryRegion
  pub locked : Bool
  pub lock_cpu : Option ℕ
  pub reserved_page : ℕ → Option ℕ

abbrev pub contains : MemoryRegion → ℕ → Bool
contains region ptr = leb region.base ptr && ltb ptr (region.base + region.page_count * page_size)

-- The index of the first region that holds the pointer.
unfoldable pub find_region : ℕ → List MemoryRegion → Option ℕ
find_region ptr [] = none
find_region ptr (region ∷ regions) = elim (contains region ptr) [
  | true ↦ some 0
  | false ↦ (do i ← find_region ptr regions; some (suc i))
]

pub alloc_from : Option ℕ → List MemoryRegion → Option (Option ℕ × List MemoryRegion)
alloc_from level [] = some (none, [])
alloc_from level (region ∷ regions) = do
  (ptr, region) ← allocate_from_level region level
  elim ptr [
    | some p ↦ some (some p, region ∷ regions)
    | none ↦ (do (ptr, regions) ← alloc_from level regions; some (ptr, region ∷ regions))
  ]

pub internal_phys_alloc : Option ℕ → Memory → Option (Option ℕ × Memory)
unfolding alloc_from
internal_phys_alloc level m = do
  (ptr, regions) ← alloc_from level m.regions
  some (ptr, record m { regions = regions })

abbrev pub cpu_is : Option ℕ → ℕ → Bool
cpu_is none cpu = false
cpu_is (some holder) cpu = holder == cpu

pub irq_alloc : (cpu size : ℕ) → Memory → Option (Option ℕ × Memory)
irq_alloc cpu size m =
    if cpu_is m.lock_cpu cpu && size == page_size
    then elim (m.reserved_page cpu) [
      | none ↦ none
      | some page ↦ some (some page, record m { reserved_page = update m.reserved_page cpu none })
    ]
    else some (none, m)

pub fill_irq_alloc : (cpu : ℕ) → Memory → Option Memory
unfolding internal_phys_alloc
fill_irq_alloc cpu m = elim (m.reserved_page cpu) [
  | some _ ↦ some m
  | none ↦ (do
    (page, m) ← internal_phys_alloc (get_level_by_size page_size) m
    elim page [
      | none ↦ some m
      | some p ↦ some (record m { reserved_page = update m.reserved_page cpu (some p) })
    ])
]

pub acquire : Memory → Option Memory
acquire m = if m.locked then none else some (record m { locked = true })

abbrev release : Memory → Memory
release m = record m { locked = false }

pub locked_alloc : (cpu level : ℕ) → Memory → Option (Option ℕ × Memory)
unfolding acquire internal_phys_alloc fill_irq_alloc
locked_alloc cpu level m = do
  m ← acquire m
  (ptr, m) ← internal_phys_alloc (some level) (record m { lock_cpu = some cpu })
  m ← fill_irq_alloc cpu m
  some (ptr, release (record m { lock_cpu = none }))

-- `get_level_by_size` takes an `uint32_t`, so the upper half of the size is lost.
unfoldable pub phys_alloc : (cpu size : ℕ) → Memory → Option (Option ℕ × Memory)
unfolding irq_alloc locked_alloc
phys_alloc cpu size m = do
  (ptr, m) ← irq_alloc cpu size m
  elim ptr [
    | some p ↦ some (some p, m)
    | none ↦ elim (get_level_by_size (size % 2 ^ 32)) [
      | none ↦ some (none, m)
      | some level ↦ locked_alloc cpu level m
    ]
  ]

-- Freeing `NULL` does nothing; the assertions of the code are faults.
unfoldable pub phys_free : Option ℕ → Memory → Option Memory
unfolding acquire find_region
phys_free none m = some m
phys_free (some ptr) m = do
  m ← acquire m
  i ← find_region ptr m.regions
  region ← get_elem? m.regions i
  index ← page_metadata region ptr
  let level = (region.metadata index).level
  region ← if ptr % block_size level == 0 then free_at_level region ptr level else none
  some (release (record m { regions = set m.regions i region }))

unfoldable pub init_phys_per_cpu : (cpu : ℕ) → Memory → Option Memory
unfolding acquire fill_irq_alloc
init_phys_per_cpu cpu m = do m ← acquire m; m ← fill_irq_alloc cpu m; some (release m)
