-- ===== src/Phys/Fill.antt =====
-- kernel/mem/phys.c: putting a range of pages under the control of a region.
pub mod Sound
use tomat_os.Base.{
  ℕ, zero, suc, ◌-◌, ◌*◌, ◌/◌, ◌%◌, ◌^◌, Bool, true, false, Option, none, some, leb, ◌==◌, ◌>>=◌,
}
use tomat_os.Phys.Region.{MemoryRegion, page_size, buddy_level_count}
use tomat_os.Phys.Levels.{get_level_by_size, buddy_top_level_size}
use tomat_os.Phys.Buddy.{free_at_level, add64}

abbrev pub top_pages : ℕ
top_pages = buddy_top_level_size / page_size

-- Page by page up to a top-level boundary; the address, the pages left and the region at the end.
add_to_boundary : ℕ → (page_level base : ℕ) → MemoryRegion → Option (ℕ × ℕ × MemoryRegion)
add_to_boundary zero page_level base region = some (base, 0, region)
add_to_boundary (suc left) page_level base region = elim (base % buddy_top_level_size == 0) [
  | true ↦ some (base, suc left, region)
  | false ↦ (do
    region ← free_at_level region base page_level
    add_to_boundary left page_level (add64 base page_size) region)
]

-- Whole top-level blocks; every round takes pages, so as many rounds as pages are enough.
add_top_blocks : ℕ → (base page_count : ℕ) → MemoryRegion → Option (ℕ × ℕ × MemoryRegion)
add_top_blocks zero base page_count region = some (base, page_count, region)
add_top_blocks (suc rounds) base page_count region = elim (leb top_pages page_count) [
  | false ↦ some (base, page_count, region)
  | true ↦ (do
    region ← free_at_level region base (buddy_level_count - 1)
    add_top_blocks rounds (add64 base buddy_top_level_size) (page_count - top_pages) region)
]

add_rest : ℕ → (page_level base : ℕ) → MemoryRegion → Option MemoryRegion
add_rest zero page_level base region = some region
add_rest (suc left) page_level base region = do
  region ← free_at_level region base page_level
  add_rest left page_level (add64 base page_size) region

unfoldable pub add_memory_to_region : MemoryRegion → (base page_count : ℕ) → Option MemoryRegion
unfolding add_to_boundary add_top_blocks add_rest
add_memory_to_region region base page_count = do
  page_level ← get_level_by_size page_size
  (base, page_count, region) ← add_to_boundary page_count page_level base region
  (base, page_count, region) ← add_top_blocks page_count base page_count region
  add_rest page_count page_level base region
