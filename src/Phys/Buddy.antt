-- ===== src/Phys/Buddy.antt =====
-- kernel/mem/phys.c: taking blocks from a region and giving them back.
pub mod Neighbor
pub mod Free
pub mod Alloc
use tomat_os.Base.{
  ℕ, zero, suc, ◌+◌, ◌-◌, ◌*◌, ◌/◌, ◌%◌, ◌^◌, Bool, true, false, not, Option, none, some, List, [],
  ◌∷◌, ltb, leb, ◌==◌, if◌then◌else◌, ◌>>=◌,
}
use tomat_os.Phys.Blocks.{block_size}
use tomat_os.Phys.Region.{
  MemoryRegion, page_metadata, set_metadata, list_add, list_del, buddy_level_count,
}

-- `uintptr_t` sums and differences.
abbrev pub add64 : ℕ → ℕ → ℕ
add64 a b = (a + b) % 2 ^ 64

abbrev pub sub64 : ℕ → ℕ → ℕ
sub64 a b = (a + 2 ^ 64 - b) % 2 ^ 64

-- The first free block at `level` or above, with its level: the search loop over `rounds` levels.
pub find_block : ℕ → ℕ → MemoryRegion → Option (ℕ × ℕ)
find_block zero level region = none
find_block (suc rounds) level region = elim (region.free_list level) [
  | [] ↦ find_block rounds (level + 1) region
  | block ∷ _ ↦ some (level, block)
]

-- The metadata of a block that was just made, which the code asserts to exist.
pub mark : ℕ → ℕ → Bool → MemoryRegion → Option MemoryRegion
mark addr level free region = do
  index ← page_metadata region addr
  some (set_metadata index level free region)

-- The splitting loop: `block` is `level + rounds` high.
pub split : ℕ → ℕ → ℕ → MemoryRegion → Option MemoryRegion
unfolding mark
split zero level block region = some region
split (suc rounds) level block region = do
  let upper = add64 block (block_size (suc (level + rounds)) / 2)
  region ← mark upper (level + rounds) true (list_add (level + rounds) upper region)
  split rounds level block region

take_block : ℕ → ℕ → ℕ → MemoryRegion → Option (Option ℕ × MemoryRegion)
unfolding split mark
take_block level top block region = do
  region ← list_del block region
  region ← split (top - level) level block region
  region ← mark block level false region
  some (some block, region)

-- The result is `none` inside for `NULL`; a level of `none` is the -1 of `get_level_by_size`.
unfoldable pub allocate_from_level : MemoryRegion → Option ℕ → Option (Option ℕ × MemoryRegion)
unfolding find_block take_block
allocate_from_level region none = some (none, region)
allocate_from_level region (some level) =
    if ltb level buddy_level_count
    then elim (find_block (buddy_level_count - level) level region) [
      | none ↦ some (none, region)
      | some (top, block) ↦ take_block level top block region
    ]
    else none

-- Is the neighbor above, that is, is the block the lower one of its pair?
abbrev is_lower : ℕ → ℕ → Bool
is_lower level ptr = ptr % (block_size level * 2) == 0

abbrev neighbor : ℕ → ℕ → ℕ
neighbor level ptr =
    if is_lower level ptr then add64 ptr (block_size level) else sub64 ptr (block_size level)

-- Where the block stands once it is merged with its neighbor.
abbrev merged : ℕ → ℕ → ℕ
merged level ptr = if is_lower level ptr then ptr else sub64 ptr (block_size level)

-- The merging loop, over the levels up to the top one; the block and its level at the end.
coalesce : ℕ → ℕ → ℕ → MemoryRegion → Option (ℕ × ℕ × MemoryRegion)
coalesce zero level ptr region = some (level, ptr, region)
coalesce (suc rounds) level ptr region = elim (page_metadata region (neighbor level ptr)) [
  | none ↦ some (level, ptr, region)
  | some index ↦ elim ((region.metadata index).free) [
    | false ↦ some (level, ptr, region)
    | true ↦ elim ((region.metadata index).level == level) [
      | false ↦ some (level, ptr, region)
      | true ↦ do
        region ← list_del (neighbor level ptr) region
        coalesce rounds (suc level) (merged level ptr) region
    ]
  ]
]

unfoldable pub free_at_level : MemoryRegion → ℕ → ℕ → Option MemoryRegion
unfolding coalesce mark
free_at_level region ptr level =
    if ltb level buddy_level_count
    then (do
      (level, ptr, region) ← coalesce (buddy_level_count - 1 - level) level ptr region
      region ← mark ptr level true region
      some (list_add level ptr region))
    else none
