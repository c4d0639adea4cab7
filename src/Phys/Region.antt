-- ===== src/Phys/Region.antt =====
-- kernel/mem/phys.c: the page metadata and the memory regions with their free lists. A free list is
-- the list of its nodes from the head on, and a node is the address of a free block. Unlinking a
-- node that is on no list is undefined in C, and a fault here.
pub mod Inv
pub mod Moves
pub mod Merge
pub mod Split
pub mod Put
pub mod Fresh
use tomat_os.Base.{
  ℕ, zero, suc, ◌+◌, ◌-◌, ◌*◌, ◌/◌, Bool, true, false, ◌||◌, Option, none, some, List, ◌∷◌, ltb,
  leb, if◌then◌else◌, update, has, without,
}

abbrev pub buddy_level_count : ℕ
buddy_level_count = 24

abbrev pub buddy_first_level : ℕ
buddy_first_level = 4

abbrev pub page_size : ℕ
page_size = 4096

pub record PageMetadata : Type 0 where
  pub level : ℕ
  pub free : Bool

pub record MemoryRegion : Type 0 where
  pub page_count : ℕ
  pub base : ℕ
  pub free_list : ℕ → List ℕ
  pub metadata : ℕ → PageMetadata

abbrev pub entry : ℕ → Bool → PageMetadata
entry level free = record { level = level; free = free }

-- The index of the entry of an address, or none for `NULL`.
unfoldable pub page_metadata : MemoryRegion → ℕ → Option ℕ
page_metadata region addr =
    if ltb addr region.base
    then none
    else (let index = (addr - region.base) / page_size in
        if leb region.page_count index then none else some index)

-- `metadata->level = level; metadata->free = free;`
unfoldable pub set_metadata : ℕ → ℕ → Bool → MemoryRegion → MemoryRegion
set_metadata index level free region = record region {
  metadata = update region.metadata index (entry level free);
}

-- `list_add(&region->free_list[level], node)`
unfoldable pub list_add : ℕ → ℕ → MemoryRegion → MemoryRegion
list_add level node region = record region {
  free_list = update region.free_list level (node ∷ region.free_list level);
}

-- Is the node on one of the first `n` free lists?
unfoldable pub on_list : ℕ → ℕ → MemoryRegion → Bool
on_list node zero region = false
on_list node (suc n) region = has node (region.free_list n) || on_list node n region

unfoldable pub unlink : ℕ → MemoryRegion → MemoryRegion
unlink node region = record region { free_list = λ level. without node (region.free_list level) }

-- `list_del(node)`, which finds the node's list through its links.
unfoldable pub list_del : ℕ → MemoryRegion → Option MemoryRegion
unfolding on_list unlink
list_del node region =
    if on_list node buddy_level_count region then some (unlink node region) else none
