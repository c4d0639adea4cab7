-- ===== src/Phys/Region/Inv.antt =====
-- The well-formedness of a region. `live level addr` says that the block at `addr` of that level is
-- handed out; blocks are of whole pages, from level 8 on.
pub use tomat_os.Base.{plus}
use tomat_os.Base.{
  ℕ, ◌+◌, ◌-◌, ◌*◌, ◌/◌, ◌%◌, ◌^◌, ◌≤◌, ◌<◌, ◌≡◌, Bool, true, false, ◌||◌, has, distinct,
}
use tomat_os.Phys.Blocks.{block_size}
use tomat_os.Phys.Region.{MemoryRegion, entry, page_size, buddy_level_count}

abbrev pub page_level : ℕ
page_level = 8

-- The end of the region is so far from the end of memory that no block reaches over it.
abbrev pub region_end : MemoryRegion → ℕ
region_end r = r.base + r.page_count * page_size

abbrev pub page_index : MemoryRegion → ℕ → ℕ
page_index r a = (a - r.base) / page_size

abbrev pub held : MemoryRegion → (ℕ → ℕ → Bool) → ℕ → ℕ → Bool
held r live m a = has a (r.free_list m) || live m a

-- A block is aligned to its size and lies in the region.
pub record IsPlaced (base end l a : ℕ) : Type 0 where
  pub below : l < buddy_level_count
  pub paged : page_level ≤ l
  pub aligned : a % block_size l ≡ 0
  pub from_base : base ≤ a
  pub to_end : a + block_size l ≤ end

-- The block that covers an address.
pub record Covered (blocks : ℕ → ℕ → Bool) (x : ℕ) : Type 0 where
  pub level : ℕ
  pub addr : ℕ
  pub holds : blocks level addr ≡ true
  pub inside : x / block_size level ≡ addr / block_size level

abbrev pub free_blocks : MemoryRegion → ℕ → ℕ → Bool
free_blocks r m a = has a (r.free_list m)

-- The address is in a free block.
abbrev pub InFree : MemoryRegion → ℕ → Type 0
InFree r x = Covered (free_blocks r) x

-- The address is in the block at `a` of level `l`.
abbrev pub InBlock : ℕ → ℕ → ℕ → Type 0
InBlock l a x = x / block_size l ≡ a / block_size l

-- The blocks that are handed out are `live`; those whose metadata is up to date are `settled`.
pub record Core (r : MemoryRegion) (live settled : ℕ → ℕ → Bool) : Type 0 where
  pub base_aligned : r.base % page_size ≡ 0
  pub fits : region_end r + 2 ^ 27 ≤ 2 ^ 64
  pub nodup : (m : ℕ) → distinct (r.free_list m) ≡ true
  pub placed : (m a : ℕ) → held r live m a ≡ true → IsPlaced r.base (region_end r) m a
  pub apart :
      (x l a m b : ℕ)
      → held r live l a ≡ true
      → held r live m b ≡ true
      → x / block_size l ≡ a / block_size l
      → x / block_size m ≡ b / block_size m
      → (l ≡ m) × (a ≡ b)
  pub alone : (m a : ℕ) → has a (r.free_list m) ≡ true → live m a ≡ false
  pub free_entry :
      (m a : ℕ) → has a (r.free_list m) ≡ true → r.metadata (page_index r a) ≡ entry m true
  pub live_entry : (m a : ℕ) → settled m a ≡ true → r.metadata (page_index r a) ≡ entry m false
  pub settled_live : (m a : ℕ) → settled m a ≡ true → live m a ≡ true
  pub covered :
      (x : ℕ)
      → x % page_size ≡ 0
      → r.base ≤ x
      → x < region_end r
      → (r.metadata (page_index r x)).free ≡ true
      → Covered (held r live) x
