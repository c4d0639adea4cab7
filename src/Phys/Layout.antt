-- ===== src/Phys/Layout.antt =====
-- kernel/mem/phys.c: the regions that are made from the boot loader's memory map.
pub mod Inv
pub mod Place
pub mod Add
mod Examples
use tomat_os.Base.{
  ℕ, zero, suc, ◌+◌, ◌-◌, ◌*◌, ◌/◌, ◌%◌, ◌^◌, Bool, true, false, ◌&&◌, not, Option, none, some,
  List, [], ◌∷◌, ltb, leb, ◌==◌, if◌then◌else◌, ◌>>=◌, update, set, get_elem?,
}
use tomat_os.Errors.{Err, no_error, check_failed, out_of_memory, is_error}
use tomat_os.Virt.Pages.{direct_map_offset}
use tomat_os.Phys.Region.{MemoryRegion, entry, page_size}
use tomat_os.Phys.Fill.{add_memory_to_region}
use tomat_os.Phys.Allocator.{find_region}

-- The types of the boot loader's protocol.
pub data EntryType : Type 0 where
  usable : EntryType
  reserved : EntryType
  acpi_reclaimable : EntryType
  acpi_nvs : EntryType
  bad_memory : EntryType
  bootloader_reclaimable : EntryType
  executable_and_modules : EntryType
  framebuffer : EntryType
  acpi_tables : EntryType
  other : EntryType

pub record Entry : Type 0 where
  pub base : ℕ
  pub length : ℕ
  pub type : EntryType

abbrev pub is_usable : EntryType → Bool
is_usable EntryType.usable = true
is_usable _ = false

-- The types that get page metadata.
abbrev pub is_managed : EntryType → Bool
is_managed EntryType.usable = true
is_managed EntryType.bootloader_reclaimable = true
is_managed EntryType.executable_and_modules = true
is_managed EntryType.acpi_reclaimable = true
is_managed _ = false

abbrev pub phys_to_direct : ℕ → ℕ
phys_to_direct p = (p + direct_map_offset) % 2 ^ 64

-- `(uintptr_t)-1`
abbrev pub no_end : ℕ
no_end = 18446744073709551615

abbrev pub end_of : Entry → ℕ
end_of e = (e.base + e.length) % 2 ^ 64

abbrev pub pages_of : Entry → ℕ
pages_of e = e.length / page_size

-- The variables of the first pass; the largest entry with its index.
pub record Count : Type 0 where
  pub total_usable_pages : ℕ
  pub region_end : ℕ
  pub region_count : ℕ
  pub largest_region : Option (ℕ × Entry)

abbrev pub larger : (i : ℕ) → Entry → Option (ℕ × Entry) → Option (ℕ × Entry)
larger i e none = some (i, e)
larger i e (some (j, l)) = if ltb l.length e.length then some (i, e) else some (j, l)

unfoldable pub count_entry : (i : ℕ) → Entry → Count → Count
count_entry i e c =
    if is_managed e.type
    then record {
      total_usable_pages = c.total_usable_pages + pages_of e;
      region_end = end_of e;
      region_count = if c.region_end == e.base then c.region_count else suc c.region_count;
      largest_region = if is_usable e.type then larger i e c.largest_region else c.largest_region;
    }
    else record c { region_end = no_end }

unfoldable pub count_entries : (i : ℕ) → List Entry → Count → Count
count_entries i [] c = c
count_entries i (e ∷ entries) c = count_entries (suc i) entries (count_entry i e c)

-- The fields of a region that the second pass sets; the metadata is its address.
pub record Layout : Type 0 where
  pub base : ℕ
  pub metadata : ℕ
  pub page_count : ℕ

-- The variables of the second pass; `started` is `region_i + 1`.
pub record Placing : Type 0 where
  pub regions : ℕ → Layout
  pub started : ℕ
  pub metadata : ℕ
  pub metadata_left : ℕ
  pub region_end : ℕ

-- `region_i++` and the new region's fields.
abbrev pub start_region : Entry → Placing → Placing
start_region e p = record p {
  regions =
      update p.regions p.started
        (record (p.regions p.started) { base = phys_to_direct e.base; metadata = p.metadata });
  started = suc p.started;
}

-- The entry's pages in the current region.
abbrev pub extend_region : Entry → Placing → Placing
extend_region e p = record p {
  regions = update p.regions (p.started - 1) (record (p.regions (p.started - 1)) {
    page_count = (p.regions (p.started - 1)).page_count + pages_of e;
  });
  metadata_left = p.metadata_left - pages_of e;
  region_end = end_of e;
  metadata = p.metadata + pages_of e;
}

-- Without a region, the write goes before the array.
abbrev pub extend_current : Entry → Placing → Option (Err × Placing)
extend_current e p = if p.started == 0 then none else some (no_error, extend_region e p)

unfoldable pub place_entry : (region_count : ℕ) → Entry → Placing → Option (Err × Placing)
place_entry region_count e p =
    if is_managed e.type
    then if ltb p.metadata_left (pages_of e)
      then some (check_failed, p)
      else if p.region_end == e.base
      then extend_current e p
      else if ltb p.started region_count
      then extend_current e (start_region e p)
      else some (check_failed, record p { started = suc p.started })
    else some (no_error, record p { region_end = no_end })

unfoldable pub place_entries : (region_count : ℕ) → List Entry → Placing → Option (Err × Placing)
place_entries region_count [] p = some (no_error, p)
place_entries region_count (e ∷ entries) p = do
  (err, p) ← place_entry region_count e p
  if is_error err then some (err, p) else place_entries region_count entries p

-- The variables before the passes; the array and the metadata after it are zero.
abbrev pub first_count : Count
first_count = record {
  total_usable_pages = 0;
  region_end = no_end;
  region_count = 0;
  largest_region = none;
}

abbrev pub first_placing : (metadata metadata_left : ℕ) → Placing
first_placing metadata metadata_left = record {
  regions = λ k. record { base = 0; metadata = 0; page_count = 0 };
  started = 0;
  metadata = metadata;
  metadata_left = metadata_left;
  region_end = no_end;
}

-- `add_memory(LIMINE_MEMMAP_USABLE)`, the only call.
unfoldable pub add_memory : List Entry → List MemoryRegion → Option (Err × List MemoryRegion)
add_memory [] regions = some (no_error, regions)
add_memory (e ∷ entries) regions =
    if is_usable e.type
    then (elim (find_region (phys_to_direct e.base) regions) [
      | none ↦ some (check_failed, regions)
      | some i ↦ (do
        region ← get_elem? regions i
        region ← add_memory_to_region region (phys_to_direct e.base) (pages_of e)
        add_memory entries (set regions i region))
    ])
    else add_memory entries regions

-- `sizeof(memory_region_t)`
abbrev pub region_size : ℕ
region_size = 408

abbrev pub overhead_of : Count → ℕ
overhead_of c =
    (c.region_count * region_size + c.total_usable_pages + (page_size - 1)) / page_size * page_size

-- The regions of the array, with empty lists and zero metadata.
unfoldable pub regions_of : (left k : ℕ) → (ℕ → Layout) → List MemoryRegion
regions_of zero k layout = []
regions_of (suc left) k layout =
    record {
      page_count = (layout k).page_count;
      base = (layout k).base;
      free_list = λ _. [];
      metadata = λ _. entry 0 false;
    }
    ∷ regions_of left (suc k) layout

-- From the second pass on; the largest entry is shorter while its memory is added.
unfoldable pub fill_regions :
    (metadata overhead index : ℕ) (largest : Entry) (c : Count) (entries : List Entry)
    → Option (Err × List MemoryRegion)
fill_regions metadata overhead index largest c entries = do
  (err, p) ←
      place_entries c.region_count entries
        (first_placing (metadata + c.region_count * region_size) c.total_usable_pages)
  (if is_error err
      then some (err, regions_of c.region_count 0 p.regions)
      else add_memory (set entries index (record largest { length = largest.length - overhead }))
          (regions_of c.region_count 0 p.regions))

-- Without a usable entry, `largest_region` is NULL.
unfoldable pub create_memory_regions : List Entry → Option (Err × List MemoryRegion)
create_memory_regions [] = some (check_failed, [])
create_memory_regions (e ∷ rest) =
    let entries = e ∷ rest in
    let c = count_entries 0 entries first_count in
    if c.region_count == 0 then some (check_failed, []) else (elim (c.largest_region) [
      | none ↦ none
      | some (index, largest) ↦
          let overhead = overhead_of c in
          if leb largest.length overhead
          then some (out_of_memory, [])
          else fill_regions (phys_to_direct (largest.base + (largest.length - overhead))) overhead
              index largest c entries
    ])

-- `init_phys`; without an answer of the boot loader there is no list.
unfoldable pub init_phys : Option (List Entry) → Option (Err × List MemoryRegion)
init_phys none = some (check_failed, [])
init_phys (some entries) = create_memory_regions entries
