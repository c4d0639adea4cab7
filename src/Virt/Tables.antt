-- ===== src/Virt/Tables.antt =====
-- kernel/mem/virt.c: the page tables in memory, and the functions that map pages.
use tomat_os.Base.{
  ℕ, zero, suc, ◌/◌, ◌%◌, ◌^◌, Bool, true, false, not, Option, none, some, ◌==◌, if◌then◌else◌,
  ◌>>=◌, update,
}
use tomat_os.Errors.{Err, no_error, out_of_memory}
use tomat_os.Virt.Pages.{PageAllocator, frame_of}

-- The fields of an entry that the code sets.
pub record PageEntry : Type 0 where
  pub present : Bool
  pub writeable : Bool
  pub no_execute : Bool
  pub frame : ℕ

abbrev pub empty_entry : PageEntry
empty_entry = record { present = false; writeable = false; no_execute = false; frame = 0 }

-- A table is the frame that it stands in.
pub record Space (S : Type 0) : Type 0 where
  pub tables : ℕ → ℕ → PageEntry
  pub cr3 : ℕ
  pub pages : S
  pub locked : Bool

-- The index of an address in the tables of a level: 0 for PML1 up to 3 for PML4.
abbrev pub index : ℕ → ℕ → ℕ
index zero va = va / 2 ^ 12 % 512
index (suc zero) va = va / 2 ^ 21 % 512
index (suc (suc zero)) va = va / 2 ^ 30 % 512
index (suc (suc (suc level))) va = va / 2 ^ 39 % 512

abbrev pub can_write : ℕ → Bool
can_write flags = flags % 2 == 1

abbrev pub can_execute : ℕ → Bool
can_execute flags = flags / 2 % 2 == 1

abbrev pub set_entry : (ℕ → ℕ → PageEntry) → ℕ → ℕ → PageEntry → ℕ → ℕ → PageEntry
set_entry tables table i entry = update tables table (update (tables table) i entry)

-- `memset(page, 0, SIZE_4KB)`
abbrev pub clear_table : (ℕ → ℕ → PageEntry) → ℕ → ℕ → ℕ → PageEntry
clear_table tables frame = update tables frame (λ i. empty_entry)

unfoldable pub lock_virt : {S : Type 0} → Space S → Option (Space S)
lock_virt s = if s.locked then none else some (record s { locked = true })

abbrev pub unlock_virt : {S : Type 0} → Space S → Space S
unlock_virt s = record s { locked = false }

abbrev pub map_entry : (phys flags : ℕ) → PageEntry
map_entry phys flags = record {
  present = true;
  writeable = can_write flags;
  no_execute = not (can_execute flags);
  frame = phys / 4096 % 2 ^ 40;
}

module _ (A : PageAllocator) where
  -- The next table, or none for `NULL`. A fault of the allocator is a fault.
  unfoldable pub get_next_level : (table i : ℕ) → Space A.State → Option (Option ℕ × Space A.State)
  get_next_level table i s =
      let entry = s.tables table i in
      if entry.present then some (some entry.frame, s) else (do
        (phys, pages) ← A.alloc s.pages
        elim phys [
          | none ↦ some (none, record s { pages = pages })
          | some page ↦
              let frame = frame_of page in
              some (
                some frame,
                record s {
                  pages = pages;
                  tables =
                      set_entry (clear_table s.tables frame) table i
                        (record entry { present = true; writeable = true; frame = frame });
                },
              )
        ])

  -- The three steps to the PML1 of an address, which the functions below share.
  unfoldable pub walk_from_pml3 :
      (virt pml3 : ℕ) → Space A.State → Option (Option ℕ × Space A.State)
  walk_from_pml3 virt pml3 s = do
    (pml2, s) ← get_next_level pml3 (index 2 virt) s
    elim pml2 [ none ↦ some (none, s) | some pml2 ↦ get_next_level pml2 (index 1 virt) s ]

  unfoldable pub walk : (virt : ℕ) → Space A.State → Option (Option ℕ × Space A.State)
  walk virt s = do
    (pml3, s) ← get_next_level s.cr3 (index 3 virt) s
    elim pml3 [ none ↦ some (none, s) | some pml3 ↦ walk_from_pml3 virt pml3 s ]

  unfoldable pub virt_map_page :
      (phys virt flags : ℕ) → Space A.State → Option (Err × Space A.State)
  unfolding lock_virt
  virt_map_page phys virt flags s = do
    s ← lock_virt s
    (pml1, s) ← walk virt s
    elim pml1 [
      | none ↦ some (out_of_memory, unlock_virt s)
      | some pml1 ↦ some (
        no_error,
        unlock_virt
            (record s { tables = set_entry s.tables pml1 (index 0 virt) (map_entry phys flags) }),
      )
    ]
