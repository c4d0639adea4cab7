-- ===== src/Virt/Ranges.antt =====
-- kernel/mem/virt.c: mapping, allocating and remapping ranges of pages.
use tomat_os.Base.{
  ℕ, zero, suc, ◌+◌, ◌*◌, ◌%◌, ◌^◌, Bool, true, false, not, Option, none, some, if◌then◌else◌,
  ◌>>=◌,
}
use tomat_os.Errors.{Err, no_error, check_failed, out_of_memory, is_error}
use tomat_os.Virt.Pages.{PageAllocator, frame_of, page_of}
use tomat_os.Virt.Tables.{
  Space, index, empty_entry, set_entry, can_write, can_execute, lock_virt, unlock_virt, walk,
  virt_map_page,
}

-- The address of page `i` from `base` on.
abbrev pub page_address : (base i : ℕ) → ℕ
page_address base i = (base + i * 4096) % 2 ^ 64

module _ (A : PageAllocator) where
  -- The loop, with `left` pages to go from page `i` on.
  unfoldable pub map_pages :
      (phys virt flags left i : ℕ) → Space A.State → Option (Err × Space A.State)
  map_pages phys virt flags zero i s = some (no_error, s)
  map_pages phys virt flags (suc left) i s = do
    (err, s) ← virt_map_page A (page_address phys i) (page_address virt i) flags s
    elim (is_error err) [ true ↦ some (err, s) | false ↦ map_pages phys virt flags left (suc i) s ]

  unfoldable pub virt_map_range :
      (phys virt page_count flags : ℕ) → Space A.State → Option (Err × Space A.State)
  virt_map_range phys virt page_count flags s = map_pages phys virt flags page_count 0 s

  -- One round of `virt_alloc_range`.
  unfoldable pub alloc_page : (vaddr : ℕ) → Space A.State → Option (Err × Space A.State)
  alloc_page vaddr s = do
    (phys, pages) ← A.alloc s.pages
    elim phys [
      | none ↦ some (out_of_memory, record s { pages = pages })
      | some page ↦ (do
        (pml1, s) ← walk A vaddr (record s { pages = pages })
        elim pml1 [
          | none ↦ some (out_of_memory, s)
          | some pml1 ↦
              if (s.tables pml1 (index 0 vaddr)).present
              then some (check_failed, s)
              else some (
                no_error,
                record s {
                  tables = set_entry s.tables pml1 (index 0 vaddr) (record {
                    present = true;
                    writeable = true;
                    no_execute = true;
                    frame = frame_of page;
                  });
                },
              )
        ])
    ]

  -- The error, and the page at which the loop stopped.
  unfoldable pub alloc_pages : (virt left i : ℕ) → Space A.State → Option (Err × ℕ × Space A.State)
  alloc_pages virt zero i s = some (no_error, i, s)
  alloc_pages virt (suc left) i s = do
    (err, s) ← alloc_page (page_address virt i) s
    elim (is_error err) [ true ↦ some (err, i, s) | false ↦ alloc_pages virt left (suc i) s ]

  -- The clean-up loop, which looks at the same page in each round. A failed check of it jumps to the
  -- clean-up again, and that never returns while no memory is freed.
  unfoldable pub rollback : (vaddr left : ℕ) → Space A.State → Option (Space A.State)
  rollback vaddr zero s = some s
  rollback vaddr (suc left) s = do
    (pml1, s) ← walk A vaddr s
    elim pml1 [
      | none ↦ none
      | some pml1 ↦ elim ((s.tables pml1 (index 0 vaddr)).present) [
        | false ↦ none
        | true ↦ (do
          pages ← A.free (page_of (s.tables pml1 (index 0 vaddr)).frame) s.pages
          rollback vaddr left (record s {
            tables = set_entry s.tables pml1 (index 0 vaddr) empty_entry;
            pages = pages;
          }))
      ]
    ]

  unfoldable pub virt_alloc_range :
      (virt page_count : ℕ) → Space A.State → Option (Err × Space A.State)
  unfolding lock_virt
  virt_alloc_range virt page_count s = do
    s ← lock_virt s
    (err, i, s) ← alloc_pages virt page_count 0 s
    s ← if is_error err then rollback (page_address virt i) i s else some s
    some (err, unlock_virt s)

  -- One round of `virt_remap_range`.
  unfoldable pub remap_page : (vaddr flags : ℕ) → Space A.State → Option (Err × Space A.State)
  remap_page vaddr flags s = do
    (pml1, s) ← walk A vaddr s
    elim pml1 [
      | none ↦ some (out_of_memory, s)
      | some pml1 ↦
          if (s.tables pml1 (index 0 vaddr)).present
          then some (
            no_error,
            record s {
              tables =
                  set_entry s.tables pml1 (index 0 vaddr) (record (s.tables pml1 (index 0 vaddr)) {
                    writeable = can_write flags;
                    no_execute = not (can_execute flags);
                  });
            },
          )
          else some (check_failed, s)
    ]

  unfoldable pub remap_pages :
      (virt flags left i : ℕ) → Space A.State → Option (Err × Space A.State)
  remap_pages virt flags zero i s = some (no_error, s)
  remap_pages virt flags (suc left) i s = do
    (err, s) ← remap_page (page_address virt i) flags s
    elim (is_error err) [ true ↦ some (err, s) | false ↦ remap_pages virt flags left (suc i) s ]

  unfoldable pub virt_remap_range :
      (virt page_count flags : ℕ) → Space A.State → Option (Err × Space A.State)
  unfolding lock_virt
  virt_remap_range virt page_count flags s = do
    s ← lock_virt s
    (err, s) ← remap_pages virt flags page_count 0 s
    some (err, unlock_virt s)

  unfoldable pub virt_is_mapped : (virt : ℕ) → Space A.State → Option (Bool × Space A.State)
  unfolding lock_virt
  virt_is_mapped virt s = do
    s ← lock_virt s
    (pml1, s) ← walk A virt s
    elim pml1 [
      | none ↦ some (false, unlock_virt s)
      | some pml1 ↦ some ((s.tables pml1 (index 0 virt)).present, unlock_virt s)
    ]
