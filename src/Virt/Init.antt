-- ===== src/Virt/Init.antt =====
-- kernel/mem/virt.c: the loop of `init_virt` that makes the shadow.
pub mod Linked
pub mod Made
use tomat_os.Base.{
  ℕ, zero, suc, ◌+◌, ◌*◌, ◌%◌, ◌^◌, Bool, true, false, ◌&&◌, Option, none, some, ltb, leb,
  if◌then◌else◌, ◌>>=◌,
}
use tomat_os.Errors.{Err, no_error, out_of_memory, is_error}
use tomat_os.Virt.Pages.{PageAllocator, frame_of, direct_map_offset}
use tomat_os.Virt.Tables.{PageEntry, Space, index, set_entry, clear_table}

abbrev pub top_virt : ℕ → ℕ
top_virt i = direct_map_offset + i * 2 ^ 39

abbrev pub in_heap : ℕ → Bool
in_heap virt = leb 18446604435732824064 virt && ltb virt 18446619279139799040

-- The entry of the shadow, which is not writeable over the heap of the garbage collector.
abbrev pub shadow_entry : (i : ℕ) → PageEntry → PageEntry
shadow_entry i e = if in_heap (top_virt i) then record e { writeable = false } else e

abbrev pub copy_shadow : {S : Type 0} → (i : ℕ) → Space S → Space S
copy_shadow i s = record s {
  tables =
      set_entry s.tables s.cr3 (index 3 ((top_virt i + 2 ^ 44) % 2 ^ 64))
        (shadow_entry i (s.tables s.cr3 (index 3 (top_virt i))));
}

module _ (A : PageAllocator) where
  -- The entry of the PML4, with a new table if there is none.
  unfoldable pub make_top : (i : ℕ) → Space A.State → Option (Err × Space A.State)
  make_top i s =
      let entry = s.tables s.cr3 (index 3 (top_virt i)) in
      if entry.present then some (no_error, s) else (do
        (page, pages) ← A.alloc s.pages
        elim page [
          | none ↦ some (out_of_memory, record s { pages = pages })
          | some page ↦
              let frame = frame_of page in
              some (
                no_error,
                record s {
                  pages = pages;
                  tables =
                      set_entry (clear_table s.tables frame) s.cr3 (index 3 (top_virt i))
                        (record entry {
                          present = true;
                          writeable = true;
                          no_execute = true;
                          frame = frame;
                        });
                },
              )
        ])

  unfoldable pub make_shadow : (left i : ℕ) → Space A.State → Option (Err × Space A.State)
  make_shadow zero i s = some (no_error, s)
  make_shadow (suc left) i s = do
    (err, s) ← make_top i s
    if is_error err then some (err, s) else make_shadow left (suc i) (copy_shadow i s)
