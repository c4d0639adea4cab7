-- ===== src/Virt/PageFault.antt =====
-- kernel/mem/virt.c: the page fault handler, which maps memory on demand.
use tomat_os.Base.{
  ℕ, ◌+◌, ◌-◌, ◌*◌, ◌/◌, ◌%◌, ◌^◌, Bool, false, not, ◌&&◌, ◌||◌, Option, none, some, ltb, leb,
  if◌then◌else◌, ◌>>=◌,
}
use tomat_os.Errors.{is_error}
use tomat_os.Virt.Pages.{PageAllocator, direct_map_offset}
use tomat_os.Virt.Tables.{Space, virt_map_page}

-- `map_flags_t`
abbrev pub map_perm_w : ℕ
map_perm_w = 1

abbrev pub between : (lo hi addr : ℕ) → Bool
between lo hi addr = leb lo addr && ltb addr hi

-- Thread structures, the heap of the garbage collector, and the kernel heap.
abbrev pub is_lazy : ℕ → Bool
is_lazy addr =
    between 18446656112779329536 18446656662535143424 addr
    || between 18446604435732824064 18446619279139799040 addr
    || between 18446673704965373952 18446691297151418368 addr

abbrev pub in_stacks : ℕ → Bool
in_stacks addr = between 18446619828895612928 18446620378651426816 addr

abbrev pub in_small_stacks : ℕ → Bool
in_small_stacks addr = between 18446620378651426816 18446620928407240704 addr

abbrev pub in_direct_map : ℕ → Bool
in_direct_map addr = between direct_map_offset (direct_map_offset + 2 ^ 39) addr

abbrev pub align_down : (addr align : ℕ) → ℕ
align_down addr align = addr / align * align

-- The lowest 2 MB of a stack's 8 MB, and the lowest 4 KB of a small stack's 32 KB.
abbrev pub in_guard : ℕ → Bool
in_guard addr =
    if is_lazy addr
    then false
    else if in_stacks addr
    then not (leb (align_down addr (2 ^ 23) + 2 ^ 21) addr)
    else in_small_stacks addr && not (leb (align_down addr (2 ^ 15) + 2 ^ 12) addr)

-- The memory of the address comes from the allocator.
abbrev pub is_on_demand : ℕ → Bool
is_on_demand addr = is_lazy addr || in_stacks addr || in_small_stacks addr

module _ (A : PageAllocator) where
  -- From the allocation on.
  unfoldable pub map_new_page : (addr : ℕ) → Space A.State → Option (Bool × Space A.State)
  map_new_page addr s = do
    (page, pages) ← A.alloc s.pages
    elim page [
      | none ↦ some (false, record s { pages = pages })
      | some page ↦ (do
        (err, s) ←
            virt_map_page A ((page + 2 ^ 64 - direct_map_offset) % 2 ^ 64) (align_down addr 4096)
              map_perm_w (record s { pages = pages })
        some (not (is_error err), s))
    ]

  unfoldable pub virt_handle_page_fault : (addr : ℕ) → Space A.State → Option (Bool × Space A.State)
  virt_handle_page_fault addr s =
      if is_lazy addr
      then map_new_page addr s
      else if in_stacks addr
      then (if leb (align_down addr (2 ^ 23) + 2 ^ 21) addr
          then map_new_page addr s
          else some (false, s))
      else if in_small_stacks addr
      then (if leb (align_down addr (2 ^ 15) + 2 ^ 12) addr
          then map_new_page addr s
          else some (false, s))
      else if in_direct_map addr
      then (do
        (err, s) ←
            virt_map_page A ((addr + 2 ^ 64 - direct_map_offset) % 2 ^ 64) (align_down addr 4096)
              map_perm_w s
        some (not (is_error err), s))
      else some (false, s)
