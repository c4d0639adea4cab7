-- ===== src/Virt/Pages.antt =====
-- kernel/mem/phys.h: what the page tables need of an allocator of whole pages. Pages are addresses in
-- the direct map, and their frames are the numbers of the physical pages.
use tomat_os.Base.{ℕ, ◌+◌, ◌-◌, ◌*◌, ◌/◌, ◌%◌, ◌^◌, ◌<◌, ◌≡◌, Bool, true, false, Option, none, some}

abbrev pub direct_map_offset : ℕ
direct_map_offset = 18446603336221196288

-- `DIRECT_TO_PHYS(page) >> 12`, as the 40 bits of an entry hold it.
abbrev pub frame_of : ℕ → ℕ
frame_of page = (page + 2 ^ 64 - direct_map_offset) % 2 ^ 64 / 4096 % 2 ^ 40

-- `PHYS_TO_DIRECT(frame << 12)`
abbrev pub page_of : ℕ → ℕ
page_of frame = (frame * 4096 + direct_map_offset) % 2 ^ 64

-- A page that is returned was not handed out before, and is now.
abbrev pub IsFresh : (live live' : ℕ → Bool) → Option ℕ → Type 0
IsFresh live live' none = Unit
IsFresh live live' (some page) =
    (frame : ℕ) × (page ≡ direct_map_offset + 4096 * frame)
    × (frame < 2 ^ 40)
    × (live frame ≡ false)
    × (live' frame ≡ true)

-- `Holds live s`: the frames `live` are handed out in the state `s`.
pub record PageAllocator : Type 1 where
  pub State : Type 0
  pub alloc : State → Option (Option ℕ × State)
  pub free : ℕ → State → Option State
  pub Holds : (ℕ → Bool) → State → Type 0
  pub alloc-Holds :
      (live : ℕ → Bool) (s : State)
      → Holds live s
      → (live' : ℕ → Bool) × (s' : State) × (page : Option ℕ) × (alloc s ≡ some (page, s'))
        × Holds live' s'
        × ((f : ℕ) → live f ≡ true → live' f ≡ true)
        × IsFresh live live' page
