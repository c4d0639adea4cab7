-- ===== src/Virt/Examples.antt =====
-- Page tables over a concrete allocator, which hands out the frames in order up to a limit.
use tomat_os.Base.{
  ℕ, suc, ◌+◌, ◌*◌, ◌^◌, ◌≤◌, ◌≡◌, refl, Bool, true, false, Option, none, some, arith, ltb, has,
  without, if◌then◌else◌, Bool-cases, inl, inr,
}
use tomat_os.Phys.Allocator.{Memory, phys_alloc}
use tomat_os.Errors.{Err, no_error, out_of_memory}
use tomat_os.Virt.Pages.{PageAllocator, direct_map_offset, IsFresh}
use tomat_os.Virt.Tables.{
  Space, empty_entry, virt_map_page, lock_virt, walk, walk_from_pml3, get_next_level,
}
use tomat_os.Virt.Mapping.{home_slot}
use tomat_os.Virt.Shadow.{shadowed}
use tomat_os.Phys.Fill.{add_memory_to_region}
use tomat_os.Phys.Levels.{get_level_by_size}
use tomat_os.Base.Bits.{count_leading_zeros}
use tomat_os.Phys.Buddy.{allocate_from_level, free_at_level}
use tomat_os.Phys.Blocks.{block_size}
use tomat_os.Phys.Region.{list_add, list_del, unlink, on_list, set_metadata, page_metadata}
use tomat_os.Virt.Init.{make_shadow, make_top}
use tomat_os.Virt.Booted.{booted}
use tomat_os.Phys.Pages.{phys_pages}
use tomat_os.Virt.Ranges.{
  virt_remap_range, remap_pages, remap_page, virt_alloc_range, alloc_pages, alloc_page, rollback,
}

-- The next frame, and the number of frames.
abbrev pub Bump : Type 0
Bump = ℕ × ℕ

abbrev pub bump_alloc : Bump → Option (Option ℕ × Bump)
bump_alloc (next, limit) =
    if ltb next limit
    then some (some (direct_map_offset + 4096 * next), (suc next, limit))
    else some (none, (next, limit))

abbrev pub BumpHolds : (ℕ → Bool) → Bump → Type 0
BumpHolds live (next, limit) = (limit ≤ 2 ^ 40) × ((f : ℕ) → live f ≡ ltb f next)

pub bump_alloc-Holds :
    (live : ℕ → Bool) (s : Bump)
    → BumpHolds live s
    → (live' : ℕ → Bool) × (s' : Bump) × (page : Option ℕ) × (bump_alloc s ≡ some (page, s'))
      × BumpHolds live' s'
      × ((f : ℕ) → live f ≡ true → live' f ≡ true)
      × IsFresh live live' page
bump_alloc-Holds live (next, limit) (le, is) = elim (Bool-cases (ltb next limit)) [
  | inr n ↦ (live, (next, limit), none, rw n refl, (le, is), λ f h. h, tt)
  | inl y ↦ (
    (λ f. ltb f (suc next)),
    (suc next, limit),
    some (direct_map_offset + 4096 * next),
    rw y refl,
    (le, λ f. refl),
    λ f h. (let e = is f in ground arith),
    (next, refl, ground arith, (let e = is next in ground arith), ground arith),
  )
]

abbrev pub bump : PageAllocator
bump = record {
  State = Bump;
  alloc = bump_alloc;
  free = λ p s. some s;
  Holds = BumpHolds;
  alloc-Holds = bump_alloc-Holds;
}

-- Frame 0 is the PML4.
abbrev pub empty_space : (limit : ℕ) → Space Bump
empty_space limit = record {
  tables = λ t i. empty_entry;
  cr3 = 0;
  pages = (1, limit);
  locked = false;
}

-- The page at 4096 is mapped, read-only.
abbrev or_booted : Option (Err × Space Memory) → Space Memory
or_booted none = booted
or_booted (some (err, s)) = s

abbrev mapped : Space Memory
mapped = or_booted (virt_map_page (phys_pages 0) 8192 4096 0 booted)

-- With five frames the second page of a range gets no memory, and the call does not return.
abbrev answered : Option (Err × Space Memory) → Option Err
answered none = none
answered (some (err, s)) = some err

abbrev answer : {X : Type 0} → Option (X × Space Bump) → Option X
answer none = none
answer (some (x, s)) = some x

short_run : answer (virt_alloc_range bump 4096 2 (empty_space 5)) ≡ none
unfolding virt_alloc_range alloc_pages alloc_page rollback walk walk_from_pml3 get_next_level
    lock_virt
short_run = refl

long_run : answer (virt_alloc_range bump 4096 2 (empty_space 6)) ≡ some no_error
unfolding virt_alloc_range alloc_pages alloc_page rollback walk walk_from_pml3 get_next_level
    lock_virt
long_run = refl

first_page_run : answer (virt_alloc_range bump 4096 2 (empty_space 4)) ≡ some out_of_memory
unfolding virt_alloc_range alloc_pages alloc_page rollback walk walk_from_pml3 get_next_level
    lock_virt
first_page_run = refl

-- The mapped page gets the permission to write.
remap_run : answered (virt_remap_range (phys_pages 0) 4096 1 1 mapped) ≡ some no_error
unfolding virt_remap_range remap_pages remap_page virt_map_page walk walk_from_pml3 get_next_level
    lock_virt shadowed home_slot phys_alloc add_memory_to_region get_level_by_size
    count_leading_zeros allocate_from_level free_at_level list_add list_del unlink on_list
    set_metadata page_metadata block_size has without
remap_run = refl

-- Two entries of the shadow are made.
abbrev unshadowed : Space Memory
unshadowed = record booted { tables = λ t i. empty_entry }

shadow_run : answered (make_shadow (phys_pages 0) 2 0 unshadowed) ≡ some no_error
unfolding make_shadow make_top phys_alloc add_memory_to_region get_level_by_size count_leading_zeros
    allocate_from_level free_at_level list_add list_del unlink on_list set_metadata page_metadata
    block_size has without
shadow_run = refl
