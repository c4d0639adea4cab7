-- ===== src/Phys/Examples.antt =====
-- The physical allocator on concrete regions: a region of four pages above the direct map's base.
use mathlib.Core.Path.{fun_ext}
use tomat_os.Base.{
  ℕ, ◌+◌, ◌^◌, ◌≡◌, refl, sym, Bool, true, false, [], ◌∷◌, arith, Option, none, some, ◌>>=◌, subst,
  update, has, without, has-nil,
}
use tomat_os.Base.Bits.{count_leading_zeros}
use tomat_os.Phys.Blocks.{block_size}
use tomat_os.Phys.Region.{MemoryRegion, set_metadata, page_metadata, list_add, list_del}
use tomat_os.Phys.Region.Inv.{plus}
use tomat_os.Phys.Region.Moves.{IsValid}
use tomat_os.Phys.Region.Put.{put_live}
use tomat_os.Phys.Region.Fresh.{fresh_region, fresh_region-IsValid, no_blocks, IsUnclaimed, adopt}
use tomat_os.Phys.Levels.{get_level_by_size, IsLeast, get_level_by_size-IsLeast}
use tomat_os.Phys.Buddy.{allocate_from_level, free_at_level}
use tomat_os.Phys.Buddy.Alloc.{Allocates, allocate_from_level-Allocated}
use tomat_os.Phys.Buddy.Free.{Frees, free_at_level-Freed}
use tomat_os.Phys.Fill.{add_memory_to_region}
use tomat_os.Phys.Fill.Sound.{IsAddable, Adds, add_memory_to_region-IsAdded}
use tomat_os.Phys.Allocator.{Memory, contains, phys_alloc, phys_free}
use tomat_os.Phys.Allocator.Sound.{IsSound}
use tomat_os.Phys.Allocator.Alloc.{Serves, phys_alloc-IsServed}
use tomat_os.Phys.Allocator.Free.{GivesBack, phys_free-IsSound, phys_alloc-wraps}

abbrev ram : ℕ
ram = 18446603336355446784

abbrev empty_region : MemoryRegion
empty_region = fresh_region ram 4

empty_region-IsValid : IsValid empty_region no_blocks
empty_region-IsValid = fresh_region-IsValid ram 4 refl (omega arith)

empty_region-IsUnclaimed : (hi : ℕ) → IsUnclaimed empty_region no_blocks ram hi
empty_region-IsUnclaimed hi = record {
  not_free = λ x h k c. absurd (ground (arith, c.holds, has-nil c.addr));
  not_live = λ x h k c. absurd (ground (arith, c.holds));
}

empty_region-IsAddable : IsAddable empty_region no_blocks ram 4
empty_region-IsAddable = record {
  valid = empty_region-IsValid;
  paged = refl;
  from_base = omega arith;
  to_end = omega arith;
  unclaimed = empty_region-IsUnclaimed _;
}

add_memory_to_region_example : Adds no_blocks 4 ram empty_region
add_memory_to_region_example =
    add_memory_to_region-IsAdded 4 ram empty_region empty_region-IsAddable

abbrev or_empty : Option MemoryRegion → MemoryRegion
or_empty none = empty_region
or_empty (some r) = r

abbrev free_region : MemoryRegion
free_region = or_empty (add_memory_to_region empty_region ram 4)

free_region-IsValid : IsValid free_region no_blocks
free_region-IsValid =
    let (r, run, a) = add_memory_to_region-IsAdded 4 ram empty_region empty_region-IsAddable in
    subst (λ o. IsValid (or_empty o) no_blocks) (sym run) a.valid

allocate_from_level_example : Allocates no_blocks 9 free_region
allocate_from_level_example =
    allocate_from_level-Allocated free_region-IsValid 9 (omega arith) (omega arith)

-- The first page is handed out.
abbrev one_page : ℕ → ℕ → Bool
one_page = plus no_blocks 8 ram

abbrev used_region : MemoryRegion
used_region = set_metadata 0 8 false empty_region

used_region-IsValid : IsValid used_region one_page
unfolding block_size
used_region-IsValid = put_live 8 ram (
    adopt 8 empty_region-IsValid (empty_region-IsUnclaimed (ram + 4096))
      (record {
        below = omega arith;
        paged = omega arith;
        aligned = refl;
        from_base = omega arith;
        to_end = omega arith;
      })
      (omega arith))

free_at_level_example : Frees one_page 8 ram used_region
free_at_level_example = free_at_level-Freed 8 ram used_region-IsValid refl

get_level_by_size-IsLeast_example : IsLeast 4097
get_level_by_size-IsLeast_example = get_level_by_size-IsLeast 4097 (omega arith)

-- A core 0 that holds no page in reserve.
abbrev machine : MemoryRegion → Memory
machine r = record { regions = r ∷ []; locked = false; lock_cpu = none; reserved_page = λ _. none }

machine-IsSound :
    (r : MemoryRegion) (live : ℕ → ℕ → Bool)
    → IsValid r live
    → ((l a : ℕ) → live l a ≡ true → contains r a ≡ true)
    → IsSound live (machine r)
machine-IsSound r live v inside = record {
  unlocked = refl;
  no_holder = refl;
  regional = record {
    valid = (subst (IsValid r) (fun_ext λ l. fun_ext λ a. ground (arith, inside l a)) v, tt);
    clear = (tt, tt);
    homes = λ l a h. ground (arith, inside l a);
  };
  reserve = record {
    taken = λ cpu p h. absurd (ground arith);
    unshared = λ c d p h. absurd (ground arith);
  };
}

free_machine-IsSound : IsSound no_blocks (machine free_region)
free_machine-IsSound =
    machine-IsSound free_region no_blocks free_region-IsValid λ l a h. absurd (ground arith)

used_machine-IsSound : IsSound one_page (machine used_region)
unfolding set_metadata
used_machine-IsSound =
    machine-IsSound used_region one_page used_region-IsValid λ l a h. ground arith

phys_alloc_example : Serves no_blocks 0 8192 (machine free_region)
phys_alloc_example = phys_alloc-IsServed 0 8192 free_machine-IsSound (omega arith) (omega arith)

phys_free_example : GivesBack one_page 8 ram (machine used_region)
phys_free_example = phys_free-IsSound 8 ram used_machine-IsSound refl λ cpu h. ground arith

-- Core 2 is inside the allocator, and has the first page in reserve.
abbrev nested : Memory
nested = record (machine used_region) {
  locked = true;
  lock_cpu = some 2;
  reserved_page = update (λ _. none) 2 (some ram);
}

phys_alloc-wraps_example :
    phys_alloc 0 (4096 + 2 ^ 32) (machine free_region) ≡ phys_alloc 0 4096 (machine free_region)
phys_alloc-wraps_example = phys_alloc-wraps 0 4096 (machine free_region) refl

-- Two allocations, then the giving back of the first.
abbrev twice_and_back : (first second : ℕ) → Memory → Option (Option ℕ × Option ℕ × Memory)
twice_and_back first second m = do
  (p, m) ← phys_alloc 0 first m
  (q, m) ← phys_alloc 0 second m
  m ← phys_free p m
  some (p, q, m)

abbrev blocks_after : (first second third fourth : ℕ) → Option (Option ℕ × Option ℕ)
blocks_after first second third fourth = do
  (p, q, m) ← twice_and_back first second (machine free_region)
  (r, m) ← phys_alloc 0 third m
  (s, m) ← phys_alloc 0 fourth m
  some (r, s)

-- Blocks of whole pages: the freed page is handed out again.
pages_run : blocks_after 4096 8192 4096 4096 ≡ some (some ram, none)
unfolding phys_alloc phys_free add_memory_to_region get_level_by_size allocate_from_level
    count_leading_zeros free_at_level page_metadata block_size list_add set_metadata list_del has
    without
pages_run = refl

-- Two blocks of one page share the page's metadata: the first is given back at the level of the
-- second, and then 2048 bytes and 1024 bytes inside of them are handed out at once.
shared_page_run : blocks_after 16 2048 2048 1024 ≡ some (some ram, some (ram + 1024))
unfolding phys_alloc phys_free add_memory_to_region get_level_by_size allocate_from_level
    count_leading_zeros free_at_level page_metadata block_size list_add set_metadata list_del has
    without
shared_page_run = refl
