-- ===== src/Heap.antt =====
-- kernel/mem/alloc.c: the kernel heap. Each size class has a part of the address space of its own,
-- a watermark in it, and a list of freed blocks that is linked through the blocks' first words.
pub mod Steps
pub mod Class
pub mod Mark
pub mod Sizes
pub mod Sound
pub mod Alloc
pub mod Free
pub mod Copy
pub mod Realloc
mod Examples
use tomat_os.Base.{
  ℕ, zero, suc, ◌+◌, ◌-◌, ◌*◌, ◌/◌, ◌%◌, ◌^◌, Bool, true, false, Option, none, some, ltb, leb, ◌==◌,
  if◌then◌else◌, ◌>>=◌, update,
}
use tomat_os.Base.Bits.{count_leading_zeros}

-- The native numbers stand for addresses, and 0 for `NULL`.
pub record AllocRegion : Type 0 where
  pub locked : Bool
  pub freelist : ℕ
  pub watermark : ℕ
  pub top : ℕ

-- `word` is the memory: the eight bytes at an address.
pub record Heap : Type 0 where
  pub regions : ℕ → AllocRegion
  pub word : ℕ → ℕ

abbrev pub size_512gb : ℕ
size_512gb = 2 ^ 39

abbrev pub heap_base : ℕ
heap_base = 18446673704965373952

abbrev pub region_count : ℕ
region_count = 24

abbrev pub alloc_region_bottom : ℕ → ℕ
alloc_region_bottom order = order * size_512gb + heap_base

abbrev pub alloc_region_top : ℕ → ℕ
alloc_region_top order = (order + 1) * size_512gb + heap_base

-- The memory that is there at the start.
unfoldable pub init_alloc : (ℕ → ℕ) → Heap
init_alloc word = record {
  regions = λ order. record {
    locked = false;
    freelist = 0;
    watermark = alloc_region_bottom order;
    top = alloc_region_top order;
  };
  word = word;
}

-- `1 << n` is a shift of an `int`: it is undefined from 31 on.
unfoldable pub shift_one : ℕ → Option ℕ
shift_one n = if ltb n 31 then some (2 ^ n) else none

abbrev pub at_least_8 : ℕ → ℕ
at_least_8 size = if ltb size 8 then 8 else size

-- `aligned_size` of a size that is at least 8, and `order` of that. The `order` is never negative.
unfoldable pub aligned_size : ℕ → Option ℕ
unfolding shift_one
aligned_size size = shift_one (64 - count_leading_zeros 64 (size - 1))

unfoldable pub class_order : ℕ → ℕ
class_order aligned = 64 - 1 - count_leading_zeros 64 aligned - 3

-- Taking a lock that is held never returns.
unfoldable pub acquire_region : ℕ → Heap → Option Heap
acquire_region order h =
    if (h.regions order).locked
    then none
    else some
        (record h { regions = update h.regions order (record (h.regions order) { locked = true }) })

unfoldable pub release_region : ℕ → Heap → Heap
release_region order h = record h {
  regions = update h.regions order (record (h.regions order) { locked = false });
}

-- A block from the list, else one from the watermark, else `NULL`.
unfoldable pub pop_block : (order aligned : ℕ) → Heap → ℕ × Heap
pop_block order aligned h =
    let region = h.regions order in
    if region.freelist == 0
    then if ltb region.watermark region.top
      then (
        region.watermark,
        record h {
          regions =
              update h.regions order
                (record region { watermark = (region.watermark + aligned) % 2 ^ 64 });
        },
      )
      else (0, h)
    else (
      region.freelist,
      record h {
        regions = update h.regions order (record region { freelist = h.word region.freelist });
      },
    )

-- The critical section of `mem_alloc`.
unfoldable pub locked_pop : (order aligned : ℕ) → Heap → Option (ℕ × Heap)
unfolding acquire_region
locked_pop order aligned h = do
  h ← acquire_region order h
  let (block, h) = pop_block order aligned h
  some (block, release_region order h)

unfoldable pub mem_alloc : (size : ℕ) → Heap → Option (ℕ × Heap)
unfolding aligned_size locked_pop
mem_alloc size h = do
  aligned ← aligned_size (at_least_8 size)
  let order = class_order aligned
  if leb region_count order then some (0, h) else locked_pop order aligned h

-- The order of the part that an address is in.
abbrev pub address_order : ℕ → ℕ
address_order ptr = (ptr + 2 ^ 64 - heap_base) % 2 ^ 64 / size_512gb

-- `*block = region->freelist; region->freelist = block;`
unfoldable pub push_block : (order ptr : ℕ) → Heap → Heap
push_block order ptr h = record {
  regions = update h.regions order (record (h.regions order) { freelist = ptr });
  word = update h.word ptr (h.regions order).freelist;
}

-- The critical section of `mem_free`.
unfoldable pub locked_push : (order ptr : ℕ) → Heap → Option Heap
unfolding acquire_region
locked_push order ptr h = do
  h ← acquire_region order h
  some (release_region order (push_block order ptr h))

-- An address outside of the heap's parts has no region: the access is out of bounds.
unfoldable pub mem_free : (ptr : ℕ) → Heap → Option Heap
unfolding locked_push
mem_free ptr h =
    if ptr == 0
    then some h
    else if leb region_count (address_order ptr)
    then none
    else locked_push (address_order ptr) ptr h

-- `memcpy` of whole words.
unfoldable pub copy_words : (count to from : ℕ) → (ℕ → ℕ) → ℕ → ℕ
copy_words zero to from word = word
copy_words (suc count) to from word =
    copy_words count (to + 8) (from + 8) (update word to (word from))

-- Blocks are of whole words. `1ull << (order + 3)`, the size of the block at `ptr`, is undefined from
-- a shift of 64 on.
unfoldable pub mem_realloc : (ptr size : ℕ) → Heap → Option (ℕ × Heap)
mem_realloc ptr size h =
    if size == 0
    then (do h ← mem_free ptr h; some (0, h))
    else if ptr == 0
    then mem_alloc size h
    else let old_max_size = 2 ^ (address_order ptr + 3) in
      if leb 64 (address_order ptr + 3)
      then none
      else if leb size old_max_size
      then some (ptr, h)
      else (do
        (new_ptr, h) ← mem_alloc size h
        if new_ptr == 0 then some (0, h) else (do
          h ← mem_free ptr (record h { word = copy_words (old_max_size / 8) new_ptr ptr h.word })
          some (new_ptr, h)))
