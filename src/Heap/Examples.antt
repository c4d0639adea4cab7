-- ===== src/Heap/Examples.antt =====
-- The kernel heap on concrete states.
use tomat_os.Base.{
  ℕ, ◌+◌, ◌^◌, ◌≡◌, refl, Bool, false, Option, none, some, ◌>>=◌, arith, plus, update,
}
use tomat_os.Base.Bits.{count_leading_zeros}
use tomat_os.Heap.{
  Heap, init_alloc, alloc_region_bottom, alloc_region_top, mem_alloc, mem_free, mem_realloc,
  copy_words, aligned_size, shift_one, class_order, locked_pop, locked_push, acquire_region,
  release_region, pop_block, push_block,
}
use tomat_os.Heap.Class.{block_bytes}
use tomat_os.Heap.Mark.{grow-IsClass}
use tomat_os.Heap.Steps.{with_region, unlocked_region}
use tomat_os.Heap.Sound.{IsHeap, init_alloc-IsHeap, with_region-IsHeap, plus-IsClass}
use tomat_os.Heap.Alloc.{Serves, mem_alloc-Served, mem_alloc-undefined}
use tomat_os.Heap.Free.{GivesBack, mem_free-IsFreed}
use tomat_os.Heap.Realloc.{Reallocates, mem_realloc-Moved}

abbrev nothing : ℕ → ℕ → Bool
nothing o a = false

abbrev empty_heap : Heap
empty_heap = init_alloc (λ a. 0)

init_alloc-IsHeap_example : IsHeap nothing empty_heap
init_alloc-IsHeap_example = init_alloc-IsHeap (λ a. 0)

mem_alloc-Served_example : Serves nothing 100 empty_heap
mem_alloc-Served_example = mem_alloc-Served 100 (init_alloc-IsHeap (λ a. 0)) (omega arith)

mem_alloc-undefined_example : mem_alloc (2 ^ 40) empty_heap ≡ none
mem_alloc-undefined_example = mem_alloc-undefined (2 ^ 40) empty_heap (omega arith) (omega arith)

-- The first block of 8 bytes is handed out.
abbrev one_block : ℕ → ℕ → Bool
one_block = plus nothing 0 (alloc_region_bottom 0)

abbrev used_heap : Heap
used_heap =
    with_region 0 (unlocked_region 0 (alloc_region_bottom 0 + block_bytes 0) (alloc_region_top 0))
      (λ a. 0) empty_heap

used_heap-IsHeap : IsHeap one_block used_heap
unfolding init_alloc
used_heap-IsHeap =
    let v = init_alloc-IsHeap (λ a. 0) in
    with_region-IsHeap 0 0 (alloc_region_bottom 0 + block_bytes 0) (v.free 0) v
      (grow-IsClass (v.classes 0 (omega arith)) (omega arith) (omega arith))
      (λ j e k. plus-IsClass 0 (alloc_region_bottom 0) e (v.classes j k)) (λ m a h. ground arith)

mem_free-IsFreed_example : GivesBack one_block 0 (alloc_region_bottom 0) used_heap
mem_free-IsFreed_example = mem_free-IsFreed 0 (alloc_region_bottom 0) used_heap-IsHeap refl

mem_realloc-Moved_example : Reallocates one_block 0 (alloc_region_bottom 0) 100 used_heap
mem_realloc-Moved_example =
    mem_realloc-Moved 0 (alloc_region_bottom 0) 100 used_heap-IsHeap refl (omega arith)
      (omega arith)

-- A block is allocated, freed, and allocated again; then it moves to a larger class.
abbrev run : Option (ℕ × ℕ × ℕ × ℕ)
run = do
  (p, h) ← mem_alloc 100 empty_heap
  h ← mem_free p h
  (q, h) ← mem_alloc 65 h
  (r, h) ← mem_realloc q 129 (record h { word = update h.word q 5 })
  some (p, q, r, h.word r)

run_lem : run ≡ some (alloc_region_bottom 4, alloc_region_bottom 4, alloc_region_bottom 5, 5)
unfolding mem_alloc mem_free mem_realloc copy_words init_alloc aligned_size shift_one class_order
    locked_pop locked_push acquire_region release_region pop_block push_block count_leading_zeros
run_lem = refl
