-- ===== src/Heap/Free.antt =====
-- `mem_free` takes a block back, whatever its class.
use tomat_os.Base.{
  ℕ, ◌+◌, ◌%◌, ◌≤◌, ◌<◌, ◌≡◌, ◌≢◌, ap, ◌∙◌, inl, inr, Bool, true, false, some, ◌∷◌, arith, ◌==◌,
  ==-ne, Bool-cases, minus, has, leb, update, update-other, subst,
}
use tomat_os.Base.Bits.{pow-pos}
use tomat_os.Phys.Blocks.{in_block, eq_of_index}
use tomat_os.Heap.{
  Heap, alloc_region_top, alloc_region_bottom, region_count, address_order, mem_free,
}
use tomat_os.Heap.Class.{IsClass, block_bytes, push-IsClass, write-IsClass}
use tomat_os.Heap.Mark.{next_multiple}
use tomat_os.Heap.Steps.{with_region, unlocked_region, locked_push_lem}
use tomat_os.Heap.Sound.{IsHeap, with_region-IsHeap, minus-IsClass}

module _ {live : ℕ → ℕ → Bool} {h : Heap} (v : IsHeap live h) (o a : ℕ)
    (out : live o a ≡ true) where
  abbrev lt : o < region_count
  lt = v.known o a out

  abbrev class : IsClass o (h.regions o).freelist (h.regions o).watermark h.word live (v.free o)
  class = v.classes o lt

  -- The block's bytes lie in the part of its class.
  pub block_end : a + block_bytes o ≤ alloc_region_top o
  block_end =
      let b = class.live_block a out in
      omega (
        arith,
        next_multiple (block_bytes o) a (h.regions o).watermark (pow-pos (o + 3)) b.aligned
            class.mark_aligned b.below,
        class.to_top,
      )

  pub block_start : alloc_region_bottom o ≤ a
  block_start = (class.live_block a out).from_bottom

  -- No free block starts inside of a block that is handed out.
  pub inside-absent :
      (q j : ℕ) → a ≤ q → q < a + block_bytes o → j < region_count → has q (v.free j) ≡ false
  inside-absent q j lo hi k = elim (Bool-cases (has q (v.free j))) [
    | inr no_node ↦ no_node
    | inl node ↦
        let C = v.classes j k in
        let B = C.free_block q node in
        let part : (o == j) ≡ true =
          ground (arith, block_end, block_start, B.from_bottom, B.below, C.to_top) in
        let same : j ≡ o = ground arith in
        let aligned : q % block_bytes o ≡ 0 = subst (λ i. q % block_bytes i ≡ 0) same B.aligned in
        let at : q ≡ a =
          eq_of_index (block_bytes o) q a aligned (class.live_block a out).aligned (
            in_block (block_bytes o) (pow-pos (o + 3)) a q (class.live_block a out).aligned lo
              hi) in
        let held : live j q ≡ true = ap (λ i. live i q) same ∙ ap (live o) at ∙ out in
        absurd (ground (arith, C.alone q node))
  ]

  pub address_order_lem : address_order a ≡ o
  address_order_lem = omega (arith, block_start, block_end, pow-pos (o + 3), lt)

  pub not-null : a ≢ 0
  not-null z = omega (arith, block_start)

abbrev pub GivesBack : (live : ℕ → ℕ → Bool) (o p : ℕ) → Heap → Type 0
GivesBack live o p h =
    (h' : Heap) × (mem_free p h ≡ some h')
    × IsHeap (minus live o p) h'
    × ((q : ℕ) → q ≢ p → h'.word q ≡ h.word q)

-- In a well-formed heap `mem_free` of a block that is handed out does not fault, finds the block's
-- class, leaves the heap well-formed with that block alone no longer handed out, and writes to no
-- other word than the block's first.
pub mem_free-IsFreed :
    {live : ℕ → ℕ → Bool} {h : Heap} (o p : ℕ)
    → IsHeap live h
    → live o p ≡ true
    → GivesBack live o p h
unfolding mem_free
mem_free-IsFreed {live} {h} o p v out =
    let lt = v.known o p out in
    let at : address_order p ≡ o = address_order_lem v o p out in
    let n : p ≢ 0 = not-null v o p out in
    let in_range : leb region_count o ≡ false = ground arith in
    (
      with_region o (unlocked_region p (h.regions o).watermark (h.regions o).top)
          (update h.word p (h.regions o).freelist) h,
      rw (==-ne p 0 n, at, in_range) (locked_push_lem o h (v.unlocked o lt) p),
      with_region-IsHeap o p (h.regions o).watermark (p ∷ v.free o) v
          (push-IsClass p (v.free o) n out (v.classes o lt))
          (λ j e k. minus-IsClass o p e (
            write-IsClass p (h.regions o).freelist (v.free j)
              (inside-absent v o p out p j (omega arith) (omega (arith, pow-pos (o + 3))) k)
              (v.classes j k)))
          (λ m a k. v.known m a (ground arith)),
      λ q ne. update-other h.word p q (h.regions o).freelist (ground arith),
    )
