-- ===== src/Heap/Alloc.antt =====
-- `mem_alloc` hands out a block of the least class that nobody holds.
use tomat_os.Base.{
  ℕ, ◌+◌, ◌%◌, ◌^◌, ◌≤◌, ◌<◌, ◌≡◌, ◌≢◌, ◌⊎◌, refl, sym, ap, ◌∙◌, inl, inr, Bool, true, false, some,
  none, List, [], ◌∷◌, arith, ◌==◌, Bool-cases, List-cases, plus, has-nil, has-head, dec_lt, leb,
  subst,
}
use tomat_os.Heap.{Heap, alloc_region_top, region_count, class_order, mem_alloc, locked_pop}
use tomat_os.Heap.Class.{IsBlock, IsClass, block_bytes, pop-IsClass}
use tomat_os.Heap.Mark.{grow-IsClass, grow_room, mark-fresh}
use tomat_os.Heap.Sizes.{IsSizeClass, size_class, size_too_big, size_undefined}
use tomat_os.Heap.Steps.{
  with_region, unlocked_region, locked_pop-list, locked_pop-mark, locked_pop-empty,
}
use tomat_os.Heap.Sound.{IsHeap, with_region-IsHeap, plus-IsClass}

-- Every block of the class is handed out.
abbrev pub IsFull : (live : ℕ → ℕ → Bool) (o : ℕ) → Type 0
IsFull live o = (a : ℕ) → IsBlock o (alloc_region_top o) a → live o a ≡ true

-- The block at `p` of class `o` is handed out, and was not before.
pub record IsGiven (live : ℕ → ℕ → Bool) (o p : ℕ) (h h' : Heap) : Type 0 where
  pub sound : IsHeap (plus live o p) h'
  pub fresh : live o p ≡ false
  pub present : p ≢ 0
  pub aligned : p % block_bytes o ≡ 0
  pub same_memory : h'.word ≡ h.word

-- The result is `NULL`, or a block that was given.
abbrev pub Answer : (live : ℕ → ℕ → Bool) (o p : ℕ) (h h' : Heap) → Type 0
Answer live o p h h' =
    ((p ≡ 0) × IsHeap live h' × (h'.word ≡ h.word) × IsFull live o) ⊎ IsGiven live o p h h'

module _ {live : ℕ → ℕ → Bool} {h : Heap} (v : IsHeap live h) (o : ℕ) (lt : o < region_count) where
  abbrev c : IsClass o (h.regions o).freelist (h.regions o).watermark h.word live (v.free o)
  c = v.classes o lt

  plus-known : (p m a : ℕ) → plus live o p m a ≡ true → m < region_count
  plus-known p m a k = elim (Bool-cases (m == o)) [
    | inl y ↦ ground arith
    | inr y ↦ v.known m a (ground arith)
  ]

  pop_listed :
      (x : ℕ) (xs : List ℕ)
      → v.free o ≡ x ∷ xs
      → (p : ℕ) × (h' : Heap) × (locked_pop o (block_bytes o) h ≡ some (p, h'))
        × Answer live o p h h'
  pop_listed x xs e =
      let c' = subst (IsClass o (h.regions o).freelist (h.regions o).watermark h.word live) e c in
      let (at, n, rest) = c'.chain in
      let b = c'.free_block x (has-head x xs) in
      (
        (h.regions o).freelist,
        with_region o
            (unlocked_region (h.word (h.regions o).freelist) (h.regions o).watermark
              (h.regions o).top)
            h.word h,
        locked_pop-list o h (v.unlocked o lt) (block_bytes o) n,
        subst
            (λ p. Answer live o p h (
              with_region o
                (unlocked_region (h.word (h.regions o).freelist) (h.regions o).watermark
                  (h.regions o).top)
                h.word h))
            (sym at)
            (inr (record {
              sound =
                  with_region-IsHeap o _ _ xs v (pop-IsClass x xs c')
                    (λ j e lt. plus-IsClass o x e (v.classes j lt)) (plus-known x);
              fresh = c'.alone x (has-head x xs);
              present = λ z. n (at ∙ z);
              aligned = b.aligned;
              same_memory = refl;
            })),
      )

  pop_new :
      v.free o ≡ []
      → (p : ℕ) × (h' : Heap) × (locked_pop o (block_bytes o) h ≡ some (p, h'))
        × Answer live o p h h'
  pop_new e =
      let c' = subst (IsClass o (h.regions o).freelist (h.regions o).watermark h.word live) e c in
      let top = v.tops o lt in
      elim (dec_lt (h.regions o).watermark (h.regions o).top) [
        | yes room ↦
            let low : (h.regions o).watermark < alloc_region_top o = omega arith in
            let up = grow_room o _ lt c'.mark_aligned low in
            let small : ((h.regions o).watermark + block_bytes o) % 2 ^ 64
                ≡ (h.regions o).watermark + block_bytes o =
              omega arith in
            (
              (h.regions o).watermark,
              with_region o
                  (unlocked_region (h.regions o).freelist ((h.regions o).watermark + block_bytes o)
                    (h.regions o).top)
                  h.word h,
              locked_pop-mark o h (v.unlocked o lt) (block_bytes o) c'.chain room
                  ∙ ap
                      (λ t. some (
                        (h.regions o).watermark,
                        with_region o (unlocked_region (h.regions o).freelist t (h.regions o).top)
                            h.word h,
                      ))
                      small,
              inr (record {
                sound =
                    with_region-IsHeap o _ _ [] v (grow-IsClass c' lt low)
                      (λ j e lt. plus-IsClass o (h.regions o).watermark e (v.classes j lt))
                      (plus-known (h.regions o).watermark);
                fresh = mark-fresh c' lt low;
                present = λ z. (let b = c'.from_bottom in omega arith);
                aligned = c'.mark_aligned;
                same_memory = refl;
              }),
            )
        | no full ↦ (
          0,
          with_region o
              (unlocked_region (h.regions o).freelist (h.regions o).watermark (h.regions o).top)
              h.word h,
          locked_pop-empty o h (v.unlocked o lt) (block_bytes o) c'.chain (omega arith),
          inl (
            refl,
            with_region-IsHeap o _ _ [] v c' (λ j e lt. v.classes j lt) v.known,
            refl,
            λ a b. ground (
              arith,
              has-nil a,
              c'.all a (record {
                from_bottom = b.from_bottom;
                below = omega (arith, b.below);
                aligned = b.aligned;
              }),
            ),
          ),
        )
      ]

  pub locked_pop-Answer :
      (p : ℕ) × (h' : Heap) × (locked_pop o (block_bytes o) h ≡ some (p, h')) × Answer live o p h h'
  locked_pop-Answer = elim (List-cases (v.free o)) [
    | inl e ↦ pop_new e
    | inr (x, xs, e) ↦ pop_listed x xs e
  ]

abbrev pub Serves : (live : ℕ → ℕ → Bool) (size : ℕ) → Heap → Type 0
Serves live size h =
    (o : ℕ) × (p : ℕ) × (h' : Heap) × (mem_alloc size h ≡ some (p, h'))
    × IsSizeClass size o
    × Answer live o p h h'

-- In a well-formed heap `mem_alloc` of at most 64 MB does not fault. With the least class that holds
-- the size, it returns `NULL` only if every block of that class is handed out; else it returns an
-- aligned block of the class that was not handed out, which is handed out now. Either way the heap
-- stays well-formed and no memory is written.
pub mem_alloc-Served :
    {live : ℕ → ℕ → Bool} {h : Heap} (size : ℕ) → IsHeap live h → size ≤ 2 ^ 26 → Serves live size h
unfolding mem_alloc
mem_alloc-Served {h} size v le =
    let (o, aligned, order, least) = size_class size le in
    let (lt, _, _) = least in
    let (p, h', run, a) = locked_pop-Answer v o lt in
    let in_range : leb region_count o ≡ false = ground arith in
    (o, p, h', rw (aligned, order, in_range) run, least, a)

-- Sizes above 64 MB and up to 1 GB are refused with `NULL`, and nothing changes.
pub mem_alloc-null :
    (size : ℕ) (h : Heap) → 2 ^ 26 < size → size ≤ 2 ^ 30 → mem_alloc size h ≡ some (0, h)
unfolding mem_alloc
mem_alloc-null size h lo hi =
    let (aligned, e, out) = size_too_big size lo hi in
    let over : leb region_count (class_order aligned) ≡ true = ground arith in rw (e, over)

-- A 64-bit size above 1 GB is not refused: its shift of an `int` is undefined.
pub mem_alloc-undefined :
    (size : ℕ) (h : Heap) → 2 ^ 30 < size → size < 2 ^ 64 → mem_alloc size h ≡ none
unfolding mem_alloc
mem_alloc-undefined size h lo hi = rw (size_undefined size lo hi)
