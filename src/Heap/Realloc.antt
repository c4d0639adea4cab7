-- ===== src/Heap/Realloc.antt =====
-- `mem_realloc` moves a block to a larger class with its content.
use native.Mathlib.Nat.{pow-suc, pow-le-pow_right}
use tomat_os.Base.{
  ℕ, suc, ◌+◌, ◌*◌, ◌/◌, ◌^◌, ◌≤◌, ◌<◌, ◌≡◌, ◌≢◌, ◌⊎◌, refl, ap, ◌∙◌, inl, inr, Bool, true, false,
  some, arith, ◌==◌, ==-ne, Bool-cases, plus, minus, leb,
}
use tomat_os.Base.Bits.{pow-pos, pow_lt_inv}
use tomat_os.Heap.{
  Heap, mem_free, mem_realloc, copy_words, region_count, address_order, alloc_region_bottom,
  alloc_region_top,
}
use tomat_os.Heap.Class.{block_bytes}
use tomat_os.Heap.Sound.{IsHeap}
use tomat_os.Heap.Alloc.{IsGiven, mem_alloc-Served}
use tomat_os.Heap.Free.{mem_free-IsFreed, address_order_lem, not-null, block_start, block_end}
use tomat_os.Heap.Copy.{copy_words-inside, copy_words-IsHeap}

-- The block at `p` of class `o`, which is too small, has moved to `r`, and its words with it.
pub record IsMoved (live : ℕ → ℕ → Bool) (o p size r : ℕ) (h h' : Heap) : Type 0 where
  pub needed : block_bytes o < size
  pub order : ℕ
  pub holds : size ≤ block_bytes order
  pub fresh : live order r ≡ false
  pub present : r ≢ 0
  pub sound : IsHeap (minus (plus live order r) o p) h'
  pub copied : (i : ℕ) → 8 * i < block_bytes o → h'.word (r + 8 * i) ≡ h.word (p + 8 * i)

-- The block stays as it is, or it is too small and no other is to be had, or it moves.
abbrev pub Outcome : (live : ℕ → ℕ → Bool) (o p size r : ℕ) (h h' : Heap) → Type 0
Outcome live o p size r h h' =
    ((size ≤ block_bytes o) × (r ≡ p) × (h' ≡ h))
    ⊎ ((block_bytes o < size) × (r ≡ 0) × IsHeap live h' × (h'.word ≡ h.word))
    ⊎ IsMoved live o p size r h h'

abbrev pub Reallocates : (live : ℕ → ℕ → Bool) (o p size : ℕ) → Heap → Type 0
Reallocates live o p size h =
    (r : ℕ) × (h' : Heap) × (mem_realloc p size h ≡ some (r, h')) × Outcome live o p size r h h'

whole_words : (o : ℕ) → 8 * (block_bytes o / 8) ≡ block_bytes o
whole_words o =
    let e : o + 3 ≡ suc (suc (suc o)) = omega arith in
    let bytes : block_bytes o ≡ 2 ^ suc (suc (suc o)) = ap (λ (t : ℕ). 2 ^ t) e in
    omega (arith, pow-suc 2 (suc (suc o)), pow-suc 2 (suc o), pow-suc 2 o)

-- Blocks of two classes lie in two parts.
apart :
    (o p m r : ℕ)
    → o < m
    → alloc_region_bottom o ≤ p
    → p + block_bytes o ≤ alloc_region_top o
    → alloc_region_bottom m ≤ r
    → p + block_bytes o ≤ r
apart o p m r lt a b c = omega arith

bigger_class : (o m size : ℕ) → block_bytes o < size → size ≤ block_bytes m → o < m
bigger_class o m size big fits = omega (arith, pow_lt_inv (o + 3) (m + 3) (omega arith))

module _ {live : ℕ → ℕ → Bool} {h : Heap} (o p size : ℕ) (v : IsHeap live h)
    (out : live o p ≡ true) where
  -- From the new block on: the copy, and the giving back.
  move :
      (m r : ℕ) (h' : Heap)
      → o < m
      → block_bytes o < size
      → size ≤ block_bytes m
      → IsGiven live m r h h'
      → (h'' : Heap) × (mem_free p (record h' { word = copy_words (block_bytes o / 8) r p h'.word })
          ≡ some h'')
        × IsMoved live o p size r h h''
  move m r h' lt big fits g =
      let n = block_bytes o / 8 in
      let new : plus live m r m r ≡ true = ground arith in
      let room = block_start v o p out in
      let far : p + block_bytes o ≤ r =
        apart o p m r lt (block_start v o p out) (block_end v o p out)
          (block_start g.sound m r new) in
      let bigger : block_bytes o ≤ block_bytes m =
        pow-le-pow_right {n = 2} (omega arith) (omega arith) in
      let copied : IsHeap (plus live m r) (record h' { word = copy_words n r p h'.word }) =
        copy_words-IsHeap m r new n r p h' g.sound (omega arith) (omega (arith, whole_words o)) in
      let (h'', run, sound, same) = mem_free-IsFreed o p copied (ground arith) in
      (
        h'',
        run,
        record {
          needed = big;
          order = m;
          holds = fits;
          fresh = g.fresh;
          present = g.present;
          sound = sound;
          copied = λ i lt.
              same (r + 8 * i) (λ e. omega (arith, far, pow-pos (o + 3)))
              ∙ copy_words-inside n r p i h'.word (omega (arith, whole_words o))
                  (inr (omega (arith, whole_words o)))
              ∙ ap (λ (w : ℕ → ℕ). w (p + 8 * i)) g.same_memory;
        },
      )

  -- In a well-formed heap, for a block that is handed out and a size from 1 to 64 MB, `mem_realloc`
  -- does not fault. A size that the block holds changes nothing; else it returns `NULL`, with the
  -- block still handed out and no memory written, or a block that was not handed out and holds the
  -- size, with every word of the old block, which is given back; the heap stays well-formed.
  pub mem_realloc-Moved : 0 < size → size ≤ 2 ^ 26 → Reallocates live o p size h
  unfolding mem_realloc
  mem_realloc-Moved pos le =
      let at : address_order p ≡ o = address_order_lem v o p out in
      let some_size : (size == 0) ≡ false = ground arith in
      let some_block : (p == 0) ≡ false = ==-ne p 0 (not-null v o p out) in
      let known : o < region_count = v.known o p out in
      let shift : leb 64 (o + 3) ≡ false = ground arith in
      elim (Bool-cases (leb size (2 ^ (o + 3)))) [
        | inl fits ↦
            (p, h, rw (some_size, some_block, at, shift, fits), inl (ground arith, refl, refl))
        | inr big ↦
            let (m, r, h', run, (lt, holds, least), answer) = mem_alloc-Served size v le in
            elim answer [
              | inl (z, v', same, full) ↦
                  let null : (r == 0) ≡ true = ground arith in
                  (
                    0,
                    h',
                    rw (some_size, some_block, at, shift, big, run, null),
                    inr (inl (ground arith, refl, v', same)),
                  )
              | inr g ↦
                  let some_new : (r == 0) ≡ false = ==-ne r 0 g.present in
                  let up : o < m = bigger_class o m size (ground arith) holds in
                  let (h'', back, moved) = move m r h' up (ground arith) holds g in
                  (
                    r,
                    h'',
                    rw (some_size, some_block, at, shift, big, run, some_new, back),
                    inr (inr moved),
                  )
            ]
      ]
