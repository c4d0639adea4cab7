-- ===== src/Heap/Sound.antt =====
-- The invariant of the heap, and what a change of one class leaves of it.
use tomat_os.Base.{
  ℕ, ◌<◌, ◌≡◌, refl, sym, ap, ◌∙◌, inl, inr, Bool, true, false, List, arith, ◌==◌, Bool-cases,
  update, update-at, update-other, plus, minus, has-nil, distinct-nil, [],
}
use tomat_os.Heap.{
  Heap, AllocRegion, alloc_region_bottom, alloc_region_top, region_count, init_alloc,
}
use tomat_os.Heap.Class.{IsClass, IsClass-same}
use tomat_os.Heap.Mark.{part-aligned}
use tomat_os.Heap.Steps.{with_region, unlocked_region}

-- `live order addr` are the blocks that are handed out.
pub record IsHeap (live : ℕ → ℕ → Bool) (h : Heap) : Type 0 where
  pub free : ℕ → List ℕ
  pub unlocked : (o : ℕ) → o < region_count → (h.regions o).locked ≡ false
  pub tops : (o : ℕ) → o < region_count → (h.regions o).top ≡ alloc_region_top o
  pub classes :
      (o : ℕ)
      → o < region_count
      → IsClass o (h.regions o).freelist (h.regions o).watermark h.word live (free o)
  pub known : (o a : ℕ) → live o a ≡ true → o < region_count

-- A change of one class, if the others stand as they stood.
pub with_region-IsHeap :
    {live live' : ℕ → ℕ → Bool} {h : Heap} {word : ℕ → ℕ} (o list mark : ℕ) (xs : List ℕ)
    → (v : IsHeap live h) → IsClass o list mark word live' xs
    → ((j : ℕ)
        → (o == j) ≡ false
        → j < region_count
        → IsClass j (h.regions j).freelist (h.regions j).watermark word live' (v.free j))
    → ((m a : ℕ) → live' m a ≡ true → m < region_count)
    → IsHeap live' (with_region o (unlocked_region list mark (h.regions o).top) word h)
with_region-IsHeap {live' = live'} {h} {word} o list mark xs v here there known = record {
  free = update v.free o xs;
  unlocked = λ j lt. elim (Bool-cases (o == j)) [
    | inl e ↦ ap (λ (r : AllocRegion). r.locked) (region-at j e)
    | inr e ↦ ap (λ (r : AllocRegion). r.locked) (region-other j e) ∙ v.unlocked j lt
  ];
  tops = λ j lt. elim (Bool-cases (o == j)) [
    | inl e ↦
        (let q : o ≡ j = ground arith in
          ap (λ (r : AllocRegion). r.top) (region-at j e)
          ∙ ap (λ i. (h.regions i).top) q
          ∙ v.tops j lt)
    | inr e ↦ ap (λ (r : AllocRegion). r.top) (region-other j e) ∙ v.tops j lt
  ];
  classes = λ j lt. elim (Bool-cases (o == j)) [
    | inl e ↦
        IsClass-same (ground arith) (ap (λ (r : AllocRegion). r.freelist) (sym (region-at j e)))
          (ap (λ (r : AllocRegion). r.watermark) (sym (region-at j e)))
          (sym (update-at v.free o j xs e)) (λ a. refl) here
    | inr e ↦
        IsClass-same refl (ap (λ (r : AllocRegion). r.freelist) (sym (region-other j e)))
          (ap (λ (r : AllocRegion). r.watermark) (sym (region-other j e)))
          (sym (update-other v.free o j xs e)) (λ a. refl) (there j e lt)
  ];
  known = known;
}
  where
    new : AllocRegion
    new = unlocked_region list mark (h.regions o).top

    region-at : (j : ℕ) → (o == j) ≡ true → update h.regions o new j ≡ new
    region-at j e = update-at h.regions o j new e

    region-other : (j : ℕ) → (o == j) ≡ false → update h.regions o new j ≡ h.regions j
    region-other j e = update-other h.regions o j new e

module _ {o list mark : ℕ} {word : ℕ → ℕ} {live : ℕ → ℕ → Bool} {free : List ℕ} (m p : ℕ)
    (e : (m == o) ≡ false) (c : IsClass o list mark word live free) where
  pub plus-IsClass : IsClass o list mark word (plus live m p) free
  plus-IsClass = IsClass-same refl refl refl refl (λ a. ground arith) c

  pub minus-IsClass : IsClass o list mark word (minus live m p) free
  minus-IsClass = IsClass-same refl refl refl refl (λ a. ground arith) c

-- `init_alloc` leaves an empty heap that is well-formed.
pub init_alloc-IsHeap : (word : ℕ → ℕ) → IsHeap (λ o a. false) (init_alloc word)
unfolding init_alloc
init_alloc-IsHeap word = record {
  free = λ o. [];
  unlocked = λ o lt. refl;
  tops = λ o lt. refl;
  classes = λ o lt. record {
    chain = refl;
    nodup = distinct-nil;
    from_bottom = omega arith;
    to_top = omega arith;
    mark_aligned = part-aligned o (alloc_region_bottom o) lt (omega arith);
    free_block = λ a h. absurd (ground (arith, has-nil a));
    live_block = λ a h. absurd (ground arith);
    alone = λ a h. refl;
    all = λ a b. absurd (let lo = b.from_bottom in let hi = b.below in omega arith);
  };
  known = λ o a h. absurd (ground arith);
}
