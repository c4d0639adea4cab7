-- ===== src/Heap/Steps.antt =====
-- The critical sections of the heap, as one update of a region each.
use tomat_os.Base.{
  ℕ, ◌+◌, ◌%◌, ◌^◌, ◌≤◌, ◌<◌, ◌≡◌, ◌≢◌, refl, true, false, some, arith, ◌==◌, ==-ne, ==-refl,
  lt→ltb, not-ltb, update, update-update,
}
use tomat_os.Heap.{
  Heap, AllocRegion, acquire_region, release_region, pop_block, push_block, locked_pop, locked_push,
}

abbrev pub with_region : (order : ℕ) → AllocRegion → (word : ℕ → ℕ) → Heap → Heap
with_region order region word h = record { regions = update h.regions order region; word = word }

abbrev pub unlocked_region : (freelist watermark top : ℕ) → AllocRegion
unlocked_region freelist watermark top = record {
  locked = false;
  freelist = freelist;
  watermark = watermark;
  top = top;
}

module _ (o : ℕ) (h : Heap) (e : (h.regions o).locked ≡ false) where
  abbrev r : AllocRegion
  r = h.regions o

  pub locked_pop-list :
      (aligned : ℕ)
      → r.freelist ≢ 0
      → locked_pop o aligned h
        ≡ some (
          r.freelist,
          with_region o (unlocked_region (h.word r.freelist) r.watermark r.top) h.word h,
        )
  unfolding locked_pop acquire_region release_region pop_block
  locked_pop-list aligned n = simp (e, ==-refl o, ==-ne _ _ n, update-update) refl

  pub locked_pop-mark :
      (aligned : ℕ)
      → r.freelist ≡ 0
      → r.watermark < r.top
      → locked_pop o aligned h
        ≡ some (
          r.watermark,
          with_region o
              (unlocked_region r.freelist ((r.watermark + aligned) % 2 ^ 64) r.top)
              h.word
              h,
        )
  unfolding locked_pop acquire_region release_region pop_block
  locked_pop-mark aligned z lt =
      let none_listed : (r.freelist == 0) ≡ true = ground arith in
      simp (e, ==-refl o, none_listed, lt→ltb _ _ lt, update-update) refl

  pub locked_pop-empty :
      (aligned : ℕ)
      → r.freelist ≡ 0
      → r.top ≤ r.watermark
      → locked_pop o aligned h
        ≡ some (0, with_region o (unlocked_region r.freelist r.watermark r.top) h.word h)
  unfolding locked_pop acquire_region release_region pop_block
  locked_pop-empty aligned z le =
      let none_listed : (r.freelist == 0) ≡ true = ground arith in
      simp (e, ==-refl o, none_listed, not-ltb _ _ le, update-update) refl

  pub locked_push_lem :
      (p : ℕ)
      → locked_push o p h
        ≡ some (with_region o (unlocked_region p r.watermark r.top) (update h.word p r.freelist) h)
  unfolding locked_push acquire_region release_region push_block
  locked_push_lem p = simp (e, ==-refl o, update-update) refl
