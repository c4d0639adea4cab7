-- ===== src/Phys/Region/Put.antt =====
-- A pending block is settled: handed out, or put on the list of its level.
use tomat_os.Base.{
  ℕ, ◌/◌, ◌%◌, ◌≤◌, ◌<◌, ◌≡◌, refl, sym, ap, ◌∙◌, Bool, true, false, ◌&&◌, ◌==◌, arith, inl, inr,
  Bool-cases, eq_of_==, has, has-cons, distinct-cons,
}
use tomat_os.Phys.Blocks.{block_size, aligned-page}
use tomat_os.Phys.Region.{MemoryRegion, list_add, set_metadata, page_size}
use tomat_os.Phys.Region.Inv.{IsPlaced, Covered, plus, held, region_end, page_index}
use tomat_os.Phys.Region.Moves.{Pending, IsValid}
use tomat_os.Phys.Region.Split.{page_index-inj}

module _ {r : MemoryRegion} {live : ℕ → ℕ → Bool} (l p : ℕ) (c : Pending r live l p) where
  open c use {core, fresh}

  p_held : held r (plus live l p) l p ≡ true
  p_held = ground arith

  p-IsPlaced : IsPlaced r.base (region_end r) l p
  p-IsPlaced = core.placed l p p_held

  same_page :
      (x : ℕ) → x % page_size ≡ 0 → r.base ≤ x → (page_index r p == page_index r x) ≡ true → p ≡ x
  same_page x h lo e =
      let P = p-IsPlaced in
      page_index-inj r.base p x core.base_aligned (aligned-page l p P.paged P.aligned) h P.from_base
        lo (eq_of_== _ _ e)

  -- The entry of the block is no other block's.
  p_index :
      (m a : ℕ)
      → held r (plus live l p) m a ≡ true
      → (m == l && a == p) ≡ false
      → (page_index r p == page_index r a) ≡ false
  p_index m a h other = elim (Bool-cases (page_index r p == page_index r a)) [
    | inl e ↦
        let A = core.placed m a h in
        let same : p ≡ a = same_page a (aligned-page m a A.paged A.aligned) A.from_base e in
        let (u, v) = core.apart p m a l p h p_held (ap (λ t. t / block_size m) same) refl in
        ground arith
    | inr e ↦ e
  ]

  free_other : (m a : ℕ) → has a (r.free_list m) ≡ true → (m == l && a == p) ≡ false
  free_other m a h = ground (arith, core.alone l p)

  live_other : (m a : ℕ) → live m a ≡ true → (m == l && a == p) ≡ false
  live_other m a h = ground arith

  marked-Covered :
      (b : Bool) (x : ℕ)
      → x % page_size ≡ 0
      → r.base ≤ x
      → x < region_end r
      → ((set_metadata (page_index r p) l b r).metadata (page_index r x)).free ≡ true
      → Covered (held r (plus live l p)) x
  unfolding set_metadata
  marked-Covered b x h lo hi f = elim (Bool-cases (page_index r p == page_index r x)) [
    | inl e ↦ record {
      level = l;
      addr = p;
      holds = p_held;
      inside = ap (λ t. t / block_size l) (sym (same_page x h lo e));
    }
    | inr e ↦ core.covered x h lo hi (rw e at f)
  ]

  -- The block is handed out.
  pub put_live : IsValid (set_metadata (page_index r p) l false r) (plus live l p)
  unfolding set_metadata
  put_live = record {
    base_aligned = core.base_aligned;
    fits = core.fits;
    nodup = core.nodup;
    placed = core.placed;
    apart = core.apart;
    alone = core.alone;
    free_entry = λ m a h. ground (arith, core.free_entry m a, p_index m a, free_other m a);
    live_entry = λ m a h.
        ground (arith, core.live_entry m a, core.settled_live m a, p_index m a, live_other m a);
    settled_live = λ m a h. h;
    covered = marked-Covered false;
  }

  abbrev freed : MemoryRegion
  freed = list_add l p (set_metadata (page_index r p) l true r)

  freed-held : (m a : ℕ) → held freed live m a ≡ held r (plus live l p) m a
  unfolding set_metadata list_add
  freed-held m a = ground (arith, has-cons a p (r.free_list l))

  -- The block becomes free.
  pub put_free : IsValid freed live
  unfolding set_metadata list_add
  put_free = record {
    base_aligned = core.base_aligned;
    fits = core.fits;
    nodup = λ m. ground (arith, core.nodup m, distinct-cons p (r.free_list l), core.alone l p);
    placed = λ m a h. core.placed m a (sym (freed-held m a) ∙ h);
    apart = λ x m a n b h k i j.
        core.apart x m a n b (sym (freed-held m a) ∙ h) (sym (freed-held n b) ∙ k) i j;
    alone = λ m a h. ground (arith, has-cons a p (r.free_list l), core.alone m a);
    free_entry = λ m a h.
        ground
          (arith, has-cons a p (r.free_list l), core.free_entry m a, p_index m a, free_other m a);
    live_entry = λ m a h.
        ground (arith, core.live_entry m a, core.settled_live m a, p_index m a, live_other m a);
    settled_live = λ m a h. h;
    covered = λ x h lo hi f.
        let o = marked-Covered true x h lo hi f in
        record {
          level = o.level;
          addr = o.addr;
          holds = freed-held o.level o.addr ∙ o.holds;
          inside = o.inside;
        };
  }
