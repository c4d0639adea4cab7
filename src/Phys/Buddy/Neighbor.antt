-- ===== src/Phys/Buddy/Neighbor.antt =====
-- The neighbor of a pending block, and what its metadata says.
use tomat_os.Base.{
  ℕ, zero, suc, ◌-◌, ◌*◌, ◌/◌, ◌%◌, ◌≤◌, ◌<◌, ◌≡◌, ◌≢◌, inl, inr, refl, sym, ap, ◌∙◌, Bool, true,
  false, ◌==◌, arith, Bool-cases, eq_of_==, has, some, dec_le,
}
use tomat_os.Phys.Blocks.{
  block_size, block_size-pos, block_size-suc, aligned-page, aligned-pred, aligned-le, index-le,
  eq_of_index, lower_buddy, upper-aligned,
}
use tomat_os.Phys.Region.{
  MemoryRegion, PageMetadata, page_metadata, on_list, list_del, unlink, entry, buddy_level_count,
}
use tomat_os.Phys.Region.Inv.{IsPlaced, Covered, plus, held, region_end, page_index}
use tomat_os.Phys.Region.Moves.{Pending}
use tomat_os.Phys.Region.Merge.{IsPair, p_inside, q_inside}
use tomat_os.Phys.Buddy.{is_lower, neighbor, merged, sub64}

-- The entry that the code looks up is the one of the address, and the address is in the region.
pub page_metadata-some :
    (r : MemoryRegion) (a i : ℕ)
    → page_metadata r a ≡ some i
    → (i ≡ page_index r a) × (r.base ≤ a) × (page_index r a < r.page_count)
unfolding page_metadata
page_metadata-some r a i h = ground arith

pub page_metadata-of_inside :
    (r : MemoryRegion) (a : ℕ)
    → r.base ≤ a
    → a < region_end r
    → page_metadata r a ≡ some (page_index r a)
unfolding page_metadata
page_metadata-of_inside r a lo hi = ground arith

on_list-has :
    (n l a : ℕ) (r : MemoryRegion) → l < n → has a (r.free_list l) ≡ true → on_list a n r ≡ true
unfolding on_list
on_list-has zero l a r lt h = absurd (omega arith)
on_list-has (suc n) l a r lt h = elim (dec_le n l) [
  | yes top ↦ let e : l ≡ n = omega arith in rw (rw e at h)
  | no low ↦ rw (on_list-has n l a r (omega arith) h) (ground arith)
]

-- Unlinking a node of a list does not fault.
pub list_del-has :
    (l a : ℕ) (r : MemoryRegion)
    → l < buddy_level_count
    → has a (r.free_list l) ≡ true
    → list_del a r ≡ some (unlink a r)
unfolding list_del
list_del-has l a r lt h = rw (on_list-has buddy_level_count l a r lt h)

module _ {r : MemoryRegion} {live : ℕ → ℕ → Bool} (l p : ℕ) (c : Pending r live l p) where
  open c use {core, fresh}

  placed : IsPlaced r.base (region_end r) l p
  placed = core.placed l p (ground arith)

  pub neighbor-IsPair : IsPair l p (neighbor l p) (merged l p)
  neighbor-IsPair = elim (Bool-cases (is_lower l p)) [
    | inl e ↦ rw e (record {
      aligned = rw (block_size-suc l) (eq_of_== _ _ e);
      halved = inl (refl, omega (arith, placed.to_end, core.fits));
    })
    | inr e ↦ rw e (
        let ne : p % (block_size l * 2) ≢ 0 = ground arith in
        let low = lower_buddy (block_size l) (block_size-pos l) p placed.aligned ne in
        let down : sub64 p (block_size l) ≡ p - block_size l =
          omega (arith, low.0, placed.to_end, core.fits, block_size-pos l) in
        rw down (record {
          aligned = rw (block_size-suc l) low.1;
          halved = inr (refl, omega (arith, low.0));
        }))
  ]

  module _ {q z : ℕ} (pair : IsPair l p q z) where
    pub neighbor-aligned : q % block_size l ≡ 0
    neighbor-aligned = elim pair.halved [
      | inl h ↦ rw h.1 (upper-aligned l z pair.aligned)
      | inr h ↦ rw h.0 (aligned-pred l z pair.aligned)
    ]

    pub neighbor-ne : (q == p) ≡ false
    neighbor-ne = ground (arith, block_size-pos l, pair.halved)

    common : q / block_size (suc l) ≡ p / block_size (suc l)
    common = q_inside pair q refl ∙ sym (p_inside pair p refl)

    -- A block at least as large that holds the neighbor would hold the pending block.
    not_larger :
        (m a : ℕ)
        → l < m
        → held r (plus live l p) m a ≡ true
        → q / block_size m ≡ a / block_size m
        → ⊥
    not_larger m a lt h e =
        let up = index-le m (suc l) q p lt common in
        let (u, v) = core.apart p m a l p h (ground arith) (sym up ∙ e) refl in omega arith

    -- A block at most as large that holds the neighbor starts there.
    starts :
        (m a : ℕ)
        → m ≤ l
        → held r (plus live l p) m a ≡ true
        → q / block_size m ≡ a / block_size m
        → q ≡ a
    starts m a le h e =
        eq_of_index (block_size m) q a (aligned-le l m q le neighbor-aligned)
          (core.placed m a h).aligned e

    -- If its entry says that it is free at level `l`, then the neighbor is on that list.
    pub neighbor-has :
        {i : ℕ}
        → page_metadata r q ≡ some i
        → r.metadata i ≡ entry l true
        → has q (r.free_list l) ≡ true
    neighbor-has {i} at_i is = elim (dec_le o.level l) [
      | yes le ↦ found le
      | no gt ↦ absurd (not_larger o.level o.addr (omega arith) o.holds o.inside)
    ]
      where
        at : (i ≡ page_index r q) × (r.base ≤ q) × (page_index r q < r.page_count)
        at = page_metadata-some r q i at_i

        is_entry : r.metadata (page_index r q) ≡ entry l true
        is_entry = ap r.metadata (sym at.0) ∙ is

        o : Covered (held r (plus live l p)) q
        o =
            core.covered q (aligned-page l q placed.paged neighbor-aligned) at.1
              (omega (arith, at.1, at.2)) (ap (λ (m : PageMetadata). m.free) is_entry)

        found : o.level ≤ l → has q (r.free_list l) ≡ true
        found le =
            let here : q ≡ o.addr = starts o.level o.addr le o.holds o.inside in
            ground (
              arith,
              o.holds,
              here,
              neighbor-ne,
              is_entry,
              core.free_entry o.level q,
              core.live_entry o.level q,
            )
