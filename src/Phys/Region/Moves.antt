-- ===== src/Phys/Region/Moves.antt =====
-- How a well-formed region changes: a block is pending while it is on no list and in no metadata.
pub use tomat_os.Base.{minus}
use tomat_os.Base.{
  ℕ, ◌≡◌, sym, ap, ◌∙◌, Bool, true, false, ◌||◌, arith, has, has-without, distinct-without,
}
use tomat_os.Phys.Region.{MemoryRegion, unlink}
use tomat_os.Phys.Region.Inv.{Covered, Core, plus, held}

abbrev pub IsValid : MemoryRegion → (ℕ → ℕ → Bool) → Type 0
IsValid r live = Core r live live

-- The block at `p` of level `l` is neither free nor handed out.
pub record Pending (r : MemoryRegion) (live : ℕ → ℕ → Bool) (l p : ℕ) : Type 0 where
  pub core : Core r (plus live l p) live
  pub fresh : live l p ≡ false

module _ {r : MemoryRegion} {live : ℕ → ℕ → Bool} (l p : ℕ) (c : Core r live live)
    (on : has p (r.free_list l) ≡ true) where
  take-down : (m a : ℕ) → held (unlink p r) (plus live l p) m a ≡ true → held r live m a ≡ true
  unfolding unlink
  take-down m a = ground (arith, has-without p a (r.free_list m))

  take-up : (m a : ℕ) → held r live m a ≡ true → held (unlink p r) (plus live l p) m a ≡ true
  unfolding unlink
  take-up m a = ground (arith, has-without p a (r.free_list m), c.apart p l p m p)

  pub take_free : Pending (unlink p r) live l p
  unfolding unlink
  take_free = record {
    core = record {
      base_aligned = c.base_aligned;
      fits = c.fits;
      nodup = λ m. distinct-without p (r.free_list m) (c.nodup m);
      placed = λ m a h. c.placed m a (take-down m a h);
      apart = λ x m a n b h k i j. c.apart x m a n b (take-down m a h) (take-down n b k) i j;
      alone = λ m a h. ground (arith, has-without p a (r.free_list m), c.alone m a);
      free_entry = λ m a h. c.free_entry m a (ground (arith, has-without p a (r.free_list m)));
      live_entry = c.live_entry;
      settled_live = λ m a h. ground arith;
      covered = λ x h lo hi f.
          let o : Covered (held r live) x = c.covered x h lo hi f in
          record {
            level = o.level;
            addr = o.addr;
            holds = take-up o.level o.addr o.holds;
            inside = o.inside;
          };
    };
    fresh = c.alone l p on;
  }

plus-minus :
    (live : ℕ → ℕ → Bool) (l p m a : ℕ) → live l p ≡ true → plus (minus live l p) l p m a ≡ live m a
plus-minus live l p m a h = ground arith

module _ {r : MemoryRegion} {live : ℕ → ℕ → Bool} (l p : ℕ) (c : Core r live live)
    (out : live l p ≡ true) where
  abbrev held_rest : (m a : ℕ) → held r (plus (minus live l p) l p) m a ≡ held r live m a
  held_rest m a = ap (λ b. has a (r.free_list m) || b) (plus-minus live l p m a out)

  pub take_live : Pending r (minus live l p) l p
  take_live = record {
    core = record {
      base_aligned = c.base_aligned;
      fits = c.fits;
      nodup = c.nodup;
      placed = λ m a h. c.placed m a (sym (held_rest m a) ∙ h);
      apart = λ x m a n b h k i j.
          c.apart x m a n b (sym (held_rest m a) ∙ h) (sym (held_rest n b) ∙ k) i j;
      alone = λ m a h. plus-minus live l p m a out ∙ c.alone m a h;
      free_entry = c.free_entry;
      live_entry = λ m a h. c.live_entry m a (ground arith);
      settled_live = λ m a h. ground arith;
      covered = λ x h lo hi f.
          let o : Covered (held r live) x = c.covered x h lo hi f in
          record {
            level = o.level;
            addr = o.addr;
            holds = held_rest o.level o.addr ∙ o.holds;
            inside = o.inside;
          };
    };
    fresh = ground arith;
  }
