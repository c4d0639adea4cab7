-- ===== src/Phys/Region/Merge.antt =====
-- Two buddies become one block: the free one leaves its list and the pending block grows.
use tomat_os.Base.{
  ℕ, suc, ◌+◌, ◌/◌, ◌%◌, ◌<◌, ◌≡◌, ◌⊎◌, inl, inr, refl, sym, ap, ◌∙◌, subst, subst₂, Bool, true,
  false, ◌&&◌, ◌==◌, arith, Bool-cases, eq_of_==, has, has-without, distinct-without,
}
use tomat_os.Phys.Blocks.{block_size, block_size-suc, halves, in_lower, in_upper}
use tomat_os.Phys.Region.{MemoryRegion, unlink, buddy_level_count}
use tomat_os.Phys.Region.Inv.{IsPlaced, Covered, InFree, InBlock, plus, held, region_end}
use tomat_os.Phys.Region.Moves.{Pending}

-- `p` and `q` are the two halves of the block at `z` of level `suc l`.
pub record IsPair (l p q z : ℕ) : Type 0 where
  pub aligned : z % block_size (suc l) ≡ 0
  pub halved : ((p ≡ z) × (q ≡ z + block_size l)) ⊎ ((q ≡ z) × (p ≡ z + block_size l))

module _ {l p q z : ℕ} (pair : IsPair l p q z) where
  pub p_inside :
      (x : ℕ)
      → x / block_size l ≡ p / block_size l
      → x / block_size (suc l) ≡ z / block_size (suc l)
  p_inside x e = elim pair.halved [
    | inl h ↦ in_lower l z pair.aligned x (e ∙ ap (λ t. t / block_size l) h.0)
    | inr h ↦ in_upper l z pair.aligned x (e ∙ ap (λ t. t / block_size l) h.1)
  ]

  pub q_inside :
      (x : ℕ)
      → x / block_size l ≡ q / block_size l
      → x / block_size (suc l) ≡ z / block_size (suc l)
  q_inside x e = elim pair.halved [
    | inl h ↦ in_upper l z pair.aligned x (e ∙ ap (λ t. t / block_size l) h.1)
    | inr h ↦ in_lower l z pair.aligned x (e ∙ ap (λ t. t / block_size l) h.0)
  ]

  one_of :
      (x : ℕ)
      → x / block_size (suc l) ≡ z / block_size (suc l)
      → (x / block_size l ≡ p / block_size l) ⊎ (x / block_size l ≡ q / block_size l)
  one_of x e = elim (halves l z pair.aligned x e) [
    | inl low ↦ elim pair.halved [
      | inl h ↦ inl (low ∙ ap (λ t. t / block_size l) (sym h.0))
      | inr h ↦ inr (low ∙ ap (λ t. t / block_size l) (sym h.0))
    ]
    | inr high ↦ elim pair.halved [
      | inl h ↦ inr (high ∙ ap (λ t. t / block_size l) (sym h.1))
      | inr h ↦ inl (high ∙ ap (λ t. t / block_size l) (sym h.1))
    ]
  ]

  module _ {r : MemoryRegion} {live : ℕ → ℕ → Bool} (c : Pending r live l p)
      (on : has q (r.free_list l) ≡ true) (low : suc l < buddy_level_count) where
    open c use {core}

    p_held : held r (plus live l p) l p ≡ true
    p_held = ground arith

    q_held : held r (plus live l p) l q ≡ true
    q_held = ground arith

    -- A block after the merge is the new one, or an old one that is neither of the two.
    merge-down :
        (m a : ℕ)
        → held (unlink q r) (plus live (suc l) z) m a ≡ true
        → ((m ≡ suc l) × (a ≡ z))
          ⊎ ((held r (plus live l p) m a ≡ true)
              × ((m == l && a == p) ≡ false)
              × ((m == l && a == q) ≡ false))
    unfolding unlink
    merge-down m a h =
        ground (arith, has-without q a (r.free_list m), core.alone l p, core.alone l q, c.fresh)

    merge-up :
        (m a : ℕ)
        → held r (plus live l p) m a ≡ true
        → (m == l && a == p) ≡ false
        → (m == l && a == q) ≡ false
        → held (unlink q r) (plus live (suc l) z) m a ≡ true
    unfolding unlink
    merge-up m a h np nq = ground (arith, has-without q a (r.free_list m), core.apart q m q l q)

    merged-IsPlaced : IsPlaced r.base (region_end r) (suc l) z
    merged-IsPlaced =
        let P = core.placed l p p_held in
        let Q = core.placed l q q_held in
        record {
          below = low;
          paged = omega (arith, P.paged);
          aligned = pair.aligned;
          from_base = omega (arith, P.from_base, Q.from_base, pair.halved);
          to_end = omega (arith, P.to_end, Q.to_end, pair.halved, block_size-suc l);
        }

    -- An old block that meets the new one is one of the two halves.
    meets :
        (x m a : ℕ)
        → held r (plus live l p) m a ≡ true
        → x / block_size (suc l) ≡ z / block_size (suc l)
        → x / block_size m ≡ a / block_size m
        → ((m == l && a == p) ≡ true) ⊎ ((m == l && a == q) ≡ true)
    meets x m a h i j = elim (one_of x i) [
      | inl e ↦ let (u, v) = core.apart x m a l p h p_held j e in inl (ground arith)
      | inr e ↦ let (u, v) = core.apart x m a l q h q_held j e in inr (ground arith)
    ]

    merge-IsPlaced :
        (m a : ℕ)
        → held (unlink q r) (plus live (suc l) z) m a ≡ true
        → IsPlaced r.base (region_end r) m a
    merge-IsPlaced m a h = elim (merge-down m a h) [
      | inl (e, f) ↦ rw (e, f) merged-IsPlaced
      | inr (old, _, _) ↦ core.placed m a old
    ]

    merge-apart :
        (x m a n b : ℕ)
        → held (unlink q r) (plus live (suc l) z) m a ≡ true
        → held (unlink q r) (plus live (suc l) z) n b ≡ true
        → x / block_size m ≡ a / block_size m
        → x / block_size n ≡ b / block_size n
        → (m ≡ n) × (a ≡ b)
    merge-apart x m a n b h k i j = elim (merge-down m a h) [
      | inl (e, f) ↦ elim (merge-down n b k) [
        | inl (e', f') ↦ (e ∙ sym e', f ∙ sym f')
        | inr (old, np, nq) ↦
            elim (meets x n b old (subst₂ (λ s t. x / block_size s ≡ t / block_size s) e f i) j) [
              | inl y ↦ cc
              | inr y ↦ cc
            ]
      ]
      | inr (old, np, nq) ↦ elim (merge-down n b k) [
        | inl (e', f') ↦
            elim (meets x m a old (subst₂ (λ s t. x / block_size s ≡ t / block_size s) e' f' j) i) [
              | inl y ↦ cc
              | inr y ↦ cc
            ]
        | inr (old', _, _) ↦ core.apart x m a n b old old' i j
      ]
    ]

    merge-Covered :
        (x : ℕ)
        → Covered (held r (plus live l p)) x
        → Covered (held (unlink q r) (plus live (suc l) z)) x
    merge-Covered x o = elim (Bool-cases (o.level == l && o.addr == p)) [
      | inl is ↦ new (
          p_inside x (
            subst₂ (λ s t. x / block_size s ≡ t / block_size s) (ground arith) (ground arith)
              o.inside))
      | inr np ↦ elim (Bool-cases (o.level == l && o.addr == q)) [
        | inl is ↦ new (
            q_inside x (
              subst₂ (λ s t. x / block_size s ≡ t / block_size s) (ground arith) (ground arith)
                o.inside))
        | inr nq ↦ record {
          level = o.level;
          addr = o.addr;
          holds = merge-up o.level o.addr o.holds np nq;
          inside = o.inside;
        }
      ]
    ]
      where
        new :
            x / block_size (suc l) ≡ z / block_size (suc l)
            → Covered (held (unlink q r) (plus live (suc l) z)) x
        new e = record { level = suc l; addr = z; holds = ground arith; inside = e }

    -- No old block is the new one.
    unheld : held r (plus live l p) (suc l) z ≡ true → ⊥
    unheld h = elim (meets z (suc l) z h refl refl) [ inl y ↦ ground arith | inr y ↦ ground arith ]

    pub merge : Pending (unlink q r) live (suc l) z
    unfolding unlink
    merge = record {
      core = record {
        base_aligned = core.base_aligned;
        fits = core.fits;
        nodup = λ m. distinct-without q (r.free_list m) (core.nodup m);
        placed = merge-IsPlaced;
        apart = merge-apart;
        alone = λ m a h. ground (arith, has-without q a (r.free_list m), core.alone m a, unheld);
        free_entry = λ m a h. core.free_entry m a (ground (arith, has-without q a (r.free_list m)));
        live_entry = core.live_entry;
        settled_live = λ m a h. ground arith;
        covered = λ x h lo hi f. merge-Covered x (core.covered x h lo hi f);
      };
      fresh = ground (arith, unheld);
    }

    -- What is free or pending stays so.
    pub merge_keeps :
        (x : ℕ) → InFree r x ⊎ InBlock l p x → InFree (unlink q r) x ⊎ InBlock (suc l) z x
    unfolding unlink
    merge_keeps x (inr e) = inr (p_inside x e)
    merge_keeps x (inl o) = elim (Bool-cases (q == o.addr)) [
      | inl e ↦ inr (
          q_inside x (
            subst (λ s. x / block_size s ≡ q / block_size s) (same_level e)
              (o.inside ∙ ap (λ t. t / block_size o.level) (sym (eq_of_== _ _ e)))))
      | inr e ↦ inl (record {
        level = o.level;
        addr = o.addr;
        holds = ground (arith, has-without q o.addr (r.free_list o.level), o.holds);
        inside = o.inside;
      })
    ]
      where
        same_level : (q == o.addr) ≡ true → o.level ≡ l
        same_level e =
            (core.apart q o.level o.addr l q (ground (arith, o.holds)) q_held
              (ap (λ t. t / block_size o.level) (eq_of_== _ _ e)) refl).0

    pub merge_back :
        (x : ℕ) → InFree (unlink q r) x ⊎ InBlock (suc l) z x → InFree r x ⊎ InBlock l p x
    unfolding unlink
    merge_back x (inl o) = inl (record {
      level = o.level;
      addr = o.addr;
      holds = ground (arith, has-without q o.addr (r.free_list o.level), o.holds);
      inside = o.inside;
    })
    merge_back x (inr e) = elim (one_of x e) [
      | inl i ↦ inr i
      | inr i ↦ inl (record { level = l; addr = q; holds = on; inside = i })
    ]
