-- ===== src/Phys/Fill/Sound.antt =====
-- `add_memory_to_region` makes exactly the given pages free, whatever the cut into blocks.
use tomat_os.Base.{
  ℕ, zero, suc, ◌+◌, ◌-◌, ◌*◌, ◌%◌, ◌≤◌, ◌<◌, ◌≡◌, ◌⊎◌, inl, inr, refl, ◌∙◌, Bool, arith,
  Bool-cases, some, leb, ◌==◌, eq_of_==, subst,
}
use tomat_os.Base.Bits.{count_leading_zeros}
use tomat_os.Phys.Blocks.{block_size, block_size-pos, block_bounds, in_block}
use tomat_os.Phys.Region.{MemoryRegion, page_size, buddy_level_count}
use tomat_os.Phys.Region.Inv.{IsPlaced, InFree, region_end, page_level}
use tomat_os.Phys.Region.Moves.{IsValid}
use tomat_os.Phys.Region.Fresh.{IsUnclaimed, adopt}
use tomat_os.Phys.Levels.{get_level_by_size, buddy_top_level_size}
use tomat_os.Phys.Buddy.{free_at_level, add64}
use tomat_os.Phys.Buddy.Free.{free-Pending}
use tomat_os.Phys.Fill.{add_to_boundary, add_top_blocks, add_rest, add_memory_to_region, top_pages}

-- Pages from `lo` on that may be added: aligned, in the region, and covered by no block.
pub record IsAddable (r : MemoryRegion) (live : ℕ → ℕ → Bool) (lo pages : ℕ) : Type 0 where
  pub valid : IsValid r live
  pub paged : lo % page_size ≡ 0
  pub from_base : r.base ≤ lo
  pub to_end : lo + pages * page_size ≤ region_end r
  pub unclaimed : IsUnclaimed r live lo (lo + pages * page_size)

-- What adding the addresses from `lo` up to `hi` reaches.
pub record IsAdded (r : MemoryRegion) (live : ℕ → ℕ → Bool) (lo hi : ℕ) (r' : MemoryRegion)
    : Type 0 where
  pub valid : IsValid r' live
  pub same_base : r'.base ≡ r.base
  pub same_count : r'.page_count ≡ r.page_count
  pub keeps : (x : ℕ) → InFree r x ⊎ ((lo ≤ x) × (x < hi)) → InFree r' x
  pub back : (x : ℕ) → InFree r' x → InFree r x ⊎ ((lo ≤ x) × (x < hi))

module _ {live : ℕ → ℕ → Bool} where
  none-IsAdded : {r : MemoryRegion} (lo : ℕ) → IsValid r live → IsAdded r live lo lo r
  none-IsAdded lo v = record {
    valid = v;
    same_base = refl;
    same_count = refl;
    keeps = λ x h. elim h [ inl f ↦ f | inr (a, b) ↦ absurd (omega arith) ];
    back = λ x h. inl h;
  }

  both-IsAdded :
      {r s t : MemoryRegion} {lo mid hi : ℕ}
      → lo ≤ mid
      → mid ≤ hi
      → IsAdded r live lo mid s
      → IsAdded s live mid hi t
      → IsAdded r live lo hi t
  both-IsAdded {mid} h k a b = record {
    valid = b.valid;
    same_base = b.same_base ∙ a.same_base;
    same_count = b.same_count ∙ a.same_count;
    keeps = λ x g. elim g [
      | inl f ↦ b.keeps x (inl (a.keeps x (inl f)))
      | inr (p, q) ↦ elim (Bool-cases (leb mid x)) [
        | inl e ↦ b.keeps x (inr (ground arith, q))
        | inr e ↦ b.keeps x (inl (a.keeps x (inr (p, ground arith))))
      ]
    ];
    back = λ x f. elim (b.back x f) [
      | inr (p, q) ↦ inr (omega arith, q)
      | inl g ↦ elim (a.back x g) [ inl e ↦ inl e | inr (p, q) ↦ inr (p, omega arith) ]
    ];
  }

  -- One block of level `l`, of `n` pages.
  add_block :
      {r : MemoryRegion} (l lo n pages : ℕ)
      → l < buddy_level_count
      → page_level ≤ l
      → block_size l ≡ n * page_size
      → lo % block_size l ≡ 0
      → IsAddable r live lo (n + pages)
      → (r' : MemoryRegion) × (free_at_level r lo l ≡ some r')
        × IsAdded r live lo (lo + n * page_size) r'
        × IsAddable r' live (lo + n * page_size) pages
  add_block {r} l lo n pages low paged size aligned a =
      let place : IsPlaced r.base (region_end r) l lo = record {
        below = low;
        paged = paged;
        aligned = aligned;
        from_base = a.from_base;
        to_end = omega (arith, a.to_end);
      } in
      let (r', run, f) = free-Pending l lo (adopt l a.valid a.unclaimed place (omega arith)) in
      let bounds = λ (x : ℕ). block_bounds (block_size l) (block_size-pos l) lo x aligned in
      (
        r',
        run,
        record {
          valid = f.valid;
          same_base = f.same_base;
          same_count = f.same_count;
          keeps = λ x g. f.keeps x (elim g [
            | inl o ↦ inl o
            | inr (p, q) ↦
                inr (in_block (block_size l) (block_size-pos l) lo x aligned p (omega arith))
          ]);
          back = λ x o. elim (f.back x o) [
            | inl e ↦ inl e
            | inr e ↦ inr ((bounds x e).0, omega (arith, (bounds x e).1))
          ];
        },
        record {
          valid = f.valid;
          paged = omega (arith, a.paged);
          from_base = omega (arith, f.same_base, a.from_base);
          to_end = omega (arith, f.same_base, f.same_count, a.to_end);
          unclaimed = record {
            not_free = λ x p q o. elim (f.back x o) [
              | inl e ↦ a.unclaimed.not_free x (omega arith) (omega arith) e
              | inr e ↦ omega (arith, (bounds x e).1)
            ];
            not_live = λ x p q. a.unclaimed.not_live x (omega arith) (omega arith);
          };
        },
      )

abbrev pub Adds : (live : ℕ → ℕ → Bool) (n lo : ℕ) → MemoryRegion → Type 0
Adds live n lo r =
    (r' : MemoryRegion) × (add_memory_to_region r lo n ≡ some r')
    × IsAdded r live lo (lo + n * page_size) r'

-- What a loop reaches that adds pages from `lo` on and leaves `left` of `pages`.
record IsPartly (r : MemoryRegion) (live : ℕ → ℕ → Bool) (lo pages at left : ℕ) (r' : MemoryRegion)
    : Type 0 where
  split : at + left * page_size ≡ lo + pages * page_size
  beyond : lo ≤ at
  added : IsAdded r live lo at r'
  addable : IsAddable r' live at left

one_page : (n : ℕ) → suc n ≡ 1 + n
one_page n = omega arith

page : block_size page_level ≡ 1 * page_size
unfolding block_size
page = refl

top : block_size (buddy_level_count - 1) ≡ top_pages * page_size
unfolding block_size
top = refl

module _ {live : ℕ → ℕ → Bool} where
  -- The next address does not wrap.
  next_address :
      {r : MemoryRegion} (lo n pages : ℕ)
      → IsAddable r live lo (n + pages)
      → add64 lo (n * page_size) ≡ lo + n * page_size
  next_address lo n pages a = omega (arith, a.to_end, a.valid.fits)

  paged-aligned :
      {r : MemoryRegion} {lo n : ℕ} → IsAddable r live lo n → lo % block_size page_level ≡ 0
  paged-aligned {lo} a = rw page a.paged

  add_rest-IsAdded :
      (n lo : ℕ) (r : MemoryRegion)
      → IsAddable r live lo n
      → (r' : MemoryRegion) × (add_rest n page_level lo r ≡ some r')
        × IsAdded r live lo (lo + n * page_size) r'
  unfolding add_rest
  add_rest-IsAdded zero lo r a =
      (r, refl, subst (λ t. IsAdded r live lo t r) (omega arith) (none-IsAdded lo a.valid))
  add_rest-IsAdded (suc n) lo r a =
      let a' = subst (IsAddable r live lo) (one_page n) a in
      let (s, run, d, b) =
        add_block page_level lo 1 n (omega arith) (omega arith) page (paged-aligned a) a' in
      let (t, go, e) = add_rest-IsAdded n (lo + 1 * page_size) s b in
      (
        t,
        rw (run, next_address lo 1 n a') go,
        subst (λ k. IsAdded r live lo k t) (omega arith)
            (both-IsAdded (omega arith) (omega arith) d e),
      )

  continue :
      {r s t : MemoryRegion} {lo pages k left at rest : ℕ}
      → lo ≤ k
      → k + left * page_size ≡ lo + pages * page_size
      → IsAdded r live lo k s
      → IsPartly s live k left at rest t
      → IsPartly r live lo pages at rest t
  continue h e d p = record {
    split = p.split ∙ e;
    beyond = omega (arith, p.beyond);
    added = both-IsAdded h p.beyond d p.added;
    addable = p.addable;
  }

  stay : {r : MemoryRegion} {lo n : ℕ} → IsAddable r live lo n → IsPartly r live lo n lo n r
  stay {lo} a = record {
    split = refl;
    beyond = omega arith;
    added = none-IsAdded lo a.valid;
    addable = a;
  }

  add_to_boundary-IsPartly :
      (n lo : ℕ) (r : MemoryRegion)
      → IsAddable r live lo n
      → (at left : ℕ) × (r' : MemoryRegion) × (add_to_boundary n page_level lo r
          ≡ some (at, left, r'))
        × IsPartly r live lo n at left r'
        × ((left ≡ 0) ⊎ (at % buddy_top_level_size ≡ 0))
  unfolding add_to_boundary
  add_to_boundary-IsPartly zero lo r a = (lo, 0, r, refl, stay a, inl refl)
  add_to_boundary-IsPartly (suc n) lo r a = elim (Bool-cases (lo % buddy_top_level_size == 0)) [
    | inl e ↦ (lo, suc n, r, rw (e, add_to_boundary), stay a, inr (eq_of_== _ _ e))
    | inr e ↦
        let a' = subst (IsAddable r live lo) (one_page n) a in
        let (s, run, d, b) =
          add_block page_level lo 1 n (omega arith) (omega arith) page (paged-aligned a) a' in
        let (at, left, t, go, p, edge) = add_to_boundary-IsPartly n (lo + 1 * page_size) s b in
        (
          at,
          left,
          t,
          rw (e, run, next_address lo 1 n a', add_to_boundary) go,
          continue (omega arith) (omega arith) d p,
          edge,
        )
  ]

  add_top_blocks-IsPartly :
      (rounds n lo : ℕ) (r : MemoryRegion)
      → IsAddable r live lo n
      → (n ≡ 0) ⊎ (lo % buddy_top_level_size ≡ 0)
      → (at left : ℕ) × (r' : MemoryRegion) × (add_top_blocks rounds lo n r ≡ some (at, left, r'))
        × IsPartly r live lo n at left r'
  unfolding add_top_blocks
  add_top_blocks-IsPartly zero n lo r a edge = (lo, n, r, refl, stay a)
  add_top_blocks-IsPartly (suc rounds) n lo r a edge = elim (Bool-cases (leb top_pages n)) [
    | inr e ↦ (lo, n, r, rw (e, add_top_blocks), stay a)
    | inl e ↦
        let parts : n ≡ top_pages + (n - top_pages) = ground arith in
        let a' = subst (IsAddable r live lo) parts a in
        let aligned : lo % block_size 23 ≡ 0 =
          rw top (elim edge [ inl z ↦ absurd (ground arith) | inr z ↦ z ]) in
        let (s, run, d, b) =
          add_block 23 lo top_pages (n - top_pages) (omega arith) (omega arith) top aligned a' in
        let (at, left, t, go, p) =
          add_top_blocks-IsPartly rounds (n - top_pages) (lo + top_pages * page_size) s b
            (inr (ground (arith, edge))) in
        (
          at,
          left,
          t,
          rw (e, run, next_address lo top_pages (n - top_pages) a', add_top_blocks) go,
          continue (omega arith) (omega (arith, parts)) d p,
        )
  ]

  -- `add_memory_to_region` of pages of the region that no block covers does not fault, keeps the
  -- region well-formed, and makes exactly the addresses of those pages free in addition.
  pub add_memory_to_region-IsAdded :
      (n lo : ℕ) (r : MemoryRegion) → IsAddable r live lo n → Adds live n lo r
  unfolding add_memory_to_region get_level_by_size count_leading_zeros
  add_memory_to_region-IsAdded n lo r a =
      let (at, left, s, run, p, edge) = add_to_boundary-IsPartly n lo r a in
      let (at', left', s', run', p') = add_top_blocks-IsPartly left left at s p.addable edge in
      let (t, go, e) = add_rest-IsAdded left' at' s' p'.addable in
      (
        t,
        rw (run, run') go,
        subst (λ k. IsAdded r live lo k t) (p'.split ∙ p.split)
            (both-IsAdded p.beyond (omega (arith, p'.beyond)) p.added
              (both-IsAdded p'.beyond (omega arith) p'.added e)),
      )
