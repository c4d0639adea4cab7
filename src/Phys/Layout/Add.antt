-- ===== src/Phys/Layout/Add.antt =====
-- `add_memory`: the usable entries become free memory.
use tomat_os.Base.{
  ℕ, zero, suc, ◌+◌, ◌*◌, ◌≤◌, ◌<◌, ◌≡◌, ◌⊎◌, inl, inr, refl, sym, ap, ◌∙◌, Bool, true, false,
  arith, Bool-cases, ◌==◌, subst, Option, some, List, [], ◌∷◌, ◌>>=◌, get_elem?, set,
}
use tomat_os.Errors.{no_error}
use tomat_os.Phys.Region.{MemoryRegion, page_size}
use tomat_os.Phys.Region.Inv.{InFree}
use tomat_os.Phys.Fill.Sound.{IsAddable, IsAdded, add_memory_to_region-IsAdded}
use tomat_os.Phys.Allocator.{contains, find_region}
use tomat_os.Phys.FreeMemory.{IsFree, get_elem?-set_same, get_elem?-set_other}
use tomat_os.Phys.Layout.{Entry, add_memory, is_usable, pages_of, phys_to_direct}

-- A region of the same place is found as the old one was.
find_region-set :
    (p i : ℕ) (r r' : MemoryRegion) (rs : List MemoryRegion)
    → get_elem? rs i ≡ some r
    → r'.base ≡ r.base
    → r'.page_count ≡ r.page_count
    → find_region p (set rs i r') ≡ find_region p rs
unfolding find_region
find_region-set p i r r' [] at b c = refl
find_region-set p zero r r' (s ∷ rs) at b c =
    let same : s ≡ r = cc in
    let e : contains r' p ≡ contains s p = rw (same, b, c) refl in rw (e, find_region) refl
find_region-set p (suc i) r r' (s ∷ rs) at b c =
    ap
      (λ o. elim (contains s p) as (λ _. Option ℕ) [
        | true ↦ some 0
        | false ↦ (do i ← o; some (suc i))
      ])
      (find_region-set p i r r' rs at b c)

-- The entry's first address in the direct map, and the one after its last page.
abbrev pub start_of : Entry → ℕ
start_of e = phys_to_direct e.base

abbrev pub stop_of : Entry → ℕ
stop_of e = start_of e + pages_of e * page_size

-- The region that is found for the entry holds all of its pages, and none of them is in a block.
pub record IsReady (live : ℕ → ℕ → Bool) (rs : List MemoryRegion) (e : Entry) : Type 0 where
  pub index : ℕ
  pub region : MemoryRegion
  pub found : find_region (start_of e) rs ≡ some index
  pub there : get_elem? rs index ≡ some region
  pub addable : IsAddable region live (start_of e) (pages_of e)

abbrev pub AreReady : (live : ℕ → ℕ → Bool) → List MemoryRegion → List Entry → Type 0
AreReady live rs [] = Unit
AreReady live rs (e ∷ entries) =
    (is_usable e.type ≡ true → IsReady live rs e) × AreReady live rs entries

-- The usable entries of the list share no page with the entry.
abbrev pub AllApart : Entry → List Entry → Type 0
AllApart e [] = Unit
AllApart e (f ∷ entries) =
    (is_usable f.type ≡ true → (stop_of e ≤ start_of f) ⊎ (stop_of f ≤ start_of e))
    × AllApart e entries

abbrev pub AreApart : List Entry → Type 0
AreApart [] = Unit
AreApart (e ∷ entries) = AllApart e entries × AreApart entries

-- The address is in a page of a usable entry.
abbrev pub InUsable : List Entry → ℕ → Type 0
InUsable [] x = ⊥
InUsable (e ∷ entries) x =
    ((is_usable e.type ≡ true) × (start_of e ≤ x) × (x < stop_of e)) ⊎ InUsable entries x

-- The entry was added to its region.
module _ {live : ℕ → ℕ → Bool} (rs : List MemoryRegion) (e : Entry) (w : IsReady live rs e)
    (r' : MemoryRegion) (a : IsAdded w.region live (start_of e) (stop_of e) r') where
  abbrev rs' : List MemoryRegion
  rs' = set rs w.index r'

  added-IsReady :
      (f : Entry)
      → (stop_of e ≤ start_of f) ⊎ (stop_of f ≤ start_of e)
      → IsReady live rs f
      → IsReady live rs' f
  added-IsReady f apart u = elim (Bool-cases (w.index == u.index)) [
    | inr other ↦ record {
      index = u.index;
      region = u.region;
      found =
          find_region-set (start_of f) w.index w.region r' rs w.there a.same_base a.same_count
          ∙ u.found;
      there = get_elem?-set_other rs w.index u.index r' (λ s. ground (arith, s, other)) ∙ u.there;
      addable = u.addable;
    }
    | inl same ↦
        let i : w.index ≡ u.index = ground arith in
        let s : w.region ≡ u.region =
          (let x : some w.region ≡ some u.region = sym w.there ∙ ap (get_elem? rs) i ∙ u.there in
            cc) in
        let old : IsAddable w.region live (start_of f) (pages_of f) =
          subst (λ q. IsAddable q live (start_of f) (pages_of f)) (sym s) u.addable in
        let end : r'.page_count * page_size ≡ w.region.page_count * page_size =
          ap (λ n. n * page_size) a.same_count in
        record {
          index = w.index;
          region = r';
          found =
              find_region-set (start_of f) w.index w.region r' rs w.there a.same_base a.same_count
              ∙ u.found
              ∙ ap (λ n. some n) (sym i);
          there = get_elem?-set_same rs w.index r' w.region w.there;
          addable = record {
            valid = a.valid;
            paged = u.addable.paged;
            from_base = omega (arith, old.from_base, a.same_base);
            to_end = omega (arith, old.to_end, a.same_base, end);
            unclaimed = record {
              not_free = λ x lo hi in_free. elim (a.back x in_free) [
                | inl before ↦ old.unclaimed.not_free x lo hi before
                | inr (from, to) ↦ omega (arith, apart, lo, hi, from, to)
              ];
              not_live = old.unclaimed.not_live;
            };
          };
        }
  ]

  added-AreReady :
      (entries : List Entry)
      → AllApart e entries
      → AreReady live rs entries
      → AreReady live rs' entries
  added-AreReady [] apart ready = tt
  added-AreReady (f ∷ entries) (here, apart) (u, ready) =
      ((λ y. added-IsReady f (here y) (u y)), added-AreReady entries apart ready)

  -- The free addresses are those before, and the entry's.
  kept-IsFree : (x : ℕ) → IsFree rs x ⊎ ((start_of e ≤ x) × (x < stop_of e)) → IsFree rs' x
  kept-IsFree x (inr range) =
      (w.index, r', get_elem?-set_same rs w.index r' w.region w.there, a.keeps x (inr range))
  kept-IsFree x (inl (i, r, at, free)) = elim (Bool-cases (w.index == i)) [
    | inr other ↦
        (i, r, get_elem?-set_other rs w.index i r' (λ s. ground (arith, s, other)) ∙ at, free)
    | inl same ↦
        let s : w.index ≡ i = ground arith in
        let q : r ≡ w.region =
          (let y : some w.region ≡ some r = sym w.there ∙ ap (get_elem? rs) s ∙ at in cc) in
        (
          w.index,
          r',
          get_elem?-set_same rs w.index r' w.region w.there,
          a.keeps x (inl (subst (λ z. InFree z x) q free)),
        )
  ]

  back-IsFree : (x : ℕ) → IsFree rs' x → IsFree rs x ⊎ ((start_of e ≤ x) × (x < stop_of e))
  back-IsFree x (i, r, at, free) = elim (Bool-cases (w.index == i)) [
    | inr other ↦
        inl (
          i,
          r,
          sym (get_elem?-set_other rs w.index i r' (λ s. ground (arith, s, other))) ∙ at,
          free,
        )
    | inl same ↦
        let s : w.index ≡ i = ground arith in
        let q : r ≡ r' =
          (let y : some r' ≡ some r =
              sym (get_elem?-set_same rs w.index r' w.region w.there) ∙ ap (get_elem? rs') s ∙ at in
            cc) in
        elim (a.back x (subst (λ z. InFree z x) q free)) [
          | inl before ↦ inl (w.index, w.region, w.there, before)
          | inr range ↦ inr range
        ]
  ]

-- The usable pages are free in addition.
abbrev pub AddsMemory : (entries : List Entry) (rs : List MemoryRegion) → Type 0
AddsMemory entries rs =
    (rs' : List MemoryRegion) × (add_memory entries rs ≡ some (no_error, rs'))
    × ((x : ℕ) → IsFree rs x ⊎ InUsable entries x → IsFree rs' x)
    × ((x : ℕ) → IsFree rs' x → IsFree rs x ⊎ InUsable entries x)

-- When the entries share no pages, and the regions that are found for the usable ones hold their pages,
-- none of them in a block: add_memory returns without an error, and the free addresses of the regions
-- are those before and those of the pages of the usable entries.
pub add_memory-AddsMemory :
    (live : ℕ → ℕ → Bool) (entries : List Entry) (rs : List MemoryRegion)
    → AreApart entries
    → AreReady live rs entries
    → AddsMemory entries rs
unfolding add_memory
add_memory-AddsMemory live [] rs apart ready =
    (rs, refl, (λ x f. elim f [ inl y ↦ y | inr n ↦ absurd n ]), λ x f. inl f)
add_memory-AddsMemory live (e ∷ entries) rs (here, apart) (w, ready) =
    elim (Bool-cases (is_usable e.type)) [
      | inr n ↦
          let (rs', run, more, back) = add_memory-AddsMemory live entries rs apart ready in
          (
            rs',
            rw n run,
            (λ x f. more x (elim f [
              | inl b ↦ inl b
              | inr (inl (u, from, to)) ↦ absurd (let z : true ≡ false = sym u ∙ n in cc)
              | inr (inr rest) ↦ inr rest
            ])),
            (λ x f. elim (back x f) [ inl b ↦ inl b | inr rest ↦ inr (inr rest) ]),
          )
      | inl y ↦
          let u = w y in
          let (r', add, a) =
            add_memory_to_region-IsAdded (pages_of e) (start_of e) u.region u.addable in
          let (rs', run, more, back) =
            add_memory-AddsMemory live entries (set rs u.index r') apart
              (added-AreReady rs e u r' a entries here ready) in
          (
            rs',
            rw (y, u.found, u.there, add) run,
            (λ x f. more x (elim f [
              | inl b ↦ inl (kept-IsFree rs e u r' a x (inl b))
              | inr (inl (q, from, to)) ↦ inl (kept-IsFree rs e u r' a x (inr (from, to)))
              | inr (inr rest) ↦ inr rest
            ])),
            (λ x f. elim (back x f) [
              | inr rest ↦ inr (inr rest)
              | inl b ↦ elim (back-IsFree rs e u r' a x b) [
                | inl before ↦ inl before
                | inr (from, to) ↦ inr (inl (y, from, to))
              ]
            ]),
          )
    ]
