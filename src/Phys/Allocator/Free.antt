-- ===== src/Phys/Allocator/Free.antt =====
-- `phys_free` gives back a block that was handed out, found by its address alone.
use mathlib.Core.Path.{fun_ext}
use tomat_os.Base.{
  some-inj, ℕ, suc, ◌+◌, ◌%◌, ◌^◌, ◌≡◌, ◌≢◌, ◌⊎◌, ◌==◌, inl, inr, refl, sym, ap, ◌∙◌, Bool, true,
  false, Option, none, some, List, [], ◌∷◌, arith, Bool-cases, update, get_elem?, set, subst,
  ==-refl,
}
use tomat_os.Phys.Blocks.{block_size-pos}
use tomat_os.Phys.Region.{MemoryRegion, PageMetadata, page_size, page_metadata}
use tomat_os.Phys.Region.Inv.{page_index, InFree, InBlock}
use tomat_os.Phys.FreeMemory.{IsFree, get_elem?-set_same, get_elem?-set_other}
use tomat_os.Phys.Region.Moves.{IsValid, minus}
use tomat_os.Phys.Buddy.Neighbor.{page_metadata-of_inside}
use tomat_os.Phys.Buddy.Free.{free_at_level-Freed}
use tomat_os.Phys.Levels.{get_level_by_size}
use tomat_os.Phys.Allocator.{
  Memory, cpu_is, locked_alloc, contains, find_region, phys_alloc, phys_free,
}
use tomat_os.Phys.Allocator.Regions.{
  within, AllValid, AllClear, Alike, Alike-refl, AllClear-Alike, homed, homed-Alike, within-alike,
  Clear-homed,
}
use tomat_os.Phys.Allocator.Sound.{IsSound}

within-minus :
    (r : MemoryRegion) (live : ℕ → ℕ → Bool) (l p : ℕ)
    → within r (minus live l p) ≡ minus (within r live) l p
within-minus r live l p = fun_ext λ m. fun_ext λ a. ground arith

within-minus_other :
    (r : MemoryRegion) (live : ℕ → ℕ → Bool) (l p : ℕ)
    → contains r p ≡ false
    → within r (minus live l p) ≡ within r live
within-minus_other r live l p h = fun_ext λ m. fun_ext λ a. ground arith

AllValid-minus_other :
    (rs : List MemoryRegion) (live : ℕ → ℕ → Bool) (l p : ℕ)
    → homed rs p ≡ false
    → AllValid live rs
    → AllValid (minus live l p) rs
AllValid-minus_other [] live l p h v = tt
AllValid-minus_other (r ∷ rs) live l p h (v, vs) = (
  subst (IsValid r) (sym (within-minus_other r live l p (ground arith))) v,
  AllValid-minus_other rs live l p (ground arith) vs,
)

-- The region of a block that is handed out, and what follows when the block goes back there.
record Home (live : ℕ → ℕ → Bool) (l p : ℕ) (rs : List MemoryRegion) : Type 0 where
  index : ℕ
  region : MemoryRegion
  found : find_region p rs ≡ some index
  there : get_elem? rs index ≡ some region
  inside : contains region p ≡ true
  valid : IsValid region (within region live)
  back :
      (r' : MemoryRegion)
      → r'.base ≡ region.base
      → r'.page_count ≡ region.page_count
      → IsValid r' (within r' (minus live l p))
      → AllValid (minus live l p) (set rs index r') × Alike rs (set rs index r')

home :
    (live : ℕ → ℕ → Bool) (l p : ℕ) (rs : List MemoryRegion)
    → AllValid live rs
    → AllClear rs
    → homed rs p ≡ true
    → Home live l p rs
unfolding find_region
home live l p [] v c h = absurd (ground arith)
home live l p (r ∷ rs) (v, vs) (c, cs) h = elim (Bool-cases (contains r p)) [
  | inl at ↦ record {
    index = 0;
    region = r;
    found = rw (at, find_region);
    there = refl;
    inside = at;
    valid = v;
    back = λ r' e f v'. (
      (v', AllValid-minus_other rs live l p (Clear-homed r rs p c at) vs),
      (e, f, Alike-refl rs),
    );
  }
  | inr out ↦
      let H = home live l p rs vs cs (ground arith) in
      record {
        index = suc H.index;
        region = H.region;
        found = rw (out, H.found, find_region);
        there = H.there;
        inside = H.inside;
        valid = H.valid;
        back = λ r' e f v'.
            let (vs', k) = H.back r' e f v' in
            ((subst (IsValid r) (sym (within-minus_other r live l p out)) v, vs'), (refl, refl, k));
      }
]

-- The free memory, when a region changes.
module _ (rs : List MemoryRegion) (i l p : ℕ) (r r' : MemoryRegion)
    (at : get_elem? rs i ≡ some r) where
  given-IsFree :
      ((x : ℕ) → InFree r x ⊎ InBlock l p x → InFree r' x)
      → (x : ℕ) → IsFree rs x ⊎ InBlock l p x
      → IsFree (set rs i r') x
  given-IsFree keeps x (inr b) = (i, r', get_elem?-set_same rs i r' r at, keeps x (inr b))
  given-IsFree keeps x (inl (j, q, there, o)) = elim (Bool-cases (i == j)) [
    | inl y ↦
        let same : i ≡ j = ground arith in
        let q_is : q ≡ r = some-inj (sym there ∙ ap (get_elem? rs) (sym same) ∙ at) in
        (i, r', get_elem?-set_same rs i r' r at, keeps x (inl (subst (λ g. InFree g x) q_is o)))
    | inr n ↦ (j, q, get_elem?-set_other rs i j r' (λ s. ground (arith, s, n)) ∙ there, o)
  ]

  back-IsFree :
      ((x : ℕ) → InFree r' x → InFree r x ⊎ InBlock l p x)
      → (x : ℕ) → IsFree (set rs i r') x
      → IsFree rs x ⊎ InBlock l p x
  back-IsFree back x (j, q, there, o) = elim (Bool-cases (i == j)) [
    | inl y ↦
        let same : i ≡ j = ground arith in
        let q_is : q ≡ r' =
          some-inj (
            sym there
            ∙ ap (get_elem? (set rs i r')) (sym same)
            ∙ get_elem?-set_same rs i r' r at) in
        elim (back x (subst (λ g. InFree g x) q_is o)) [ inl f ↦ inl (i, r, at, f) | inr b ↦ inr b ]
    | inr n ↦ inl (j, q, sym (get_elem?-set_other rs i j r' (λ s. ground (arith, s, n))) ∙ there, o)
  ]

abbrev pub GivesBack : (live : ℕ → ℕ → Bool) (l p : ℕ) → Memory → Type 0
GivesBack live l p m =
    (m' : Memory) × (phys_free (some p) m ≡ some m')
    × IsSound (minus live l p) m'
    × ((x : ℕ) → IsFree m.regions x ⊎ InBlock l p x → IsFree m'.regions x)
    × ((x : ℕ) → IsFree m'.regions x → IsFree m.regions x ⊎ InBlock l p x)

module _ {live : ℕ → ℕ → Bool} {m : Memory} (l p : ℕ) (s : IsSound live m)
    (out : live l p ≡ true) where
  abbrev H : Home live l p m.regions
  H = home live l p m.regions s.regional.valid s.regional.clear (s.regional.homes l p out)

  -- In a sound state `phys_free` of the address of a block that is handed out, and is no core's
  -- reserve, finds its region and level, does not fault, and leaves a sound state in which that block
  -- alone is no longer handed out. The free addresses are those that were free and those of the block.
  pub phys_free-IsSound : ((cpu : ℕ) → m.reserved_page cpu ≢ some p) → GivesBack live l p m
  unfolding phys_free
  phys_free-IsSound own =
      let r = H.region in
      let V = H.valid.placed l p (ground arith) in
      let here : page_metadata r p ≡ some (page_index r p) =
        page_metadata-of_inside r p V.from_base (omega (arith, V.to_end, block_size-pos l)) in
      let at : (r.metadata (page_index r p)).level ≡ l =
        ap (λ (t : PageMetadata). t.level) (H.valid.live_entry l p (ground arith)) in
      let (r', run, f) =
        free_at_level-Freed {r = r} {live = within r live} l p H.valid (ground arith) in
      let valid' : IsValid r' (within r' (minus live l p)) =
        subst (IsValid r')
          (sym
            (within-alike r r' (minus live l p) f.same_base f.same_count ∙ within-minus r live l p))
          f.valid in
      let (vs, k) = H.back r' f.same_base f.same_count valid' in
      (
        record m { regions = set m.regions H.index r'; locked = false },
        rw (s.unlocked, H.found, H.there, here, at, V.aligned, run),
        record {
          unlocked = refl;
          no_holder = s.no_holder;
          regional = record {
            valid = vs;
            clear = AllClear-Alike m.regions _ k s.regional.clear;
            homes = λ n a h. homed-Alike m.regions _ a k ∙ s.regional.homes n a (ground arith);
          };
          reserve = record {
            taken = λ cpu q h. ground (arith, s.reserve.taken cpu q, own cpu);
            unshared = s.reserve.unshared;
          };
        },
        given-IsFree m.regions H.index l p r r' H.there f.keeps,
        back-IsFree m.regions H.index l p r r' H.there f.back,
      )

-- A request for one page by the core that holds the region lock gets that core's reserved page, if it
-- has one: the lock is not taken, and only the reserve changes.
pub phys_alloc-nested :
    (cpu page : ℕ) (m : Memory)
    → m.lock_cpu ≡ some cpu
    → m.reserved_page cpu ≡ some page
    → phys_alloc cpu page_size m
      ≡ some (some page, record m { reserved_page = update m.reserved_page cpu none })
unfolding phys_alloc
phys_alloc-nested cpu page m e r = simp (e, ==-refl cpu, r)

-- While no core is in the allocator, the size of a request counts only modulo 2^32: a request of 4 GB
-- more is answered in the same way.
pub phys_alloc-wraps :
    (cpu size : ℕ) (m : Memory)
    → m.lock_cpu ≡ none
    → phys_alloc cpu (size + 2 ^ 32) m ≡ phys_alloc cpu size m
unfolding phys_alloc
phys_alloc-wraps cpu size m e =
    let same : (size + 2 ^ 32) % 2 ^ 32 ≡ size % 2 ^ 32 = omega arith in
    let outside : cpu_is m.lock_cpu cpu ≡ false = rw e in
    rw outside (
      ap
        (λ n. elim (get_level_by_size n) as (λ _. Option (Option ℕ × Memory)) [
          | none ↦ some (none, m)
          | some level ↦ locked_alloc cpu level m
        ])
        same)
