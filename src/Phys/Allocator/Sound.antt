-- ===== src/Phys/Allocator/Sound.antt =====
-- The state of the allocator: well-formed regions, and a reserve of pages that are handed out.
use tomat_os.Base.{
  ℕ, ◌≡◌, ◌⊎◌, inl, inr, refl, ◌∙◌, Bool, true, false, ◌==◌, Option, none, some, List, arith,
  Bool-cases, Option-cases, update,
}
use tomat_os.Base.Bits.{count_leading_zeros}
use tomat_os.Phys.Region.{MemoryRegion, page_size}
use tomat_os.Phys.Region.Inv.{plus, page_level}
use tomat_os.Phys.Levels.{get_level_by_size}
use tomat_os.Phys.Allocator.{Memory, fill_irq_alloc, release, init_phys_per_cpu}
use tomat_os.Phys.Allocator.Regions.{
  AllValid, AllClear, AllClear-Alike, homed, homed-Alike, Alike, Alike-refl, Granted,
  alloc_from-Granted,
}

pub record IsRegional (live : ℕ → ℕ → Bool) (rs : List MemoryRegion) : Type 0 where
  pub valid : AllValid live rs
  pub clear : AllClear rs
  pub homes : (l a : ℕ) → live l a ≡ true → homed rs a ≡ true

pub record IsReserve (live : ℕ → ℕ → Bool) (reserved : ℕ → Option ℕ) : Type 0 where
  pub taken : (cpu p : ℕ) → reserved cpu ≡ some p → live page_level p ≡ true
  pub unshared : (c d p : ℕ) → reserved c ≡ some p → reserved d ≡ some p → c ≡ d

pub record IsSound (live : ℕ → ℕ → Bool) (m : Memory) : Type 0 where
  pub unlocked : m.locked ≡ false
  pub no_holder : m.lock_cpu ≡ none
  pub regional : IsRegional live m.regions
  pub reserve : IsReserve live m.reserved_page

pub Granted-IsRegional :
    {live : ℕ → ℕ → Bool} {level p : ℕ} {rs rs' : List MemoryRegion}
    → IsRegional live rs
    → Granted live level p rs rs'
    → IsRegional (plus live level p) rs'
Granted-IsRegional {live} {level} {p} {rs} {rs'} g a = record {
  valid = a.valid;
  clear = AllClear-Alike rs rs' a.alike g.clear;
  homes = λ l x h. ground (arith, homed-Alike rs rs' x a.alike, g.homes l x, a.at_home);
}

pub plus-IsReserve :
    {live : ℕ → ℕ → Bool} {reserved : ℕ → Option ℕ} (l p : ℕ)
    → IsReserve live reserved
    → IsReserve (plus live l p) reserved
plus-IsReserve l p r = record {
  taken = λ cpu q h. ground (arith, r.taken cpu q);
  unshared = r.unshared;
}

-- The level of a page.
page_size-level : get_level_by_size page_size ≡ some page_level
unfolding get_level_by_size count_leading_zeros
page_size-level = refl

-- What filling the reserve reaches: the blocks handed out grow by the reserved page at most.
pub record Filled (live : ℕ → ℕ → Bool) (m : Memory) (live' : ℕ → ℕ → Bool) (m' : Memory)
    : Type 0 where
  pub regional : IsRegional live' m'.regions
  pub reserve : IsReserve live' m'.reserved_page
  pub grows : (l a : ℕ) → live l a ≡ true → live' l a ≡ true
  pub alike : Alike m.regions m'.regions
  pub same_lock : m'.locked ≡ m.locked
  pub same_holder : m'.lock_cpu ≡ m.lock_cpu
  pub apart :
      (c p : ℕ)
      → m'.reserved_page c ≡ some p
      → (m.reserved_page c ≡ some p) ⊎ (live page_level p ≡ false)

module _ {live : ℕ → ℕ → Bool} (cpu : ℕ) (m : Memory) (g : IsRegional live m.regions)
    (s : IsReserve live m.reserved_page) where
  pub fill_irq_alloc-Filled :
      (live' : ℕ → ℕ → Bool) × (m' : Memory) × (fill_irq_alloc cpu m ≡ some m')
      × Filled live m live' m'
  unfolding fill_irq_alloc
  fill_irq_alloc-Filled = elim (Option-cases (m.reserved_page cpu)) [
    | inr (q, e) ↦ (live, m, rw (e, fill_irq_alloc), same)
    | inl e ↦
        elim (alloc_from-Granted page_level (omega arith) (omega arith) m.regions g.valid g.clear) [
          | inl (run, _) ↦ (live, m, rw (e, page_size-level, run, fill_irq_alloc), same)
          | inr (p, rs', run, a) ↦ (
            plus live page_level p,
            record m { regions = rs'; reserved_page = update m.reserved_page cpu (some p) },
            rw (e, page_size-level, run, fill_irq_alloc),
            record {
              regional = Granted-IsRegional g a;
              reserve = record {
                taken = λ c q h. ground (arith, s.taken c q);
                unshared = λ c d q h k.
                    ground (arith, s.unshared c d q, s.taken c q, s.taken d q, a.fresh);
              };
              grows = λ l x h. ground arith;
              alike = a.alike;
              same_lock = refl;
              same_holder = refl;
              apart = λ c q h. elim (Bool-cases (cpu == c)) [
                | inl y ↦ inr (ground (arith, a.fresh))
                | inr n ↦ inl (ground arith)
              ];
            },
          )
        ]
  ]
    where
      same : Filled live m live m
      same = record {
        regional = g;
        reserve = s;
        grows = λ l a h. h;
        alike = Alike-refl m.regions;
        same_lock = refl;
        same_holder = refl;
        apart = λ c p h. inl h;
      }

abbrev pub Readies : (live : ℕ → ℕ → Bool) (cpu : ℕ) → Memory → Type 0
Readies live cpu m =
    (live' : ℕ → ℕ → Bool) × (m' : Memory) × (init_phys_per_cpu cpu m ≡ some m')
    × IsSound live' m'
    × ((l a : ℕ) → live l a ≡ true → live' l a ≡ true)

-- In a sound state `init_phys_per_cpu` does not fault and leaves a sound state in which all that was
-- handed out still is.
pub init_phys_per_cpu-IsSound :
    {live : ℕ → ℕ → Bool} {m : Memory} (cpu : ℕ) → IsSound live m → Readies live cpu m
unfolding init_phys_per_cpu
init_phys_per_cpu-IsSound {live} {m} cpu s =
    let (live', m', run, f) =
      fill_irq_alloc-Filled cpu (record m { locked = true }) s.regional s.reserve in
    (
      live',
      release m',
      rw (s.unlocked, run),
      record {
        unlocked = refl;
        no_holder = f.same_holder ∙ s.no_holder;
        regional = f.regional;
        reserve = f.reserve;
      },
      f.grows,
    )
