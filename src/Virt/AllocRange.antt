-- ===== src/Virt/AllocRange.antt =====
-- `virt_alloc_range` over pages that are not mapped yet.
use tomat_os.Base.{
  ℕ, ◌+◌, ◌^◌, ◌≤◌, ◌<◌, ◌≡◌, ◌≢◌, ◌⊎◌, inl, inr, refl, Bool, true, false, Option, none, some,
  ==-refl, Bool-cases,
}
use tomat_os.Errors.{Err, no_error, out_of_memory}
use tomat_os.Virt.Pages.{PageAllocator}
use tomat_os.Virt.Tables.{Space, unlock_virt}
use tomat_os.Virt.Mapping.{leaf, same_page}
use tomat_os.Virt.Ranges.{page_address, alloc_pages, virt_alloc_range}
use tomat_os.Virt.Walk.{IsExhausted}
use tomat_os.Virt.Map.{IsSound, After, SameMappings}
use tomat_os.Virt.MapRange.{Inside, Outside, page_unique}
use tomat_os.Virt.AllocPage.{Keeps, alloc_entry}

-- No page of the range is mapped.
abbrev pub IsUnmapped : {S : Type 0} → (virt left i : ℕ) → Space S → Type 0
IsUnmapped virt left i s = (j : ℕ) → i ≤ j → j < i + left → leaf s (page_address virt j) ≡ none

-- Every page has a frame that was not handed out, and no two have the same.
pub record OwnFrames (live : ℕ → Bool) (left i : ℕ) (frame : ℕ → ℕ) : Type 0 where
  pub unused : (j : ℕ) → i ≤ j → j < i + left → live (frame j) ≡ false
  pub distinct : (j k : ℕ) → i ≤ j → j < i + left → i ≤ k → k < i + left → frame j ≡ frame k → j ≡ k

-- All pages are mapped, or memory ran out at page `stop`.
abbrev pub Filled : {S : Type 0} → (live : ℕ → Bool) (virt left i : ℕ) (s s' : Space S) → Type 0
Filled live virt left i s s' =
    (frame : ℕ → ℕ) × OwnFrames live left i frame
    × Inside virt left i (λ j. alloc_entry (frame j)) s'
    × Outside virt left i s s'

abbrev pub Stopped : {S : Type 0} → (virt left i stop : ℕ) (s s' : Space S) → Type 0
Stopped virt left i stop s s' =
    (stop < i + left) × (leaf s' (page_address virt stop) ≡ none) × ((stop ≡ i) → SameMappings s s')

abbrev AllocsRange :
    (A : PageAllocator) (live : ℕ → Bool) (virt left i : ℕ) (s : Space A.State)
    → Option (Err × ℕ × Space A.State)
    → Type 0
AllocsRange A live virt left i s code =
    (err : Err) × (stop : ℕ) × (s' : Space A.State) × (code ≡ some (err, stop, s'))
    × Keeps A live s'
    × (i ≤ stop)
    × (((err ≡ no_error) × Filled live virt left i s s')
        ⊎ ((err ≡ out_of_memory) × Stopped virt left i stop s s' × IsExhausted A s'.pages))

pub page-other :
    (virt j k : ℕ)
    → j < 2 ^ 32
    → k < 2 ^ 32
    → j ≢ k
    → same_page (page_address virt j) (page_address virt k) ≡ false
page-other virt j k hj hk n =
    elim (Bool-cases (same_page (page_address virt j) (page_address virt k))) [
      | inr o ↦ o
      | inl y ↦ absurd (n (page_unique virt (page_address virt j) j k hj hk (==-refl _) y))
    ]

-- What `virt_alloc_range` reaches over pages that are not mapped.
abbrev pub Allocates :
    (A : PageAllocator) (live : ℕ → Bool) (virt page_count : ℕ) (s : Space A.State) → Type 0
Allocates A live virt page_count s =
    ((s' : Space A.State) × (virt_alloc_range A virt page_count s ≡ some (no_error, s'))
      × After A live s'
      × Filled live virt page_count 0 s s')
    ⊎ ((s' : Space A.State) × (virt_alloc_range A virt page_count s ≡ some (out_of_memory, s'))
        × After A live s'
        × SameMappings s s'
        × IsExhausted A s'.pages)
    ⊎ ((stop : ℕ) × (0 < stop)
        × (stop < page_count)
        × (s' : Space A.State) × (alloc_pages A virt page_count 0 (record s { locked = true })
            ≡ some (out_of_memory, stop, s'))
        × IsExhausted A s'.pages
        × (virt_alloc_range A virt page_count s ≡ none))

module _ {A : PageAllocator} {live : ℕ → Bool} (virt page_count : ℕ) (s : Space A.State)
    (v : IsSound A live s) where
  pub Keeps-After : {s' : Space A.State} → Keeps A live s' → After A live (unlock_virt s')
  Keeps-After k = record {
    live' = k.live';
    sound = record {
      rank = k.rank;
      key = k.key;
      space = record { tree = k.space.tree; pages = k.space.pages };
      unlocked = refl;
    };
    live_kept = k.live_kept;
  }
