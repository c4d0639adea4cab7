-- ===== src/Virt/RemapRange.antt =====
-- `virt_remap_range` changes the permissions of each page of the range, and no frame.
use tomat_os.Base.{ℕ, ◌+◌, ◌≤◌, ◌<◌, ◌≡◌, ◌⊎◌, Bool, Option, none, some}
use tomat_os.Errors.{Err, no_error, check_failed, out_of_memory}
use tomat_os.Virt.Pages.{PageAllocator}
use tomat_os.Virt.Tables.{PageEntry, Space}
use tomat_os.Virt.Mapping.{leaf}
use tomat_os.Virt.Walk.{IsExhausted}
use tomat_os.Virt.Ranges.{page_address, virt_remap_range}
use tomat_os.Virt.Map.{After}
use tomat_os.Virt.MapRange.{Inside, Outside}
use tomat_os.Virt.AllocPage.{Keeps}
use tomat_os.Virt.Query.{with_flags}

-- Each page was mapped, and is mapped to the same frame with the permissions.
abbrev pub Remapped : {S : Type 0} → (virt flags left i : ℕ) (s s' : Space S) → Type 0
Remapped virt flags left i s s' =
    (entry : ℕ → PageEntry) × ((j : ℕ)
      → i ≤ j
      → j < i + left
      → leaf s (page_address virt j) ≡ some (entry j))
    × Inside virt left i (λ j. with_flags flags (entry j)) s'

-- There was no page for a table, or a page of the range is not mapped.
abbrev pub Fails : (A : PageAllocator) (virt left i : ℕ) (s s' : Space A.State) → Err → Type 0
Fails A virt left i s s' err =
    ((err ≡ out_of_memory) × IsExhausted A s'.pages)
    ⊎ ((err ≡ check_failed)
        × (j : ℕ) × (i ≤ j)
        × (j < i + left)
        × (leaf s (page_address virt j) ≡ none))

abbrev Remaps :
    (A : PageAllocator) (live : ℕ → Bool) (virt flags left i : ℕ) (s : Space A.State)
    → Option (Err × Space A.State)
    → Type 0
Remaps A live virt flags left i s code =
    (err : Err) × (s' : Space A.State) × (code ≡ some (err, s'))
    × Keeps A live s'
    × Outside virt left i s s'
    × (Fails A virt left i s s' err ⊎ ((err ≡ no_error) × Remapped virt flags left i s s'))

-- What `virt_remap_range` reaches.
abbrev pub RemapsRange :
    (A : PageAllocator) (live : ℕ → Bool) (virt flags page_count : ℕ) (s : Space A.State) → Type 0
RemapsRange A live virt flags page_count s =
    (err : Err) × (s' : Space A.State) × (virt_remap_range A virt page_count flags s
      ≡ some (err, s'))
    × After A live s'
    × Outside virt page_count 0 s s'
    × (Fails A virt page_count 0 s s' err
        ⊎ ((err ≡ no_error) × Remapped virt flags page_count 0 s s'))
