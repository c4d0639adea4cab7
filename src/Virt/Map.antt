-- ===== src/Virt/Map.antt =====
-- `virt_map_page` maps one page, and no other mapping changes.
use tomat_os.Base.{
  ℕ, ◌≡◌, ◌⊎◌, inl, inr, refl, sym, ap, ◌∙◌, Bool, true, false, Option, none, some, if◌then◌else◌,
  subst,
}
use tomat_os.Errors.{Err, no_error, out_of_memory}
use tomat_os.Virt.Pages.{PageAllocator}
use tomat_os.Virt.Tables.{
  PageEntry, Space, index, set_entry, map_entry, lock_virt, unlock_virt, walk, virt_map_page,
}
use tomat_os.Virt.Mapping.{table_at, leaf, leaf_from, same_page, present_entry}
use tomat_os.Virt.Walk.{IsSpace, Steps, Arrives, IsExhausted, walk-Walked}
use tomat_os.Virt.Write.{written-IsTree, written-leaf}

-- Between two calls: the tables form a tree, and the lock is free.
pub record IsSound (A : PageAllocator) (live : ℕ → Bool) (s : Space A.State) : Type 0 where
  pub rank : ℕ → ℕ
  pub key : ℕ → ℕ
  pub space : IsSpace A rank key live s
  pub unlocked : s.locked ≡ false

-- The mappings of the two states agree.
abbrev pub SameMappings : {S : Type 0} → Space S → Space S → Type 0
SameMappings s s' = (va : ℕ) → leaf s' va ≡ leaf s va

-- The page of `virt` is mapped by the entry, and all other pages as before.
abbrev pub MapsPage : {S : Type 0} → ℕ → PageEntry → Space S → Space S → Type 0
MapsPage virt e s s' =
    (va : ℕ) → leaf s' va ≡ (if same_page va virt then present_entry e else leaf s va)

-- The state after a step, in which what was handed out still is.
pub record After (A : PageAllocator) (live : ℕ → Bool) (s' : Space A.State) : Type 0 where
  pub live' : ℕ → Bool
  pub sound : IsSound A live' s'
  pub live_kept : (f : ℕ) → live f ≡ true → live' f ≡ true

module _ {A : PageAllocator} {live : ℕ → Bool} where
  pub Steps-SameMappings :
      {rank key : ℕ → ℕ} {s s' : Space A.State}
      → IsSpace A rank key live s
      → Steps A rank key live s s'
      → SameMappings s s'
  unfolding leaf
  Steps-SameMappings {s} {s'} v p va =
      ap (λ c. leaf_from s'.tables 3 c va) p.same_cr3
      ∙ p.grows.leaf_kept 3 s.cr3 va v.tree.root_rank

  pub Steps-After :
      {rank key : ℕ → ℕ} {s s' : Space A.State}
      → Steps A rank key live s s'
      → After A live (unlock_virt s')
  Steps-After p = record {
    live' = p.live';
    sound = record {
      rank = p.rank';
      key = p.key';
      space = record { tree = p.space.tree; pages = p.space.pages };
      unlocked = refl;
    };
    live_kept = p.grows.live_kept;
  }

  -- Writing the entry of the page that was walked to.
  pub write-MapsPage :
      {rank key : ℕ → ℕ} {s s' : Space A.State} (virt u : ℕ) (e : PageEntry)
      → IsSpace A rank key live s
      → Steps A rank key live s s'
      → table_at s'.tables 3 s.cr3 virt ≡ some u
      → MapsPage virt e s
          (unlock_virt (record s' { tables = set_entry s'.tables u (index 0 virt) e }))
  unfolding leaf
  write-MapsPage {s} {s'} virt u e v p at va =
      let at' : table_at s'.tables 3 s'.cr3 virt ≡ some u =
        subst (λ c. table_at s'.tables 3 c virt ≡ some u) (sym p.same_cr3) at in
      written-leaf p.space.tree virt u at' e va
      ∙ ap (λ t. if same_page va virt then present_entry e else t) (Steps-SameMappings v p va)

  pub write-After :
      {rank key : ℕ → ℕ} {s s' : Space A.State} (virt u : ℕ) (e : PageEntry)
      → Steps A rank key live s s'
      → table_at s'.tables 3 s.cr3 virt ≡ some u
      → After A live (unlock_virt (record s' { tables = set_entry s'.tables u (index 0 virt) e }))
  write-After {s} {s'} virt u e p at =
      let at' : table_at s'.tables 3 s'.cr3 virt ≡ some u =
        subst (λ c. table_at s'.tables 3 c virt ≡ some u) (sym p.same_cr3) at in
      record {
        live' = p.live';
        sound = record {
          rank = p.rank';
          key = p.key';
          space = record { tree = written-IsTree p.space.tree virt u at' e; pages = p.space.pages };
          unlocked = refl;
        };
        live_kept = p.grows.live_kept;
      }

  pub locked-IsSpace :
      {s : Space A.State}
      → (v : IsSound A live s) → IsSpace A v.rank v.key live (record s { locked = true })
  locked-IsSpace v = record { tree = v.space.tree; pages = v.space.pages }

-- What mapping a page reaches.
abbrev pub Maps :
    (A : PageAllocator) (live : ℕ → Bool) (virt : ℕ) (e : PageEntry) (s : Space A.State)
    → Option (Err × Space A.State)
    → Type 0
Maps A live virt e s code =
    (err : Err) × (s' : Space A.State) × (code ≡ some (err, s'))
    × After A live s'
    × (((err ≡ out_of_memory) × SameMappings s s' × IsExhausted A s'.pages)
        ⊎ ((err ≡ no_error) × MapsPage virt e s s'))

module _ {A : PageAllocator} {live : ℕ → Bool} (phys virt flags : ℕ) (s : Space A.State)
    (v : IsSound A live s) where
  mapped :
      (r : Option ℕ) (s' : Space A.State)
      → walk A virt (record s { locked = true }) ≡ some (r, s')
      → Steps A v.rank v.key live (record s { locked = true }) s'
      → Arrives A s'.pages virt s'.tables s.cr3 r
      → Maps A live virt (map_entry phys flags) s (virt_map_page A phys virt flags s)
  unfolding virt_map_page lock_virt leaf
  mapped none s' run p at = (
    out_of_memory,
    unlock_virt s',
    rw (v.unlocked, run) refl,
    Steps-After p,
    inl (refl, Steps-SameMappings (locked-IsSpace v) p, at),
  )
  mapped (some u) s' run p at = (
    no_error,
    unlock_virt
        (record s' { tables = set_entry s'.tables u (index 0 virt) (map_entry phys flags) }),
    rw (v.unlocked, run) refl,
    write-After virt u (map_entry phys flags) p at,
    inr (refl, write-MapsPage virt u (map_entry phys flags) (locked-IsSpace v) p at),
  )

  pub virt_map_page-Mapped :
      Maps A live virt (map_entry phys flags) s (virt_map_page A phys virt flags s)
  virt_map_page-Mapped =
      let (r, s', run, p, at) = walk-Walked virt (record s { locked = true }) (locked-IsSpace v) in
      mapped r s' run p at
