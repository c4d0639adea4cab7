-- ===== src/Virt/AllocPage.antt =====
-- One round of `virt_alloc_range`, and its clean-up.
use tomat_os.Base.{
  ℕ, zero, suc, ◌≡◌, ◌≢◌, ◌⊎◌, inl, inr, refl, sym, ap, ◌∙◌, Bool, true, false, Option, none, some,
  arith, Bool-cases, subst,
}
use tomat_os.Errors.{Err, no_error, check_failed, out_of_memory}
use tomat_os.Virt.Pages.{PageAllocator, IsFresh, frame_of}
use tomat_os.Virt.Tables.{PageEntry, Space, index, set_entry, walk}
use tomat_os.Virt.Mapping.{table_at, leaf, leaf_from-table_at, present_entry}
use tomat_os.Virt.Walk.{IsSpace, IsExhausted, Steps, Arrives, walk-Walked, frame_of-page}
use tomat_os.Virt.Write.{written-IsTree}
use tomat_os.Virt.Ranges.{alloc_page, rollback}
use tomat_os.Virt.Map.{SameMappings, MapsPage, Steps-SameMappings, write-MapsPage}

-- The entry of a page that is allocated.
abbrev pub alloc_entry : ℕ → PageEntry
alloc_entry frame = record { present = true; writeable = true; no_execute = true; frame = frame }

-- A state under the lock, in which what was handed out still is.
pub record Keeps (A : PageAllocator) (live : ℕ → Bool) (s' : Space A.State) : Type 0 where
  pub rank : ℕ → ℕ
  pub key : ℕ → ℕ
  pub live' : ℕ → Bool
  pub space : IsSpace A rank key live' s'
  pub live_kept : (f : ℕ) → live f ≡ true → live' f ≡ true

-- The page is mapped already, memory ran out, or the page has a frame of its own now.
abbrev pub PageOutcome :
    (A : PageAllocator) (live : ℕ → Bool) (vaddr : ℕ) (s s' : Space A.State) (live' : ℕ → Bool)
    → Err
    → Type 0
PageOutcome A live vaddr s s' live' err =
    ((err ≡ out_of_memory) × SameMappings s s' × IsExhausted A s'.pages)
    ⊎ ((err ≡ check_failed) × SameMappings s s' × (leaf s vaddr ≢ none))
    ⊎ ((err ≡ no_error)
        × (f : ℕ) × (live f ≡ false)
        × (live' f ≡ true)
        × MapsPage vaddr (alloc_entry f) s s')

abbrev pub AllocsPage :
    (A : PageAllocator) (live : ℕ → Bool) (vaddr : ℕ) (s : Space A.State)
    → Option (Err × Space A.State)
    → Type 0
AllocsPage A live vaddr s code =
    (err : Err) × (s' : Space A.State) × (code ≡ some (err, s'))
    × (k : Keeps A live s') × PageOutcome A live vaddr s s' k.live' err

pub rollback-zero :
    (A : PageAllocator) (vaddr : ℕ) (s : Space A.State) → rollback A vaddr zero s ≡ some s
unfolding rollback
rollback-zero A vaddr s = refl

module _ {A : PageAllocator} where
  -- The entry that the walk arrives at maps the address.
  pub arrived-leaf :
      {rank key : ℕ → ℕ} {live : ℕ → Bool} {s s' : Space A.State} (vaddr u : ℕ)
      → IsSpace A rank key live s
      → Steps A rank key live s s'
      → table_at s'.tables 3 s.cr3 vaddr ≡ some u
      → leaf s vaddr ≡ present_entry (s'.tables u (index 0 vaddr))
  unfolding leaf
  arrived-leaf {s} {s'} vaddr u v p at =
      sym (p.grows.leaf_kept 3 s.cr3 vaddr v.tree.root_rank)
      ∙ leaf_from-table_at s'.tables 3 s.cr3 vaddr u at

  module _ {rank key : ℕ → ℕ} {live : ℕ → Bool} (vaddr : ℕ) (s : Space A.State)
      (v : IsSpace A rank key live s) where
    with_pages :
        (live₁ : ℕ → Bool) (pages : A.State)
        → A.Holds live₁ pages
        → ((g : ℕ) → live g ≡ true → live₁ g ≡ true)
        → IsSpace A rank key live₁ (record s { pages = pages })
    with_pages live₁ pages holds grow = record {
      tree = record {
        root_rank = v.tree.root_rank;
        root_key = v.tree.root_key;
        child_rank = v.tree.child_rank;
        child_key = v.tree.child_key;
        shared = v.tree.shared;
        held = λ t n. grow t (v.tree.held t n);
      };
      pages = holds;
    }

    walked :
        (live₁ : ℕ → Bool) (pages : A.State) (page f : ℕ)
        → A.alloc s.pages ≡ some (some page, pages)
        → IsSpace A rank key live₁ (record s { pages = pages })
        → ((g : ℕ) → live g ≡ true → live₁ g ≡ true)
        → frame_of page ≡ f
        → live f ≡ false
        → live₁ f ≡ true
        → (r : Option ℕ) (s' : Space A.State)
        → walk A vaddr (record s { pages = pages }) ≡ some (r, s')
        → Steps A rank key live₁ (record s { pages = pages }) s'
        → Arrives A s'.pages vaddr s'.tables s.cr3 r
        → AllocsPage A live vaddr s (alloc_page A vaddr s)
    unfolding alloc_page leaf
    walked live₁ pages page f run w grow is unused taken none s' run' p at = (
      out_of_memory,
      s',
      rw (run, run') refl,
      record {
        rank = p.rank';
        key = p.key';
        live' = p.live';
        space = p.space;
        live_kept = λ g h. p.grows.live_kept g (grow g h);
      },
      inl (refl, Steps-SameMappings w p, at),
    )
    walked live₁ pages page f run w grow is unused taken (some u) s' run' p at =
        elim (Bool-cases (s'.tables u (index 0 vaddr)).present) [
          | inl y ↦ (
            check_failed,
            s',
            rw (run, run', y) refl,
            record {
              rank = p.rank';
              key = p.key';
              live' = p.live';
              space = p.space;
              live_kept = λ g h. p.grows.live_kept g (grow g h);
            },
            inr (
                inl (
                  refl,
                  Steps-SameMappings w p,
                  λ z. (let there = arrived-leaf vaddr u w p at in ground arith),
                )),
          )
          | inr n ↦ (
            no_error,
            record s' { tables = set_entry s'.tables u (index 0 vaddr) (alloc_entry f) },
            (let back =
                  ap
                    (λ (x : ℕ). some (
                      no_error,
                      record s' { tables = set_entry s'.tables u (index 0 vaddr) (alloc_entry x) },
                    ))
                    is in
                rw (run, run', n) back),
            record {
              rank = p.rank';
              key = p.key';
              live' = p.live';
              space = record {
                tree =
                    written-IsTree p.space.tree vaddr u
                      (subst (λ c. table_at s'.tables 3 c vaddr ≡ some u) (sym p.same_cr3) at)
                      (alloc_entry f);
                pages = p.space.pages;
              };
              live_kept = λ g h. p.grows.live_kept g (grow g h);
            },
            inr (
                inr (
                  refl,
                  f,
                  unused,
                  p.grows.live_kept f taken,
                  write-MapsPage vaddr u (alloc_entry f) w p at,
                )),
          )
        ]

    allocated :
        (live₁ : ℕ → Bool) (pages : A.State) (r : Option ℕ)
        → A.alloc s.pages ≡ some (r, pages)
        → A.Holds live₁ pages
        → ((g : ℕ) → live g ≡ true → live₁ g ≡ true)
        → IsFresh live live₁ r
        → AllocsPage A live vaddr s (alloc_page A vaddr s)
    unfolding alloc_page leaf
    allocated live₁ pages none run holds grow fresh = (
      out_of_memory,
      record s { pages = pages },
      rw run refl,
      record {
        rank = rank;
        key = key;
        live' = live₁;
        space = with_pages live₁ pages holds grow;
        live_kept = grow;
      },
      inl (refl, (λ va. refl), (s.pages, run)),
    )
    allocated live₁ pages (some page) run holds grow (f, at_page, low, unused, taken) =
        let w = with_pages live₁ pages holds grow in
        let (r, s', run', p, at) = walk-Walked vaddr (record s { pages = pages }) w in
        let is : frame_of page ≡ f = ap (λ (x : ℕ). frame_of x) at_page ∙ frame_of-page f low in
        walked live₁ pages page f run w grow is unused taken r s' run' p at

    pub alloc_page-Allocs : AllocsPage A live vaddr s (alloc_page A vaddr s)
    alloc_page-Allocs =
        let (live₁, pages, r, run, holds, grow, fresh) = A.alloc-Holds live s.pages v.pages in
        allocated live₁ pages r run holds grow fresh

    -- The clean-up of a page that is not mapped faults.
    missed :
        (left : ℕ)
        → leaf s vaddr ≡ none
        → (r : Option ℕ) (s' : Space A.State) → walk A vaddr s ≡ some (r, s')
        → Steps A rank key live s s'
        → Arrives A s'.pages vaddr s'.tables s.cr3 r
        → rollback A vaddr (suc left) s ≡ none
    unfolding rollback
    missed left unmapped none s' run p at = rw run refl
    missed left unmapped (some u) s' run p at =
        let there = arrived-leaf vaddr u v p at in
        let gone : (s'.tables u (index 0 vaddr)).present ≡ false = ground arith in
        rw (run, gone) refl

    pub rollback-unmapped : (left : ℕ) → leaf s vaddr ≡ none → rollback A vaddr (suc left) s ≡ none
    rollback-unmapped left unmapped =
        let (r, s', run, p, at) = walk-Walked vaddr s v in missed left unmapped r s' run p at
