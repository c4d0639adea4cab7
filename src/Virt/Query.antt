-- ===== src/Virt/Query.antt =====
-- `virt_is_mapped`, and the change of the permissions of a page.
use tomat_os.Base.{
  ℕ, ◌≡◌, ◌⊎◌, inl, inr, refl, sym, ap, ◌∙◌, Bool, true, false, not, Option, none, some, arith,
  Bool-cases, subst,
}
use tomat_os.Errors.{Err, no_error, check_failed, out_of_memory}
use tomat_os.Virt.Pages.{PageAllocator}
use tomat_os.Virt.Tables.{
  PageEntry, Space, index, set_entry, can_write, can_execute, lock_virt, unlock_virt, walk,
}
use tomat_os.Virt.Mapping.{leaf, table_at}
use tomat_os.Virt.Walk.{IsExhausted, IsSpace, Steps, Arrives, walk-Walked}
use tomat_os.Virt.Write.{written-IsTree}
use tomat_os.Virt.Ranges.{virt_is_mapped, remap_page}
use tomat_os.Virt.Map.{
  IsSound, After, SameMappings, MapsPage, Steps-SameMappings, Steps-After, write-MapsPage,
  locked-IsSpace,
}
use tomat_os.Virt.AllocPage.{Keeps, arrived-leaf}

abbrev pub is_some {ℓ} : {X : Type ℓ} → Option X → Bool
is_some none = false
is_some (some x) = true

abbrev pub Answers : (A : PageAllocator) (live : ℕ → Bool) (virt : ℕ) (s : Space A.State) → Type 0
Answers A live virt s =
    (b : Bool) × (s' : Space A.State) × (virt_is_mapped A virt s ≡ some (b, s'))
    × After A live s'
    × SameMappings s s'
    × ((b ≡ is_some (leaf s virt))
        ⊎ ((b ≡ false)
            × (walk A virt (record s { locked = true })
                ≡ some (none, record s' { locked = true }))))

-- The entry with other permissions.
abbrev pub with_flags : ℕ → PageEntry → PageEntry
with_flags flags e = record e { writeable = can_write flags; no_execute = not (can_execute flags) }

-- Memory ran out, or the page is not mapped, or it has the permissions now.
abbrev pub RemapsPage :
    (A : PageAllocator) (live : ℕ → Bool) (vaddr flags : ℕ) (s : Space A.State) → Type 0
RemapsPage A live vaddr flags s =
    (err : Err) × (s' : Space A.State) × (remap_page A vaddr flags s ≡ some (err, s'))
    × Keeps A live s'
    × (((err ≡ out_of_memory) × SameMappings s s' × IsExhausted A s'.pages)
        ⊎ ((err ≡ check_failed) × SameMappings s s' × (leaf s vaddr ≡ none))
        ⊎ ((err ≡ no_error)
            × (e : PageEntry) × (leaf s vaddr ≡ some e)
            × MapsPage vaddr (with_flags flags e) s s'))

module _ {A : PageAllocator} {live : ℕ → Bool} (virt : ℕ) (s : Space A.State) where
  answered :
      (v : IsSound A live s) (r : Option ℕ) (s' : Space A.State)
      → walk A virt (record s { locked = true }) ≡ some (r, s')
      → Steps A v.rank v.key live (record s { locked = true }) s'
      → Arrives A s'.pages virt s'.tables s.cr3 r
      → Answers A live virt s
  unfolding virt_is_mapped lock_virt leaf
  answered v none s' run p at = (
    false,
    unlock_virt s',
    rw (v.unlocked, run) refl,
    Steps-After p,
    Steps-SameMappings (locked-IsSpace v) p,
    inr (refl, run ∙ ap (λ b. some (none, record s' { locked = b })) p.same_lock),
  )
  answered v (some u) s' run p at = (
    (s'.tables u (index 0 virt)).present,
    unlock_virt s',
    rw (v.unlocked, run) refl,
    Steps-After p,
    Steps-SameMappings (locked-IsSpace v) p,
    inl (
        (let there = arrived-leaf virt u (locked-IsSpace v) p at in
          elim (Bool-cases (s'.tables u (index 0 virt)).present) [
            | inl y ↦ ground arith
            | inr n ↦ ground arith
          ])),
  )

  -- From a sound state `virt_is_mapped` does not fault, leaves a sound state and changes no mapping. It
  -- returns whether the address is mapped, or `false` when memory ran out for a table on the way.
  pub virt_is_mapped-Answers : IsSound A live s → Answers A live virt s
  virt_is_mapped-Answers v =
      let (r, s', run, p, at) = walk-Walked virt (record s { locked = true }) (locked-IsSpace v) in
      answered v r s' run p at

  module _ {rank key : ℕ → ℕ} (flags : ℕ) (v : IsSpace A rank key live s) where
    remapped :
        (r : Option ℕ) (s' : Space A.State)
        → walk A virt s ≡ some (r, s')
        → Steps A rank key live s s'
        → Arrives A s'.pages virt s'.tables s.cr3 r
        → RemapsPage A live virt flags s
    unfolding remap_page leaf
    remapped none s' run p at = (
      out_of_memory,
      s',
      rw run refl,
      record {
        rank = p.rank';
        key = p.key';
        live' = p.live';
        space = p.space;
        live_kept = p.grows.live_kept;
      },
      inl (refl, Steps-SameMappings v p, at),
    )
    remapped (some u) s' run p at =
        let there = arrived-leaf virt u v p at in
        elim (Bool-cases (s'.tables u (index 0 virt)).present) [
          | inr n ↦ (
            check_failed,
            s',
            rw (run, n) refl,
            record {
              rank = p.rank';
              key = p.key';
              live' = p.live';
              space = p.space;
              live_kept = p.grows.live_kept;
            },
            inr (inl (refl, Steps-SameMappings v p, there ∙ rw n refl)),
          )
          | inl y ↦
              (let e = s'.tables u (index 0 virt) in
                (
                  no_error,
                  record s' { tables = set_entry s'.tables u (index 0 virt) (with_flags flags e) },
                  rw (run, y) refl,
                  record {
                    rank = p.rank';
                    key = p.key';
                    live' = p.live';
                    space = record {
                      tree =
                          written-IsTree p.space.tree virt u
                            (subst (λ c. table_at s'.tables 3 c virt ≡ some u) (sym p.same_cr3) at)
                            (with_flags flags e);
                      pages = p.space.pages;
                    };
                    live_kept = p.grows.live_kept;
                  },
                  inr (
                      inr (
                        refl,
                        e,
                        there ∙ rw y refl,
                        write-MapsPage virt u (with_flags flags e) v p at,
                      )),
                ))
        ]

    pub remap_page-Remaps : RemapsPage A live virt flags s
    remap_page-Remaps = let (r, s', run, p, at) = walk-Walked virt s v in remapped r s' run p at
