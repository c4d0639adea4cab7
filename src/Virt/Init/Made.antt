-- ===== src/Virt/Init/Made.antt =====
-- The loop makes the shadow.
use tomat_os.Base.{
  ℕ, zero, suc, ◌+◌, ◌-◌, ◌*◌, ◌<◌, ◌≡◌, ◌⊎◌, inl, inr, refl, sym, ap, ◌∙◌, Bool, true, false,
  Option, none, some, arith, Bool-cases, dec_le, update, subst,
}
use tomat_os.Errors.{Err, no_error, out_of_memory}
use tomat_os.Virt.Pages.{PageAllocator, IsFresh, frame_of}
use tomat_os.Virt.Tables.{PageEntry, Space, set_entry, clear_table}
use tomat_os.Virt.Mapping.{IsForest, shared-IsTree, home_slot-cases, slot}
use tomat_os.Virt.Grow.{new_table-IsForest, new_table-Grows, slot_lem}
use tomat_os.Virt.Walk.{IsSpace, IsExhausted, frame_of-page}
use tomat_os.Virt.Init.{copy_shadow, make_top, make_shadow}
use tomat_os.Virt.Init.Linked.{IsMade, top_slot, copied-IsMade}

-- The loop ended: the tables are those of a sound state, or there was no page for one.
abbrev pub MakesShadow :
    (A : PageAllocator) (live : ℕ → Bool) → Option (Err × Space A.State) → Type 0
MakesShadow A live code =
    (err : Err) × (s' : Space A.State) × (code ≡ some (err, s'))
    × (((err ≡ out_of_memory) × IsExhausted A s'.pages)
        ⊎ ((err ≡ no_error)
            × (rank : ℕ → ℕ) × (key : ℕ → ℕ) × (live' : ℕ → Bool) × IsSpace A rank key live' s'
            × ((f : ℕ) → live f ≡ true → live' f ≡ true)))

-- Making sure of the entry of the PML4.
abbrev Tops : (A : PageAllocator) (live : ℕ → Bool) (i : ℕ) (s : Space A.State) → Type 0
Tops A live i s =
    (err : Err) × (s' : Space A.State) × (make_top A i s ≡ some (err, s'))
    × (((err ≡ out_of_memory) × IsExhausted A s'.pages)
        ⊎ ((err ≡ no_error)
            × (live' : ℕ → Bool) × IsMade A live' i s'
            × ((s'.tables s'.cr3 (256 + i)).present ≡ true)
            × ((f : ℕ) → live f ≡ true → live' f ≡ true)))

module _ {A : PageAllocator} where
  topped :
      {live : ℕ → Bool} (i : ℕ) (s : Space A.State)
      → i < 32
      → (v : IsMade A live i s) → (s.tables s.cr3 (256 + i)).present ≡ false
      → (live' : ℕ → Bool) (pages : A.State) (r : Option ℕ) → A.alloc s.pages ≡ some (r, pages)
      → A.Holds live' pages
      → ((f : ℕ) → live f ≡ true → live' f ≡ true)
      → IsFresh live live' r
      → Tops A live i s
  unfolding make_top
  topped {live} i s lt v n live' pages none run holds grow fresh = (
    out_of_memory,
    record s { pages = pages },
    rw (top_slot i lt) (rw (n, run) refl),
    inl (refl, (s.pages, run)),
  )
  topped {live} i s lt v n live' pages (some page) run holds grow (f, at_page, low, unused, taken) =
      let e : PageEntry = record {
        present = true;
        writeable = true;
        no_execute = true;
        frame = frame_of page;
      } in
      let is : frame_of page ≡ f = ap (λ (x : ℕ). frame_of x) at_page ∙ frame_of-page f low in
      let unused' : live (frame_of page) ≡ false = ap live is ∙ unused in
      let taken' : live' (frame_of page) ≡ true = ap live' is ∙ taken in
      let root = v.tables.root_rank in
      let g =
        new_table-Grows v.tables grow s.cr3 (256 + i) 2 (frame_of page) root n unused' taken' e refl
          refl in
      (
        no_error,
        record s {
          pages = pages;
          tables = set_entry (clear_table s.tables (frame_of page)) s.cr3 (256 + i) e;
        },
        rw (top_slot i lt) (rw (n, run) (rw (top_slot i lt) refl)),
        inr (
          refl,
          live',
          record {
            rank = update v.rank (frame_of page) 3;
            key = update v.key (frame_of page) (v.key s.cr3 * 512 + slot 2 (256 + i));
            tables =
                new_table-IsForest v.tables grow s.cr3 (256 + i) 2 (frame_of page) root n unused'
                  taken' e refl refl;
            pages = holds;
            made = λ j h.
                let (before, shadow, one) = v.made j h in
                let x = g.entry_kept s.cr3 (256 + j) 2 root before in
                let z = g.entry_kept s.cr3 (288 + j) 2 root shadow in
                (
                  ap (λ (q : PageEntry). q.present) x ∙ before,
                  ap (λ (q : PageEntry). q.present) z ∙ shadow,
                  ap (λ (q : PageEntry). q.frame) x ∙ one ∙ sym (ap (λ (q : PageEntry). q.frame) z),
                );
          },
          ap (λ (q : PageEntry). q.present)
              (slot_lem v.tables grow s.cr3 (256 + i) 2 (frame_of page) root n unused' taken' e refl
                refl),
          grow,
        ),
      )

  make_top-Tops :
      {live : ℕ → Bool} (i : ℕ) (s : Space A.State) → i < 32 → IsMade A live i s → Tops A live i s
  unfolding make_top
  make_top-Tops {live} i s lt v = elim (Bool-cases (s.tables s.cr3 (256 + i)).present) [
    | inl p ↦ (no_error, s, rw (top_slot i lt) (rw p refl), inr (refl, live, v, p, λ f h. h))
    | inr n ↦
        let (live', pages, r, run, holds, grow, fresh) = A.alloc-Holds live s.pages v.pages in
        topped i s lt v n live' pages r run holds grow fresh
  ]

  made-IsSpace :
      {live : ℕ → Bool} (s : Space A.State)
      → (v : IsMade A live 32 s) → IsSpace A v.rank v.key live s
  made-IsSpace s v = record {
    tree = shared-IsTree v.tables λ a b ne h.
        let x = home_slot-cases a in
        let y = home_slot-cases b in
        elim (dec_le 288 a) [
          | yes le ↦
              let (p, q, r) = v.made (a - 288) (omega (arith, x, y, h, ne, le)) in
              let e : 288 + (a - 288) ≡ a = omega arith in
              let e' : 256 + (a - 288) ≡ b = omega (arith, x, y, h, ne, le) in
              (
                ap (λ k. (s.tables s.cr3 k).present) (sym e) ∙ q,
                ap (λ k. (s.tables s.cr3 k).present) (sym e') ∙ p,
                ap (λ k. (s.tables s.cr3 k).frame) (sym e)
                    ∙ sym r
                    ∙ ap (λ k. (s.tables s.cr3 k).frame) e',
              )
          | no lt ↦
              let (p, q, r) = v.made (a - 256) (omega (arith, x, y, h, ne, lt)) in
              let e : 256 + (a - 256) ≡ a = omega (arith, x, y, h, ne, lt) in
              let e' : 288 + (a - 256) ≡ b = omega (arith, x, y, h, ne, lt) in
              (
                ap (λ k. (s.tables s.cr3 k).present) (sym e) ∙ p,
                ap (λ k. (s.tables s.cr3 k).present) (sym e') ∙ q,
                ap (λ k. (s.tables s.cr3 k).frame) (sym e)
                    ∙ r
                    ∙ ap (λ k. (s.tables s.cr3 k).frame) e',
              )
        ];
    pages = v.pages;
  }

  made-MakesShadow :
      (left i : ℕ) {live : ℕ → Bool} (s : Space A.State)
      → i + left ≡ 32
      → IsMade A live i s
      → MakesShadow A live (make_shadow A left i s)
  unfolding make_shadow
  made-MakesShadow zero i {live} s e v =
      let w : IsMade A live 32 s = subst (λ k. IsMade A live k s) (omega arith) v in
      (no_error, s, refl, inr (refl, w.rank, w.key, live, made-IsSpace s w, λ f h. h))
  made-MakesShadow (suc left) i s e v =
      let (err, t, run, what) = make_top-Tops i s (omega arith) v in
      elim what [
        | inl (oom, last) ↦ (out_of_memory, t, rw (run, oom) refl, inl (refl, last))
        | inr (ok, live', w, p, grow) ↦
            let (err', u, run', how) =
              made-MakesShadow left (suc i) (copy_shadow i t) (omega arith)
                (copied-IsMade i t (omega arith) w p) in
            (
              err',
              u,
              rw (run, ok) run',
              elim how [
                | inl bad ↦ inl bad
                | inr (fine, rank, key, live'', x, grow') ↦
                    inr (fine, rank, key, live'', x, λ f h. grow' f (grow f h))
              ],
            )
      ]

  -- From page tables below a PML4 that form a tree, with whatever is in the shadow's entries, the loop
  -- does not fault. Either it returns `ERROR_OUT_OF_MEMORY` and the allocator had no page left; or it
  -- returns `NO_ERROR`, and the tables are those of a sound state, with the shadow set up, in which all
  -- frames that were handed out still are.
  pub make_shadow-MakesShadow :
      {rank key : ℕ → ℕ} {live : ℕ → Bool} (s : Space A.State)
      → IsForest rank key live s.tables s.cr3
      → A.Holds live s.pages
      → MakesShadow A live (make_shadow A 32 0 s)
  make_shadow-MakesShadow {rank} {key} s v holds = made-MakesShadow 32 0 s refl record {
    rank = rank;
    key = key;
    tables = v;
    pages = holds;
    made = λ j h. absurd (omega arith);
  }
