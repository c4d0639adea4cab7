-- ===== src/Virt/Walk.antt =====
-- The way to the PML1 of an address, with the tables that are made on the way.
use tomat_os.Base.{
  ℕ, suc, ◌+◌, ◌*◌, ◌^◌, ◌<◌, ◌≡◌, inl, inr, refl, sym, ap, ◌∙◌, Bool, true, false, Option, none,
  some, arith, Bool-cases, update, subst,
}
use tomat_os.Virt.Pages.{PageAllocator, IsFresh, frame_of, direct_map_offset}
use tomat_os.Virt.Tables.{
  PageEntry, Space, index, get_next_level, walk, walk_from_pml3, set_entry, clear_table,
}
use tomat_os.Virt.Mapping.{IsTree, forest, Tables, table_at, slot}
use tomat_os.Virt.Grow.{
  Grows, Grows-refl, Grows-trans, new_table-Grows, new_table-IsTree, new_table_rank, slot_lem,
}

-- The tables form a tree in frames that are handed out.
pub record IsSpace (A : PageAllocator) (rank key : ℕ → ℕ) (live : ℕ → Bool) (s : Space A.State)
    : Type 0 where
  pub tree : IsTree rank key live s.tables s.cr3
  pub pages : A.Holds live s.pages

-- A step that may add tables.
pub record Steps (A : PageAllocator) (rank key : ℕ → ℕ) (live : ℕ → Bool) (s s' : Space A.State)
    : Type 0 where
  pub rank' : ℕ → ℕ
  pub key' : ℕ → ℕ
  pub live' : ℕ → Bool
  pub space : IsSpace A rank' key' live' s'
  pub grows : Grows rank key rank' key' live live' s.tables s'.tables
  pub same_cr3 : s'.cr3 ≡ s.cr3
  pub same_lock : s'.locked ≡ s.locked

-- The frame of a page that the allocator returns.
pub frame_of-page : (f : ℕ) → f < 2 ^ 40 → frame_of (direct_map_offset + 4096 * f) ≡ f
frame_of-page f h = omega arith

-- The allocator's last answer was that there is no page.
abbrev pub IsExhausted : (A : PageAllocator) → A.State → Type 0
IsExhausted A pages = (before : A.State) × (A.alloc before ≡ some (none, pages))

-- The entry leads to the table that was returned, or there was no page for one.
abbrev pub Leads :
    (A : PageAllocator) (pages : A.State) (t i d : ℕ) (tables : Tables) (rank : ℕ → ℕ)
    → Option ℕ
    → Type 0
Leads A pages t i d tables rank none = IsExhausted A pages
Leads A pages t i d tables rank (some f) =
    (rank f ≡ suc d) × ((tables t i).present ≡ true) × ((tables t i).frame ≡ f)

-- The table of the address that was walked to, unless there was no page for a table.
abbrev pub Arrives :
    (A : PageAllocator) (pages : A.State) (virt : ℕ) (tables : Tables) (cr3 : ℕ) → Option ℕ → Type 0
Arrives A pages virt tables cr3 none = IsExhausted A pages
Arrives A pages virt tables cr3 (some u) = table_at tables 3 cr3 virt ≡ some u

-- The entry leads to a table.
abbrev Leading : (tables : Tables) (t i f : ℕ) → Type 0
Leading tables t i f = ((tables t i).present ≡ true) × ((tables t i).frame ≡ f)

arrive :
    (tables : Tables) (t a b c virt : ℕ)
    → Leading tables t (index 3 virt) a
    → Leading tables a (index 2 virt) b
    → Leading tables b (index 1 virt) c
    → table_at tables 3 t virt ≡ some c
unfolding table_at
arrive tables t a b c virt (p, q) (r, s) (u, v) = rw (p, q, r, s, u, v) refl

-- What the walk reaches from a state in which some of its steps are done.
abbrev pub Walked :
    (A : PageAllocator) (rank key : ℕ → ℕ) (live : ℕ → Bool) (virt : ℕ) (s : Space A.State)
    → Option (Option ℕ × Space A.State)
    → Type 0
Walked A rank key live virt s code =
    (r : Option ℕ) × (s' : Space A.State) × (code ≡ some (r, s'))
    × Steps A rank key live s s'
    × Arrives A s'.pages virt s'.tables s.cr3 r

module _ {A : PageAllocator} where
  pub Steps_refl :
      {rank key : ℕ → ℕ} {live : ℕ → Bool} {s : Space A.State}
      → IsSpace A rank key live s
      → Steps A rank key live s s
  Steps_refl {rank} {key} {live} {s} v = record {
    rank' = rank;
    key' = key;
    live' = live;
    space = v;
    grows = Grows-refl rank key live s.tables;
    same_cr3 = refl;
    same_lock = refl;
  }

  pub Steps_trans :
      {rank key : ℕ → ℕ} {live : ℕ → Bool} {s t u : Space A.State}
      → (p : Steps A rank key live s t) → Steps A p.rank' p.key' p.live' t u
      → Steps A rank key live s u
  Steps_trans p q = record {
    rank' = q.rank';
    key' = q.key';
    live' = q.live';
    space = q.space;
    grows = Grows-trans p.grows q.grows;
    same_cr3 = q.same_cr3 ∙ p.same_cr3;
    same_lock = q.same_lock ∙ p.same_lock;
  }

  pub get_next_level-Steps :
      {rank key : ℕ → ℕ} {live : ℕ → Bool} (t i d : ℕ) (s : Space A.State)
      → IsSpace A rank key live s
      → rank t ≡ suc (suc d)
      → (r : Option ℕ) × (s' : Space A.State) × (get_next_level A t i s ≡ some (r, s'))
        × (p : Steps A rank key live s s') × Leads A s'.pages t i d s'.tables p.rank' r
  unfolding get_next_level Steps_refl
  get_next_level-Steps {rank} {key} {live} t i d s v at = elim (Bool-cases (s.tables t i).present) [
    | inl p ↦ (
      some (s.tables t i).frame,
      s,
      rw p refl,
      Steps_refl v,
      (v.tree.child_rank t i d at p, p, refl),
    )
    | inr n ↦
        let (live', pages, r, run, holds, grow, fresh) = A.alloc-Holds live s.pages v.pages in
        new n live' pages r run holds grow fresh
  ]
    where
      new :
          (s.tables t i).present ≡ false
          → (live' : ℕ → Bool) (pages : A.State) (r : Option ℕ) → A.alloc s.pages ≡ some (r, pages)
          → A.Holds live' pages
          → ((f : ℕ) → live f ≡ true → live' f ≡ true)
          → IsFresh live live' r
          → (r : Option ℕ) × (s' : Space A.State) × (get_next_level A t i s ≡ some (r, s'))
            × (p : Steps A rank key live s s') × Leads A s'.pages t i d s'.tables p.rank' r
      new n live' pages none run holds grow fresh = (
        none,
        record s { pages = pages },
        rw (n, run) refl,
        record {
          rank' = rank;
          key' = key;
          live' = live';
          space = record {
            tree = record {
              root_rank = v.tree.root_rank;
              root_key = v.tree.root_key;
              child_rank = v.tree.child_rank;
              child_key = v.tree.child_key;
              shared = v.tree.shared;
              held = λ u z. grow u (v.tree.held u z);
            };
            pages = holds;
          };
          grows = record {
            rank_kept = λ u z. refl;
            key_kept = λ u z. refl;
            live_kept = grow;
            entry_kept = λ u j e r p. refl;
            leaf_kept = λ e u va r. refl;
          };
          same_cr3 = refl;
          same_lock = refl;
        },
        (s.pages, run),
      )
      new n live' pages (some page) run holds grow (f, at_page, low, unused, taken) =
          let is : frame_of page ≡ f = ap (λ (x : ℕ). frame_of x) at_page ∙ frame_of-page f low in
          let e : PageEntry = record (s.tables t i) {
            present = true;
            writeable = true;
            frame = f;
          } in
          (
            some f,
            record s { pages = pages; tables = set_entry (clear_table s.tables f) t i e },
            (let back =
                  ap
                    (λ (x : ℕ). some (
                      some x,
                      record s {
                        pages = pages;
                        tables =
                            set_entry (clear_table s.tables x) t i (record (s.tables t i) {
                              present = true;
                              writeable = true;
                              frame = x;
                            });
                      },
                    ))
                    is in
                rw (n, run) back),
            record {
              rank' = update rank f (suc d);
              key' = update key f (key t * 512 + slot d i);
              live' = live';
              space = record {
                tree =
                    new_table-IsTree (forest v.tree) grow t i d f at n unused taken e refl refl
                      v.tree.shared;
                pages = holds;
              };
              grows = new_table-Grows (forest v.tree) grow t i d f at n unused taken e refl refl;
              same_cr3 = refl;
              same_lock = refl;
            },
            (
              new_table_rank (forest v.tree) grow t i d f at n unused taken e refl refl,
              ap (λ (x : PageEntry). x.present)
                  (slot_lem (forest v.tree) grow t i d f at n unused taken e refl refl),
              ap (λ (x : PageEntry). x.frame)
                  (slot_lem (forest v.tree) grow t i d f at n unused taken e refl refl),
            ),
          )

  -- The entry of a table above the last is kept by further steps.
  stays :
      {rank key : ℕ → ℕ} {live : ℕ → Bool} {s s' : Space A.State} (t i d f : ℕ)
      → (p : Steps A rank key live s s') → rank t ≡ suc (suc d)
      → (s.tables t i).present ≡ true
      → (s.tables t i).frame ≡ f
      → ((s'.tables t i).present ≡ true) × ((s'.tables t i).frame ≡ f)
  stays t i d f p r e g =
      let k = p.grows.entry_kept t i d r e in
      (ap (λ (x : PageEntry). x.present) k ∙ e, ap (λ (x : PageEntry). x.frame) k ∙ g)

  third-Walked :
      {rank key : ℕ → ℕ} {live : ℕ → Bool} (virt a b : ℕ) (s s' : Space A.State) (r : Option ℕ)
      → rank s.cr3 ≡ 4
      → rank a ≡ 3
      → Leading s.tables s.cr3 (index 3 virt) a
      → Leading s.tables a (index 2 virt) b
      → get_next_level A b (index 1 virt) s ≡ some (r, s')
      → (p : Steps A rank key live s s') → Leads A s'.pages b (index 1 virt) 0 s'.tables p.rank' r
      → Walked A rank key live virt s (get_next_level A b (index 1 virt) s)
  third-Walked virt a b s s' none at at' (e, f) (g, h) run p l = (none, s', run, p, l)
  third-Walked virt a b s s' (some c) at at' (e, f) (g, h) run p (_, m, n) = (
    some c,
    s',
    run,
    p,
    arrive s'.tables s.cr3 a b c virt (stays s.cr3 (index 3 virt) 2 a p at e f)
        (stays a (index 2 virt) 1 b p at' g h) (m, n),
  )

  second-Walked :
      {rank key : ℕ → ℕ} {live : ℕ → Bool} (virt a : ℕ) (s s' : Space A.State) (r : Option ℕ)
      → rank s.cr3 ≡ 4
      → rank a ≡ 3
      → Leading s.tables s.cr3 (index 3 virt) a
      → get_next_level A a (index 2 virt) s ≡ some (r, s')
      → (p : Steps A rank key live s s') → Leads A s'.pages a (index 2 virt) 1 s'.tables p.rank' r
      → Walked A rank key live virt s (walk_from_pml3 A virt a s)
  unfolding walk_from_pml3
  second-Walked virt a s s' none at at' (e, f) run p l = (none, s', rw run refl, p, l)
  second-Walked virt a s s' (some b) at at' (e, f) run p (rb, m, n) =
      let root = p.grows.rank_kept s.cr3 (λ z. omega arith) ∙ at in
      let (r, t, run', q, l) = get_next_level-Steps b (index 1 virt) 0 s' p.space rb in
      let (r, t, run'', q, z) =
        third-Walked virt a b s' t r (ap p.rank' p.same_cr3 ∙ root)
          (p.grows.rank_kept a (λ z. omega arith) ∙ at')
          (subst (λ c. Leading s'.tables c (index 3 virt) a) (sym p.same_cr3)
            (stays s.cr3 (index 3 virt) 2 a p at e f))
          (m, n) run' q l in
      (
        r,
        t,
        rw run run'',
        Steps_trans p q,
        subst (λ c. Arrives A t.pages virt t.tables c r) p.same_cr3 z,
      )

  first-Walked :
      {rank key : ℕ → ℕ} {live : ℕ → Bool} (virt : ℕ) (s s' : Space A.State) (r : Option ℕ)
      → rank s.cr3 ≡ 4
      → get_next_level A s.cr3 (index 3 virt) s ≡ some (r, s')
      → (p : Steps A rank key live s s')
      → Leads A s'.pages s.cr3 (index 3 virt) 2 s'.tables p.rank' r
      → Walked A rank key live virt s (walk A virt s)
  unfolding walk
  first-Walked virt s s' none at run p l = (none, s', rw run refl, p, l)
  first-Walked virt s s' (some a) at run p (ra, m, n) =
      let root = p.grows.rank_kept s.cr3 (λ z. omega arith) ∙ at in
      let (r, t, run', q, l) = get_next_level-Steps a (index 2 virt) 1 s' p.space ra in
      let (r, t, run'', q, z) =
        second-Walked virt a s' t r (ap p.rank' p.same_cr3 ∙ root) ra
          (subst (λ c. Leading s'.tables c (index 3 virt) a) (sym p.same_cr3) (m, n)) run' q l in
      (
        r,
        t,
        rw run run'',
        Steps_trans p q,
        subst (λ c. Arrives A t.pages virt t.tables c r) p.same_cr3 z,
      )

  pub walk-Walked :
      {rank key : ℕ → ℕ} {live : ℕ → Bool} (virt : ℕ) (s : Space A.State)
      → IsSpace A rank key live s
      → Walked A rank key live virt s (walk A virt s)
  walk-Walked virt s v =
      let (r, s', run, p, l) = get_next_level-Steps s.cr3 (index 3 virt) 2 s v v.tree.root_rank in
      first-Walked virt s s' r v.tree.root_rank run p l
