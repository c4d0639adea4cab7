-- ===== src/Virt/Demand.antt =====
-- The page fault handler maps the page of the address, or refuses.
use tomat_os.Base.{
  ℕ, ◌+◌, ◌-◌, ◌*◌, ◌/◌, ◌%◌, ◌^◌, ◌≤◌, ◌<◌, ◌≡◌, ◌⊎◌, inl, inr, refl, ap, ◌∙◌, Bool, true, false,
  not, ◌||◌, Option, none, some, arith, leb, Bool-cases, if◌then◌else◌, ◌>>=◌,
}
use tomat_os.Errors.{is_error}
use tomat_os.Virt.Pages.{PageAllocator, IsFresh, direct_map_offset}
use tomat_os.Virt.Tables.{Space, virt_map_page}
use tomat_os.Virt.Mapping.{leaf, same_page}
use tomat_os.Virt.Walk.{IsExhausted}
use tomat_os.Virt.Map.{IsSound, After, SameMappings, MapsPage, virt_map_page-Mapped}
use tomat_os.Virt.PageFault.{
  map_perm_w, is_lazy, in_stacks, in_small_stacks, in_direct_map, align_down, in_guard,
  is_on_demand, map_new_page, virt_handle_page_fault,
}

-- The page of the address is mapped with a frame, writeable and not executable.
abbrev pub MapsTo : {S : Type 0} → (addr frame : ℕ) → Space S → Space S → Type 0
MapsTo addr frame s s' =
    MapsPage (align_down addr 4096)
      (record { present = true; writeable = true; no_execute = true; frame = frame }) s s'

-- The fault was handled by mapping the page, or it was not and no mapping changed.
abbrev pub Handles :
    (A : PageAllocator) (live : ℕ → Bool) (addr : ℕ) (s : Space A.State) (Frame : ℕ → Type 0)
    → Option (Bool × Space A.State)
    → Type 0
Handles A live addr s Frame code =
    (b : Bool) × (s' : Space A.State) × (code ≡ some (b, s'))
    × After A live s'
    × (((b ≡ false) × SameMappings s s' × IsExhausted A s'.pages)
        ⊎ ((b ≡ true) × (frame : ℕ) × Frame frame × MapsTo addr frame s s'))

-- A page of the direct map is the page of the address less the offset; any other has a new frame.
abbrev pub RightFrame : (live : ℕ → Bool) (addr frame : ℕ) → Type 0
RightFrame live addr frame =
    if is_on_demand addr then live frame ≡ false else frame ≡ (addr - direct_map_offset) / 4096

frame-page :
    (page f : ℕ)
    → page ≡ direct_map_offset + 4096 * f
    → f < 2 ^ 40
    → (page + 2 ^ 64 - direct_map_offset) % 2 ^ 64 / 4096 % 2 ^ 40 ≡ f
frame-page page f e h = omega arith

direct-frame :
    (addr : ℕ)
    → in_direct_map addr ≡ true
    → (addr + 2 ^ 64 - direct_map_offset) % 2 ^ 64 / 4096 % 2 ^ 40
      ≡ (addr - direct_map_offset) / 4096
direct-frame addr h =
    let lo : direct_map_offset ≤ addr = ground arith in
    let hi : addr < direct_map_offset + 2 ^ 39 = ground arith in omega arith

module _ {A : PageAllocator} {live : ℕ → Bool} (addr : ℕ) (s : Space A.State) where
  with_pages-IsSound :
      (v : IsSound A live s) (live₁ : ℕ → Bool) (pages : A.State)
      → A.Holds live₁ pages
      → ((g : ℕ) → live g ≡ true → live₁ g ≡ true)
      → IsSound A live₁ (record s { pages = pages })
  with_pages-IsSound v live₁ pages holds grow = record {
    rank = v.rank;
    key = v.key;
    space = record {
      tree = record {
        root_rank = v.space.tree.root_rank;
        root_key = v.space.tree.root_key;
        child_rank = v.space.tree.child_rank;
        child_key = v.space.tree.child_key;
        shared = v.space.tree.shared;
        held = λ t n. grow t (v.space.tree.held t n);
      };
      pages = holds;
    };
    unlocked = v.unlocked;
  }

  given :
      (v : IsSound A live s) (live₁ : ℕ → Bool) (pages : A.State) (r : Option ℕ)
      → A.alloc s.pages ≡ some (r, pages)
      → A.Holds live₁ pages
      → ((g : ℕ) → live g ≡ true → live₁ g ≡ true)
      → IsFresh live live₁ r
      → Handles A live addr s (λ f. live f ≡ false) (map_new_page A addr s)
  unfolding map_new_page leaf
  given v live₁ pages none run holds grow fresh = (
    false,
    record s { pages = pages },
    rw run refl,
    record { live' = live₁; sound = with_pages-IsSound v live₁ pages holds grow; live_kept = grow },
    inl (refl, (λ va. refl), (s.pages, run)),
  )
  given v live₁ pages (some page) run holds grow (f, at_page, low, unused, taken) =
      let w = with_pages-IsSound v live₁ pages holds grow in
      let (err, s', run', a, what) =
        virt_map_page-Mapped ((page + 2 ^ 64 - direct_map_offset) % 2 ^ 64) (align_down addr 4096)
          map_perm_w (record s { pages = pages }) w in
      (
        not (is_error err),
        s',
        rw (run, run') refl,
        record { live' = a.live'; sound = a.sound; live_kept = λ g h. a.live_kept g (grow g h) },
        elim what [
          | inl (e, same, gone) ↦ inl (ap (λ x. not (is_error x)) e, same, gone)
          | inr (e, maps) ↦ inr (
            ap (λ x. not (is_error x)) e,
            f,
            unused,
            λ va.
                maps va
                ∙ ap
                    (λ x.
                      if same_page va (align_down addr 4096)
                      then some (record {
                        present = true;
                        writeable = true;
                        no_execute = true;
                        frame = x;
                      })
                      else leaf s va)
                    (frame-page page f at_page low),
          )
        ],
      )

  map_new_page-Handles :
      IsSound A live s → Handles A live addr s (λ f. live f ≡ false) (map_new_page A addr s)
  map_new_page-Handles v =
      let (live₁, pages, r, run, holds, grow, fresh) = A.alloc-Holds live s.pages v.space.pages in
      given v live₁ pages r run holds grow fresh

  -- A page of the direct map.
  direct :
      (v : IsSound A live s)
      → in_direct_map addr ≡ true
      → Handles A live addr s
          (λ f. f ≡ (addr - direct_map_offset) / 4096)
          (do
            (err, s) ←
                virt_map_page A
                  ((addr + 2 ^ 64 - direct_map_offset) % 2 ^ 64)
                  (align_down addr 4096)
                  map_perm_w
                  s
            some (not (is_error err), s))
  unfolding leaf
  direct v inside =
      let (err, s', run, a, what) =
        virt_map_page-Mapped ((addr + 2 ^ 64 - direct_map_offset) % 2 ^ 64) (align_down addr 4096)
          map_perm_w s v in
      let same_frame : (addr + 2 ^ 64 - direct_map_offset) % 2 ^ 64 / 4096 % 2 ^ 40
          ≡ (addr - direct_map_offset) / 4096 =
        direct-frame addr inside in
      (
        not (is_error err),
        s',
        rw run refl,
        a,
        elim what [
          | inl (e, same, gone) ↦ inl (ap (λ x. not (is_error x)) e, same, gone)
          | inr (e, maps) ↦ inr (
            ap (λ x. not (is_error x)) e,
            (addr + 2 ^ 64 - direct_map_offset) % 2 ^ 64 / 4096 % 2 ^ 40,
            same_frame,
            maps,
          )
        ],
      )

  pub virt_handle_page_fault-Handles :
      (v : IsSound A live s)
      → in_guard addr ≡ false
      → (is_on_demand addr || in_direct_map addr) ≡ true
      → Handles A live addr s (RightFrame live addr) (virt_handle_page_fault A addr s)
  unfolding virt_handle_page_fault
  virt_handle_page_fault-Handles v g h = elim (Bool-cases (is_lazy addr)) [
    | inl y ↦ rw y (map_new_page-Handles v)
    | inr n ↦ elim (Bool-cases (in_stacks addr)) [
      | inl y ↦
          (let room : leb (align_down addr (2 ^ 23) + 2 ^ 21) addr ≡ true = ground arith in
            rw (n, y, room) (map_new_page-Handles v))
      | inr m ↦ elim (Bool-cases (in_small_stacks addr)) [
        | inl y ↦
            (let room : leb (align_down addr (2 ^ 15) + 2 ^ 12) addr ≡ true = ground arith in
              rw (n, m, y, room) (map_new_page-Handles v))
        | inr o ↦ (let d : in_direct_map addr ≡ true = ground arith in rw (n, m, o, d) (direct v d))
      ]
    ]
  ]

-- An address in the guard zone of a stack, and one of no area, are refused, and nothing changes.
pub virt_handle_page_fault-refused :
    (A : PageAllocator) (addr : ℕ) (s : Space A.State)
    → (in_guard addr || not (is_on_demand addr || in_direct_map addr)) ≡ true
    → virt_handle_page_fault A addr s ≡ some (false, s)
unfolding virt_handle_page_fault
virt_handle_page_fault-refused A addr s g = elim (Bool-cases (is_lazy addr)) [
  | inl y ↦ absurd (ground arith)
  | inr n ↦ elim (Bool-cases (in_stacks addr)) [
    | inl y ↦
        (let tight : leb (align_down addr (2 ^ 23) + 2 ^ 21) addr ≡ false = ground arith in
          rw (n, y, tight) refl)
    | inr m ↦ elim (Bool-cases (in_small_stacks addr)) [
      | inl y ↦
          (let tight : leb (align_down addr (2 ^ 15) + 2 ^ 12) addr ≡ false = ground arith in
            rw (n, m, y, tight) refl)
      | inr o ↦ (let d : in_direct_map addr ≡ false = ground arith in rw (n, m, o, d) refl)
    ]
  ]
]
