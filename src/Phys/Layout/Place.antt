-- ===== src/Phys/Layout/Place.antt =====
-- The two passes over the memory map, step by step.
use tomat_os.Base.{
  ℕ, suc, ◌+◌, ◌≤◌, ◌≡◌, ◌⊎◌, inl, inr, refl, sym, ap, ◌∙◌, true, false, arith, Bool-cases, ltb,
  ◌==◌, subst, some, List, [], ◌∷◌,
}
use tomat_os.Errors.{no_error}
use tomat_os.Phys.Layout.{
  Entry, Count, Placing, is_managed, count_entry, count_entries, place_entry, place_entries, no_end,
  end_of, pages_of, start_region, extend_region, extend_current, first_count, first_placing,
}
use tomat_os.Phys.Layout.Inv.{
  IsEntry, IsSliced, EndsAt, IsCovered, Grows, Grows-refl, Grows-trans, grown-IsCovered,
  extended-EndsAt, extended-IsCovered, extended-IsSliced, extended-Grows, started-IsSliced,
  started-EndsAt, started-Grows,
}

-- The second pass, at the entry at which the first one was in the state `c`; `total` is the sum of all pages.
record InStep (first total : ℕ) (c : Count) (p : Placing) : Type 0 where
  end : c.region_end ≡ p.region_end
  count : c.region_count ≡ p.started
  sum : p.metadata_left + c.total_usable_pages ≡ total
  placed : p.metadata + p.metadata_left ≡ first + total
  sliced : IsSliced first p
  current : (p.region_end ≡ no_end) ⊎ EndsAt p p.region_end

abbrev Steps : (first total region_count : ℕ) (e : Entry) (c' : Count) (p : Placing) → Type 0
Steps first total region_count e c' p =
    (p' : Placing) × (place_entry region_count e p ≡ some (no_error, p'))
    × InStep first total c' p'
    × Grows p p'
    × (is_managed e.type ≡ true → IsCovered p' e)

module _ (first total region_count i : ℕ) (e : Entry) (c : Count) (p : Placing)
    (v : InStep first total c p) (w : IsEntry e) where
  skipped : is_managed e.type ≡ false → Steps first total region_count e (count_entry i e c) p
  unfolding place_entry count_entry
  skipped no_pages = (
    record p { region_end = no_end },
    rw no_pages refl,
    rw no_pages (record {
      end = refl;
      count = v.count;
      sum = v.sum;
      placed = v.placed;
      sliced = record {
        low = v.sliced.low;
        begins = v.sliced.begins;
        empty = v.sliced.empty;
        ends = v.sliced.ends;
        slices = v.sliced.slices;
      };
      current = inl refl;
    }),
    record { started = omega arith; base = λ k h. refl; page_count = λ k h. omega arith },
    λ managed. absurd (let x : true ≡ false = sym managed ∙ no_pages in cc),
  )

  module _ (managed : is_managed e.type ≡ true)
      (enough : (count_entry i e c).total_usable_pages ≤ total)
      (room : (count_entry i e c).region_count ≤ region_count) where
    counted : (count_entry i e c).total_usable_pages ≡ c.total_usable_pages + pages_of e
    unfolding count_entry
    counted = rw managed refl

    counted_end : (count_entry i e c).region_end ≡ end_of e
    unfolding count_entry
    counted_end = rw managed refl

    fits : ltb p.metadata_left (pages_of e) ≡ false
    fits = ground (arith, counted, enough, v.sum)

    -- The entry's pages go to the last region of `q`.
    extended :
        (q : Placing)
        → place_entry region_count e p ≡ extend_current e q
        → q.metadata_left ≡ p.metadata_left
        → q.metadata ≡ p.metadata
        → (count_entry i e c).region_count ≡ q.started
        → IsSliced first q
        → EndsAt q e.base
        → Grows p q
        → Steps first total region_count e (count_entry i e c) p
    extended q run left at same sliced there g =
        let some_region : (q.started == 0) ≡ false = (let ne = there.0 in ground arith) in
        (
          extend_region e q,
          run ∙ (rw some_region refl),
          record {
            end = counted_end;
            count = same;
            sum = ground (arith, counted, enough, v.sum, left, fits);
            placed = ground (arith, counted, enough, v.sum, left, fits, at, v.placed);
            sliced = extended-IsSliced e q sliced there.0;
            current = inr (extended-EndsAt e q w there);
          },
          Grows-trans g (extended-Grows e q),
          λ _. extended-IsCovered e q w there,
        )

    run_on : (p.region_end == e.base) ≡ true → place_entry region_count e p ≡ extend_current e p
    unfolding place_entry
    run_on y = rw (managed, fits, y) refl

    count_on : (p.region_end == e.base) ≡ true → (count_entry i e c).region_count ≡ p.started
    unfolding count_entry
    count_on y =
        (let z : (c.region_end == e.base) ≡ true = ground (arith, v.end, y) in
          rw (managed, z) v.count)

    count_new : (p.region_end == e.base) ≡ false → (count_entry i e c).region_count ≡ suc p.started
    unfolding count_entry
    count_new n =
        (let z : (c.region_end == e.base) ≡ false = ground (arith, v.end, n) in
          rw (managed, z) (ap suc v.count))

    run_new :
        (p.region_end == e.base) ≡ false
        → place_entry region_count e p ≡ extend_current e (start_region e p)
    unfolding place_entry
    run_new n =
        let more : ltb p.started region_count ≡ true = ground (arith, count_new n, room) in
        rw (managed, fits, n, more) refl

    placed : Steps first total region_count e (count_entry i e c) p
    placed = elim (Bool-cases (p.region_end == e.base)) [
      | inl y ↦
          let here : p.region_end ≡ e.base = ground arith in
          elim v.current [
            | inl nowhere ↦ absurd (omega (arith, here, nowhere, w.fits))
            | inr there ↦
                extended p (run_on y) refl refl (count_on y) v.sliced (subst (EndsAt p) here there)
                  (Grows-refl p)
          ]
      | inr n ↦
          extended (start_region e p) (run_new n) refl refl (count_new n)
            (started-IsSliced e p v.sliced) (started-EndsAt e p v.sliced w) (started-Grows e p)
    ]

  stepped :
      (count_entry i e c).total_usable_pages ≤ total
      → (count_entry i e c).region_count ≤ region_count
      → Steps first total region_count e (count_entry i e c) p
  stepped enough room = elim (Bool-cases (is_managed e.type)) [
    | inl managed ↦ placed managed enough room
    | inr no_pages ↦ skipped no_pages
  ]

-- The first pass only counts up.
count_entry-rises :
    (i : ℕ) (e : Entry) (c : Count)
    → (c.total_usable_pages ≤ (count_entry i e c).total_usable_pages)
      × (c.region_count ≤ (count_entry i e c).region_count)
unfolding count_entry
count_entry-rises i e c = elim (Bool-cases (is_managed e.type)) [
  | inr no_pages ↦ rw no_pages (omega arith, omega arith)
  | inl managed ↦ elim (Bool-cases (c.region_end == e.base)) [
    | inl y ↦ rw (managed, y) (omega arith, omega arith)
    | inr n ↦ rw (managed, n) (omega arith, omega arith)
  ]
]

count_entries-rises :
    (i : ℕ) (entries : List Entry) (c : Count)
    → (c.total_usable_pages ≤ (count_entries i entries c).total_usable_pages)
      × (c.region_count ≤ (count_entries i entries c).region_count)
unfolding count_entries
count_entries-rises i [] c = (omega arith, omega arith)
count_entries-rises i (e ∷ entries) c =
    let (a, b) = count_entry-rises i e c in
    let (a', b') = count_entries-rises (suc i) entries (count_entry i e c) in
    (omega (arith, a, a'), omega (arith, b, b'))

abbrev pub AreEntries : List Entry → Type 0
AreEntries [] = Unit
AreEntries (e ∷ entries) = IsEntry e × AreEntries entries

-- Every entry with metadata lies in a region.
abbrev pub AreCovered : Placing → List Entry → Type 0
AreCovered p [] = Unit
AreCovered p (e ∷ entries) = (is_managed e.type ≡ true → IsCovered p e) × AreCovered p entries

places :
    (first total region_count i : ℕ) (entries : List Entry) (c : Count) (p : Placing)
    → InStep first total c p
    → AreEntries entries
    → (count_entries i entries c).total_usable_pages ≤ total
    → (count_entries i entries c).region_count ≤ region_count
    → (p' : Placing) × (place_entries region_count entries p ≡ some (no_error, p'))
      × InStep first total (count_entries i entries c) p'
      × Grows p p'
      × AreCovered p' entries
unfolding place_entries count_entries
places first total region_count i [] c p v w enough room = (p, refl, v, Grows-refl p, tt)
places first total region_count i (e ∷ entries) c p v (we, w) enough room =
    let (a, b) = count_entries-rises (suc i) entries (count_entry i e c) in
    let (q, run, u, g, covered) =
      stepped first total region_count i e c p v we (omega (arith, a, enough))
        (omega (arith, b, room)) in
    let (p', runs, u', g', rest) =
      places first total region_count (suc i) entries (count_entry i e c) q u w enough room in
    (p', rw run runs, u', Grows-trans g g', ((λ m. grown-IsCovered e g' (covered m)), rest))

-- Every region is there, with a part of the metadata of its own, and all of the metadata is used.
abbrev pub LaysOut : (metadata : ℕ) (entries : List Entry) → Type 0
LaysOut metadata entries =
    let c = count_entries 0 entries first_count in
    (p : Placing) × (place_entries c.region_count entries
        (first_placing metadata c.total_usable_pages)
      ≡ some (no_error, p))
    × (p.started ≡ c.region_count)
    × (p.metadata_left ≡ 0)
    × (p.metadata ≡ metadata + c.total_usable_pages)
    × IsSliced metadata p
    × AreCovered p entries

-- When all entries, of every type, are whole pages and end below 2^46, the second pass over them
-- returns without an error: it starts as many regions as the first pass counted and uses up the
-- metadata that it counted, with one byte for each page; the regions' parts follow each other from the
-- start of the metadata to its end; and the pages of every managed entry lie in one region.
pub place_entries-LaysOut :
    (metadata : ℕ) (entries : List Entry) → AreEntries entries → LaysOut metadata entries
place_entries-LaysOut metadata entries w =
    let c = count_entries 0 entries first_count in
    let start : InStep metadata c.total_usable_pages first_count
        (first_placing metadata c.total_usable_pages) =
      record {
        end = refl;
        count = refl;
        sum = omega arith;
        placed = refl;
        sliced = record {
          low = omega arith;
          begins = λ k h. absurd (omega (arith, h));
          empty = λ k h. refl;
          ends = λ k h. absurd (omega (arith, h));
          slices = λ j k l h. absurd (omega (arith, h));
        };
        current = inl refl;
      } in
    let (p, run, v, g, covered) =
      places metadata c.total_usable_pages c.region_count 0 entries first_count
        (first_placing metadata c.total_usable_pages) start w (omega arith) (omega arith) in
    (p, run, sym v.count, omega (arith, v.sum), omega (arith, v.sum, v.placed), v.sliced, covered)
