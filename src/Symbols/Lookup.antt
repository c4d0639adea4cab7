-- ===== src/Symbols/Lookup.antt =====
-- `debug_lookup_symbol`, in a table of symbols that share no address.
use tomat_os.Base.{
  ℕ, zero, suc, ◌+◌, ◌-◌, ◌/◌, ◌%◌, ◌^◌, ◌≤◌, ◌<◌, ◌≡◌, ◌≢◌, ◌⊎◌, inl, inr, refl, ap, false, ◌&&◌,
  arith, Bool-cases, ◌==◌, leb, ltb, Option, none, some, subst,
}
use tomat_os.Symbols.{Table, read, lookup_loop, debug_lookup_symbol}
use tomat_os.Symbols.Insert.{IsAscending, read-some}

-- Each symbol ends before the next one starts.
pub record IsDisjoint (t : Table) : Type 0 where
  pub ascending : IsAscending t
  pub apart :
      (i j : ℕ)
      → i < j
      → j < t.count
      → (t.symbols i).address + (t.symbols i).size ≤ (t.symbols j).address
  pub ends : (i : ℕ) → i < t.count → (t.symbols i).address + (t.symbols i).size < 2 ^ 64

abbrev pub Covers : (t : Table) (addr i : ℕ) → Type 0
Covers t addr i =
    (i < t.count)
    × ((t.symbols i).address ≤ addr)
    × (addr < (t.symbols i).address + (t.symbols i).size)

-- The symbol of the address, NULL, or a read past the table.
abbrev pub LooksUp : (addr : ℕ) (t : Table) → Option (Option ℕ) → Type 0
LooksUp addr t code =
    ((i : ℕ) × (code ≡ some (some i)) × Covers t addr i)
    ⊎ ((code ≡ some none)
        × ((i : ℕ) → ¬ Covers t addr i)
        × ((t.count ≡ 0) ⊎ ((i : ℕ) × (i < t.count) × (addr ≤ (t.symbols i).address))))
    ⊎ ((code ≡ none)
        × ((i : ℕ) → ¬ Covers t addr i)
        × (t.count ≢ 0)
        × ((i : ℕ) → i < t.count → (t.symbols i).address < addr))

module _ (addr : ℕ) (t : Table) (v : IsDisjoint t) where
  -- What the loop knows: the symbols before `l` lie below, those from `stop` on are not below, and the
  -- index behind the table is in the range as long as nothing else was seen.
  record Inv (l stop : ℕ) : Type 0 where
    order : l ≤ stop
    fits : stop ≤ suc t.count
    left : l ≤ t.count
    below :
        (k : ℕ)
        → k < l
        → ((t.symbols k).address < addr) × ((t.symbols k).address + (t.symbols k).size ≤ addr)
    above : (k : ℕ) → stop ≤ k → k < t.count → addr ≤ (t.symbols k).address
    uncovered : (k : ℕ) → stop ≤ k → ¬ Covers t addr k
    seen : (stop ≡ suc t.count) ⊎ ((i : ℕ) × (i < t.count) × (addr ≤ (t.symbols i).address))

  abbrev size_end : ℕ → ℕ
  size_end i = (t.symbols i).address + (t.symbols i).size

  test : (i : ℕ) → i < t.count → (size_end i) % 2 ^ 64 ≡ size_end i
  test i h = omega (arith, v.ends i h)

  not-Covers :
      (i : ℕ)
      → i < t.count
      → (leb (t.symbols i).address addr && ltb addr (size_end i % 2 ^ 64)) ≡ false
      → ¬ Covers t addr i
  not-Covers i h n (lt, le, end) = absurd (ground (arith, test i h, n, le, end))

  -- The half above a symbol that is below the address.
  upper-Inv :
      (l stop m : ℕ)
      → Inv l stop
      → m < stop
      → m < t.count
      → (t.symbols m).address < addr
      → ¬ Covers t addr m
      → Inv (suc m) stop
  upper-Inv l stop m w ms mc lower no_cover =
      let end : size_end m ≤ addr = elim (Bool-cases (ltb addr (size_end m))) [
        | inl inside ↦ absurd (no_cover (mc, omega (arith, lower), ground (arith, inside)))
        | inr outside ↦ ground arith
      ] in
      record {
        order = ms;
        fits = w.fits;
        left = mc;
        below = λ k h. elim (Bool-cases (k == m)) [
          | inl same ↦
              let e : (t.symbols k).address ≡ (t.symbols m).address =
                ap (λ x. (t.symbols x).address) (ground arith) in
              let f : size_end k ≡ size_end m = ap size_end (ground arith) in
              (omega (arith, e, lower), omega (arith, f, end))
          | inr before ↦
              let kept = v.apart k m (ground (arith, h)) mc in
              let lt = v.ascending k m (ground (arith, h)) mc in
              (omega (arith, lt, lower), omega (arith, kept, lower))
        ];
        above = w.above;
        uncovered = w.uncovered;
        seen = w.seen;
      }

  -- The half below a symbol that is not below the address.
  lower-Inv :
      (l stop m : ℕ)
      → Inv l stop
      → l ≤ m
      → m < t.count
      → addr ≤ (t.symbols m).address
      → ¬ Covers t addr m
      → Inv l m
  lower-Inv l stop m w lm mc higher no_cover = record {
    order = lm;
    fits = omega (arith, mc);
    left = w.left;
    below = w.below;
    above = λ k h kc. elim (Bool-cases (k == m)) [
      | inl same ↦
          (let e : (t.symbols k).address ≡ (t.symbols m).address =
              ap (λ x. (t.symbols x).address) (ground arith) in
            omega (arith, e, higher))
      | inr behind ↦ omega (arith, v.ascending m k (ground (arith, h)) kc, higher)
    ];
    uncovered = λ k h c. elim (Bool-cases (k == m)) [
      | inl same ↦ (let e : k ≡ m = ground arith in no_cover (subst (Covers t addr) e c))
      | inr behind ↦
          (let (kc, le, end) = c in
            omega (arith, v.ascending m k (ground (arith, h)) kc, higher, le))
    ];
    seen = inr (m, mc, higher);
  }

  module _ (some_symbol : t.count ≢ 0) where
    lookup_loop-LooksUp :
        (fuel l stop : ℕ)
        → stop - l < fuel
        → Inv l stop
        → LooksUp addr t (lookup_loop fuel l stop addr t)
    unfolding lookup_loop
    lookup_loop-LooksUp zero l stop enough w = absurd (omega (arith, enough))
    lookup_loop-LooksUp (suc fuel) l stop enough w = elim (Bool-cases (ltb l stop)) [
      | inr closed ↦ inr (
          inl (
            rw closed refl,
            (λ k c. elim (Bool-cases (ltb k l)) [
              | inl before ↦
                  (let (kc, le, end) = c in
                    let (lt, past) = w.below k (ground arith) in omega (arith, past, end))
              | inr behind ↦ w.uncovered k (ground (arith, closed, w.order)) c
            ]),
            (elim w.seen [
              | inl whole ↦ absurd (ground (arith, whole, closed, w.left))
              | inr item ↦ inr item
            ]),
          ))
      | inl wide ↦
          let m : ℕ = l + (stop - 1 - l) / 2 in
          let from : l ≤ m = omega arith in
          let to : m < stop = ground (arith, wide) in
          elim (Bool-cases (ltb m t.count)) [
            | inr past ↦
                let fault : read t m ≡ none = rw past refl in
                let last : l ≡ t.count = ground (arith, past, wide, w.fits, w.left) in
                inr (
                  inr (
                    rw (wide, fault) refl,
                    (λ k c.
                        (let (kc, le, end) = c in
                          let (lt, passed) = w.below k (omega (arith, kc, last)) in
                          omega (arith, passed, end))),
                    some_symbol,
                    (λ k kc. (w.below k (omega (arith, kc, last))).0),
                  ))
            | inl here ↦
                let mc : m < t.count = ground arith in
                let got : read t m ≡ some (t.symbols m) = read-some t m mc in
                elim (Bool-cases
                  (leb (t.symbols m).address addr && ltb addr (size_end m % 2 ^ 64))) [
                    | inl hit ↦ inl (
                      m,
                      rw (wide, got, hit) refl,
                      (mc, ground (arith, hit), ground (arith, hit, test m mc)),
                    )
                    | inr miss ↦
                        let no_cover = not-Covers m mc miss in
                        elim (Bool-cases (ltb (t.symbols m).address addr)) [
                          | inl lower ↦
                              rw (wide, got, miss, lower)
                                (lookup_loop-LooksUp fuel (suc m) stop
                                  (omega (arith, from, to, enough))
                                  (upper-Inv l stop m w to mc (ground arith) no_cover))
                          | inr higher ↦
                              rw (wide, got, miss, higher)
                                (lookup_loop-LooksUp fuel l m (omega (arith, from, to, enough))
                                  (lower-Inv l stop m w from mc (ground arith) no_cover))
                        ]
                  ]
          ]
    ]

  -- In a table whose symbols ascend strictly and each end before the next one starts, the lookup returns the symbol that covers the address;
  -- NULL, when none does and the table is empty or has a symbol that is not below the address; and it
  -- reads past the table when none does and all symbols of a table that is not empty start below it.
  pub debug_lookup_symbol-LooksUp : LooksUp addr t (debug_lookup_symbol addr t)
  unfolding debug_lookup_symbol
  debug_lookup_symbol-LooksUp = elim (Bool-cases (t.count == 0)) [
    | inl empty ↦ rw empty (
        inr (
          inl (
            refl,
            (λ i c. (let (ic, le, end) = c in ground (arith, ic, empty))),
            inl (ground arith),
          )))
    | inr filled ↦ rw filled (
        lookup_loop-LooksUp (ground arith) (suc (suc t.count)) 0 (suc t.count) (omega arith)
          (record {
            order = omega arith;
            fits = omega arith;
            left = omega arith;
            below = λ k h. absurd (omega (arith, h));
            above = λ k h kc. absurd (omega (arith, h, kc));
            uncovered = λ k h c. (let (kc, le, end) = c in omega (arith, h, kc));
            seen = inl refl;
          }))
  ]
