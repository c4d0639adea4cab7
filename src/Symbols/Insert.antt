-- ===== src/Symbols/Insert.antt =====
-- `insert_symbol`, in a table that ascends.
use tomat_os.Base.{
  ℕ, zero, suc, ◌+◌, ◌-◌, ◌/◌, ◌≤◌, ◌<◌, ◌≡◌, ◌⊎◌, inl, inr, refl, ap, ◌∙◌, true, false, ◌&&◌,
  arith, Bool-cases, ◌==◌, leb, ltb, if◌then◌else◌, update, Option, none, some,
}
use tomat_os.Symbols.{
  Symbol, Table, read, find_loop, find_symbol_insert_index, do_insert_symbol, insert_symbol,
}

-- The addresses ascend, so that no two symbols have the same one.
abbrev pub IsAscending : Table → Type 0
IsAscending t = (i j : ℕ) → i < j → j < t.count → (t.symbols i).address < (t.symbols j).address

pub read-some : (t : Table) (i : ℕ) → i < t.count → read t i ≡ some (t.symbols i)
read-some t i h = (let y : ltb i t.count ≡ true = ground arith in rw y refl)

-- The address is in the table, or it belongs before the symbol at the index.
abbrev pub Finds : (address : ℕ) (t : Table) → Option (Option ℕ) → Type 0
Finds address t code =
    ((code ≡ some none) × (i : ℕ) × (i < t.count) × ((t.symbols i).address ≡ address))
    ⊎ ((index : ℕ) × (code ≡ some (some index))
        × (index ≤ t.count)
        × ((k : ℕ) → k < index → (t.symbols k).address < address)
        × ((k : ℕ) → index ≤ k → k < t.count → address < (t.symbols k).address))

module _ (address : ℕ) (t : Table) (v : IsAscending t) where
  find_loop-Finds :
      (fuel start stop : ℕ)
      → stop - start < fuel
      → start ≤ stop
      → stop ≤ t.count
      → ((k : ℕ) → k < start → (t.symbols k).address < address)
      → ((k : ℕ) → stop ≤ k → k < t.count → address < (t.symbols k).address)
      → Finds address t (find_loop fuel start stop address t)
  unfolding find_loop
  find_loop-Finds zero start stop enough le fits below above = absurd (omega (arith, enough))
  find_loop-Finds (suc fuel) start stop enough le fits below above =
      elim (Bool-cases (ltb start stop)) [
        | inr closed ↦ inr (stop, rw closed refl, fits, (λ k h. below k (ground arith)), above)
        | inl wide ↦
            let mid : ℕ = (start + (stop - 1)) / 2 in
            let low : start ≤ mid = ground (arith, wide) in
            let high : mid < stop = ground (arith, wide) in
            let got : read t mid ≡ some (t.symbols mid) =
              read-some t mid (omega (arith, high, fits)) in
            elim (Bool-cases ((t.symbols mid).address == address)) [
              | inl here ↦
                  inl (rw (wide, got, here) refl, mid, omega (arith, high, fits), ground arith)
              | inr other ↦ elim (Bool-cases (ltb (t.symbols mid).address address)) [
                | inl lower ↦
                    rw (wide, got, other, lower)
                      (find_loop-Finds fuel (suc mid) stop (omega (arith, low, high, enough))
                        (omega (arith, high)) fits
                        (λ k h. elim (Bool-cases (k == mid)) [
                          | inl same ↦
                              (let e : (t.symbols k).address ≡ (t.symbols mid).address =
                                  ap (λ x. (t.symbols x).address) (ground arith) in
                                ground (arith, e, lower))
                          | inr before ↦
                              (let lt = v k mid (ground arith) (omega (arith, high, fits)) in
                                ground (arith, lt, lower))
                        ])
                        above)
                | inr higher ↦
                    rw (wide, got, other, higher)
                      (find_loop-Finds fuel start mid (omega (arith, low, high, enough)) low
                        (omega (arith, high, fits)) below
                        (λ k h m. elim (Bool-cases (k == mid)) [
                          | inl same ↦
                              (let e : (t.symbols k).address ≡ (t.symbols mid).address =
                                  ap (λ x. (t.symbols x).address) (ground arith) in
                                ground (arith, e, higher, other))
                          | inr behind ↦
                              (let lt = v mid k (ground arith) m in
                                ground (arith, lt, higher, other))
                        ]))
              ]
            ]
      ]

  pub find_symbol_insert_index-Finds : Finds address t (find_symbol_insert_index address t)
  unfolding find_symbol_insert_index
  find_symbol_insert_index-Finds =
      find_loop-Finds (suc t.count) 0 t.count (omega arith) (omega arith) (omega arith)
        (λ k h. absurd (omega (arith, h))) (λ k h m. absurd (omega (arith, h, m)))

-- The table with the symbol at the index.
abbrev inserted : (index : ℕ) → Symbol → Table → Table
inserted index s t = record {
  symbols =
      update
        (λ k. if leb (suc index) k && ltb k (suc t.count) then t.symbols (k - 1) else t.symbols k)
        index s;
  count = suc t.count;
}

module _ (index : ℕ) (s : Symbol) (t : Table) (fits : index ≤ t.count) where
  at_index : (inserted index s t).symbols index ≡ s
  at_index = (let y : (index == index) ≡ true = ground arith in rw y refl)

  at_below : (k : ℕ) → k < index → (inserted index s t).symbols k ≡ t.symbols k
  at_below k h =
      let n : (index == k) ≡ false = ground arith in
      let low : leb (suc index) k ≡ false = ground arith in rw (n, low) refl

  at_above : (k : ℕ) → index ≤ k → k < t.count → (inserted index s t).symbols (suc k) ≡ t.symbols k
  at_above k h m =
      let n : (index == suc k) ≡ false = ground arith in
      let high : leb (suc index) (suc k) ≡ true = ground arith in
      let within : ltb (suc k) (suc t.count) ≡ true = ground arith in
      let back : suc k - 1 ≡ k = omega arith in rw (n, high, within, back) refl

  abbrev address_at : ℕ → ℕ
  address_at k = ((inserted index s t).symbols k).address

  -- A symbol of the new table: an old one before the index, the new one, or an old one behind it.
  abbrev Place : ℕ → Type 0
  Place k =
      ((k < index) × (address_at k ≡ (t.symbols k).address))
      ⊎ ((k ≡ index) × (address_at k ≡ s.address))
      ⊎ ((k' : ℕ) × (k ≡ suc k')
          × (index ≤ k')
          × (k' < t.count)
          × (address_at k ≡ (t.symbols k').address))

  place : (k : ℕ) → k < suc t.count → Place k
  place k h = elim (Bool-cases (ltb k index)) [
    | inl before ↦ inl (ground arith, ap (λ x. x.address) (at_below k (ground arith)))
    | inr not_before ↦ elim (Bool-cases (k == index)) [
      | inl here ↦
          let e : k ≡ index = ground arith in
          inr (inl (e, ap address_at e ∙ ap (λ x. x.address) at_index))
      | inr behind ↦
          let e : k ≡ suc (k - 1) = ground arith in
          let low : index ≤ k - 1 = ground arith in
          let high : k - 1 < t.count = omega (arith, h, e) in
          inr (
            inr (
              k - 1,
              e,
              low,
              high,
              ap address_at e ∙ ap (λ x. x.address) (at_above (k - 1) low high),
            ))
    ]
  ]

  -- Where the symbol belongs.
  inserted-IsAscending :
      IsAscending t
      → ((k : ℕ) → k < index → (t.symbols k).address < s.address)
      → ((k : ℕ) → index ≤ k → k < t.count → s.address < (t.symbols k).address)
      → IsAscending (inserted index s t)
  inserted-IsAscending v below above i j lt h = elim (place i (omega (arith, lt, h))) [
    | inl (li, ei) ↦ elim (place j h) [
      | inl (lj, ej) ↦ omega (arith, ei, ej, v i j lt (omega (arith, lj, fits)))
      | inr (inl (lj, ej)) ↦ omega (arith, ei, ej, below i li)
      | inr (inr (j', oj, lj, hj, ej)) ↦ omega (arith, ei, ej, v i j' (omega (arith, li, lj)) hj)
    ]
    | inr (inl (li, ei)) ↦ elim (place j h) [
      | inl (lj, ej) ↦ absurd (omega (arith, li, lj, lt))
      | inr (inl (lj, ej)) ↦ absurd (omega (arith, li, lj, lt))
      | inr (inr (j', oj, lj, hj, ej)) ↦ omega (arith, ei, ej, above j' lj hj)
    ]
    | inr (inr (i', oi, li, hi, ei)) ↦ elim (place j h) [
      | inl (lj, ej) ↦ absurd (omega (arith, oi, li, lj, lt))
      | inr (inl (lj, ej)) ↦ absurd (omega (arith, oi, li, lj, lt))
      | inr (inr (j', oj, lj, hj, ej)) ↦
          omega (arith, ei, ej, v i' j' (omega (arith, oi, oj, lt)) hj)
    ]
  ]

-- The table ascends. It is the old one, which has the address, or the old one with the symbol in it.
abbrev pub Inserts : Symbol → Table → Table → Type 0
Inserts s t t' =
    IsAscending t'
    × (((t' ≡ t) × (i : ℕ) × (i < t.count) × ((t.symbols i).address ≡ s.address))
        ⊎ ((index : ℕ) × (index ≤ t.count)
            × (t'.count ≡ suc t.count)
            × (t'.symbols index ≡ s)
            × ((k : ℕ) → k < index → t'.symbols k ≡ t.symbols k)
            × ((k : ℕ) → index ≤ k → k < t.count → t'.symbols (suc k) ≡ t.symbols k)))

insert_at :
    (s : Symbol) (t : Table) (index : ℕ)
    → find_symbol_insert_index s.address t ≡ some (some index)
    → index ≤ t.count
    → insert_symbol true s t ≡ some (inserted index s t)
unfolding insert_symbol do_insert_symbol
insert_at s t index found fits = elim (Bool-cases (ltb index t.count)) [
  | inl inside ↦ rw (found, inside) refl
  | inr last ↦
      let e : t.count ≡ index = ground (arith, fits) in
      rw (found, last) (ap (λ i. some (inserted i s t)) e)
]

insert_not :
    (s : Symbol) (t : Table)
    → find_symbol_insert_index s.address t ≡ some none
    → insert_symbol true s t ≡ some t
unfolding insert_symbol
insert_not s t found = rw found refl

-- In a table that ascends, when the array could be grown, insert_symbol returns a table that ascends: the
-- same one when it has the address, and otherwise the one with the symbol at an index, the symbols
-- before it as they were and those behind it one further.
pub insert_symbol-Inserts :
    (s : Symbol) (t : Table)
    → IsAscending t
    → (t' : Table) × (insert_symbol true s t ≡ some t') × Inserts s t t'
insert_symbol-Inserts s t v = elim (find_symbol_insert_index-Finds s.address t v) [
  | inl (found, i, lt, e) ↦ (t, insert_not s t found, (v, inl (refl, i, lt, e)))
  | inr (index, found, fits, below, above) ↦ (
    inserted index s t,
    insert_at s t index found fits,
    (
      inserted-IsAscending index s t fits v below above,
      inr (
        index,
        fits,
        refl,
        at_index index s t fits,
        at_below index s t fits,
        at_above index s t fits,
      ),
    ),
  )
]
