-- ===== src/Symbols/Sort.antt =====
-- `sort_symbols`.
use tomat_os.Base.{
  ℕ, zero, suc, ◌-◌, ◌≤◌, ◌<◌, ◌≡◌, inl, inr, refl, sym, ap, ◌∙◌, arith, Bool-cases, ◌==◌, ltb,
  some, subst,
}
use tomat_os.Symbols.{Symbol, sort_symbols}
use tomat_os.Symbols.Range.{
  IsRearranged, same-IsRearranged, then-IsRearranged, wider-IsRearranged, IsSorted,
}
use tomat_os.Symbols.Partition.{IsPartition, partition_symbols-Partitions}

-- The two parts are sorted after the partition at `j`.
module _ (low high j : ℕ) (a b c d : ℕ → Symbol) (v : IsPartition low high a j b)
    (left : IsRearranged low j b c) (left_sorted : IsSorted low j c)
    (right : IsRearranged (suc j) (suc high) c d)
    (right_sorted : IsSorted (suc j) (suc high) d) where
  at : (k : ℕ) → ℕ
  at k = (d k).address

  kept : (k : ℕ) → k ≤ j → d k ≡ c k
  kept k h = right.same k ∙ ap c (right.outside k (inl (omega (arith, h))))

  address_left : (k : ℕ) → low ≤ k → k < j → (d k).address ≤ (b j).address
  address_left k l h =
      let (l', h') = left.inside k l h in
      let e : (d k).address ≡ (b (left.from k)).address =
        ap (λ x. x.address) (kept k (omega (arith, h)) ∙ left.same k) in
      omega (arith, e, v.below (left.from k) l' h')

  address_pivot : (d j).address ≡ (b j).address
  address_pivot =
      ap (λ x. x.address)
        (kept j (omega arith) ∙ left.same j ∙ ap b (left.outside j (inr (omega arith))))

  address_right : (k : ℕ) → j < k → k ≤ high → (b j).address < (d k).address
  address_right k l h =
      let (l', h') = right.inside k l (omega (arith, h)) in
      let e : (d k).address ≡ (b (right.from k)).address =
        ap (λ x. x.address)
          (right.same k
            ∙ left.same (right.from k)
            ∙ ap b (left.outside (right.from k) (inr (omega (arith, l'))))) in
      omega (arith, e, v.above (right.from k) l' (omega (arith, h')))

  parts-IsSorted : IsSorted low (suc high) d
  parts-IsSorted x y l m h = elim (Bool-cases (ltb y j)) [
    | inl both_left ↦
        let dx : (d x).address ≡ (c x).address = ap (λ z. z.address) (kept x (ground (arith, m))) in
        let dy : (d y).address ≡ (c y).address = ap (λ z. z.address) (kept y (ground arith)) in
        omega (arith, dx, dy, left_sorted x y l m (ground arith))
    | inr y_right ↦ elim (Bool-cases (ltb j x)) [
      | inl both_right ↦ right_sorted x y (ground arith) m h
      | inr x_left ↦ elim (Bool-cases (x == j)) [
        | inl x_pivot ↦ elim (Bool-cases (y == j)) [
          | inl y_pivot ↦
              (let e : (d x).address ≡ (d y).address = ap (λ z. (d z).address) (ground arith) in
                omega (arith, e))
          | inr y_above ↦
              let e : (d x).address ≡ (b j).address =
                ap (λ z. (d z).address) (ground arith) ∙ address_pivot in
              omega (arith, e, address_right y (ground arith) (omega (arith, h)))
        ]
        | inr x_below ↦
            let le = address_left x l (ground arith) in
            elim (Bool-cases (y == j)) [
              | inl y_pivot ↦
                  let e : (d y).address ≡ (b j).address =
                    ap (λ z. (d z).address) (ground arith) ∙ address_pivot in
                  omega (arith, e, le)
              | inr y_above ↦ omega (arith, le, address_right y (ground arith) (omega (arith, h)))
            ]
      ]
    ]
  ]

  parts-IsRearranged : IsRearranged low (suc high) a d
  parts-IsRearranged = then-IsRearranged v.rearranged (
      then-IsRearranged (wider-IsRearranged low (suc high) (omega arith) (omega (arith, v.to)) left)
        (wider-IsRearranged low (suc high) (omega (arith, v.from)) (omega arith) right))

-- The same symbols, in the order of their addresses.
abbrev pub Sorts : (fuel low stop : ℕ) (a : ℕ → Symbol) → Type 0
Sorts fuel low stop a =
    (b : ℕ → Symbol) × (sort_symbols fuel low stop a ≡ some b)
    × IsRearranged low stop a b
    × IsSorted low stop b

-- With more fuel than the range has symbols, sort_symbols returns: the symbols of the range are the same
-- ones, ascending by their addresses, and nothing outside of the range has changed.
pub sort_symbols-Sorts :
    (fuel low stop : ℕ) (a : ℕ → Symbol) → stop - low < fuel → Sorts fuel low stop a
unfolding sort_symbols
sort_symbols-Sorts zero low stop a enough = absurd (omega (arith, enough))
sort_symbols-Sorts (suc fuel) low stop a enough = elim (Bool-cases (ltb (suc low) stop)) [
  | inr short ↦ (
    a,
    rw short refl,
    same-IsRearranged low stop a,
    λ x y l m h.
        (let e : (a x).address ≡ (a y).address = ap (λ z. (a z).address) (ground arith) in
          omega (arith, e)),
  )
  | inl long ↦
      let (j, b, run, v) = partition_symbols-Partitions low (stop - 1) a (ground arith) in
      let end : suc (stop - 1) ≡ stop = ground arith in
      let (c, run_left, left, left_sorted) =
        sort_symbols-Sorts fuel low j b (ground (arith, v.to, v.from, enough)) in
      let (d, run_right, right, right_sorted) =
        sort_symbols-Sorts fuel (suc j) stop c (ground (arith, v.to, v.from, enough)) in
      let right' : IsRearranged (suc j) (suc (stop - 1)) c d =
        subst (λ s. IsRearranged (suc j) s c d) (sym end) right in
      let right_sorted' : IsSorted (suc j) (suc (stop - 1)) d =
        subst (λ s. IsSorted (suc j) s d) (sym end) right_sorted in
      (
        d,
        rw (long, run, run_left) run_right,
        subst (λ s. IsRearranged low s a d) end
            (parts-IsRearranged low (stop - 1) j a b c d v left left_sorted right' right_sorted'),
        subst (λ s. IsSorted low s d) end
            (parts-IsSorted low (stop - 1) j a b c d v left left_sorted right' right_sorted'),
      )
]
