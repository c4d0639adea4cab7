-- ===== src/Symbols/Partition.antt =====
-- `partition_symbols`.
use tomat_os.Base.{
  ℕ, zero, suc, ◌-◌, ◌≤◌, ◌<◌, ◌≡◌, inl, inr, refl, ap, true, false, arith, Bool-cases, ◌==◌, ltb,
  Option, some,
}
use tomat_os.Symbols.{Symbol, swap_symbols, scan_up, scan_down, partition_loop, partition_symbols}
use tomat_os.Symbols.Scan.{StopsUp, StopsDown, scan_up-StopsUp, scan_down-StopsDown}
use tomat_os.Symbols.Range.{IsRearranged, same-IsRearranged, then-IsRearranged, swap-IsRearranged}

-- Between two rounds: below `i` nothing is above the pivot, above `j` all is, and the pivot is first.
record Inv (p low high i j : ℕ) (a : ℕ → Symbol) : Type 0 where
  i_from : low ≤ i
  i_to : i ≤ high
  j_from : low ≤ j
  j_to : j ≤ high
  below : (k : ℕ) → low ≤ k → k < i → (a k).address ≤ p
  above : (k : ℕ) → j < k → k ≤ high → p < (a k).address
  pivot : (a low).address ≡ p
  open_left : i < j → (a i).address ≤ p
  settled : j ≤ i → (a j).address ≤ p

-- A round, that stops at `i'` and `j'`.
module _ (p low high i j i' j' : ℕ) (a : ℕ → Symbol) (v : Inv p low high i j a) (apart : i < j)
    (up : StopsUp p high i a i') (down : StopsDown p low j a j') where
  moves_on : i < i'
  moves_on = elim (Bool-cases (i == i')) [
    | inr different ↦ ground (arith, different, up.from)
    | inl same ↦
        let e : (a i).address ≡ (a i').address = ap (λ x. (a x).address) (ground arith) in
        ground (arith, up.stopped, e, v.open_left apart, v.j_to, same)
  ]

  below' : (k : ℕ) → low ≤ k → k < i' → (a k).address ≤ p
  below' k l h = elim (Bool-cases (ltb k i)) [
    | inl before ↦ v.below k l (ground arith)
    | inr behind ↦ up.passed k (ground arith) h
  ]

  above' : (k : ℕ) → j' < k → k ≤ high → p < (a k).address
  above' k l h = elim (Bool-cases (ltb j k)) [
    | inl behind ↦ v.above k (ground arith) h
    | inr before ↦ down.passed k l (ground arith)
  ]

  low_end : (a j').address ≤ p
  low_end = elim down.stopped [ inr le ↦ le | inl first ↦ rw first (omega (arith, v.pivot)) ]

  met-Inv : j' ≤ i' → Inv p low high i' j' a
  met-Inv met = record {
    i_from = omega (arith, v.i_from, up.from);
    i_to = up.to;
    j_from = down.from;
    j_to = omega (arith, down.to, v.j_to);
    below = below';
    above = above';
    pivot = v.pivot;
    open_left = λ lt. absurd (omega (arith, lt, met));
    settled = λ m. low_end;
  }

  module _ (cross : i' < j') where
    untouched : (k : ℕ) → (i' == k) ≡ false → (j' == k) ≡ false → swap_symbols i' j' a k ≡ a k
    untouched k e f = rw (e, f) refl

    high_end : p < (a i').address
    high_end = elim up.stopped [
      | inr lt ↦ lt
      | inl last ↦ absurd (omega (arith, last, cross, down.to, v.j_to))
    ]

    swapped-Inv : Inv p low high i' j' (swap_symbols i' j' a)
    swapped-Inv =
        let at_left : (swap_symbols i' j' a i').address ≡ (a j').address =
          (let n : (j' == i') ≡ false = ground arith in
            let y : (i' == i') ≡ true = ground arith in rw (n, y) refl) in
        let at_right : (swap_symbols i' j' a j').address ≡ (a i').address =
          (let y : (j' == j') ≡ true = ground arith in rw y refl) in
        record {
          i_from = omega (arith, v.i_from, up.from);
          i_to = up.to;
          j_from = down.from;
          j_to = omega (arith, down.to, v.j_to);
          below =
              λ k l h. (let e = untouched k (ground arith) (ground arith) in rw e (below' k l h));
          above =
              λ k l h. (let e = untouched k (ground arith) (ground arith) in rw e (above' k l h));
          pivot =
              (let e =
                  untouched low (ground (arith, moves_on, v.i_from))
                    (ground (arith, moves_on, v.i_from)) in
                rw e v.pivot);
          open_left = λ lt. omega (arith, at_left, low_end);
          settled = λ m. absurd (omega (arith, m, cross));
        }

-- The table is rearranged; at the returned index the pivot's side ends.
record Split (p low high : ℕ) (a : ℕ → Symbol) (j : ℕ) (b : ℕ → Symbol) : Type 0 where
  rearranged : IsRearranged low (suc high) a b
  from : low ≤ j
  to : j ≤ high
  below : (k : ℕ) → low ≤ k → k ≤ j → (b k).address ≤ p
  above : (k : ℕ) → j < k → k ≤ high → p < (b k).address
  pivot : (b low).address ≡ p

abbrev Splits : (p low high : ℕ) (a : ℕ → Symbol) → Option (ℕ × (ℕ → Symbol)) → Type 0
Splits p low high a code =
    (j : ℕ) × (b : ℕ → Symbol) × (code ≡ some (j, b)) × Split p low high a j b

after_Split :
    {p low high j : ℕ} {a c b : ℕ → Symbol}
    → IsRearranged low (suc high) a c
    → Split p low high c j b
    → Split p low high a j b
after_Split q s = record {
  rearranged = then-IsRearranged q s.rearranged;
  from = s.from;
  to = s.to;
  below = s.below;
  above = s.above;
  pivot = s.pivot;
}

partition_loop-Splits :
    (fuel p low high i j : ℕ) (a : ℕ → Symbol)
    → Inv p low high i j a
    → j - i < fuel
    → Splits p low high a (partition_loop fuel p low high i j a)
unfolding partition_loop
partition_loop-Splits zero p low high i j a v enough = absurd (omega (arith, enough))
partition_loop-Splits (suc fuel) p low high i j a v enough = elim (Bool-cases (ltb i j)) [
  | inr met ↦ (
    j,
    a,
    rw met refl,
    record {
      rearranged = same-IsRearranged low (suc high) a;
      from = v.j_from;
      to = v.j_to;
      below = λ k l h. elim (Bool-cases (k == j)) [
        | inl last ↦
            (let e : (a k).address ≡ (a j).address = ap (λ x. (a x).address) (ground arith) in
              omega (arith, e, v.settled (ground arith)))
        | inr before ↦ v.below k l (ground arith)
      ];
      above = v.above;
      pivot = v.pivot;
    },
  )
  | inl apart ↦
      let lt : i < j = ground arith in
      let i' : ℕ = scan_up (high - low) p high i a in
      let j' : ℕ = scan_down (high - low) p low j a in
      let up : StopsUp p high i a i' =
        scan_up-StopsUp (high - low) p high i a (omega (arith, v.i_from, v.i_to)) v.i_to in
      let down : StopsDown p low j a j' =
        scan_down-StopsDown (high - low) p low j a (omega (arith, v.j_from, v.j_to)) v.j_from in
      let on : i < i' = moves_on p low high i j i' j' a v lt up down in
      elim (Bool-cases (ltb i' j')) [
        | inr stop ↦
            let (k, b, run, s) =
              partition_loop-Splits fuel p low high i' j' a
                (met-Inv p low high i j i' j' a v lt up down (ground arith))
                (omega (arith, on, enough, lt, down.to)) in
            (k, b, rw (apart, stop) run, s)
        | inl cross ↦
            let lt' : i' < j' = ground arith in
            let (k, b, run, s) =
              partition_loop-Splits fuel p low high i' j' (swap_symbols i' j' a)
                (swapped-Inv p low high i j i' j' a v lt up down lt')
                (omega (arith, on, enough, lt, down.to)) in
            (
              k,
              b,
              rw (apart, cross) run,
              after_Split
                  (swap-IsRearranged low (suc high) i' j' a (omega (arith, on, v.i_from))
                    (omega (arith, up.to)) down.from (omega (arith, down.to, v.j_to)))
                  s,
            )
      ]
]

-- The pivot is at its place: what stands before it is not above it, what stands behind it is.
pub record IsPartition (low high : ℕ) (a : ℕ → Symbol) (j : ℕ) (b : ℕ → Symbol) : Type 0 where
  pub rearranged : IsRearranged low (suc high) a b
  pub from : low ≤ j
  pub to : j ≤ high
  pub below : (k : ℕ) → low ≤ k → k < j → (b k).address ≤ (b j).address
  pub above : (k : ℕ) → j < k → k ≤ high → (b j).address < (b k).address

abbrev pub Partitions : (low high : ℕ) (a : ℕ → Symbol) → Type 0
Partitions low high a =
    (j : ℕ) × (b : ℕ → Symbol) × (partition_symbols low high a ≡ some (j, b))
    × IsPartition low high a j b

pub partition_symbols-Partitions :
    (low high : ℕ) (a : ℕ → Symbol) → low < high → Partitions low high a
unfolding partition_symbols
partition_symbols-Partitions low high a lt =
    let start : Inv (a low).address low high low high a = record {
      i_from = omega arith;
      i_to = omega arith;
      j_from = omega arith;
      j_to = omega arith;
      below = λ k l h. absurd (omega (arith, l, h));
      above = λ k l h. absurd (omega (arith, l, h));
      pivot = refl;
      open_left = λ m. omega arith;
      settled = λ m. absurd (omega (arith, m, lt));
    } in
    let (j, b, run, s) =
      partition_loop-Splits (suc (high - low)) (a low).address low high low high a start
        (omega arith) in
    let at_pivot : (swap_symbols low j b j).address ≡ (a low).address =
      (let y : (j == j) ≡ true = ground arith in rw y s.pivot) in
    (
      j,
      swap_symbols low j b,
      rw run refl,
      record {
        rearranged = then-IsRearranged s.rearranged (
            swap-IsRearranged low (suc high) low j b (omega arith) (omega (arith, lt)) s.from
              (omega (arith, s.to)));
        from = s.from;
        to = s.to;
        below = λ k l h.
            (let n : (j == k) ≡ false = ground arith in
              elim (Bool-cases (low == k)) [
                | inl first ↦
                    rw (n, first) (omega (arith, at_pivot, s.below j s.from (omega arith)))
                | inr other ↦
                    rw (n, other) (omega (arith, at_pivot, s.below k l (omega (arith, h))))
              ]);
        above = λ k l h.
            (let n : (j == k) ≡ false = ground arith in
              let n' : (low == k) ≡ false = ground (arith, l, s.from) in
              rw (n, n') (omega (arith, at_pivot, s.above k l h)));
      },
    )
