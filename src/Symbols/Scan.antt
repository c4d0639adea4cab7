-- ===== src/Symbols/Scan.antt =====
-- The two inner loops of `partition_symbols`.
use tomat_os.Base.{
  ℕ, zero, suc, ◌+◌, ◌-◌, ◌≤◌, ◌<◌, ◌≡◌, ◌⊎◌, inl, inr, ap, ◌&&◌, arith, Bool-cases, ◌==◌, leb, ltb,
}
use tomat_os.Symbols.{Symbol, scan_up, scan_down}

pub record StopsUp (p high i : ℕ) (a : ℕ → Symbol) (r : ℕ) : Type 0 where
  pub from : i ≤ r
  pub to : r ≤ high
  pub passed : (k : ℕ) → i ≤ k → k < r → (a k).address ≤ p
  pub stopped : (r ≡ high) ⊎ (p < (a r).address)

pub scan_up-StopsUp :
    (fuel p high i : ℕ) (a : ℕ → Symbol)
    → high ≤ i + fuel
    → i ≤ high
    → StopsUp p high i a (scan_up fuel p high i a)
unfolding scan_up
scan_up-StopsUp zero p high i a enough le = record {
  from = omega arith;
  to = le;
  passed = λ k l h. absurd (omega (arith, l, h));
  stopped = inl (omega (arith, enough, le));
}
scan_up-StopsUp (suc fuel) p high i a enough le =
    elim (Bool-cases (leb (a i).address p && ltb i high)) [
      | inr stop ↦ rw stop (record {
        from = omega arith;
        to = le;
        passed = λ k l h. absurd (omega (arith, l, h));
        stopped = ground (arith, stop, le);
      })
      | inl more ↦
          let v = scan_up-StopsUp fuel p high (suc i) a (omega (arith, enough)) (ground arith) in
          rw more (record {
            from = omega (arith, v.from);
            to = v.to;
            passed = λ k l h. elim (Bool-cases (i == k)) [
              | inl here ↦
                  (let e : (a i).address ≡ (a k).address = ap (λ x. (a x).address) (ground arith) in
                    ground (arith, e, more))
              | inr there ↦ v.passed k (ground (arith, l, there)) h
            ];
            stopped = v.stopped;
          })
    ]

pub record StopsDown (p low j : ℕ) (a : ℕ → Symbol) (r : ℕ) : Type 0 where
  pub from : low ≤ r
  pub to : r ≤ j
  pub passed : (k : ℕ) → r < k → k ≤ j → p < (a k).address
  pub stopped : (r ≡ low) ⊎ ((a r).address ≤ p)

pub scan_down-StopsDown :
    (fuel p low j : ℕ) (a : ℕ → Symbol)
    → j ≤ low + fuel
    → low ≤ j
    → StopsDown p low j a (scan_down fuel p low j a)
unfolding scan_down
scan_down-StopsDown zero p low j a enough le = record {
  from = le;
  to = omega arith;
  passed = λ k l h. absurd (omega (arith, l, h));
  stopped = inl (omega (arith, enough, le));
}
scan_down-StopsDown (suc fuel) p low j a enough le =
    elim (Bool-cases (ltb p (a j).address && ltb low j)) [
      | inr stop ↦ rw stop (record {
        from = le;
        to = omega arith;
        passed = λ k l h. absurd (omega (arith, l, h));
        stopped = ground (arith, stop, le);
      })
      | inl more ↦
          let v = scan_down-StopsDown fuel p low (j - 1) a (omega (arith, enough)) (ground arith) in
          rw more (record {
            from = v.from;
            to = omega (arith, v.to);
            passed = λ k l h. elim (Bool-cases (j == k)) [
              | inl here ↦
                  (let e : (a j).address ≡ (a k).address = ap (λ x. (a x).address) (ground arith) in
                    ground (arith, e, more))
              | inr there ↦ v.passed k l (ground (arith, h, there))
            ];
            stopped = v.stopped;
          })
    ]
