-- ===== src/Symbols/Range.antt =====
-- Rearrangements of a range, and its order.
use tomat_os.Base.{
  ℕ, ◌≤◌, ◌<◌, ◌≡◌, ◌⊎◌, inl, inr, refl, ap, ◌∙◌, ◌&&◌, arith, Bool-cases, ◌==◌, leb, ltb,
  if◌then◌else◌,
}
use tomat_os.Symbols.{Symbol, swap_symbols}

-- The symbols of the second table are those of the first one, in another order inside of the range. The
-- symbol at `k` stood at `from k`, and the one that stood at `k` is at `to k`.
pub record IsRearranged (low stop : ℕ) (a b : ℕ → Symbol) : Type 0 where
  pub from : ℕ → ℕ
  pub to : ℕ → ℕ
  pub from-to : (k : ℕ) → from (to k) ≡ k
  pub to-from : (k : ℕ) → to (from k) ≡ k
  pub inside : (k : ℕ) → low ≤ k → k < stop → (low ≤ from k) × (from k < stop)
  pub outside : (k : ℕ) → (k < low) ⊎ (stop ≤ k) → from k ≡ k
  pub same : (k : ℕ) → b k ≡ a (from k)

pub same-IsRearranged : (low stop : ℕ) (a : ℕ → Symbol) → IsRearranged low stop a a
same-IsRearranged low stop a = record {
  from = λ k. k;
  to = λ k. k;
  from-to = λ k. refl;
  to-from = λ k. refl;
  inside = λ k l h. (l, h);
  outside = λ k o. refl;
  same = λ k. refl;
}

pub then-IsRearranged :
    {low stop : ℕ} {a b c : ℕ → Symbol}
    → IsRearranged low stop a b
    → IsRearranged low stop b c
    → IsRearranged low stop a c
then-IsRearranged p q = record {
  from = λ k. p.from (q.from k);
  to = λ k. q.to (p.to k);
  from-to = λ k. ap p.from (q.from-to (p.to k)) ∙ p.from-to k;
  to-from = λ k. ap q.to (p.to-from (q.from k)) ∙ q.to-from k;
  inside = λ k l h. (let (l', h') = q.inside k l h in p.inside (q.from k) l' h');
  outside = λ k o. ap p.from (q.outside k o) ∙ p.outside k o;
  same = λ k. q.same k ∙ p.same (q.from k);
}

-- A rearrangement of a part.
pub wider-IsRearranged :
    {low stop : ℕ} {a b : ℕ → Symbol} (low' stop' : ℕ)
    → low' ≤ low
    → stop ≤ stop'
    → IsRearranged low stop a b
    → IsRearranged low' stop' a b
wider-IsRearranged {low} {stop} low' stop' l s p = record {
  from = p.from;
  to = p.to;
  from-to = p.from-to;
  to-from = p.to-from;
  inside = λ k from to. elim (Bool-cases (leb low k && ltb k stop)) [
    | inl here ↦
        (let (f, t) = p.inside k (ground arith) (ground arith) in
          (omega (arith, f, l), omega (arith, t, s)))
    | inr there ↦
        (let e = p.outside k (ground arith) in (omega (arith, e, from), omega (arith, e, to)))
  ];
  outside = λ k o. p.outside k (ground (arith, o, l, s));
  same = p.same;
}

abbrev exchange : (i j k : ℕ) → ℕ
exchange i j k = if j == k then i else if i == k then j else k

exchange-exchange : (i j k : ℕ) → exchange i j (exchange i j k) ≡ k
exchange-exchange i j k = ground arith

pub swap-IsRearranged :
    (low stop i j : ℕ) (a : ℕ → Symbol)
    → low ≤ i
    → i < stop
    → low ≤ j
    → j < stop
    → IsRearranged low stop a (swap_symbols i j a)
swap-IsRearranged low stop i j a li hi lj hj = record {
  from = exchange i j;
  to = exchange i j;
  from-to = exchange-exchange i j;
  to-from = exchange-exchange i j;
  inside = λ k l h. ground arith;
  outside = λ k o. ground (arith, o);
  same = λ k. elim (Bool-cases (j == k)) [
    | inl y ↦ rw y refl
    | inr n ↦ elim (Bool-cases (i == k)) [ inl y ↦ rw (n, y) refl | inr n' ↦ rw (n, n') refl ]
  ];
}

abbrev pub IsSorted : (low stop : ℕ) → (ℕ → Symbol) → Type 0
IsSorted low stop a = (i j : ℕ) → low ≤ i → i ≤ j → j < stop → (a i).address ≤ (a j).address
