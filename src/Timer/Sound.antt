-- ===== src/Timer/Sound.antt =====
-- The order of the timers.
use tomat_os.Base.{
  ℕ, ◌≡◌, refl, ap, true, false, ◌||◌, Option, none, some, List, [], ◌∷◌, ◌==◌, has, without,
  distinct, ltb, arith, update, has-cons,
}
use tomat_os.Timer.Tree.{TimerTree, earliest, ordered, insert}
use tomat_os.Timer.{Timers}

earliest-update :
    (d : ℕ → ℕ) (t u v : ℕ) (xs : List ℕ)
    → has t (u ∷ xs) ≡ false
    → earliest (update d t v) u xs ≡ earliest d u xs
unfolding earliest has
earliest-update d t u v [] h = refl
earliest-update d t u v (x ∷ xs) h = ground (arith, earliest-update d t u v xs)

pub ordered-update :
    (d : ℕ → ℕ) (t v : ℕ) (xs : List ℕ)
    → has t xs ≡ false
    → ordered (update d t v) xs ≡ ordered d xs
unfolding ordered
ordered-update d t v [] h = refl
ordered-update d t v (x ∷ xs) h =
    ground (arith, h, has-cons t x xs, earliest-update d t x v xs h, ordered-update d t v xs)

pub has-insert :
    (d : ℕ → ℕ) (t u : ℕ) (xs : List ℕ) → has u (insert d t xs) ≡ ((u == t) || has u xs)
unfolding insert has
has-insert d t u [] = refl
has-insert d t u (x ∷ xs) = ground (arith, has-insert d t u xs)

pub distinct-insert :
    (d : ℕ → ℕ) (t : ℕ) (xs : List ℕ)
    → has t xs ≡ false
    → distinct xs ≡ true
    → distinct (insert d t xs) ≡ true
unfolding insert distinct has
distinct-insert d t [] h e = refl
distinct-insert d t (x ∷ xs) h e = ground (arith, distinct-insert d t xs, has-insert d t x xs)

earliest_trans :
    (d : ℕ → ℕ) (t u : ℕ) (xs : List ℕ)
    → (ltb (d u) (d t)) ≡ false
    → earliest d u xs ≡ true
    → earliest d t xs ≡ true
unfolding earliest
earliest_trans d t u [] le h = refl
earliest_trans d t u (x ∷ xs) le h = ground (arith, earliest_trans d t u xs le)

earliest-insert :
    (d : ℕ → ℕ) (u t : ℕ) (xs : List ℕ)
    → (ltb (d t) (d u)) ≡ false
    → earliest d u xs ≡ true
    → earliest d u (insert d t xs) ≡ true
unfolding earliest insert
earliest-insert d u t [] le h = ground arith
earliest-insert d u t (x ∷ xs) le h = ground (arith, earliest-insert d u t xs le)

pub ordered-insert :
    (d : ℕ → ℕ) (t : ℕ) (xs : List ℕ) → ordered d xs ≡ true → ordered d (insert d t xs) ≡ true
unfolding ordered insert earliest
ordered-insert d t [] h = refl
ordered-insert d t (x ∷ xs) h =
    ground (arith, ordered-insert d t xs, earliest-insert d x t xs, earliest_trans d t x xs)

earliest-without :
    (d : ℕ → ℕ) (u t : ℕ) (xs : List ℕ)
    → earliest d u xs ≡ true
    → earliest d u (without t xs) ≡ true
unfolding earliest without
earliest-without d u t [] h = refl
earliest-without d u t (x ∷ xs) h = ground (arith, earliest-without d u t xs)

pub ordered-without :
    (d : ℕ → ℕ) (t : ℕ) (xs : List ℕ) → ordered d xs ≡ true → ordered d (without t xs) ≡ true
unfolding ordered without
ordered-without d t [] h = refl
ordered-without d t (x ∷ xs) h = ground (arith, ordered-without d t xs, earliest-without d x t xs)

pub without-absent : (t : ℕ) (xs : List ℕ) → has t xs ≡ false → without t xs ≡ xs
unfolding has without
without-absent t [] h = refl
without-absent t (x ∷ xs) h =
    let other : (t == x) ≡ false = ground arith in
    rw other (ap (λ l. x ∷ l) (without-absent t xs (ground (arith, h, other))))

-- The deadline of the first timer.
abbrev pub next_deadline : (ℕ → ℕ) → List ℕ → Option ℕ
next_deadline d [] = none
next_deadline d (x ∷ xs) = some (d x)

-- The tree is in the order of the deadlines, and holds the linked timers.
pub record IsTimers (T : TimerTree) (s : Timers T.Tree) : Type 0 where
  pub order : ordered s.deadline (T.nodes s.tree) ≡ true
  pub nodup : distinct (T.nodes s.tree) ≡ true
  pub is_linked : (t : ℕ) → s.linked t ≡ has t (T.nodes s.tree)

-- The hardware is set to the first deadline.
abbrev pub IsArmed : (T : TimerTree) (s : Timers T.Tree) → Type 0
IsArmed T s = s.backend ≡ next_deadline s.deadline (T.nodes s.tree)
