-- ===== src/Ring/Delete.antt =====
-- Taking a node out of a list.
use tomat_os.Base.{
  ℕ, ◌≡◌, refl, ap, ◌∙◌, inl, inr, true, false, ◌||◌, List, [], ◌∷◌, arith, ◌==◌, ==-refl,
  Bool-cases, has, distinct, without, has-without, distinct-without, has-head, none, some, subst,
}
use tomat_os.Ring.{Links, del_between, list_del, list_pop, list_is_empty}
use tomat_os.Ring.Linked.{Linked, IsList, Linked-same, prev-has, next-has}

-- A node that is not there is not taken out.
pub without-absent : (e : ℕ) (xs : List ℕ) → has e xs ≡ false → without e xs ≡ xs
unfolding has without
without-absent e [] h = refl
without-absent e (x ∷ xs) h =
    let other : (e == x) ≡ false = ground arith in
    rw other (ap (λ t. x ∷ t) (without-absent e xs (ground arith)))

module _ (e : ℕ) (l : Links) where
  del_next : (y : ℕ) → (e == y) ≡ false → (l.prev e == y) ≡ false → (list_del e l).next y ≡ l.next y
  unfolding list_del del_between
  del_next y f g = rw (f, g)

  del_prev : (y : ℕ) → (e == y) ≡ false → (l.next e == y) ≡ false → (list_del e l).prev y ≡ l.prev y
  unfolding list_del del_between
  del_prev y f g = rw (f, g)

  -- The first node is skipped.
  skip-Linked :
      (a : ℕ) (xs : List ℕ) (b : ℕ)
      → has a (e ∷ xs) ≡ false
      → has b (e ∷ xs) ≡ false
      → distinct (e ∷ xs) ≡ true
      → Linked l a (e ∷ xs) b
      → Linked (list_del e l) a xs b
  unfolding has distinct list_del del_between
  skip-Linked a [] b ha hb d (h, k, (h', k')) = (ground arith, ground arith)
  skip-Linked a (y ∷ ys) b ha hb d (h, k, (h', k', rest)) = (
    ground arith,
    ground arith,
    Linked-same l (list_del e l) y ys b (λ z o. del_next z (ground arith) (ground arith))
        (λ z o. del_prev z (ground arith) (ground arith)) rest,
  )

  del-Linked :
      (a : ℕ) (xs : List ℕ) (b : ℕ)
      → has a xs ≡ false
      → has b xs ≡ false
      → distinct xs ≡ true
      → has e xs ≡ true
      → Linked l a xs b
      → Linked (list_del e l) a (without e xs) b
  unfolding has distinct without
  del-Linked a [] b ha hb d on c = absurd (ground arith)
  del-Linked a (x ∷ xs) b ha hb d on (h, k, rest) = elim (Bool-cases (e == x)) [
    | inl y ↦
        let q : x ≡ e = ground arith in
        let gone : without e xs ≡ xs =
          without-absent e xs (subst (λ t. has t xs ≡ false) q (ground arith)) in
        rw (y, gone)
          (skip-Linked a xs b (subst (λ t. has a (t ∷ xs) ≡ false) q ha)
            (subst (λ t. has b (t ∷ xs) ≡ false) q hb) (subst (λ t. distinct (t ∷ xs) ≡ true) q d)
            (subst (λ t. Linked l a (t ∷ xs) b) q (h, k, rest)))
    | inr y ↦
        let before = prev-has l x xs b e (ground arith) rest in
        let after = next-has l x xs b e (ground arith) rest in
        rw y (
          del_next a (ground arith) (ground arith) ∙ h,
          del_prev x (ground arith) (ground arith) ∙ k,
          del-Linked x xs b (ground arith) (ground arith) (ground arith) (ground arith) rest,
        )
  ]

-- Two lists share neither a node nor the head.
abbrev pub AreApart : (head : ℕ) (xs : List ℕ) (other : ℕ) (ys : List ℕ) → Type 0
AreApart head xs other ys =
    (y : ℕ) → (y == other || has y ys) ≡ true → (y == head || has y xs) ≡ false

module _ (l : Links) (head e : ℕ) (xs : List ℕ) (v : IsList l head xs) (on : has e xs ≡ true) where
  -- `list_del` of a node of a list takes that node out of it, and leaves the order of the others.
  pub list_del-IsList : IsList (list_del e l) head (without e xs)
  list_del-IsList = record {
    linked = del-Linked e l head xs head v.apart v.apart v.nodup on v.linked;
    nodup = distinct-without e xs v.nodup;
    apart = ground (arith, has-without e head xs, v.apart);
  }

  -- `list_del` of a node of a list leaves every other list as it is.
  pub list_del-others :
      (other : ℕ) (ys : List ℕ)
      → AreApart head xs other ys
      → IsList l other ys
      → IsList (list_del e l) other ys
  list_del-others other ys far w =
      let before = prev-has l head xs head e on v.linked in
      let after = next-has l head xs head e on v.linked in
      record {
        linked =
            Linked-same l (list_del e l) other ys other
              (λ y o. let f = far y o in del_next e l y (ground arith) (ground arith))
              (λ y o. let f = far y o in del_prev e l y (ground arith) (ground arith)) w.linked;
        nodup = w.nodup;
        apart = w.apart;
      }

first-other : (head x : ℕ) (xs : List ℕ) → has head (x ∷ xs) ≡ false → (x == head) ≡ false
unfolding has
first-other head x xs h = ground arith

without-first : (x : ℕ) (xs : List ℕ) → distinct (x ∷ xs) ≡ true → without x (x ∷ xs) ≡ xs
unfolding without distinct
without-first x xs d = rw (==-refl x) (without-absent x xs (ground arith))

-- What `list_pop` gives: nothing of an empty list, else the first node, which is out of the list then.
abbrev pub Pops : Links → ℕ → List ℕ → Type 0
Pops l head [] = list_pop head l ≡ (none, l)
Pops l head (x ∷ xs) = (l' : Links) × (list_pop head l ≡ (some x, l')) × IsList l' head xs

-- `list_pop` of an empty list returns `NULL` and changes nothing; else it returns the first node, and
-- leaves the list of the others.
pub list_pop-Pops : (l : Links) (head : ℕ) (xs : List ℕ) → IsList l head xs → Pops l head xs
unfolding list_pop list_is_empty
list_pop-Pops l head [] v =
    let (h, k) = v.linked in
    let empty : (l.next head == head) ≡ true = ground arith in rw empty refl
list_pop-Pops l head (x ∷ xs) v =
    let (h, k, rest) = v.linked in
    let other : (x == head) ≡ false = first-other head x xs v.apart in
    let gone : without x (x ∷ xs) ≡ xs = without-first x xs v.nodup in
    (
      list_del x l,
      rw (h, other) refl,
      subst (IsList (list_del x l) head) gone (list_del-IsList l head x (x ∷ xs) v (has-head x xs)),
    )
