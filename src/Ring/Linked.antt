-- ===== src/Ring/Linked.antt =====
-- The nodes of a list, in order, and what changes of the links leave of it.
use tomat_os.Base.{
  ℕ, ◌≡◌, sym, ap, ◌∙◌, inl, inr, true, false, ◌||◌, List, [], ◌∷◌, arith, ◌==◌, Bool-cases, has,
  distinct, subst,
}
use tomat_os.Ring.{Links}

-- From `a` the `next` links lead through the nodes `xs` to `b`, and the `prev` links lead back.
abbrev pub Linked : Links → ℕ → List ℕ → ℕ → Type 0
Linked l a [] b = (l.next a ≡ b) × (l.prev b ≡ a)
Linked l a (x ∷ xs) b = (l.next a ≡ x) × (l.prev x ≡ a) × Linked l x xs b

-- The list at `head` has the nodes `xs`.
pub record IsList (l : Links) (head : ℕ) (xs : List ℕ) : Type 0 where
  pub linked : Linked l head xs head
  pub nodup : distinct xs ≡ true
  pub apart : has head xs ≡ false

-- The links that matter agree.
pub Linked-same :
    (l l' : Links) (a : ℕ) (xs : List ℕ) (b : ℕ)
    → ((x : ℕ) → (x == a || has x xs) ≡ true → l'.next x ≡ l.next x)
    → ((x : ℕ) → (x == b || has x xs) ≡ true → l'.prev x ≡ l.prev x)
    → Linked l a xs b
    → Linked l' a xs b
unfolding has
Linked-same l l' a [] b f g (h, k) = (f a (ground arith) ∙ h, g b (ground arith) ∙ k)
Linked-same l l' a (x ∷ xs) b f g (h, k, rest) = (
  f a (ground arith) ∙ h,
  g x (ground arith) ∙ k,
  Linked-same l l' x xs b (λ y e. f y (ground arith)) (λ y e. g y (ground arith)) rest,
)

-- What comes before the end is the start or a node.
pub last-has :
    (l : Links) (a : ℕ) (xs : List ℕ) (b : ℕ)
    → Linked l a xs b
    → (l.prev b == a || has (l.prev b) xs) ≡ true
unfolding has
last-has l a [] b (h, k) = ground arith
last-has l a (x ∷ xs) b (h, k, rest) = ground (arith, last-has l x xs b rest)

pub prev-has :
    (l : Links) (a : ℕ) (xs : List ℕ) (b e : ℕ)
    → has e xs ≡ true
    → Linked l a xs b
    → (l.prev e == a || has (l.prev e) xs) ≡ true
unfolding has
prev-has l a [] b e on c = absurd (ground arith)
prev-has l a (x ∷ xs) b e on (h, k, rest) = elim (Bool-cases (e == x)) [
  | inl y ↦
      let q : x ≡ e = ground arith in let p : l.prev e ≡ a = ap l.prev (sym q) ∙ k in ground arith
  | inr y ↦ ground (arith, prev-has l x xs b e (ground arith) rest)
]

pub next-has :
    (l : Links) (a : ℕ) (xs : List ℕ) (b e : ℕ)
    → has e xs ≡ true
    → Linked l a xs b
    → (l.next e == b || has (l.next e) xs) ≡ true
unfolding has
next-has l a [] b e on c = absurd (ground arith)
next-has l a (x ∷ xs) b e on (h, k, rest) = elim (Bool-cases (e == x)) [
  | inr y ↦ ground (arith, next-has l x xs b e (ground arith) rest)
  | inl y ↦
      let q : x ≡ e = ground arith in
      let first : (l.next x == b || has (l.next x) xs) ≡ true = first-has l x xs b rest in
      subst (λ t. (l.next t == b || (l.next t == x || has (l.next t) xs)) ≡ true) q (ground arith)
]
  where
    first-has :
        (l : Links) (a : ℕ) (xs : List ℕ) (b : ℕ)
        → Linked l a xs b
        → (l.next a == b || has (l.next a) xs) ≡ true
    first-has l a [] b (h, k) = ground arith
    first-has l a (x ∷ xs) b (h, k, rest) = ground arith
