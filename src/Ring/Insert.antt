-- ===== src/Ring/Insert.antt =====
-- Adding a node at either end of a list.
use tomat_os.Base.{
  ℕ, ◌≡◌, ◌≢◌, refl, sym, true, false, List, [], ◌∷◌, ◌++◌, arith, ◌==◌, has, distinct, update_self,
}
use tomat_os.Ring.{Links, add_between, list_add, list_add_tail, list_init}
use tomat_os.Ring.Linked.{Linked, IsList, Linked-same, last-has}

-- `list_init` makes an empty list.
pub list_init-IsList : (head : ℕ) (l : Links) → IsList (list_init head l) head []
unfolding list_init has distinct
list_init-IsList head l = record {
  linked = (update_self l.next head head, update_self l.prev head head);
  nodup = refl;
  apart = refl;
}

has-last :
    (a node : ℕ) (xs : List ℕ) → has a xs ≡ false → a ≢ node → has a (xs ++ node ∷ []) ≡ false
unfolding has
has-last a node [] h n = ground arith
has-last a node (x ∷ xs) h n = ground (arith, has-last a node xs (ground arith) n)

distinct-last :
    (node : ℕ) (xs : List ℕ)
    → has node xs ≡ false
    → distinct xs ≡ true
    → distinct (xs ++ node ∷ []) ≡ true
unfolding has distinct
distinct-last node [] h d = refl
distinct-last node (x ∷ xs) h d = ground (
  arith,
  has-last x node xs (ground arith) (ground arith),
  distinct-last node xs (ground arith) (ground arith),
)

module _ (node : ℕ) where
  -- After the start, which is no node.
  add_first-Linked :
      (l : Links) (a : ℕ) (xs : List ℕ) (b : ℕ)
      → has a xs ≡ false
      → has node xs ≡ false
      → has b xs ≡ false
      → distinct xs ≡ true
      → node ≢ a
      → node ≢ b
      → Linked l a xs b
      → Linked (add_between node a (l.next a) l) a (node ∷ xs) b
  unfolding add_between has distinct
  add_first-Linked l a [] b ha hn hb d na nb (h, k) =
      (ground arith, ground arith, (ground arith, ground arith))
  add_first-Linked l a (x ∷ xs) b ha hn hb d na nb (h, k, rest) = (
    ground arith,
    ground arith,
    (
      ground arith,
      ground arith,
      Linked-same l (add_between node a (l.next a) l) x xs b
          (λ y e. add_next y (ground arith) (ground arith))
          (λ y e. add_prev y (ground arith) (ground arith)) rest,
    ),
  )
    where
      add_next :
          (y : ℕ)
          → (node == y) ≡ false
          → (a == y) ≡ false
          → (add_between node a (l.next a) l).next y ≡ l.next y
      add_next y e f = rw (f, e)

      add_prev :
          (y : ℕ)
          → (node == y) ≡ false
          → (l.next a == y) ≡ false
          → (add_between node a (l.next a) l).prev y ≡ l.prev y
      add_prev y e f = rw (e, f)

  -- Before the end, which is no node.
  add_last-Linked :
      (l : Links) (a : ℕ) (xs : List ℕ) (b : ℕ)
      → has a xs ≡ false
      → has node xs ≡ false
      → has b xs ≡ false
      → distinct xs ≡ true
      → node ≢ a
      → node ≢ b
      → Linked l a xs b
      → Linked (add_between node (l.prev b) b l) a (xs ++ node ∷ []) b
  unfolding add_between has distinct
  add_last-Linked l a [] b ha hn hb d na nb (h, k) =
      (ground arith, ground arith, (ground arith, ground arith))
  add_last-Linked l a (x ∷ xs) b ha hn hb d na nb (h, k, rest) =
      let last = last-has l x xs b rest in
      (
        ground arith,
        ground arith,
        add_last-Linked l x xs b (ground arith) (ground arith) (ground arith) (ground arith)
            (ground arith) nb rest,
      )

-- Adding a node that is not in the list and not its head puts it first.
pub list_add-IsList :
    (l : Links) (head node : ℕ) (xs : List ℕ)
    → IsList l head xs
    → node ≢ head
    → has node xs ≡ false
    → IsList (list_add head node l) head (node ∷ xs)
unfolding list_add has distinct
list_add-IsList l head node xs v n h = record {
  linked = add_first-Linked node l head xs head v.apart h v.apart v.nodup n n v.linked;
  nodup = ground (arith, v.nodup);
  apart = ground (arith, v.apart);
}

-- Adding at the tail a node that is not in the list and not its head puts it last.
pub list_add_tail-IsList :
    (l : Links) (head node : ℕ) (xs : List ℕ)
    → IsList l head xs
    → node ≢ head
    → has node xs ≡ false
    → IsList (list_add_tail head node l) head (xs ++ node ∷ [])
unfolding list_add_tail
list_add_tail-IsList l head node xs v n h = record {
  linked = add_last-Linked node l head xs head v.apart h v.apart v.nodup n n v.linked;
  nodup = distinct-last node xs h v.nodup;
  apart = has-last head node xs v.apart (λ e. n (sym e));
}
