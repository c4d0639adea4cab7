-- ===== src/Timer/Tree.antt =====
-- The tree of timers by deadline: the vendored red-black tree, as kernel/time/timer.c uses it.
use tomat_os.Base.{
  ℕ, ◌≡◌, Bool, true, false, not, ◌&&◌, Option, none, some, List, [], ◌∷◌, ◌==◌, if◌then◌else◌, has,
  without, ltb,
}

abbrev pub first : List ℕ → Option ℕ
first [] = none
first (x ∷ xs) = some x

abbrev pub is_first : ℕ → List ℕ → Bool
is_first t [] = false
is_first t (x ∷ xs) = t == x

-- No timer of the list has an earlier deadline.
unfoldable pub earliest : (deadline : ℕ → ℕ) (t : ℕ) → List ℕ → Bool
earliest deadline t [] = true
earliest deadline t (x ∷ xs) = not (ltb (deadline x) (deadline t)) && earliest deadline t xs

unfoldable pub ordered : (deadline : ℕ → ℕ) → List ℕ → Bool
ordered deadline [] = true
ordered deadline (x ∷ xs) = earliest deadline x xs && ordered deadline xs

-- Behind all timers that are not later.
unfoldable pub insert : (deadline : ℕ → ℕ) (t : ℕ) → List ℕ → List ℕ
insert deadline t [] = t ∷ []
insert deadline t (x ∷ xs) =
    if ltb (deadline t) (deadline x) then t ∷ x ∷ xs else x ∷ insert deadline t xs

abbrev pub if_first : ℕ → List ℕ → Option ℕ → Option ℕ
if_first t xs r = if is_first t xs then r else none

-- The operations of the tree with a cached leftmost node, and what they do to its nodes in order. The
-- addition returns the node when it is the new leftmost one. The removal returns the new leftmost node
-- when the old one was removed, and NULL otherwise.
pub record TimerTree : Type 1 where
  pub Tree : Type 0
  pub rb_first_cached : Tree → Option ℕ
  pub rb_add_cached : (less : ℕ → ℕ → Bool) (node : ℕ) → Tree → Option ℕ × Tree
  pub rb_erase_cached : (node : ℕ) → Tree → Option ℕ × Tree
  pub nodes : Tree → List ℕ
  pub first-nodes : (tree : Tree) → rb_first_cached tree ≡ first (nodes tree)
  pub add-nodes :
      (key : ℕ → ℕ) (node : ℕ) (tree : Tree)
      → ordered key (nodes tree) ≡ true
      → has node (nodes tree) ≡ false
      → nodes ((rb_add_cached (λ a b. ltb (key a) (key b)) node tree).1)
        ≡ insert key node (nodes tree)
  pub add-first :
      (key : ℕ → ℕ) (node : ℕ) (tree : Tree)
      → ordered key (nodes tree) ≡ true
      → has node (nodes tree) ≡ false
      → (rb_add_cached (λ a b. ltb (key a) (key b)) node tree).0
        ≡ if_first node (insert key node (nodes tree)) (some node)
  pub erase-nodes :
      (node : ℕ) (tree : Tree)
      → has node (nodes tree) ≡ true
      → nodes ((rb_erase_cached node tree).1) ≡ without node (nodes tree)
  pub erase-first :
      (node : ℕ) (tree : Tree)
      → has node (nodes tree) ≡ true
      → (rb_erase_cached node tree).0
        ≡ if_first node (nodes tree) (first (without node (nodes tree)))
