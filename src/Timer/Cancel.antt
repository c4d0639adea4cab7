-- ===== src/Timer/Cancel.antt =====
-- `timer_cancel` and `timer_set`.
use tomat_os.Base.{
  ℕ, ◌≡◌, inl, inr, refl, sym, ap, ◌∙◌, true, false, Option, none, some, List, [], ◌∷◌, ◌==◌,
  if◌then◌else◌, has, without, distinct, arith, update, has-cons, has-without, distinct-without,
  Bool-cases,
}
use tomat_os.Timer.Tree.{TimerTree, first, is_first, ordered, if_first}
use tomat_os.Timer.{Timers, timer_cancel, same_node, program}
use tomat_os.Timer.Sound.{IsTimers, next_deadline, without-absent, ordered-without}

-- What a cancel leaves in the hardware: it is cleared when the timer was not the first.
abbrev pub left_by_cancel : (timer : ℕ) (xs : List ℕ) (deadline : ℕ → ℕ) → Option ℕ
left_by_cancel timer xs deadline =
    if is_first timer xs then next_deadline deadline (without timer xs) else none

apart :
    (x t : ℕ) (xs : List ℕ)
    → (t == x) ≡ true
    → has t xs ≡ false
    → same_node (some x) (first xs) ≡ false
apart x t [] e h = refl
apart x t (y ∷ xs) e h = ground (arith, h, has-cons t y xs)

pub has-without_self : (t : ℕ) (xs : List ℕ) → has t (without t xs) ≡ false
has-without_self t xs = ground (arith, has-without t t xs)

differ :
    (t : ℕ) (xs : List ℕ)
    → has t xs ≡ true
    → same_node (first xs) (if_first t xs (first (without t xs))) ≡ false
unfolding has without
differ t [] at = absurd cc
differ t (x ∷ xs) at = elim (Bool-cases (t == x)) [
  | inr other ↦ rw other refl
  | inl same ↦ rw same (apart x t (without t xs) same (has-without_self t xs))
]

abbrev deadline_of : (ℕ → ℕ) → Option ℕ → Option ℕ
deadline_of d none = none
deadline_of d (some t) = some (d t)

deadline_of-first : (d : ℕ → ℕ) (xs : List ℕ) → deadline_of d (first xs) ≡ next_deadline d xs
deadline_of-first d [] = refl
deadline_of-first d (x ∷ xs) = refl

deadline_of-if_first :
    (d : ℕ → ℕ) (t : ℕ) (xs : List ℕ)
    → deadline_of d (if_first t xs (first (without t xs))) ≡ left_by_cancel t xs d
deadline_of-if_first d t xs = elim (Bool-cases (is_first t xs)) [
  | inl leftmost ↦ rw leftmost (deadline_of-first d (without t xs))
  | inr other ↦ rw other refl
]

pub set_backend-IsTimers :
    (T : TimerTree) (s : Timers T.Tree) (b : Option ℕ)
    → IsTimers T s
    → IsTimers T (record s { backend = b })
set_backend-IsTimers T s b v = record { order = v.order; nodup = v.nodup; is_linked = v.is_linked }

-- The cancelled timer is off the tree, the others stay. The hardware is set to the first of them when
-- the cancelled timer was the first; it is cleared when it was not.
abbrev pub Cancels : (T : TimerTree) (t : ℕ) (s s' : Timers T.Tree) → Type 0
Cancels T t s s' =
    IsTimers T s'
    × (T.nodes s'.tree ≡ without t (T.nodes s.tree))
    × (s'.deadline ≡ s.deadline)
    × (s'.backend
        ≡ (if s.linked t then left_by_cancel t (T.nodes s.tree) s.deadline else s.backend))

module _ (T : TimerTree) (t : ℕ) (s : Timers T.Tree) (v : IsTimers T s) where
  abbrev pub off : Timers T.Tree
  off = record s { linked = update s.linked t false; tree = (T.rb_erase_cached t s.tree).1 }

  idle_run : s.linked t ≡ false → timer_cancel T t s ≡ s
  unfolding timer_cancel
  idle_run free = rw free refl

  module _ (on : s.linked t ≡ true) where
    at : has t (T.nodes s.tree) ≡ true
    at = sym (v.is_linked t) ∙ on

    changed : same_node (T.rb_first_cached s.tree) (T.rb_erase_cached t s.tree).0 ≡ false
    changed =
        rw (T.first-nodes s.tree) (rw (T.erase-first t s.tree at) (differ t (T.nodes s.tree) at))

    cancel_run : timer_cancel T t s ≡ program T (T.rb_erase_cached t s.tree).0 off
    unfolding timer_cancel
    cancel_run = rw on (rw changed refl)

    pub off-nodes : T.nodes off.tree ≡ without t (T.nodes s.tree)
    off-nodes = T.erase-nodes t s.tree at

    pub off-IsTimers : IsTimers T off
    off-IsTimers = record {
      order =
          ap (ordered s.deadline) off-nodes ∙ ordered-without s.deadline t (T.nodes s.tree) v.order;
      nodup = ap distinct off-nodes ∙ distinct-without t (T.nodes s.tree) v.nodup;
      is_linked = λ u.
          ground (arith, ap (has u) off-nodes, has-without t u (T.nodes s.tree), v.is_linked u);
    }

    off-Cancels :
        (r : Option ℕ)
        → r ≡ if_first t (T.nodes s.tree) (first (without t (T.nodes s.tree)))
        → Cancels T t s (program T r off)
    off-Cancels none e = (
      set_backend-IsTimers T off none off-IsTimers,
      off-nodes,
      refl,
      rw on (ap (deadline_of s.deadline) e ∙ deadline_of-if_first s.deadline t (T.nodes s.tree)),
    )
    off-Cancels (some u) e = (
      set_backend-IsTimers T off (some (s.deadline u)) off-IsTimers,
      off-nodes,
      refl,
      rw on (ap (deadline_of s.deadline) e ∙ deadline_of-if_first s.deadline t (T.nodes s.tree)),
    )

  -- Cancelling in a sound state leaves a sound state without the timer. A linked timer that was the
  -- first has the hardware set to the next deadline, or cleared when there is none; a linked timer that
  -- was not the first has it cleared, whatever timers are left; nothing changes for any other timer.
  pub timer_cancel-Cancels : Cancels T t s (timer_cancel T t s)
  timer_cancel-Cancels = elim (Bool-cases (s.linked t)) [
    | inl on ↦
        rw (cancel_run on)
          (off-Cancels on (T.rb_erase_cached t s.tree).0 (T.erase-first t s.tree (at on)))
    | inr free ↦ rw (idle_run free) (
      v,
      sym (without-absent t (T.nodes s.tree) (sym (v.is_linked t) ∙ free)),
      refl,
      rw free refl,
    )
  ]
