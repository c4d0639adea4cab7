-- ===== src/Timer/Examples.antt =====
-- The tree as the list of its nodes in order, with two timers.
use tomat_os.Base.{
  update, ℕ, ◌≡◌, inl, refl, ap, Bool, none, some, List, [], ◌∷◌, ◌==◌, if◌then◌else◌, has, without,
  distinct, ltb, arith,
}
use tomat_os.Timer.Tree.{TimerTree, first, earliest, ordered, insert, if_first}
use tomat_os.Timer.{Timers, timer_cancel, timer_set}
use tomat_os.Timer.Sound.{IsTimers}
use tomat_os.Timer.Cancel.{Cancels, timer_cancel-Cancels}
use tomat_os.Timer.Add.{Sets, timer_set-Sets}
use tomat_os.Timer.Dispatch.{Dispatches, timer_dispatch-Dispatches}

-- `insert` by a comparison.
abbrev insert_by : (less : ℕ → ℕ → Bool) (t : ℕ) → List ℕ → List ℕ
insert_by less t [] = t ∷ []
insert_by less t (x ∷ xs) = if less t x then t ∷ x ∷ xs else x ∷ insert_by less t xs

insert_by-insert :
    (key : ℕ → ℕ) (t : ℕ) (xs : List ℕ)
    → insert_by (λ a b. ltb (key a) (key b)) t xs ≡ insert key t xs
unfolding insert
insert_by-insert key t [] = refl
insert_by-insert key t (x ∷ xs) = rw (insert_by-insert key t xs) refl

abbrev list_tree : TimerTree
list_tree = record {
  Tree = List ℕ;
  rb_first_cached = first;
  rb_add_cached = λ less t xs. (if_first t (insert_by less t xs) (some t), insert_by less t xs);
  rb_erase_cached = λ t xs. (if_first t xs (first (without t xs)), without t xs);
  nodes = λ xs. xs;
  first-nodes = λ xs. refl;
  add-nodes = λ key t xs o n. insert_by-insert key t xs;
  add-first = λ key t xs o n. ap (λ ys. if_first t ys (some t)) (insert_by-insert key t xs);
  erase-nodes = λ t xs h. refl;
  erase-first = λ t xs h. refl;
}

-- Timer 5 at 20 and timer 6 at 30.
abbrev two_timers : Timers (List ℕ)
two_timers = record {
  tree = 5 ∷ 6 ∷ [];
  deadline = λ t. if t == 5 then 20 else 30;
  callback = λ t. 0;
  linked = λ t. has t (5 ∷ 6 ∷ []);
  backend = some 20;
}

two_timers-IsTimers : IsTimers list_tree two_timers
unfolding ordered earliest distinct has
two_timers-IsTimers = record { order = refl; nodup = refl; is_linked = λ t. refl }

-- The second timer is cancelled.
timer_cancel-Cancels_example : Cancels list_tree 6 two_timers (timer_cancel list_tree 6 two_timers)
timer_cancel-Cancels_example = timer_cancel-Cancels list_tree 6 two_timers two_timers-IsTimers

timer_set-Sets_example : Sets list_tree 7 25 two_timers (timer_set list_tree 7 1 25 two_timers)
unfolding has
timer_set-Sets_example =
    timer_set-Sets list_tree 7 1 25 two_timers two_timers-IsTimers refl (inl refl)

-- A callback that marks its timer.
abbrev marks : ℕ → Timers (List ℕ) → Timers (List ℕ)
marks t s = record s { callback = update s.callback t 1 }

timer_dispatch-Dispatches_example :
    Dispatches list_tree marks (22 ∷ 23 ∷ []) two_timers (5 ∷ 6 ∷ [])
timer_dispatch-Dispatches_example =
    timer_dispatch-Dispatches list_tree marks (λ t s. (refl, refl, refl)) (22 ∷ 23 ∷ []) two_timers
      two_timers-IsTimers (omega arith)

-- The hardware is cleared while timer 5 is set.
lost_deadline : (timer_cancel list_tree 6 two_timers).backend ≡ none
unfolding timer_cancel has without
lost_deadline = refl
