-- ===== src/Timer.antt =====
-- kernel/time/timer.c: the timers of one core.
use tomat_os.Base.{
  ℕ, suc, Bool, true, false, not, Option, none, some, List, [], ◌∷◌, ◌==◌, if◌then◌else◌, update,
  ltb, ◌>>=◌,
}
pub mod Tree
pub mod Sound
pub mod Cancel
pub mod Add
pub mod Dispatch
mod Examples
use tomat_os.Timer.Tree.{TimerTree}

-- The tree of the core, the fields of the timers, and the deadline that the hardware is set to.
pub record Timers (Tree : Type 0) : Type 0 where
  pub tree : Tree
  pub deadline : ℕ → ℕ
  pub callback : ℕ → ℕ
  pub linked : ℕ → Bool
  pub backend : Option ℕ

abbrev pub same_node : Option ℕ → Option ℕ → Bool
same_node none none = true
same_node none (some b) = false
same_node (some a) none = false
same_node (some a) (some b) = a == b

module _ (T : TimerTree) where
  abbrev pub timer_less : Timers T.Tree → ℕ → ℕ → Bool
  timer_less s a b = ltb (s.deadline a) (s.deadline b)

  -- `set_deadline` for a timer, or `clear`.
  abbrev pub program : Option ℕ → Timers T.Tree → Timers T.Tree
  program none s = record s { backend = none }
  program (some timer) s = record s { backend = some (s.deadline timer) }

  -- The deadline is set when the timer is the new leftmost one.
  abbrev pub started : (leftmost : Option ℕ) (tsc_deadline : ℕ) → Timers T.Tree → Timers T.Tree
  started none tsc_deadline s = s
  started (some _) tsc_deadline s = record s { backend = some tsc_deadline }

  unfoldable pub timer_cancel : (timer : ℕ) → Timers T.Tree → Timers T.Tree
  timer_cancel timer s =
      if s.linked timer
      then (let old_leftmost = T.rb_first_cached s.tree in
          let (new_leftmost, tree) = T.rb_erase_cached timer s.tree in
          let s = record s { linked = update s.linked timer false; tree = tree } in
          if same_node old_leftmost new_leftmost then s else program new_leftmost s)
      else s

  unfoldable pub timer_set : (timer callback tsc_deadline : ℕ) → Timers T.Tree → Timers T.Tree
  timer_set timer callback tsc_deadline s =
      let s = timer_cancel timer s in
      let s = record s {
        deadline = update s.deadline timer tsc_deadline;
        callback = update s.callback timer callback;
        linked = update s.linked timer true;
      } in
      let (leftmost, tree) = T.rb_add_cached (timer_less s) timer s.tree in
      let s = record s { tree = tree } in started leftmost tsc_deadline s

  -- The rounds read the clock at the given times. A callback is a function on the timers; `none` is a
  -- round for which no time is given.
  unfoldable pub timer_dispatch :
      (run : ℕ → Timers T.Tree → Timers T.Tree) (clock : List ℕ)
      → Timers T.Tree
      → Option (Timers T.Tree)
  timer_dispatch run [] s = elim (T.rb_first_cached s.tree) [
    | none ↦ some (program none s)
    | some timer ↦ none
  ]
  timer_dispatch run (now ∷ clock) s = elim (T.rb_first_cached s.tree) [
    | none ↦ some (program none s)
    | some timer ↦
        if ltb now (s.deadline timer)
        then some (program (some timer) s)
        else if s.linked timer
        then (let (_, tree) = T.rb_erase_cached timer s.tree in
            timer_dispatch run clock
              (run timer (record s { linked = update s.linked timer false; tree = tree })))
        else none
  ]
