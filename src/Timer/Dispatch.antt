-- ===== src/Timer/Dispatch.antt =====
-- `timer_dispatch`.
use tomat_os.Base.{
  false, update, ℕ, ◌<◌, ◌≤◌, ◌≡◌, ◌⊎◌, inl, inr, refl, sym, ap, ◌∙◌, true, none, some, List, [],
  ◌∷◌, ◌==◌, has, without, distinct, ltb, arith, subst, has-head, distinct-cons, length, Bool-cases,
}
use tomat_os.Timer.Tree.{TimerTree, first}
use tomat_os.Timer.{Timers, timer_dispatch}
use tomat_os.Timer.Sound.{IsTimers, IsArmed, without-absent}
use tomat_os.Timer.Cancel.{off, off-IsTimers, off-nodes, set_backend-IsTimers}

-- The clock readings, one for each timer that is looked at: the timers that are due are taken, up to
-- the first one that is not, or to the last one.
abbrev pub Fires : (deadline : ℕ → ℕ) (clock xs rest : List ℕ) → Type 0
Fires d clock [] rest = rest ≡ []
Fires d [] (x ∷ xs) rest = ⊥
Fires d (now ∷ clock) (x ∷ xs) rest =
    ((now < d x) × (rest ≡ x ∷ xs)) ⊎ ((d x ≤ now) × Fires d clock xs rest)

-- A callback that sets and cancels no timer.
abbrev pub IsQuiet : (T : TimerTree) (run : ℕ → Timers T.Tree → Timers T.Tree) → Type 0
IsQuiet T run =
    (t : ℕ) (s : Timers T.Tree)
    → (T.nodes (run t s).tree ≡ T.nodes s.tree)
      × ((run t s).deadline ≡ s.deadline)
      × ((run t s).linked ≡ s.linked)

-- The timer off the tree.
abbrev pub taken : (T : TimerTree) (t : ℕ) → Timers T.Tree → Timers T.Tree
taken T t s = record s { linked = update s.linked t false; tree = (T.rb_erase_cached t s.tree).1 }

-- Timer by timer: a timer that is due is taken off the tree, and its callback runs on that state; at
-- the first that is not due, the hardware is set to its deadline and the dispatch is over.
abbrev pub Calls :
    (T : TimerTree) (run : ℕ → Timers T.Tree → Timers T.Tree) (clock xs : List ℕ)
    (s s' : Timers T.Tree)
    → Type 0
Calls T run clock [] s s' = s' ≡ record s { backend = none }
Calls T run [] (x ∷ xs) s s' = ⊥
Calls T run (now ∷ clock) (x ∷ xs) s s' =
    ((now < s.deadline x) × (s' ≡ record s { backend = some (s.deadline x) }))
    ⊎ ((s.deadline x ≤ now) × Calls T run clock xs (run x (taken T x s)) s')

-- The hardware is set to the first timer that is left.
abbrev pub Dispatches :
    (T : TimerTree) (run : ℕ → Timers T.Tree → Timers T.Tree) (clock : List ℕ) (s : Timers T.Tree)
    (xs : List ℕ)
    → Type 0
Dispatches T run clock s xs =
    (s' : Timers T.Tree) × (timer_dispatch T run clock s ≡ some s')
    × IsTimers T s'
    × IsArmed T s'
    × Fires s.deadline clock xs (T.nodes s'.tree)
    × Calls T run clock xs s s'

without_head : (x : ℕ) (xs : List ℕ) → distinct (x ∷ xs) ≡ true → without x (x ∷ xs) ≡ xs
unfolding without
without_head x xs h =
    let same : (x == x) ≡ true = ground arith in
    rw same (without-absent x xs (ground (arith, sym (distinct-cons x xs) ∙ h)))

module _ (T : TimerTree) (run : ℕ → Timers T.Tree → Timers T.Tree) (quiet : IsQuiet T run) where
  ran-IsTimers : (t : ℕ) (s : Timers T.Tree) → IsTimers T s → IsTimers T (run t s)
  ran-IsTimers t s v =
      let (same, dead, link) = quiet t s in
      record {
        order = (rw (same, dead) v.order);
        nodup = (rw same v.nodup);
        is_linked = λ u. ap (λ f. f u) link ∙ v.is_linked u ∙ ap (has u) (sym same);
      }

  dispatched_none :
      (clock : List ℕ) (s : Timers T.Tree)
      → IsTimers T s
      → T.nodes s.tree ≡ []
      → Dispatches T run clock s []
  unfolding timer_dispatch
  dispatched_none [] s v e =
      let f : T.rb_first_cached s.tree ≡ none = T.first-nodes s.tree ∙ ap first e in
      (
        record s { backend = none },
        rw (f, timer_dispatch) refl,
        set_backend-IsTimers T s none v,
        (rw e refl),
        e,
        refl,
      )
  dispatched_none (now ∷ clock) s v e =
      let f : T.rb_first_cached s.tree ≡ none = T.first-nodes s.tree ∙ ap first e in
      (
        record s { backend = none },
        rw (f, timer_dispatch) refl,
        set_backend-IsTimers T s none v,
        (rw e refl),
        e,
        refl,
      )

  dispatched :
      (clock xs : List ℕ) (s : Timers T.Tree)
      → IsTimers T s
      → T.nodes s.tree ≡ xs
      → length xs ≤ length clock
      → Dispatches T run clock s xs
  unfolding timer_dispatch
  dispatched clock [] s v e le = dispatched_none clock s v e
  dispatched [] (x ∷ xs) s v e le = absurd (omega (arith, le))
  dispatched (now ∷ clock) (x ∷ xs) s v e le =
      let f : T.rb_first_cached s.tree ≡ some x = T.first-nodes s.tree ∙ ap first e in
      elim (Bool-cases (ltb now (s.deadline x))) [
        | inl early ↦ (
          record s { backend = some (s.deadline x) },
          rw (f, timer_dispatch) (rw early refl),
          set_backend-IsTimers T s (some (s.deadline x)) v,
          rw e refl,
          inl (ground arith, e),
          inl (ground arith, refl),
        )
        | inr due ↦
            let on : s.linked x ≡ true = v.is_linked x ∙ ap (has x) e ∙ has-head x xs in
            let s₂ = off T x s v in
            let now_nodes : T.nodes s₂.tree ≡ xs =
              off-nodes T x s v on
              ∙ ap (without x) e
              ∙ without_head x xs (sym (ap distinct e) ∙ v.nodup) in
            let (same, dead, link) = quiet x s₂ in
            let (s', ran, sound, armed, fires, calls) =
              dispatched clock xs (run x s₂) (ran-IsTimers x s₂ (off-IsTimers T x s v on))
                (same ∙ now_nodes) (omega (arith, le)) in
            (
              s',
              rw (f, timer_dispatch) (rw due (rw on ran)),
              sound,
              armed,
              inr (ground arith, subst (λ d. Fires d clock xs (T.nodes s'.tree)) dead fires),
              inr (ground arith, calls),
            )
      ]

  -- In a sound state, with callbacks that set and cancel no timer, and at least as many readings of the
  -- clock as there are timers, the dispatch returns: the timers that are due at their readings are off
  -- the tree, up to the first that is not, and the callback of each of them was called once, in the
  -- order of their deadlines, when it was off the tree; the hardware is set to the deadline of the
  -- first timer that is left, or cleared when none is. The state stays sound.
  pub timer_dispatch-Dispatches :
      (clock : List ℕ) (s : Timers T.Tree)
      → IsTimers T s
      → length (T.nodes s.tree) ≤ length clock
      → Dispatches T run clock s (T.nodes s.tree)
  timer_dispatch-Dispatches clock s v le = dispatched clock (T.nodes s.tree) s v refl le
