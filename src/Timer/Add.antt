-- ===== src/Timer/Add.antt =====
-- `timer_set`.
use tomat_os.Base.{
  ℕ, ◌≡◌, ◌⊎◌, inl, inr, refl, sym, ap, ◌∙◌, true, false, Option, none, some, List, [], ◌∷◌, ◌==◌,
  if◌then◌else◌, has, without, distinct, ltb, arith, update, subst, Bool-cases, update_self,
}
use tomat_os.Timer.Tree.{TimerTree, is_first, ordered, insert, if_first}
use tomat_os.Timer.{Timers, timer_cancel, timer_set, started}
use tomat_os.Timer.Sound.{
  IsTimers, IsArmed, next_deadline, without-absent, ordered-insert, distinct-insert, has-insert,
  ordered-update,
}
use tomat_os.Timer.Cancel.{timer_cancel-Cancels, has-without_self}

-- The timer is in the tree, at its deadline, and the hardware is set to the first deadline.
abbrev pub Sets : (T : TimerTree) (t tsc_deadline : ℕ) (s s' : Timers T.Tree) → Type 0
Sets T t tsc_deadline s s' =
    IsTimers T s'
    × IsArmed T s'
    × (s'.deadline ≡ update s.deadline t tsc_deadline)
    × (T.nodes s'.tree ≡ insert (update s.deadline t tsc_deadline) t (without t (T.nodes s.tree)))

next-insert_first :
    (d : ℕ → ℕ) (t v : ℕ) (xs : List ℕ)
    → is_first t (insert (update d t v) t xs) ≡ true
    → some v ≡ next_deadline (update d t v) (insert (update d t v) t xs)
unfolding insert
next-insert_first d t v [] e = sym (ap (λ n. some n) (update_self d t v))
next-insert_first d t v (x ∷ xs) e = elim (Bool-cases (ltb (update d t v t) (update d t v x))) [
  | inl y ↦ rw y (sym (ap (λ n. some n) (update_self d t v)))
  | inr n ↦
      let same : (t == x) ≡ true =
        subst (λ b. is_first t (if b then t ∷ x ∷ xs else x ∷ insert (update d t v) t xs) ≡ true) n
          e in
      rw n (rw same refl)
]

next-insert_later :
    (d : ℕ → ℕ) (t v : ℕ) (xs : List ℕ)
    → is_first t (insert (update d t v) t xs) ≡ false
    → next_deadline d xs ≡ next_deadline (update d t v) (insert (update d t v) t xs)
unfolding insert
next-insert_later d t v [] e = absurd (ground (arith, e))
next-insert_later d t v (x ∷ xs) e = elim (Bool-cases (ltb (update d t v t) (update d t v x))) [
  | inl y ↦
      let other : (t == t) ≡ false =
        subst (λ b. is_first t (if b then t ∷ x ∷ xs else x ∷ insert (update d t v) t xs) ≡ false) y
          e in
      absurd (ground (arith, other))
  | inr n ↦
      let other : (t == x) ≡ false =
        subst (λ b. is_first t (if b then t ∷ x ∷ xs else x ∷ insert (update d t v) t xs) ≡ false) n
          e in
      rw n (rw other refl)
]

-- A state in which the timer is not linked.
module _ (T : TimerTree) (t callback v : ℕ) (s : Timers T.Tree) where
  abbrev key : ℕ → ℕ
  key = update s.deadline t v

  abbrev added : Option ℕ × T.Tree
  added = T.rb_add_cached (λ a b. ltb (key a) (key b)) t s.tree

  abbrev with_backend : Option ℕ → Timers T.Tree
  with_backend b = record {
    tree = added.1;
    deadline = key;
    callback = update s.callback t callback;
    linked = update s.linked t true;
    backend = b;
  }

  abbrev chosen : Option ℕ → Timers T.Tree
  chosen r = started T r v (with_backend s.backend)

  module _ (w : IsTimers T s) (out : has t (T.nodes s.tree) ≡ false) where
    still : ordered key (T.nodes s.tree) ≡ true
    still = ordered-update s.deadline t v (T.nodes s.tree) out ∙ w.order

    now-nodes : T.nodes added.1 ≡ insert key t (T.nodes s.tree)
    now-nodes = T.add-nodes key t s.tree still out

    added-IsTimers : (b : Option ℕ) → IsTimers T (with_backend b)
    added-IsTimers b = record {
      order = ap (ordered key) now-nodes ∙ ordered-insert key t (T.nodes s.tree) still;
      nodup = ap distinct now-nodes ∙ distinct-insert key t (T.nodes s.tree) out w.nodup;
      is_linked = λ u.
          ground (arith, ap (has u) now-nodes, has-insert key t u (T.nodes s.tree), w.is_linked u);
    }

    chosen-Sets :
        (r : Option ℕ)
        → r ≡ if_first t (insert key t (T.nodes s.tree)) (some t)
        → IsArmed T s
        → IsTimers T (chosen r)
          × IsArmed T (chosen r)
          × ((chosen r).deadline ≡ key)
          × (T.nodes (chosen r).tree ≡ insert key t (T.nodes s.tree))
    chosen-Sets none e armed = elim (Bool-cases (is_first t (insert key t (T.nodes s.tree)))) [
      | inl y ↦ absurd (let x : none ≡ some t = e ∙ (rw y refl) in cc)
      | inr n ↦ (
        added-IsTimers s.backend,
        armed
            ∙ next-insert_later s.deadline t v (T.nodes s.tree) n
            ∙ ap (next_deadline key) (sym now-nodes),
        refl,
        now-nodes,
      )
    ]
    chosen-Sets (some u) e armed = elim (Bool-cases (is_first t (insert key t (T.nodes s.tree)))) [
      | inr n ↦ absurd (let x : some u ≡ none = e ∙ (rw n refl) in cc)
      | inl y ↦ (
        added-IsTimers (some v),
        next-insert_first s.deadline t v (T.nodes s.tree) y
            ∙ ap (next_deadline key) (sym now-nodes),
        refl,
        now-nodes,
      )
    ]

module _ (T : TimerTree) (t callback v : ℕ) (s : Timers T.Tree) where
  set_run :
      timer_set T t callback v s
      ≡ chosen T t callback v (timer_cancel T t s) (added T t callback v (timer_cancel T t s)).0
  unfolding timer_set
  set_run = refl

  first_after_cancel :
      IsTimers T s
      → IsArmed T s
      → (s.linked t ≡ false) ⊎ (is_first t (T.nodes s.tree) ≡ true)
      → IsArmed T (timer_cancel T t s)
  first_after_cancel w armed how =
      let (sound, off, same, backend) = timer_cancel-Cancels T t s w in
      let rest : next_deadline s.deadline (without t (T.nodes s.tree))
          ≡ next_deadline (timer_cancel T t s).deadline (T.nodes (timer_cancel T t s).tree) =
        rw (off, same) refl in
      elim (Bool-cases (s.linked t)) [
        | inr free ↦
            backend
            ∙ (rw free armed)
            ∙ ap (next_deadline s.deadline)
                (sym (without-absent t (T.nodes s.tree) (sym (w.is_linked t) ∙ free)))
            ∙ rest
        | inl on ↦ elim how [
          | inl free ↦ absurd (let x : true ≡ false = sym on ∙ free in cc)
          | inr leftmost ↦ backend ∙ (rw (on, leftmost) refl) ∙ rest
        ]
      ]

  -- Setting a timer that is not linked, or that is the first one, in a sound state with the hardware set
  -- to the first deadline: the state stays so, the timer has the new deadline, and it stands in the
  -- tree behind the others that are not later.
  pub timer_set-Sets :
      IsTimers T s
      → IsArmed T s
      → (s.linked t ≡ false) ⊎ (is_first t (T.nodes s.tree) ≡ true)
      → Sets T t v s (timer_set T t callback v s)
  timer_set-Sets w armed how =
      let (sound, off, same, backend) = timer_cancel-Cancels T t s w in
      let s₁ = timer_cancel T t s in
      let out : has t (T.nodes s₁.tree) ≡ false =
        ap (has t) off ∙ has-without_self t (T.nodes s.tree) in
      let r =
        T.add-first (update s₁.deadline t v) t s₁.tree
          (ordered-update s₁.deadline t v (T.nodes s₁.tree) out ∙ sound.order) out in
      let (a, b, c, d) =
        chosen-Sets T t callback v s₁ sound out _ r (first_after_cancel w armed how) in
      (
        subst (IsTimers T) (sym set_run) a,
        subst (IsArmed T) (sym set_run) b,
        ap (λ x. x.deadline) set_run ∙ c ∙ ap (λ d. update d t v) same,
        ap (λ x. T.nodes x.tree) set_run ∙ d ∙ (rw (same, off) refl),
      )
