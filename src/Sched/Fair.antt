-- ===== src/Sched/Fair.antt =====
-- The queue is served in order: threads that only yield take turns.
use tomat_os.Base.{
  ℕ, zero, suc, ◌≡◌, refl, ◌∙◌, Option, some, List, [], ◌∷◌, ◌++◌, length, subst, update, ◌>>=◌,
}
use mathlib.Core.List.{append_assoc}
use tomat_os.Sched.Core.{Status, Core, scheduler_yield}
use tomat_os.Sched.Sound.{IsSound, Scheduled}
use tomat_os.Sched.Switch.{scheduler_yield-Chooses}

-- The thread that runs yields, then the next one, and so on.
abbrev pub yields : (n : ℕ) (slice_end : ℕ) → Core → Option Core
yields zero slice_end c = some c
yields (suc n) slice_end c = scheduler_yield slice_end c >>= yields n slice_end

-- On a sound core with a current thread and preemption enabled, when the running threads only yield, a
-- thread of the queue runs after as many yields as there are threads before it, and one more.
pub yields-Runs :
    (slice_end u t : ℕ) (before behind : List ℕ) (c : Core)
    → IsSound c
    → c.current ≡ some u
    → c.preempt_count ≡ 0
    → c.queue ≡ before ++ t ∷ behind
    → (c' : Core) × (yields (suc (length before)) slice_end c ≡ some c')
      × IsSound c'
      × (c'.current ≡ some t)
      × (c'.preempt_count ≡ 0)
yields-Runs slice_end u t [] behind c v cur count q =
    let (c', run, sound, next) = scheduler_yield-Chooses slice_end u c v cur count in
    let runs =
      subst (λ l. Scheduled slice_end (l ++ u ∷ []) (update c.status u Status.runnable) c') q
        next in
    (c', rw run refl, sound, runs.current, runs.preempt_count)
yields-Runs slice_end u t (x ∷ before) behind c v cur count q =
    let (c₁, run, sound, next) = scheduler_yield-Chooses slice_end u c v cur count in
    let runs =
      subst (λ l. Scheduled slice_end (l ++ u ∷ []) (update c.status u Status.runnable) c₁) q
        next in
    let (c', ran, rest, cur', count') =
      yields-Runs slice_end x t before (behind ++ u ∷ []) c₁ sound runs.current runs.preempt_count
        (runs.queue ∙ append_assoc before (t ∷ behind) (u ∷ [])) in
    (c', rw run ran, rest, cur', count')
