-- ===== src/Sched/Wake.antt =====
-- `scheduler_wakeup_thread`, and the core that waits for a thread.
use tomat_os.Base.{
  ℕ, ◌+◌, ◌-◌, ◌≡◌, ◌≢◌, ◌⊎◌, inl, inr, refl, sym, ◌∙◌, true, false, Option, none, some, [], ◌∷◌,
  ◌++◌, ◌==◌, arith, Bool-cases, update, has, has-cons, distinct-cons, subst, ◌>>=◌,
}
use tomat_os.Sched.Core.{
  Status, Core, scheduler_preempt_disable, scheduler_preempt_enable, scheduler_reschedule,
  scheduler_resume, scheduler_wakeup_thread, scheduler_yield_internal,
}
use tomat_os.Sched.Sound.{IsSound, Runs, Waits, switched, status_kept, schedule_round-Scheduled}
use tomat_os.Sched.Switch.{scheduler_yield_internal-Chooses, disabled-IsSound}

Option-cases {ℓ} : {A : Type ℓ} (a : Option A) → (a ≡ none) ⊎ ((x : A) × (a ≡ some x))
Option-cases none = inl refl
Option-cases (some x) = inr (x, refl)

-- The woken thread at the head of the queue, and a switch asked for.
abbrev pub woken : (t : ℕ) → Core → Core
woken t c = record c {
  want_reschedule = true;
  parked = false;
  queue = t ∷ c.queue;
  status = update c.status t Status.runnable;
}

module _ (slice_end t : ℕ) (c : Core) (v : IsSound c) (asleep : c.status t ≡ Status.waiting) where
  not_queued : has t c.queue ≡ false
  not_queued = elim (Bool-cases (has t c.queue)) [
    | inl at ↦ let e : Status.runnable ≡ Status.waiting = sym (v.runnable t at) ∙ asleep in cc
    | inr out ↦ out
  ]

  pub woken-IsSound : IsSound (woken t c)
  woken-IsSound = record {
    runnable = λ u at. elim (Bool-cases (t == u)) [
      | inl same ↦ rw same refl
      | inr other ↦ rw other (v.runnable u (ground (arith, at, other, has-cons u t c.queue)))
    ];
    nodup = ground (arith, distinct-cons t c.queue, not_queued, v.nodup);
    runs = λ u e.
        status_kept c.status t u Status.waiting Status.runnable Status.running asleep (λ q. cc)
          (v.runs u e);
    held = v.held;
    freed = λ u at.
        status_kept c.status t u Status.waiting Status.runnable Status.idle asleep (λ q. cc)
          (v.freed u at);
  }

  wakeup_run :
      scheduler_wakeup_thread slice_end t c
      ≡ scheduler_preempt_enable slice_end (scheduler_preempt_disable (woken t c))
  unfolding scheduler_wakeup_thread scheduler_reschedule scheduler_preempt_disable
  wakeup_run =
      let counted : (c.preempt_count + 1 == 0) ≡ false = ground arith in
      rw (switched t Status.waiting Status.runnable (scheduler_preempt_disable c) asleep)
        (rw counted refl)

  -- With preemption disabled already, the woken thread is queued.
  pub wakeup_later : c.preempt_count ≢ 0 → scheduler_wakeup_thread slice_end t c ≡ some (woken t c)
  unfolding scheduler_preempt_enable scheduler_preempt_disable
  wakeup_later ne =
      let more : (c.preempt_count + 1 == 1) ≡ false = ground arith in
      let counted : (c.preempt_count + 1 == 0) ≡ false = ground arith in
      let back : c.preempt_count + 1 - 1 ≡ c.preempt_count = omega arith in
      wakeup_run ∙ rw more (rw counted (rw back refl))

  wakeup_now :
      c.preempt_count ≡ 0
      → scheduler_wakeup_thread slice_end t c
        ≡ scheduler_yield_internal slice_end (scheduler_preempt_disable (woken t c))
  unfolding scheduler_preempt_enable scheduler_preempt_disable
  wakeup_now e =
      let more : (c.preempt_count + 1 == 1) ≡ true = ground arith in wakeup_run ∙ rw more refl

-- The thread was queued, or it runs and the thread that woke it goes behind the queue.
abbrev pub Wakes : (slice_end t : ℕ) (c : Core) → Type 0
Wakes slice_end t c =
    (c' : Core) × (scheduler_wakeup_thread slice_end t c ≡ some c')
    × IsSound c'
    × (((c.preempt_count ≢ 0) × (c' ≡ woken t c))
        ⊎ ((u : ℕ) × (c.current ≡ some u)
            × Runs slice_end t (c.queue ++ u ∷ [])
                (update (update c.status t Status.runnable) u Status.runnable) c'))

-- Waking a waiting thread returns and leaves a sound core. With preemption disabled, the thread is the
-- first of the queue, a reschedule is asked for and the core is not parked. Else the thread runs at
-- once, and the caller is the last of the queue.
pub scheduler_wakeup_thread-Wakes :
    (slice_end t : ℕ) (c : Core) → IsSound c → c.status t ≡ Status.waiting → Wakes slice_end t c
unfolding scheduler_preempt_disable
scheduler_wakeup_thread-Wakes slice_end t c v asleep = elim (Bool-cases (c.preempt_count == 0)) [
  | inr later ↦
      let ne : c.preempt_count ≢ 0 = ground arith in
      (
        woken t c,
        wakeup_later slice_end t c v asleep ne,
        woken-IsSound slice_end t c v asleep,
        inl (ne, refl),
      )
  | inl now ↦
      let zero_count : c.preempt_count ≡ 0 = ground arith in
      elim (Option-cases c.current) [
        | inl nobody ↦ absurd (v.held nobody zero_count)
        | inr (u, cur) ↦
            let (c', run, sound, runs) =
              scheduler_yield_internal-Chooses slice_end u (scheduler_preempt_disable (woken t c))
                (disabled-IsSound (woken t c) (woken-IsSound slice_end t c v asleep)) cur
                (omega (arith, zero_count)) in
            (c', wakeup_now slice_end t c v asleep zero_count ∙ run, sound, inr (u, cur, runs))
      ]
]

-- A core that waits for a thread, after an interrupt that wakes one, runs it.
pub wakeup-resume :
    (slice_end t : ℕ) (c : Core)
    → IsSound c
    → Waits c.status c
    → c.status t ≡ Status.waiting
    → (c' : Core) × ((scheduler_wakeup_thread slice_end t c >>= scheduler_resume slice_end)
        ≡ some c')
      × IsSound c'
      × Runs slice_end t [] (update c.status t Status.runnable) c'
unfolding scheduler_resume
wakeup-resume slice_end t c v w asleep =
    let w' : Core = woken t c in
    let (c', run, sound, runs) =
      schedule_round-Scheduled slice_end w' (woken-IsSound slice_end t c v asleep) w.current
        w.timer_armed in
    (
      c',
      rw (wakeup_later slice_end t c v asleep (v.held w.current)) run,
      sound,
      subst (λ q. Runs slice_end t q (update c.status t Status.runnable) c') w.queue runs,
    )
