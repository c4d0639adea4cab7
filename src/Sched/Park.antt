-- ===== src/Sched/Park.antt =====
-- `scheduler_park`, with the callback that runs once the thread has left the core.
use tomat_os.Base.{
  ℕ, ◌+◌, ◌≡◌, ◌⊎◌, inl, inr, refl, sym, ◌∙◌, Bool, true, false, Option, none, some, ◌==◌, arith,
  Bool-cases, update, has, update_self, if◌then◌else◌, ◌>>=◌,
}
use tomat_os.Sched.Core.{
  Status, Core, scheduler_preempt_disable, scheduler_park, scheduler_park_internal,
  scheduler_execute, scheduler_drop_thread, scheduler_schedule, thread_switch_status,
}
use tomat_os.Sched.Sound.{
  IsSound, Runs, Scheduled, switched, status_kept, executed, executed-IsSound,
  scheduler_schedule-Scheduled,
}
use tomat_os.Sched.Switch.{others_runnable, others_idle}

-- The core while the callback runs: the thread is off it, and waits.
abbrev pub parking : (t : ℕ) → Core → Core
parking t c = record c {
  current = none;
  preempt_count = c.preempt_count + 1;
  status = update c.status t Status.waiting;
}

-- What the callback answers. Without one, the thread parks.
abbrev pub answer : Option (Core → Option (Bool × Core)) → Core → Option (Bool × Core)
answer none c = some (true, c)
answer (some callback) c = callback c

-- The thread waits and another one was chosen, or it goes on, with what was left of its slice.
abbrev pub Parks : (slice_end t : ℕ) (ok : Bool) (c₁ : Core) (code : Option Core) → Type 0
Parks slice_end t ok c₁ code =
    (c' : Core) × (code ≡ some c')
    × IsSound c'
    × (((ok ≡ true) × Scheduled slice_end c₁.queue c₁.status c')
        ⊎ ((ok ≡ false) × Runs c₁.timer_deadline t c₁.queue c₁.status c'))

-- The chain after the thread has left.
abbrev after : (slice_end t : ℕ) → Option (Bool × Core) → Option Core
after slice_end t r = do
  (ok, c) ← r
  if ok then scheduler_schedule slice_end c else (do
    c ← thread_switch_status t Status.waiting Status.runnable c
    scheduler_execute slice_end t true c)

-- A callback that refuses leaves the thread waiting, and the thread runs again.
module _ (slice_end t : ℕ) (c : Core) (v : IsSound c) (idle : c.current ≡ none)
    (asleep : c.status t ≡ Status.waiting) where
  abbrev again : Core
  again = record c { status = update c.status t Status.runnable }

  not_queued : has t c.queue ≡ false
  not_queued = elim (Bool-cases (has t c.queue)) [
    | inl at ↦ let e : Status.runnable ≡ Status.waiting = sym (v.runnable t at) ∙ asleep in cc
    | inr out ↦ out
  ]

  again-IsSound : IsSound again
  again-IsSound = record {
    runnable = λ u at.
        status_kept c.status t u Status.waiting Status.runnable Status.runnable asleep (λ q. cc)
          (v.runnable u at);
    nodup = v.nodup;
    runs = λ u e.
        status_kept c.status t u Status.waiting Status.runnable Status.running asleep (λ q. cc)
          (v.runs u e);
    held = v.held;
    freed = λ u at.
        status_kept c.status t u Status.waiting Status.runnable Status.idle asleep (λ q. cc)
          (v.freed u at);
  }

  pub refused-Parks : Parks slice_end t false c (after slice_end t (some (false, c)))
  refused-Parks =
      let at : again.status t ≡ Status.runnable = update_self c.status t Status.runnable in
      (
        _,
        rw (switched t Status.waiting Status.runnable c asleep)
            (executed slice_end t true again at),
        executed-IsSound c.timer_deadline t again again-IsSound idle at not_queued,
        inr (
          refl,
          record {
            current = refl;
            queue = refl;
            preempt_count = refl;
            want_reschedule = refl;
            timer_armed = refl;
            timer_deadline = refl;
            others = λ u other. (let e : (t == u) ≡ false = ground arith in rw e refl);
          },
        ),
      )

after-Parks :
    (slice_end t : ℕ) (ok : Bool) (c : Core)
    → IsSound c
    → c.current ≡ none
    → (ok ≡ false → c.status t ≡ Status.waiting)
    → Parks slice_end t ok c (after slice_end t (some (ok, c)))
after-Parks slice_end t true c v idle asleep =
    let (c', run, sound, next) = scheduler_schedule-Scheduled slice_end c v idle in
    (c', run, sound, inl (refl, next))
after-Parks slice_end t false c v idle asleep = refused-Parks slice_end t c v idle (asleep refl)

module _ (slice_end t : ℕ) (c : Core) (v : IsSound c) (cur : c.current ≡ some t)
    (count : c.preempt_count ≡ 0) where
  pub parking-IsSound : IsSound (parking t c)
  parking-IsSound = record {
    runnable = others_runnable slice_end t c v cur Status.waiting;
    nodup = v.nodup;
    runs = λ u e. cc;
    held = λ _ e. absurd (omega (arith, e));
    freed = others_idle slice_end t c v cur Status.waiting;
  }

  park_run :
      (callback : Option (Core → Option (Bool × Core)))
      → scheduler_park slice_end callback c ≡ after slice_end t (answer callback (parking t c))
  unfolding scheduler_park scheduler_preempt_disable scheduler_park_internal scheduler_drop_thread
  park_run none =
      let test : (c.preempt_count == 0) ≡ true = ground arith in
      let one : (c.preempt_count + 1 == 1) ≡ true = ground arith in
      rw test (
        rw one (
          rw cur (
            rw
              (switched t Status.running Status.waiting (scheduler_preempt_disable c)
                (v.runs t cur))
              refl)))
  park_run (some callback) =
      let test : (c.preempt_count == 0) ≡ true = ground arith in
      let one : (c.preempt_count + 1 == 1) ≡ true = ground arith in
      rw test (
        rw one (
          rw cur (
            rw
              (switched t Status.running Status.waiting (scheduler_preempt_disable c)
                (v.runs t cur))
              refl)))

  -- A running thread that parks, with a callback that answers with a sound core on which no thread
  -- runs: when the answer is true, the next thread of the queue runs or the core waits; when it is
  -- false and the thread still waits, it goes on with what was left of its slice.
  pub scheduler_park-Parks :
      (callback : Option (Core → Option (Bool × Core))) (ok : Bool) (c₁ : Core)
      → answer callback (parking t c) ≡ some (ok, c₁)
      → IsSound c₁
      → c₁.current ≡ none
      → (ok ≡ false → c₁.status t ≡ Status.waiting)
      → Parks slice_end t ok c₁ (scheduler_park slice_end callback c)
  scheduler_park-Parks callback ok c₁ run sound idle asleep =
      let (c', ran, rest, r2) = after-Parks slice_end t ok c₁ sound idle asleep in
      (c', park_run callback ∙ rw run ran, rest, r2)
