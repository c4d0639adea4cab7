-- ===== src/Sched/Core.antt =====
-- kernel/thread/scheduler.c: the scheduler of one core. A call that switches threads is one step, from
-- the thread that makes it to the thread that runs next, or to the core waiting for one.
use tomat_os.Base.{
  ℕ, ◌+◌, ◌-◌, Bool, true, false, ◌&&◌, Option, none, some, List, [], ◌∷◌, ◌++◌, ◌==◌,
  if◌then◌else◌, ◌>>=◌, update,
}

-- `thread_status_t`
pub data Status : Type 0 where
  idle : Status
  runnable : Status
  running : Status
  waiting : Status
  dead : Status

unfoldable pub Status-discrete : Discrete Status
Status-discrete = hlevel

-- The fields of `m_core`, and the threads of thread.c by their ids: their fields, the free list and the
-- size of the pool. `frame` is `rip` and `rdi` of the frame at `cpu_state`.
pub record Core : Type 0 where
  pub queue : List ℕ
  pub current : Option ℕ
  pub preempt_count : ℕ
  pub want_reschedule : Bool
  pub parked : Bool
  pub timer_armed : Bool
  pub timer_deadline : ℕ
  pub status : ℕ → Status
  pub free_threads : List ℕ
  pub thread_top : ℕ
  pub stack_start : ℕ → ℕ
  pub stack_end : ℕ → ℕ
  pub cpu_state : ℕ → ℕ
  pub frame : ℕ → ℕ × ℕ

abbrev pub when {ℓ} : {A : Type ℓ} {P : Type 0} → Dec P → A → Option A
when (yes _) a = some a
when (no _) a = none

-- A status other than the awaited one fails an assertion, or is awaited for ever: nothing else runs.
unfoldable pub thread_switch_status :
    (thread : ℕ) (old_value new_value : Status) → Core → Option Core
thread_switch_status thread old_value new_value c =
    when (Status-discrete (c.status thread) old_value)
      (record c { status = update c.status thread new_value })

-- `thread_free`: the structure is zeroed, so that its status is `THREAD_STATUS_IDLE`.
unfoldable pub thread_free : (thread : ℕ) → Core → Core
thread_free thread c = record c {
  status = update c.status thread Status.idle;
  stack_start = update c.stack_start thread 0;
  stack_end = update c.stack_end thread 0;
  cpu_state = update c.cpu_state thread 0;
  free_threads = thread ∷ c.free_threads;
}

-- `slice_end` is what `tsc_ms_deadline(10)` returns.
unfoldable pub scheduler_execute : (slice_end thread : ℕ) (inherit_time : Bool) → Core → Option Core
scheduler_execute slice_end thread inherit_time c =
    thread_switch_status thread Status.runnable Status.running (record c {
      want_reschedule = false;
      preempt_count = 0;
      timer_armed = true;
      timer_deadline = if inherit_time then c.timer_deadline else slice_end;
      current = some thread;
    })

-- A round of the loop. With an empty queue the core parks, and waits in this state.
unfoldable pub schedule_round : (slice_end : ℕ) → Core → Option Core
schedule_round slice_end c = elim (c.queue) [
  | [] ↦ some (record c { parked = true })
  | thread ∷ queue ↦
      scheduler_execute slice_end thread false (record c { parked = false; queue = queue })
]

unfoldable pub scheduler_schedule : (slice_end : ℕ) → Core → Option Core
scheduler_schedule slice_end c = schedule_round slice_end (record c { timer_armed = false })

-- The loop of a core that waits goes on once the core is not parked any more.
unfoldable pub scheduler_resume : (slice_end : ℕ) → Core → Option Core
scheduler_resume slice_end c = if c.parked then some c else schedule_round slice_end c

unfoldable pub scheduler_drop_thread : Core → Core
scheduler_drop_thread c = record c { current = none }

unfoldable pub scheduler_yield_internal : (slice_end : ℕ) → Core → Option Core
scheduler_yield_internal slice_end c =
    if c.preempt_count == 1
    then (elim (c.current) [
      | none ↦ none
      | some current ↦ (do
        c ← thread_switch_status current Status.running Status.runnable c
        let c = scheduler_drop_thread c
        scheduler_schedule slice_end (record c { queue = c.queue ++ current ∷ [] }))
    ])
    else none

-- The callback runs on the scheduler's stack, and may change the state; it says whether to park.
unfoldable pub scheduler_park_internal :
    (slice_end : ℕ) → Option (Core → Option (Bool × Core)) → Core → Option Core
scheduler_park_internal slice_end callback c =
    if c.preempt_count == 1
    then (elim (c.current) [
      | none ↦ none
      | some current ↦ (do
        c ← thread_switch_status current Status.running Status.waiting c
        let c = scheduler_drop_thread c
        elim callback [
          | none ↦ scheduler_schedule slice_end c
          | some park_callback ↦ (do
            (ok, c) ← park_callback c
            if ok then scheduler_schedule slice_end c else (do
              c ← thread_switch_status current Status.waiting Status.runnable c
              scheduler_execute slice_end current true c))
        ])
    ])
    else none

unfoldable pub scheduler_exit_internal : (slice_end : ℕ) → Core → Option Core
scheduler_exit_internal slice_end c =
    if c.preempt_count == 1
    then (elim (c.current) [
      | none ↦ none
      | some thread ↦ (do
        c ← thread_switch_status thread Status.running Status.dead c
        scheduler_schedule slice_end (thread_free thread (record c { current = none })))
    ])
    else none

unfoldable pub scheduler_preempt_disable : Core → Core
scheduler_preempt_disable c = record c { preempt_count = c.preempt_count + 1 }

unfoldable pub scheduler_preempt_enable : (slice_end : ℕ) → Core → Option Core
scheduler_preempt_enable slice_end c =
    if c.preempt_count == 1 && c.want_reschedule
    then scheduler_yield_internal slice_end c
    else if c.preempt_count == 0
    then none
    else some (record c { preempt_count = c.preempt_count - 1 })

-- `scheduler_yield`, `scheduler_park` and `scheduler_exit` want a thread that can be preempted.
unfoldable pub scheduler_yield : (slice_end : ℕ) → Core → Option Core
unfolding scheduler_preempt_disable
scheduler_yield slice_end c =
    if c.preempt_count == 0
    then scheduler_yield_internal slice_end (scheduler_preempt_disable c)
    else none

unfoldable pub scheduler_park :
    (slice_end : ℕ) → Option (Core → Option (Bool × Core)) → Core → Option Core
unfolding scheduler_preempt_disable
scheduler_park slice_end callback c =
    if c.preempt_count == 0
    then scheduler_park_internal slice_end callback (scheduler_preempt_disable c)
    else none

unfoldable pub scheduler_exit : (slice_end : ℕ) → Core → Option Core
unfolding scheduler_preempt_disable
scheduler_exit slice_end c =
    if c.preempt_count == 0
    then scheduler_exit_internal slice_end (scheduler_preempt_disable c)
    else none

unfoldable pub scheduler_reschedule : (slice_end : ℕ) → Core → Option Core
unfolding scheduler_preempt_disable
scheduler_reschedule slice_end c =
    if c.preempt_count == 0
    then (elim (c.current) [
      | none ↦ none
      | some _ ↦ scheduler_yield_internal slice_end (scheduler_preempt_disable c)
    ])
    else some (record c { want_reschedule = true; parked = false })

unfoldable pub scheduler_wakeup_thread : (slice_end thread : ℕ) → Core → Option Core
unfolding scheduler_preempt_disable
scheduler_wakeup_thread slice_end thread c = do
  c ← thread_switch_status thread Status.waiting Status.runnable (scheduler_preempt_disable c)
  c ← scheduler_reschedule slice_end (record c { queue = thread ∷ c.queue })
  scheduler_preempt_enable slice_end c

unfoldable pub scheduler_start_per_core : (slice_end : ℕ) → Core → Option Core
scheduler_start_per_core slice_end c =
    if c.preempt_count == 1 then scheduler_schedule slice_end c else none
