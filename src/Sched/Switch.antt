-- ===== src/Sched/Switch.antt =====
-- `scheduler_yield`, `scheduler_exit` and `scheduler_park`: the current thread leaves the core.
use tomat_os.Base.{
  ℕ, ◌≡◌, inl, inr, refl, sym, ap, ◌∙◌, true, false, ◌||◌, Option, none, some, List, [], ◌∷◌, ◌++◌,
  ◌==◌, arith, Bool-cases, update, has, has-cons, has-nil, distinct, distinct-cons, distinct-nil,
  subst, update-update,
}
use tomat_os.Sched.Core.{
  Status, Core, scheduler_drop_thread, scheduler_yield_internal, thread_free,
  scheduler_exit_internal, scheduler_schedule, scheduler_yield, scheduler_exit,
  scheduler_preempt_disable,
}
use tomat_os.Sched.Sound.{
  IsSound, Scheduled, switched, status_kept, scheduler_schedule-Scheduled, scheduler_schedule-Kept,
}

has-snoc : (a t : ℕ) (q : List ℕ) → has a (q ++ t ∷ []) ≡ (has a q || (a == t))
has-snoc a t [] = ground (arith, has-cons a t [], has-nil a)
has-snoc a t (x ∷ q) = ground (arith, has-cons a x (q ++ t ∷ []), has-cons a x q, has-snoc a t q)

distinct-snoc :
    (t : ℕ) (q : List ℕ) → has t q ≡ false → distinct q ≡ true → distinct (q ++ t ∷ []) ≡ true
distinct-snoc t [] out nodup = ground (arith, distinct-cons t [], distinct-nil, has-nil t)
distinct-snoc t (x ∷ q) out nodup = ground (
  arith,
  has-cons t x q,
  distinct-cons x q,
  distinct-cons x (q ++ t ∷ []),
  has-snoc x t q,
  distinct-snoc t q,
)

-- The core chose a thread of the queue, or waits.
abbrev pub Chooses :
    (slice_end : ℕ) (queue : List ℕ) (status : ℕ → Status) (code : Option Core) → Type 0
Chooses slice_end queue status code =
    (c' : Core) × (code ≡ some c') × IsSound c' × Scheduled slice_end queue status c'

-- The fields of the thread that exited are zero, and it is on the free list; the other threads keep
-- theirs.
abbrev pub IsFreed : (t : ℕ) (c c' : Core) → Type 0
IsFreed t c c' =
    (c'.stack_start ≡ update c.stack_start t 0)
    × (c'.stack_end ≡ update c.stack_end t 0)
    × (c'.cpu_state ≡ update c.cpu_state t 0)
    × (c'.free_threads ≡ t ∷ c.free_threads)

-- The core chose a thread of its queue, or waits, and the thread that exited is freed.
abbrev pub Exits : (slice_end t : ℕ) (c : Core) (code : Option Core) → Type 0
Exits slice_end t c code =
    (c' : Core) × (code ≡ some c')
    × IsSound c'
    × Scheduled slice_end c.queue (update c.status t Status.idle) c'
    × IsFreed t c c'

-- A thread that is running, and so in no queue, on a core that counts one.
module _ (slice_end t : ℕ) (c : Core) (v : IsSound c) (cur : c.current ≡ some t) where
  pub running : c.status t ≡ Status.running
  running = v.runs t cur

  abbrev without_current : Status → Core
  without_current s = record c { current = none; status = update c.status t s }

  pub not_queued : has t c.queue ≡ false
  not_queued = elim (Bool-cases (has t c.queue)) [
    | inl at ↦ let e : Status.runnable ≡ Status.running = sym (v.runnable t at) ∙ running in cc
    | inr out ↦ out
  ]

  -- The thread is not queued, so the others keep their statuses.
  pub others_runnable :
      (s : Status) (u : ℕ) → has u c.queue ≡ true → update c.status t s u ≡ Status.runnable
  others_runnable s u at =
      status_kept c.status t u Status.running s Status.runnable running (λ q. cc) (v.runnable u at)

  pub others_idle :
      (s : Status) (u : ℕ) → has u c.free_threads ≡ true → update c.status t s u ≡ Status.idle
  others_idle s u at =
      status_kept c.status t u Status.running s Status.idle running (λ q. cc) (v.freed u at)

  abbrev yielded : Core
  yielded = record c {
    current = none;
    status = update c.status t Status.runnable;
    queue = c.queue ++ t ∷ [];
  }

  module _ (count : c.preempt_count ≡ 1) where
    yielded-IsSound : IsSound yielded
    yielded-IsSound = record {
      runnable = λ u at. elim (Bool-cases (t == u)) [
        | inl same ↦ rw same refl
        | inr other ↦ rw other (v.runnable u (ground (arith, at, has-snoc u t c.queue, other)))
      ];
      nodup = distinct-snoc t c.queue not_queued v.nodup;
      runs = λ u e. cc;
      held = λ _ zero_count. absurd (omega (arith, count, zero_count));
      freed = others_idle Status.runnable;
    }

    yield_run : scheduler_yield_internal slice_end c ≡ scheduler_schedule slice_end yielded
    unfolding scheduler_yield_internal scheduler_drop_thread
    yield_run =
        rw count (rw cur (rw (switched t Status.running Status.runnable c running) (rw count refl)))

    pub scheduler_yield_internal-Chooses :
        Chooses slice_end
          (c.queue ++ t ∷ [])
          (update c.status t Status.runnable)
          (scheduler_yield_internal slice_end c)
    scheduler_yield_internal-Chooses =
        rw yield_run (scheduler_schedule-Scheduled slice_end yielded yielded-IsSound refl)

    -- The thread's structure is zeroed when it is freed.
    abbrev exited : Core
    exited = record c {
      current = none;
      status = update (update c.status t Status.dead) t Status.idle;
      stack_start = update c.stack_start t 0;
      stack_end = update c.stack_end t 0;
      cpu_state = update c.cpu_state t 0;
      free_threads = t ∷ c.free_threads;
    }

    exited_status : (u : ℕ) → exited.status u ≡ update c.status t Status.idle u
    exited_status u = ap (λ f. f u) (update-update c.status t Status.dead Status.idle)

    exited-IsSound : IsSound exited
    exited-IsSound = record {
      runnable = λ u at. exited_status u ∙ others_runnable Status.idle u at;
      nodup = v.nodup;
      runs = λ u e. cc;
      held = λ _ zero_count. absurd (omega (arith, count, zero_count));
      freed = λ u at. elim (Bool-cases (t == u)) [
        | inl same ↦ rw same refl
        | inr other ↦
            exited_status u
            ∙ others_idle Status.idle u (ground (arith, at, other, has-cons u t c.free_threads))
      ];
    }

    exit_run : scheduler_exit_internal slice_end c ≡ scheduler_schedule slice_end exited
    unfolding scheduler_exit_internal thread_free
    exit_run =
        rw count (rw cur (rw (switched t Status.running Status.dead c running) (rw count refl)))

    exited-Exits : Exits slice_end t c (scheduler_schedule slice_end exited)
    exited-Exits =
        let (c', run, sound, chosen) =
          scheduler_schedule-Scheduled slice_end exited exited-IsSound refl in
        (
          c',
          run,
          sound,
          subst (λ s. Scheduled slice_end c.queue s c')
              (update-update c.status t Status.dead Status.idle) chosen,
          scheduler_schedule-Kept slice_end exited c' exited-IsSound run,
        )

    pub scheduler_exit_internal-Exits : Exits slice_end t c (scheduler_exit_internal slice_end c)
    scheduler_exit_internal-Exits = rw exit_run exited-Exits

-- A call with preemption disabled once more.
pub disabled-IsSound : (c : Core) → IsSound c → IsSound (scheduler_preempt_disable c)
unfolding scheduler_preempt_disable
disabled-IsSound c v = record {
  runnable = v.runnable;
  nodup = v.nodup;
  runs = v.runs;
  held = λ _ e. absurd (omega (arith, e));
  freed = v.freed;
}

module _ (slice_end t : ℕ) (c : Core) (v : IsSound c) (cur : c.current ≡ some t)
    (count : c.preempt_count ≡ 0) where
  test : (c.preempt_count == 0) ≡ true
  test = ground arith

  -- On a sound core with a current thread and preemption enabled: the thread that yields goes behind the
  -- queue, the first thread of that list runs, and the core stays sound.
  pub scheduler_yield-Chooses :
      Chooses slice_end
        (c.queue ++ t ∷ [])
        (update c.status t Status.runnable)
        (scheduler_yield slice_end c)
  unfolding scheduler_yield scheduler_preempt_disable
  scheduler_yield-Chooses = rw test (
      scheduler_yield_internal-Chooses slice_end t (scheduler_preempt_disable c)
        (disabled-IsSound c v) cur (omega (arith, count)))

  -- On a sound core with a current thread and preemption enabled: the first thread of the queue runs, or
  -- the core waits, and the core stays sound. The thread that exits is idle, its stack and its context
  -- are zeroed, and it stands first on the free list.
  pub scheduler_exit-Exits : Exits slice_end t c (scheduler_exit slice_end c)
  unfolding scheduler_exit scheduler_preempt_disable
  scheduler_exit-Exits = rw test (
      scheduler_exit_internal-Exits slice_end t (scheduler_preempt_disable c) (disabled-IsSound c v)
        cur (omega (arith, count)))
