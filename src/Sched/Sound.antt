-- ===== src/Sched/Sound.antt =====
-- The state of a core between two calls of the scheduler, and the choice of the next thread.
use tomat_os.Base.{
  Option, some-inj, ℕ, ◌≡◌, ◌≢◌, inl, inr, refl, sym, ap, ◌∙◌, Bool, true, false, none, some, List,
  [], ◌∷◌, ◌==◌, arith, Bool-cases, List-cases, update, has, has-cons, has-head, distinct,
  distinct-cons, subst, update_self, if◌then◌else◌,
}
use tomat_os.Sched.Core.{
  Status, Status-discrete, Core, when, thread_switch_status, scheduler_execute, schedule_round,
  scheduler_schedule,
}

-- The queue holds runnable threads, each of them once, and the current thread runs. The core switches
-- no threads while it has none.
pub record IsSound (c : Core) : Type 0 where
  pub runnable : (t : ℕ) → has t c.queue ≡ true → c.status t ≡ Status.runnable
  pub nodup : distinct c.queue ≡ true
  pub runs : (t : ℕ) → c.current ≡ some t → c.status t ≡ Status.running
  pub held : c.current ≡ none → c.preempt_count ≢ 0
  pub freed : (t : ℕ) → has t c.free_threads ≡ true → c.status t ≡ Status.idle

-- The thread runs with a slice to the given time, the queue is the rest, and all other threads have the
-- given statuses.
pub record Runs (slice_end thread : ℕ) (rest : List ℕ) (status : ℕ → Status) (c : Core)
    : Type 0 where
  pub current : c.current ≡ some thread
  pub queue : c.queue ≡ rest
  pub preempt_count : c.preempt_count ≡ 0
  pub want_reschedule : c.want_reschedule ≡ false
  pub timer_armed : c.timer_armed ≡ true
  pub timer_deadline : c.timer_deadline ≡ slice_end
  pub others : (u : ℕ) → u ≢ thread → c.status u ≡ status u

-- The core waits for a thread, with no timer.
pub record Waits (status : ℕ → Status) (c : Core) : Type 0 where
  pub current : c.current ≡ none
  pub queue : c.queue ≡ []
  pub parked : c.parked ≡ true
  pub timer_armed : c.timer_armed ≡ false
  pub others : (u : ℕ) → c.status u ≡ status u

-- The first thread of the queue runs, or the core waits when there is none.
abbrev pub Scheduled : (slice_end : ℕ) → List ℕ → (ℕ → Status) → Core → Type 0
Scheduled slice_end [] status c = Waits status c
Scheduled slice_end (thread ∷ rest) status c = Runs slice_end thread rest status c

pub when-yes {ℓ} : {A : Type ℓ} {P : Type 0} (d : Dec P) (a : A) → P → when d a ≡ some a
when-yes (yes _) a p = refl
when-yes (no n) a p = absurd (n p)

pub when-no {ℓ} : {A : Type ℓ} {P : Type 0} (d : Dec P) (a : A) → ¬ P → when d a ≡ none
when-no (yes p) a n = absurd (n p)
when-no (no _) a n = refl

pub switched :
    (thread : ℕ) (old new : Status) (c : Core)
    → c.status thread ≡ old
    → thread_switch_status thread old new c
      ≡ some (record c { status = update c.status thread new })
unfolding thread_switch_status
switched thread old new c e = when-yes (Status-discrete (c.status thread) old) _ e

-- A thread in another status than the one that is switched keeps it.
pub status_kept :
    (f : ℕ → Status) (thread t : ℕ) (old new s : Status)
    → f thread ≡ old
    → old ≢ s
    → f t ≡ s
    → update f thread new t ≡ s
status_kept f thread t old new s e ne at = elim (Bool-cases (thread == t)) [
  | inl same ↦ let eq : thread ≡ t = ground arith in absurd (ne (sym e ∙ ap f eq ∙ at))
  | inr other ↦ rw other at
]

-- A runnable thread is executed.
pub executed :
    (slice_end thread : ℕ) (inherit_time : Bool) (c : Core)
    → c.status thread ≡ Status.runnable
    → scheduler_execute slice_end thread inherit_time c
      ≡ some (record c {
        want_reschedule = false;
        preempt_count = 0;
        timer_armed = true;
        timer_deadline = if inherit_time then c.timer_deadline else slice_end;
        current = some thread;
        status = update c.status thread Status.running;
      })
unfolding scheduler_execute
executed slice_end thread inherit_time c e = switched thread Status.runnable Status.running _ e

-- A core that executes a thread that is not in the queue is sound.
pub executed-IsSound :
    (slice_end thread : ℕ) (c : Core)
    → IsSound c
    → c.current ≡ none
    → c.status thread ≡ Status.runnable
    → has thread c.queue ≡ false
    → IsSound (record c {
      want_reschedule = false;
      preempt_count = 0;
      timer_armed = true;
      timer_deadline = slice_end;
      current = some thread;
      status = update c.status thread Status.running;
    })
executed-IsSound slice_end thread c v idle e out = record {
  runnable = λ t at. elim (Bool-cases (thread == t)) [
    | inl same ↦ absurd (ground (arith, at, out, same))
    | inr other ↦ rw other (v.runnable t at)
  ];
  nodup = v.nodup;
  runs = λ t same. (let eq : thread ≡ t = cc in rw eq (update_self c.status t Status.running));
  held = λ no. cc;
  freed = λ t at.
      status_kept c.status thread t Status.runnable Status.running Status.idle e (λ q. cc)
        (v.freed t at);
}

-- A list of distinct threads without its first one, which does not stand in the rest.
tail_of :
    (t : ℕ) (rest : List ℕ)
    → distinct (t ∷ rest) ≡ true
    → (has t rest ≡ false) × (distinct rest ≡ true)
tail_of t rest h =
    (ground (arith, sym (distinct-cons t rest) ∙ h), ground (arith, sym (distinct-cons t rest) ∙ h))

-- `IsSound` of a core that is about to choose.
with_queue :
    (slice_end : ℕ) (status : ℕ → Status) (c : Core) {q q' : List ℕ}
    → q ≡ q'
    → Scheduled slice_end q' status c
    → Scheduled slice_end q status c
with_queue slice_end status c e = subst (λ q. Scheduled slice_end q status c) (sym e)

module _ (slice_end : ℕ) (c : Core) (v : IsSound c) (idle : c.current ≡ none)
    (off : c.timer_armed ≡ false) where
  round_empty : c.queue ≡ [] → schedule_round slice_end c ≡ some (record c { parked = true })
  unfolding schedule_round
  round_empty e = rw e refl

  round_next :
      (t : ℕ) (rest : List ℕ)
      → c.queue ≡ t ∷ rest
      → schedule_round slice_end c
        ≡ scheduler_execute slice_end t false (record c { parked = false; queue = rest })
  unfolding schedule_round
  round_next t rest e = rw e refl

  parked-IsSound : IsSound (record c { parked = true })
  parked-IsSound = record {
    runnable = v.runnable;
    nodup = v.nodup;
    runs = v.runs;
    held = v.held;
    freed = v.freed;
  }

  taken-IsSound :
      (t : ℕ) (rest : List ℕ)
      → c.queue ≡ t ∷ rest
      → IsSound (record c { parked = false; queue = rest })
  taken-IsSound t rest e = record {
    runnable = λ u at. v.runnable u (ap (has u) e ∙ has-cons u t rest ∙ ground (arith, at));
    nodup = (tail_of t rest (sym (ap distinct e) ∙ v.nodup)).1;
    runs = v.runs;
    held = v.held;
    freed = v.freed;
  }

  -- A round runs the first thread of the queue, or parks.
  pub schedule_round-Scheduled :
      (c' : Core) × (schedule_round slice_end c ≡ some c')
      × IsSound c'
      × Scheduled slice_end c.queue c.status c'
  schedule_round-Scheduled = elim (List-cases c.queue) [
    | inl e ↦ (
      record c { parked = true },
      round_empty e,
      parked-IsSound,
      with_queue slice_end c.status _ e record {
        current = idle;
        queue = e;
        parked = refl;
        timer_armed = off;
        others = λ u. refl;
      },
    )
    | inr (t, rest, e) ↦
        let at : c.status t ≡ Status.runnable = v.runnable t (ap (has t) e ∙ has-head t rest) in
        (
          _,
          round_next t rest e ∙ executed slice_end t false _ at,
          executed-IsSound slice_end t _ (taken-IsSound t rest e) idle at
              (tail_of t rest (sym (ap distinct e) ∙ v.nodup)).0,
          with_queue slice_end c.status _ e record {
            current = refl;
            queue = refl;
            preempt_count = refl;
            want_reschedule = refl;
            timer_armed = refl;
            timer_deadline = refl;
            others = λ u other. (let e : (t == u) ≡ false = ground arith in rw e refl);
          },
        )
  ]

-- The threads' stacks and contexts and the free list are the same.
abbrev pub Kept : Core → Core → Type 0
Kept c c' =
    (c'.stack_start ≡ c.stack_start)
    × (c'.stack_end ≡ c.stack_end)
    × (c'.cpu_state ≡ c.cpu_state)
    × (c'.free_threads ≡ c.free_threads)

-- Choosing a thread touches no thread's structure but for the status.
pub scheduler_schedule-Kept :
    (slice_end : ℕ) (c c' : Core) → IsSound c → scheduler_schedule slice_end c ≡ some c' → Kept c c'
unfolding scheduler_schedule schedule_round
scheduler_schedule-Kept slice_end c c' v run = elim (List-cases c.queue) [
  | inl e ↦
      let ran : some (record c { timer_armed = false; parked = true }) ≡ some c' =
        subst
          (λ q.
            elim q as (λ _. Option Core) [
              | [] ↦ some (record c { timer_armed = false; parked = true })
              | thread ∷ queue ↦
                  scheduler_execute slice_end thread false
                    (record c { timer_armed = false; parked = false; queue = queue })
            ]
            ≡ some c')
          e run in
      let same : record c { timer_armed = false; parked = true } ≡ c' = cc in
      subst (Kept c) same (refl, refl, refl, refl)
  | inr (t, rest, e) ↦
      let at : c.status t ≡ Status.runnable = v.runnable t (ap (has t) e ∙ has-head t rest) in
      let ran =
        subst
          (λ q.
            elim q as (λ _. Option Core) [
              | [] ↦ some (record c { timer_armed = false; parked = true })
              | thread ∷ queue ↦
                  scheduler_execute slice_end thread false
                    (record c { timer_armed = false; parked = false; queue = queue })
            ]
            ≡ some c')
          e run in
      let same =
        sym (
          executed slice_end t false
            (record c { timer_armed = false; parked = false; queue = rest }) at)
        ∙ ran in
      subst (Kept c) (some-inj same) (refl, refl, refl, refl)
]

-- `scheduler_schedule` runs the first thread of the queue, or leaves the core waiting.
pub scheduler_schedule-Scheduled :
    (slice_end : ℕ) (c : Core)
    → IsSound c
    → c.current ≡ none
    → (c' : Core) × (scheduler_schedule slice_end c ≡ some c')
      × IsSound c'
      × Scheduled slice_end c.queue c.status c'
unfolding scheduler_schedule
scheduler_schedule-Scheduled slice_end c v idle =
    schedule_round-Scheduled slice_end (record c { timer_armed = false })
      (record {
        runnable = v.runnable;
        nodup = v.nodup;
        runs = v.runs;
        held = v.held;
        freed = v.freed;
      })
      idle refl
