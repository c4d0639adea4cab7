-- ===== src/Sched/Examples.antt =====
-- A core with one thread that runs, two in the queue and one that sleeps.
use tomat_os.Base.{
  ℕ, ◌+◌, ◌*◌, ◌≤◌, ◌≡◌, refl, true, false, none, some, [], ◌∷◌, ◌==◌, if◌then◌else◌, arith,
  distinct, has, ◌>>=◌, Bool-cases, inl, inr, subst, has-nil, update,
}
use tomat_os.Virt.Booted.{booted, booted-IsSound, tables_live}
use tomat_os.Phys.Pages.{phys_pages}
use tomat_os.Sched.Core.{
  Status, Core, scheduler_yield, scheduler_exit, scheduler_park, scheduler_wakeup_thread,
  scheduler_resume,
}
use tomat_os.Sched.Sound
use tomat_os.Sched.Sound.{Runs, Waits}
use tomat_os.Sched.Switch.{Exits, scheduler_exit-Exits, Chooses, scheduler_yield-Chooses}
use tomat_os.Sched.Wake.{Wakes, scheduler_wakeup_thread-Wakes, wakeup-resume}
use tomat_os.Sched.Park.{Parks, parking, parking-IsSound, scheduler_park-Parks}
use tomat_os.Sched.Fair.{yields, yields-Runs}
use tomat_os.Sched.Threads.{IsPool, Creates, thread_create-Creates, stacks_addr}
use tomat_os.Sched.Guard.{OwnPage, thread_stack-OwnPage}

abbrev four_statuses : ℕ → Status
four_statuses t =
    if t == 0
    then Status.running
    else if t == 1
    then Status.runnable
    else if t == 2
    then Status.runnable
    else if t == 3
    then Status.waiting
    else Status.idle

abbrev four_threads : (count : ℕ) → Core
four_threads count = record {
  queue = 1 ∷ 2 ∷ [];
  current = some 0;
  preempt_count = count;
  want_reschedule = false;
  parked = false;
  timer_armed = true;
  timer_deadline = 50;
  status = four_statuses;
  free_threads = [];
  thread_top = 4;
  stack_start = λ t. stacks_addr + 8388608 * t + 2097152;
  stack_end = λ t. stacks_addr + 8388608 * t + 8388608;
  cpu_state = λ t. 0;
  frame = λ t. (0, 0);
}

queued_status : (t : ℕ) → has t (1 ∷ 2 ∷ []) ≡ true → four_statuses t ≡ Status.runnable
unfolding has
queued_status t h = elim (Bool-cases (t == 1)) [
  | inl e ↦ (let same : t ≡ 1 = ground arith in rw same refl)
  | inr other ↦ (let same : t ≡ 2 = ground arith in rw same refl)
]

four_threads-IsSound : (count : ℕ) → Sound.IsSound (four_threads count)
unfolding has distinct
four_threads-IsSound count = record {
  runnable = queued_status;
  nodup = refl;
  runs = λ t e. (let same : 0 ≡ t = cc in subst (λ u. four_statuses u ≡ Status.running) same refl);
  held = λ e. absurd cc;
  freed = λ t at. absurd (ground (arith, at, has-nil t));
}

pool_bound : (t : ℕ) → 4 ≤ t → four_statuses t ≡ Status.idle
pool_bound t le =
    let a : (t == 0) ≡ false = ground arith in
    let b : (t == 1) ≡ false = ground arith in
    let c : (t == 2) ≡ false = ground arith in
    let d : (t == 3) ≡ false = ground arith in rw (a, b, c, d) refl

four_threads-IsPool : (count : ℕ) → IsPool (four_threads count)
four_threads-IsPool count = record {
  fresh = pool_bound;
  below = λ t at. absurd (ground (arith, at, has-nil t));
  stack_start = λ t used. refl;
  stack_end = λ t used. refl;
}

scheduler_yield-Chooses_example :
    Chooses 90
      (1 ∷ 2 ∷ 0 ∷ [])
      (update four_statuses 0 Status.runnable)
      (scheduler_yield 90 (four_threads 0))
scheduler_yield-Chooses_example =
    scheduler_yield-Chooses 90 0 (four_threads 0) (four_threads-IsSound 0) refl refl

scheduler_exit-Exits_example : Exits 90 0 (four_threads 0) (scheduler_exit 90 (four_threads 0))
scheduler_exit-Exits_example =
    scheduler_exit-Exits 90 0 (four_threads 0) (four_threads-IsSound 0) refl refl

scheduler_wakeup_thread-Wakes_example : Wakes 90 3 (four_threads 0)
scheduler_wakeup_thread-Wakes_example =
    scheduler_wakeup_thread-Wakes 90 3 (four_threads 0) (four_threads-IsSound 0) refl

-- The callback refuses.
scheduler_park-Parks_example :
    Parks 90 0 false
      (parking 0 (four_threads 0))
      (scheduler_park 90 (some (λ c. some (false, c))) (four_threads 0))
scheduler_park-Parks_example =
    scheduler_park-Parks 90 0 (four_threads 0) (four_threads-IsSound 0) refl refl
      (some (λ c. some (false, c))) false (parking 0 (four_threads 0)) refl
      (parking-IsSound 90 0 (four_threads 0) (four_threads-IsSound 0) refl refl) refl (λ e. refl)

yields-Runs_example :
    (c' : Core) × (yields 2 90 (four_threads 0) ≡ some c')
    × Sound.IsSound c'
    × (c'.current ≡ some 2)
    × (c'.preempt_count ≡ 0)
yields-Runs_example =
    yields-Runs 90 0 2 (1 ∷ []) [] (four_threads 0) (four_threads-IsSound 0) refl refl refl

thread_create-Creates_example : Creates 7 9 (four_threads 0)
thread_create-Creates_example =
    thread_create-Creates 7 9 (four_threads 0) (four_threads-IsSound 0) (four_threads-IsPool 0)

thread_stack-OwnPage_example :
    OwnPage (phys_pages 0) tables_live 1 (stacks_addr + 8388608 + 4194304) (four_threads 0) booted
thread_stack-OwnPage_example =
    thread_stack-OwnPage (phys_pages 0) tables_live 1 (stacks_addr + 8388608 + 4194304)
      (four_threads 0) booted (four_threads-IsPool 0) (omega arith) (λ e. cc) (omega arith)
      (omega arith) booted-IsSound

-- The core waits, and thread 3 sleeps.
abbrev waiting_core : Core
waiting_core = record (four_threads 1) {
  queue = [];
  current = none;
  parked = true;
  timer_armed = false;
  status = λ t. if t == 3 then Status.waiting else Status.idle;
}

waiting_core-IsSound : Sound.IsSound waiting_core
unfolding has distinct
waiting_core-IsSound = record {
  runnable = λ t at. absurd (ground (arith, at, has-nil t));
  nodup = refl;
  runs = λ t e. absurd cc;
  held = λ e z. absurd (omega (arith, z));
  freed = λ t at. absurd (ground (arith, at, has-nil t));
}

wakeup-resume_example :
    (c' : Core) × ((scheduler_wakeup_thread 90 3 waiting_core >>= scheduler_resume 90) ≡ some c')
    × Sound.IsSound c'
    × Runs 90 3 [] (update waiting_core.status 3 Status.runnable) c'
wakeup-resume_example =
    wakeup-resume 90 3 waiting_core waiting_core-IsSound
      (record {
        current = refl;
        queue = refl;
        parked = refl;
        timer_armed = refl;
        others = λ u. refl;
      })
      refl
