-- ===== src/Sched/Threads.antt =====
-- kernel/thread/thread.c: the pool of threads, and `thread_create`.
use tomat_os.Base.{
  ℕ, suc, ◌+◌, ◌*◌, ◌-◌, ◌≡◌, ◌≢◌, ◌≤◌, ◌<◌, ◌⊎◌, inl, inr, refl, sym, ◌∙◌, true, false, Option,
  none, some, List, [], ◌∷◌, ◌==◌, arith, Bool-cases, List-cases, update, update_self,
  update-update, has, has-nil, if◌then◌else◌, ◌>>=◌, ltb, ◌^◌,
}
use tomat_os.Sched.Core.{Status, Status-discrete, Core, when, thread_switch_status}
use tomat_os.Sched.Sound.{IsSound, when-yes, when-no, switched, status_kept}

abbrev pub stacks_addr : ℕ
stacks_addr = 18446619828895612928

-- The sizes of a stack with its guard, and of the guard.
abbrev pub size_8mb : ℕ
size_8mb = 2 ^ 23

abbrev pub size_2mb : ℕ
size_2mb = 2 ^ 21

-- The initialization that a thread gets, whether it comes from the free list or is new.
unfoldable pub init_stack : (thread : ℕ) → Core → Core
init_stack thread c =
    let stack_offset = stacks_addr + size_8mb * thread in
    record c {
      stack_start = update c.stack_start thread (stack_offset + size_2mb);
      stack_end = update c.stack_end thread (stack_offset + size_8mb);
    }

-- With no free thread and a full pool, `thread` is NULL, and the write of its stack faults. A thread of
-- the free list is zeroed.
unfoldable pub thread_alloc : Core → Option (ℕ × Core)
thread_alloc c = elim (c.free_threads) [
  | thread ∷ free_threads ↦ some (
    thread,
    init_stack thread (record c {
      free_threads = free_threads;
      status = update c.status thread Status.idle;
      cpu_state = update c.cpu_state thread 0;
    }),
  )
  | [] ↦
      if ltb c.thread_top 65535
      then (do
        let thread = c.thread_top
        c ←
            thread_switch_status thread Status.idle Status.dead
              (record c { thread_top = suc thread })
        some (thread, init_stack thread c))
      else none
]

-- The top of the stack holds `thread_exit`, below it is the frame, of 16 words.
unfoldable pub thread_create : (callback arg : ℕ) → Core → Option (ℕ × Core)
thread_create callback arg c = do
  (thread, c) ← thread_alloc c
  let stack = c.stack_end thread - 8
  c ← when (Status-discrete (c.status thread) Status.dead) c
  c ← thread_switch_status thread Status.dead Status.waiting (record c {
    cpu_state = update c.cpu_state thread (stack - 128);
    frame = update c.frame thread (callback, arg);
  })
  some (thread, c)

-- The threads beyond the pool are untouched, those in use have their part of the area for stacks, above
-- a guard zone.
pub record IsPool (c : Core) : Type 0 where
  pub fresh : (t : ℕ) → c.thread_top ≤ t → c.status t ≡ Status.idle
  pub below : (t : ℕ) → has t c.free_threads ≡ true → t < c.thread_top
  pub stack_start :
      (t : ℕ) → c.status t ≢ Status.idle → c.stack_start t ≡ stacks_addr + size_8mb * t + size_2mb
  pub stack_end :
      (t : ℕ) → c.status t ≢ Status.idle → c.stack_end t ≡ stacks_addr + size_8mb * t + size_8mb

-- The thread that is created: it waits, with its frame on its stack.
abbrev pub created : (callback arg : ℕ) → Core → Core
created callback arg c =
    let t = c.thread_top in
    let stack_offset = stacks_addr + size_8mb * t in
    record c {
      free_threads = [];
      thread_top = suc t;
      status = update c.status t Status.waiting;
      stack_start = update c.stack_start t (stack_offset + size_2mb);
      stack_end = update c.stack_end t (stack_offset + size_8mb);
      cpu_state = update c.cpu_state t (stack_offset + size_8mb - 8 - 128);
      frame = update c.frame t (callback, arg);
    }

module _ (callback arg : ℕ) (c : Core) (v : IsSound c) (p : IsPool c) where
  abbrev allocated : Core
  allocated = init_stack c.thread_top (record c {
    free_threads = [];
    thread_top = suc c.thread_top;
    status = update c.status c.thread_top Status.dead;
  })

  alloc_run :
      c.free_threads ≡ [] → c.thread_top < 65535 → thread_alloc c ≡ some (c.thread_top, allocated)
  unfolding thread_alloc init_stack
  alloc_run e lt =
      let t = c.thread_top in
      let room : ltb t 65535 ≡ true = ground arith in
      let c₁ : Core = record c { thread_top = suc t; free_threads = [] } in
      rw e (rw room (rw (switched t Status.idle Status.dead c₁ (p.fresh t (omega arith))) refl))

  allocated_status : allocated.status c.thread_top ≡ Status.dead
  unfolding init_stack
  allocated_status = update_self c.status c.thread_top Status.dead

  -- A thread of the pool, for the free list is empty.
  create_run :
      c.free_threads ≡ []
      → c.thread_top < 65535
      → thread_create callback arg c ≡ some (c.thread_top, created callback arg c)
  unfolding thread_create init_stack
  create_run e lt =
      let t = c.thread_top in
      let dead = allocated_status in
      let top = update_self c.stack_end t (stacks_addr + size_8mb * t + size_8mb) in
      let twice = update-update c.status t Status.dead Status.waiting in
      let c₂ : Core = record allocated {
        cpu_state = update c.cpu_state t (stacks_addr + size_8mb * t + size_8mb - 8 - 128);
        frame = update c.frame t (callback, arg);
      } in
      rw (alloc_run e lt) (
        rw (when-yes (Status-discrete (allocated.status t) Status.dead) allocated dead)
          (rw top (rw (switched t Status.dead Status.waiting c₂ dead) (rw twice refl))))

  untouched : c.status c.thread_top ≡ Status.idle
  untouched = p.fresh c.thread_top (omega arith)

  created-IsSound : IsSound (created callback arg c)
  created-IsSound =
      let t = c.thread_top in
      record {
        runnable = λ u at.
            status_kept c.status t u Status.idle Status.waiting Status.runnable untouched (λ q. cc)
              (v.runnable u at);
        nodup = v.nodup;
        runs = λ u e.
            status_kept c.status t u Status.idle Status.waiting Status.running untouched (λ q. cc)
              (v.runs u e);
        held = v.held;
        freed = λ u at. absurd (ground (arith, at, has-nil u));
      }

  created-IsPool : IsPool (created callback arg c)
  created-IsPool = record {
    fresh = λ u le.
        let other : (c.thread_top == u) ≡ false = ground arith in
        rw other (p.fresh u (omega (arith, le)));
    below = λ u at. absurd (ground (arith, at, has-nil u));
    stack_start = λ u ne. elim (Bool-cases (c.thread_top == u)) [
      | inl same ↦ (let e : c.thread_top ≡ u = ground arith in rw same (rw e refl))
      | inr other ↦ rw other (p.stack_start u (λ e. ne (rw other e)))
    ];
    stack_end = λ u ne. elim (Bool-cases (c.thread_top == u)) [
      | inl same ↦ (let e : c.thread_top ≡ u = ground arith in rw same (rw e refl))
      | inr other ↦ rw other (p.stack_end u (λ e. ne (rw other e)))
    ];
  }

  -- A thread of the free list is idle, which the code takes for an error.
  reuse_run :
      (t : ℕ) (rest : List ℕ) → c.free_threads ≡ t ∷ rest → thread_create callback arg c ≡ none
  unfolding thread_create thread_alloc init_stack
  reuse_run t rest e =
      let idle = update_self c.status t Status.idle in
      rw e (
        rw
          (when-no (Status-discrete (update c.status t Status.idle t) Status.dead) _
            (λ dead. let x : Status.idle ≡ Status.dead = sym idle ∙ dead in cc))
          refl)

  full_run : c.free_threads ≡ [] → 65535 ≤ c.thread_top → thread_create callback arg c ≡ none
  unfolding thread_create thread_alloc
  full_run e le = let room : ltb c.thread_top 65535 ≡ false = ground arith in rw e (rw room refl)

-- A new thread waits, or the code does not return.
abbrev pub Creates : (callback arg : ℕ) (c : Core) → Type 0
Creates callback arg c =
    ((c.free_threads ≡ [])
      × (c.thread_top < 65535)
      × (thread_create callback arg c ≡ some (c.thread_top, created callback arg c))
      × IsSound (created callback arg c)
      × IsPool (created callback arg c))
    ⊎ (((c.free_threads ≢ []) ⊎ (65535 ≤ c.thread_top)) × (thread_create callback arg c ≡ none))

-- While no thread was freed and the pool is not full, the next thread of the pool is created: it waits,
-- with the callback in its frame and its own stack, and the core stays sound. Once a thread was freed,
-- or the pool is full, the code fails instead of returning a thread or NULL.
pub thread_create-Creates :
    (callback arg : ℕ) (c : Core) → IsSound c → IsPool c → Creates callback arg c
thread_create-Creates callback arg c v p = elim (List-cases c.free_threads) [
  | inr (t, rest, e) ↦ inr (inl (λ no. cc), reuse_run callback arg c v p t rest e)
  | inl e ↦ elim (Bool-cases (ltb c.thread_top 65535)) [
    | inr full ↦
        let le : 65535 ≤ c.thread_top = ground arith in
        inr (inr le, full_run callback arg c v p e le)
    | inl room ↦
        let lt : c.thread_top < 65535 = ground arith in
        inl (
          e,
          lt,
          create_run callback arg c v p e lt,
          created-IsSound callback arg c v p,
          created-IsPool callback arg c v p,
        )
  ]
]
