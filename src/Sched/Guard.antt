-- ===== src/Sched/Guard.antt =====
-- The stacks of the threads, and the page faults on them.
use tomat_os.Base.{
  ℕ, Bool-cases, inl, inr, ltb, subst, ◌-◌, ◌/◌, if◌then◌else◌, ◌+◌, ◌*◌, ◌≤◌, ◌<◌, ◌≡◌, ◌≢◌, ◌||◌,
  Bool, true, false, refl, arith,
}
use tomat_os.Virt.PageFault.{is_on_demand, in_guard}
use tomat_os.Virt.Pages.{PageAllocator, direct_map_offset}
use tomat_os.Virt.Tables.{Space}
use tomat_os.Virt.Map.{IsSound}
use tomat_os.Virt.PageFault.{virt_handle_page_fault}
use tomat_os.Virt.Demand.{Handles, virt_handle_page_fault-Handles}
use tomat_os.Sched.Core.{Core, Status}
use tomat_os.Sched.Threads.{IsPool, stacks_addr, size_8mb, size_2mb}

module _ (t addr : ℕ) (lt : t < 65535) (from : stacks_addr + size_8mb * t + size_2mb ≤ addr)
    (to : addr < stacks_addr + size_8mb * t + size_8mb) where
  on_demand : is_on_demand addr ≡ true
  on_demand = ground arith

  no_guard : in_guard addr ≡ false
  no_guard = ground arith

or_true : {a : Bool} (b : Bool) → a ≡ true → (a || b) ≡ true
or_true b e = rw e refl

in_pool : (t : ℕ) (c : Core) → IsPool c → c.status t ≢ Status.idle → t < c.thread_top
in_pool t c p used = elim (Bool-cases (ltb t c.thread_top)) [
  | inl lt ↦ ground arith
  | inr above ↦ absurd (used (p.fresh t (ground arith)))
]

-- The page fault on the stack, and the stacks of the other threads.
abbrev pub OwnPage :
    (A : PageAllocator) (live : ℕ → Bool) (t addr : ℕ) (c : Core) (s : Space A.State) → Type 0
OwnPage A live t addr c s =
    Handles A live addr s (λ frame. live frame ≡ false) (virt_handle_page_fault A addr s)
    × ((u : ℕ)
        → c.status u ≢ Status.idle
        → u ≢ t
        → c.stack_start u ≤ addr
        → ¬ (addr < c.stack_end u))

-- A page fault on the stack of a thread of a pool of at most 65535 threads, with sound page tables, is
-- taken for one to be handled on demand: the handler returns true with the page mapped writeable to a new
-- frame, or false, and then the allocator had no page left and no mapping changed. The address is on the stack of no other thread in use.
pub thread_stack-OwnPage :
    (A : PageAllocator) (live : ℕ → Bool) (t addr : ℕ) (c : Core) (s : Space A.State)
    → IsPool c
    → c.thread_top ≤ 65535
    → c.status t ≢ Status.idle
    → c.stack_start t ≤ addr
    → addr < c.stack_end t
    → IsSound A live s
    → OwnPage A live t addr c s
thread_stack-OwnPage A live t addr c s p most used from to v =
    let lt : t < c.thread_top = in_pool t c p used in
    let start = p.stack_start t used in
    let end = p.stack_end t used in
    let lower : stacks_addr + size_8mb * t + size_2mb ≤ addr = omega (arith, from, start) in
    let upper : addr < stacks_addr + size_8mb * t + size_8mb = omega (arith, to, end) in
    let few : t < 65535 = omega (arith, lt, most) in
    let demand = on_demand t addr few lower upper in
    (
      subst
          (λ b.
            Handles A live addr s
              (λ frame. if b then live frame ≡ false else frame ≡ (addr - direct_map_offset) / 4096)
              (virt_handle_page_fault A addr s))
          demand
          (virt_handle_page_fault-Handles addr s v (no_guard t addr few lower upper)
            (or_true _ demand)),
      λ u in_use other low high. absurd (
          omega (
            arith,
            p.stack_start u in_use,
            p.stack_end u in_use,
            other,
            low,
            high,
            from,
            to,
            start,
            end,
          )),
    )
