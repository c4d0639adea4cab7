-- ===== src/Stack/Examples.antt =====
-- Two cores that allocate small stacks at the same time.
use tomat_os.Base.{◌+◌, ◌*◌, ◌≡◌, refl, some, List, [], ◌∷◌, arith, length}
use tomat_os.Stack.{
  Step, IsSpaced, stack_tops, stack_tops-IsSpaced, step, small_stack_alloc, small_stacks_addr,
  stack_size,
}

abbrev two_cores : List Step
two_cores = Step.fetch ∷ Step.fetch ∷ Step.bump ∷ Step.bump ∷ []

stack_tops-IsSpaced_example :
    IsSpaced small_stacks_addr
      (stack_tops two_cores small_stacks_addr)
      (small_stacks_addr + stack_size * length two_cores)
stack_tops-IsSpaced_example = stack_tops-IsSpaced two_cores small_stacks_addr (omega arith)

-- One call moves the watermark by 64 KB, for a stack of 32 KB.
small_stack_alloc_run :
    small_stack_alloc small_stacks_addr
    ≡ (some (small_stacks_addr + stack_size), small_stacks_addr + 2 * stack_size)
unfolding small_stack_alloc step
small_stack_alloc_run = refl
