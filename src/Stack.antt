-- ===== src/Stack.antt =====
-- kernel/mem/stack.c: the bump allocator of small stacks. A call makes two atomic additions to the
-- watermark, between which the calls of other cores may come.
mod Examples
use tomat_os.Base.{
  ℕ, suc, ◌+◌, ◌*◌, ◌%◌, ◌^◌, ◌≤◌, ◌<◌, ◌≡◌, refl, Option, none, some, List, [], ◌∷◌, arith, length,
  subst, sym,
}

abbrev pub stack_size : ℕ
stack_size = 32768

abbrev pub small_stacks_addr : ℕ
small_stacks_addr = 18446620378651426816

-- The two additions of a call: the first fetches the bottom of the new stack.
pub data Step : Type 0 where
  fetch : Step
  bump : Step

-- The top of the stack that the step's call returns, and the watermark.
unfoldable pub step : Step → ℕ → Option ℕ × ℕ
step fetch watermark = (some ((watermark + stack_size) % 2 ^ 64), (watermark + stack_size) % 2 ^ 64)
step bump watermark = (none, (watermark + stack_size) % 2 ^ 64)

-- A call that no other call interrupts.
unfoldable pub small_stack_alloc : ℕ → Option ℕ × ℕ
unfolding step
small_stack_alloc watermark =
    let (top, watermark) = step fetch watermark in
    let (_, watermark) = step bump watermark in (top, watermark)

-- The stacks that are returned in a run of steps of all cores.
unfoldable pub stack_tops : List Step → ℕ → List ℕ
unfolding step
stack_tops [] watermark = []
stack_tops (s ∷ steps) watermark =
    let (top, watermark) = step s watermark in
    elim top [ none ↦ stack_tops steps watermark | some t ↦ t ∷ stack_tops steps watermark ]

-- Between `lo` and `hi` the stacks that end at the tops lie one above the other.
abbrev pub IsSpaced : ℕ → List ℕ → ℕ → Type 0
IsSpaced lo [] hi = lo ≤ hi
IsSpaced lo (top ∷ tops) hi = (lo + stack_size ≤ top) × IsSpaced top tops hi

lower_start :
    (lo lo' : ℕ) (tops : List ℕ) (hi : ℕ) → lo' ≤ lo → IsSpaced lo tops hi → IsSpaced lo' tops hi
lower_start lo lo' [] hi le s = omega arith
lower_start lo lo' (t ∷ tops) hi le (h, s) = (omega arith, s)

-- Whatever the order of the steps of all cores is, as long as the additions stay below 2^64 the
-- returned stacks of 32 KB share no byte, and lie between the first watermark and the sum of the
-- additions.
pub stack_tops-IsSpaced :
    (steps : List Step) (watermark : ℕ)
    → watermark + stack_size * length steps < 2 ^ 64
    → IsSpaced watermark (stack_tops steps watermark) (watermark + stack_size * length steps)
unfolding stack_tops step
stack_tops-IsSpaced [] w h = omega arith
stack_tops-IsSpaced (fetch ∷ steps) w h =
    let e : (w + stack_size) % 2 ^ 64 ≡ w + stack_size = omega arith in
    let rest = stack_tops-IsSpaced steps (w + stack_size) (omega arith) in
    let end : w + stack_size + stack_size * length steps ≡ w + stack_size * suc (length steps) =
      omega arith in
    subst (λ t. IsSpaced w (t ∷ stack_tops steps t) (w + stack_size * suc (length steps))) (sym e)
      (omega arith, subst (IsSpaced (w + stack_size) (stack_tops steps (w + stack_size))) end rest)
stack_tops-IsSpaced (bump ∷ steps) w h =
    let e : (w + stack_size) % 2 ^ 64 ≡ w + stack_size = omega arith in
    let rest = stack_tops-IsSpaced steps (w + stack_size) (omega arith) in
    let end : w + stack_size + stack_size * length steps ≡ w + stack_size * suc (length steps) =
      omega arith in
    subst (λ t. IsSpaced w (stack_tops steps t) (w + stack_size * suc (length steps))) (sym e)
      (lower_start (w + stack_size) w (stack_tops steps (w + stack_size))
        (w + stack_size * suc (length steps)) (omega arith)
        (subst (IsSpaced (w + stack_size) (stack_tops steps (w + stack_size))) end rest))
