-- ===== src/String/Move.antt =====
-- `memmove`.
use tomat_os.Base.{
  ℕ, zero, suc, ◌+◌, ◌-◌, ◌*◌, ◌^◌, ◌≤◌, ◌<◌, ◌≡◌, ◌⊎◌, inl, inr, refl, ap, ◌∙◌, true, false, ◌&&◌,
  ◌||◌, arith, Bool-cases, leb, ltb, ◌==◌, if◌then◌else◌, Option, some,
}
use tomat_os.String.{rep_movsb, back, move_down, memmove}
use tomat_os.String.Copy.{moved, rep_movsb-moved}

-- The top of the buffer is moved, from the byte `n` on; the tail is the distance of the two buffers.
abbrev top_moved : (src tail n whole : ℕ) → (ℕ → ℕ) → ℕ → ℕ
top_moved src tail n whole m a =
    if leb (src + tail + n) a && ltb a (src + tail + whole) then m (a - tail) else m a

round-top_moved :
    (src tail n whole : ℕ) (m c : ℕ → ℕ) (a : ℕ)
    → ((b : ℕ) → c b ≡ top_moved src tail n whole m b)
    → tail ≤ n
    → n ≤ whole
    → rep_movsb (src + tail + (n - tail)) (src + (n - tail)) tail c a
      ≡ top_moved src tail (n - tail) whole m a
round-top_moved src tail n whole m c a is low high =
    let copied =
      rep_movsb-moved (src + tail + (n - tail)) (src + (n - tail)) tail c a (inr (omega arith)) in
    copied ∙ (elim (Bool-cases (leb (src + tail + (n - tail)) a)) [
      | inr before ↦ ground (arith, before, is a, low, high)
      | inl behind ↦
          let from : c (src + (n - tail) + (a - (src + tail + (n - tail)))) ≡ c (a - tail) =
            ap c (ground arith) in
          ground (arith, behind, is a, from, is (a - tail), low, high)
    ])

-- What the loop leaves: `r` bytes, copied one tail too low.
abbrev pub Left : (src tail r whole : ℕ) (m : ℕ → ℕ) → Option (ℕ → ℕ) → Type 0
Left src tail r whole m code =
    (c : ℕ → ℕ) × (code ≡ some (rep_movsb (src + r) (back (src + r) tail) r c))
    × ((a : ℕ) → c a ≡ top_moved src tail r whole m a)

module _ (src tail r whole : ℕ) (m : ℕ → ℕ) (some_tail : 0 < tail) (some_left : 0 < r)
    (at_most : r ≤ tail) where
  move_down-Left :
      (k fuel n : ℕ) (c : ℕ → ℕ)
      → n ≡ r + suc k * tail
      → n ≤ fuel
      → n ≤ whole
      → ((b : ℕ) → c b ≡ top_moved src tail n whole m b)
      → Left src tail r whole m
          (move_down fuel (src + tail + (n - tail)) (src + (n - tail)) tail n c)
  unfolding move_down
  move_down-Left k zero n c e enough fits is = absurd (omega (arith, e, enough, some_left))
  move_down-Left zero (suc fuel) n c e enough fits is =
      let left : n - tail ≡ r = omega (arith, e) in
      let done : ltb tail (n - tail) ≡ false = ground arith in
      let not_empty : (n - tail == 0) ≡ false = ground arith in
      let lower : back (src + tail + (n - tail)) tail ≡ src + r = ground arith in
      let down : back (src + (n - tail)) tail ≡ back (src + r) tail =
        ap (λ x. back (src + x) tail) left in
      let c' : ℕ → ℕ = rep_movsb (src + tail + (n - tail)) (src + (n - tail)) tail c in
      (
        c',
        rw (done, not_empty, lower, down)
            (ap (λ x. some (rep_movsb (src + r) (back (src + r) tail) x c')) left),
        λ a.
            round-top_moved src tail n whole m c a is (omega (arith, left, e, some_left)) fits
            ∙ ap (λ x. top_moved src tail x whole m a) left,
      )
  move_down-Left (suc k) (suc fuel) n c e enough fits is =
      let left : n - tail ≡ r + suc k * tail = omega (arith, e) in
      let more : ltb tail (n - tail) ≡ true = ground (arith, left, some_left) in
      let lower : back (src + tail + (n - tail)) tail ≡ src + tail + (n - tail - tail) =
        ground (arith, left) in
      let down : back (src + (n - tail)) tail ≡ src + (n - tail - tail) = ground (arith, left) in
      let c' : ℕ → ℕ = rep_movsb (src + tail + (n - tail)) (src + (n - tail)) tail c in
      let (c'', run, leaves) =
        move_down-Left k fuel (n - tail) c' left (omega (arith, enough, some_tail))
          (omega (arith, fits))
          (λ b. round-top_moved src tail n whole m c b is (omega (arith, e)) fits) in
      let step : move_down (suc fuel) (src + tail + (n - tail)) (src + (n - tail)) tail n c
          ≡ move_down fuel (src + tail + (n - tail - tail)) (src + (n - tail - tail)) tail
              (n - tail) c' =
        rw (more, lower, down) refl in
      (c'', step ∙ run, leaves)

-- The start of the loop.
module _ (dest src n : ℕ) (m : ℕ → ℕ) (above : src < dest) (inside : dest < src + n) where
  tail : ℕ
  tail = dest - src

  memmove_run :
      memmove dest src n m
      ≡ move_down n
          (src + (dest - src) + (n - (dest - src)))
          (src + (n - (dest - src)))
          (dest - src)
          n
          m
  unfolding memmove
  memmove_run =
      let not_same : (n == 0 || dest == src) ≡ false = ground arith in
      let overlap : (ltb src dest && ltb dest (src + n)) ≡ true = ground arith in
      let split : dest ≡ src + (dest - src) = omega arith in
      rw (not_same, overlap)
        (ap (λ d. move_down n (d + (n - (dest - src))) (src + (n - (dest - src))) (dest - src) n m)
          split)

  pub memmove-Left :
      (k r : ℕ)
      → n ≡ r + suc k * (dest - src)
      → 0 < r
      → r ≤ dest - src
      → Left src (dest - src) r n m (memmove dest src n m)
  memmove-Left k r e some_left at_most = rw memmove_run (
      move_down-Left src (dest - src) r n m (omega arith) some_left at_most k n n m e (omega arith)
        (omega arith) (λ b. ground arith))

-- The buffers do not overlap, or the destination is the lower one, or their distance divides the size.
abbrev pub IsMovable : (dest src n : ℕ) → Type 0
IsMovable dest src n = (dest ≤ src) ⊎ (src + n ≤ dest) ⊎ ((k : ℕ) × (n ≡ k * (dest - src)))

-- The result is the memory with the bytes of the source, as they were before, at the destination.
abbrev pub Moves : (dest src n : ℕ) (m : ℕ → ℕ) → Type 0
Moves dest src n m =
    (m' : ℕ → ℕ) × (memmove dest src n m ≡ some m') × ((a : ℕ) → m' a ≡ moved dest src n m a)

module _ (dest src n : ℕ) (m : ℕ → ℕ) where
  memmove_nothing : (n == 0 || dest == src) ≡ true → Moves dest src n m
  unfolding memmove
  memmove_nothing e = (
    m,
    rw e refl,
    λ a. elim (Bool-cases (leb dest a && ltb a (dest + n))) [
      | inr outside ↦ rw outside refl
      | inl within ↦ rw within (ap m (ground (arith, e, within)))
    ],
  )

  memmove_up :
      (n == 0 || dest == src) ≡ false → (dest ≤ src) ⊎ (src + n ≤ dest) → Moves dest src n m
  unfolding memmove
  memmove_up e apart =
      let plain : (ltb src dest && ltb dest (src + n)) ≡ false = ground (arith, apart) in
      (rep_movsb dest src n m, rw (e, plain) refl, λ a. rep_movsb-moved dest src n m a apart)

  -- The last copy, of a whole tail.
  last-moved :
      (tail : ℕ) (c : ℕ → ℕ)
      → ((b : ℕ) → c b ≡ top_moved src tail tail n m b)
      → src + tail ≡ dest
      → tail ≤ n
      → (a : ℕ) → rep_movsb (src + tail) (back (src + tail) tail) tail c a ≡ moved dest src n m a
  last-moved tail c is top low a =
      let lower : back (src + tail) tail ≡ src = ground arith in
      rep_movsb-moved (src + tail) (back (src + tail) tail) tail c a (inr (omega (arith, lower)))
      ∙ (elim (Bool-cases (leb (src + tail) a)) [
        | inr before ↦ ground (arith, before, is a, top)
        | inl behind ↦
            let old : c (back (src + tail) tail + (a - (src + tail))) ≡ c (a - tail) =
              ap c (ground (arith, lower, behind)) in
            let far : m (a - tail) ≡ m (src + (a - dest)) = ap m (ground (arith, top, behind)) in
            ground (arith, behind, is a, is (a - tail), old, far, top, low)
      ])

  memmove_down : (k : ℕ) → src < dest → dest < src + n → n ≡ k * (dest - src) → Moves dest src n m
  memmove_down zero above inside e = absurd (omega (arith, above, inside, e))
  memmove_down (suc zero) above inside e = absurd (omega (arith, above, inside, e))
  memmove_down (suc (suc k)) above inside e =
      let tail : ℕ = dest - src in
      let (c, run, leaves) =
        memmove-Left dest src n m above inside k tail (omega (arith, e)) (omega arith)
          (omega arith) in
      (
        rep_movsb (src + tail) (back (src + tail) tail) tail c,
        run,
        last-moved tail c leaves (omega arith) (omega (arith, e)),
      )

  -- When the buffers do not overlap, or the destination is the lower one, or the distance of the buffers
  -- divides the size, memmove returns, and every byte of the destination is the byte of the source as
  -- it was before, and no other byte has changed.
  pub memmove-Moves : IsMovable dest src n → Moves dest src n m
  memmove-Moves how = elim (Bool-cases (n == 0 || dest == src)) [
    | inl nothing ↦ memmove_nothing nothing
    | inr work ↦ elim how [
      | inl lower ↦ memmove_up work (inl lower)
      | inr (inl apart) ↦ memmove_up work (inr apart)
      | inr (inr (k, e)) ↦ elim (Bool-cases (ltb src dest && ltb dest (src + n))) [
        | inl overlap ↦ memmove_down k (ground arith) (ground arith) e
        | inr plain ↦ memmove_up work (ground arith)
      ]
    ]
  ]

  -- When the destination starts inside of the source, and their distance leaves a remainder of at most
  -- half of it from the size, memmove returns with the first bytes of the destination, as many as the
  -- remainder, as they were: they are not copied.
  pub memmove-stale :
      (k r : ℕ)
      → dest < 2 ^ 64
      → src < dest
      → dest < src + n
      → n ≡ r + suc k * (dest - src)
      → 0 < r
      → 2 * r ≤ dest - src
      → (m' : ℕ → ℕ) × (memmove dest src n m ≡ some m')
        × ((a : ℕ) → dest ≤ a → a < dest + r → m' a ≡ m a)
  memmove-stale k r small above inside e some_left half =
      let (c, run, is) =
        memmove-Left dest src n m above inside k r e some_left (omega (arith, half)) in
      let away : (src + r ≤ back (src + r) (dest - src))
          ⊎ (back (src + r) (dest - src) + r ≤ src + r) =
        elim (Bool-cases (leb (dest - src) (src + r))) [
          | inl y ↦ inr (ground (arith, y, half))
          | inr wraps ↦ inl (ground (arith, wraps, small))
        ] in
      (
        rep_movsb (src + r) (back (src + r) (dest - src)) r c,
        run,
        λ a from to.
            rep_movsb-moved (src + r) (back (src + r) (dest - src)) r c a away
            ∙ ground (arith, is a, from, to, half, e),
      )
