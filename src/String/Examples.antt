-- ===== src/String/Examples.antt =====
-- Buffers of five bytes.
use tomat_os.Base.{ℕ, ◌≤◌, ◌<◌, ◌≡◌, refl, inr, some, if◌then◌else◌, ◌==◌, arith, ◌∷◌, []}
use tomat_os.String.{memmove, strcmp, ℤ}
use tomat_os.String.Compare.{strcmp-lexicographic}
use tomat_os.String.Move.{Moves, memmove-Moves, memmove-stale}

-- The destination is one byte above the source.
memmove-Moves_example : Moves 101 100 5 (λ a. a)
memmove-Moves_example = memmove-Moves 101 100 5 (λ a. a) (inr (inr (5, refl)))

-- The destination is two bytes above the source, and the first byte is not copied.
memmove-stale_example :
    (m' : ℕ → ℕ) × (memmove 102 100 5 (λ a. a) ≡ some m') × ((a : ℕ) → 102 ≤ a → a < 103 → m' a ≡ a)
memmove-stale_example =
    memmove-stale 102 100 5 (λ a. a) 1 1 (omega arith) (omega arith) (omega arith) refl
      (omega arith) (omega arith)

-- "ab" at 10 and "a" at 20.
abbrev two_strings : ℕ → ℕ
two_strings a = if a == 10 then 97 else if a == 11 then 98 else if a == 20 then 97 else 0

strcmp-lexicographic_example : strcmp 3 10 20 two_strings ≡ some (ℤ.pos 98)
strcmp-lexicographic_example =
    strcmp-lexicographic 3 10 20 (97 ∷ 98 ∷ []) (97 ∷ []) two_strings
      (refl, (λ e. absurd (omega (arith, e))), (refl, (λ e. absurd (omega (arith, e))), refl))
      (refl, (λ e. absurd (omega (arith, e))), refl) (omega arith)
