-- ===== src/String/Compare.antt =====
-- `memcmp`, `strcmp` and `strlen`, by the lists of bytes that they read.
use tomat_os.Base.{
  ℕ, zero, suc, ◌+◌, ◌<◌, ◌≡◌, ◌≢◌, refl, ap, ◌∙◌, true, false, ◌&&◌, not, arith, Bool-cases, inl,
  inr, ◌==◌, if◌then◌else◌, List, [], ◌∷◌, some, length,
}
use tomat_os.String.{ℤ, byte_difference, memcmp, string_end, strlen, strcmp}

-- The first bytes that differ decide; the end of a string counts as 0.
abbrev pub lexicographic : List ℕ → List ℕ → ℤ
lexicographic [] [] = ℤ.pos 0
lexicographic [] (y ∷ ys) = byte_difference 0 y
lexicographic (x ∷ xs) [] = byte_difference x 0
lexicographic (x ∷ xs) (y ∷ ys) = if x == y then lexicographic xs ys else byte_difference x y

abbrev pub bytes_at : (p n : ℕ) → (ℕ → ℕ) → List ℕ
bytes_at p zero m = []
bytes_at p (suc n) m = m p ∷ bytes_at (suc p) n m

-- A string of these bytes stands at `p`, with its end.
abbrev pub IsString : (p : ℕ) → List ℕ → (ℕ → ℕ) → Type 0
IsString p [] m = m p ≡ 0
IsString p (x ∷ xs) m = (m p ≡ x) × (x ≢ 0) × IsString (suc p) xs m

-- memcmp of two buffers is the lexicographic comparison of their bytes.
pub memcmp-lexicographic :
    (l r n : ℕ) (m : ℕ → ℕ) → memcmp l r n m ≡ lexicographic (bytes_at l n m) (bytes_at r n m)
unfolding memcmp
memcmp-lexicographic l r zero m = refl
memcmp-lexicographic l r (suc n) m = rw (memcmp-lexicographic (suc l) (suc r) n m) refl

string_end-IsString :
    (fuel p : ℕ) (xs : List ℕ) (m : ℕ → ℕ)
    → IsString p xs m
    → length xs < fuel
    → string_end fuel p m ≡ some (p + length xs)
unfolding string_end
string_end-IsString zero p xs m s lt = absurd (omega (arith, lt))
string_end-IsString (suc fuel) p [] m s lt = rw s (ap (λ x. some x) (omega arith))
string_end-IsString (suc fuel) p (x ∷ xs) m (e, ne, s) lt =
    let more : (m p == 0) ≡ false = ground arith in
    rw more
      (string_end-IsString fuel (suc p) xs m s (omega (arith, lt)) ∙ ap (λ x. some x) (omega arith))

-- strlen of a string, with more fuel than the string has bytes, returns their number.
pub strlen-IsString :
    (fuel p : ℕ) (xs : List ℕ) (m : ℕ → ℕ)
    → IsString p xs m
    → length xs < fuel
    → strlen fuel p m ≡ some (length xs)
unfolding strlen
strlen-IsString fuel p xs m s lt =
    rw (string_end-IsString fuel p xs m s lt) (ap (λ x. some x) (omega arith))

-- strcmp of two strings, with more fuel than the first one has bytes, returns their lexicographic
-- comparison.
pub strcmp-lexicographic :
    (fuel l r : ℕ) (xs ys : List ℕ) (m : ℕ → ℕ)
    → IsString l xs m
    → IsString r ys m
    → length xs < fuel
    → strcmp fuel l r m ≡ some (lexicographic xs ys)
unfolding strcmp
strcmp-lexicographic zero l r xs ys m s t lt = absurd (omega (arith, lt))
strcmp-lexicographic (suc fuel) l r [] [] m s t lt = rw (s, t) refl
strcmp-lexicographic (suc fuel) l r [] (y ∷ ys) m s (e, ne, t) lt =
    let stop : (m l == m r && not (m l == 0)) ≡ false = ground (arith, s) in rw (stop, s, e) refl
strcmp-lexicographic (suc fuel) l r (x ∷ xs) [] m (e, ne, s) t lt =
    let stop : (m l == m r && not (m l == 0)) ≡ false = ground (arith, e, t) in rw (stop, e, t) refl
strcmp-lexicographic (suc fuel) l r (x ∷ xs) (y ∷ ys) m (e, ne, s) (f, ne', t) lt =
    elim (Bool-cases (x == y)) [
      | inr differ ↦
          let stop : (m l == m r && not (m l == 0)) ≡ false = ground (arith, e, f, differ) in
          rw (stop, e, f, differ) refl
      | inl same ↦
          let more : (m l == m r && not (m l == 0)) ≡ true = ground (arith, e, f, same) in
          rw (more, same)
            (strcmp-lexicographic fuel (suc l) (suc r) xs ys m s t (omega (arith, lt)))
    ]
