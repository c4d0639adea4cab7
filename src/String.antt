-- ===== src/String.antt =====
-- kernel/lib/string.c: the routines on bytes in memory. A buffer does not wrap around the address space,
-- and `rep movsb` and `rep stosb` go upwards, byte by byte.
use tomat_os.Base.{
  ℕ, zero, suc, ◌+◌, ◌-◌, ◌^◌, ◌%◌, Bool, ◌||◌, ◌&&◌, Option, none, some, leb, ltb, ◌==◌,
  if◌then◌else◌, update, not, ◌>>=◌,
}
pub mod Copy
pub mod Move
pub mod Compare
mod Examples

-- `dest`, `src` and `n` are the registers of the instruction.
unfoldable pub rep_movsb : (dest src n : ℕ) → (ℕ → ℕ) → ℕ → ℕ
rep_movsb dest src zero m = m
rep_movsb dest src (suc n) m = rep_movsb (suc dest) (suc src) n (update m dest (m src))

unfoldable pub rep_stosb : (s c n : ℕ) → (ℕ → ℕ) → ℕ → ℕ
rep_stosb s c zero m = m
rep_stosb s c (suc n) m = rep_stosb (suc s) c n (update m s c)

unfoldable pub memset : (s c n : ℕ) → (ℕ → ℕ) → ℕ → ℕ
memset s c n m = rep_stosb s (c % 2 ^ 8) n m

unfoldable pub memcpy : (dest src n : ℕ) → (ℕ → ℕ) → ℕ → ℕ
memcpy dest src n m = if n == 0 then m else rep_movsb dest src n m

-- The difference of two pointers, modulo 2^64.
abbrev pub back : (p tail_size : ℕ) → ℕ
back p tail_size = if leb tail_size p then p - tail_size else p + 2 ^ 64 - tail_size

-- The loop from the top, and the copy of what is left. `none` is the end of the fuel.
unfoldable pub move_down : (fuel dest src tail_size n : ℕ) → (ℕ → ℕ) → Option (ℕ → ℕ)
move_down zero dest src tail_size n m = none
move_down (suc fuel) dest src tail_size n m =
    let m = rep_movsb dest src tail_size m in
    let dest = back dest tail_size in
    let src = back src tail_size in
    let n = n - tail_size in
    let rest = move_down fuel dest src tail_size n m in
    if ltb tail_size n then rest else some (if n == 0 then m else rep_movsb dest src n m)

unfoldable pub memmove : (dest src n : ℕ) → (ℕ → ℕ) → Option (ℕ → ℕ)
memmove dest src n m =
    if n == 0 || dest == src
    then some m
    else if ltb src dest && ltb dest (src + n)
    then (let tail_size = dest - src in
        move_down n (dest + (n - tail_size)) (src + (n - tail_size)) tail_size n m)
    else some (rep_movsb dest src n m)

-- The result of a comparison, an `int`.
pub data ℤ : Type 0 where
  pos : ℕ → ℤ
  negsuc : ℕ → ℤ

abbrev pub byte_difference : (a b : ℕ) → ℤ
byte_difference a b = if leb b a then ℤ.pos (a - b) else ℤ.negsuc (b - suc a)

unfoldable pub memcmp : (l r n : ℕ) → (ℕ → ℕ) → ℤ
memcmp l r zero m = ℤ.pos 0
memcmp l r (suc n) m =
    let rest = memcmp (suc l) (suc r) n m in
    if m l == m r then rest else byte_difference (m l) (m r)

-- The address of the byte that ends the string. `none` is the end of the fuel.
unfoldable pub string_end : (fuel s : ℕ) → (ℕ → ℕ) → Option ℕ
string_end zero s m = none
string_end (suc fuel) s m =
    let rest = string_end fuel (suc s) m in if m s == 0 then some s else rest

unfoldable pub strlen : (fuel s : ℕ) → (ℕ → ℕ) → Option ℕ
strlen fuel s m = do end ← string_end fuel s m; some (end - s)

unfoldable pub strcmp : (fuel l r : ℕ) → (ℕ → ℕ) → Option ℤ
strcmp zero l r m = none
strcmp (suc fuel) l r m =
    let rest = strcmp fuel (suc l) (suc r) m in
    if m l == m r && not (m l == 0) then rest else some (byte_difference (m l) (m r))
