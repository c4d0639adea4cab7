-- ===== src/Base/Sets.antt =====
-- Sets of blocks, by their class and address.
use Prim.Native.Nat.{ℕ}
use mathlib.Core.Bool.{Bool, not, ◌&&◌, ◌||◌}
use tomat_os.Base.Tests.{◌==◌}

-- The set of blocks with one more.
abbrev pub plus : (ℕ → ℕ → Bool) → ℕ → ℕ → ℕ → ℕ → Bool
plus live l p m a = (m == l && a == p) || live m a

-- The set of blocks with one less.
abbrev pub minus : (ℕ → ℕ → Bool) → ℕ → ℕ → ℕ → ℕ → Bool
minus live l p m a = not (m == l && a == p) && live m a
