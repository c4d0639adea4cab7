-- ===== src/String/Copy.antt =====
-- Copies that go upwards.
use tomat_os.Base.{
  ℕ, zero, suc, ◌+◌, ◌-◌, ◌≤◌, ◌≡◌, ◌⊎◌, inl, inr, ap, ◌∙◌, ◌&&◌, arith, Bool-cases, leb, ltb, ◌==◌,
  if◌then◌else◌, update,
}
use tomat_os.String.{rep_movsb}

-- The memory with `n` bytes from `src` at `dest`, as they were before.
abbrev pub moved : (dest src n : ℕ) → (ℕ → ℕ) → ℕ → ℕ
moved dest src n m a = if leb dest a && ltb a (dest + n) then m (src + (a - dest)) else m a

moved_step :
    (dest src n : ℕ) (m : ℕ → ℕ) (a : ℕ)
    → (dest ≤ src) ⊎ (src + suc n ≤ dest)
    → moved (suc dest) (suc src) n (update m dest (m src)) a ≡ moved dest src (suc n) m a
moved_step dest src n m a apart = elim (Bool-cases (dest == a)) [
  | inl here ↦
      let first : m src ≡ m (src + (a - dest)) = ap m (ground arith) in ground (arith, first)
  | inr there ↦ elim (Bool-cases (leb (suc dest) a)) [
    | inr before ↦ ground (arith, there, before)
    | inl behind ↦
        let later : m (suc src + (a - suc dest)) ≡ m (src + (a - dest)) = ap m (ground arith) in
        ground (arith, later, there, behind, apart)
  ]
]

-- A copy upwards is right unless the destination starts inside of the source.
pub rep_movsb-moved :
    (dest src n : ℕ) (m : ℕ → ℕ) (a : ℕ)
    → (dest ≤ src) ⊎ (src + n ≤ dest)
    → rep_movsb dest src n m a ≡ moved dest src n m a
unfolding rep_movsb
rep_movsb-moved dest src zero m a apart = ground arith
rep_movsb-moved dest src (suc n) m a apart =
    rep_movsb-moved (suc dest) (suc src) n (update m dest (m src)) a (ground (arith, apart))
    ∙ moved_step dest src n m a apart
