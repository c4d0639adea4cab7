-- ===== src/Base/Lists.antt =====
-- Lists of addresses as sets of list nodes, and functions updated at one number.
use Prim.Native.Nat.{ℕ, zero, suc}
use mathlib.Core.Path.{◌≡◌, refl, fun_ext}
use mathlib.Core.Logic.{◌⊎◌, inl, inr}
use mathlib.Core.Bool.{Bool, true, false, not, ◌&&◌, ◌||◌}
use mathlib.Core.Option.{Option, none, some}
use mathlib.Core.List.{List, [], ◌∷◌}
use native.Mathlib.Omega.{arith}
use tomat_os.Base.Tests.{◌==◌, if◌then◌else◌, ==-refl, Bool-cases}

abbrev pub length {ℓ} : {A : Type ℓ} → List A → ℕ
length [] = 0
length (x ∷ xs) = suc (length xs)

abbrev pub update {ℓ} : {A : Type ℓ} → (ℕ → A) → ℕ → A → ℕ → A
update f i v j = if i == j then v else f j

unfoldable pub has : ℕ → List ℕ → Bool
has a [] = false
has a (x ∷ xs) = (a == x) || has a xs

unfoldable pub without : ℕ → List ℕ → List ℕ
without a [] = []
without a (x ∷ xs) = if a == x then without a xs else x ∷ without a xs

-- No node stands twice in a list.
unfoldable pub distinct : List ℕ → Bool
distinct [] = true
distinct (x ∷ xs) = not (has x xs) && distinct xs

pub has-without : (a b : ℕ) (xs : List ℕ) → has b (without a xs) ≡ (not (a == b) && has b xs)
unfolding has without
has-without a b [] = ground arith
has-without a b (x ∷ xs) = ground (arith, has-without a b xs)

pub distinct-without : (a : ℕ) (xs : List ℕ) → distinct xs ≡ true → distinct (without a xs) ≡ true
unfolding distinct without
distinct-without a [] h = refl
distinct-without a (x ∷ xs) h = ground (arith, has-without a x xs, distinct-without a xs)

pub has-head : (a : ℕ) (xs : List ℕ) → has a (a ∷ xs) ≡ true
unfolding has
has-head a xs = ground arith

pub has-cons : (a x : ℕ) (xs : List ℕ) → has a (x ∷ xs) ≡ ((a == x) || has a xs)
unfolding has
has-cons a x xs = refl

pub distinct-cons : (x : ℕ) (xs : List ℕ) → distinct (x ∷ xs) ≡ (not (has x xs) && distinct xs)
unfolding distinct
distinct-cons x xs = refl

pub List-cases {ℓ} :
    {A : Type ℓ} (xs : List A) → (xs ≡ []) ⊎ ((x : A) × (rest : List A) × (xs ≡ x ∷ rest))
List-cases [] = inl refl
List-cases (x ∷ xs) = inr (x, xs, refl)

abbrev pub get_elem? {ℓ} : {A : Type ℓ} → List A → ℕ → Option A
get_elem? [] i = none
get_elem? (x ∷ xs) zero = some x
get_elem? (x ∷ xs) (suc i) = get_elem? xs i

-- A write out of bounds changes nothing.
abbrev pub set {ℓ} : {A : Type ℓ} → List A → ℕ → A → List A
set [] i v = []
set (x ∷ xs) zero v = v ∷ xs
set (x ∷ xs) (suc i) v = x ∷ set xs i v

pub has-nil : (a : ℕ) → has a [] ≡ false
unfolding has
has-nil a = refl

pub distinct-nil : distinct [] ≡ true
unfolding distinct
distinct-nil = refl

pub update_self {ℓ} : {A : Type ℓ} (f : ℕ → A) (i : ℕ) (v : A) → update f i v i ≡ v
update_self f i v = rw (==-refl i)

pub update-at {ℓ} :
    {A : Type ℓ} (f : ℕ → A) (i j : ℕ) (v : A) → (i == j) ≡ true → update f i v j ≡ v
update-at f i j v e = rw e

pub update-other {ℓ} :
    {A : Type ℓ} (f : ℕ → A) (i j : ℕ) (v : A) → (i == j) ≡ false → update f i v j ≡ f j
update-other f i j v e = rw e

pub update-update {ℓ} :
    {A : Type ℓ} (f : ℕ → A) (i : ℕ) (v w : A) → update (update f i v) i w ≡ update f i w
update-update f i v w = fun_ext λ j. elim (Bool-cases (i == j)) [ inl e ↦ rw e | inr e ↦ rw e ]
