-- ===== src/Phys/FreeMemory.antt =====
-- The free memory of a list of regions.
use tomat_os.Base.{ℕ, zero, suc, ◌≡◌, ◌≢◌, refl, ap, some, List, [], ◌∷◌, get_elem?, set}
use tomat_os.Phys.Region.{MemoryRegion}
use tomat_os.Phys.Region.Inv.{InFree}

module _ {ℓ} {A : Type ℓ} where
  pub get_elem?-set_same :
      (xs : List A) (i : ℕ) (x y : A) → get_elem? xs i ≡ some y → get_elem? (set xs i x) i ≡ some x
  get_elem?-set_same [] i x y e = absurd cc
  get_elem?-set_same (z ∷ xs) zero x y e = refl
  get_elem?-set_same (z ∷ xs) (suc i) x y e = get_elem?-set_same xs i x y e

  pub get_elem?-set_other :
      (xs : List A) (i j : ℕ) (x : A) → i ≢ j → get_elem? (set xs i x) j ≡ get_elem? xs j
  get_elem?-set_other [] i j x ne = refl
  get_elem?-set_other (z ∷ xs) zero zero x ne = absurd (ne refl)
  get_elem?-set_other (z ∷ xs) zero (suc j) x ne = refl
  get_elem?-set_other (z ∷ xs) (suc i) zero x ne = refl
  get_elem?-set_other (z ∷ xs) (suc i) (suc j) x ne =
      get_elem?-set_other xs i j x (λ e. ne (ap suc e))

-- The address is in a free block of a region.
abbrev pub IsFree : List MemoryRegion → ℕ → Type 0
IsFree rs x = (i : ℕ) × (r : MemoryRegion) × (get_elem? rs i ≡ some r) × InFree r x
