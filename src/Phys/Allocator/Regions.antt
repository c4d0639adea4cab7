-- ===== src/Phys/Allocator/Regions.antt =====
-- A list of regions that are well-formed and share no address.
use mathlib.Core.Path.{fun_ext}
use tomat_os.Base.{
  ℕ, ◌%◌, ◌≤◌, ◌<◌, ◌≡◌, ◌⊎◌, inl, inr, refl, sym, ap, ◌∙◌, Bool, true, false, ◌&&◌, ◌||◌, none,
  some, List, [], ◌∷◌, arith, Bool-cases, subst,
}
use tomat_os.Phys.Blocks.{block_size, block_size-pos}
use tomat_os.Phys.Region.{MemoryRegion, buddy_level_count}
use tomat_os.Phys.Region.Inv.{IsPlaced, plus, region_end, page_level}
use tomat_os.Phys.Region.Moves.{IsValid}
use tomat_os.Phys.Buddy.Alloc.{Allocated, HasNoRoom, allocate_from_level-Allocated}
use tomat_os.Phys.Allocator.{contains, alloc_from}

-- The blocks that lie in a region.
abbrev pub within : MemoryRegion → (ℕ → ℕ → Bool) → ℕ → ℕ → Bool
within r live l a = contains r a && live l a

abbrev pub AllValid : (ℕ → ℕ → Bool) → List MemoryRegion → Type 0
AllValid live [] = Unit
AllValid live (r ∷ rs) = IsValid r (within r live) × AllValid live rs

abbrev pub Clear : MemoryRegion → List MemoryRegion → Type 0
Clear r [] = Unit
Clear r (s ∷ rs) = ((a : ℕ) → contains r a ≡ true → contains s a ≡ false) × Clear r rs

abbrev pub AllClear : List MemoryRegion → Type 0
AllClear [] = Unit
AllClear (r ∷ rs) = Clear r rs × AllClear rs

abbrev pub homed : List MemoryRegion → ℕ → Bool
homed [] a = false
homed (r ∷ rs) a = contains r a || homed rs a

within-plus :
    (r : MemoryRegion) (live : ℕ → ℕ → Bool) (l p : ℕ)
    → contains r p ≡ true
    → within r (plus live l p) ≡ plus (within r live) l p
within-plus r live l p h = fun_ext λ m. fun_ext λ a. ground arith

within-plus_other :
    (r : MemoryRegion) (live : ℕ → ℕ → Bool) (l p : ℕ)
    → contains r p ≡ false
    → within r (plus live l p) ≡ within r live
within-plus_other r live l p h = fun_ext λ m. fun_ext λ a. ground arith

-- Regions of the same places.
abbrev pub Alike : List MemoryRegion → List MemoryRegion → Type 0
Alike [] [] = Unit
Alike [] (s ∷ ss) = ⊥
Alike (r ∷ rs) [] = ⊥
Alike (r ∷ rs) (s ∷ ss) = (s.base ≡ r.base) × (s.page_count ≡ r.page_count) × Alike rs ss

contains-alike :
    (r s : MemoryRegion) (a : ℕ)
    → s.base ≡ r.base
    → s.page_count ≡ r.page_count
    → contains s a ≡ contains r a
contains-alike r s a e f = rw (e, f)

pub within-alike :
    (r s : MemoryRegion) (live : ℕ → ℕ → Bool)
    → s.base ≡ r.base
    → s.page_count ≡ r.page_count
    → within s live ≡ within r live
within-alike r s live e f =
    fun_ext λ m. fun_ext λ a. ap (λ b. b && live m a) (contains-alike r s a e f)

pub Alike-refl : (rs : List MemoryRegion) → Alike rs rs
Alike-refl [] = tt
Alike-refl (r ∷ rs) = (refl, refl, Alike-refl rs)

pub Alike-trans : (rs ss ts : List MemoryRegion) → Alike rs ss → Alike ss ts → Alike rs ts
Alike-trans [] [] [] h k = tt
Alike-trans [] [] (z ∷ ts) h k = absurd k
Alike-trans [] (y ∷ ss) ts h k = absurd h
Alike-trans (x ∷ rs) [] ts h k = absurd h
Alike-trans (x ∷ rs) (y ∷ ss) [] h k = absurd k
Alike-trans (x ∷ rs) (y ∷ ss) (z ∷ ts) (a, b, h) (c, d, k) =
    (c ∙ a, d ∙ b, Alike-trans rs ss ts h k)

Clear-Alike :
    (r s : MemoryRegion) (rs ss : List MemoryRegion)
    → s.base ≡ r.base
    → s.page_count ≡ r.page_count
    → Alike rs ss
    → Clear r rs
    → Clear s ss
Clear-Alike r s [] [] e f k h = tt
Clear-Alike r s [] (y ∷ ss) e f k h = absurd k
Clear-Alike r s (x ∷ rs) [] e f k h = absurd k
Clear-Alike r s (x ∷ rs) (y ∷ ss) e f (g, g', k) (h, hs) = (
  λ a c. contains-alike x y a g g' ∙ h a (sym (contains-alike r s a e f) ∙ c),
  Clear-Alike r s rs ss e f k hs,
)

pub AllClear-Alike : (rs ss : List MemoryRegion) → Alike rs ss → AllClear rs → AllClear ss
AllClear-Alike [] [] k h = tt
AllClear-Alike [] (y ∷ ss) k h = absurd k
AllClear-Alike (x ∷ rs) [] k h = absurd k
AllClear-Alike (x ∷ rs) (y ∷ ss) (g, g', k) (h, hs) =
    (Clear-Alike x y rs ss g g' k h, AllClear-Alike rs ss k hs)

pub homed-Alike : (rs ss : List MemoryRegion) (a : ℕ) → Alike rs ss → homed ss a ≡ homed rs a
homed-Alike [] [] a k = refl
homed-Alike [] (y ∷ ss) a k = absurd k
homed-Alike (x ∷ rs) [] a k = absurd k
homed-Alike (x ∷ rs) (y ∷ ss) a (g, g', k) = rw (contains-alike x y a g g', homed-Alike rs ss a k)

pub Clear-homed :
    (r : MemoryRegion) (rs : List MemoryRegion) (a : ℕ)
    → Clear r rs
    → contains r a ≡ true
    → homed rs a ≡ false
Clear-homed r [] a h c = refl
Clear-homed r (s ∷ rs) a (h, hs) c = ground (arith, h a c, Clear-homed r rs a hs c)

-- A block handed out of another region changes nothing here.
AllValid-plus_other :
    (rs : List MemoryRegion) (live : ℕ → ℕ → Bool) (l p : ℕ)
    → homed rs p ≡ false
    → AllValid live rs
    → AllValid (plus live l p) rs
AllValid-plus_other [] live l p h v = tt
AllValid-plus_other (r ∷ rs) live l p h (v, vs) = (
  subst (IsValid r) (sym (within-plus_other r live l p (ground arith))) v,
  AllValid-plus_other rs live l p (ground arith) vs,
)

abbrev pub AllFull : ℕ → List MemoryRegion → Type 0
AllFull level [] = Unit
AllFull level (r ∷ rs) = HasNoRoom level r × AllFull level rs

-- What an allocation over the regions reaches.
pub record Granted (live : ℕ → ℕ → Bool) (level p : ℕ) (rs rs' : List MemoryRegion) : Type 0 where
  pub valid : AllValid (plus live level p) rs'
  pub alike : Alike rs rs'
  pub fresh : live level p ≡ false
  pub at_home : homed rs p ≡ true
  pub aligned : p % block_size level ≡ 0

Allocated-head :
    (r r' : MemoryRegion) (live : ℕ → ℕ → Bool) (level p : ℕ)
    → Allocated r (within r live) level p r'
    → (contains r p ≡ true)
      × (IsValid r' (within r' (plus live level p)))
      × (p % block_size level ≡ 0)
Allocated-head r r' live level p a = (at, v, P.aligned)
  where
    P : IsPlaced r'.base (region_end r') level p
    P = a.valid.placed level p (ground arith)

    at : contains r p ≡ true
    at = ground (arith, a.same_base, a.same_count, P.from_base, P.to_end, block_size-pos level)

    v : IsValid r' (within r' (plus live level p))
    v =
        subst (IsValid r')
          (sym (within-plus r live level p at)
            ∙ sym (within-alike r r' (plus live level p) a.same_base a.same_count))
          a.valid

module _ {live : ℕ → ℕ → Bool} (level : ℕ) (paged : page_level ≤ level)
    (low : level < buddy_level_count) where
  pub alloc_from-Granted :
      (rs : List MemoryRegion)
      → AllValid live rs
      → AllClear rs
      → ((alloc_from (some level) rs ≡ some (none, rs)) × AllFull level rs)
        ⊎ ((p : ℕ) × (rs' : List MemoryRegion) × (alloc_from (some level) rs ≡ some (some p, rs'))
            × Granted live level p rs rs')
  unfolding alloc_from
  alloc_from-Granted [] v c = inl (refl, tt)
  alloc_from-Granted (r ∷ rs) (v, vs) (c, cs) =
      elim (allocate_from_level-Allocated v level paged low) [
        | inr (p, r', run, a) ↦
            let (at, v', al) = Allocated-head r r' live level p a in
            inr (
              p,
              r' ∷ rs,
              rw run,
              record {
                valid = (v', AllValid-plus_other rs live level p (Clear-homed r rs p c at) vs);
                alike = (a.same_base, a.same_count, Alike-refl rs);
                fresh = ground (arith, a.fresh, at);
                at_home = ground arith;
                aligned = al;
              },
            )
        | inl (run, room) ↦ elim (alloc_from-Granted rs vs cs) [
          | inl (rest, full) ↦ inl (rw (run, rest), (room, full))
          | inr (p, rs', rest, g) ↦
              let out : contains r p ≡ false = ground (arith, g.at_home, Clear-homed r rs p c) in
              inr (
                p,
                r ∷ rs',
                rw (run, rest),
                record {
                  valid =
                      (subst (IsValid r) (sym (within-plus_other r live level p out)) v, g.valid);
                  alike = (refl, refl, g.alike);
                  fresh = g.fresh;
                  at_home = ground (arith, g.at_home);
                  aligned = g.aligned;
                },
              )
        ]
      ]

-- An address starts at most one block.
pub level_unique :
    (rs : List MemoryRegion) (live : ℕ → ℕ → Bool) (l m p : ℕ)
    → AllValid live rs
    → homed rs p ≡ true
    → live l p ≡ true
    → live m p ≡ true
    → l ≡ m
level_unique [] live l m p v h a b = absurd (ground arith)
level_unique (r ∷ rs) live l m p (v, vs) h a b = elim (Bool-cases (contains r p)) [
  | inl at ↦ (v.apart p l p m p (ground arith) (ground arith) refl refl).0
  | inr out ↦ level_unique rs live l m p vs (ground arith) a b
]
