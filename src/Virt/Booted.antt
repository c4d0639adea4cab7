-- ===== src/Virt/Booted.antt =====
-- A machine after `init_virt`: the page tables in a block of the physical allocator, and 64 free pages.
use mathlib.Core.Path.{fun_ext}
use tomat_os.Base.{
  ℕ, ◌≤◌, ◌≡◌, refl, sym, Bool, false, ◌&&◌, Option, none, some, [], ◌∷◌, ◌/◌, arith, leb, subst,
  subst₂, has-nil,
}
use tomat_os.Phys.Blocks.{block_size}
use tomat_os.Phys.Region.{MemoryRegion, set_metadata}
use tomat_os.Phys.Region.Inv.{Covered, plus}
use tomat_os.Phys.Region.Moves.{IsValid}
use tomat_os.Phys.Region.Put.{put_live}
use tomat_os.Phys.Region.Fresh.{fresh_region, fresh_region-IsValid, no_blocks, IsUnclaimed, adopt}
use tomat_os.Phys.Fill.{add_memory_to_region}
use tomat_os.Phys.Fill.Sound.{IsAddable, add_memory_to_region-IsAdded}
use tomat_os.Phys.Allocator.{Memory}
use tomat_os.Phys.Pages.{PhysHolds, phys_pages}
use tomat_os.Virt.Tables.{Space}
use tomat_os.Virt.Shadow.{shadowed, shadowed_rank, shadowed_key, shadowed-IsTree}
use tomat_os.Virt.Map as Map

abbrev ram : ℕ
ram = 18446603336355414016

abbrev tables_end : ℕ
tables_end = 18446603336355676160

-- The frame of the PML4.
abbrev pub root : ℕ
root = 32768

abbrev empty_region : MemoryRegion
empty_region = fresh_region ram 128

empty_region-IsValid : IsValid empty_region no_blocks
empty_region-IsValid = fresh_region-IsValid ram 128 refl (omega arith)

empty_region-IsUnclaimed : (hi : ℕ) → IsUnclaimed empty_region no_blocks ram hi
empty_region-IsUnclaimed hi = record {
  not_free = λ x h k c. absurd (ground (arith, c.holds, has-nil c.addr));
  not_live = λ x h k c. absurd (ground (arith, c.holds));
}

-- The block of 64 pages that holds the tables.
abbrev tables_block : ℕ → ℕ → Bool
tables_block = plus no_blocks 14 ram

abbrev tables_region : MemoryRegion
tables_region = set_metadata 0 14 false empty_region

tables_region-IsValid : IsValid tables_region tables_block
unfolding block_size
tables_region-IsValid = put_live 14 ram (
    adopt 14 empty_region-IsValid (empty_region-IsUnclaimed tables_end)
      (record {
        below = omega arith;
        paged = omega arith;
        aligned = refl;
        from_base = omega arith;
        to_end = omega arith;
      })
      (omega arith))

not_in_tables : (x : ℕ) → tables_end ≤ x → Covered tables_block x → ⊥
unfolding block_size
not_in_tables x lo c =
    let l : c.level ≡ 14 = ground (arith, c.holds) in
    let a : c.addr ≡ ram = ground (arith, c.holds) in
    let i : x / block_size 14 ≡ ram / block_size 14 =
      subst₂ (λ s t. x / block_size s ≡ t / block_size s) l a c.inside in
    omega (arith, i, lo)

tables_region-IsAddable : IsAddable tables_region tables_block tables_end 64
unfolding set_metadata
tables_region-IsAddable = record {
  valid = tables_region-IsValid;
  paged = refl;
  from_base = omega arith;
  to_end = omega arith;
  unclaimed = record {
    not_free = λ x h k c. absurd (ground (arith, c.holds, has-nil c.addr));
    not_live = λ x h k c. not_in_tables x h c;
  };
}

abbrev or_tables : Option MemoryRegion → MemoryRegion
or_tables none = tables_region
or_tables (some r) = r

abbrev region : MemoryRegion
region = or_tables (add_memory_to_region tables_region tables_end 64)

-- The region as `add_memory_to_region` leaves it.
abbrev IsFilled : MemoryRegion → Type 0
IsFilled r = (r.base ≡ ram) × (r.page_count ≡ 128) × IsValid r tables_block

region-IsFilled : IsFilled region
unfolding set_metadata
region-IsFilled =
    let (r, run, a) =
      add_memory_to_region-IsAdded 64 tables_end tables_region tables_region-IsAddable in
    subst (λ o. IsFilled (or_tables o)) (sym run) (a.same_base, a.same_count, a.valid)

abbrev machine : MemoryRegion → Memory
machine r = record { regions = r ∷ []; locked = false; lock_cpu = none; reserved_page = λ _. none }

abbrev pub tables_live : ℕ → Bool
tables_live f = leb 32768 f && leb f 32800

machine-PhysHolds : (r : MemoryRegion) → IsFilled r → PhysHolds tables_live (machine r)
unfolding block_size
machine-PhysHolds r (base, count, v) = (
  tables_block,
  record {
    unlocked = refl;
    no_holder = refl;
    regional = record {
      valid = (subst (IsValid r) (fun_ext λ l. fun_ext λ a. ground (arith, base, count)) v, tt);
      clear = (tt, tt);
      homes = λ l a h. ground (arith, base, count);
    };
    reserve = record {
      taken = λ cpu p h. absurd (ground arith);
      unshared = λ c d p h. absurd (ground arith);
    };
  },
  (omega (arith, base), tt),
  λ f h. record {
    level = 14;
    addr = ram;
    holds = refl;
    inside =
        (let lo : 32768 ≤ f = ground arith in let hi : f ≤ 32800 = ground arith in omega arith);
  },
)

abbrev pub booted : Space Memory
booted = record { tables = shadowed 32768; cr3 = 32768; pages = machine region; locked = false }

pub booted-IsSound : Map.IsSound (phys_pages 0) tables_live booted
booted-IsSound = record {
  rank = shadowed_rank 32768;
  key = shadowed_key 32768;
  space = record {
    tree = shadowed-IsTree 32768 tables_live (λ t lo hi. ground arith);
    pages = machine-PhysHolds region region-IsFilled;
  };
  unlocked = refl;
}
