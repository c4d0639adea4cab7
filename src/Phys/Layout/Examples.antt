-- ===== src/Phys/Layout/Examples.antt =====
-- A map of 16 MB that is usable, of 4 KB of tables behind it, a hole, and 8 KB of the kernel's image.
use tomat_os.Base.{ℕ, refl, List, [], ◌∷◌, arith, inl, has-nil}
use tomat_os.Phys.Region.Fresh.{fresh_region, fresh_region-IsValid, no_blocks, IsUnclaimed}
use tomat_os.Phys.Allocator.{find_region}
use tomat_os.Phys.Layout.{Entry, EntryType}
use tomat_os.Phys.Layout.Place.{AreEntries, LaysOut, place_entries-LaysOut}
use tomat_os.Phys.Layout.Add.{AreReady, AddsMemory, add_memory-AddsMemory}

abbrev small_map : List Entry
small_map =
    record { base = 1048576; length = 16777216; type = EntryType.usable }
    ∷ record { base = 17825792; length = 4096; type = EntryType.acpi_reclaimable }
    ∷ record { base = 17829888; length = 4096; type = EntryType.reserved }
    ∷ record { base = 17833984; length = 8192; type = EntryType.executable_and_modules }
    ∷ []

small_map-AreEntries : AreEntries small_map
small_map-AreEntries = (
  record { whole = refl; fits = omega arith },
  (
    record { whole = refl; fits = omega arith },
    (
      record { whole = refl; fits = omega arith },
      (record { whole = refl; fits = omega arith }, tt),
    ),
  ),
)

place_entries-LaysOut_example : LaysOut 4096 small_map
place_entries-LaysOut_example = place_entries-LaysOut 4096 small_map small_map-AreEntries

-- A region of four pages, of which two entries of two pages and one page are usable.
abbrev ram : ℕ
ram = 18446603336355446784

abbrev two_entries : List Entry
two_entries =
    record { base = 134250496; length = 8192; type = EntryType.usable }
    ∷ record { base = 134258688; length = 4096; type = EntryType.usable }
    ∷ []

fresh-IsUnclaimed : (lo hi : ℕ) → IsUnclaimed (fresh_region ram 4) no_blocks lo hi
fresh-IsUnclaimed lo hi = record {
  not_free = λ x h k c. absurd (ground (arith, c.holds, has-nil c.addr));
  not_live = λ x h k c. absurd (ground (arith, c.holds));
}

two_entries-AreReady : AreReady no_blocks (fresh_region ram 4 ∷ []) two_entries
unfolding find_region
two_entries-AreReady =
    let valid = fresh_region-IsValid ram 4 refl (omega arith) in
    (
      (λ y. record {
        index = 0;
        region = fresh_region ram 4;
        found = refl;
        there = refl;
        addable = record {
          valid = valid;
          paged = refl;
          from_base = omega arith;
          to_end = omega arith;
          unclaimed = fresh-IsUnclaimed _ _;
        };
      }),
      (
        (λ y. record {
          index = 0;
          region = fresh_region ram 4;
          found = refl;
          there = refl;
          addable = record {
            valid = valid;
            paged = refl;
            from_base = omega arith;
            to_end = omega arith;
            unclaimed = fresh-IsUnclaimed _ _;
          };
        }),
        tt,
      ),
    )

add_memory-AddsMemory_example : AddsMemory two_entries (fresh_region ram 4 ∷ [])
add_memory-AddsMemory_example =
    add_memory-AddsMemory no_blocks two_entries (fresh_region ram 4 ∷ [])
      (((λ y. inl (omega arith)), tt), (tt, tt)) two_entries-AreReady
