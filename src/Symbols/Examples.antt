-- ===== src/Symbols/Examples.antt =====
-- A table of three symbols of 8 bytes, at 16, 32 and 48.
use tomat_os.Base.{suc, ◌-◌, ◌*◌, ◌≡◌, refl, ◌==◌, true, if◌then◌else◌, some, none, arith}
use tomat_os.Symbols.{Table, insert_symbol, debug_lookup_symbol, lookup_loop}
use tomat_os.Symbols.Sort.{Sorts, sort_symbols-Sorts}
use tomat_os.Symbols.Insert.{IsAscending, Inserts, insert_symbol-Inserts}
use tomat_os.Symbols.Lookup.{IsDisjoint, LooksUp, debug_lookup_symbol-LooksUp}
use tomat_os.Symbols.Load.{Elf, Loads, debug_load_symbols, debug_load_symbols-Loads, find_symtab}

abbrev three_symbols : Table
three_symbols = record {
  symbols = λ k. record { address = 16 * suc k; size = 8; name = k };
  count = 3;
}

three_symbols-IsAscending : IsAscending three_symbols
three_symbols-IsAscending i j lt h = omega (arith, lt)

three_symbols-IsDisjoint : IsDisjoint three_symbols
three_symbols-IsDisjoint = record {
  ascending = three_symbols-IsAscending;
  apart = λ i j lt h. omega (arith, lt);
  ends = λ i h. omega (arith, h);
}

sort_symbols-Sorts_example : Sorts 4 0 3 (λ k. record { address = 100 - k; size = 8; name = k })
sort_symbols-Sorts_example =
    sort_symbols-Sorts 4 0 3 (λ k. record { address = 100 - k; size = 8; name = k }) (omega arith)

insert_symbol-Inserts_example :
    (t' : Table) × (insert_symbol true (record { address = 40; size = 4; name = 9 }) three_symbols
      ≡ some t')
    × Inserts (record { address = 40; size = 4; name = 9 }) three_symbols t'
insert_symbol-Inserts_example =
    insert_symbol-Inserts (record { address = 40; size = 4; name = 9 }) three_symbols
      three_symbols-IsAscending

debug_lookup_symbol-LooksUp_example :
    LooksUp 35 three_symbols (debug_lookup_symbol 35 three_symbols)
debug_lookup_symbol-LooksUp_example =
    debug_lookup_symbol-LooksUp 35 three_symbols three_symbols-IsDisjoint

-- The address is between the second and the third symbol, then behind the last one.
lookup_between : debug_lookup_symbol 45 three_symbols ≡ some none
unfolding debug_lookup_symbol lookup_loop
lookup_between = refl

lookup_behind : debug_lookup_symbol 60 three_symbols ≡ none
unfolding debug_lookup_symbol lookup_loop
lookup_behind = refl

-- Section 1 is the symbol table, of two symbols, and section 2 its strings.
abbrev small_elf : Elf
small_elf = record {
  e_shoff = 64;
  e_shnum = 3;
  sections = λ i. record {
    sh_type = if i == 1 then 2 else 0;
    sh_offset = 100 * i;
    sh_size = 48;
    sh_link = 2;
  };
  symbols_at = λ offset i. record { st_name = i; st_value = 1000 - i; st_size = 1 };
}

debug_load_symbols-Loads_example :
    Loads
      (λ s. some s)
      4096
      small_elf
      1
      (debug_load_symbols (λ s. some s) true 4096 small_elf three_symbols)
unfolding find_symtab
debug_load_symbols-Loads_example =
    debug_load_symbols-Loads (λ s. some s) 4096 small_elf three_symbols 1 (λ s. (s, refl)) refl refl
