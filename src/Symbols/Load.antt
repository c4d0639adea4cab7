-- ===== src/Symbols/Load.antt =====
-- `debug_load_symbols`, from the sections of the kernel's ELF file.
use tomat_os.Base.{
  ℕ, zero, suc, ◌+◌, ◌/◌, ◌<◌, ◌≡◌, inl, inr, refl, sym, ap, ◌∙◌, Bool, true, false, arith,
  Bool-cases, ◌==◌, if◌then◌else◌, update, Option, none, some, ◌>>=◌,
}
use tomat_os.Symbols.{Symbol, Table, sort_symbols}
use tomat_os.Symbols.Range.{IsRearranged, IsSorted}
use tomat_os.Symbols.Sort.{sort_symbols-Sorts}

-- The fields of a section header and of a symbol that the code reads.
pub record Section : Type 0 where
  pub sh_type : ℕ
  pub sh_offset : ℕ
  pub sh_size : ℕ
  pub sh_link : ℕ

pub record ElfSymbol : Type 0 where
  pub st_name : ℕ
  pub st_value : ℕ
  pub st_size : ℕ

-- The file: its section table, and the symbols from an offset on.
pub record Elf : Type 0 where
  pub e_shoff : ℕ
  pub e_shnum : ℕ
  pub sections : ℕ → Section
  pub symbols_at : (offset : ℕ) → ℕ → ElfSymbol

abbrev sht_symtab : ℕ
sht_symtab = 2

-- The first symbol table of the sections that are left.
unfoldable pub find_symtab : (left i : ℕ) → Elf → Option ℕ
find_symtab zero i elf = none
find_symtab (suc left) i elf =
    let rest = find_symtab left (suc i) elf in
    if (elf.sections i).sh_type == sht_symtab then some i else rest

-- `strdup` gives the address of the copy of a string, or fails, for it writes to what mem_alloc gave.
module _ (strdup : ℕ → Option ℕ) (elf : Elf) (strtab offset : ℕ) where
  unfoldable pub load_symbol : (i : ℕ) → Option Symbol
  load_symbol i = do
    name ← strdup (strtab + (elf.symbols_at offset i).st_name)
    some (record {
      address = (elf.symbols_at offset i).st_value;
      size = (elf.symbols_at offset i).st_size;
      name = name;
    })

  unfoldable pub load_symbols : (left i : ℕ) → (ℕ → Symbol) → Option (ℕ → Symbol)
  load_symbols zero i a = some a
  load_symbols (suc left) i a = do s ← load_symbol i; load_symbols left (suc i) (update a i s)

-- `kernel` is the address of the file, `grown` says whether mem_realloc returned an array.
unfoldable pub debug_load_symbols :
    (strdup : ℕ → Option ℕ) (grown : Bool) (kernel : ℕ) → Elf → Table → Option Table
debug_load_symbols strdup grown kernel elf t =
    if elf.e_shoff == 0 then some t else (elim (find_symtab elf.e_shnum 0 elf) [
      | none ↦ some t
      | some symtab ↦
          let section = elf.sections symtab in
          let strtab = kernel + (elf.sections section.sh_link).sh_offset in
          let count = section.sh_size / 24 in
          if grown
          then (do
            a ← load_symbols strdup elf strtab section.sh_offset count 0 t.symbols
            a ← sort_symbols (suc count) 0 count a
            some (record { symbols = a; count = count }))
          else none
    ])

-- The symbols up to the index are those of the file, with the copies of their names.
abbrev pub AreLoaded :
    (strdup : ℕ → Option ℕ) (elf : Elf) (strtab offset count : ℕ) (a : ℕ → Symbol) → Type 0
AreLoaded strdup elf strtab offset count a =
    (k : ℕ) → k < count → load_symbol strdup elf strtab offset k ≡ some (a k)

module _ (strdup : ℕ → Option ℕ) (copies : (s : ℕ) → (d : ℕ) × (strdup s ≡ some d)) (elf : Elf)
    (strtab offset : ℕ) where
  load_symbol-some : (i : ℕ) → (s : Symbol) × (load_symbol strdup elf strtab offset i ≡ some s)
  unfolding load_symbol
  load_symbol-some i =
      (let (d, e) = copies (strtab + (elf.symbols_at offset i).st_name) in
        (
          record {
            address = (elf.symbols_at offset i).st_value;
            size = (elf.symbols_at offset i).st_size;
            name = d;
          },
          rw e refl,
        ))

  load_symbols-AreLoaded :
      (left i : ℕ) (a : ℕ → Symbol)
      → AreLoaded strdup elf strtab offset i a
      → (b : ℕ → Symbol) × (load_symbols strdup elf strtab offset left i a ≡ some b)
        × AreLoaded strdup elf strtab offset (i + left) b
  unfolding load_symbols
  load_symbols-AreLoaded zero i a v = (a, refl, λ k h. v k (omega (arith, h)))
  load_symbols-AreLoaded (suc left) i a v =
      let (s, e) = load_symbol-some i in
      let (b, run, w) = load_symbols-AreLoaded left (suc i) (update a i s) (λ k h.
        elim (Bool-cases (i == k)) [
          | inl same ↦
              (let f : i ≡ k = ground arith in
                rw same (ap (load_symbol strdup elf strtab offset) (sym f) ∙ e))
          | inr other ↦ rw other (v k (ground (arith, h, other)))
        ]) in
      (b, rw e run, λ k h. w k (omega (arith, h)))

-- The table has the symbols of the file's symbol table, in the order of their addresses.
abbrev pub Loads :
    (strdup : ℕ → Option ℕ) (kernel : ℕ) (elf : Elf) (symtab : ℕ) → Option Table → Type 0
Loads strdup kernel elf symtab code =
    let section = elf.sections symtab in
    (t' : Table) × (file : ℕ → Symbol) × (code ≡ some t')
    × (t'.count ≡ section.sh_size / 24)
    × AreLoaded strdup elf (kernel + (elf.sections section.sh_link).sh_offset) section.sh_offset
        t'.count file
    × IsRearranged 0 t'.count file t'.symbols
    × IsSorted 0 t'.count t'.symbols

-- When every name can be copied, the array could be grown, and the file has a section table with a symbol
-- table, debug_load_symbols returns a table with the symbols of that table, each of them once, in the
-- order of their addresses.
pub debug_load_symbols-Loads :
    (strdup : ℕ → Option ℕ) (kernel : ℕ) (elf : Elf) (t : Table) (symtab : ℕ)
    → ((s : ℕ) → (d : ℕ) × (strdup s ≡ some d))
    → (elf.e_shoff == 0) ≡ false
    → find_symtab elf.e_shnum 0 elf ≡ some symtab
    → Loads strdup kernel elf symtab (debug_load_symbols strdup true kernel elf t)
unfolding debug_load_symbols
debug_load_symbols-Loads strdup kernel elf t symtab copies present found =
    let section = elf.sections symtab in
    let strtab = kernel + (elf.sections section.sh_link).sh_offset in
    let count = section.sh_size / 24 in
    let (file, loaded, are) =
      load_symbols-AreLoaded strdup copies elf strtab section.sh_offset count 0 t.symbols
        (λ k h. absurd (omega (arith, h))) in
    let (b, sorted, same, order) = sort_symbols-Sorts (suc count) 0 count file (omega arith) in
    (
      record { symbols = b; count = count },
      file,
      rw (present, found, loaded, sorted) refl,
      refl,
      (λ k h. are k (omega (arith, h))),
      same,
      order,
    )
