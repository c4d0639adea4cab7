-- ===== src/Symbols.antt =====
-- kernel/debug/debug.c: the table of symbols, its sorting and its searches. The bounds of a range that the
-- code keeps in an `int`, which goes down to -1, are the first index and the index after the last one.
use tomat_os.Base.{
  ℕ, zero, suc, ◌+◌, ◌-◌, ◌*◌, ◌/◌, ◌%◌, ◌^◌, Bool, true, false, ◌&&◌, Option, none, some, leb, ltb,
  ◌==◌, if◌then◌else◌, update, ◌>>=◌,
}
pub mod Range
pub mod Scan
pub mod Partition
pub mod Sort
pub mod Insert
pub mod Lookup
pub mod Load
mod Examples

-- The name is the address of a copy of the string.
pub record Symbol : Type 0 where
  pub address : ℕ
  pub size : ℕ
  pub name : ℕ

-- `m_symbols` and `m_symbols_count`.
pub record Table : Type 0 where
  pub symbols : ℕ → Symbol
  pub count : ℕ

-- A read past the table is undefined.
abbrev pub read : Table → ℕ → Option Symbol
read t i = if ltb i t.count then some (t.symbols i) else none

abbrev pub swap_symbols : (i j : ℕ) → (ℕ → Symbol) → ℕ → Symbol
swap_symbols i j a = update (update a i (a j)) j (a i)

-- `while (m_symbols[i].address <= p && i <= high - 1) i++`
unfoldable pub scan_up : (fuel p high i : ℕ) → (ℕ → Symbol) → ℕ
scan_up zero p high i a = i
scan_up (suc fuel) p high i a =
    let rest = scan_up fuel p high (suc i) a in
    if leb (a i).address p && ltb i high then rest else i

-- `while (m_symbols[j].address > p && j >= low + 1) j--`
unfoldable pub scan_down : (fuel p low j : ℕ) → (ℕ → Symbol) → ℕ
scan_down zero p low j a = j
scan_down (suc fuel) p low j a =
    let rest = scan_down fuel p low (j - 1) a in
    if ltb p (a j).address && ltb low j then rest else j

-- The loop of `partition_symbols`, on fuel. The scans get the size of the range.
unfoldable pub partition_loop : (fuel p low high i j : ℕ) → (ℕ → Symbol) → Option (ℕ × (ℕ → Symbol))
partition_loop zero p low high i j a = none
partition_loop (suc fuel) p low high i j a =
    if ltb i j
    then (let i = scan_up (high - low) p high i a in
        let j = scan_down (high - low) p low j a in
        partition_loop fuel p low high i j (if ltb i j then swap_symbols i j a else a))
    else some (j, a)

unfoldable pub partition_symbols : (low high : ℕ) → (ℕ → Symbol) → Option (ℕ × (ℕ → Symbol))
partition_symbols low high a = do
  (j, a) ← partition_loop (suc (high - low)) (a low).address low high low high a
  some (j, swap_symbols low j a)

-- The symbols from `low` on, before `stop`.
unfoldable pub sort_symbols : (fuel low stop : ℕ) → (ℕ → Symbol) → Option (ℕ → Symbol)
sort_symbols zero low stop a = none
sort_symbols (suc fuel) low stop a =
    if ltb (suc low) stop
    then (do
      (pi, a) ← partition_symbols low (stop - 1) a
      a ← sort_symbols fuel low pi a
      sort_symbols fuel (suc pi) stop a)
    else some a

-- `some none` is -1. `none` is a read past the table, or the end of the fuel.
unfoldable pub find_loop : (fuel start stop address : ℕ) → Table → Option (Option ℕ)
find_loop zero start stop address t = none
find_loop (suc fuel) start stop address t =
    if ltb start stop
    then (let mid = (start + (stop - 1)) / 2 in
        do
          s ← read t mid
          (if s.address == address
              then some none
              else if ltb s.address address
              then find_loop fuel (suc mid) stop address t
              else find_loop fuel start mid address t))
    else some (some stop)

unfoldable pub find_symbol_insert_index : (address : ℕ) → Table → Option (Option ℕ)
find_symbol_insert_index address t = find_loop (suc t.count) 0 t.count address t

-- `grown` says whether mem_realloc returned an array. The memmove is one of whole symbols.
unfoldable pub do_insert_symbol : (grown : Bool) (index : ℕ) → Symbol → Table → Option Table
do_insert_symbol grown index symbol t =
    if grown
    then some (record {
      symbols =
          update
            (λ k.
              if leb (suc index) k && ltb k (suc t.count) then t.symbols (k - 1) else t.symbols k)
            index symbol;
      count = suc t.count;
    })
    else none

unfoldable pub insert_symbol : (grown : Bool) → Symbol → Table → Option Table
insert_symbol grown symbol t = do
  idx ← find_symbol_insert_index symbol.address t
  elim idx [
    | none ↦ some t
    | some idx ↦
        if ltb idx t.count
        then do_insert_symbol grown idx symbol t
        else do_insert_symbol grown t.count symbol t
  ]

-- `some none` is NULL.
unfoldable pub lookup_loop : (fuel l stop addr : ℕ) → Table → Option (Option ℕ)
lookup_loop zero l stop addr t = none
lookup_loop (suc fuel) l stop addr t =
    if ltb l stop
    then (let m = l + (stop - 1 - l) / 2 in
        do
          s ← read t m
          (if leb s.address addr && ltb addr ((s.address + s.size) % 2 ^ 64)
              then some (some m)
              else if ltb s.address addr
              then lookup_loop fuel (suc m) stop addr t
              else lookup_loop fuel l m addr t))
    else some none

unfoldable pub debug_lookup_symbol : (addr : ℕ) → Table → Option (Option ℕ)
debug_lookup_symbol addr t =
    if t.count == 0 then some none else lookup_loop (suc (suc t.count)) 0 (suc t.count) addr t

-- `copy` is the address that mem_alloc gave for the copy of the name, which is written to.
unfoldable pub debug_create_symbol :
    (copy : Option ℕ) (grown : Bool) (addr size : ℕ) → Table → Option Table
debug_create_symbol copy grown addr size t = do
  found ← debug_lookup_symbol addr t
  elim found [
    | some _ ↦ some t
    | none ↦ (do
      name ← copy
      insert_symbol grown (record { address = addr; size = size; name = name }) t)
  ]
