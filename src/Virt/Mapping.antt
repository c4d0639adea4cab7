-- ===== src/Virt/Mapping.antt =====
-- What the page tables stand for: the entry of each virtual page.
use tomat_os.Base.{
  ℕ, zero, suc, ◌+◌, ◌-◌, ◌<◌, ◌≤◌, ◌⊎◌, ◌&&◌, ltb, leb, ◌*◌, ◌/◌, ◌%◌, ◌^◌, ◌≡◌, ◌≢◌, inl, inr,
  refl, ap, ◌∙◌, Bool, true, Option, none, some, arith, ◌==◌, Bool-cases, if◌then◌else◌,
}
use tomat_os.Virt.Tables.{PageEntry, Space, index}

abbrev pub Tables : Type 0
Tables = ℕ → ℕ → PageEntry

-- The table that an address reaches `depth` levels below `table`.
unfoldable pub table_at : Tables → (depth table va : ℕ) → Option ℕ
table_at tables zero table va = some table
table_at tables (suc depth) table va =
    if (tables table (index (suc depth) va)).present
    then table_at tables depth (tables table (index (suc depth) va)).frame va
    else none

abbrev pub present_entry : PageEntry → Option PageEntry
present_entry e = if e.present then some e else none

-- The entry that maps an address, from the table at `depth`.
unfoldable pub leaf_from : Tables → (depth table va : ℕ) → Option PageEntry
leaf_from tables zero table va = present_entry (tables table (index 0 va))
leaf_from tables (suc depth) table va =
    if (tables table (index (suc depth) va)).present
    then leaf_from tables depth (tables table (index (suc depth) va)).frame va
    else none

unfoldable pub leaf : {S : Type 0} → Space S → ℕ → Option PageEntry
unfolding leaf_from
leaf s va = leaf_from s.tables 3 s.cr3 va

-- `init_virt` copies the entries 256 to 287 of the PML4 to the entries 288 to 319, so that each page
-- from there on is also seen 16 TB above, in the shadow.
unfoldable pub home_slot : ℕ → ℕ
home_slot i = if leb 288 i && ltb i 320 then i - 32 else i

unfoldable pub home_page : ℕ → ℕ
home_page n = if leb 38654705664 n && ltb n 42949672960 then n - 4294967296 else n

-- Of two addresses the same page is meant, be it in the shadow or not.
abbrev pub same_page : ℕ → ℕ → Bool
same_page va wa = home_page (va / 2 ^ 12 % 2 ^ 36) == home_page (wa / 2 ^ 12 % 2 ^ 36)

pub home_slot-cases :
    (i : ℕ)
    → ((home_slot i ≡ i) × ((i < 288) ⊎ (320 ≤ i)))
      ⊎ ((home_slot i + 32 ≡ i) × (288 ≤ i) × (i < 320))
unfolding home_slot
home_slot-cases i = elim (Bool-cases (leb 288 i && ltb i 320)) [
  | inl y ↦ inr (rw y (ground arith), ground arith, ground arith)
  | inr n ↦ inl (rw n refl, ground arith)
]

pub home_page-cases :
    (n : ℕ)
    → ((home_page n ≡ n) × ((n < 38654705664) ⊎ (42949672960 ≤ n)))
      ⊎ ((home_page n + 4294967296 ≡ n) × (38654705664 ≤ n) × (n < 42949672960))
unfolding home_page
home_page-cases n = elim (Bool-cases (leb 38654705664 n && ltb n 42949672960)) [
  | inl y ↦ inr (rw y (ground arith), ground arith, ground arith)
  | inr m ↦ inl (rw m refl, ground arith)
]

-- The part of a table's key that an entry gives.
abbrev pub slot : (d i : ℕ) → ℕ
slot zero i = i
slot (suc zero) i = i
slot (suc (suc d)) i = home_slot i

-- The tables form a tree: `rank` is 4 for the PML4 down to 1 for a PML1, and 0 for what is no table;
-- `key` is the part of the addresses that leads to the table, which the shadow shares with what it
-- shows: its entries of the PML4 lead to the same tables. Tables stand in frames `live`.
pub record IsTree (rank key : ℕ → ℕ) (live : ℕ → Bool) (tables : Tables) (cr3 : ℕ) : Type 0 where
  pub root_rank : rank cr3 ≡ 4
  pub root_key : key cr3 ≡ 0
  pub child_rank :
      (t i d : ℕ)
      → rank t ≡ suc (suc d)
      → (tables t i).present ≡ true
      → rank (tables t i).frame ≡ suc d
  pub child_key :
      (t i d : ℕ)
      → rank t ≡ suc (suc d)
      → (tables t i).present ≡ true
      → key (tables t i).frame ≡ key t * 512 + slot d i
  pub shared :
      (i j : ℕ)
      → i ≢ j
      → home_slot i ≡ home_slot j
      → ((tables cr3 i).present ≡ true)
        × ((tables cr3 j).present ≡ true)
        × ((tables cr3 i).frame ≡ (tables cr3 j).frame)
  pub held : (t : ℕ) → rank t ≢ 0 → live t ≡ true

-- The same for tables of which the shadow is not made yet.
pub record IsForest (rank key : ℕ → ℕ) (live : ℕ → Bool) (tables : Tables) (cr3 : ℕ) : Type 0 where
  pub root_rank : rank cr3 ≡ 4
  pub root_key : key cr3 ≡ 0
  pub child_rank :
      (t i d : ℕ)
      → rank t ≡ suc (suc d)
      → (tables t i).present ≡ true
      → rank (tables t i).frame ≡ suc d
  pub child_key :
      (t i d : ℕ)
      → rank t ≡ suc (suc d)
      → (tables t i).present ≡ true
      → key (tables t i).frame ≡ key t * 512 + slot d i
  pub held : (t : ℕ) → rank t ≢ 0 → live t ≡ true

abbrev pub IsShared : (tables : Tables) (cr3 : ℕ) → Type 0
IsShared tables cr3 =
    (i j : ℕ)
    → i ≢ j
    → home_slot i ≡ home_slot j
    → ((tables cr3 i).present ≡ true)
      × ((tables cr3 j).present ≡ true)
      × ((tables cr3 i).frame ≡ (tables cr3 j).frame)

pub forest :
    {rank key : ℕ → ℕ} {live : ℕ → Bool} {tables : Tables} {cr3 : ℕ}
    → IsTree rank key live tables cr3
    → IsForest rank key live tables cr3
forest v = record {
  root_rank = v.root_rank;
  root_key = v.root_key;
  child_rank = v.child_rank;
  child_key = v.child_key;
  held = v.held;
}

pub shared-IsTree :
    {rank key : ℕ → ℕ} {live : ℕ → Bool} {tables : Tables} {cr3 : ℕ}
    → IsForest rank key live tables cr3
    → IsShared tables cr3
    → IsTree rank key live tables cr3
shared-IsTree v h = record {
  root_rank = v.root_rank;
  root_key = v.root_key;
  child_rank = v.child_rank;
  child_key = v.child_key;
  shared = h;
  held = v.held;
}

-- The key of the table that an address reaches.
abbrev pub path_key : (depth key va : ℕ) → ℕ
path_key zero k va = k
path_key (suc depth) k va = path_key depth (k * 512 + slot depth (index (suc depth) va)) va

module _ {rank key : ℕ → ℕ} {live : ℕ → Bool} {tables : Tables} {cr3 : ℕ}
    (v : IsTree rank key live tables cr3) where
  pub table_at-key :
      (d t va u : ℕ)
      → rank t ≡ suc d
      → table_at tables d t va ≡ some u
      → (rank u ≡ 1) × (key u ≡ path_key d (key t) va)
  unfolding table_at
  table_at-key zero t va u r e = (ground arith, ground arith)
  table_at-key (suc d) t va u r e = elim (Bool-cases (tables t (index (suc d) va)).present) [
    | inr n ↦ absurd (ground arith)
    | inl p ↦
        let k = v.child_key t (index (suc d) va) d r p in
        let (rank_u, key_u) =
          table_at-key d (tables t (index (suc d) va)).frame va u
            (v.child_rank t (index (suc d) va) d r p) (ground arith) in
        (rank_u, key_u ∙ ap (λ (n : ℕ). path_key d n va) k)
  ]

  -- The way to the last table is not changed by a change of what it does not read.
  pub table_at-same :
      (tables' : Tables) (d t va : ℕ)
      → rank t ≡ suc d
      → ((u i : ℕ) → rank u ≢ 1 → rank u ≢ 0 → tables' u i ≡ tables u i)
      → table_at tables' d t va ≡ table_at tables d t va
  unfolding table_at
  table_at-same tables' zero t va r same = refl
  table_at-same tables' (suc d) t va r same =
      let e = same t (index (suc d) va) (λ z. omega arith) (λ z. omega arith) in
      elim (Bool-cases (tables t (index (suc d) va)).present) [
        | inr n ↦ rw (e, n) refl
        | inl p ↦
            rw (e, p)
              (table_at-same tables' d (tables t (index (suc d) va)).frame va
                (v.child_rank t (index (suc d) va) d r p) same)
      ]

-- The entry of an address stands in its last table.
pub leaf_from-table_at :
    (tables : Tables) (d t va u : ℕ)
    → table_at tables d t va ≡ some u
    → leaf_from tables d t va ≡ present_entry (tables u (index 0 va))
unfolding table_at leaf_from
leaf_from-table_at tables zero t va u e = ground arith
leaf_from-table_at tables (suc d) t va u e =
    elim (Bool-cases (tables t (index (suc d) va)).present) [
      | inr n ↦ absurd (ground arith)
      | inl p ↦
          rw p (leaf_from-table_at tables d (tables t (index (suc d) va)).frame va u (ground arith))
    ]

pub leaf_from-none :
    (tables : Tables) (d t va : ℕ) → table_at tables d t va ≡ none → leaf_from tables d t va ≡ none
unfolding table_at leaf_from
leaf_from-none tables zero t va e = absurd (ground arith)
leaf_from-none tables (suc d) t va e = elim (Bool-cases (tables t (index (suc d) va)).present) [
  | inr n ↦ rw n refl
  | inl p ↦ rw p (leaf_from-none tables d (tables t (index (suc d) va)).frame va (ground arith))
]

-- Two addresses of one page go through the same tables to the same entry.
pub same_page-index :
    (va wa : ℕ)
    → same_page va wa ≡ true
    → (home_slot (index 3 va) ≡ home_slot (index 3 wa))
      × (index 2 va ≡ index 2 wa)
      × (index 1 va ≡ index 1 wa)
      × (index 0 va ≡ index 0 wa)
same_page-index va wa h =
    let e : home_page (va / 2 ^ 12 % 2 ^ 36) ≡ home_page (wa / 2 ^ 12 % 2 ^ 36) = ground arith in
    let p = home_page-cases (va / 2 ^ 12 % 2 ^ 36) in
    let q = home_page-cases (wa / 2 ^ 12 % 2 ^ 36) in
    let s = home_slot-cases (index 3 va) in
    let t = home_slot-cases (index 3 wa) in
    (
      omega (arith, e, p, q, s, t),
      omega (arith, e, p, q),
      omega (arith, e, p, q),
      omega (arith, e, p, q),
    )

pub index-same_page :
    (va wa : ℕ)
    → path_key 3 0 va ≡ path_key 3 0 wa
    → index 0 va ≡ index 0 wa
    → same_page va wa ≡ true
index-same_page va wa h k =
    let e : home_page (va / 2 ^ 12 % 2 ^ 36) ≡ home_page (wa / 2 ^ 12 % 2 ^ 36) = omega (
      arith,
      h,
      k,
      home_page-cases (va / 2 ^ 12 % 2 ^ 36),
      home_page-cases (wa / 2 ^ 12 % 2 ^ 36),
      home_slot-cases (index 3 va),
      home_slot-cases (index 3 wa),
    ) in
    ground arith

pub table_at-page :
    {rank key : ℕ → ℕ} {live : ℕ → Bool} {tables : Tables} {cr3 : ℕ}
    → IsTree rank key live tables cr3
    → (va wa : ℕ) → same_page va wa ≡ true
    → table_at tables 3 cr3 va ≡ table_at tables 3 cr3 wa
unfolding table_at
table_at-page {tables} {cr3} v va wa h =
    let (three, two, one, zeroth) = same_page-index va wa h in
    elim (Bool-cases (index 3 va == index 3 wa)) [
      | inl y ↦ (let same : index 3 va ≡ index 3 wa = ground arith in rw (same, two, one) refl)
      | inr n ↦
          (let (p, q, r) = v.shared (index 3 va) (index 3 wa) (λ z. ground arith) three in
            rw (p, q, r, two, one) refl)
    ]
