-- ===== src/Virt/Write.antt =====
-- Writing the entry of one page changes the mapping of that page alone.
use tomat_os.Base.{
  ℕ, ◌≡◌, ◌≢◌, inl, inr, refl, sym, ap, ◌∙◌, Bool, true, false, some, arith, ◌==◌, Bool-cases,
  Option-cases, if◌then◌else◌, subst,
}
use tomat_os.Virt.Tables.{PageEntry, index, set_entry}
use tomat_os.Virt.Mapping.{
  Tables, IsTree, table_at, table_at-key, table_at-same, table_at-page, leaf_from,
  leaf_from-table_at, leaf_from-none, present_entry, same_page, same_page-index, index-same_page,
  path_key,
}

module _ {rank key : ℕ → ℕ} {live : ℕ → Bool} {tables : Tables} {cr3 : ℕ}
    (v : IsTree rank key live tables cr3) (virt u : ℕ) (there : table_at tables 3 cr3 virt ≡ some u)
    (e : PageEntry) where
  abbrev written : Tables
  written = set_entry tables u (index 0 virt) e

  last_rank : rank u ≡ 1
  last_rank = (table_at-key v 3 cr3 virt u v.root_rank there).0

  other_table : (t j : ℕ) → rank t ≢ 1 → written t j ≡ tables t j
  other_table t j n = elim (Bool-cases (u == t)) [
    | inl y ↦ (let q : u ≡ t = ground arith in absurd (n (ap rank (sym q) ∙ last_rank)))
    | inr y ↦ rw y refl
  ]

  written-at : (j : ℕ) → written u j ≡ (if index 0 virt == j then e else tables u j)
  written-at j = ground arith

  pub written-IsTree : IsTree rank key live written cr3
  written-IsTree = record {
    root_rank = v.root_rank;
    root_key = v.root_key;
    child_rank = λ t j d r p.
        let o = other_table t j (λ z. omega arith) in
        ap (λ (x : PageEntry). rank x.frame) o
        ∙ v.child_rank t j d r (ap (λ (x : PageEntry). x.present) (sym o) ∙ p);
    child_key = λ t j d r p.
        let o = other_table t j (λ z. omega arith) in
        ap (λ (x : PageEntry). key x.frame) o
        ∙ v.child_key t j d r (ap (λ (x : PageEntry). x.present) (sym o) ∙ p);
    shared = λ a b ne h.
        let (p, q, r) = v.shared a b ne h in
        let x = other_table cr3 a (λ z. omega (arith, z, v.root_rank)) in
        let y = other_table cr3 b (λ z. omega (arith, z, v.root_rank)) in
        (
          ap (λ (z : PageEntry). z.present) x ∙ p,
          ap (λ (z : PageEntry). z.present) y ∙ q,
          ap (λ (z : PageEntry). z.frame) x ∙ r ∙ sym (ap (λ (z : PageEntry). z.frame) y),
        );
    held = v.held;
  }

  same_way : (va : ℕ) → table_at written 3 cr3 va ≡ table_at tables 3 cr3 va
  same_way va = table_at-same v written 3 cr3 va v.root_rank (λ t j n z. other_table t j n)

  -- Two addresses that reach one table have the same upper indices.
  same_key :
      (va w : ℕ) → table_at tables 3 cr3 va ≡ some w → w ≡ u → path_key 3 0 va ≡ path_key 3 0 virt
  same_key va w h q =
      let a = (table_at-key v 3 cr3 va w v.root_rank h).1 in
      let b = (table_at-key v 3 cr3 virt u v.root_rank there).1 in
      let r = v.root_key in
      ap (λ (k : ℕ). path_key 3 k va) (sym r)
      ∙ sym a
      ∙ ap key q
      ∙ b
      ∙ ap (λ (k : ℕ). path_key 3 k virt) r

  written_leaf :
      (va w : ℕ)
      → table_at tables 3 cr3 va ≡ some w
      → present_entry (written w (index 0 va))
        ≡ (if same_page va virt then present_entry e else present_entry (tables w (index 0 va)))
  written_leaf va w h = elim (Bool-cases (same_page va virt)) [
    | inl y ↦
        (let (three, two, one, zeroth) = same_page-index va virt y in
          let q : some w ≡ some u = sym h ∙ table_at-page v va virt y ∙ there in
          let at : u ≡ w = ground arith in
          let hit : (index 0 virt == index 0 va) ≡ true = ground arith in
          rw y (
            ap (λ x. present_entry x)
              (subst (λ t. written t (index 0 va) ≡ e) at
                (rw (written-at (index 0 va), hit) refl))))
    | inr n ↦ rw n (
        ap (λ x. present_entry x)
          (elim (Bool-cases (u == w)) [
            | inr o ↦ rw o refl
            | inl s ↦
                (let at : w ≡ u = ground arith in
                  let k = same_key va w h at in
                  let miss : (index 0 virt == index 0 va) ≡ false =
                    elim (Bool-cases (index 0 virt == index 0 va)) [
                      | inr o ↦ o
                      | inl z ↦
                          (let one = index-same_page va virt k (ground arith) in
                            absurd (ground arith))
                    ] in
                  rw (s, miss) (ap (λ t. tables t (index 0 va)) (sym at)))
          ]))
  ]

  pub written-leaf :
      (va : ℕ)
      → leaf_from written 3 cr3 va
        ≡ (if same_page va virt then present_entry e else leaf_from tables 3 cr3 va)
  written-leaf va = elim (Option-cases (table_at tables 3 cr3 va)) [
    | inr (w, h) ↦
        rw
          (
            leaf_from-table_at written 3 cr3 va w (same_way va ∙ h),
            leaf_from-table_at tables 3 cr3 va w h,
          )
          (written_leaf va w h)
    | inl h ↦
        (let far : same_page va virt ≡ false = elim (Bool-cases (same_page va virt)) [
          | inr o ↦ o
          | inl y ↦ (let q = sym h ∙ table_at-page v va virt y ∙ there in absurd (ground arith))
        ] in
          rw
            (
              far,
              leaf_from-none written 3 cr3 va (same_way va ∙ h),
              leaf_from-none tables 3 cr3 va h,
            )
            refl)
  ]
