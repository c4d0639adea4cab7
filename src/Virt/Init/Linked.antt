-- ===== src/Virt/Init/Linked.antt =====
-- The entries of the shadow, one after the other.
use tomat_os.Base.{
  ℕ, suc, ◌+◌, ◌*◌, ◌%◌, ◌^◌, ◌<◌, ◌≡◌, inl, inr, refl, sym, ap, ◌∙◌, Bool, true, false, arith,
  ◌==◌, Bool-cases, subst,
}
use tomat_os.Virt.Pages.{PageAllocator}
use tomat_os.Virt.Tables.{PageEntry, Space, index, set_entry}
use tomat_os.Virt.Mapping.{Tables, IsForest, home_slot, home_slot-cases, slot}
use tomat_os.Virt.Init.{top_virt, in_heap, shadow_entry, copy_shadow}

-- An entry of the PML4 that leads to the table of its slot.
module _ {rank key : ℕ → ℕ} {live : ℕ → Bool} {tables : Tables} {cr3 : ℕ}
    (v : IsForest rank key live tables cr3) (b : ℕ) (e : PageEntry) (to : rank e.frame ≡ 3)
    (at : key e.frame ≡ home_slot b) where
  linked :
      (t i d : ℕ)
      → rank t ≡ suc (suc d)
      → (set_entry tables cr3 b e t i).present ≡ true
      → (rank (set_entry tables cr3 b e t i).frame ≡ suc d)
        × (key (set_entry tables cr3 b e t i).frame ≡ key t * 512 + slot d i)
  linked t i d r p = elim (Bool-cases (cr3 == t)) [
    | inr n ↦
        let p' : (tables t i).present ≡ true = ground arith in
        rw n (v.child_rank t i d r p', v.child_key t i d r p')
    | inl y ↦ elim (Bool-cases (b == i)) [
      | inr m ↦
          let same : cr3 ≡ t = ground arith in
          let p' : (tables t i).present ≡ true =
            subst (λ u. (tables u i).present ≡ true) same (ground arith) in
          let here : set_entry tables cr3 b e t i ≡ tables t i =
            rw (y, m) (ap (λ u. tables u i) same) in
          (
            ap (λ (x : PageEntry). rank x.frame) here ∙ v.child_rank t i d r p',
            ap (λ (x : PageEntry). key x.frame) here ∙ v.child_key t i d r p',
          )
      | inl z ↦
          let same : cr3 ≡ t = ground arith in
          let there : b ≡ i = ground arith in
          let two : d ≡ 2 = omega (arith, r, ap rank same, v.root_rank) in
          let here : set_entry tables cr3 b e t i ≡ e = rw (y, z) refl in
          (
            ap (λ (x : PageEntry). rank x.frame) here ∙ to ∙ omega (arith, two),
            ap (λ (x : PageEntry). key x.frame) here
                ∙ at
                ∙ omega
                    (arith, ap home_slot there, ap (λ n. slot n i) two, ap key same, v.root_key),
          )
    ]
  ]

  pub linked-IsForest : IsForest rank key live (set_entry tables cr3 b e) cr3
  linked-IsForest = record {
    root_rank = v.root_rank;
    root_key = v.root_key;
    child_rank = λ t i d r p. (linked t i d r p).0;
    child_key = λ t i d r p. (linked t i d r p).1;
    held = v.held;
  }

-- The first `i` entries and their shadows.
pub record IsMade (A : PageAllocator) (live : ℕ → Bool) (i : ℕ) (s : Space A.State) : Type 0 where
  pub rank : ℕ → ℕ
  pub key : ℕ → ℕ
  pub tables : IsForest rank key live s.tables s.cr3
  pub pages : A.Holds live s.pages
  pub made :
      (j : ℕ)
      → j < i
      → ((s.tables s.cr3 (256 + j)).present ≡ true)
        × ((s.tables s.cr3 (288 + j)).present ≡ true)
        × ((s.tables s.cr3 (256 + j)).frame ≡ (s.tables s.cr3 (288 + j)).frame)

pub top_slot : (i : ℕ) → i < 32 → index 3 (top_virt i) ≡ 256 + i
top_slot i h = omega arith

shadow_slot : (i : ℕ) → i < 32 → index 3 ((top_virt i + 2 ^ 44) % 2 ^ 64) ≡ 288 + i
shadow_slot i h = omega arith

shadow_entry_lem :
    (i : ℕ) (e : PageEntry)
    → ((shadow_entry i e).present ≡ e.present) × ((shadow_entry i e).frame ≡ e.frame)
shadow_entry_lem i e = elim (Bool-cases (in_heap (top_virt i))) [
  | inl y ↦ rw y (refl, refl)
  | inr n ↦ rw n (refl, refl)
]

module _ (tables : Tables) (cr3 b : ℕ) (e : PageEntry) where
  at_slot : set_entry tables cr3 b e cr3 b ≡ e
  at_slot = ground arith

  at_other : (j : ℕ) → (b == j) ≡ false → set_entry tables cr3 b e cr3 j ≡ tables cr3 j
  at_other j n = ground arith

module _ {A : PageAllocator} where
  pub copied-IsMade :
      {live : ℕ → Bool} (i : ℕ) (s : Space A.State)
      → i < 32
      → IsMade A live i s
      → (s.tables s.cr3 (256 + i)).present ≡ true
      → IsMade A live (suc i) (copy_shadow i s)
  copied-IsMade i s lt v p =
      let e = s.tables s.cr3 (256 + i) in
      let (same, there) = shadow_entry_lem i e in
      let to : v.rank e.frame ≡ 3 = v.tables.child_rank s.cr3 (256 + i) 2 v.tables.root_rank p in
      let at : v.key e.frame ≡ home_slot (288 + i) = omega (
        arith,
        v.tables.child_key s.cr3 (256 + i) 2 v.tables.root_rank p,
        v.tables.root_key,
        home_slot-cases (256 + i),
        home_slot-cases (288 + i),
      ) in
      let a = top_slot i lt in
      let b = shadow_slot i lt in
      rw (a, b)
        (record {
          rank = v.rank;
          key = v.key;
          tables =
              linked-IsForest v.tables (288 + i) (shadow_entry i e) (ap v.rank there ∙ to)
                (ap v.key there ∙ at);
          pages = v.pages;
          made = λ j h.
              let low : (288 + i == 256 + j) ≡ false = ground arith in
              let x = at_other s.tables s.cr3 (288 + i) (shadow_entry i e) (256 + j) low in
              elim (Bool-cases (i == j)) [
                | inl y ↦
                    let is : i ≡ j = ground arith in
                    let z : set_entry s.tables s.cr3 (288 + i) (shadow_entry i e) s.cr3 (288 + j)
                        ≡ shadow_entry i e =
                      ap
                        (λ k. set_entry s.tables s.cr3 (288 + i) (shadow_entry i e) s.cr3 (288 + k))
                        (sym is)
                      ∙ at_slot s.tables s.cr3 (288 + i) (shadow_entry i e) in
                    (
                      ap (λ (q : PageEntry). q.present) x
                          ∙ ap (λ k. (s.tables s.cr3 (256 + k)).present) (sym is)
                          ∙ p,
                      ap (λ (q : PageEntry). q.present) z ∙ same ∙ p,
                      ap (λ (q : PageEntry). q.frame) x
                          ∙ ap (λ k. (s.tables s.cr3 (256 + k)).frame) (sym is)
                          ∙ sym (ap (λ (q : PageEntry). q.frame) z ∙ there),
                    )
                | inr n ↦
                    let miss : (288 + i == 288 + j) ≡ false = ground arith in
                    let z = at_other s.tables s.cr3 (288 + i) (shadow_entry i e) (288 + j) miss in
                    let (before, shadow, one) = v.made j (ground arith) in
                    (
                      ap (λ (q : PageEntry). q.present) x ∙ before,
                      ap (λ (q : PageEntry). q.present) z ∙ shadow,
                      ap (λ (q : PageEntry). q.frame) x
                          ∙ one
                          ∙ sym (ap (λ (q : PageEntry). q.frame) z),
                    )
              ];
        })
