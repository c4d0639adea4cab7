-- ===== src/Virt/Grow.antt =====
-- A new, empty table in the tree changes no mapping.
use tomat_os.Base.{
  ℕ, zero, suc, ◌+◌, ◌*◌, ◌≡◌, ◌≢◌, inl, inr, refl, sym, ap, ◌∙◌, Bool, true, false, ◌&&◌, none,
  arith, ◌==◌, Bool-cases, update, update_self, update-other, subst, subst₂,
}
use tomat_os.Virt.Tables.{PageEntry, index, empty_entry, set_entry, clear_table}
use tomat_os.Virt.Mapping.{Tables, IsTree, IsForest, IsShared, shared-IsTree, leaf_from, slot}

-- The tree of the first tables is part of that of the second, and the mappings are the same.
pub record Grows (rank key rank' key' : ℕ → ℕ) (live live' : ℕ → Bool) (tables tables' : Tables)
    : Type 0 where
  pub rank_kept : (t : ℕ) → rank t ≢ 0 → rank' t ≡ rank t
  pub key_kept : (t : ℕ) → rank t ≢ 0 → key' t ≡ key t
  pub live_kept : (f : ℕ) → live f ≡ true → live' f ≡ true
  pub entry_kept :
      (t i d : ℕ) → rank t ≡ suc (suc d) → (tables t i).present ≡ true → tables' t i ≡ tables t i
  pub leaf_kept : (d t va : ℕ) → rank t ≡ suc d → leaf_from tables' d t va ≡ leaf_from tables d t va

pub Grows-refl :
    (rank key : ℕ → ℕ) (live : ℕ → Bool) (tables : Tables)
    → Grows rank key rank key live live tables tables
Grows-refl rank key live tables = record {
  rank_kept = λ t n. refl;
  key_kept = λ t n. refl;
  live_kept = λ f h. h;
  entry_kept = λ t i d r p. refl;
  leaf_kept = λ d t va r. refl;
}

pub Grows-trans :
    {rank key rank' key' rank'' key'' : ℕ → ℕ} {live live' live'' : ℕ → Bool}
    {tables tables' tables'' : Tables}
    → Grows rank key rank' key' live live' tables tables'
    → Grows rank' key' rank'' key'' live' live'' tables' tables''
    → Grows rank key rank'' key'' live live'' tables tables''
Grows-trans {tables} {tables'} g h = record {
  rank_kept = λ t n. let e = g.rank_kept t n in h.rank_kept t (λ z. n (sym e ∙ z)) ∙ e;
  key_kept = λ t n. let e = g.rank_kept t n in h.key_kept t (λ z. n (sym e ∙ z)) ∙ g.key_kept t n;
  live_kept = λ f l. h.live_kept f (g.live_kept f l);
  entry_kept = λ t i d r p.
      let e = g.entry_kept t i d r p in
      h.entry_kept t i d (g.rank_kept t (λ z. omega arith) ∙ r)
        (ap (λ (x : PageEntry). x.present) e ∙ p)
      ∙ e;
  leaf_kept =
      λ d t va r. h.leaf_kept d t va (g.rank_kept t (λ z. omega arith) ∙ r) ∙ g.leaf_kept d t va r;
}

module _ {rank key : ℕ → ℕ} {live live' : ℕ → Bool} {tables : Tables} {cr3 : ℕ}
    (v : IsForest rank key live tables cr3) (grow : (g : ℕ) → live g ≡ true → live' g ≡ true)
    (t i d f : ℕ) (at : rank t ≡ suc (suc d)) (absent : (tables t i).present ≡ false)
    (fresh : live f ≡ false) (taken : live' f ≡ true) (e : PageEntry) (here : e.present ≡ true)
    (there : e.frame ≡ f) where
  abbrev with_table : Tables
  with_table = set_entry (clear_table tables f) t i e

  no_rank : rank f ≡ 0
  no_rank = elim (Bool-cases (rank f == 0)) [
    | inl z ↦ ground arith
    | inr n ↦ (let h = v.held f (λ z. ground arith) in ground arith)
  ]

  pub not_same : (u : ℕ) → rank u ≢ 0 → (f == u) ≡ false
  not_same u n = elim (Bool-cases (f == u)) [
    | inr o ↦ o
    | inl s ↦ (let q : f ≡ u = ground arith in absurd (n (ap rank (sym q) ∙ no_rank)))
  ]

  pub slot_lem : with_table t i ≡ e
  slot_lem = let o = not_same t (λ z. omega arith) in ground arith

  fresh_lem : (j : ℕ) → with_table f j ≡ empty_entry
  fresh_lem j = let o = not_same t (λ z. omega arith) in ground arith

  pub other_lem :
      (u j : ℕ) → (f == u) ≡ false → ((t == u) && (i == j)) ≡ false → with_table u j ≡ tables u j
  other_lem u j n m = ground (arith, not_same t)

  empty_leaf : (n va : ℕ) → leaf_from with_table n f va ≡ none
  unfolding leaf_from
  empty_leaf zero va = rw (fresh_lem (index 0 va)) refl
  empty_leaf (suc n) va = rw (fresh_lem (index (suc n) va)) refl

  kept : (n u va : ℕ) → rank u ≡ suc n → leaf_from with_table n u va ≡ leaf_from tables n u va
  unfolding leaf_from
  kept zero u va r =
      let o = not_same u (λ z. omega arith) in
      let m : ((t == u) && (i == index 0 va)) ≡ false = ground (arith, ap rank {x = t} {y = u}) in
      rw (other_lem u (index 0 va) o m) refl
  kept (suc n) u va r =
      let o = not_same u (λ z. omega arith) in
      elim (Bool-cases ((t == u) && (i == index (suc n) va))) [
        | inr m ↦
            rw (other_lem u (index (suc n) va) o m)
              (elim (Bool-cases (tables u (index (suc n) va)).present) [
                | inr gone ↦ rw gone refl
                | inl p ↦ rw p (
                    kept n (tables u (index (suc n) va)).frame va
                      (v.child_rank u (index (suc n) va) n r p))
              ])
        | inl m ↦
            let tu : t ≡ u = ground arith in
            let ij : i ≡ index (suc n) va = ground arith in
            let new : with_table u (index (suc n) va) ≡ e =
              subst₂ (λ a b. with_table a b ≡ e) tu ij slot_lem in
            let old : (tables u (index (suc n) va)).present ≡ false =
              subst₂ (λ a b. (tables a b).present ≡ false) tu ij absent in
            rw (new, here, there, old) (empty_leaf n va)
      ]

  abbrev rank' : ℕ → ℕ
  rank' = update rank f (suc d)

  abbrev key' : ℕ → ℕ
  key' = update key f (key t * 512 + slot d i)

  pub rank_other : (u : ℕ) → rank u ≢ 0 → rank' u ≡ rank u
  rank_other u n = update-other rank f u (suc d) (not_same u n)

  pub key_other : (u : ℕ) → rank u ≢ 0 → key' u ≡ key u
  key_other u n = update-other key f u (key t * 512 + slot d i) (not_same u n)

  pub new_table-Grows : Grows rank key rank' key' live live' tables with_table
  new_table-Grows = record {
    rank_kept = rank_other;
    key_kept = key_other;
    live_kept = grow;
    entry_kept = λ u j n r p. elim (Bool-cases ((t == u) && (i == j))) [
      | inr m ↦ other_lem u j (not_same u (λ z. omega arith)) m
      | inl m ↦
          (let tu : t ≡ u = ground arith in
            let ij : i ≡ j = ground arith in
            let old : (tables u j).present ≡ false =
              subst₂ (λ a b. (tables a b).present ≡ false) tu ij absent in
            absurd (ground arith))
    ];
    leaf_kept = kept;
  }

  new_child :
      (u j n : ℕ)
      → rank' u ≡ suc (suc n)
      → (with_table u j).present ≡ true
      → (rank' (with_table u j).frame ≡ suc n)
        × (key' (with_table u j).frame ≡ key' u * 512 + slot n j)
  new_child u j n r p = elim (Bool-cases (f == u)) [
    | inl s ↦
        (let q : f ≡ u = ground arith in
          let none_there = subst (λ x. with_table x j ≡ empty_entry) q (fresh_lem j) in
          absurd (ground arith))
    | inr o ↦
        (let old : rank u ≡ suc (suc n) = sym (update-other rank f u (suc d) o) ∙ r in
          elim (Bool-cases ((t == u) && (i == j))) [
            | inl m ↦
                (let tu : t ≡ u = ground arith in
                  let ij : i ≡ j = ground arith in
                  let new : with_table u j ≡ e =
                    subst₂ (λ a b. with_table a b ≡ e) tu ij slot_lem in
                  let to : (with_table u j).frame ≡ f =
                    ap (λ (x : PageEntry). x.frame) new ∙ there in
                  let same : rank u ≡ suc (suc d) = ap rank (sym tu) ∙ at in
                  (
                    ap rank' to ∙ update-self_rank ∙ omega arith,
                    ap key' to
                        ∙ update-self_key
                        ∙ sym (
                            ap (λ (k : ℕ). k * 512 + slot n j) (key_other u (λ z. omega arith))
                            ∙ child_name u j n tu ij (omega (arith, same, old))),
                  ))
            | inr m ↦
                (let same = other_lem u j o m in
                  let p' : (tables u j).present ≡ true =
                    ap (λ (x : PageEntry). x.present) (sym same) ∙ p in
                  let to : (with_table u j).frame ≡ (tables u j).frame =
                    ap (λ (x : PageEntry). x.frame) same in
                  let r' = v.child_rank u j n old p' in
                  (
                    ap rank' to ∙ rank_other (tables u j).frame (λ z. omega arith) ∙ r',
                    ap key' to
                        ∙ key_other (tables u j).frame (λ z. omega arith)
                        ∙ v.child_key u j n old p'
                        ∙ sym (ap (λ (k : ℕ). k * 512 + slot n j) (key_other u (λ z. omega arith))),
                  ))
          ])
  ]
    where
      update-self_rank : rank' f ≡ suc d
      update-self_rank = update_self rank f (suc d)

      update-self_key : key' f ≡ key t * 512 + slot d i
      update-self_key = update_self key f (key t * 512 + slot d i)

      child_name :
          (u j n : ℕ) → t ≡ u → i ≡ j → d ≡ n → key u * 512 + slot n j ≡ key t * 512 + slot d i
      child_name u j n tu ij dn =
          omega (arith, ap key tu, ap (λ k. slot k i) dn ∙ ap (λ k. slot n k) ij)

  pub new_table-IsForest : IsForest rank' key' live' with_table cr3
  new_table-IsForest = record {
    root_rank = rank_other cr3 (λ z. omega (arith, v.root_rank)) ∙ v.root_rank;
    root_key = key_other cr3 (λ z. omega (arith, v.root_rank)) ∙ v.root_key;
    child_rank = λ u j n r p. (new_child u j n r p).0;
    child_key = λ u j n r p. (new_child u j n r p).1;
    held = λ u n. elim (Bool-cases (f == u)) [
      | inl s ↦ (let q : f ≡ u = ground arith in ap live' (sym q) ∙ taken)
      | inr o ↦ grow u (v.held u (λ z. n (update-other rank f u (suc d) o ∙ z)))
    ];
  }

  pub new_table-IsTree : IsShared tables cr3 → IsTree rank' key' live' with_table cr3
  new_table-IsTree w = shared-IsTree new_table-IsForest λ a b ne h.
      let (p, q, r) = w a b ne h in
      let x = new_table-Grows.entry_kept cr3 a 2 v.root_rank p in
      let y = new_table-Grows.entry_kept cr3 b 2 v.root_rank q in
      (
        ap (λ (z : PageEntry). z.present) x ∙ p,
        ap (λ (z : PageEntry). z.present) y ∙ q,
        ap (λ (z : PageEntry). z.frame) x ∙ r ∙ sym (ap (λ (z : PageEntry). z.frame) y),
      )

  pub new_table_rank : rank' f ≡ suc d
  new_table_rank = update_self rank f (suc d)

  pub new_table_key : key' f ≡ key t * 512 + slot d i
  new_table_key = update_self key f (key t * 512 + slot d i)
