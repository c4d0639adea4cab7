-- ===== src/Virt/Shadow.antt =====
-- The tables that `init_virt` leaves: the entries 256 to 287 of the PML4 lead to empty tables, and the
-- entries 288 to 319, the shadow, to the same ones.
use tomat_os.Base.{
  ℕ, suc, ◌+◌, ◌-◌, ◌≤◌, ◌<◌, ◌≡◌, ◌≢◌, refl, sym, ap, ◌∙◌, Bool, true, ◌&&◌, arith, ltb, leb, ◌==◌,
  if◌then◌else◌,
}
use tomat_os.Virt.Tables.{empty_entry}
use tomat_os.Virt.Mapping.{Tables, IsTree, home_slot, home_slot-cases, slot}

-- The PML4 stands in frame `root`, and the 32 tables in the frames after it.
unfoldable pub shadowed : (root : ℕ) → Tables
shadowed root t i =
    if t == root && leb 256 i && ltb i 320
    then record {
      present = true;
      writeable = true;
      no_execute = true;
      frame = home_slot i + root - 255;
    }
    else empty_entry

unfoldable pub shadowed_rank : (root t : ℕ) → ℕ
shadowed_rank root t = if t == root then 4 else if ltb root t && leb t (root + 32) then 3 else 0

unfoldable pub shadowed_key : (root t : ℕ) → ℕ
shadowed_key root t = if t == root then 0 else t + 255 - root

module _ (root : ℕ) where
  at_root :
      (i : ℕ)
      → 256 ≤ i
      → i < 320
      → ((shadowed root root i).present ≡ true)
        × ((shadowed root root i).frame ≡ home_slot i + root - 255)
  unfolding shadowed
  at_root i lo hi =
      let y : (root == root && leb 256 i && ltb i 320) ≡ true = ground arith in
      (rw y refl, rw y refl)

  only_root : (t i : ℕ) → (shadowed root t i).present ≡ true → (t ≡ root) × (256 ≤ i) × (i < 320)
  unfolding shadowed
  only_root t i p = (ground arith, ground arith, ground arith)

  home_range : (i : ℕ) → 256 ≤ i → i < 320 → (256 ≤ home_slot i) × (home_slot i < 288)
  home_range i lo hi = (omega (arith, home_slot-cases i), omega (arith, home_slot-cases i))

  root_rank : shadowed_rank root root ≡ 4
  unfolding shadowed_rank
  root_rank = ground arith

  table_rank : (t : ℕ) → root < t → t ≤ root + 32 → shadowed_rank root t ≡ 3
  unfolding shadowed_rank
  table_rank t lo hi = ground arith

  ranked : (t : ℕ) → shadowed_rank root t ≢ 0 → (root ≤ t) × (t ≤ root + 32)
  unfolding shadowed_rank
  ranked t n = (ground arith, ground arith)

  table_key : (t : ℕ) → root < t → shadowed_key root t ≡ t + 255 - root
  unfolding shadowed_key
  table_key t lo = ground arith

  root_key : shadowed_key root root ≡ 0
  unfolding shadowed_key
  root_key = ground arith

  child :
      (t i d : ℕ)
      → shadowed_rank root t ≡ suc (suc d)
      → (shadowed root t i).present ≡ true
      → (d ≡ 2)
        × (shadowed_rank root (shadowed root t i).frame ≡ 3)
        × (shadowed_key root t ≡ 0)
        × (shadowed_key root (shadowed root t i).frame ≡ home_slot i)
  child t i d r p =
      let (same, lo, hi) = only_root t i p in
      let f : (shadowed root t i).frame ≡ home_slot i + root - 255 =
        ap (λ u. (shadowed root u i).frame) same ∙ (at_root i lo hi).1 in
      let (from, to) = home_range i lo hi in
      (
        omega (arith, sym r ∙ ap (λ u. shadowed_rank root u) same ∙ root_rank),
        ap (λ u. shadowed_rank root u) f
            ∙ table_rank (home_slot i + root - 255) (omega (arith, from)) (omega (arith, from, to)),
        ap (λ u. shadowed_key root u) same ∙ root_key,
        ap (λ u. shadowed_key root u) f
            ∙ table_key (home_slot i + root - 255) (omega (arith, from))
            ∙ omega (arith, from),
      )

  pub shadowed-IsTree :
      (live : ℕ → Bool)
      → ((t : ℕ) → root ≤ t → t ≤ root + 32 → live t ≡ true)
      → IsTree (shadowed_rank root) (shadowed_key root) live (shadowed root) root
  shadowed-IsTree live held = record {
    root_rank = root_rank;
    root_key = root_key;
    child_rank = λ t i d r p. (let (e, a, b, c) = child t i d r p in a ∙ omega (arith, e));
    child_key = λ t i d r p.
        (let (e, a, b, c) = child t i d r p in c ∙ omega (arith, b, ap (λ n. slot n i) e));
    shared = λ i j ne h.
        let s = home_slot-cases i in
        let t = home_slot-cases j in
        let lo : 256 ≤ i = omega (arith, s, t, h, ne) in
        let hi : i < 320 = omega (arith, s, t, h, ne) in
        let lo' : 256 ≤ j = omega (arith, s, t, h, ne) in
        let hi' : j < 320 = omega (arith, s, t, h, ne) in
        (
          (at_root i lo hi).0,
          (at_root j lo' hi').0,
          (at_root i lo hi).1 ∙ ap (λ k. k + root - 255) h ∙ sym (at_root j lo' hi').1,
        );
    held = λ t n. (let (lo, hi) = ranked t n in held t lo hi);
  }
