-- ===== src/Phys/Layout/Inv.antt =====
-- The regions of the second pass, one entry after the other.
use tomat_os.Base.{
  ℕ, suc, ◌+◌, ◌-◌, ◌*◌, ◌%◌, ◌^◌, ◌≤◌, ◌<◌, ◌≡◌, ◌≢◌, ◌⊎◌, inl, inr, refl, sym, ap, ◌∙◌, true,
  false, arith, Bool-cases, ◌==◌,
}
use tomat_os.Virt.Pages.{direct_map_offset}
use tomat_os.Phys.Layout.{
  Entry, Placing, phys_to_direct, end_of, pages_of, start_region, extend_region,
}

-- Whole pages, and addresses below 2^46. The boot loader promises whole pages of its usable and
-- reclaimable entries only, so this is a condition on the others.
pub record IsEntry (e : Entry) : Type 0 where
  pub whole : e.length % 4096 ≡ 0
  pub fits : e.base + e.length ≤ 2 ^ 46

-- The regions' parts of the metadata follow each other from `first` on, and the regions that are not started are empty.
pub record IsSliced (first : ℕ) (p : Placing) : Type 0 where
  pub low : first ≤ p.metadata
  pub begins : (k : ℕ) → k < p.started → first ≤ (p.regions k).metadata
  pub empty : (k : ℕ) → p.started ≤ k → (p.regions k).page_count ≡ 0
  pub ends :
      (k : ℕ) → k < p.started → (p.regions k).metadata + (p.regions k).page_count ≤ p.metadata
  pub slices :
      (j k : ℕ)
      → j < k
      → k < p.started
      → (p.regions j).metadata + (p.regions j).page_count ≤ (p.regions k).metadata

-- The last region ends at the physical address.
abbrev pub EndsAt : Placing → ℕ → Type 0
EndsAt p end =
    (p.started ≢ 0)
    × ((p.regions (p.started - 1)).base + (p.regions (p.started - 1)).page_count * 4096
        ≡ end + direct_map_offset)

-- The entry's pages are in a region.
abbrev pub IsCovered : Placing → Entry → Type 0
IsCovered p e =
    (k : ℕ) × (k < p.started)
    × ((p.regions k).base ≤ e.base + direct_map_offset)
    × (e.base + e.length + direct_map_offset ≤ (p.regions k).base + (p.regions k).page_count * 4096)

-- The regions that are started stay where they are.
pub record Grows (p q : Placing) : Type 0 where
  pub started : p.started ≤ q.started
  pub base : (k : ℕ) → k < p.started → (q.regions k).base ≡ (p.regions k).base
  pub page_count : (k : ℕ) → k < p.started → (p.regions k).page_count ≤ (q.regions k).page_count

pub Grows-refl : (p : Placing) → Grows p p
Grows-refl p = record { started = omega arith; base = λ k h. refl; page_count = λ k h. omega arith }

pub Grows-trans : {p q r : Placing} → Grows p q → Grows q r → Grows p r
Grows-trans g h = record {
  started = omega (arith, g.started, h.started);
  base = λ k l. h.base k (omega (arith, l, g.started)) ∙ g.base k l;
  page_count = λ k l. omega (arith, h.page_count k (omega (arith, l, g.started)), g.page_count k l);
}

pub grown-IsCovered : {p q : Placing} (e : Entry) → Grows p q → IsCovered p e → IsCovered q e
grown-IsCovered e g (k, h, low, high) = (
  k,
  omega (arith, h, g.started),
  omega (arith, low, g.base k h),
  omega (arith, high, g.base k h, g.page_count k h),
)

module _ (e : Entry) (p : Placing) where
  abbrev last : ℕ
  last = p.started - 1

  base_kept : (k : ℕ) → ((extend_region e p).regions k).base ≡ (p.regions k).base
  base_kept k = elim (Bool-cases (last == k)) [
    | inl y ↦ (let s : last ≡ k = ground arith in rw y (ap (λ i. (p.regions i).base) s))
    | inr n ↦ rw n refl
  ]

  metadata_kept : (k : ℕ) → ((extend_region e p).regions k).metadata ≡ (p.regions k).metadata
  metadata_kept k = elim (Bool-cases (last == k)) [
    | inl y ↦ (let s : last ≡ k = ground arith in rw y (ap (λ i. (p.regions i).metadata) s))
    | inr n ↦ rw n refl
  ]

  count_at :
      ((extend_region e p).regions last).page_count ≡ (p.regions last).page_count + pages_of e
  count_at = (let y : (last == last) ≡ true = ground arith in rw y refl)

  count_kept :
      (k : ℕ)
      → (last == k) ≡ false
      → ((extend_region e p).regions k).page_count ≡ (p.regions k).page_count
  count_kept k n = rw n refl

  -- The count of a region is the old one, or it is the last region.
  count_of :
      (k : ℕ)
      → (((extend_region e p).regions k).page_count ≡ (p.regions k).page_count)
        ⊎ ((k ≡ last)
            × (((extend_region e p).regions k).page_count ≡ (p.regions k).page_count + pages_of e))
  count_of k = elim (Bool-cases (last == k)) [
    | inr n ↦ inl (count_kept k n)
    | inl y ↦
        let s : k ≡ last = ground arith in
        inr (
          s,
          ap (λ i. ((extend_region e p).regions i).page_count) s
              ∙ count_at
              ∙ ap (λ i. (p.regions i).page_count + pages_of e) (sym s),
        )
  ]

  pub extended-Grows : Grows p (extend_region e p)
  extended-Grows = record {
    started = omega arith;
    base = λ k h. base_kept k;
    page_count = λ k h. elim (count_of k) [
      | inl same ↦ omega (arith, same)
      | inr (s, more) ↦ omega (arith, more)
    ];
  }

  -- The entry goes on where the last region ends.
  module _ (w : IsEntry e) (there : EndsAt p e.base) where
    pages_whole : pages_of e * 4096 ≡ e.length
    pages_whole = omega (arith, w.whole)

    pub extended-EndsAt : EndsAt (extend_region e p) (end_of e)
    extended-EndsAt =
        let no_wrap : end_of e ≡ e.base + e.length = omega (arith, w.fits) in
        (there.0, omega (arith, base_kept last, count_at, there.1, pages_whole, no_wrap))

    pub extended-IsCovered : IsCovered (extend_region e p) e
    extended-IsCovered =
        let low : (p.regions last).base ≤ e.base + direct_map_offset = omega (arith, there.1) in
        let some_region = there.0 in
        (
          last,
          ground (arith, some_region),
          omega (arith, low, base_kept last),
          omega (arith, base_kept last, count_at, there.1, pages_whole),
        )

  pub extended-IsSliced :
      {first : ℕ} → IsSliced first p → p.started ≢ 0 → IsSliced first (extend_region e p)
  extended-IsSliced v some_region = record {
    low = omega (arith, v.low);
    begins = λ k lt. omega (arith, metadata_kept k, v.begins k lt);
    empty = λ k le. elim (count_of k) [
      | inl same ↦ same ∙ v.empty k le
      | inr (s, more) ↦ absurd (some_region (omega (arith, s, le)))
    ];
    ends = λ k lt. elim (count_of k) [
      | inl same ↦ omega (arith, same, metadata_kept k, v.ends k lt)
      | inr (s, more) ↦ omega (arith, more, metadata_kept k, v.ends k lt)
    ];
    slices = λ j k lt h. elim (count_of j) [
      | inl same ↦ omega (arith, same, metadata_kept j, metadata_kept k, v.slices j k lt h)
      | inr (s, more) ↦ absurd (omega (arith, s, lt, h))
    ];
  }

  -- A new region.
  started_at :
      (start_region e p).regions p.started
      ≡ record (p.regions p.started) { base = phys_to_direct e.base; metadata = p.metadata }
  started_at = (let y : (p.started == p.started) ≡ true = ground arith in rw y refl)

  -- The same under another name of its index.
  new_at :
      (k : ℕ)
      → k ≡ p.started
      → (start_region e p).regions k
        ≡ record (p.regions p.started) { base = phys_to_direct e.base; metadata = p.metadata }
  new_at k same = ap (start_region e p).regions same ∙ started_at

  started_kept : (k : ℕ) → (p.started == k) ≡ false → (start_region e p).regions k ≡ p.regions k
  started_kept k n = rw n refl

  pub started-Grows : Grows p (start_region e p)
  started-Grows = record {
    started = omega arith;
    base = λ k h.
        (let n : (p.started == k) ≡ false = ground arith in ap (λ x. x.base) (started_kept k n));
    page_count = λ k h.
        (let n : (p.started == k) ≡ false = ground arith in
          let s = ap (λ x. x.page_count) (started_kept k n) in omega (arith, s));
  }

  pub started-IsSliced : {first : ℕ} → IsSliced first p → IsSliced first (start_region e p)
  started-IsSliced v = record {
    low = v.low;
    begins = λ k lt. elim (Bool-cases (p.started == k)) [
      | inl y ↦ let c = ap (λ x. x.metadata) (new_at k (ground arith)) in omega (arith, c, v.low)
      | inr n ↦
          (let c = ap (λ x. x.metadata) (started_kept k n) in
            omega (arith, c, v.begins k (ground (arith, lt, n))))
    ];
    empty = λ k le.
        (let n : (p.started == k) ≡ false = ground arith in
          ap (λ x. x.page_count) (started_kept k n) ∙ v.empty k (omega (arith, le)));
    ends = λ k lt. elim (Bool-cases (p.started == k)) [
      | inl y ↦
          let c = ap (λ x. x.metadata + x.page_count) (new_at k (ground arith)) in
          omega (arith, c, v.empty p.started (omega arith))
      | inr n ↦
          (let c = ap (λ x. x.metadata + x.page_count) (started_kept k n) in
            omega (arith, c, v.ends k (ground (arith, lt, n))))
    ];
    slices = λ j k lt h.
        let nj : (p.started == j) ≡ false = ground arith in
        let cj = ap (λ x. x.metadata + x.page_count) (started_kept j nj) in
        elim (Bool-cases (p.started == k)) [
          | inl y ↦
              let ck = ap (λ x. x.metadata) (new_at k (ground arith)) in
              omega (arith, cj, ck, v.ends j (omega (arith, lt, h)))
          | inr n ↦
              let ck = ap (λ x. x.metadata) (started_kept k n) in
              omega (arith, cj, ck, v.slices j k lt (ground (arith, h, n)))
        ];
  }

  pub started-EndsAt : {first : ℕ} → IsSliced first p → IsEntry e → EndsAt (start_region e p) e.base
  started-EndsAt v w = (
    (λ z. absurd (omega (arith, z))),
    (let b = ap (λ x. x.base) (new_at (suc p.started - 1) (omega arith)) in
        let c = ap (λ x. x.page_count) (new_at (suc p.started - 1) (omega arith)) in
        let direct : phys_to_direct e.base ≡ e.base + direct_map_offset = omega (arith, w.fits) in
        omega (arith, b, c, direct, v.empty p.started (omega arith))),
  )
