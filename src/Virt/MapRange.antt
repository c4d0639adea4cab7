-- ===== src/Virt/MapRange.antt =====
-- `virt_map_range` maps each page of the range, and no other.
use tomat_os.Base.{
  ℕ, suc, ◌+◌, ◌/◌, ◌%◌, ◌^◌, ◌≤◌, ◌<◌, ◌≡◌, ◌⊎◌, inl, inr, sym, ap, ◌∙◌, Bool, true, false, Option,
  some, arith, Bool-cases, dec_le, if◌then◌else◌, subst,
}
use tomat_os.Errors.{Err, no_error, out_of_memory}
use tomat_os.Virt.Pages.{PageAllocator}
use tomat_os.Virt.Tables.{PageEntry, Space, map_entry}
use tomat_os.Virt.Mapping.{leaf, same_page, home_page, home_page-cases, present_entry}
use tomat_os.Virt.Ranges.{page_address}
use tomat_os.Virt.Walk.{IsExhausted}
use tomat_os.Virt.Map.{After, MapsPage}

-- The address is in one of `left` pages from page `i` on.
pub record InRange (virt left i va : ℕ) : Type 0 where
  pub page : ℕ
  pub from : i ≤ page
  pub below : page < i + left
  pub at : same_page va (page_address virt page) ≡ true

-- Of the pages of a range an address is in one at most.
pub page_unique :
    (virt va j k : ℕ)
    → j < 2 ^ 32
    → k < 2 ^ 32
    → same_page va (page_address virt j) ≡ true
    → same_page va (page_address virt k) ≡ true
    → j ≡ k
page_unique virt va j k hj hk e f =
    let n = va / 2 ^ 12 % 2 ^ 36 in
    let p : home_page n ≡ home_page (page_address virt j / 2 ^ 12 % 2 ^ 36) = ground arith in
    let q : home_page n ≡ home_page (page_address virt k / 2 ^ 12 % 2 ^ 36) = ground arith in
    omega (
      arith,
      p,
      q,
      home_page-cases (page_address virt j / 2 ^ 12 % 2 ^ 36),
      home_page-cases (page_address virt k / 2 ^ 12 % 2 ^ 36),
    )

abbrev pub Outside : {S : Type 0} → (virt left i : ℕ) → Space S → Space S → Type 0
Outside virt left i s s' = (va : ℕ) → (InRange virt left i va → ⊥) → leaf s' va ≡ leaf s va

-- Every page of the range has its entry.
abbrev pub Inside : {S : Type 0} → (virt left i : ℕ) → (ℕ → PageEntry) → Space S → Type 0
Inside virt left i entry s' =
    (va j : ℕ)
    → i ≤ j
    → j < i + left
    → same_page va (page_address virt j) ≡ true
    → leaf s' va ≡ present_entry (entry j)

abbrev pub MapsRange :
    (A : PageAllocator) (live : ℕ → Bool) (virt left i : ℕ) (entry : ℕ → PageEntry)
    (s : Space A.State)
    → Option (Err × Space A.State)
    → Type 0
MapsRange A live virt left i entry s code =
    (err : Err) × (s' : Space A.State) × (code ≡ some (err, s'))
    × After A live s'
    × Outside virt left i s s'
    × (((err ≡ out_of_memory) × IsExhausted A s'.pages)
        ⊎ ((err ≡ no_error) × Inside virt left i entry s'))

far :
    (virt left i va : ℕ)
    → i + suc left ≤ 2 ^ 32
    → (InRange virt (suc left) i va → ⊥)
    → same_page va (page_address virt i) ≡ false
far virt left i va h out = elim (Bool-cases (same_page va (page_address virt i))) [
  | inr o ↦ o
  | inl y ↦ absurd (out (record { page = i; from = omega arith; below = omega arith; at = y }))
]

later : (virt left i va : ℕ) → (InRange virt (suc left) i va → ⊥) → InRange virt left (suc i) va → ⊥
later virt left i va out r = out (record {
  page = r.page;
  from = omega (arith, r.from);
  below = omega (arith, r.below);
  at = r.at;
})

-- One page and then the rest of the range.
module _ {S : Type 0} (virt left i : ℕ) (entry : ℕ → PageEntry) (room : i + suc left ≤ 2 ^ 32)
    (s t u : Space S) (one : MapsPage (page_address virt i) (entry i) s t)
    (outside : Outside virt left (suc i) t u) where
  pub join-Outside : Outside virt (suc left) i s u
  join-Outside va out =
      outside va (later virt left i va out)
      ∙ one va
      ∙ ap (λ b. if b then present_entry (entry i) else leaf s va) (far virt left i va room out)

  pub join-Inside : Inside virt left (suc i) entry u → Inside virt (suc left) i entry u
  join-Inside inside va j lo hi at = elim (dec_le (suc i) j) [
    | yes le ↦ inside va j le (omega arith) at
    | no first ↦
        (let here : i ≡ j = omega arith in
          let at' : same_page va (page_address virt i) ≡ true =
            subst (λ k. same_page va (page_address virt k) ≡ true) (sym here) at in
          let none_later : InRange virt left (suc i) va → ⊥ = λ r.
            (let q = page_unique virt va i r.page (omega arith) (omega (arith, r.below)) at' r.at in
              omega (arith, r.from)) in
          outside va none_later
          ∙ one va
          ∙ ap (λ b. if b then present_entry (entry i) else leaf s va) at'
          ∙ ap (λ k. present_entry (entry k)) here)
  ]

-- `After` of a step and then of another.
pub After-trans :
    {A : PageAllocator} {live : ℕ → Bool} {s t : Space A.State}
    → (a : After A live s) → After A a.live' t
    → After A live t
After-trans a b = record {
  live' = b.live';
  sound = b.sound;
  live_kept = λ f h. b.live_kept f (a.live_kept f h);
}

abbrev pub range_entry : (phys flags : ℕ) → ℕ → PageEntry
range_entry phys flags j = map_entry (page_address phys j) flags
