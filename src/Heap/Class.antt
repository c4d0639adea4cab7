-- ===== src/Heap/Class.antt =====
-- One size class of the heap: its list of free blocks in memory, and its watermark.
use tomat_os.Base.{
  ℕ, ◌+◌, ◌%◌, ◌^◌, ◌≤◌, ◌<◌, ◌≡◌, ◌≢◌, refl, sym, ap, ◌∙◌, inl, inr, Bool, true, false, ◌||◌, List,
  [], ◌∷◌, arith, ◌==◌, Bool-cases, update, has, distinct, subst, plus, minus, update-other,
  update_self,
}
use tomat_os.Heap.{alloc_region_bottom, alloc_region_top}

abbrev pub block_bytes : ℕ → ℕ
block_bytes order = 2 ^ (order + 3)

-- The list that starts at `p` is linked through the words at its nodes.
abbrev pub Chain : (ℕ → ℕ) → (p : ℕ) → List ℕ → Type 0
Chain word p [] = p ≡ 0
Chain word p (x ∷ xs) = (p ≡ x) × (p ≢ 0) × Chain word (word p) xs

-- A block of the class lies below the watermark, on a multiple of its size.
pub record IsBlock (order mark a : ℕ) : Type 0 where
  pub from_bottom : alloc_region_bottom order ≤ a
  pub below : a < mark
  pub aligned : a % block_bytes order ≡ 0

-- The free blocks and those that are handed out are the blocks below the watermark.
pub record IsClass (order list mark : ℕ) (word : ℕ → ℕ) (live : ℕ → ℕ → Bool) (free : List ℕ)
    : Type 0 where
  pub chain : Chain word list free
  pub nodup : distinct free ≡ true
  pub from_bottom : alloc_region_bottom order ≤ mark
  pub to_top : mark ≤ alloc_region_top order
  pub mark_aligned : mark % block_bytes order ≡ 0
  pub free_block : (a : ℕ) → has a free ≡ true → IsBlock order mark a
  pub live_block : (a : ℕ) → live order a ≡ true → IsBlock order mark a
  pub alone : (a : ℕ) → has a free ≡ true → live order a ≡ false
  pub all : (a : ℕ) → IsBlock order mark a → (has a free || live order a) ≡ true

-- A word that no node of the list stands at may change.
pub Chain-update :
    (word : ℕ → ℕ) (q v p : ℕ) (xs : List ℕ)
    → has q xs ≡ false
    → Chain word p xs
    → Chain (update word q v) p xs
unfolding has
Chain-update word q v p [] h c = c
Chain-update word q v p (x ∷ xs) h (e, n, c) =
    let other : (q == p) ≡ false = ground arith in
    (
      e,
      n,
      subst (λ t. Chain (update word q v) t xs) (sym (update-other word q p v other))
          (Chain-update word q v (word p) xs (ground arith) c),
    )

-- The same class, at equal values.
pub IsClass-same :
    {o o' list list' mark mark' : ℕ} {word : ℕ → ℕ} {live live' : ℕ → ℕ → Bool}
    {free free' : List ℕ}
    → o ≡ o'
    → list ≡ list'
    → mark ≡ mark'
    → free ≡ free'
    → ((a : ℕ) → live' o a ≡ live o a)
    → IsClass o list mark word live free
    → IsClass o' list' mark' word live' free'
IsClass-same {o} {o'} {list} {list'} {mark} {mark'} {word} {live} {live'} {free} {free'} e f g k l
      c =
    subst (λ t. IsClass t list' mark' word live' free') e
      (subst (λ t. IsClass o t mark' word live' free') f
        (subst (λ t. IsClass o list t word live' free') g
          (subst (λ t. IsClass o list mark word live' t) k
            (record {
              chain = c.chain;
              nodup = c.nodup;
              from_bottom = c.from_bottom;
              to_top = c.to_top;
              mark_aligned = c.mark_aligned;
              free_block = c.free_block;
              live_block = λ a h. c.live_block a (sym (l a) ∙ h);
              alone = λ a h. l a ∙ c.alone a h;
              all = λ a b. ap (λ t. has a free || t) (l a) ∙ c.all a b;
            }))))

module _ {o list mark : ℕ} {word : ℕ → ℕ} {live : ℕ → ℕ → Bool} where
  -- The first free block is handed out.
  pub pop-IsClass :
      (x : ℕ) (xs : List ℕ)
      → IsClass o list mark word live (x ∷ xs)
      → IsClass o (word list) mark word (plus live o x) xs
  unfolding has distinct
  pop-IsClass x xs c =
      let (e, n, rest) = c.chain in
      let d = c.nodup in
      record {
        chain = rest;
        nodup = ground arith;
        from_bottom = c.from_bottom;
        to_top = c.to_top;
        mark_aligned = c.mark_aligned;
        free_block = λ a h. c.free_block a (ground arith);
        live_block = λ a h. elim (Bool-cases (a == x)) [
          | inl y ↦ c.free_block a (ground arith)
          | inr y ↦ c.live_block a (ground arith)
        ];
        alone = λ a h. elim (Bool-cases (a == x)) [
          | inl y ↦ absurd (
              let q : a ≡ x = ground arith in
              let u : has x xs ≡ true = subst (λ t. has t xs ≡ true) q h in ground arith)
          | inr y ↦ ground (arith, c.alone a)
        ];
        all = λ a b. ground (arith, c.all a b);
      }

  -- A block goes back to the head of the list.
  pub push-IsClass :
      (p : ℕ) (xs : List ℕ)
      → p ≢ 0
      → live o p ≡ true
      → IsClass o list mark word live xs
      → IsClass o p mark (update word p list) (minus live o p) (p ∷ xs)
  unfolding has distinct
  push-IsClass p xs n out c =
      let absent : has p xs ≡ false = ground (arith, c.alone p) in
      record {
        chain = (
          refl,
          n,
          subst (λ t. Chain (update word p list) t xs) (sym (update_self word p list))
              (Chain-update word p list list xs absent c.chain),
        );
        nodup = ground (arith, c.nodup);
        from_bottom = c.from_bottom;
        to_top = c.to_top;
        mark_aligned = c.mark_aligned;
        free_block = λ a h. elim (Bool-cases (a == p)) [
          | inl y ↦ c.live_block a (let q : a ≡ p = ground arith in ap (live o) q ∙ out)
          | inr y ↦ c.free_block a (ground arith)
        ];
        live_block = λ a h. c.live_block a (ground arith);
        alone = λ a h. ground (arith, c.alone a);
        all = λ a b. ground (arith, c.all a b);
      }

  -- A word at no free block changes.
  pub write-IsClass :
      (q v : ℕ) (xs : List ℕ)
      → has q xs ≡ false
      → IsClass o list mark word live xs
      → IsClass o list mark (update word q v) live xs
  write-IsClass q v xs h c = record {
    chain = Chain-update word q v list xs h c.chain;
    nodup = c.nodup;
    from_bottom = c.from_bottom;
    to_top = c.to_top;
    mark_aligned = c.mark_aligned;
    free_block = c.free_block;
    live_block = c.live_block;
    alone = c.alone;
    all = c.all;
  }
