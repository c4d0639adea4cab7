-- ===== src/Heap/Copy.antt =====
-- Copying words between blocks.
use tomat_os.Base.{
  ℕ, zero, suc, ◌+◌, ◌*◌, ◌≤◌, ◌<◌, ◌≡◌, ◌⊎◌, refl, ap, ◌∙◌, inl, inr, Bool, true, false, arith,
  ◌==◌, update, update_self, update-other, subst,
}
use tomat_os.Heap.{Heap, copy_words}
use tomat_os.Heap.Class.{block_bytes, write-IsClass}
use tomat_os.Heap.Sound.{IsHeap}
use tomat_os.Heap.Free.{inside-absent}

-- A word at no node of a list is as it was.
pub copy_words-outside :
    (n to from : ℕ) (word : ℕ → ℕ) (x : ℕ)
    → (x < to) ⊎ (to + 8 * n ≤ x)
    → copy_words n to from word x ≡ word x
unfolding copy_words
copy_words-outside zero to from word x far = refl
copy_words-outside (suc n) to from word x far =
    let other : (to == x) ≡ false = ground arith in
    copy_words-outside n (to + 8) (from + 8) (update word to (word from)) x
      (elim far [ inl lo ↦ inl (omega arith) | inr hi ↦ inr (omega arith) ])
    ∙ update-other word to x (word from) other

-- Every word of a range goes to its place, if the two ranges share no address.
pub copy_words-inside :
    (n to from i : ℕ) (word : ℕ → ℕ)
    → i < n
    → (to + 8 * n ≤ from) ⊎ (from + 8 * n ≤ to)
    → copy_words n to from word (to + 8 * i) ≡ word (from + 8 * i)
unfolding copy_words
copy_words-inside zero to from i word lt apart = absurd (omega arith)
copy_words-inside (suc n) to from zero word lt apart =
    let start : to ≡ to + 8 * 0 = omega arith in
    let source : from ≡ from + 8 * 0 = omega arith in
    subst
      (λ t. copy_words n (to + 8) (from + 8) (update word to (word from)) t ≡ word (from + 8 * 0))
      start
      (copy_words-outside n (to + 8) (from + 8) (update word to (word from)) to (inl (omega arith))
        ∙ update_self word to (word from)
        ∙ ap word source)
copy_words-inside (suc n) to from (suc i) word lt apart =
    let target : to + 8 + 8 * i ≡ to + 8 * suc i = omega arith in
    let source : from + 8 + 8 * i ≡ from + 8 * suc i = omega arith in
    let other : (to == from + 8 + 8 * i) ≡ false = elim apart [
      | inl lo ↦ ground arith
      | inr hi ↦ ground arith
    ] in
    subst
      (λ t.
        copy_words n (to + 8) (from + 8) (update word to (word from)) t ≡ word (from + 8 * suc i))
      target
      (copy_words-inside n (to + 8) (from + 8) i (update word to (word from)) (omega arith)
          (elim apart [ inl lo ↦ inl (omega arith) | inr hi ↦ inr (omega arith) ])
        ∙ update-other word to (from + 8 + 8 * i) (word from) other
        ∙ ap word source)

module _ {live : ℕ → ℕ → Bool} (o a : ℕ) (out : live o a ≡ true) where
  -- A write inside of a block that is handed out keeps the heap well-formed.
  pub write-IsHeap :
      {h : Heap} (q x : ℕ)
      → IsHeap live h
      → a ≤ q
      → q < a + block_bytes o
      → IsHeap live (record h { word = update h.word q x })
  write-IsHeap q x v lo hi = record {
    free = v.free;
    unlocked = v.unlocked;
    tops = v.tops;
    classes = λ j lt.
        write-IsClass q x (v.free j) (inside-absent v o a out q j lo hi lt) (v.classes j lt);
    known = v.known;
  }

  pub copy_words-IsHeap :
      (n to from : ℕ) (h : Heap)
      → IsHeap live h
      → a ≤ to
      → to + 8 * n ≤ a + block_bytes o
      → IsHeap live (record h { word = copy_words n to from h.word })
  unfolding copy_words
  copy_words-IsHeap zero to from h v lo hi = v
  copy_words-IsHeap (suc n) to from h v lo hi =
      copy_words-IsHeap n (to + 8) (from + 8) (record h { word = update h.word to (h.word from) })
        (write-IsHeap to (h.word from) v lo (omega arith)) (omega arith) (omega arith)
