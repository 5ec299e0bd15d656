-- ===== src/Kalloc/FreeList.antt =====
-- The free list as a list of pages, none of which stands in it twice.
use sistema_operativo.Base.{
  ℕ, zero, suc, ◌+◌, ◌-◌, ◌/◌, ◌%◌, ◌<◌, ◌≤◌, ◌≡◌, ◌≢◌, ◌⊎◌, refl, sym, subst, true, false, ok,
  halt, panic, update, List, [], ◌∷◌, count, count-cons, count-nil, arith,
}
use sistema_operativo.Kalloc.{
  Kmem, pgsize, junk, is_page, kfree, kalloc, free_pages, freerange, kinit1, pg_round_up, phystop,
  kernbase,
}

-- The first words of the pages chain them, and the last is 0.
abbrev pub Chain : (ℕ → ℕ) → ℕ → List ℕ → Type 0
Chain word v [] = v ≡ 0
Chain word v (x ∷ xs) = (v ≡ x) × (x ≢ 0) × Chain word (word x) xs

module _ (end : ℕ) where
  abbrev pub Pages : List ℕ → Type 0
  Pages [] = Unit
  Pages (x ∷ xs) = (is_page end x ≡ true) × (count x xs ≡ 0) × Pages xs

  -- The allocator holds exactly the pages of the list, the next one first.
  pub record Holds (k : Kmem) (l : List ℕ) : Type 0 where
    pub chain : Chain k.word k.freelist l
    pub pages : Pages l

  -- Writing the page `v` leaves a list alone that does not hold it.
  Chain-junk :
      (word : ℕ → ℕ) (v w a : ℕ) (l : List ℕ)
      → is_page end v ≡ true
      → Pages l
      → count v l ≡ 0
      → Chain word a l
      → Chain (update (junk word v) v w) a l
  Chain-junk word v w a [] page pages new chain = chain
  Chain-junk word v w a (x ∷ xs) page pages new chain = (
    chain.0,
    chain.1,
    subst (λ b. Chain (update (junk word v) v w) b xs) (sym kept)
        (Chain-junk word v w (word x) xs page pages.2 (ground (arith, count-cons v x xs)) chain.2),
  )
    where
      kept : update (junk word v) v w x ≡ word x
      kept = ground (arith, pages.0, count-cons v x xs)

  -- `kfree` of a page that is not free puts it at the front of the list, and changes no word outside
  -- the page.
  pub kfree_lem :
      (v : ℕ) {k : Kmem} {l : List ℕ}
      → 0 < end
      → Holds k l
      → is_page end v ≡ true
      → count v l ≡ 0
      → (k' : Kmem) × (kfree end v k ≡ ok k')
        × Holds k' (v ∷ l)
        × ((a : ℕ) → (a < v) ⊎ (v + pgsize ≤ a) → k'.word a ≡ k.word a)
        × (k'.use_lock ≡ k.use_lock)
  unfolding kfree
  kfree_lem v {k} {l} pos held page new = (
    record k { word = update (junk k.word v) v k.freelist; freelist = v },
    rw page,
    record {
      chain = (
        refl,
        ground arith,
        subst (λ b. Chain (update (junk k.word v) v k.freelist) b l) here
            (Chain-junk k.word v k.freelist k.freelist l page held.pages new held.chain),
      );
      pages = (page, new, held.pages);
    },
    λ a out. ground arith,
    refl,
  )
    where
      here : k.freelist ≡ update (junk k.word v) v k.freelist v
      here = ground arith

  -- `kfree` of an address that is not aligned, below the end of the kernel or not below PHYSTOP panics.
  pub kfree_panics :
      (v : ℕ) (k : Kmem) → is_page end v ≡ false → kfree end v k ≡ halt (panic "kfree")
  unfolding kfree
  kfree_panics v k bad = rw bad

  -- `kalloc` takes the first page off the list: it is a page, and no longer free.
  pub kalloc_some :
      (x : ℕ) (xs : List ℕ) {k : Kmem}
      → Holds k (x ∷ xs)
      → (k' : Kmem) × (kalloc k ≡ (x, k'))
        × Holds k' xs
        × (is_page end x ≡ true)
        × (count x xs ≡ 0)
        × ((a : ℕ) → k'.word a ≡ k.word a)
  unfolding kalloc
  kalloc_some x xs {k} held = (
    record k { freelist = k.word k.freelist },
    ground (arith, held.chain.0, held.chain.1),
    record {
      chain = subst (λ a. Chain k.word (k.word a) xs) (sym held.chain.0) held.chain.2;
      pages = held.pages.2;
    },
    held.pages.0,
    held.pages.1,
    λ a. refl,
  )

  pub kalloc_none : {k : Kmem} → Holds k [] → kalloc k ≡ (0, k)
  unfolding kalloc
  kalloc_none held = ground (arith, held.chain)

  -- What `kfree` frees, `kalloc` returns next, and the list is as before.
  pub kalloc-kfree :
      (v : ℕ) {k : Kmem} {l : List ℕ}
      → 0 < end
      → Holds k l
      → is_page end v ≡ true
      → count v l ≡ 0
      → (k1 : Kmem) × (k2 : Kmem) × (kfree end v k ≡ ok k1) × (kalloc k1 ≡ (v, k2)) × Holds k2 l
  kalloc-kfree v {k} {l} pos held page new =
      let (k1, freed, held1, same, lock) = kfree_lem v pos held page new in
      let (k2, taken, held2, page', new', words) = kalloc_some v l held1 in
      (k1, k2, freed, taken, held2)

  -- The list after `n` pages from `p` on are freed.
  abbrev pub freed : ℕ → ℕ → List ℕ → List ℕ
  freed zero p l = l
  freed (suc n) p l = freed n (p + pgsize) (p ∷ l)

  page_in :
      (p vend : ℕ)
      → end ≤ p
      → kernbase ≤ p
      → p % pgsize ≡ 0
      → p + pgsize ≤ vend
      → vend ≤ kernbase + phystop
      → is_page end p ≡ true
  page_in p vend a b c d e = ground arith

  free_pages_lem :
      (fuel n p vend : ℕ) {k : Kmem} {l : List ℕ}
      → 0 < end
      → Holds k l
      → end ≤ p
      → kernbase ≤ p
      → p % pgsize ≡ 0
      → vend ≤ kernbase + phystop
      → n ≡ (vend - p) / pgsize
      → n < fuel
      → ((a : ℕ) → p ≤ a → count a l ≡ 0)
      → (k' : Kmem) × (free_pages end fuel p vend k ≡ ok k') × Holds k' (freed n p l)
  unfolding free_pages
  free_pages_lem zero n p vend pos held low base aligned high e enough new = absurd (omega arith)
  free_pages_lem (suc fuel) zero p vend {k} pos held low base aligned high e enough new =
      (k, ground arith, held)
  free_pages_lem (suc fuel) (suc n) p vend {k} {l} pos held low base aligned high e enough new =
      let (k1, done, held1, same, lock) =
        kfree_lem p pos held (page_in p vend low base aligned (omega arith) high)
          (new p (omega arith)) in
      let (k2, made, held2) =
        free_pages_lem fuel n (p + pgsize) vend pos held1 (omega arith) (omega arith) (omega arith)
          high (omega arith) (omega arith) (λ a h. ground (arith, count-cons a p l, new a)) in
      (k2, ground (arith, done, made), held2)

  -- `kinit1` on an empty list frees every whole page between its two addresses, each once, and the
  -- loop ends by its test.
  pub kinit1_lem :
      (vstart vend : ℕ) (k : Kmem)
      → 0 < end
      → k.freelist ≡ 0
      → end ≤ vstart
      → kernbase ≤ vstart
      → vstart ≤ vend
      → vend ≤ kernbase + phystop
      → (k' : Kmem) × (kinit1 end vstart vend k ≡ ok k')
        × Holds k' (freed ((vend - pg_round_up vstart) / pgsize) (pg_round_up vstart) [])
  unfolding kinit1 freerange
  kinit1_lem vstart vend k pos empty low base order high =
      free_pages_lem (suc (vend / pgsize)) ((vend - pg_round_up vstart) / pgsize)
        (pg_round_up vstart) vend pos (record { chain = empty; pages = tt }) (omega arith)
        (omega arith) (omega arith) high refl (omega arith) (λ a h. count-nil a)
