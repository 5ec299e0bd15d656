-- ===== src/Vm/Growing.antt =====
-- `allocuvm` when there is a page for memory, and none for a page table.
use sistema_operativo.Base.{
  ℕ, zero, suc, ◌+◌, ◌/◌, ◌%◌, ◌≤◌, ◌<◌, ◌≡◌, ◌≢◌, refl, ap, ◌∙◌, Bool, false, none, ok, ltb, leb,
  if◌then◌else◌, lt→ltb, arith, ==_ne, ltb-false,
}
use sistema_operativo.Kalloc.{Kmem, pgsize, kernbase, v2p, kalloc, pg_round_up}
use sistema_operativo.Vm.{
  user_writable, pde_of, is_present, walkpgdir, new_table, map_page, mappages, zero_page, add_pages,
  allocuvm,
}
use sistema_operativo.Vm.Mapping.{walkpgdir-absent, kalloc-none, kalloc-some, mappages-map_page}

walkpgdir-missing :
    (pgdir va : ℕ) (k : Kmem)
    → is_present (k.word (pde_of pgdir va)) ≡ false
    → walkpgdir pgdir va false k ≡ (none, k)
unfolding walkpgdir
walkpgdir-missing pgdir va k e = rw (e, walkpgdir) refl

if_false {ℓ} : {A : Type ℓ} (b : Bool) (x y : A) → b ≡ false → (if b then x else y) ≡ y
if_false b x y e = rw e refl

module _ (end : ℕ) where
  allocuvm-add_pages :
      (pgdir oldsz newsz : ℕ) (k : Kmem)
      → newsz < kernbase
      → oldsz ≤ newsz
      → allocuvm end pgdir oldsz newsz k
        ≡ add_pages end (suc (newsz / pgsize)) pgdir (pg_round_up oldsz) oldsz newsz k
  unfolding allocuvm
  allocuvm-add_pages pgdir oldsz newsz k h l =
      if_false (leb kernbase newsz) _ _ below
      ∙ if_false (ltb newsz oldsz) _ _ (ltb-false newsz oldsz l)
    where
      below : leb kernbase newsz ≡ false
      below = ground arith

  add_pages-done :
      (fuel pgdir a oldsz newsz : ℕ) (k : Kmem)
      → newsz ≤ a
      → add_pages end fuel pgdir a oldsz newsz k ≡ ok (newsz, k)
  unfolding add_pages
  add_pages-done zero pgdir a oldsz newsz k h = refl
  add_pages-done (suc fuel) pgdir a oldsz newsz k h = rw (ltb-false a newsz h, add_pages) refl

  add_pages-step :
      (fuel pgdir a oldsz newsz mem : ℕ) (k k' : Kmem) (r : Bool × Kmem)
      → a < newsz
      → kalloc k ≡ (mem, k')
      → mem ≢ 0
      → mappages pgdir a pgsize (v2p mem) user_writable (record k' { word = zero_page mem k'.word })
        ≡ ok r
      → add_pages end (suc fuel) pgdir a oldsz newsz k
        ≡ add_pages end fuel pgdir (a + pgsize) oldsz newsz r.1
  unfolding add_pages
  add_pages-step fuel pgdir a oldsz newsz mem k k' r h e nz m =
      rw (lt→ltb a newsz h, add_pages, e, ==_ne mem 0 nz, m) refl

  -- With one free page, and no table for the page behind `oldsz`, `allocuvm` of one page returns the new size,
  -- although the page is not mapped, and the free page is lost.
  pub allocuvm-unmapped :
      (pgdir oldsz : ℕ) (k : Kmem)
      → oldsz % pgsize ≡ 0
      → oldsz + pgsize < kernbase
      → k.freelist ≢ 0
      → k.word k.freelist ≡ 0
      → is_present (zero_page k.freelist k.word (pde_of pgdir oldsz)) ≡ false
      → (k' : Kmem) × (allocuvm end pgdir oldsz (oldsz + pgsize) k ≡ ok (oldsz + pgsize, k'))
        × ((walkpgdir pgdir oldsz false k').0 ≡ none)
        × (k'.freelist ≡ 0)
  allocuvm-unmapped pgdir oldsz k al l nz last absent = (
    k2,
    allocuvm-add_pages pgdir oldsz (oldsz + pgsize) k l (omega arith)
        ∙ ap (λ a. add_pages end (suc ((oldsz + pgsize) / pgsize)) pgdir a oldsz (oldsz + pgsize) k)
            start
        ∙ add_pages-step ((oldsz + pgsize) / pgsize) pgdir oldsz oldsz (oldsz + pgsize) k.freelist k
            k1 (false, k2) (omega arith) (kalloc-some k nz) nz unmapped
        ∙ add_pages-done ((oldsz + pgsize) / pgsize) pgdir (oldsz + pgsize) oldsz (oldsz + pgsize)
            k2 (omega arith),
    ap (λ r. r.0) (walkpgdir-missing pgdir oldsz k2 absent),
    last,
  )
    where
      k1 : Kmem
      k1 = record k { freelist = k.word k.freelist }

      k2 : Kmem
      k2 = record k1 { word = zero_page k.freelist k1.word }

      start : pg_round_up oldsz ≡ oldsz
      start = omega arith

      unmapped : mappages pgdir oldsz pgsize (v2p k.freelist) user_writable k2 ≡ ok (false, k2)
      unmapped =
          mappages-map_page pgdir oldsz (v2p k.freelist) user_writable k2 al (omega arith)
          ∙ ap (map_page (v2p k.freelist) user_writable) (
              walkpgdir-absent pgdir oldsz k2 absent
              ∙ ap (new_table pgdir oldsz) (kalloc-none k2 last))
