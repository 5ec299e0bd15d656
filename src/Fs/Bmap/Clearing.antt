-- ===== src/Fs/Bmap/Clearing.antt =====
-- The loops of `itrunc`.
use sistema_operativo.Base.{
  ℕ, zero, suc, ◌+◌, ◌≤◌, ◌<◌, ◌≡◌, ◌≢◌, inr, refl, sym, ap, ◌∙◌, subst, ok, update, arith,
  update_self, update_ne, ==_iff, ==_ne,
}
use native.Mathlib.Decide.{ℕ_discrete}
use sistema_operativo.Fs.{Superblock, Blocks}
use sistema_operativo.Fs.Alloc.{bfree}
use sistema_operativo.Fs.Bmap.{FileMap, load_word, free_direct, free_entries}
use sistema_operativo.Fs.Bmap.Extend.{IsOwned}
use sistema_operativo.Fs.Bmap.Freeing.{
  Held, Freed, Freed-none, Freed-append, bfree-Freed, CanFree, CanFree-later, Freed-step,
  Freed-skip,
}

module _ (sb : Superblock) where
  -- The branches of one step of the loops.
  entries_kept :
      (a : ℕ → ℕ) (n j : ℕ) (bl : Blocks)
      → load_word a j ≡ 0
      → free_entries sb a (suc n) j bl ≡ free_entries sb a n (suc j) bl
  unfolding free_entries
  entries_kept a n j bl z = rw ((==_iff (load_word a j) 0).1 z, free_entries) refl

  entries_freed :
      (a : ℕ → ℕ) (n j : ℕ) (bl bl' : Blocks)
      → load_word a j ≢ 0
      → bfree sb (load_word a j) bl ≡ ok bl'
      → free_entries sb a (suc n) j bl ≡ free_entries sb a n (suc j) bl'
  unfolding free_entries
  entries_freed a n j bl bl' nz e = rw (==_ne (load_word a j) 0 nz, free_entries, e) refl

  pub free_entries_lem :
      (a : ℕ → ℕ) (n j hi : ℕ) (bl : Blocks)
      → j + n ≡ hi
      → CanFree sb (load_word a) j hi bl
      → (bl' : Blocks) × (free_entries sb a n j bl ≡ ok bl')
        × Freed sb (Held (load_word a) j hi) bl bl'
  unfolding free_entries
  free_entries_lem a zero j hi bl e c =
      (bl, refl, Freed-none sb (Held (load_word a) j hi) bl (λ x h. omega (arith, h)))
  free_entries_lem a (suc n) j hi bl e c = elim (ℕ_discrete (load_word a j) 0) [
    | yes z ↦
        let (bl', computes, f) = free_entries_lem a n (suc j) hi bl (omega arith) (
          CanFree-later sb (load_word a) j hi (λ x. ⊥) c (Freed-none sb (λ x. ⊥) bl (λ x e. e))
            (λ k l h nz e. e)) in
        (bl', entries_kept a n j bl z ∙ computes, Freed-skip sb (load_word a) j hi z f)
    | no nz ↦
        let (bl1, one, g) =
          bfree-Freed sb bl (load_word a j) (c.owned j (omega arith) (omega arith) nz) in
        let (bl', computes, f) = free_entries_lem a n (suc j) hi bl1 (omega arith) (
          CanFree-later sb (load_word a) j hi (λ x. load_word a j ≡ x) c g
            (λ k l h nz' q.
              c.distinct j k (omega arith) (omega arith) (omega arith) h (omega arith) nz q)) in
        (
          bl',
          entries_freed a n j bl bl1 nz one ∙ computes,
          Freed-step sb (load_word a) j hi (omega arith) nz g f,
        )
  ]

  direct_kept :
      (n i : ℕ) (f : FileMap)
      → f.addrs i ≡ 0
      → free_direct sb (suc n) i f ≡ free_direct sb n (suc i) f
  unfolding free_direct
  direct_kept n i f z = rw ((==_iff (f.addrs i) 0).1 z, free_direct) refl

  direct_freed :
      (n i : ℕ) (f : FileMap) (bl : Blocks)
      → f.addrs i ≢ 0
      → bfree sb (f.addrs i) f.blocks ≡ ok bl
      → free_direct sb (suc n) i f
        ≡ free_direct sb n (suc i) (record { addrs = update f.addrs i 0; blocks = bl })
  unfolding free_direct
  direct_freed n i f bl nz e = rw (==_ne (f.addrs i) 0 nz, free_direct, e) refl

  -- What the loop over the direct blocks from `i` up to `hi` leaves.
  pub record Cleared (i hi : ℕ) (f f' : FileMap) : Type 0 where
    pub inside : (k : ℕ) → i ≤ k → k < hi → f'.addrs k ≡ 0
    pub below : (k : ℕ) → k < i → f'.addrs k ≡ f.addrs k
    pub above : (k : ℕ) → hi ≤ k → f'.addrs k ≡ f.addrs k
    pub freed : Freed sb (Held f.addrs i hi) f.blocks f'.blocks

  pub CanFree-ext :
      (a b : ℕ → ℕ) (lo hi : ℕ) (bl : Blocks)
      → ((k : ℕ) → lo ≤ k → k < hi → a k ≡ b k)
      → CanFree sb a lo hi bl
      → CanFree sb b lo hi bl
  CanFree-ext a b lo hi bl e c = record {
    owned =
        λ k l h nz. subst (IsOwned sb bl) (e k l h) (c.owned k l h (λ z. nz (sym (e k l h) ∙ z)));
    distinct = λ j k l h l' h' ne nz q.
        c.distinct j k l h l' h' ne (λ z. nz (sym (e j l h) ∙ z)) (e j l h ∙ q ∙ sym (e k l' h'));
  }

  Freed-ext :
      (a b : ℕ → ℕ) (lo hi : ℕ) {bl bl' : Blocks}
      → ((k : ℕ) → lo ≤ k → k < hi → a k ≡ b k)
      → Freed sb (Held a lo hi) bl bl'
      → Freed sb (Held b lo hi) bl bl'
  Freed-ext a b lo hi {bl} e f =
      Freed-append sb (λ x. ⊥) (Held a lo hi) (Held b lo hi)
        (λ j (k, l, h, nz, q). inr (k, l, h, (λ z. nz (sym (e k l h) ∙ z)), e k l h ∙ q))
        (λ j x. absurd x)
        (λ j (k, l, h, nz, q). (k, l, h, (λ z. nz (e k l h ∙ z)), sym (e k l h) ∙ q))
        (Freed-none sb (λ x. ⊥) bl (λ x y. y)) f

  pub free_direct_lem :
      (n i hi : ℕ) (f : FileMap)
      → i + n ≡ hi
      → CanFree sb f.addrs i hi f.blocks
      → (f' : FileMap) × (free_direct sb n i f ≡ ok f') × Cleared i hi f f'
  unfolding free_direct
  free_direct_lem zero i hi f e c = (
    f,
    refl,
    record {
      inside = λ k l h. absurd (omega arith);
      below = λ k h. refl;
      above = λ k h. refl;
      freed = Freed-none sb (Held f.addrs i hi) f.blocks (λ x h. omega (arith, h));
    },
  )
  free_direct_lem (suc n) i hi f e c = elim (ℕ_discrete (f.addrs i) 0) [
    | yes z ↦
        let (f', computes, r) = free_direct_lem n (suc i) hi f (omega arith) (
          CanFree-later sb f.addrs i hi (λ x. ⊥) c (Freed-none sb (λ x. ⊥) f.blocks (λ x e. e))
            (λ k l h nz e. e)) in
        (
          f',
          direct_kept n i f z ∙ computes,
          record {
            inside = λ k l h. elim (ℕ_discrete k i) [
              | yes q ↦ ap f'.addrs q ∙ r.below i (omega arith) ∙ z
              | no q ↦ r.inside k (omega arith) h
            ];
            below = λ k h. r.below k (omega arith);
            above = r.above;
            freed = Freed-skip sb f.addrs i hi z r.freed;
          },
        )
    | no nz ↦
        let (bl1, one, g) =
          bfree-Freed sb f.blocks (f.addrs i) (c.owned i (omega arith) (omega arith) nz) in
        let (f', computes, r) =
          free_direct_lem n (suc i) hi (record { addrs = update f.addrs i 0; blocks = bl1 })
            (omega arith)
            (CanFree-ext f.addrs (update f.addrs i 0) (suc i) hi bl1
              (λ k l h. sym (update_ne f.addrs i k 0 (omega arith)))
              (CanFree-later sb f.addrs i hi (λ x. f.addrs i ≡ x) c g
                (λ k l h nz' q.
                  c.distinct i k (omega arith) (omega arith) (omega arith) h (omega arith) nz
                    q))) in
        (
          f',
          direct_freed n i f bl1 nz one ∙ computes,
          record {
            inside = λ k l h. elim (ℕ_discrete k i) [
              | yes q ↦ ap f'.addrs q ∙ r.below i (omega arith) ∙ update_self f.addrs i 0
              | no q ↦ r.inside k (omega arith) h
            ];
            below = λ k h. r.below k (omega arith) ∙ update_ne f.addrs i k 0 (omega arith);
            above = λ k h. r.above k h ∙ update_ne f.addrs i k 0 (omega arith);
            freed = Freed-step sb f.addrs i hi (omega arith) nz g (
                Freed-ext (update f.addrs i 0) f.addrs (suc i) hi
                  (λ k l h. update_ne f.addrs i k 0 (omega arith)) r.freed);
          },
        )
  ]
