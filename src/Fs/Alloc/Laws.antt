-- ===== src/Fs/Alloc/Laws.antt =====
-- `balloc` finds the first free block, and `bfree` gives a block back.
use sistema_operativo.Base.{
  ℕ, suc, ◌/◌, ◌%◌, ◌≤◌, ◌<◌, ◌≡◌, ◌≢◌, refl, sym, ap, ◌∙◌, true, false, Option, none, some, ok,
  halt, panic, ◌==◌, if◌then◌else◌, arith, update_self, update_ne,
}
use sistema_operativo.Fs.{Superblock, Blocks, bpb, bblock, put_byte, bzero}
use sistema_operativo.Fs.Alloc.{clear_bit, used, scan_blocks, mark, balloc, bfree}
use sistema_operativo.Fs.Alloc.Bits.{bit_set-clear_bit}
use sistema_operativo.Fs.Alloc.Search.{FirstFree, used-put_byte, used-mark, scan_blocks-FirstFree}

module _ (sb : Superblock) where
  -- The blocks of the bitmap, and block 0, lie on the disk and are in use.
  pub record IsSound (bl : Blocks) : Type 0 where
    pub bitmap : (j : ℕ) → j < sb.size → used sb bl (bblock sb j) ≡ true
    pub on_disk : (j : ℕ) → j < sb.size → bblock sb j < sb.size
    pub boot : used sb bl 0 ≡ true
    pub small : sb.size ≤ 0x100000000

  -- What `balloc` leaves when it returns `b`: the first free block, now in use and full of zeros.
  pub record Allocated (bl : Blocks) (b : ℕ) (bl' : Blocks) : Type 0 where
    pub computes : balloc sb bl ≡ ok (b, bl')
    pub inside : b < sb.size
    pub was_free : used sb bl b ≡ false
    pub first : (j : ℕ) → j < b → used sb bl j ≡ true
    pub bits : (j : ℕ) → j < sb.size → used sb bl' j ≡ (if j == b then true else used sb bl j)
    pub zeros : bl' b ≡ (λ i. 0)
    pub others : (c : ℕ) → c ≢ b → c ≢ bblock sb b → bl' c ≡ bl c

  used-bzero : (bl : Blocks) (b j : ℕ) → b ≢ bblock sb j → used sb (bzero b bl) j ≡ used sb bl j
  unfolding bzero
  used-bzero bl b j n = rw (update_ne bl b (bblock sb j) (λ i. 0) n) refl

  -- With a free block, on a sound bitmap, `balloc` returns the first free block.
  pub balloc_lem :
      (bl : Blocks) (k : ℕ)
      → IsSound bl
      → k < sb.size
      → used sb bl k ≡ false
      → (b : ℕ) × (bl' : Blocks) × Allocated bl b bl'
  unfolding balloc bzero
  balloc_lem bl k s h free =
      by_search (scan_blocks sb bl (suc (sb.size / bpb)) 0) refl
        (scan_blocks-FirstFree sb bl (suc (sb.size / bpb)) 0 refl (omega arith))
    where
      apart : (b j : ℕ) → used sb bl b ≡ false → used sb bl (bblock sb j) ≡ true → b ≢ bblock sb j
      apart b j free busy q = cc (sym free ∙ ap (used sb bl) q ∙ busy)

      by_search :
          (o : Option ℕ)
          → scan_blocks sb bl (suc (sb.size / bpb)) 0 ≡ o
          → FirstFree sb bl 0 sb.size o
          → (b : ℕ) × (bl' : Blocks) × Allocated bl b bl'
      by_search none e f = cc (f k (omega arith) h h)
      by_search (some b) e (low, inside, unused, before) = (
        b,
        bzero b (mark sb b bl),
        record {
          computes = rw (e, balloc) refl;
          inside = inside;
          was_free = unused;
          first = λ j l. before j (omega arith) l;
          bits = λ j l.
              used-bzero (mark sb b bl) b j (apart b j unused (s.bitmap j l)) ∙ used-mark sb bl b j;
          zeros = update_self (mark sb b bl) b (λ i. 0);
          others = λ c n m.
              update_ne (mark sb b bl) b c (λ i. 0) (λ q. n (sym q))
              ∙ update_ne bl (bblock sb b) c _ (λ q. m (sym q));
        },
      )

  -- With no free block, `balloc` panics.
  pub balloc_full :
      (bl : Blocks)
      → ((j : ℕ) → j < sb.size → used sb bl j ≡ true)
      → balloc sb bl ≡ halt (panic "balloc: out of blocks")
  unfolding balloc
  balloc_full bl full =
      by_search (scan_blocks sb bl (suc (sb.size / bpb)) 0) refl
        (scan_blocks-FirstFree sb bl (suc (sb.size / bpb)) 0 refl (omega arith))
    where
      by_search :
          (o : Option ℕ)
          → scan_blocks sb bl (suc (sb.size / bpb)) 0 ≡ o
          → FirstFree sb bl 0 sb.size o
          → balloc sb bl ≡ halt (panic "balloc: out of blocks")
      by_search none e f = rw (e, balloc) refl
      by_search (some b) e (low, inside, unused, before) = cc (sym unused ∙ full b inside)

  -- `bfree` of a block in use frees that block and no other; it changes one block of the bitmap.
  pub bfree_lem :
      (bl : Blocks) (b : ℕ)
      → used sb bl b ≡ true
      → (bl' : Blocks) × (bfree sb b bl ≡ ok bl')
        × ((j : ℕ) → used sb bl' j ≡ (if j == b then false else used sb bl j))
        × ((c : ℕ) → c ≢ bblock sb b → bl' c ≡ bl c)
  unfolding bfree
  bfree_lem bl b u = (
    put_byte (bblock sb b) (b % bpb / 8) (clear_bit (bl (bblock sb b) (b % bpb / 8)) (b % 8)) bl,
    rw (u, bfree) refl,
    λ j. used-put_byte sb bl b j _ false (λ k. bit_set-clear_bit _ (b % 8) k),
    λ c n. update_ne bl (bblock sb b) c _ (λ q. n (sym q)),
  )

  -- A block that is free already makes `bfree` panic.
  pub bfree_free :
      (bl : Blocks) (b : ℕ)
      → used sb bl b ≡ false
      → bfree sb b bl ≡ halt (panic "freeing free block")
  unfolding bfree
  bfree_free bl b u = rw (u, bfree) refl

  pub Allocated-IsSound : (bl bl' : Blocks) (b : ℕ) → IsSound bl → Allocated bl b bl' → IsSound bl'
  Allocated-IsSound bl bl' b s a = record {
    bitmap = λ j h. ground (arith, a.bits (bblock sb j) (s.on_disk j h), s.bitmap j h);
    on_disk = s.on_disk;
    boot = ground (arith, a.bits 0 (omega (arith, a.inside)), s.boot);
    small = s.small;
  }
