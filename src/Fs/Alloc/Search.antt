-- ===== src/Fs/Alloc/Search.antt =====
-- The search of `balloc` for a free block.
use sistema_operativo.Base.{
  ℕ, zero, suc, ◌+◌, ◌*◌, ◌/◌, ◌%◌, ◌≤◌, ◌<◌, ◌≡◌, inl, inr, refl, ◌∙◌, subst, Bool, true, false,
  Option, none, some, ltb, ◌==◌, if◌then◌else◌, arith, Bool-cases,
}
use native.Mathlib.Decide.{ℕ_discrete, dec_lt}
use sistema_operativo.Fs.{Superblock, Blocks, bpb, bblock, put_byte}
use sistema_operativo.Fs.Alloc.{bit_set, used, scan_bits, or_next, scan_blocks, mark}
use sistema_operativo.Fs.Alloc.Bits.{bit_set-set_bit}

module _ (sb : Superblock) where
  -- A byte of the bitmap that changes in one bit changes the bit of one block.
  pub used-put_byte :
      (bl : Blocks) (b j y : ℕ) (v : Bool)
      → ((k : ℕ)
          → bit_set y k ≡ (if k == b % 8 then v else bit_set (bl (bblock sb b) (b % bpb / 8)) k))
      → used sb (put_byte (bblock sb b) (b % bpb / 8) y bl) j ≡ (if j == b then v else used sb bl j)
  used-put_byte bl b j y v bits = elim (ℕ_discrete (bblock sb j) (bblock sb b)) [
    | yes c ↦ elim (ℕ_discrete (j % bpb / 8) (b % bpb / 8)) [
      | yes i ↦ rw (c, i) (ground (arith, bits (j % 8)))
      | no i ↦ rw c (ground arith)
    ]
    | no c ↦ ground arith
  ]

  pub used-mark :
      (bl : Blocks) (b j : ℕ) → used sb (mark sb b bl) j ≡ (if j == b then true else used sb bl j)
  used-mark bl b j = used-put_byte bl b j _ true (λ k. bit_set-set_bit _ (b % 8) k)

  -- What a search for a free block from `lo` up to `hi` came to: the first one, if there is one.
  abbrev pub FirstFree : Blocks → (lo hi : ℕ) → Option ℕ → Type 0
  FirstFree bl lo hi none = (j : ℕ) → lo ≤ j → j < hi → j < sb.size → used sb bl j ≡ true
  FirstFree bl lo hi (some b) =
      (lo ≤ b)
      × (b < sb.size)
      × (used sb bl b ≡ false)
      × ((j : ℕ) → lo ≤ j → j < b → used sb bl j ≡ true)

  used_at :
      (bl : Blocks) (b bi : ℕ)
      → b % bpb ≡ 0
      → bi < bpb
      → used sb bl (b + bi) ≡ bit_set (bl (bblock sb b) (bi / 8)) (bi % 8)
  used_at bl b bi h l = rw (block, byte, bit) refl
    where
      block : (b + bi) / bpb ≡ b / bpb
      block = omega arith

      byte : (b + bi) % bpb / 8 ≡ bi / 8
      byte = omega arith

      bit : (b + bi) % 8 ≡ bi % 8
      bit = omega arith

  FirstFree-later :
      (bl : Blocks) (lo hi : ℕ) (o : Option ℕ)
      → used sb bl lo ≡ true
      → FirstFree bl (suc lo) hi o
      → FirstFree bl lo hi o
  FirstFree-later bl lo hi none u f = λ j a b c. elim (ℕ_discrete lo j) [
    | yes e ↦ subst (λ j. used sb bl j ≡ true) e u
    | no e ↦ f j (omega arith) b c
  ]
  FirstFree-later bl lo hi (some x) u (a, b, c, f) = (
    omega arith,
    b,
    c,
    λ j l h. elim (ℕ_discrete lo j) [
      | yes e ↦ subst (λ j. used sb bl j ≡ true) e u
      | no e ↦ f j (omega arith) h
    ],
  )

  FirstFree-range :
      (bl : Blocks) (o : Option ℕ) {lo hi lo' hi' : ℕ}
      → lo ≡ lo'
      → hi ≡ hi'
      → FirstFree bl lo hi o
      → FirstFree bl lo' hi' o
  FirstFree-range bl o {lo} {hi} {lo'} {hi'} a b f =
      subst (λ x. FirstFree bl x hi' o) a (subst (λ y. FirstFree bl lo y o) b f)

  scan_bits-FirstFree :
      (bl : Blocks) (n bi b : ℕ)
      → b % bpb ≡ 0
      → bi + n ≤ bpb
      → FirstFree bl (b + bi) (b + bi + n) (or_next sb (scan_bits sb bl n bi b) b none)
  unfolding scan_bits
  scan_bits-FirstFree bl zero bi b h l = λ j x y z. absurd (omega arith)
  scan_bits-FirstFree bl (suc n) bi b h l = elim (Bool-cases (ltb (b + bi) sb.size)) [
    | inr out ↦ rw (out, scan_bits) (λ j x y z. absurd (ground (arith, out)))
    | inl more ↦ elim (Bool-cases (bit_set (bl (bblock sb b) (bi / 8)) (bi % 8))) [
      | inr free ↦
          rw (more, scan_bits, free)
            (
              omega arith,
              ground arith,
              used_at bl b bi h (omega arith) ∙ free,
              λ j x y. absurd (omega arith),
            )
      | inl busy ↦
          rw (more, scan_bits, busy)
            (FirstFree-later bl (b + bi) (b + bi + suc n) _ (used_at bl b bi h (omega arith) ∙ busy)
              (FirstFree-range bl _ (omega arith) (omega arith)
                (scan_bits-FirstFree bl n (suc bi) b h (omega arith))))
    ]
  ]

  -- Two searches one after the other.
  FirstFree-append :
      (bl : Blocks) (lo mid hi : ℕ) (o : Option ℕ)
      → lo ≤ mid
      → ((j : ℕ) → lo ≤ j → j < mid → j < sb.size → used sb bl j ≡ true)
      → FirstFree bl mid hi o
      → FirstFree bl lo hi o
  FirstFree-append bl lo mid hi none l u f =
      λ j a b c. elim (dec_lt j mid) [ yes e ↦ u j a e c | no e ↦ f j (omega arith) b c ]
  FirstFree-append bl lo mid hi (some x) l u (a, b, c, f) = (
    omega arith,
    b,
    c,
    λ j p h. elim (dec_lt j mid) [ yes e ↦ u j p e (omega arith) | no e ↦ f j (omega arith) h ],
  )

  -- The searches of one block and of the blocks behind it.
  FirstFree-blocks :
      (bl : Blocks) (b hi : ℕ) (o : Option ℕ) (next : Option ℕ)
      → FirstFree bl (b + 0) (b + 0 + bpb) (or_next sb o b none)
      → FirstFree bl (b + bpb) hi next
      → FirstFree bl b hi (or_next sb o b next)
  FirstFree-blocks bl b hi none next f g =
      FirstFree-append bl b (b + bpb) hi next (omega arith)
        (λ j x y z. f j (omega arith) (omega arith) z) g
  FirstFree-blocks bl b hi (some bi) next (x, y, z, w) g =
      (omega arith, y, z, λ j p h. w j (omega arith) h)

  pub scan_blocks-FirstFree :
      (bl : Blocks) (fuel b : ℕ)
      → b % bpb ≡ 0
      → sb.size < b + fuel * bpb
      → FirstFree bl b sb.size (scan_blocks sb bl fuel b)
  unfolding scan_blocks
  scan_blocks-FirstFree bl zero b h l = λ j x y z. absurd (omega arith)
  scan_blocks-FirstFree bl (suc fuel) b h l = elim (Bool-cases (ltb b sb.size)) [
    | inr out ↦ rw (out, scan_blocks) (λ j x y z. absurd (ground (arith, out)))
    | inl more ↦
        rw (more, scan_blocks)
          (FirstFree-blocks bl b sb.size (scan_bits sb bl bpb 0 b)
            (scan_blocks sb bl fuel (b + bpb)) (scan_bits-FirstFree bl bpb 0 b h (omega arith))
            (scan_blocks-FirstFree bl fuel (b + bpb) (omega arith) (omega arith)))
  ]
