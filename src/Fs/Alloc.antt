-- ===== src/Fs/Alloc.antt =====
-- The bitmap of the blocks: `balloc` and `bfree`.
pub mod Bits
pub mod Search
pub mod Laws
use sistema_operativo.Base.{
  ℕ, zero, suc, ◌+◌, ◌*◌, ◌/◌, ◌%◌, ◌<◌, Bool, true, false, not, Option, none, some, Outcome, ok,
  halt, panic, ltb, ◌==◌, if◌then◌else◌, update,
}
use sistema_operativo.Fs.{Superblock, Blocks, bpb, bblock, put_byte, bzero}

-- `x & (1 << k)`, `x | (1 << k)` and `x & ~(1 << k)`, bit by bit.
unfoldable pub bit_set : ℕ → ℕ → Bool
bit_set x zero = x % 2 == 1
bit_set x (suc k) = bit_set (x / 2) k

unfoldable pub set_bit : ℕ → ℕ → ℕ
set_bit x zero = x / 2 * 2 + 1
set_bit x (suc k) = x % 2 + 2 * set_bit (x / 2) k

unfoldable pub clear_bit : ℕ → ℕ → ℕ
clear_bit x zero = x / 2 * 2
clear_bit x (suc k) = x % 2 + 2 * clear_bit (x / 2) k

module _ (sb : Superblock) where
  -- The bit of block `b`.
  abbrev pub used : Blocks → ℕ → Bool
  used bl b = bit_set (bl (bblock sb b) (b % bpb / 8)) (b % 8)

  -- The inner loop of `balloc`: the `n` bits from `bi` on of the bitmap block of `b`.
  unfoldable pub scan_bits : Blocks → (n bi b : ℕ) → Option ℕ
  scan_bits bl zero bi b = none
  scan_bits bl (suc n) bi b =
      let rest = scan_bits bl n (suc bi) b in
      if not (ltb (b + bi) sb.size)
      then none
      else if not (bit_set (bl (bblock sb b) (bi / 8)) (bi % 8))
      then some bi
      else rest

  abbrev pub or_next : Option ℕ → ℕ → Option ℕ → Option ℕ
  or_next none b next = next
  or_next (some bi) b next = some (b + bi)

  -- The outer loop, with as much fuel as the bitmap has blocks: the first free block.
  unfoldable pub scan_blocks : Blocks → (fuel b : ℕ) → Option ℕ
  scan_blocks bl zero b = none
  scan_blocks bl (suc fuel) b =
      let next = scan_blocks bl fuel (b + bpb) in
      if ltb b sb.size then or_next (scan_bits bl bpb 0 b) b next else none

  abbrev pub mark : ℕ → Blocks → Blocks
  mark b bl =
      put_byte (bblock sb b) (b % bpb / 8) (set_bit (bl (bblock sb b) (b % bpb / 8)) (b % 8)) bl

  unfoldable pub balloc : Blocks → Outcome (ℕ × Blocks)
  unfolding scan_blocks scan_bits bzero
  balloc bl = elim (scan_blocks bl (suc (sb.size / bpb)) 0) [
    | none ↦ halt (panic "balloc: out of blocks")
    | some b ↦ ok (b, bzero b (mark b bl))
  ]

  unfoldable pub bfree : ℕ → Blocks → Outcome Blocks
  bfree b bl =
      if not (used bl b)
      then halt (panic "freeing free block")
      else ok (
          put_byte (bblock sb b) (b % bpb / 8) (clear_bit (bl (bblock sb b) (b % bpb / 8)) (b % 8))
            bl)
