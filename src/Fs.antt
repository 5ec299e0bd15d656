-- ===== src/Fs.antt =====
-- fs.c: the file system above the log. Its state is what `bread` shows: the bytes of each block.
pub mod Logging
pub mod Alloc
pub mod Bmap
pub mod Content
pub mod Dir
pub mod Path
pub mod Namex
use sistema_operativo.Base.{
  ℕ, zero, suc, ◌+◌, ◌*◌, ◌/◌, ◌%◌, ◌<◌, Bool, true, false, not, ◌==◌, if◌then◌else◌, update,
}

-- `struct superblock`
pub record Superblock : Type 0 where
  pub size : ℕ
  pub nblocks : ℕ
  pub ninodes : ℕ
  pub nlog : ℕ

-- The bytes of each block, as the last `log_write` left them.
abbrev pub Blocks : Type 0
Blocks = ℕ → ℕ → ℕ

abbrev pub bsize : ℕ
bsize = 512

-- Inodes per block, and bits of the bitmap per block.
abbrev pub ipb : ℕ
ipb = 8

abbrev pub bpb : ℕ
bpb = 4096

-- IBLOCK, the block of inode `i`.
abbrev pub iblock : ℕ → ℕ
iblock i = i / ipb + 2

-- The block with the bit for block `b`.
abbrev pub bblock : Superblock → ℕ → ℕ
bblock sb b = b / bpb + sb.ninodes / ipb + 3

abbrev pub put_byte : ℕ → ℕ → ℕ → Blocks → Blocks
put_byte b i x bl = update bl b (update (bl b) i x)

unfoldable pub bzero : ℕ → Blocks → Blocks
bzero b bl = update bl b (λ i. 0)
