-- ===== src/Tests/Blocks.antt =====
-- Examples for the blocks of a disk, the contents of a file and the buffers.
use sistema_operativo.Base.{ℕ, ◌/◌, ◌<◌, ◌≡◌, refl, subst, Bool, true, false, some, ok, arith}
use sistema_operativo.Fs.{Blocks, bsize}
use sistema_operativo.Fs.Alloc.{used, bit_set}
use sistema_operativo.Fs.Alloc.Laws.{Allocated, balloc_lem}
use sistema_operativo.Fs.Bmap.{FileMap, maxfile}
use sistema_operativo.Fs.Bmap.Address.{address}
use sistema_operativo.Fs.Bmap.File.{IsFile}
use sistema_operativo.Fs.Bmap.Grow.{Mapped}
use sistema_operativo.Fs.Bmap.Laws.{bmap_lem}
use sistema_operativo.Fs.Content.{OpenInode, read_bytes, wrote, segment, readi, writei}
use sistema_operativo.Fs.Content.Segments.{contents}
use sistema_operativo.Fs.Content.Chunk.{spliced}
use sistema_operativo.Fs.Content.Reading.{readi_lem}
use sistema_operativo.Fs.Content.Writing.{writei_lem}
use sistema_operativo.Fs.Content.RoundTrip.{readi-writei}
use sistema_operativo.Bcache.{
  Buf, Bcache, binit, link_from, bget, find_block, find_clean, recycle, put_buf,
}
use sistema_operativo.Bcache.Unique.{Taken, BgetResult, bget_lem}
use sistema_operativo.Bcache.Starting.{binit-IsValid}
use sistema_operativo.Tests.Volume.{
  superblock, disk, map, directory, disk-IsSound, disk-HasRoom, map-IsFile, has_first,
  open_log-HasLogRoom,
}

free_block : used superblock disk 6 ≡ false
unfolding bit_set
free_block = refl

balloc_lem_example : (b : ℕ) × (bl' : Blocks) × Allocated superblock disk b bl'
balloc_lem_example = balloc_lem superblock disk 6 disk-IsSound (omega arith) free_block

-- Block 20 of the file, behind an indirect block.
bmap_lem_example : (x : ℕ) × (f' : FileMap) × Mapped superblock 20 map x f'
bmap_lem_example = bmap_lem superblock 20 map disk-IsSound map-IsFile disk-HasRoom (omega arith)

abbrev no_device : ℕ → Bool
no_device m = false

readi_lem_example :
    readi superblock no_device 16 40 directory
    ≡ ok (read_bytes (segment (contents map) 16 16), directory)
readi_lem_example =
    readi_lem superblock no_device 16 40 directory (λ e. omega (arith, e)) (omega arith)
      (omega arith) (λ i a b. has_first i (omega arith))

writei_lem_example :
    (o' : OpenInode) × (writei superblock no_device 24 20 (λ i. i) directory ≡ ok (wrote 20, o'))
    × IsFile superblock o'.map
    × (o'.type ≡ 1)
    × (o'.size ≡ 44)
    × (o'.disk_size ≡ 44)
    × ((k : ℕ) → address o'.map k ≡ address map k)
    × ((i : ℕ) → i / bsize < maxfile → contents o'.map i ≡ spliced (contents map) 24 20 (λ i. i) i)
writei_lem_example =
    writei_lem superblock no_device 24 20 (λ i. i) directory (λ e. omega (arith, e)) (omega arith)
      (omega arith) (omega arith) map-IsFile (λ i a b. has_first i (omega arith))
      open_log-HasLogRoom

readi-writei_example :
    (o' : OpenInode) × (writei superblock no_device 24 20 (λ i. i) directory ≡ ok (wrote 20, o'))
    × (readi superblock no_device 24 20 o' ≡ ok (read_bytes (segment (λ i. i) 0 20), o'))
readi-writei_example =
    readi-writei superblock no_device no_device 24 20 (λ i. i) directory (λ e. omega (arith, e))
      (omega arith) (omega arith) (omega arith) map-IsFile (λ i a b. has_first i (omega arith))
      (λ i a b. has_first i (omega arith)) open_log-HasLogRoom

abbrev no_buf : Buf
no_buf = record { dev = 0; sector = 0; busy = false; valid = false; dirty = false }

abbrev cache : Bcache
cache = binit (λ i. no_buf)

bget_lem_example : BgetResult 1 7 cache (bget 1 7 cache)
bget_lem_example = bget_lem 1 7 cache (binit-IsValid (λ i. no_buf)) (omega arith)

-- The cache after that call.
abbrev used_cache : Bcache
used_cache =
    put_buf 0 (record { dev = 1; sector = 7; busy = true; valid = false; dirty = false }) cache

takes_first : bget 1 7 cache ≡ ok (some 0, used_cache)
unfolding bget find_block find_clean recycle binit link_from
takes_first = refl

taken : Taken 1 7 cache 0 used_cache
taken = subst (BgetResult 1 7 cache) takes_first bget_lem_example
