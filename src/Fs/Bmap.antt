-- ===== src/Fs/Bmap.antt =====
-- The blocks of a file: `bmap`, which allocates those that are missing, and the
-- loops of `itrunc`, which free them.
pub mod Words
pub mod Extend
pub mod Slots
pub mod Address
pub mod File
pub mod Grow
pub mod Laws
pub mod Freeing
pub mod Clearing
pub mod Parts
pub mod Truncate
use sistema_operativo.Base.{
  ℕ, zero, suc, ◌+◌, ◌-◌, ◌*◌, ◌/◌, ◌%◌, ◌<◌, Bool, true, false, not, Outcome, ok, halt, panic,
  ◌>>=◌, ltb, ◌==◌, if◌then◌else◌, update,
}
use sistema_operativo.Fs.{Superblock, Blocks}
use sistema_operativo.Fs.Alloc.{balloc, bfree}

abbrev pub ndirect : ℕ
ndirect = 12

-- BSIZE / sizeof(uint)
abbrev pub nindirect : ℕ
nindirect = 128

abbrev pub maxfile : ℕ
maxfile = 140

-- `((uint*)data)[i]`, and `((uint*)data)[i] = x`, the lowest byte first.
unfoldable pub load_word : (ℕ → ℕ) → ℕ → ℕ
load_word m i = m (4 * i) + 256 * m (4 * i + 1) + 65536 * m (4 * i + 2) + 16777216 * m (4 * i + 3)

unfoldable pub store_word : (ℕ → ℕ) → (i x : ℕ) → ℕ → ℕ
store_word m i x =
    update
      (update (update (update m (4 * i) (x % 256)) (4 * i + 1) (x / 256 % 256)) (4 * i + 2)
        (x / 65536 % 256))
      (4 * i + 3) (x / 16777216 % 256)

-- `addrs` of an inode, and the blocks of the disk.
pub record FileMap : Type 0 where
  pub addrs : ℕ → ℕ
  pub blocks : Blocks

module _ (sb : Superblock) where
  -- `if((addr = ip->addrs[i]) == 0) ip->addrs[i] = addr = balloc(ip->dev)`
  abbrev pub new_slot : ℕ → FileMap → ℕ × Blocks → ℕ × FileMap
  new_slot i f (x, bl) = (x, record { addrs = update f.addrs i x; blocks = bl })

  unfoldable pub slot : ℕ → FileMap → Outcome (ℕ × FileMap)
  unfolding balloc
  slot i f =
      if f.addrs i == 0
      then (balloc sb f.blocks >>= (λ o. ok (new_slot i f o)))
      else ok (f.addrs i, f)

  -- The same for entry `i` of the indirect block `ind`.
  abbrev pub new_entry : (ind i : ℕ) → FileMap → ℕ × Blocks → ℕ × FileMap
  new_entry ind i f (x, bl) = (x, record f { blocks = update bl ind (store_word (bl ind) i x) })

  unfoldable pub entry : (ind i : ℕ) → FileMap → Outcome (ℕ × FileMap)
  unfolding balloc load_word store_word
  entry ind i f =
      if load_word (f.blocks ind) i == 0
      then (balloc sb f.blocks >>= (λ o. ok (new_entry ind i f o)))
      else ok (load_word (f.blocks ind) i, f)

  unfoldable pub bmap : ℕ → FileMap → Outcome (ℕ × FileMap)
  unfolding slot entry
  bmap bn f =
      if ltb bn ndirect
      then slot bn f
      else if ltb (bn - ndirect) nindirect
      then (slot ndirect f >>= (λ o. entry o.0 (bn - ndirect) o.1))
      else halt (panic "bmap: out of range")

  -- `itrunc`: the loop over the `n` direct blocks from `i` on.
  unfoldable pub free_direct : (n i : ℕ) → FileMap → Outcome FileMap
  unfolding bfree
  free_direct zero i f = ok f
  free_direct (suc n) i f =
      let freed =
        bfree sb (f.addrs i) f.blocks
        >>= (λ bl. free_direct n (suc i) (record { addrs = update f.addrs i 0; blocks = bl })) in
      let kept = free_direct n (suc i) f in if not (f.addrs i == 0) then freed else kept

  -- The loop over the `n` entries from `j` on of the indirect block, whose bytes are `a`.
  unfoldable pub free_entries : (ℕ → ℕ) → (n j : ℕ) → Blocks → Outcome Blocks
  unfolding bfree load_word
  free_entries a zero j bl = ok bl
  free_entries a (suc n) j bl =
      let freed = bfree sb (load_word a j) bl >>= free_entries a n (suc j) in
      let kept = free_entries a n (suc j) bl in if not (load_word a j == 0) then freed else kept

  -- The `n` entries of the indirect block, and the block itself.
  unfoldable pub drop_indirect : ℕ → FileMap → Outcome FileMap
  unfolding free_entries bfree
  drop_indirect n f =
      (free_entries (f.blocks (f.addrs ndirect)) n 0 f.blocks >>= bfree sb (f.addrs ndirect))
      >>= (λ bl. ok (record { addrs = update f.addrs ndirect 0; blocks = bl }))

  unfoldable pub free_indirect : FileMap → Outcome FileMap
  unfolding drop_indirect
  free_indirect f = if not (f.addrs ndirect == 0) then drop_indirect nindirect f else ok f

  -- Both loops: all blocks of the file go back.
  unfoldable pub free_file : FileMap → Outcome FileMap
  unfolding free_direct free_indirect
  free_file f = free_direct ndirect 0 f >>= free_indirect
