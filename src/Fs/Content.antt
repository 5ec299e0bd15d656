-- ===== src/Fs/Content.antt =====
-- The bytes of a file: `readi`, `writei` and `itrunc`. Only `writei` follows the log, whose panics
-- `readi` and `itrunc` leave out.
pub mod Segments
pub mod Reading
pub mod Chunk
pub mod Writing
pub mod RoundTrip
pub mod Truncating
use sistema_operativo.Base.{
  ℕ, zero, suc, ◌+◌, ◌-◌, ◌*◌, ◌/◌, ◌%◌, Bool, true, false, not, ◌&&◌, ◌||◌, List, [], ◌∷◌, ◌++◌,
  Outcome, ok, halt, ◌>>=◌, ltb, leb, ◌==◌, if◌then◌else◌, update, min,
}
use sistema_operativo.Fs.{Superblock, bsize, bblock, iblock}
use sistema_operativo.Fs.Logging.{OpenLog, log_sector, log_sectors}
use sistema_operativo.Fs.Bmap.{FileMap, bmap, free_file, maxfile, ndirect, load_word}

-- An inode in use: the fields of its entry that reading and writing look at, and the size and the
-- addresses that its copy on the disk has. `major` is the 16 bits of a `short`, of which a negative one is
-- above NDEV too. `inum` is its number, and `log` the transaction.
pub record OpenInode : Type 0 where
  pub inum : ℕ
  pub type : ℕ
  pub major : ℕ
  pub size : ℕ
  pub map : FileMap
  pub disk_size : ℕ
  pub disk_addrs : ℕ → ℕ
  pub log : OpenLog

-- T_DEV and NDEV.
abbrev pub t_dev : ℕ
t_dev = 3

abbrev pub ndev : ℕ
ndev = 10

-- A result -1; a call of the function of the device in `devsw`, for `n` bytes; or, of `readi`, the
-- bytes read, and of `writei`, their number.
pub data ReadResult : Type 0 where
  read_fails : ReadResult
  read_device : (major n : ℕ) → ReadResult
  read_bytes : List ℕ → ReadResult

pub data WriteResult : Type 0 where
  write_fails : WriteResult
  write_device : (major n : ℕ) → WriteResult
  wrote : ℕ → WriteResult

-- `m` bytes from `i` on.
unfoldable pub segment : (ℕ → ℕ) → (i m : ℕ) → List ℕ
segment g i zero = []
segment g i (suc m) = g i ∷ segment g (suc i) m

-- `memmove(data + i, src, m)`
abbrev pub copy_in : (ℕ → ℕ) → (i m : ℕ) → (ℕ → ℕ) → ℕ → ℕ
copy_in block i m src j = if leb i j && ltb j (i + m) then src (j - i) else block j

-- min(n - tot, BSIZE - off%BSIZE)
abbrev pub part : (n tot off : ℕ) → ℕ
part n tot off = min (n - tot) (bsize - off % bsize)

-- Is `off` behind the end of the file, or `off + n` past the last `uint`?
abbrev pub out_of_file : (off n size : ℕ) → Bool
out_of_file off n size = ltb size off || ltb ((off + n) % 0x100000000) off

-- `iupdate`
abbrev pub save : OpenInode → OpenInode
save o = record o { disk_size = o.size; disk_addrs = o.map.addrs }

-- `has_read` and `has_write` tell which devices have functions in `devsw`.
module _ (sb : Superblock) where
  -- The loop of `readi`, with as much fuel as bytes are left.
  unfoldable pub read_loop : (fuel tot n off : ℕ) → FileMap → Outcome (List ℕ × FileMap)
  unfolding bmap segment
  read_loop zero tot n off f = ok ([], f)
  read_loop (suc fuel) tot n off f =
      let next = bmap sb (off / bsize) f >>= (λ x.
        read_loop fuel (tot + part n tot off) n (off + part n tot off) x.1
        >>= (λ r. ok (segment (x.1.blocks x.0) (off % bsize) (part n tot off) ++ r.0, r.1))) in
      if ltb tot n then next else ok ([], f)

  unfoldable pub readi : (ℕ → Bool) → (off n : ℕ) → OpenInode → Outcome (ReadResult × OpenInode)
  unfolding read_loop
  readi has_read off n o =
      let m = if ltb o.size (off + n) then o.size - off else n in
      if o.type == t_dev
      then if leb ndev o.major || not (has_read o.major)
        then ok (read_fails, o)
        else ok (read_device o.major n, o)
      else if out_of_file off n o.size
      then ok (read_fails, o)
      else (read_loop m 0 m off o.map >>= (λ r. ok (read_bytes r.0, record o { map = r.1 })))

  -- The sectors that `bmap` logs, where `f'` is what it leaves: a new block is logged with its bit of
  -- the bitmap, and a new entry with the indirect block.
  abbrev pub logged_slot : ℕ → (f f' : FileMap) → List ℕ
  logged_slot i f f' = if f.addrs i == 0 then bblock sb (f'.addrs i) ∷ f'.addrs i ∷ [] else []

  abbrev pub logged_entry : ℕ → FileMap → ℕ × FileMap → List ℕ
  logged_entry i f (x, f') =
      if f.addrs ndirect == 0 || load_word (f.blocks (f.addrs ndirect)) i == 0
      then bblock sb x ∷ x ∷ f'.addrs ndirect ∷ []
      else []

  unfoldable pub logged_bmap : ℕ → FileMap → ℕ × FileMap → List ℕ
  unfolding load_word
  logged_bmap bn f (x, f') =
      if ltb bn ndirect
      then logged_slot bn f f'
      else logged_slot ndirect f f' ++ logged_entry (bn - ndirect) f (x, f')

  -- The loop of `writei`: the offset at its end. What `bmap` logs goes to the log after it has run, so that
  -- a panic of its own comes first.
  unfoldable pub write_loop :
      (fuel tot n off : ℕ) → (ℕ → ℕ) → OpenLog → FileMap → Outcome (ℕ × FileMap × OpenLog)
  unfolding bmap log_sectors log_sector logged_bmap
  write_loop zero tot n off src g f = ok (off, f, g)
  write_loop (suc fuel) tot n off src g f =
      let next = bmap sb (off / bsize) f >>= (λ x.
        (log_sectors (logged_bmap (off / bsize) f x) g >>= log_sector x.0) >>= (λ g'.
          write_loop fuel (tot + part n tot off) n (off + part n tot off) src g' (record x.1 {
            blocks =
                update x.1.blocks x.0
                  (copy_in (x.1.blocks x.0) (off % bsize) (part n tot off) (λ i. src (tot + i)));
          }))) in
      if ltb tot n then next else ok (off, f, g)

  -- `iupdate` with the sector that it logs.
  unfoldable pub iupdate : OpenInode → Outcome OpenInode
  unfolding log_sector
  iupdate o = log_sector (iblock o.inum) o.log >>= (λ g. ok (save (record o { log = g })))

  -- A file that grew gets its new size, on the disk too.
  unfoldable pub grow :
      (n : ℕ) → OpenInode → ℕ × FileMap × OpenLog → Outcome (WriteResult × OpenInode)
  unfolding iupdate
  grow n o (off, f, g) =
      if ltb 0 n && ltb o.size off
      then (iupdate (record o { size = off; map = f; log = g }) >>= (λ o'. ok (wrote n, o')))
      else ok (wrote n, record o { map = f; log = g })

  unfoldable pub writei :
      (ℕ → Bool) → (off n : ℕ) → (ℕ → ℕ) → OpenInode → Outcome (WriteResult × OpenInode)
  unfolding write_loop grow
  writei has_write off n src o =
      if o.type == t_dev
      then if leb ndev o.major || not (has_write o.major)
        then ok (write_fails, o)
        else ok (write_device o.major n, o)
      else if out_of_file off n o.size
      then ok (write_fails, o)
      else if ltb (maxfile * bsize) (off + n)
      then ok (write_fails, o)
      else (write_loop n 0 n off src o.log o.map >>= grow n o)

  unfoldable pub itrunc : OpenInode → Outcome OpenInode
  unfolding free_file
  itrunc o = free_file sb o.map >>= (λ f. ok (save (record o { size = 0; map = f })))
