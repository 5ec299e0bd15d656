-- ===== src/File.antt =====
-- file.c and the file descriptors of sysfile.c: the table of open files with their reference counts,
-- and the descriptors of the calling process.
pub mod Counts
pub mod Chunks
use sistema_operativo.Base.{
  ℕ, zero, suc, ◌+◌, ◌-◌, ◌<◌, ◌≡◌, Bool, true, false, not, ◌&&◌, ◌||◌, Option, none, some, Outcome,
  ok, halt, panic, ◌>>=◌, ltb, leb, ◌==◌, if◌then◌else◌, update,
}
use sistema_operativo.Base.Int.{ℤ, pos, negsuc}
use sistema_operativo.Syscall.{Caller, argint}

pub data FileType : Type 0 where
  fd_none fd_pipe fd_inode : FileType

-- `struct file`. A pipe and an inode are their addresses. `ref` never falls below 0: it is counted down
-- only from 1 on.
pub record File : Type 0 where
  pub type : FileType
  pub ref : ℕ
  pub readable : Bool
  pub writable : Bool
  pub pipe : ℕ
  pub ip : ℕ
  pub off : ℕ

-- `ftable.file`, and `proc->ofile` of the process that runs; a file pointer is its index.
pub record Files : Type 0 where
  pub file : ℕ → File
  pub ofile : ℕ → Option ℕ

abbrev pub nfile : ℕ
nfile = 100

abbrev pub nofile : ℕ
nofile = 16

abbrev pub put_file : ℕ → File → Files → Files
put_file i f t = record t { file = update t.file i f }

-- `filealloc`: its loop over the `n` files from `i` on.
unfoldable pub find_free : ℕ → ℕ → Files → Option ℕ
find_free zero i t = none
find_free (suc n) i t =
    let rest = find_free n (suc i) t in if (t.file i).ref == 0 then some i else rest

unfoldable pub filealloc : Files → Option ℕ × Files
unfolding find_free
filealloc t = elim (find_free nfile 0 t) [
  | none ↦ (none, t)
  | some i ↦ (some i, put_file i (record (t.file i) { ref = 1 }) t)
]

unfoldable pub filedup : ℕ → Files → Outcome Files
filedup i t =
    if ltb (t.file i).ref 1
    then halt (panic "filedup")
    else ok (put_file i (record (t.file i) { ref = (t.file i).ref + 1 }) t)

-- What `fileclose` does once the lock is released: nothing; `pipeclose(pipe, writable)`; or `iput(ip)`
-- in a transaction.
pub data Closing : Type 0 where
  stays : Closing
  closes_pipe : (pipe : ℕ) (writable : Bool) → Closing
  puts_inode : (ip : ℕ) → Closing

abbrev pub closing : File → FileType → Closing
closing f fd_none = stays
closing f fd_pipe = closes_pipe f.pipe f.writable
closing f fd_inode = puts_inode f.ip

unfoldable pub fileclose : ℕ → Files → Outcome (Closing × Files)
fileclose i t =
    if ltb (t.file i).ref 1
    then halt (panic "fileclose")
    else if ltb 0 ((t.file i).ref - 1)
    then ok (stays, put_file i (record (t.file i) { ref = (t.file i).ref - 1 }) t)
    else ok (
      closing (t.file i) (t.file i).type,
      put_file i (record (t.file i) { ref = 0; type = fd_none }) t,
    )

-- `argfd`: the descriptor and its file; `none` for -1. The argument is 32 bits, an `int`.
unfoldable pub argfd : ℕ → Caller → Files → Option (ℕ × ℕ)
argfd n p t = elim (argint n p) [
  | none ↦ none
  | some fd ↦
      if leb 0x80000000 fd || leb nofile fd
      then none
      else elim (t.ofile fd) [ none ↦ none | some i ↦ some (fd, i) ]
]

-- `fdalloc`: its loop over the `n` descriptors from `fd` on.
unfoldable pub find_fd : ℕ → ℕ → Files → Option ℕ
find_fd zero fd t = none
find_fd (suc n) fd t =
    let rest = find_fd n (suc fd) t in elim (t.ofile fd) [ none ↦ some fd | some i ↦ rest ]

unfoldable pub fdalloc : ℕ → Files → Option ℕ × Files
unfolding find_fd
fdalloc i t = elim (find_fd nofile 0 t) [
  | none ↦ (none, t)
  | some fd ↦ (some fd, record t { ofile = update t.ofile fd (some i) })
]

-- `filedup` of the file whose descriptor was allocated.
unfoldable pub dup_allocated : ℕ → Option ℕ × Files → Outcome (Option ℕ × Files)
unfolding filedup
dup_allocated i (none, t) = ok (none, t)
dup_allocated i (some fd, t) = filedup i t >>= λ t'. ok (some fd, t')

-- `sys_dup`: the new descriptor, `none` for -1.
unfoldable pub sys_dup : Caller → Files → Outcome (Option ℕ × Files)
unfolding argfd fdalloc dup_allocated
sys_dup p t = elim (argfd 0 p t) [
  | none ↦ ok (none, t)
  | some (fd, i) ↦ dup_allocated i (fdalloc i t)
]

-- `sys_close`: `none` for -1, else what `fileclose` does.
unfoldable pub sys_close : Caller → Files → Outcome (Option Closing × Files)
unfolding argfd fileclose
sys_close p t = elim (argfd 0 p t) [
  | none ↦ ok (none, t)
  | some (fd, i) ↦
      fileclose i (record t { ofile = update t.ofile fd none }) >>= λ o. ok (some o.0, o.1)
]

-- `max` of `filewrite`: `((LOGSIZE-1-1-2) / 2) * 512`.
abbrev pub max_chunk : ℕ
max_chunk = 1536

abbrev pub chunk : ℕ → ℕ
chunk rest = if ltb max_chunk rest then max_chunk else rest

-- The loop of `filewrite` for an inode. `writei s addr off n` is the transaction with `writei` of `n`
-- bytes at the offset `off`: its result and the disk. The loop has written `i` of `n` bytes, and
-- the result is -1 for `none`, with the offset and the disk at the end.
module _ {S : Type 0} (writei : S → ℕ → ℕ → ℕ → ℤ × S) where
  unfoldable pub after_chunk :
      (more : ℕ → ℕ → S → Outcome (Option ℕ × ℕ × S)) (i off n1 : ℕ)
      → ℤ × S
      → Outcome (Option ℕ × ℕ × S)
  after_chunk more i off n1 (negsuc r, s) = ok (none, off, s)
  after_chunk more i off n1 (pos r, s) =
      let next = more (i + r) (off + r) s in
      if r == n1 then next else halt (panic "short filewrite")

  unfoldable pub write_chunks : (fuel addr n i off : ℕ) → S → Outcome (Option ℕ × ℕ × S)
  unfolding after_chunk
  write_chunks zero addr n i off s = ok (none, off, s)
  write_chunks (suc fuel) addr n i off s =
      let next =
        after_chunk (write_chunks fuel addr n) i off (chunk (n - i))
          (writei s (addr + i) off (chunk (n - i))) in
      if ltb i n then next else ok (some n, off, s)
