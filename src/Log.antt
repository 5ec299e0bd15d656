-- ===== src/Log.antt =====
-- log.c: the redo log, over a disk whose sectors are written whole, one after another.
pub mod Commit
pub mod Recovery
pub mod Crash
pub mod Append
use sistema_operativo.Base.{
  ℕ, zero, suc, ◌+◌, ◌-◌, ◌<◌, ◌≡◌, Bool, true, false, not, ◌&&◌, ◌||◌, Option, none, some, List,
  [], ◌∷◌, ◌++◌, Outcome, ok, halt, panic, ltb, leb, ◌==◌, if◌then◌else◌, update,
}

-- The words of a sector.
abbrev pub Block : Type 0
Block = ℕ → ℕ

-- The disk, the buffers that B_DIRTY keeps in the cache, the sectors written so far, oldest first, and
-- `struct log` without its lock and its device (there is one device).
pub record Machine : Type 0 where
  pub disk : ℕ → Block
  pub dirty : ℕ → Option Block
  pub writes : List (ℕ × Block)
  pub start : ℕ
  pub size : ℕ
  pub busy : Bool
  pub n : ℕ
  pub sector : ℕ → ℕ

abbrev pub logsize : ℕ
logsize = 10

-- The data of the buffer that `bread` returns: a dirty buffer is still in the cache.
-- The panic of `bget` when no buffer is left is not modelled.
abbrev pub bread : ℕ → Machine → Block
bread b m = elim (m.dirty b) [ none ↦ m.disk b | some x ↦ x ]

-- `bwrite` of a buffer with the data `x`: after it the buffer is clean.
abbrev pub bwrite : ℕ → Block → Machine → Machine
bwrite b x m = record m {
  disk = update m.disk b x;
  dirty = update m.dirty b none;
  writes = m.writes ++ (b, x) ∷ [];
}

-- `install_trans`, for the `k` log blocks from `tail` on.
unfoldable pub install_from : ℕ → ℕ → Machine → Machine
install_from zero tail m = m
install_from (suc k) tail m =
    install_from k (suc tail) (bwrite (m.sector tail) (bread (m.start + tail + 1) m) m)

unfoldable pub install_trans : Machine → Machine
install_trans m = install_from m.n 0 m

-- `struct logheader` in a sector: `n` is its first word, `sector[i]` the word behind it at `i`.
unfoldable pub read_head : Machine → Machine
read_head m =
    let block = bread m.start m in
    record m { n = block 0; sector = λ i. if ltb i (block 0) then block (suc i) else m.sector i }

abbrev pub put_header : ℕ → (ℕ → ℕ) → Block → Block
put_header n sector block w =
    if w == 0 then n else if ltb (w - 1) n then sector (w - 1) else block w

unfoldable pub write_head : Machine → Machine
write_head m = bwrite m.start (put_header m.n m.sector (bread m.start m)) m

unfoldable pub recover_from_log : Machine → Machine
unfolding read_head install_trans write_head
recover_from_log m = write_head (record (install_trans (read_head m)) { n = 0 })

-- The machine at boot over a disk, once `initlog` has read the superblock, and recovered.
abbrev pub booted : (disk : ℕ → Block) (size nlog : ℕ) → Machine
booted disk size nlog = record {
  disk = disk;
  dirty = λ b. none;
  writes = [];
  start = size - nlog;
  size = nlog;
  busy = false;
  n = 0;
  sector = λ i. 0;
}

unfoldable pub initlog : (disk : ℕ → Block) (size nlog : ℕ) → Machine
unfolding recover_from_log
initlog disk size nlog = recover_from_log (booted disk size nlog)

-- `begin_trans`: `none` while another transaction is active, and the process sleeps.
unfoldable pub begin_trans : Machine → Option Machine
begin_trans m = if m.busy then none else some (record m { busy = true })

unfoldable pub commit_trans : Machine → Machine
unfolding install_trans write_head
commit_trans m =
    let m' =
      if ltb 0 m.n then write_head (record (install_trans (write_head m)) { n = 0 }) else m in
    record m' { busy = false }

-- `log_write`: the entry of the sector `b`, or the next free one.
unfoldable pub find_entry : ℕ → ℕ → ℕ → Machine → ℕ
find_entry b zero i m = i
find_entry b (suc k) i m =
    let later = find_entry b k (suc i) m in if m.sector i == b then i else later

-- `log_write` of the buffer of sector `b`, in which the caller has put `x`.
unfoldable pub log_write : ℕ → Block → Machine → Outcome Machine
unfolding find_entry
log_write b x m =
    if leb logsize m.n || leb m.size (m.n + 1)
    then halt (panic "too big a transaction")
    else if not m.busy
    then halt (panic "write outside of trans")
    else let i = find_entry b m.n 0 m in
      let m' = bwrite (m.start + i + 1) x (record m { sector = update m.sector i b }) in
      ok (record m' { n = if i == m.n then suc m.n else m.n; dirty = update m'.dirty b (some x) })
