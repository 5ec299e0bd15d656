-- ===== src/Bcache.antt =====
-- bio.c: the cache of disk blocks. The ring of the buffers through `prev` and `next` is the list of
-- their indices, the most recently used first.
pub mod Ring
pub mod Unique
pub mod Starting
use sistema_operativo.Base.{
  ℕ, zero, suc, Bool, true, false, not, ◌&&◌, Option, none, some, List, [], ◌∷◌, Outcome, ok, halt,
  panic, ◌==◌, if◌then◌else◌, update,
}

-- `struct buf`, with the flags B_BUSY, B_VALID and B_DIRTY. The device of an unused buffer is -1, the
-- largest `uint`.
pub record Buf : Type 0 where
  pub dev : ℕ
  pub sector : ℕ
  pub busy : Bool
  pub valid : Bool
  pub dirty : Bool

pub record Bcache : Type 0 where
  pub order : List ℕ
  pub buf : ℕ → Buf

abbrev pub nbuf : ℕ
nbuf = 10

abbrev pub put_buf : ℕ → Buf → Bcache → Bcache
put_buf i b c = record c { buf = update c.buf i b }

-- The loop of `binit` over the `n` buffers from `i` on: each goes to the head of the ring.
unfoldable pub link_from : ℕ → ℕ → Bcache → Bcache
link_from zero i c = c
link_from (suc n) i c =
    link_from n (suc i)
      (record (put_buf i (record (c.buf i) { dev = 0xffffffff }) c) { order = i ∷ c.order })

unfoldable pub binit : (ℕ → Buf) → Bcache
unfolding link_from
binit buf = link_from nbuf 0 (record { order = []; buf = buf })

-- The two loops of `bget`: a cached block, from the head on; and a buffer to use again.
unfoldable pub find_block : (dev sector : ℕ) → List ℕ → Bcache → Option ℕ
find_block dev sector [] c = none
find_block dev sector (i ∷ is) c =
    let rest = find_block dev sector is c in
    if (c.buf i).dev == dev && (c.buf i).sector == sector then some i else rest

-- From the tail on: the last of the list that is neither busy nor dirty.
unfoldable pub find_clean : List ℕ → Bcache → Option ℕ
find_clean [] c = none
find_clean (i ∷ is) c = elim (find_clean is c) [
  | some j ↦ some j
  | none ↦ if not (c.buf i).busy && not (c.buf i).dirty then some i else none
]

-- `bget`: the buffer, or `none` while the caller sleeps on the block and searches again.
unfoldable pub recycle : (dev sector : ℕ) → Option ℕ → Bcache → Outcome (Option ℕ × Bcache)
recycle dev sector none c = halt (panic "bget: no buffers")
recycle dev sector (some i) c = ok (
  some i,
  put_buf i (record { dev = dev; sector = sector; busy = true; valid = false; dirty = false }) c,
)

unfoldable pub bget : (dev sector : ℕ) → Bcache → Outcome (Option ℕ × Bcache)
unfolding find_block find_clean recycle
bget dev sector c = elim (find_block dev sector c.order c) [
  | none ↦ recycle dev sector (find_clean c.order c) c
  | some i ↦
      if not (c.buf i).busy
      then ok (some i, put_buf i (record (c.buf i) { busy = true }) c)
      else ok (none, c)
]

-- The ring without a buffer.
abbrev pub unlink : ℕ → List ℕ → List ℕ
unlink i [] = []
unlink i (j ∷ js) = let rest = unlink i js in if j == i then js else j ∷ rest

unfoldable pub brelse : ℕ → Bcache → Outcome Bcache
brelse i c =
    if not (c.buf i).busy
    then halt (panic "brelse")
    else ok
        (record (put_buf i (record (c.buf i) { busy = false }) c) { order = i ∷ unlink i c.order })
