-- ===== src/Icache.antt =====
-- fs.c: the cache of inodes, with the reference counts and the flags of its entries.
pub mod Entries
use sistema_operativo.Base.{
  ℕ, zero, suc, ◌+◌, ◌≡◌, Bool, true, false, not, ◌&&◌, ◌||◌, Option, none, some, Outcome, ok, halt,
  panic, ltb, leb, ◌==◌, if◌then◌else◌, update,
}
use sistema_operativo.Base.Int.{ℤ, pos, negsuc, inc, dec, is_positive, is_ℕ}

-- `struct dinode`, an inode on the disk.
pub record Dinode : Type 0 where
  pub type : ℕ
  pub major : ℕ
  pub minor : ℕ
  pub nlink : ℕ
  pub size : ℕ
  pub addrs : ℕ → ℕ

-- `struct inode`: the flags I_BUSY and I_VALID, and the copy of the inode on the disk.
pub record Inode : Type 0 where
  pub dev : ℕ
  pub inum : ℕ
  pub ref : ℤ
  pub busy : Bool
  pub valid : Bool
  pub copy : Dinode

-- `icache`, and the inodes of each device as `bread` and `log_write` show and change them.
pub record Icache : Type 0 where
  pub inode : ℕ → Inode
  pub disk : ℕ → ℕ → Dinode

abbrev pub ninode : ℕ
ninode = 50

abbrev pub put_inode : ℕ → Inode → Icache → Icache
put_inode i ip c = record c { inode = update c.inode i ip }

abbrev pub is_cached : ℕ → ℕ → Inode → Bool
is_cached dev inum ip = is_positive ip.ref && ip.dev == dev && ip.inum == inum

-- The loop of `iget` over the `n` entries from `i` on, with the empty entry that it remembers.
pub data Search : Type 0 where
  cached : ℕ → Search
  absent : Option ℕ → Search

abbrev pub remember : Option ℕ → ℕ → Inode → Option ℕ
remember (some e) i ip = some e
remember none i ip = if is_ℕ ip.ref 0 then some i else none

unfoldable pub search_from : (dev inum n i : ℕ) → Option ℕ → Icache → Search
search_from dev inum zero i empty c = absent empty
search_from dev inum (suc n) i empty c =
    let rest = search_from dev inum n (suc i) (remember empty i (c.inode i)) c in
    if is_cached dev inum (c.inode i) then cached i else rest

unfoldable pub take_entry : (dev inum : ℕ) → Search → Icache → Outcome (ℕ × Icache)
take_entry dev inum (cached i) c =
    ok (i, put_inode i (record (c.inode i) { ref = inc (c.inode i).ref }) c)
take_entry dev inum (absent none) c = halt (panic "iget: no inodes")
take_entry dev inum (absent (some i)) c = ok (
  i,
  put_inode i
      (record (c.inode i) { dev = dev; inum = inum; ref = pos 1; busy = false; valid = false }) c,
)

unfoldable pub iget : (dev inum : ℕ) → Icache → Outcome (ℕ × Icache)
unfolding search_from take_entry
iget dev inum c = take_entry dev inum (search_from dev inum ninode 0 none c) c

unfoldable pub idup : ℕ → Icache → Icache
idup i c = put_inode i (record (c.inode i) { ref = inc (c.inode i).ref }) c

-- `ilock`; `none` for a null pointer, and as a result while the caller sleeps on the entry.
abbrev pub read_inode : ℕ → Inode → Icache → Outcome (Option Icache)
read_inode i ip c =
    if (c.disk ip.dev ip.inum).type == 0
    then halt (panic "ilock: no type")
    else ok (some (put_inode i (record ip { valid = true; copy = c.disk ip.dev ip.inum }) c))

unfoldable pub ilock : Option ℕ → Icache → Outcome (Option Icache)
ilock none c = halt (panic "ilock")
ilock (some i) c =
    if not (is_positive (c.inode i).ref)
    then halt (panic "ilock")
    else if (c.inode i).busy
    then ok none
    else if not (c.inode i).valid
    then read_inode i (record (c.inode i) { busy = true }) c
    else ok (some (put_inode i (record (c.inode i) { busy = true }) c))

unfoldable pub iunlock : Option ℕ → Icache → Outcome Icache
iunlock none c = halt (panic "iunlock")
iunlock (some i) c =
    if not (c.inode i).busy || not (is_positive (c.inode i).ref)
    then halt (panic "iunlock")
    else ok (put_inode i (record (c.inode i) { busy = false }) c)

-- `iupdate` of the entry `ip`.
abbrev pub iupdate : Inode → Icache → Icache
iupdate ip c = record c { disk = update c.disk ip.dev (update (c.disk ip.dev) ip.inum ip.copy) }

-- `iput`. `itrunc` frees the blocks of a file, and gives the inode without them.
module _ (itrunc : Dinode → Dinode) where
  -- The part without the lock, for an inode without links: its entry then has no flags.
  abbrev pub free_inode : ℕ → Icache → Icache
  free_inode i c =
      let ip = record (c.inode i) { copy = record (itrunc (c.inode i).copy) { type = 0 } } in
      put_inode i (record ip { busy = false; valid = false }) (iupdate ip c)

  abbrev pub drop_ref : ℕ → Icache → Icache
  drop_ref i c = put_inode i (record (c.inode i) { ref = dec (c.inode i).ref }) c

  unfoldable pub iput : ℕ → Icache → Outcome Icache
  iput i c =
      if is_ℕ (c.inode i).ref 1 && (c.inode i).valid && (c.inode i).copy.nlink == 0
      then if (c.inode i).busy then halt (panic "iput busy") else ok (drop_ref i (free_inode i c))
      else ok (drop_ref i c)
