-- ===== src/Fs/Dir.antt =====
-- Directories: the entries that `dirlookup` and `dirlink` read and write by `readi` and `writei`.
pub mod Names
pub mod Lookup
pub mod Fresh
pub mod Linking
pub mod Laws
use sistema_operativo.Base.{
  ℕ, zero, suc, ◌+◌, ◌-◌, ◌*◌, ◌/◌, ◌%◌, Bool, true, false, not, ◌&&◌, Option, none, some, List,
  Outcome, ok, halt, panic, ◌>>=◌, ltb, ◌==◌, if◌then◌else◌, length, get_or,
}
use sistema_operativo.Base.Int.{ℤ, is_ℕ}
use sistema_operativo.Strings.{strncmp, strncpy}
use sistema_operativo.Fs.{Superblock}
use sistema_operativo.Fs.Content.{
  OpenInode, ReadResult, read_fails, read_device, read_bytes, WriteResult, write_fails,
  write_device, wrote, readi, writei,
}

abbrev pub dirsiz : ℕ
dirsiz = 14

-- `sizeof(struct dirent)`
abbrev pub dirent_size : ℕ
dirent_size = 16

-- T_DIR
abbrev pub t_dir : ℕ
t_dir = 1

-- A name is an array of DIRSIZ bytes, of which those behind the first NUL do not count.
pub record Dirent : Type 0 where
  pub inum : ℕ
  pub name : ℕ → ℕ

-- The bytes of an entry in memory, and back.
abbrev pub to_dirent : List ℕ → Dirent
to_dirent bs = record {
  inum = get_or bs 0 0 + 256 * get_or bs 1 0;
  name = λ i. get_or bs (2 + i) 0;
}

abbrev pub dirent_byte : Dirent → ℕ → ℕ
dirent_byte de i =
    if i == 0 then de.inum % 256 else if i == 1 then de.inum / 256 % 256 else de.name (i - 2)

-- Two names in memory, one behind the other.
abbrev pub side_by_side : (ℕ → ℕ) → (ℕ → ℕ) → ℕ → ℕ
side_by_side s t i = if ltb i dirsiz then s i else t (i - dirsiz)

unfoldable pub namecmp : (ℕ → ℕ) → (ℕ → ℕ) → ℤ
unfolding strncmp
namecmp s t = strncmp 0 dirsiz dirsiz (side_by_side s t)

-- `strncpy(de.name, name, DIRSIZ)`
unfoldable pub padded : (ℕ → ℕ) → ℕ → ℕ
unfolding strncpy
padded name = strncpy 0 dirsiz dirsiz (side_by_side name name)

-- An entry in use with the name that is looked up.
unfoldable pub is_entry : (ℕ → ℕ) → Dirent → Bool
unfolding namecmp
is_entry name de = not (de.inum == 0) && is_ℕ (namecmp name de.name) 0

abbrev pub is_empty : Dirent → Bool
is_empty de = de.inum == 0

-- A directory is no device, so that `readi` and `writei` never call one.
abbrev pub whole_dirent : ReadResult × OpenInode → Outcome (Dirent × OpenInode)
whole_dirent (read_bytes bs, o) =
    if not (length bs == dirent_size) then halt (panic "dirlink read") else ok (to_dirent bs, o)
whole_dirent (read_fails, o) = halt (panic "dirlink read")
whole_dirent (read_device major n, o) = halt (panic "dirlink read")

abbrev pub whole_write : WriteResult × OpenInode → Outcome (Bool × OpenInode)
whole_write (wrote n, o) = if not (n == dirent_size) then halt (panic "dirlink") else ok (true, o)
whole_write (write_fails, o) = halt (panic "dirlink")
whole_write (write_device major n, o) = halt (panic "dirlink")

-- What a loop over the entries found, and the offset at its end.
pub record Scan : Type 0 where
  pub found : Option Dirent
  pub off : ℕ
  pub dir : OpenInode

abbrev pub scan_fuel : OpenInode → ℕ
scan_fuel o = suc (o.size / dirent_size)

-- The number of the inode, for `iget`, and the offset of the entry.
abbrev pub looked_up : Scan → Outcome (Option (ℕ × ℕ) × OpenInode)
looked_up s = elim s.found [ none ↦ ok (none, s.dir) | some de ↦ ok (some (de.inum, s.off), s.dir) ]

abbrev pub new_dirent : (ℕ → ℕ) → ℕ → Dirent
new_dirent name inum = record { inum = inum % 65536; name = padded name }

module _ (sb : Superblock) (has_read has_write : ℕ → Bool) where
  unfoldable pub read_dirent : ℕ → OpenInode → Outcome (Dirent × OpenInode)
  unfolding readi
  read_dirent off o = readi sb has_read off dirent_size o >>= whole_dirent

  -- The loops of `dirlookup` and `dirlink`, which end at the first entry with `test`. The fuel is one
  -- more than the directory has entries.
  unfoldable pub find_entry : (Dirent → Bool) → (fuel off : ℕ) → OpenInode → Outcome Scan
  unfolding read_dirent
  find_entry test zero off o = ok (record { found = none; off = off; dir = o })
  find_entry test (suc fuel) off o =
      let next = read_dirent off o >>= (λ r.
        let rest = find_entry test fuel ((off + dirent_size) % 0x100000000) r.1 in
        if test r.0 then ok (record { found = some r.0; off = off; dir = r.1 }) else rest) in
      if ltb off o.size then next else ok (record { found = none; off = off; dir = o })

  unfoldable pub dirlookup : (ℕ → ℕ) → OpenInode → Outcome (Option (ℕ × ℕ) × OpenInode)
  unfolding find_entry is_entry
  dirlookup name dp =
      if not (dp.type == t_dir)
      then halt (panic "dirlookup not DIR")
      else (find_entry (is_entry name) (scan_fuel dp) 0 dp >>= looked_up)

  unfoldable pub add_entry : (ℕ → ℕ) → ℕ → OpenInode → Outcome (Bool × OpenInode)
  unfolding find_entry writei
  add_entry name inum dp =
      (find_entry is_empty (scan_fuel dp) 0 dp
        >>= (λ s. writei sb has_write s.off dirent_size (dirent_byte (new_dirent name inum)) s.dir))
      >>= whole_write

  -- False stands for -1: the name is there already.
  unfoldable pub dirlink : (ℕ → ℕ) → ℕ → OpenInode → Outcome (Bool × OpenInode)
  unfolding dirlookup add_entry
  dirlink name inum dp =
      dirlookup name dp
      >>= (λ r. elim r.0 [ some e ↦ ok (false, r.1) | none ↦ add_entry name inum r.1 ])
