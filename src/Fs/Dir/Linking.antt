-- ===== src/Fs/Dir/Linking.antt =====
-- `dirlink` adds one name to a directory, and changes no other.
use sistema_operativo.Base.{
  ℕ, ◌+◌, ◌*◌, ◌/◌, ◌%◌, ◌≤◌, ◌<◌, ◌≡◌, ◌≢◌, ◌⊎◌, inl, inr, refl, sym, ap, ◌∙◌, subst, Bool, true,
  Option, none, some, ok, ◌>>=◌, ltb, if◌then◌else◌, arith,
}
use sistema_operativo.Fs.{Superblock, bsize}
use sistema_operativo.Fs.Bmap.{FileMap, maxfile}
use sistema_operativo.Fs.Logging.Room.{HasLogRoom, HasLogRoom-less}
use sistema_operativo.Fs.Bmap.File.{IsFile}
use sistema_operativo.Fs.Bmap.Address.{address}
use sistema_operativo.Fs.Content.{OpenInode, wrote, writei}
use sistema_operativo.Fs.Content.Reading.{HasBlocks}
use sistema_operativo.Fs.Content.Writing.{writei_lem}
use sistema_operativo.Fs.Dir.{
  Dirent, dirsiz, dirent_size, dirent_byte, t_dir, Scan, find_entry, is_empty, scan_fuel, add_entry,
  new_dirent, padded, whole_write,
}
use sistema_operativo.Fs.Dir.Lookup.{entry_at, IsDirectory, FirstEntry, find_entry_lem}
use sistema_operativo.Fs.Dir.Fresh.{new_entry-inum, new_entry-name, other_entry}

-- A directory has blocks of its own for one more entry behind its end, and the transaction has room for
-- the block of the entry and that of the inode.
pub record HasSpace (sb : Superblock) (dp : OpenInode) : Type 0 where
  pub is_file : IsFile sb dp.map
  pub below : dp.size + dirent_size ≤ maxfile * bsize
  pub room : HasBlocks dp.map 0 (dp.size + dirent_size)
  pub log_room : HasLogRoom 2 dp.log

-- `dp'` is `dp` with a new entry at `off`, where an entry was empty or the directory ended.
pub record Added (name : ℕ → ℕ) (inum : ℕ) (dp : OpenInode) (off : ℕ) (dp' : OpenInode)
    : Type 0 where
  pub is_directory : IsDirectory dp'
  pub aligned : off % dirent_size ≡ 0
  pub inside : off < dp'.size
  pub size : dp'.size ≡ (if ltb dp.size (off + dirent_size) then off + dirent_size else dp.size)
  pub place : (off ≡ dp.size) ⊎ ((off < dp.size) × ((entry_at dp.map off).inum ≡ 0))
  pub number : (entry_at dp'.map off).inum ≡ inum
  pub bytes : (k : ℕ) → k < dirsiz → (entry_at dp'.map off).name k ≡ padded name k
  pub others :
      (k : ℕ) → k < dp.size → k % dirent_size ≡ 0 → k ≢ off → entry_at dp'.map k ≡ entry_at dp.map k

-- Where the search for an empty entry ends.
place_found :
    (f : FileMap) (size : ℕ) (found : Option Dirent) (off : ℕ)
    → size % dirent_size ≡ 0
    → FirstEntry is_empty f 0 size found off
    → (off % dirent_size ≡ 0) × ((off ≡ size) ⊎ ((off < size) × ((entry_at f off).inum ≡ 0)))
place_found f size none off whole (at, n) = (omega arith, inl at)
place_found f size (some de) off whole (a, b, c, entry, t, n) =
    (c, inr (b, subst (λ x. x.inum ≡ 0) entry (ground (arith, t))))

new_size :
    (off size size' : ℕ)
    → size' ≡ (if ltb size (off + dirent_size) then off + dirent_size else size)
    → off % dirent_size ≡ 0
    → size % dirent_size ≡ 0
    → off ≤ size
    → (size' % dirent_size ≡ 0) × (size' ≤ size + dirent_size) × (off + dirent_size ≤ size')
new_size off size size' e a b l = ground arith

-- The directory with more bytes, in blocks that it had.
IsDirectory-kept :
    (sb : Superblock) (dp dp' : OpenInode)
    → HasSpace sb dp
    → dp'.type ≡ t_dir
    → dp'.size % dirent_size ≡ 0
    → dp'.size ≤ dp.size + dirent_size
    → ((k : ℕ) → address dp'.map k ≡ address dp.map k)
    → IsDirectory dp'
IsDirectory-kept sb dp dp' space t whole l same = record {
  is_dir = t;
  whole = whole;
  fits = omega (arith, space.below);
  has = λ i a b.
      let h = space.room i (omega arith) (omega arith) in
      (h.0, λ z. h.1 (sym (same (i / bsize)) ∙ z));
}

module _ (sb : Superblock) (has_read has_write : ℕ → Bool) where
  add_entry-writei :
      (name : ℕ → ℕ) (inum : ℕ) (dp : OpenInode) (s : Scan) (dp' : OpenInode)
      → find_entry sb has_read has_write is_empty (scan_fuel dp) 0 dp ≡ ok s
      → writei sb has_write s.off dirent_size (dirent_byte (new_dirent name inum)) s.dir
        ≡ ok (wrote dirent_size, dp')
      → add_entry sb has_read has_write name inum dp ≡ ok (true, dp')
  unfolding add_entry
  add_entry-writei name inum dp s dp' e w =
      ap
        (λ x.
          (x >>= (λ s.
            writei sb has_write s.off dirent_size (dirent_byte (new_dirent name inum)) s.dir))
          >>= whole_write)
        e
      ∙ ap (λ x. x >>= whole_write) w

  pub add_entry_lem :
      (name : ℕ → ℕ) (inum : ℕ) (dp : OpenInode)
      → IsDirectory dp
      → HasSpace sb dp
      → inum < 65536
      → (off : ℕ) × (dp' : OpenInode) × (add_entry sb has_read has_write name inum dp
          ≡ ok (true, dp'))
        × Added name inum dp off dp'
  add_entry_lem name inum dp d space small =
      let (s, computes, same, first) =
        find_entry_lem sb has_read has_write is_empty (scan_fuel dp) 0 dp d (omega arith) refl
          (omega arith) in
      let (aligned, place) = place_found dp.map dp.size s.found s.off d.whole first in
      let (dp', writes, file, type, size, on_disk, same', bytes) =
        writei_lem sb has_write s.off dirent_size (dirent_byte (new_dirent name inum)) dp
          (λ e. omega (arith, e, d.is_dir)) (omega (arith, place))
          (omega (arith, place, space.below)) (omega (arith, place, space.below)) space.is_file
          (λ i a b. space.room i (omega arith) (omega (arith, place, b, d.whole, aligned)))
          (HasLogRoom-less _ 2 (omega (arith, aligned)) space.log_room) in
      let grown = new_size s.off dp.size dp'.size size aligned d.whole (omega (arith, place)) in
      (
        s.off,
        dp',
        add_entry-writei name inum dp s dp' computes (
            ap (writei sb has_write s.off dirent_size (dirent_byte (new_dirent name inum))) same
            ∙ writes),
        record {
          is_directory = IsDirectory-kept sb dp dp' space (type ∙ d.is_dir) grown.0 grown.1 same';
          aligned = aligned;
          inside = omega (arith, grown.2);
          size = size;
          place = place;
          number =
              new_entry-inum dp.map s.off name inum dp'.map bytes
                (omega (arith, place, space.below)) small;
          bytes =
              new_entry-name dp.map s.off name inum dp'.map bytes
                (omega (arith, place, space.below));
          others = λ k l a n.
              other_entry dp.map s.off (new_dirent name inum) dp'.map k bytes aligned a n
                (omega (arith, space.below));
        },
      )
