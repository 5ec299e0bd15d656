-- ===== src/Tests/Volume.antt =====
-- A small disk: 8 blocks, of which block 4 is the bitmap, and block 5 the first block of a directory
-- with the name "a" in its second entry. Blocks 6 and 7 are free.
use sistema_operativo.Base.{
  ℕ, ◌/◌, ◌<◌, ◌≡◌, ◌≢◌, refl, sym, ◌∙◌, subst, true, ◌==◌, if◌then◌else◌, arith,
}
use native.Mathlib.Decide.{ℕ_discrete, dec_lt}
use sistema_operativo.Fs.{Superblock, Blocks, bblock, bsize}
use sistema_operativo.Fs.Alloc.{used, bit_set}
use sistema_operativo.Fs.Alloc.Laws.{IsSound}
use sistema_operativo.Fs.Bmap.{FileMap, maxfile, ndirect}
use sistema_operativo.Fs.Bmap.Extend.{IsOwned, HasRoom}
use sistema_operativo.Fs.Bmap.Address.{address, address_direct, address_none}
use sistema_operativo.Fs.Bmap.File.{IsFile}
use sistema_operativo.Fs.Logging.{OpenLog}
use sistema_operativo.Fs.Logging.Room.{HasLogRoom}
use sistema_operativo.Fs.Content.{OpenInode}
use sistema_operativo.Fs.Dir.Lookup.{IsDirectory}
use sistema_operativo.Fs.Dir.Linking.{HasSpace}

abbrev pub superblock : Superblock
superblock = record { size = 8; nblocks = 3; ninodes = 8; nlog = 0 }

abbrev pub disk : Blocks
disk b i =
    if b == 4
    then if i == 0 then 63 else 0
    else if b == 5
    then if i == 16 then 3 else if i == 18 then b'a' else 0
    else 0

abbrev pub map : FileMap
map = record { addrs = λ k. if k == 0 then 5 else 0; blocks = disk }

-- An open transaction without sectors yet.
abbrev pub open_log : OpenLog
open_log = record { busy = true; size = 11; n = 0; sector = λ i. 0 }

abbrev pub directory : OpenInode
directory = record {
  inum = 1;
  log = open_log;
  type = 1;
  major = 0;
  size = 32;
  map = map;
  disk_size = 32;
  disk_addrs = λ k. if k == 0 then 5 else 0;
}

bitmap_block : (j : ℕ) → j < 8 → bblock superblock j ≡ 4
bitmap_block j h = omega arith

pub disk-IsSound : IsSound superblock disk
unfolding bit_set
disk-IsSound = record {
  bitmap = λ j h. subst (λ b. used superblock disk b ≡ true) (sym (bitmap_block j h)) refl;
  on_disk = λ j h. omega arith;
  boot = refl;
  small = omega arith;
}

pub map_first : address map 0 ≡ 5
map_first = address_direct map 0 (omega arith)

map_others : (k : ℕ) → k ≢ 0 → address map k ≡ 0
map_others k n = elim (dec_lt k ndirect) [
  | yes d ↦ address_direct map k d ∙ ground arith
  | no d ↦ address_none map k (omega arith) refl
]

pub block-IsOwned : IsOwned superblock disk 5
unfolding bit_set
block-IsOwned = record { inside = omega arith; in_use = refl; apart = λ j h. omega arith }

is_first : (k : ℕ) → address map k ≢ 0 → 0 ≡ k
is_first k nz = elim (ℕ_discrete k 0) [ yes e ↦ sym e | no n ↦ absurd (nz (map_others k n)) ]

pub map-IsFile : IsFile superblock map
map-IsFile = record {
  owned = λ k h nz.
      subst (λ k. IsOwned superblock disk (address map k)) (is_first k nz)
        (subst (IsOwned superblock disk) (sym map_first) block-IsOwned);
  indirect = λ nz. absurd (nz refl);
  distinct = λ j k hj hk n nz e. let first = is_first j nz in nz (e ∙ map_others k (omega arith));
  apart = λ k h nz e. nz e;
}

pub has_first : (i : ℕ) → i < 512 → (i / bsize < maxfile) × (address map (i / bsize) ≢ 0)
has_first i h = (omega arith, λ z. omega (arith, z, subst (λ k. address map k ≡ 5) first map_first))
  where
    first : 0 ≡ i / bsize
    first = omega arith

pub directory-IsDirectory : IsDirectory directory
directory-IsDirectory = record {
  is_dir = refl;
  whole = refl;
  fits = omega arith;
  has = λ i a b. has_first i (omega arith);
}

pub open_log-HasLogRoom : HasLogRoom 2 open_log
open_log-HasLogRoom = record { busy = refl; fits = omega arith; sized = omega arith }

pub directory-HasSpace : HasSpace superblock directory
directory-HasSpace = record {
  is_file = map-IsFile;
  below = omega arith;
  room = λ i a b. has_first i (omega arith);
  log_room = open_log-HasLogRoom;
}

pub disk-HasRoom : HasRoom superblock disk
unfolding bit_set
disk-HasRoom = record {
  one = 6;
  two = 7;
  differ = omega arith;
  one_inside = omega arith;
  two_inside = omega arith;
  one_free = refl;
  two_free = refl;
}
