-- ===== src/Tests/Paths.antt =====
-- Examples for the walk along a path: every entry of the cache is a directory that nobody else uses.
use sistema_operativo.Base.{ℕ, ◌≡◌, Bool, false, List, [], ◌∷◌, arith}
use sistema_operativo.Base.Int.{pos}
use sistema_operativo.Icache.{Dinode, Inode}
use sistema_operativo.Fs.Namex.{Tree, walk}
use sistema_operativo.Fs.Namex.Fuel.{walk_enough}
use sistema_operativo.Tests.Volume.{superblock, disk, open_log}

abbrev no_device : ℕ → Bool
no_device m = false

abbrev same_inode : Dinode → Dinode
same_inode d = d

abbrev small_directory : Dinode
small_directory = record { type = 1; major = 0; minor = 0; nlink = 1; size = 32; addrs = λ k. 5 }

abbrev cached : Inode
cached = record {
  dev = 1;
  inum = 1;
  ref = pos 1;
  busy = false;
  valid = false;
  copy = small_directory;
}

abbrev tree : Tree
tree = record {
  cache = record { inode = λ i. cached; disk = λ dev inum. small_directory };
  blocks = disk;
  log = open_log;
}

-- "a/b"
abbrev path : List ℕ
path = b'a' ∷ b'/' ∷ b'b' ∷ []

walk_enough_example :
    walk superblock no_device no_device same_inode 9 false 0 [] path tree
    ≡ walk superblock no_device no_device same_inode 4 false 0 [] path tree
walk_enough_example =
    walk_enough superblock no_device no_device same_inode 9 false 0 [] path tree (omega arith)
