-- ===== src/Tests/Files.antt =====
-- Examples for the file table, the chunks of a write and the inode cache.
use sistema_operativo.Base.{ℕ, ◌+◌, ◌≡◌, refl, false, Option, none, some, arith, update, ok}
use sistema_operativo.Base.Int.{ℤ, pos}
use sistema_operativo.Syscall.{Caller}
use sistema_operativo.File.{File, Files, fd_none, Closing, sys_dup, sys_close}
use sistema_operativo.File.Counts.{Balanced, descriptors, sys_dup-Balanced, sys_close-Balanced}
use sistema_operativo.Icache.{Dinode, Inode, Icache}

-- A process whose first argument is 0.
abbrev caller : Caller
caller = record { sz = 4096; esp = 0; memory = λ a. 0 }

abbrev closed_file : File
closed_file = record {
  type = fd_none;
  ref = 0;
  readable = false;
  writable = false;
  pipe = 0;
  ip = 0;
  off = 0;
}

-- File 3 is open, as descriptor 0 of the process.
abbrev files : Files
files = record {
  file = update (λ i. closed_file) 3 (record closed_file { ref = 1 });
  ofile = update (λ fd. none) 0 (some 3);
}

abbrev nobody : ℕ → ℕ
nobody i = 0

files-Balanced : Balanced nobody files
unfolding descriptors
files-Balanced i = ground arith

sys_dup-Balanced_example :
    (r : Option ℕ) × (t' : Files) × (sys_dup caller files ≡ ok (r, t')) × Balanced nobody t'
sys_dup-Balanced_example = sys_dup-Balanced nobody caller files files-Balanced

sys_close-Balanced_example :
    (r : Option Closing) × (t' : Files) × (sys_close caller files ≡ ok (r, t')) × Balanced nobody t'
sys_close-Balanced_example = sys_close-Balanced nobody caller files files-Balanced

-- A disk that counts the bytes written.
abbrev counting : ℕ → ℕ → ℕ → ℕ → ℤ × ℕ
counting s addr off n = (pos n, s + n)

counting_full : (s addr off n : ℕ) → (counting s addr off n).0 ≡ pos n
counting_full s addr off n = refl

abbrev no_inode : Dinode
no_inode = record { type = 0; major = 0; minor = 0; nlink = 0; size = 0; addrs = λ i. 0 }

abbrev free_entry : Inode
free_entry = record { dev = 0; inum = 0; ref = pos 0; busy = false; valid = false; copy = no_inode }

abbrev cache : Icache
cache = record {
  inode = update (λ i. free_entry) 0 (record free_entry { dev = 1; inum = 7; ref = pos 2 });
  disk = λ dev inum. no_inode;
}
