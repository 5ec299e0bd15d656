-- ===== src/Fs/Namex.antt =====
-- Paths to inodes: `namex` walks from directory to directory, by the inode cache and `dirlookup`.
pub mod Fuel
use sistema_operativo.Base.{
  ℕ, zero, suc, ◌+◌, ◌-◌, Bool, true, false, not, ◌&&◌, Option, none, some, List, [], ◌∷◌, Outcome,
  ok, ◌>>=◌, ◌==◌, if◌then◌else◌, length, get_or,
}
use sistema_operativo.Icache.{Dinode, Inode, Icache, put_inode, iget, idup, ilock, iunlock, iput}
use sistema_operativo.Fs.{Superblock, Blocks}
use sistema_operativo.Fs.Logging.{OpenLog}
use sistema_operativo.Fs.Content.{OpenInode}
use sistema_operativo.Fs.Dir.{dirlookup, t_dir}
use sistema_operativo.Fs.Path.{skipelem}

-- The inode cache, the blocks of the disk with the contents of the files, and the transaction.
pub record Tree : Type 0 where
  pub cache : Icache
  pub blocks : Blocks
  pub log : OpenLog

-- Entry `i` of the cache as an inode in use, and back.
abbrev pub opened : ℕ → Tree → OpenInode
opened i s =
    let ip = s.cache.inode i in
    record {
      inum = ip.inum;
      type = ip.copy.type;
      major = ip.copy.major;
      size = ip.copy.size;
      map = record { addrs = ip.copy.addrs; blocks = s.blocks };
      disk_size = (s.cache.disk ip.dev ip.inum).size;
      disk_addrs = (s.cache.disk ip.dev ip.inum).addrs;
      log = s.log;
    }

abbrev pub put_back : ℕ → OpenInode → Tree → Tree
put_back i o s =
    let ip = s.cache.inode i in
    record {
      cache = put_inode i (record ip { copy = record ip.copy { addrs = o.map.addrs } }) s.cache;
      blocks = o.map.blocks;
      log = o.log;
    }

-- `iget(dp->dev, inum)` of what `dirlookup` found.
abbrev pub get_found : ℕ → Option (ℕ × ℕ) → Tree → Outcome (Option ℕ × Tree)
get_found dev none s = ok (none, s)
get_found dev (some (inum, off)) s =
    iget dev inum s.cache >>= (λ q. ok (some q.0, record s { cache = q.1 }))

-- `namex` found an inode, with the last element of the path, or none; or it sleeps until nobody else uses inode
-- `i`, and goes on with the path from there.
pub data Walked : Type 0 where
  found : Option ℕ → List ℕ → Tree → Walked
  sleeps : (i : ℕ) → List ℕ → Tree → Walked

-- A name in its array of DIRSIZ bytes.
abbrev pub name_bytes : List ℕ → ℕ → ℕ
name_bytes name i = get_or name i 0

abbrev pub is_last : List ℕ → Bool
is_last [] = true
is_last (c ∷ cs) = false

-- `free_blocks` is what `itrunc` makes of an inode that `iput` frees.
module _ (sb : Superblock) (has_read has_write : ℕ → Bool) (free_blocks : Dinode → Dinode) where
  abbrev pub unlock : ℕ → Tree → Outcome Tree
  unlock i s = iunlock (some i) s.cache >>= (λ c. ok (record s { cache = c }))

  abbrev pub put_ref : ℕ → Tree → Outcome Tree
  put_ref i s = iput free_blocks i s.cache >>= (λ c. ok (record s { cache = c }))

  -- `iunlockput`
  abbrev pub unlock_put : ℕ → Tree → Outcome Tree
  unlock_put i s = unlock i s >>= put_ref i

  abbrev pub lookup : ℕ → List ℕ → Tree → Outcome (Option ℕ × Tree)
  lookup i name s =
      dirlookup sb has_read has_write (name_bytes name) (opened i s)
      >>= (λ r. get_found (s.cache.inode i).dev r.0 (put_back i r.1 s))

  -- The next inode, if there is one: `go_on` is the rest of the walk.
  abbrev pub enter : ℕ → List ℕ → (ℕ → Tree → Outcome Walked) → Option ℕ × Tree → Outcome Walked
  enter i name go_on (none, s) = unlock_put i s >>= (λ s'. ok (found none name s'))
  enter i name go_on (some next, s) = unlock_put i s >>= go_on next

  -- The body of the loop after `ilock`, for the element `name` before `rest`.
  unfoldable pub walk_elem :
      (parent : Bool) (i : ℕ) (name rest : List ℕ)
      → (ℕ → Tree → Outcome Walked)
      → Tree
      → Outcome Walked
  unfolding iunlock iput dirlookup iget
  walk_elem parent i name rest go_on s =
      if not ((s.cache.inode i).copy.type == t_dir)
      then (unlock_put i s >>= (λ s'. ok (found none name s')))
      else if parent && is_last rest
      then (unlock i s >>= (λ s'. ok (found (some i) name s')))
      else (lookup i name s >>= enter i name go_on)

  -- The element of the path `path` after `ilock`, if the caller does not sleep.
  abbrev pub locked :
      Bool
      → ℕ
      → (path name rest : List ℕ) → (ℕ → Tree → Outcome Walked)
      → Tree
      → Option Icache
      → Outcome Walked
  locked parent i path name rest go_on s none = ok (sleeps i path s)
  locked parent i path name rest go_on s (some c) =
      walk_elem parent i name rest go_on (record s { cache = c })

  -- The end of the path; `name` is the last element.
  abbrev pub finish : Bool → ℕ → List ℕ → Tree → Outcome Walked
  finish true i name s = put_ref i s >>= (λ s'. ok (found none name s'))
  finish false i name s = ok (found (some i) name s)

  -- The loop from inode `i` on; `name` is the element before, and the fuel one more than `path` has bytes.
  unfoldable pub walk :
      (fuel : ℕ) → (parent : Bool) → (i : ℕ) → (name path : List ℕ) → Tree → Outcome Walked
  unfolding skipelem ilock walk_elem
  walk zero parent i name path s = finish parent i name s
  walk (suc fuel) parent i name path s = elim (skipelem path) [
    | none ↦ finish parent i name s
    | some (next, rest) ↦
        ilock (some i) s.cache
        >>= locked parent i path next rest (λ j s'. walk fuel parent j next rest s') s
  ]

  abbrev pub rooted : List ℕ → Bool
  rooted [] = false
  rooted (c ∷ cs) = c == b'/'

  -- From the root, inode 1 of device 1, or from the directory `cwd` of the process.
  unfoldable pub namex : (cwd : ℕ) → (parent : Bool) → List ℕ → Tree → Outcome Walked
  unfolding walk iget idup
  namex cwd parent path s =
      if rooted path
      then (iget 1 1 s.cache
          >>= (λ r. walk (suc (length path)) parent r.0 [] path (record s { cache = r.1 })))
      else walk (suc (length path)) parent cwd [] path (record s { cache = idup cwd s.cache })

  unfoldable pub namei : (cwd : ℕ) → List ℕ → Tree → Outcome Walked
  unfolding namex
  namei cwd path s = namex cwd false path s

  unfoldable pub nameiparent : (cwd : ℕ) → List ℕ → Tree → Outcome Walked
  unfolding namex
  nameiparent cwd path s = namex cwd true path s
