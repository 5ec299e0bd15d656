-- ===== src/Tests/Directories.antt =====
-- Examples for directories and paths.
use sistema_operativo.Base.{
  ℕ, ◌≡◌, refl, Bool, true, false, Option, none, some, ok, List, [], ◌∷◌, ◌==◌, if◌then◌else◌,
  arith,
}
use sistema_operativo.Strings.{strncmp}
use sistema_operativo.Fs.Bmap.{bmap, slot}
use sistema_operativo.Fs.Content.{OpenInode, readi, read_loop, segment}
use sistema_operativo.Fs.Dir.{dirlookup, dirlink, find_entry, is_entry, namecmp, read_dirent}
use sistema_operativo.Fs.Dir.Names.{Agree}
use sistema_operativo.Fs.Dir.Lookup.{IsDirectory, LookedUp, dirlookup_lem}
use sistema_operativo.Fs.Dir.Laws.{dirlink_lem}
use sistema_operativo.Fs.Path.{skipelem, skip_slashes, split_elem}
use sistema_operativo.Fs.Path.Elements.{Skipped, elements, skipelem_lem}
use sistema_operativo.Tests.Volume.{
  superblock, directory, directory-IsDirectory, directory-HasSpace,
}

abbrev no_device : ℕ → Bool
no_device m = false

-- The names "a" and "b".
abbrev name_a : ℕ → ℕ
name_a i = if i == 0 then b'a' else 0

abbrev name_b : ℕ → ℕ
name_b i = if i == 0 then b'b' else 0

finds_a : dirlookup superblock no_device no_device name_a directory ≡ ok (some (3, 16), directory)
unfolding dirlookup find_entry is_entry namecmp strncmp read_dirent readi read_loop bmap slot
    segment
finds_a = refl

finds_no_b : dirlookup superblock no_device no_device name_b directory ≡ ok (none, directory)
unfolding dirlookup find_entry is_entry namecmp strncmp read_dirent readi read_loop bmap slot
    segment
finds_no_b = refl

dirlookup_lem_example :
    (r : Option (ℕ × ℕ)) × (dirlookup superblock no_device no_device name_a directory
      ≡ ok (r, directory))
    × LookedUp name_a directory r
dirlookup_lem_example =
    dirlookup_lem superblock no_device no_device name_a directory directory-IsDirectory

dirlink_lem_example :
    (off : ℕ) × (dp' : OpenInode) × (dirlink superblock no_device no_device name_b 9 directory
      ≡ ok (true, dp'))
    × IsDirectory dp'
    × (dirlookup superblock no_device no_device name_b dp' ≡ ok (some (9, off), dp'))
    × ((other : ℕ → ℕ)
        → ¬ Agree other name_b
        → (r : Option (ℕ × ℕ)) × (dirlookup superblock no_device no_device other directory
            ≡ ok (r, directory))
          × (dirlookup superblock no_device no_device other dp' ≡ ok (r, dp')))
dirlink_lem_example =
    dirlink_lem superblock no_device no_device name_b 9 directory directory-IsDirectory
      directory-HasSpace (omega arith) (omega arith) finds_no_b

-- "//ab/c"
abbrev path : List ℕ
path = b'/' ∷ b'/' ∷ b'a' ∷ b'b' ∷ b'/' ∷ b'c' ∷ []

skipelem_lem_example : Skipped (elements path) (skipelem path)
skipelem_lem_example = skipelem_lem path

first_element : skipelem path ≡ some (b'a' ∷ b'b' ∷ [], b'c' ∷ [])
unfolding skipelem skip_slashes split_elem
first_element = refl
