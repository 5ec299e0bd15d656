-- ===== src/Fs/Path.antt =====
-- Paths: `skipelem`, over the bytes of the path up to its NUL.
pub mod Elements
use sistema_operativo.Base.{ℕ, Option, none, some, List, [], ◌∷◌, ◌==◌, if◌then◌else◌, take}
use sistema_operativo.Fs.Dir.{dirsiz}

unfoldable pub skip_slashes : List ℕ → List ℕ
skip_slashes [] = []
skip_slashes (c ∷ cs) = let rest = skip_slashes cs in if c == b'/' then rest else c ∷ cs

-- The bytes up to the next slash, and the others.
unfoldable pub split_elem : List ℕ → List ℕ × List ℕ
split_elem [] = ([], [])
split_elem (c ∷ cs) =
    let rest = split_elem cs in if c == b'/' then ([], c ∷ cs) else (c ∷ rest.0, rest.1)

-- The name, and the path behind it.
unfoldable pub skipelem : List ℕ → Option (List ℕ × List ℕ)
unfolding skip_slashes split_elem
skipelem path = elim (skip_slashes path) [
  | [] ↦ none
  | s ∷ ss ↦ some (take dirsiz (split_elem (s ∷ ss)).0, skip_slashes (split_elem (s ∷ ss)).1)
]
