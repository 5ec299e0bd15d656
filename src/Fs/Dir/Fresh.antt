-- ===== src/Fs/Dir/Fresh.antt =====
-- A new entry, in memory and in the bytes of a directory.
use sistema_operativo.Base.{
  ℕ, zero, suc, ◌+◌, ◌-◌, ◌*◌, ◌/◌, ◌%◌, ◌≤◌, ◌<◌, ◌≡◌, ◌≢◌, inl, sym, ap, ap₂, ◌∙◌, subst, true,
  false, ltb, leb, ◌==◌, arith, get_or,
}
use native.Mathlib.Decide.{ℕ_discrete}
use sistema_operativo.Strings.Pad.{strncpy_lem}
use sistema_operativo.Fs.{bsize}
use sistema_operativo.Fs.Bmap.{FileMap, maxfile}
use sistema_operativo.Fs.Content.{segment}
use sistema_operativo.Fs.Content.Segments.{contents, segment-ext}
use sistema_operativo.Fs.Content.Chunk.{spliced}
use sistema_operativo.Fs.Dir.{
  Dirent, dirsiz, dirent_size, to_dirent, dirent_byte, side_by_side, padded, new_dirent,
}
use sistema_operativo.Fs.Dir.Names.{Agree, side_by_side-second}
use sistema_operativo.Fs.Dir.Lookup.{entry_at}

-- The bytes of a padded name are those of the name up to its NUL.
padded_byte :
    (name : ℕ → ℕ) (k : ℕ) → k < dirsiz → ((j : ℕ) → j < k → name j ≢ 0) → padded name k ≡ name k
unfolding padded
padded_byte name k h nz =
    ap (padded name) (zero_plus k)
    ∙ ((strncpy_lem 0 dirsiz dirsiz (side_by_side name name) (inl (omega arith))).0 k h).0
        (λ j l z. nz j l (sym (side_by_side-second name name j) ∙ z))
    ∙ side_by_side-second name name k
  where
    zero_plus : (k : ℕ) → k ≡ 0 + k
    zero_plus k = omega arith

pub padded-Agree : (name : ℕ → ℕ) → Agree name (padded name)
padded-Agree name k h nz = sym (padded_byte name k h nz)

-- A name that agrees with the padded name agrees with the name itself.
pub Agree-padded : (other name : ℕ → ℕ) → Agree other (padded name) → Agree other name
Agree-padded other name h k l nz = h k l nz ∙ padded_byte name k l (name_goes_on k (omega arith) nz)
  where
    name_goes_on :
        (k : ℕ) → k < dirsiz → ((j : ℕ) → j < k → other j ≢ 0) → (j : ℕ) → j < k → name j ≢ 0
    name_goes_on zero l nz j less z = omega arith
    name_goes_on (suc k) l nz j less z = elim (ℕ_discrete j k) [
      | yes e ↦ nz k (omega arith) (
          h k (omega arith) (λ i a. nz i (omega arith))
          ∙ padded_byte name k (omega arith)
              (name_goes_on k (omega arith) (λ i a. nz i (omega arith)))
          ∙ subst (λ x. name x ≡ 0) e z)
      | no e ↦ name_goes_on k (omega arith) (λ i a. nz i (omega arith)) j (omega arith) z
    ]

-- Only the bytes of the name that are in the array count.
pub Agree-ext :
    (other s t : ℕ → ℕ) → ((k : ℕ) → k < dirsiz → s k ≡ t k) → Agree other s → Agree other t
Agree-ext other s t same h k l nz = h k l nz ∙ same k l

get_or-segment : (g : ℕ → ℕ) (i n j : ℕ) → j < n → get_or (segment g i n) j 0 ≡ g (i + j)
unfolding segment
get_or-segment g i zero j h = absurd (omega arith)
get_or-segment g i (suc n) zero h = ap g (omega arith)
get_or-segment g i (suc n) (suc j) h = get_or-segment g (suc i) n j (omega arith) ∙ ap g shift
  where
    shift : suc i + j ≡ i + suc j
    shift = omega arith

-- The bytes of two entries.
pub entry_at-inum :
    (f : FileMap) (off : ℕ)
    → (entry_at f off).inum ≡ contents f (off + 0) + 256 * contents f (off + 1)
entry_at-inum f off =
    ap₂ (λ a b. a + 256 * b) (get_or-segment (contents f) off dirent_size 0 (omega arith))
      (get_or-segment (contents f) off dirent_size 1 (omega arith))

pub entry_at-name :
    (f : FileMap) (off k : ℕ) → k < dirsiz → (entry_at f off).name k ≡ contents f (off + (2 + k))
entry_at-name f off k h = get_or-segment (contents f) off dirent_size (2 + k) (omega arith)

-- The contents after an entry is written at `off`.
abbrev pub Rewritten : FileMap → (off : ℕ) → Dirent → FileMap → Type 0
Rewritten f off de f' =
    (i : ℕ)
    → i / bsize < maxfile
    → contents f' i ≡ spliced (contents f) off dirent_size (dirent_byte de) i

written_byte :
    (f : FileMap) (off : ℕ) (de : Dirent) (f' : FileMap) (j : ℕ)
    → Rewritten f off de f'
    → off + dirent_size ≤ maxfile * bsize
    → j < dirent_size
    → contents f' (off + j) ≡ dirent_byte de j
written_byte f off de f' j w h l = w (off + j) (omega arith) ∙ inside
  where
    back : off + j - off ≡ j
    back = omega arith

    low : leb off (off + j) ≡ true
    low = ground arith

    high : ltb (off + j) (off + dirent_size) ≡ true
    high = ground arith

    inside : spliced (contents f) off dirent_size (dirent_byte de) (off + j) ≡ dirent_byte de j
    inside = rw (low, high) (ap (dirent_byte de) back)

-- The new entry.
pub new_entry-inum :
    (f : FileMap) (off : ℕ) (name : ℕ → ℕ) (inum : ℕ) (f' : FileMap)
    → Rewritten f off (new_dirent name inum) f'
    → off + dirent_size ≤ maxfile * bsize
    → inum < 65536
    → (entry_at f' off).inum ≡ inum
new_entry-inum f off name inum f' w h small =
    entry_at-inum f' off
    ∙ ap₂ (λ a b. a + 256 * b) (written_byte f off (new_dirent name inum) f' 0 w h (omega arith))
        (written_byte f off (new_dirent name inum) f' 1 w h (omega arith))
    ∙ halves
  where
    halves : inum % 65536 % 256 + 256 * (inum % 65536 / 256 % 256) ≡ inum
    halves = omega arith

pub new_entry-name :
    (f : FileMap) (off : ℕ) (name : ℕ → ℕ) (inum : ℕ) (f' : FileMap)
    → Rewritten f off (new_dirent name inum) f'
    → off + dirent_size ≤ maxfile * bsize
    → (k : ℕ) → k < dirsiz
    → (entry_at f' off).name k ≡ padded name k
new_entry-name f off name inum f' w h k l =
    entry_at-name f' off k l
    ∙ written_byte f off (new_dirent name inum) f' (2 + k) w h (omega arith)
    ∙ behind
  where
    first : (2 + k == 0) ≡ false
    first = ground arith

    second : (2 + k == 1) ≡ false
    second = ground arith

    back : 2 + k - 2 ≡ k
    back = omega arith

    behind : dirent_byte (new_dirent name inum) (2 + k) ≡ padded name k
    behind = rw (first, second) (ap (padded name) back)

-- The other entries.
pub other_entry :
    (f : FileMap) (off : ℕ) (de : Dirent) (f' : FileMap) (k : ℕ)
    → Rewritten f off de f'
    → off % dirent_size ≡ 0
    → k % dirent_size ≡ 0
    → k ≢ off
    → k + dirent_size ≤ maxfile * bsize
    → entry_at f' k ≡ entry_at f k
other_entry f off de f' k w a b n h = ap to_dirent (
    segment-ext (contents f') (contents f) k k dirent_size
      (λ j l. w (k + j) (omega arith) ∙ outside j l))
  where
    outside :
        (j : ℕ)
        → j < dirent_size
        → spliced (contents f) off dirent_size (dirent_byte de) (k + j) ≡ contents f (k + j)
    outside j l = ground arith
