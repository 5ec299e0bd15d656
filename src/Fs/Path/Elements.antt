-- ===== src/Fs/Path/Elements.antt =====
-- `skipelem` takes the first of the elements of a path.
use sistema_operativo.Base.{
  ℕ, ◌≡◌, ◌⊎◌, refl, sym, ap, ◌∙◌, subst, false, Option, none, some, List, [], ◌∷◌, ◌==◌,
  if◌then◌else◌, take, Bool-cases, inl, inr,
}
use sistema_operativo.Fs.Dir.{dirsiz}
use sistema_operativo.Fs.Path.{skip_slashes, split_elem, skipelem}

-- The elements of a path: the runs of other bytes between slashes.
abbrev pub add_byte : ℕ → List (List ℕ) → List (List ℕ)
add_byte c [] = (c ∷ []) ∷ []
add_byte c (e ∷ es) = (c ∷ e) ∷ es

abbrev pub runs : List ℕ → List (List ℕ)
runs [] = [] ∷ []
runs (c ∷ cs) = if c == b'/' then [] ∷ runs cs else add_byte c (runs cs)

abbrev pub not_empty : List (List ℕ) → List (List ℕ)
not_empty [] = []
not_empty ([] ∷ es) = not_empty es
not_empty ((c ∷ cs) ∷ es) = (c ∷ cs) ∷ not_empty es

abbrev pub elements : List ℕ → List (List ℕ)
elements path = not_empty (runs path)

-- What `skipelem` gives of a path with these elements.
abbrev pub Skipped : List (List ℕ) → Option (List ℕ × List ℕ) → Type 0
Skipped [] none = Unit
Skipped (e ∷ es) (some (name, rest)) =
    (name ≡ take dirsiz e) × (elements rest ≡ es) × (skip_slashes rest ≡ rest)
Skipped es o = ⊥

skip_slashes-elements : (p : List ℕ) → elements (skip_slashes p) ≡ elements p
unfolding skip_slashes
skip_slashes-elements [] = refl
skip_slashes-elements (c ∷ cs) = elim (Bool-cases (c == b'/')) [
  | inl e ↦ rw (e, skip_slashes) (skip_slashes-elements cs)
  | inr e ↦ rw (e, skip_slashes, e) refl
]

-- What is left begins with no slash.
pub skip_slashes_cases :
    (p : List ℕ)
    → (skip_slashes p ≡ [])
      ⊎ ((s : ℕ) × (ss : List ℕ) × (skip_slashes p ≡ s ∷ ss) × ((s == b'/') ≡ false))
unfolding skip_slashes
skip_slashes_cases [] = inl refl
skip_slashes_cases (c ∷ cs) = elim (Bool-cases (c == b'/')) [
  | inl e ↦ rw (e, skip_slashes) (skip_slashes_cases cs)
  | inr e ↦ inr (c, cs, rw (e, skip_slashes) refl, e)
]

skip_slashes_twice : (p : List ℕ) → skip_slashes (skip_slashes p) ≡ skip_slashes p
unfolding skip_slashes
skip_slashes_twice [] = refl
skip_slashes_twice (c ∷ cs) = elim (Bool-cases (c == b'/')) [
  | inl e ↦ rw (e, skip_slashes) (skip_slashes_twice cs)
  | inr e ↦ rw (e, skip_slashes, e) refl
]

-- The first run, and the runs behind it.
split_elem-runs :
    (p : List ℕ)
    → (es : List (List ℕ)) × (runs p ≡ (split_elem p).0 ∷ es)
      × (elements (split_elem p).1 ≡ not_empty es)
unfolding split_elem
split_elem-runs [] = ([], refl, refl)
split_elem-runs (c ∷ cs) = elim (Bool-cases (c == b'/')) [
  | inl e ↦ (runs cs, rw (e, split_elem) refl, rw (e, split_elem, e) refl)
  | inr e ↦
      let (es, first, others) = split_elem-runs cs in
      (es, rw (e, split_elem) (ap (add_byte c) first), rw (e, split_elem) others)
]

-- Of a path without elements `skipelem` gives nothing; else it gives the first DIRSIZ bytes of the first
-- element, and a path with the other elements that begins with no slash.
pub skipelem_lem : (path : List ℕ) → Skipped (elements path) (skipelem path)
unfolding skipelem split_elem
skipelem_lem path = elim (skip_slashes_cases path) [
  | inl e ↦
      subst (λ es. Skipped es (skipelem path)) (sym (ap elements e) ∙ skip_slashes-elements path)
        (rw (e, skipelem) tt)
  | inr (s, ss, e, other) ↦
      subst (λ es. Skipped es (skipelem path)) (sym (ap elements e) ∙ skip_slashes-elements path)
        (rw (e, skipelem) (first_element s ss other))
]
  where
    first_element :
        (s : ℕ) (ss : List ℕ)
        → (s == b'/') ≡ false
        → Skipped
            (elements (s ∷ ss))
            (some (take dirsiz (split_elem (s ∷ ss)).0, skip_slashes (split_elem (s ∷ ss)).1))
    first_element s ss other =
        let (es, first, others) = split_elem-runs ss in
        rw (other, split_elem, first)
          (
            refl,
            skip_slashes-elements (split_elem ss).1 ∙ others,
            skip_slashes_twice (split_elem ss).1,
          )
