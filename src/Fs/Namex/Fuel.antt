-- ===== src/Fs/Namex/Fuel.antt =====
-- `namex` ends: every element that it takes shortens the path.
use sistema_operativo.Base.{
  ℕ, zero, suc, ◌≤◌, ◌<◌, ◌≡◌, refl, sym, ap, ◌∙◌, subst, fun_ext, Bool, Option, none, some, List,
  [], ◌∷◌, ◌>>=◌, ◌==◌, length, arith, Bool-cases, Option-cases, inl, inr,
}
use sistema_operativo.Icache.{Dinode, ilock}
use sistema_operativo.Fs.{Superblock}
use sistema_operativo.Fs.Path.{skipelem, skip_slashes, split_elem}
use sistema_operativo.Fs.Namex.{Tree, walk, locked, finish}
use sistema_operativo.Fs.Path.Elements.{skip_slashes_cases}
use native.Mathlib.Decide.{dec_lt}

length-skip_slashes : (p : List ℕ) → length (skip_slashes p) ≤ length p
unfolding skip_slashes
length-skip_slashes [] = omega arith
length-skip_slashes (c ∷ cs) = elim (Bool-cases (c == b'/')) [
  | inl e ↦ rw (e, skip_slashes) (omega (arith, length-skip_slashes cs))
  | inr e ↦ rw (e, skip_slashes) (omega arith)
]

length-split_elem : (p : List ℕ) → length (split_elem p).1 ≤ length p
unfolding split_elem
length-split_elem [] = omega arith
length-split_elem (c ∷ cs) = elim (Bool-cases (c == b'/')) [
  | inl e ↦ rw (e, split_elem) (omega arith)
  | inr e ↦ rw (e, split_elem) (omega (arith, length-split_elem cs))
]

abbrev Shorter : ℕ → Option (List ℕ × List ℕ) → Type 0
Shorter n none = Unit
Shorter n (some (name, rest)) = length rest < n

skipelem-Shorter : (path : List ℕ) → Shorter (length path) (skipelem path)
unfolding skipelem split_elem
skipelem-Shorter path = elim (skip_slashes_cases path) [
  | inl e ↦ rw (e, skipelem) tt
  | inr (s, ss, e, other) ↦
      let kept : suc (length ss) ≤ length path =
        subst (λ p. length p ≤ length path) e (length-skip_slashes path) in
      rw (e, skipelem, other)
        (omega (arith, length-split_elem ss, length-skip_slashes (split_elem ss).1, kept))
]

module _ (sb : Superblock) (has_read has_write : ℕ → Bool) (free_blocks : Dinode → Dinode) where
  walk-none :
      (fuel : ℕ) (parent : Bool) (i : ℕ) (name path : List ℕ) (s : Tree)
      → skipelem path ≡ none
      → walk sb has_read has_write free_blocks (suc fuel) parent i name path s
        ≡ finish sb has_read has_write free_blocks parent i name s
  unfolding walk
  walk-none fuel parent i name path s e = rw (e, walk) refl

  walk-some :
      (fuel : ℕ) (parent : Bool) (i : ℕ) (name path next rest : List ℕ) (s : Tree)
      → skipelem path ≡ some (next, rest)
      → walk sb has_read has_write free_blocks (suc fuel) parent i name path s ≡ (
          ilock (some i) s.cache
          >>= locked sb has_read has_write free_blocks parent i path next rest
              (λ j s'. walk sb has_read has_write free_blocks fuel parent j next rest s')
              s)
  unfolding walk
  walk-some fuel parent i name path next rest s e = rw (e, walk) refl

  walk_more :
      (fuel : ℕ) (parent : Bool) (i : ℕ) (name path : List ℕ) (s : Tree)
      → length path < fuel
      → walk sb has_read has_write free_blocks fuel parent i name path s
        ≡ walk sb has_read has_write free_blocks (suc fuel) parent i name path s
  walk_more zero parent i name path s h = absurd (omega arith)
  walk_more (suc fuel) parent i name path s h = elim (Option-cases (skipelem path)) [
    | inl e ↦
        walk-none fuel parent i name path s e ∙ sym (walk-none (suc fuel) parent i name path s e)
    | inr ((next, rest), e) ↦
        let shorter : length rest < length path =
          subst (Shorter (length path)) e (skipelem-Shorter path) in
        walk-some fuel parent i name path next rest s e
        ∙ ap
            (λ g.
              ilock (some i) s.cache
              >>= locked sb has_read has_write free_blocks parent i path next rest g s)
            (fun_ext (λ j. fun_ext (λ s'. walk_more fuel parent j next rest s' (omega arith))))
        ∙ sym (walk-some (suc fuel) parent i name path next rest s e)
  ]

  -- The loop of `namex` ends before its fuel: any fuel that is more than the bytes of the path gives the
  -- same result.
  pub walk_enough :
      (fuel : ℕ) (parent : Bool) (i : ℕ) (name path : List ℕ) (s : Tree)
      → length path < fuel
      → walk sb has_read has_write free_blocks fuel parent i name path s
        ≡ walk sb has_read has_write free_blocks (suc (length path)) parent i name path s
  walk_enough zero parent i name path s h = absurd (omega arith)
  walk_enough (suc fuel) parent i name path s h = elim (dec_lt (length path) fuel) [
    | yes l ↦ sym (walk_more fuel parent i name path s l) ∙ walk_enough fuel parent i name path s l
    | no n ↦
        ap (λ f. walk sb has_read has_write free_blocks (suc f) parent i name path s) (omega arith)
  ]
