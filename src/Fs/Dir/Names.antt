-- ===== src/Fs/Dir/Names.antt =====
-- Which names `namecmp` takes for the same.
use sistema_operativo.Base.{ℕ, zero, suc, ◌+◌, ◌-◌, ◌<◌, ◌≡◌, ◌≢◌, ◌↔◌, ap, sym, ◌∙◌, true, arith}
use sistema_operativo.Base.Int.{ℤ, pos, negsuc, is_ℕ}
use sistema_operativo.Strings.{Memory}
use sistema_operativo.Strings.Copy.{Same, strncmp_iff}
use sistema_operativo.Fs.Dir.{Dirent, dirsiz, side_by_side, namecmp, is_entry}

-- Two strings agree on their first `n` bytes, or up to the end of both.
abbrev pub AgreeOn : ℕ → (ℕ → ℕ) → (ℕ → ℕ) → Type 0
AgreeOn n s t = (k : ℕ) → k < n → ((j : ℕ) → j < k → s j ≢ 0) → s k ≡ t k

abbrev pub Agree : (ℕ → ℕ) → (ℕ → ℕ) → Type 0
Agree s t = AgreeOn dirsiz s t

Same-AgreeOn : (p q n : ℕ) (m : Memory) → Same p q n m → AgreeOn n (λ k. m (p + k)) (λ k. m (q + k))
Same-AgreeOn p q zero m h k l nz = absurd (omega arith)
Same-AgreeOn p q (suc n) m h zero l nz = ap m plus_zero ∙ h.0 ∙ ap m (sym plus_zero')
  where
    plus_zero : p + 0 ≡ p
    plus_zero = omega arith

    plus_zero' : q + 0 ≡ q
    plus_zero' = omega arith
Same-AgreeOn p q (suc n) m h (suc k) l nz =
    ap m (shift p k)
    ∙ Same-AgreeOn (suc p) (suc q) n m (h.1 (λ z. nz 0 (omega arith) (ap m plus_zero ∙ z))) k
        (omega arith) (λ j less z. nz (suc j) (omega arith) (ap m (shift p j) ∙ z))
    ∙ ap m (sym (shift q k))
  where
    shift : (a j : ℕ) → a + suc j ≡ suc a + j
    shift a j = omega arith

    plus_zero : p + 0 ≡ p
    plus_zero = omega arith

AgreeOn-Same : (p q n : ℕ) (m : Memory) → AgreeOn n (λ k. m (p + k)) (λ k. m (q + k)) → Same p q n m
AgreeOn-Same p q zero m h = tt
AgreeOn-Same p q (suc n) m h = (
  ap m (sym (plus_zero p)) ∙ h 0 (omega arith) (λ j l. absurd (omega arith)) ∙ ap m (plus_zero q),
  λ more. AgreeOn-Same (suc p) (suc q) n m (λ k l nz.
      ap m (sym (shift p k)) ∙ h (suc k) (omega arith) (earlier k more nz) ∙ ap m (shift q k)),
)
  where
    shift : (a j : ℕ) → a + suc j ≡ suc a + j
    shift a j = omega arith

    plus_zero : (a : ℕ) → a + 0 ≡ a
    plus_zero a = omega arith

    earlier :
        (k : ℕ)
        → m p ≢ 0
        → ((j : ℕ) → j < k → m (suc p + j) ≢ 0)
        → (j : ℕ) → j < suc k
        → m (p + j) ≢ 0
    earlier k more nz zero l z = more (ap m (sym (plus_zero p)) ∙ z)
    earlier k more nz (suc j) l z = nz j (omega arith) (ap m (sym (shift p j)) ∙ z)

pub side_by_side-first : (s t : ℕ → ℕ) (k : ℕ) → k < dirsiz → side_by_side s t (0 + k) ≡ s k
side_by_side-first s t k h = ground (arith, first)
  where
    first : 0 + k ≡ k
    first = omega arith

pub side_by_side-second : (s t : ℕ → ℕ) (k : ℕ) → side_by_side s t (dirsiz + k) ≡ t k
side_by_side-second s t k = ground (arith, second)
  where
    second : dirsiz + k - dirsiz ≡ k
    second = omega arith

-- `namecmp` returns 0 exactly for names that agree.
pub namecmp_iff : (s t : ℕ → ℕ) → (namecmp s t ≡ pos 0) ↔ Agree s t
unfolding namecmp
namecmp_iff s t = (
  λ e k l nz.
      sym (side_by_side-first s t k l)
      ∙ Same-AgreeOn 0 dirsiz dirsiz (side_by_side s t)
          ((strncmp_iff 0 dirsiz dirsiz (side_by_side s t)).0 e) k l
          (λ j less z. nz j less (sym (side_by_side-first s t j (omega arith)) ∙ z))
      ∙ side_by_side-second s t k,
  λ h. (strncmp_iff 0 dirsiz dirsiz (side_by_side s t)).1 (
      AgreeOn-Same 0 dirsiz dirsiz (side_by_side s t) (λ k l nz.
        side_by_side-first s t k l
        ∙ h k l (λ j less z. nz j less (side_by_side-first s t j (omega arith) ∙ z))
        ∙ sym (side_by_side-second s t k))),
)

is_ℕ_iff : (z : ℤ) (n : ℕ) → (is_ℕ z n ≡ true) ↔ (z ≡ pos n)
is_ℕ_iff (pos m) n = (λ h. ap pos (ground arith), λ h. ground (arith, h))
is_ℕ_iff (negsuc m) n = (λ h. ground (arith, h), λ h. ground (arith, h))

-- An entry matches a name if it is in use and the names agree.
pub is_entry_iff :
    (name : ℕ → ℕ) (de : Dirent) → (is_entry name de ≡ true) ↔ ((de.inum ≢ 0) × Agree name de.name)
unfolding is_entry
is_entry_iff name de = (
  λ h. (
    λ z. ground (arith, h, z),
    (namecmp_iff name de.name).0 ((is_ℕ_iff _ 0).0 (ground (arith, h))),
  ),
  λ h. rw ((is_ℕ_iff _ 0).1 ((namecmp_iff name de.name).1 h.1)) (ground (arith, h.0)),
)
