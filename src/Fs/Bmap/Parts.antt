-- ===== src/Fs/Bmap/Parts.antt =====
-- The blocks of a file, direct and indirect.
use sistema_operativo.Base.{ℕ, ◌+◌, ◌-◌, ◌≡◌, ◌≢◌, ◌⊎◌, inl, inr, sym, ap, ◌∙◌, arith}
use native.Mathlib.Decide.{ℕ_discrete, dec_lt}
use sistema_operativo.Fs.Bmap.{FileMap, ndirect, nindirect, maxfile, load_word}
use sistema_operativo.Fs.Bmap.Address.{address, address_direct, address_indirect, address_none}
use sistema_operativo.Fs.Bmap.Freeing.{Held}

-- `j` is a block of the file, or its indirect block.
abbrev pub FileBlock : FileMap → ℕ → Type 0
FileBlock f j = Held (address f) 0 maxfile j ⊎ ((f.addrs ndirect ≢ 0) × (f.addrs ndirect ≡ j))

-- The blocks of a file in two parts.
pub in_parts :
    (f : FileMap) (j : ℕ)
    → FileBlock f j
    → Held f.addrs 0 ndirect j
      ⊎ ((f.addrs ndirect ≢ 0)
          × (Held (load_word (f.blocks (f.addrs ndirect))) 0 nindirect j ⊎ (f.addrs ndirect ≡ j)))
in_parts f j (inr (nz, e)) = inr (nz, inr e)
in_parts f j (inl (k, a, b, nz, e)) = elim (dec_lt k ndirect) [
  | yes d ↦ inl (k, a, d, (λ z. nz (address_direct f k d ∙ z)), sym (address_direct f k d) ∙ e)
  | no d ↦ elim (ℕ_discrete (f.addrs ndirect) 0) [
    | yes z ↦ absurd (nz (address_none f k (omega arith) z))
    | no i ↦
        let at = address_indirect f k (omega arith) i in
        inr (i, inl (k - ndirect, omega arith, omega arith, (λ z. nz (at ∙ z)), sym at ∙ e))
  ]
]

pub from_direct : (f : FileMap) (j : ℕ) → Held f.addrs 0 ndirect j → FileBlock f j
from_direct f j (k, a, b, nz, e) =
    inl (k, a, omega arith, (λ z. nz (sym (address_direct f k b) ∙ z)), address_direct f k b ∙ e)

pub from_indirect :
    (f : FileMap) (j : ℕ)
    → f.addrs ndirect ≢ 0
    → Held (load_word (f.blocks (f.addrs ndirect))) 0 nindirect j ⊎ (f.addrs ndirect ≡ j)
    → FileBlock f j
from_indirect f j i (inr e) = inr (i, e)
from_indirect f j i (inl (k, a, b, nz, e)) =
    let at : address f (12 + k) ≡ load_word (f.blocks (f.addrs ndirect)) k =
      address_indirect f (12 + k) (omega arith) i
      ∙ ap (load_word (f.blocks (f.addrs ndirect))) (back k) in
    inl (12 + k, omega arith, omega arith, (λ z. nz (sym at ∙ z)), at ∙ e)
  where
    back : (k : ℕ) → 12 + k - ndirect ≡ k
    back k = omega arith
