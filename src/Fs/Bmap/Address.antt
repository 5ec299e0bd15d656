-- ===== src/Fs/Bmap/Address.antt =====
-- Where the block map of a file puts a block.
use sistema_operativo.Base.{
  ℕ, ◌-◌, ◌≤◌, ◌<◌, ◌≡◌, ◌≢◌, refl, sym, ap, ◌∙◌, ok, ◌>>=◌, ltb, ◌==◌, if◌then◌else◌, arith,
  lt→ltb, ltb-false,
}
use native.Mathlib.Decide.{ℕ_discrete, dec_lt}
use sistema_operativo.Fs.{Superblock}
use sistema_operativo.Fs.Bmap.{FileMap, ndirect, nindirect, maxfile, load_word, slot, entry, bmap}
use sistema_operativo.Fs.Bmap.Slots.{slot_kept, entry_kept}

-- The address of block `bn` of a file, 0 if it has none.
unfoldable pub address : FileMap → ℕ → ℕ
address f bn =
    if ltb bn ndirect
    then f.addrs bn
    else if f.addrs ndirect == 0
    then 0
    else load_word (f.blocks (f.addrs ndirect)) (bn - ndirect)

pub address_direct : (f : FileMap) (k : ℕ) → k < ndirect → address f k ≡ f.addrs k
unfolding address
address_direct f k h = ground arith

pub address_indirect :
    (f : FileMap) (k : ℕ)
    → ndirect ≤ k
    → f.addrs ndirect ≢ 0
    → address f k ≡ load_word (f.blocks (f.addrs ndirect)) (k - ndirect)
unfolding address
address_indirect f k h n = ground (arith, n)

pub address_none : (f : FileMap) (k : ℕ) → ndirect ≤ k → f.addrs ndirect ≡ 0 → address f k ≡ 0
unfolding address
address_none f k h e = ground (arith, e)

module _ (sb : Superblock) where
  pub bmap_direct : (bn : ℕ) (f : FileMap) → bn < ndirect → bmap sb bn f ≡ slot sb bn f
  unfolding bmap
  bmap_direct bn f h = rw (lt→ltb bn ndirect h, bmap) refl

  pub bmap_indirect :
      (bn : ℕ) (f : FileMap)
      → ndirect ≤ bn
      → bn < maxfile
      → bmap sb bn f ≡ (slot sb ndirect f >>= (λ o. entry sb o.0 (bn - ndirect) o.1))
  unfolding bmap
  bmap_indirect bn f h l =
      rw (ltb-false bn ndirect h, bmap, lt→ltb (bn - ndirect) nindirect (omega arith)) refl

  -- A block that is there is found, and nothing changes.
  pub bmap_old :
      (bn : ℕ) (f : FileMap) → bn < maxfile → address f bn ≢ 0 → bmap sb bn f ≡ ok (address f bn, f)
  bmap_old bn f h n = elim (dec_lt bn ndirect) [
    | yes d ↦
        let e = address_direct f bn d in
        bmap_direct bn f d ∙ slot_kept sb bn f (λ z. n (e ∙ z)) ∙ ap (λ a. ok (a, f)) (sym e)
    | no d ↦ elim (ℕ_discrete (f.addrs ndirect) 0) [
      | yes z ↦ absurd (n (address_none f bn (omega arith) z))
      | no z ↦
          let e = address_indirect f bn (omega arith) z in
          bmap_indirect bn f (omega arith) h
          ∙ rw (slot_kept sb ndirect f z)
              (entry_kept sb (f.addrs ndirect) (bn - ndirect) f (λ q. n (e ∙ q)))
          ∙ ap (λ a. ok (a, f)) (sym e)
    ]
  ]
