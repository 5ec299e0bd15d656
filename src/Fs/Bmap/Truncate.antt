-- ===== src/Fs/Bmap/Truncate.antt =====
-- `free_file` frees the blocks of a file.
use sistema_operativo.Base.{
  ℕ, ◌+◌, ◌-◌, ◌≤◌, ◌<◌, ◌≡◌, ◌≢◌, ◌⊎◌, inl, inr, refl, sym, ap, ◌∙◌, subst, not, ok, ◌>>=◌, ◌==◌,
  if◌then◌else◌, update, arith, update_self, update_ne, ==_iff, ==_ne,
}
use native.Mathlib.Decide.{ℕ_discrete, dec_lt}
use sistema_operativo.Fs.{Superblock, Blocks}
use sistema_operativo.Fs.Alloc.{bfree}
use sistema_operativo.Fs.Bmap.{
  FileMap, ndirect, nindirect, maxfile, load_word, free_direct, free_entries, free_indirect,
  drop_indirect, free_file,
}
use sistema_operativo.Fs.Bmap.Extend.{IsOwned}
use sistema_operativo.Fs.Bmap.Address.{address, address_direct, address_indirect, address_none}
use sistema_operativo.Fs.Bmap.File.{IsFile}
use sistema_operativo.Fs.Bmap.Freeing.{
  Held, Freed, Freed-none, Freed-append, bfree-Freed, CanFree, Freed-IsOwned,
}
use sistema_operativo.Fs.Bmap.Clearing.{free_entries_lem, Cleared, free_direct_lem, CanFree-ext}
use sistema_operativo.Fs.Bmap.Parts.{FileBlock, in_parts, from_direct, from_indirect}

if_zero {ℓ} : {A : Type ℓ} (x : ℕ) (a b : A) → x ≡ 0 → (if not (x == 0) then a else b) ≡ b
if_zero x a b z = rw ((==_iff x 0).1 z) refl

if_not_zero {ℓ} : {A : Type ℓ} (x : ℕ) (a b : A) → x ≢ 0 → (if not (x == 0) then a else b) ≡ a
if_not_zero x a b nz = rw (==_ne x 0 nz) refl

module _ (sb : Superblock) where
  indirect_kept : (f : FileMap) → f.addrs ndirect ≡ 0 → free_indirect sb f ≡ ok f
  unfolding free_indirect
  indirect_kept f z = if_zero (f.addrs ndirect) _ _ z

  indirect_dropped :
      (f : FileMap) → f.addrs ndirect ≢ 0 → free_indirect sb f ≡ drop_indirect sb nindirect f
  unfolding free_indirect
  indirect_dropped f nz = if_not_zero (f.addrs ndirect) _ _ nz

  indirect_freed :
      (n : ℕ) (f : FileMap) (bl bl' : Blocks)
      → free_entries sb (f.blocks (f.addrs ndirect)) n 0 f.blocks ≡ ok bl
      → bfree sb (f.addrs ndirect) bl ≡ ok bl'
      → drop_indirect sb n f ≡ ok (record { addrs = update f.addrs ndirect 0; blocks = bl' })
  unfolding drop_indirect
  indirect_freed n f bl bl' e g =
      ap
        (λ x.
          (x >>= bfree sb (f.addrs ndirect))
          >>= (λ bl. ok (record { addrs = update f.addrs ndirect 0; blocks = bl })))
        e
      ∙ ap (λ x. x >>= (λ bl. ok (record { addrs = update f.addrs ndirect 0; blocks = bl }))) g

  -- The indirect block can be freed after its entries.
  record Indirect (f : FileMap) : Type 0 where
    entries : CanFree sb (load_word (f.blocks (f.addrs ndirect))) 0 nindirect f.blocks
    owned : IsOwned sb f.blocks (f.addrs ndirect)
    apart :
        (k : ℕ)
        → k < nindirect
        → load_word (f.blocks (f.addrs ndirect)) k ≢ 0
        → load_word (f.blocks (f.addrs ndirect)) k ≢ f.addrs ndirect

  free_indirect_lem :
      (f : FileMap)
      → f.addrs ndirect ≢ 0
      → Indirect f
      → (bl : Blocks) × (free_indirect sb f
          ≡ ok (record { addrs = update f.addrs ndirect 0; blocks = bl }))
        × Freed sb
            (λ j.
              Held (load_word (f.blocks (f.addrs ndirect))) 0 nindirect j ⊎ (f.addrs ndirect ≡ j))
            f.blocks
            bl
  free_indirect_lem f nz i =
      let (bl1, entries, a) =
        free_entries_lem sb (f.blocks (f.addrs ndirect)) nindirect 0 nindirect f.blocks refl
          i.entries in
      let (bl, last, b) = bfree-Freed sb bl1 (f.addrs ndirect) (
        Freed-IsOwned sb (Held (load_word (f.blocks (f.addrs ndirect))) 0 nindirect)
          (f.addrs ndirect) a (λ (k, l, h, nz', e). i.apart k h nz' e) i.owned) in
      (
        bl,
        indirect_dropped f nz ∙ indirect_freed nindirect f bl1 bl entries last,
        Freed-append sb (Held (load_word (f.blocks (f.addrs ndirect))) 0 nindirect)
            (λ j. f.addrs ndirect ≡ j) _ (λ j p. p) (λ j p. inl p) (λ j q. inr q) a b,
      )

  direct-CanFree : (f : FileMap) → IsFile sb f → CanFree sb f.addrs 0 ndirect f.blocks
  direct-CanFree f file =
      CanFree-ext sb (address f) f.addrs 0 ndirect f.blocks (λ k l h. address_direct f k h)
        (record {
          owned = λ k l h nz. file.owned k (omega arith) nz;
          distinct = λ j k l h l' h' ne nz. file.distinct j k (omega arith) (omega arith) ne nz;
        })

  -- The direct blocks do not hold the others.
  not_direct :
      (f : FileMap)
      → IsFile sb f
      → (k : ℕ) → ndirect ≤ k
      → k < maxfile
      → address f k ≢ 0
      → ¬ Held f.addrs 0 ndirect (address f k)
  not_direct f file k l h nz (j, a, b, n, e) =
      file.distinct k j h (omega arith) (omega arith) nz (sym e ∙ sym (address_direct f j b))

  -- The indirect block of a file, once the direct blocks are free.
  after_direct :
      (f f' : FileMap) → IsFile sb f → f.addrs ndirect ≢ 0 → Cleared sb 0 ndirect f f' → Indirect f'
  after_direct f f' file nz c = record {
    entries = record {
      owned = λ k l h n. subst (IsOwned sb f'.blocks) (at k) (
          Freed-IsOwned sb (Held f.addrs 0 ndirect) (address f (12 + k)) c.freed
            (not_direct f file (12 + k) (omega arith) (omega arith) (real k n))
            (file.owned (12 + k) (omega arith) (real k n)));
      distinct = λ j k l h l' h' ne n e.
          file.distinct (12 + j) (12 + k) (omega arith) (omega arith) (omega arith) (real j n)
            (at j ∙ e ∙ sym (at k));
    };
    owned = subst (IsOwned sb f'.blocks) (sym same_ind) (
        Freed-IsOwned sb (Held f.addrs 0 ndirect) (f.addrs ndirect) c.freed
          (λ (j, a, b, n, e).
            file.apart j (omega arith) (λ z. n (sym (address_direct f j b) ∙ z))
              (address_direct f j b ∙ e))
          (file.indirect nz));
    apart = λ k h n e. file.apart (12 + k) (omega arith) (real k n) (at k ∙ e ∙ same_ind);
  }
    where
      same_ind : f'.addrs ndirect ≡ f.addrs ndirect
      same_ind = c.above ndirect (omega arith)

      same_bytes : f'.blocks (f'.addrs ndirect) ≡ f.blocks (f.addrs ndirect)
      same_bytes = ap f'.blocks same_ind ∙ c.freed.same (f.addrs ndirect) (file.indirect nz).apart

      back : (k : ℕ) → 12 + k - ndirect ≡ k
      back k = omega arith

      at : (k : ℕ) → address f (12 + k) ≡ load_word (f'.blocks (f'.addrs ndirect)) k
      at k =
          address_indirect f (12 + k) (omega arith) nz
          ∙ ap (load_word (f.blocks (f.addrs ndirect))) (back k)
          ∙ ap (λ a. load_word a k) (sym same_bytes)

      real : (k : ℕ) → load_word (f'.blocks (f'.addrs ndirect)) k ≢ 0 → address f (12 + k) ≢ 0
      real k n z = n (sym (at k) ∙ z)

  free_file-indirect :
      (f f1 : FileMap) → free_direct sb ndirect 0 f ≡ ok f1 → free_file sb f ≡ free_indirect sb f1
  unfolding free_file
  free_file-indirect f f1 e = ap (λ x. x >>= free_indirect sb) e

  no_blocks :
      (f : FileMap)
      → ((k : ℕ) → k < ndirect → f.addrs k ≡ 0)
      → f.addrs ndirect ≡ 0
      → (k : ℕ) → address f k ≡ 0
  no_blocks f d i k = elim (dec_lt k ndirect) [
    | yes l ↦ address_direct f k l ∙ d k l
    | no l ↦ address_none f k (omega arith) i
  ]

  Freed-indirect :
      (f f' : FileMap) (bl : Blocks)
      → f'.addrs ndirect ≡ f.addrs ndirect
      → f'.blocks (f'.addrs ndirect) ≡ f.blocks (f.addrs ndirect)
      → Freed sb
          (λ j.
            Held (load_word (f'.blocks (f'.addrs ndirect))) 0 nindirect j ⊎ (f'.addrs ndirect ≡ j))
          f'.blocks
          bl
      → Freed sb
          (λ j. Held (load_word (f.blocks (f.addrs ndirect))) 0 nindirect j ⊎ (f.addrs ndirect ≡ j))
          f'.blocks
          bl
  Freed-indirect f f' bl i b g =
      subst
        (λ x.
          Freed sb (λ j. Held (load_word (f.blocks (f.addrs ndirect))) 0 nindirect j ⊎ (x ≡ j))
            f'.blocks bl)
        i
        (subst
          (λ m.
            Freed sb (λ j. Held (load_word m) 0 nindirect j ⊎ (f'.addrs ndirect ≡ j)) f'.blocks bl)
          b g)

  -- `free_file` succeeds and leaves it without blocks: the blocks of the file and its indirect block
  -- are free, every other block of the disk is as free as it was, and only blocks of the bitmap change.
  pub free_file_lem :
      (f : FileMap)
      → IsFile sb f
      → (f' : FileMap) × (free_file sb f ≡ ok f')
        × ((k : ℕ) → address f' k ≡ 0)
        × Freed sb (FileBlock f) f.blocks f'.blocks
  free_file_lem f file =
      let (f1, direct, c) = free_direct_lem sb ndirect 0 ndirect f refl (direct-CanFree f file) in
      by_indirect f1 direct c (ℕ_discrete (f.addrs ndirect) 0)
    where
      by_indirect :
          (f1 : FileMap)
          → free_direct sb ndirect 0 f ≡ ok f1
          → Cleared sb 0 ndirect f f1
          → Dec (f.addrs ndirect ≡ 0)
          → (f' : FileMap) × (free_file sb f ≡ ok f')
            × ((k : ℕ) → address f' k ≡ 0)
            × Freed sb (FileBlock f) f.blocks f'.blocks
      by_indirect f1 direct c (yes z) =
          let z1 = c.above ndirect (omega arith) ∙ z in
          (
            f1,
            free_file-indirect f f1 direct ∙ indirect_kept f1 z1,
            no_blocks f1 (λ k l. c.inside k (omega arith) l) z1,
            Freed-append sb (Held f.addrs 0 ndirect) (λ j. ⊥) (FileBlock f)
                (λ j p. elim (in_parts f j p) [ inl d ↦ inl d | inr i ↦ absurd (i.0 z) ])
                (from_direct f) (λ j e. absurd e) c.freed
                (Freed-none sb (λ j. ⊥) f1.blocks (λ j e. e)),
          )
      by_indirect f1 direct c (no nz) =
          let i1 = c.above ndirect (omega arith) in
          let (bl, last, g) =
            free_indirect_lem f1 (λ z. nz (sym i1 ∙ z)) (after_direct f f1 file nz c) in
          (
            record { addrs = update f1.addrs ndirect 0; blocks = bl },
            free_file-indirect f f1 direct ∙ last,
            no_blocks (record { addrs = update f1.addrs ndirect 0; blocks = bl })
                (λ k l. update_ne f1.addrs ndirect k 0 (omega arith) ∙ c.inside k (omega arith) l)
                (update_self f1.addrs ndirect 0),
            Freed-append sb (Held f.addrs 0 ndirect) _ (FileBlock f)
                (λ j p. elim (in_parts f j p) [ inl d ↦ inl d | inr i ↦ inr i.1 ]) (from_direct f)
                (λ j p. from_indirect f j nz p) c.freed
                (Freed-indirect f f1 bl i1
                  (ap f1.blocks i1 ∙ c.freed.same (f.addrs ndirect) (file.indirect nz).apart) g),
          )
