-- ===== src/Fs/Bmap/Laws.antt =====
-- `bmap` keeps the blocks of a file where they are, and adds the one that is missing.
use sistema_operativo.Base.{ℕ, ◌-◌, ◌≤◌, ◌<◌, ◌≡◌, ◌≢◌, refl, sym, ap, ◌∙◌, subst, arith}
use native.Mathlib.Decide.{ℕ_discrete, dec_lt}
use sistema_operativo.Fs.{Superblock}
use sistema_operativo.Fs.Alloc.Laws.{IsSound}
use sistema_operativo.Fs.Bmap.{FileMap, ndirect, maxfile, load_word}
use sistema_operativo.Fs.Bmap.Extend.{IsOwned, HasRoom, Free}
use sistema_operativo.Fs.Bmap.Slots.{Slotted, slot_lem, Entered, entry_lem}
use sistema_operativo.Fs.Bmap.Address.{
  address, address_direct, address_indirect, bmap_indirect, bmap_old,
}
use sistema_operativo.Fs.Bmap.File.{IsFile}
use sistema_operativo.Fs.Bmap.Grow.{
  Mapped, direct_new, indirect_address, indirect-IsFile, entry_new-IsFile,
}

module _ (sb : Superblock) where
  entry_zero :
      (bn : ℕ) (f : FileMap) (ind : ℕ) (f' : FileMap)
      → ndirect ≤ bn
      → address f bn ≡ 0
      → Slotted sb ndirect f ind f'
      → load_word (f'.blocks ind) (bn - ndirect) ≡ 0
  entry_zero bn f ind f' h z s =
      ap (λ c. load_word (f'.blocks c) (bn - ndirect)) (sym s.at)
      ∙ sym (address_indirect f' bn h (λ e. s.nonzero (sym s.at ∙ e)))
      ∙ indirect_address sb f ind f' s bn
      ∙ z

  indirect_new :
      (bn : ℕ) (f : FileMap) (ind : ℕ) (f1 : FileMap) (x : ℕ) (f' : FileMap)
      → ndirect ≤ bn
      → bn < maxfile
      → address f bn ≡ 0
      → Slotted sb ndirect f ind f1
      → Entered sb ind (bn - ndirect) f1 x f'
      → (address f' bn ≡ x) × ((k : ℕ) → k ≢ bn → address f' k ≡ address f1 k) × IsFile sb f'
      → Mapped sb bn f x f'
  indirect_new bn f ind f1 x f' h l z s t (here, others, file) = record {
    computes = bmap_indirect sb bn f h l ∙ rw s.computes t.computes;
    nonzero = t.nonzero;
    at = here;
    others = λ k n. others k n ∙ indirect_address sb f ind f1 s k;
    sound = t.sound;
    file = file;
    same = λ n. absurd (n z);
  }

  -- On a sound bitmap with two free blocks, `bmap` of a block below MAXFILE succeeds: it returns the
  -- block's address, which is not 0 and is the old one if there was one; no other block of the file
  -- moves, and the blocks of the file stay in use and apart.
  pub bmap_lem :
      (bn : ℕ) (f : FileMap)
      → IsSound sb f.blocks
      → IsFile sb f
      → HasRoom sb f.blocks
      → bn < maxfile
      → (x : ℕ) × (f' : FileMap) × Mapped sb bn f x f'
  bmap_lem bn f sound file room h = elim (ℕ_discrete (address f bn) 0) [
    | no n ↦ (
      address f bn,
      f,
      record {
        computes = bmap_old sb bn f h n;
        nonzero = n;
        at = refl;
        others = λ k m. refl;
        sound = sound;
        file = file;
        same = λ m. refl;
      },
    )
    | yes z ↦ elim (dec_lt bn ndirect) [
      | yes d ↦
          let (x, f', s) = slot_lem sb bn f sound one (direct_owned d) in
          (x, f', direct_new sb bn f x f' file d z s)
      | no d ↦
          let (ind, f1, s) = slot_lem sb ndirect f sound one file.indirect in
          let file1 = indirect-IsFile sb f ind f1 file s in
          let (x, f', t) =
            entry_lem sb ind (bn - ndirect) f1 s.extends.sound s.owned (s.room room)
              (λ n. absurd (n (entry_zero bn f ind f1 (omega arith) z s))) in
          (
            x,
            f',
            indirect_new bn f ind f1 x f' (omega arith) h z s t (
                entry_new-IsFile sb bn f1 ind x f' file1 (omega arith) s.at s.nonzero
                  (indirect_address sb f ind f1 s bn ∙ z) t),
          )
    ]
  ]
    where
      one : Free sb f.blocks
      one = (room.one, room.one_inside, room.one_free)

      direct_owned : bn < ndirect → f.addrs bn ≢ 0 → IsOwned sb f.blocks (f.addrs bn)
      direct_owned d n =
          subst (IsOwned sb f.blocks) (address_direct f bn d)
            (file.owned bn h (λ e. n (sym (address_direct f bn d) ∙ e)))
