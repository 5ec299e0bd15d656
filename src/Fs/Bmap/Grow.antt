-- ===== src/Fs/Bmap/Grow.antt =====
-- A block that is missing is added.
use sistema_operativo.Base.{ℕ, ◌-◌, ◌≤◌, ◌<◌, ◌≡◌, ◌≢◌, sym, ap, ◌∙◌, subst, false, ok, arith}
use native.Mathlib.Decide.{ℕ_discrete, dec_lt}
use sistema_operativo.Fs.{Superblock}
use sistema_operativo.Fs.Alloc.{used}
use sistema_operativo.Fs.Alloc.Laws.{IsSound}
use sistema_operativo.Fs.Bmap.{FileMap, ndirect, maxfile, load_word, bmap}
use sistema_operativo.Fs.Bmap.Words.{load_word-zero}
use sistema_operativo.Fs.Bmap.Extend.{IsOwned}
use sistema_operativo.Fs.Bmap.Slots.{Slotted, Entered}
use sistema_operativo.Fs.Bmap.Address.{
  address, address_direct, address_indirect, address_none, bmap_direct,
}
use sistema_operativo.Fs.Bmap.File.{IsFile, owned_ne, direct_others, grown-IsFile}

module _ (sb : Superblock) where
  -- What `bmap` leaves.
  pub record Mapped (bn : ℕ) (f : FileMap) (x : ℕ) (f' : FileMap) : Type 0 where
    pub computes : bmap sb bn f ≡ ok (x, f')
    pub nonzero : x ≢ 0
    pub at : address f' bn ≡ x
    pub others : (k : ℕ) → k ≢ bn → address f' k ≡ address f k
    pub sound : IsSound sb f'.blocks
    pub file : IsFile sb f'
    pub same : address f bn ≢ 0 → f' ≡ f

  pub direct_new :
      (bn : ℕ) (f : FileMap) (x : ℕ) (f' : FileMap)
      → IsFile sb f
      → bn < ndirect
      → address f bn ≡ 0
      → Slotted sb bn f x f'
      → Mapped bn f x f'
  direct_new bn f x f' file h z s = record {
    computes = bmap_direct sb bn f h ∙ s.computes;
    nonzero = s.nonzero;
    at = address_direct f' bn h ∙ s.at;
    others = direct_others sb bn f x f' file h s;
    sound = s.extends.sound;
    file =
        grown-IsFile sb bn f x f' file (address_direct f' bn h ∙ s.at)
          (direct_others sb bn f x f' file h s) s.owned s.extends.owned ind new apart s.nonzero;
    same = λ n. absurd (n z);
  }
    where
      zero_slot : f.addrs bn ≡ 0
      zero_slot = sym (address_direct f bn h) ∙ z

      free : used sb f.blocks x ≡ false
      free = s.fresh zero_slot

      new : (k : ℕ) → k < maxfile → k ≢ bn → address f k ≢ 0 → address f k ≢ x
      new k l n m = owned_ne sb (address f k) x (file.owned k l m) free

      apart_self : x ≢ f'.addrs ndirect
      apart_self e = elim (ℕ_discrete (f.addrs ndirect) 0) [
        | yes w ↦ s.nonzero (e ∙ s.others ndirect (omega arith) ∙ w)
        | no w ↦
            owned_ne sb (f.addrs ndirect) x (file.indirect w) free
              (sym (e ∙ s.others ndirect (omega arith)))
      ]

      apart : (k : ℕ) → k < maxfile → address f' k ≢ 0 → address f' k ≢ f'.addrs ndirect
      apart k l m e = elim (ℕ_discrete k bn) [
        | yes q ↦ apart_self (sym (ap (address f') q ∙ address_direct f' bn h ∙ s.at) ∙ e)
        | no q ↦
            file.apart k l (λ w. m (direct_others sb bn f x f' file h s k q ∙ w))
              (sym (direct_others sb bn f x f' file h s k q) ∙ e ∙ s.others ndirect (omega arith))
      ]

      ind : f'.addrs ndirect ≢ 0 → IsOwned sb f'.blocks (f'.addrs ndirect)
      ind n =
          let same = s.others ndirect (omega arith) in
          subst (IsOwned sb f'.blocks) (sym same)
            (s.extends.owned (f.addrs ndirect) (file.indirect (λ e. n (same ∙ e))))

  -- A new indirect block is full of zeros: no block of the file moves.
  pub indirect_address :
      (f : FileMap) (ind : ℕ) (f' : FileMap)
      → Slotted sb ndirect f ind f'
      → (k : ℕ) → address f' k ≡ address f k
  indirect_address f ind f' s k = elim (ℕ_discrete (f.addrs ndirect) 0) [
    | no n ↦ ap (λ g. address g k) (s.same n)
    | yes z ↦ elim (dec_lt k ndirect) [
      | yes d ↦ address_direct f' k d ∙ s.others k (omega arith) ∙ sym (address_direct f k d)
      | no d ↦
          address_indirect f' k (omega arith) (λ e. s.nonzero (sym s.at ∙ e))
          ∙ ap (λ c. load_word (f'.blocks c) (k - ndirect)) s.at
          ∙ ap (λ m. load_word m (k - ndirect)) (s.zeros z)
          ∙ load_word-zero (k - ndirect)
          ∙ sym (address_none f k (omega arith) z)
    ]
  ]

  pub indirect-IsFile :
      (f : FileMap) (ind : ℕ) (f' : FileMap)
      → IsFile sb f
      → Slotted sb ndirect f ind f'
      → IsFile sb f'
  indirect-IsFile f ind f' file s = record {
    owned = λ k h n.
        subst (IsOwned sb f'.blocks) (sym (same k))
          (s.extends.owned (address f k) (file.owned k h (λ z. n (same k ∙ z))));
    indirect = λ n. subst (IsOwned sb f'.blocks) (sym s.at) s.owned;
    distinct = λ j k hj hk n nz e.
        file.distinct j k hj hk n (λ z. nz (same j ∙ z)) (sym (same j) ∙ e ∙ same k);
    apart = λ k h n e. ne k h (λ z. n (same k ∙ z)) (sym (same k) ∙ e);
  }
    where
      same : (k : ℕ) → address f' k ≡ address f k
      same = indirect_address f ind f' s

      ne : (k : ℕ) → k < maxfile → address f k ≢ 0 → address f k ≢ f'.addrs ndirect
      ne k h n e = elim (ℕ_discrete (f.addrs ndirect) 0) [
        | yes z ↦ owned_ne sb (address f k) ind (file.owned k h n) (s.fresh z) (e ∙ s.at)
        | no m ↦ file.apart k h n (e ∙ ap (λ (g : FileMap). g.addrs ndirect) (s.same m))
      ]

  -- An entry of the indirect block that was 0.
  pub entry_new-IsFile :
      (bn : ℕ) (f : FileMap) (ind x : ℕ) (f' : FileMap)
      → IsFile sb f
      → ndirect ≤ bn
      → f.addrs ndirect ≡ ind
      → ind ≢ 0
      → address f bn ≡ 0
      → Entered sb ind (bn - ndirect) f x f'
      → (address f' bn ≡ x) × ((k : ℕ) → k ≢ bn → address f' k ≡ address f k) × IsFile sb f'
  entry_new-IsFile bn f ind x f' file h at nz z t = (here, others, grown)
    where
      at' : f'.addrs ndirect ≡ ind
      at' = ap (λ a. a ndirect) t.addrs ∙ at

      reads' : (k : ℕ) → ndirect ≤ k → address f' k ≡ load_word (f'.blocks ind) (k - ndirect)
      reads' k l =
          address_indirect f' k l (λ e. nz (sym at' ∙ e))
          ∙ ap (λ c. load_word (f'.blocks c) (k - ndirect)) at'

      reads : (k : ℕ) → ndirect ≤ k → address f k ≡ load_word (f.blocks ind) (k - ndirect)
      reads k l =
          address_indirect f k l (λ e. nz (sym at ∙ e))
          ∙ ap (λ c. load_word (f.blocks c) (k - ndirect)) at

      here : address f' bn ≡ x
      here = reads' bn h ∙ t.at

      others : (k : ℕ) → k ≢ bn → address f' k ≡ address f k
      others k n = elim (dec_lt k ndirect) [
        | yes d ↦ address_direct f' k d ∙ ap (λ a. a k) t.addrs ∙ sym (address_direct f k d)
        | no d ↦
            reads' k (omega arith)
            ∙ t.others (k - ndirect) (omega arith)
            ∙ sym (reads k (omega arith))
      ]

      free : used sb f.blocks x ≡ false
      free = t.fresh (sym (reads bn h) ∙ z)

      ind_owned : IsOwned sb f.blocks ind
      ind_owned = subst (IsOwned sb f.blocks) at (file.indirect (λ e. nz (sym at ∙ e)))

      new : (k : ℕ) → k < maxfile → k ≢ bn → address f k ≢ 0 → address f k ≢ x
      new k l n m = owned_ne sb (address f k) x (file.owned k l m) free

      apart : (k : ℕ) → k < maxfile → address f' k ≢ 0 → address f' k ≢ f'.addrs ndirect
      apart k l m e = elim (ℕ_discrete k bn) [
        | yes q ↦ owned_ne sb ind x ind_owned free (sym at' ∙ sym e ∙ ap (address f') q ∙ here)
        | no q ↦ file.apart k l (λ w. m (others k q ∙ w)) (sym (others k q) ∙ e ∙ at' ∙ sym at)
      ]

      grown : IsFile sb f'
      grown =
          grown-IsFile sb bn f x f' file here others t.own t.owned
            (λ _. subst (IsOwned sb f'.blocks) (sym at') (t.owned ind ind_owned)) new apart
            t.nonzero
