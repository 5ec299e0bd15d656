-- ===== src/Fs/Bmap/File.antt =====
-- The blocks of a file stay apart.
use sistema_operativo.Base.{ℕ, ◌-◌, ◌<◌, ◌≡◌, ◌≢◌, sym, ap, ◌∙◌, subst, false, arith}
use native.Mathlib.Decide.{ℕ_discrete, dec_lt}
use sistema_operativo.Fs.{Superblock, Blocks}
use sistema_operativo.Fs.Alloc.{used}
use sistema_operativo.Fs.Bmap.{FileMap, ndirect, maxfile, load_word}
use sistema_operativo.Fs.Bmap.Extend.{IsOwned}
use sistema_operativo.Fs.Bmap.Slots.{Slotted}
use sistema_operativo.Fs.Bmap.Address.{address, address_direct, address_indirect, address_none}

module _ (sb : Superblock) where
  -- The blocks of a file are in use, and differ from one another and from its indirect block.
  pub record IsFile (f : FileMap) : Type 0 where
    pub owned : (k : ℕ) → k < maxfile → address f k ≢ 0 → IsOwned sb f.blocks (address f k)
    pub indirect : f.addrs ndirect ≢ 0 → IsOwned sb f.blocks (f.addrs ndirect)
    pub distinct :
        (j k : ℕ) → j < maxfile → k < maxfile → j ≢ k → address f j ≢ 0 → address f j ≢ address f k
    pub apart : (k : ℕ) → k < maxfile → address f k ≢ 0 → address f k ≢ f.addrs ndirect

  pub owned_ne : {bl : Blocks} (c x : ℕ) → IsOwned sb bl c → used sb bl x ≡ false → c ≢ x
  owned_ne {bl} c x o free e = cc (sym free ∙ ap (used sb bl) (sym e) ∙ o.in_use)

  pub direct_others :
      (bn : ℕ) (f : FileMap) (x : ℕ) (f' : FileMap)
      → IsFile f
      → bn < ndirect
      → Slotted sb bn f x f'
      → (k : ℕ) → k ≢ bn
      → address f' k ≡ address f k
  direct_others bn f x f' file h s k n = elim (dec_lt k ndirect) [
    | yes d ↦ address_direct f' k d ∙ s.others k n ∙ sym (address_direct f k d)
    | no d ↦ elim (ℕ_discrete (f.addrs ndirect) 0) [
      | yes z ↦
          address_none f' k (omega arith) (s.others ndirect (omega arith) ∙ z)
          ∙ sym (address_none f k (omega arith) z)
      | no z ↦
          address_indirect f' k (omega arith) (λ e. z (sym (s.others ndirect (omega arith)) ∙ e))
          ∙ ap (λ c. load_word (f'.blocks c) (k - ndirect)) (s.others ndirect (omega arith))
          ∙ ap (λ m. load_word m (k - ndirect))
              (s.extends.keeps (f.addrs ndirect) (file.indirect z))
          ∙ sym (address_indirect f k (omega arith) z)
    ]
  ]

  -- A file whose block `bn` moved to `x`, which no block of the file was, is a file.
  pub grown-IsFile :
      (bn : ℕ) (f : FileMap) (x : ℕ) (f' : FileMap)
      → IsFile f
      → address f' bn ≡ x
      → ((k : ℕ) → k ≢ bn → address f' k ≡ address f k)
      → IsOwned sb f'.blocks x
      → ((c : ℕ) → IsOwned sb f.blocks c → IsOwned sb f'.blocks c)
      → (f'.addrs ndirect ≢ 0 → IsOwned sb f'.blocks (f'.addrs ndirect))
      → ((k : ℕ) → k < maxfile → k ≢ bn → address f k ≢ 0 → address f k ≢ x)
      → ((k : ℕ) → k < maxfile → address f' k ≢ 0 → address f' k ≢ f'.addrs ndirect)
      → x ≢ 0
      → IsFile f'
  grown-IsFile bn f x f' file at others own keeps ind new apart nz = record {
    owned = λ k h n. elim (ℕ_discrete k bn) [
      | yes e ↦ subst (IsOwned sb f'.blocks) (sym (ap (address f') e ∙ at)) own
      | no e ↦
          subst (IsOwned sb f'.blocks) (sym (others k e))
            (keeps (address f k) (file.owned k h (λ z. n (others k e ∙ z))))
    ];
    indirect = ind;
    distinct = λ j k hj hk n nz' e.
        ground (arith, e, at, others j, others k, file.distinct j k hj hk n, new j hj, new k hk);
    apart = apart;
  }
