-- ===== src/Fs/Content/Chunk.antt =====
-- What copying bytes into one block of a file changes.
use sistema_operativo.Base.{
  ℕ, ◌+◌, ◌-◌, ◌/◌, ◌%◌, ◌≤◌, ◌<◌, ◌≡◌, ◌≢◌, refl, sym, ap, ◌∙◌, subst, ◌&&◌, ltb, leb,
  if◌then◌else◌, arith, update, update_self, update_ne, fun_ext,
}
use native.Mathlib.Decide.{ℕ_discrete, dec_lt}
use sistema_operativo.Fs.{Superblock, bsize}
use sistema_operativo.Fs.Alloc.Laws.{IsSound}
use sistema_operativo.Fs.Bmap.{FileMap, maxfile, ndirect, load_word}
use sistema_operativo.Fs.Bmap.Extend.{IsOwned}
use sistema_operativo.Fs.Bmap.Slots.{update-Sound, update-Owned}
use sistema_operativo.Fs.Bmap.File.{IsFile}
use sistema_operativo.Fs.Bmap.Address.{address, address_direct, address_indirect, address_none}
use sistema_operativo.Fs.Content.{copy_in}
use sistema_operativo.Fs.Content.Segments.{contents}

-- The file after `m` bytes are copied into its block `bn` from byte `b` on.
abbrev pub chunk : FileMap → (bn b m : ℕ) → (ℕ → ℕ) → FileMap
chunk f bn b m src = record f {
  blocks = update f.blocks (address f bn) (copy_in (f.blocks (address f bn)) b m src);
}

in_block :
    (off i m : ℕ) (src g : ℕ → ℕ)
    → off / bsize ≡ i / bsize
    → off % bsize + m ≤ bsize
    → copy_in g (off % bsize) m src (i % bsize)
      ≡ (if leb off i && ltb i (off + m) then src (i - off) else g (i % bsize))
in_block off i m src g e fits = ground (arith, difference)
  where
    difference : off ≤ i → i % bsize - off % bsize ≡ i - off
    difference l = omega arith

out_of_block :
    (off i m : ℕ) (src : ℕ → ℕ) (v : ℕ)
    → off / bsize ≢ i / bsize
    → off % bsize + m ≤ bsize
    → (if leb off i && ltb i (off + m) then src (i - off) else v) ≡ v
out_of_block off i m src v n fits = ground arith

two_runs :
    (off m r i : ℕ) (src : ℕ → ℕ) (v : ℕ)
    → (if leb (off + m) i && ltb i (off + m + r)
        then src (m + (i - (off + m)))
        else if leb off i && ltb i (off + m)
        then src (i - off)
        else v)
      ≡ (if leb off i && ltb i (off + (m + r)) then src (i - off) else v)
two_runs off m r i src v = ground (arith, difference)
  where
    difference : off + m ≤ i → m + (i - (off + m)) ≡ i - off
    difference l = omega arith

-- The bytes of a file after `m` bytes from `src` are put at `off`.
abbrev pub spliced : (ℕ → ℕ) → (off m : ℕ) → (ℕ → ℕ) → ℕ → ℕ
spliced old off m src i = if leb off i && ltb i (off + m) then src (i - off) else old i

module _ (sb : Superblock) where
  address-chunk :
      (f : FileMap) (bn b m : ℕ) (src : ℕ → ℕ)
      → IsFile sb f
      → bn < maxfile
      → address f bn ≢ 0
      → (k : ℕ) → address (chunk f bn b m src) k ≡ address f k
  address-chunk f bn b m src file h n k = elim (dec_lt k ndirect) [
    | yes d ↦ address_direct (chunk f bn b m src) k d ∙ sym (address_direct f k d)
    | no d ↦ elim (ℕ_discrete (f.addrs ndirect) 0) [
      | yes z ↦
          address_none (chunk f bn b m src) k (omega arith) z
          ∙ sym (address_none f k (omega arith) z)
      | no z ↦
          address_indirect (chunk f bn b m src) k (omega arith) z
          ∙ ap (λ a. load_word a (k - ndirect))
              (update_ne f.blocks (address f bn) (f.addrs ndirect) _ (file.apart bn h n))
          ∙ sym (address_indirect f k (omega arith) z)
    ]
  ]

  chunk-IsFile :
      (f : FileMap) (bn b m : ℕ) (src : ℕ → ℕ)
      → IsFile sb f
      → bn < maxfile
      → address f bn ≢ 0
      → IsFile sb (chunk f bn b m src)
  chunk-IsFile f bn b m src file h n = record {
    owned = λ k l nz. subst (IsOwned sb (chunk f bn b m src).blocks) (sym (same k)) (
        update-Owned sb f.blocks (address f bn) _ (address f k) (file.owned bn h n)
          (file.owned k l (λ z. nz (same k ∙ z))));
    indirect = λ nz.
        update-Owned sb f.blocks (address f bn) _ (f.addrs ndirect) (file.owned bn h n)
          (file.indirect nz);
    distinct = λ j k hj hk ne nz e.
        file.distinct j k hj hk ne (λ z. nz (same j ∙ z)) (sym (same j) ∙ e ∙ same k);
    apart = λ k l nz e. file.apart k l (λ z. nz (same k ∙ z)) (sym (same k) ∙ e);
  }
    where
      same : (k : ℕ) → address (chunk f bn b m src) k ≡ address f k
      same = address-chunk f bn b m src file h n

  contents-chunk :
      (f : FileMap) (off m : ℕ) (src : ℕ → ℕ)
      → IsFile sb f
      → off / bsize < maxfile
      → address f (off / bsize) ≢ 0
      → off % bsize + m ≤ bsize
      → (i : ℕ) → i / bsize < maxfile
      → contents (chunk f (off / bsize) (off % bsize) m src) i ≡ spliced (contents f) off m src i
  contents-chunk f off m src file h n fits i l =
      ap (λ a. (chunk f (off / bsize) (off % bsize) m src).blocks a (i % bsize))
        (address-chunk f (off / bsize) (off % bsize) m src file h n (i / bsize))
      ∙ elim (ℕ_discrete (off / bsize) (i / bsize)) [
        | yes e ↦
            ap (λ a. update f.blocks (address f (off / bsize)) put a (i % bsize))
              (ap (address f) (sym e))
            ∙ ap (λ g. g (i % bsize)) (update_self f.blocks (address f (off / bsize)) put)
            ∙ in_block off i m src (f.blocks (address f (off / bsize))) e fits
            ∙ ap
                (λ a.
                  if leb off i && ltb i (off + m) then src (i - off) else f.blocks a (i % bsize))
                (ap (address f) e)
        | no e ↦
            ap (λ g. g (i % bsize))
              (update_ne f.blocks (address f (off / bsize)) (address f (i / bsize)) put
                (file.distinct (off / bsize) (i / bsize) h l e n))
            ∙ sym (out_of_block off i m src (contents f i) e fits)
      ]
    where
      put : ℕ → ℕ
      put = copy_in (f.blocks (address f (off / bsize))) (off % bsize) m src

  -- What the loop of `writei` leaves.
  pub record Written (off m : ℕ) (src : ℕ → ℕ) (f f' : FileMap) : Type 0 where
    pub file : IsFile sb f'
    pub same : (k : ℕ) → address f' k ≡ address f k
    pub addrs : f'.addrs ≡ f.addrs
    pub sound : IsSound sb f.blocks → IsSound sb f'.blocks
    pub bytes : (i : ℕ) → i / bsize < maxfile → contents f' i ≡ spliced (contents f) off m src i

  pub chunk-Written :
      (f : FileMap) (off m : ℕ) (src : ℕ → ℕ)
      → IsFile sb f
      → off / bsize < maxfile
      → address f (off / bsize) ≢ 0
      → off % bsize + m ≤ bsize
      → Written off m src f (chunk f (off / bsize) (off % bsize) m src)
  chunk-Written f off m src file h n fits = record {
    file = chunk-IsFile f (off / bsize) (off % bsize) m src file h n;
    same = address-chunk f (off / bsize) (off % bsize) m src file h n;
    addrs = refl;
    sound =
        λ s. update-Sound sb f.blocks (address f (off / bsize)) _ (file.owned (off / bsize) h n) s;
    bytes = contents-chunk f off m src file h n fits;
  }

  -- Two runs of bytes, one behind the other.
  pub Written-append :
      (off m r : ℕ) (src : ℕ → ℕ) {f g h : FileMap}
      → Written off m src f g
      → Written (off + m) r (λ i. src (m + i)) g h
      → Written off (m + r) src f h
  Written-append off m r src {f} {g} {h} a b = record {
    file = b.file;
    same = λ k. b.same k ∙ a.same k;
    addrs = b.addrs ∙ a.addrs;
    sound = λ s. b.sound (a.sound s);
    bytes = λ i l.
        b.bytes i l
        ∙ ap (λ v. if leb (off + m) i && ltb i (off + m + r) then src (m + (i - (off + m))) else v)
            (a.bytes i l)
        ∙ two_runs off m r i src (contents f i);
  }

  pub Written-range :
      (off : ℕ) {m m' : ℕ} {src src' : ℕ → ℕ} {f f' : FileMap}
      → m ≡ m'
      → ((i : ℕ) → src i ≡ src' i)
      → Written off m src f f'
      → Written off m' src' f f'
  Written-range off {m} {m'} {src} {src'} {f} {f'} e s w =
      subst (λ k. Written off k src' f f') e (subst (λ g. Written off m g f f') (fun_ext s) w)

  pub Written-none : (off : ℕ) (src : ℕ → ℕ) (f : FileMap) → IsFile sb f → Written off 0 src f f
  Written-none off src f file = record {
    file = file;
    same = λ k. refl;
    addrs = refl;
    sound = λ s. s;
    bytes = λ i l. ground arith;
  }
