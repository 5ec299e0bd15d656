-- ===== src/Fs/Content/Writing.antt =====
-- `writei` changes the bytes that it writes, and no other byte of the file.
use sistema_operativo.Base.{
  ltb-false, ℕ, zero, suc, ◌+◌, ◌-◌, ◌*◌, ◌/◌, ◌%◌, ◌≤◌, ◌<◌, ◌≡◌, ◌≢◌, refl, sym, ap, ap₂, ◌∙◌,
  subst, Bool, true, false, ◌&&◌, ok, ltb, leb, if◌then◌else◌, arith, lt→ltb, Bool-cases, inl, inr,
}
use native.Mathlib.Decide.{dec_lt}
use sistema_operativo.Fs.{Superblock, bsize}
use sistema_operativo.Fs.Bmap.{FileMap, maxfile}
use sistema_operativo.Fs.Bmap.File.{IsFile}
use sistema_operativo.Fs.Bmap.Address.{address, bmap_old}
use sistema_operativo.Fs.Content.{OpenInode, wrote, part, write_loop, writei, t_dev, grow}
use sistema_operativo.Fs.Logging.{OpenLog, log_sector, log_sectors}
use sistema_operativo.Fs.Logging.Room.{HasLogRoom, HasLogRoom-less, log_sector_lem}
use sistema_operativo.Fs.Bmap.{ndirect, load_word}
use sistema_operativo.Fs.Bmap.Address.{address_direct, address_indirect, address_none}
use sistema_operativo.Fs.{iblock}
use sistema_operativo.Fs.Content.{logged_bmap, iupdate, save}
use sistema_operativo.Base.{[]}
use sistema_operativo.Fs.Content.Segments.{contents}
use sistema_operativo.Fs.Content.Reading.{HasBlocks, part_lem, eq_false, in_file}
use sistema_operativo.Fs.Content.Chunk.{
  chunk, spliced, Written, chunk-Written, Written-append, Written-range, Written-none,
}

-- The blocks that `n` bytes from `off` on lie in; one, if `n` is 0 and `off` inside a block.
abbrev pub touched : (off n : ℕ) → ℕ
touched off n = (off % bsize + n + 511) / bsize

-- `bmap` logs nothing for a block that the file has.
logged_bmap-old :
    (sb : Superblock) (bn : ℕ) (f : FileMap) (x : ℕ × FileMap)
    → address f bn ≢ 0
    → logged_bmap sb bn f x ≡ []
unfolding logged_bmap
logged_bmap-old sb bn f x nz = elim (dec_lt bn ndirect) [
  | yes d ↦
      rw
        (
          lt→ltb bn ndirect d,
          logged_bmap,
          eq_false (f.addrs bn) 0 (λ z. nz (address_direct f bn d ∙ z)),
        )
        refl
  | no d ↦
      let i : f.addrs ndirect ≢ 0 = λ z. nz (address_none f bn (omega arith) z) in
      rw
        (
          ltb-false bn ndirect (omega arith),
          logged_bmap,
          eq_false (f.addrs ndirect) 0 i,
          eq_false (load_word (f.blocks (f.addrs ndirect)) (bn - ndirect)) 0
              (λ z. nz (address_indirect f bn (omega arith) i ∙ z)),
        )
        refl
]

-- The room for the blocks that are left, and what is needed behind them.
abbrev LoopRoom : (k off r : ℕ) → OpenLog → Type 0
LoopRoom k off r g = HasLogRoom k g × (0 < r → HasLogRoom (k + touched off r) g)

LoopRoom-step :
    (k n tot off : ℕ) (g : OpenLog)
    → tot < n
    → LoopRoom k off (n - tot) g
    → (j : ℕ) × HasLogRoom (suc j) g
      × ((g' : OpenLog)
          → HasLogRoom j g'
          → LoopRoom k (off + part n tot off) (n - (tot + part n tot off)) g')
LoopRoom-step k n tot off g h room = (
  k + touched off (n - tot) - 1,
  HasLogRoom-less _ _ (omega arith) (room.1 (omega arith)),
  λ g' r. (HasLogRoom-less _ _ (omega arith) r, λ more. HasLogRoom-less _ _ (omega arith) r),
)

module _ (sb : Superblock) where
  write_stop :
      (fuel tot n off : ℕ) (src : ℕ → ℕ) (g : OpenLog) (f : FileMap)
      → n ≤ tot
      → write_loop sb fuel tot n off src g f ≡ ok (off + (n - tot), f, g)
  unfolding write_loop
  write_stop zero tot n off src g f h = ap (λ a. ok (a, f, g)) (omega arith)
  write_stop (suc fuel) tot n off src g f h =
      rw (ltb-false tot n h, write_loop) (ap (λ a. ok (a, f, g)) (omega arith))

  write_step :
      (fuel tot n off : ℕ) (src : ℕ → ℕ) (f : FileMap) (g g' : OpenLog)
      → tot < n
      → off / bsize < maxfile
      → address f (off / bsize) ≢ 0
      → log_sector (address f (off / bsize)) g ≡ ok g'
      → write_loop sb (suc fuel) tot n off src g f
        ≡ write_loop sb fuel
            (tot + part n tot off)
            n
            (off + part n tot off)
            src
            g'
            (chunk f (off / bsize) (off % bsize) (part n tot off) (λ i. src (tot + i)))
  unfolding write_loop log_sectors
  write_step fuel tot n off src f g g' h l a e =
      rw
        (
          lt→ltb tot n h,
          write_loop,
          bmap_old sb (off / bsize) f l a,
          logged_bmap-old sb (off / bsize) f (address f (off / bsize), f) a,
          e,
        )
        refl

  -- The loop ends with the bytes written, and with room for `k` more sectors.
  write_loop_lem :
      (k fuel tot n off : ℕ) (src : ℕ → ℕ) (g : OpenLog) (f : FileMap)
      → n - tot ≤ fuel
      → IsFile sb f
      → HasBlocks f off (off + (n - tot))
      → LoopRoom k off (n - tot) g
      → (f' : FileMap) × (g' : OpenLog) × (write_loop sb fuel tot n off src g f
          ≡ ok (off + (n - tot), f', g'))
        × HasLogRoom k g'
        × Written sb off (n - tot) (λ i. src (tot + i)) f f'
  write_loop_lem k zero tot n off src g f enough file has room = (
    f,
    g,
    write_stop zero tot n off src g f (omega arith),
    room.0,
    Written-range sb off (omega arith) (λ i. refl)
        (Written-none sb off (λ i. src (tot + i)) f file),
  )
  write_loop_lem k (suc fuel) tot n off src g f enough file has room = elim (dec_lt tot n) [
    | no d ↦ (
      f,
      g,
      write_stop (suc fuel) tot n off src g f (omega arith),
      room.0,
      Written-range sb off (omega arith) (λ i. refl)
          (Written-none sb off (λ i. src (tot + i)) f file),
    )
    | yes d ↦
        let m = part n tot off in
        let at = has off (omega arith) (omega arith) in
        let first =
          chunk-Written sb f off m (λ i. src (tot + i)) file at.0 at.1 (part_lem n tot off d).2 in
        let (j, one, others) = LoopRoom-step k n tot off g d room in
        let (g1, logs, room1) = log_sector_lem (address f (off / bsize)) j g one in
        let (f', g', computes, left, rest) =
          write_loop_lem k fuel (tot + m) n (off + m) src g1
            (chunk f (off / bsize) (off % bsize) m (λ i. src (tot + i))) (omega arith) first.file
            (λ i a b.
              let h = has i (omega arith) (omega arith) in
              (h.0, λ z. h.1 (sym (first.same (i / bsize)) ∙ z)))
            (others g1 room1) in
        (
          f',
          g',
          write_step fuel tot n off src f g g1 d at.0 at.1 logs
              ∙ computes
              ∙ ap (λ a. ok (a, f', g')) (omega arith),
          left,
          Written-range sb off (omega arith) (λ i. refl)
              (Written-append sb off m (n - (tot + m)) (λ i. src (tot + i)) first
                (Written-range sb (off + m) refl (λ i. ap src (omega arith)) rest)),
        )
  ]

  -- The end of `writei`.
  record Grown (n off : ℕ) (o : OpenInode) (f : FileMap) (g : OpenLog) (o' : OpenInode)
      : Type 0 where
    computes : grow sb n o (off, f, g) ≡ ok (wrote n, o')
    same_map : o'.map ≡ f
    same_type : o'.type ≡ o.type
    new_size : o'.size ≡ (if ltb o.size off then off else o.size)
    saved_size : o'.disk_size ≡ (if ltb o.size off then off else o.disk_size)

  grow_lem :
      (n off : ℕ) (o : OpenInode) (f : FileMap) (g : OpenLog)
      → HasLogRoom 1 g
      → (ltb o.size off ≡ true → 0 < n)
      → (o' : OpenInode) × Grown n off o f g o'
  unfolding grow iupdate
  grow_lem n off o f g room h = elim (Bool-cases (ltb o.size off)) [
    | inl e ↦
        let (g', logs, left) = log_sector_lem (iblock o.inum) 0 g room in
        (
          save (record o { size = off; map = f; log = g' }),
          record {
            computes = rw (e, lt→ltb 0 n (h e), grow, iupdate, logs) refl;
            same_map = refl;
            same_type = refl;
            new_size = rw e refl;
            saved_size = rw e refl;
          },
        )
    | inr e ↦ (
      record o { map = f; log = g },
      record {
        computes = rw (e, grow, and_false (ltb 0 n)) refl;
        same_map = refl;
        same_type = refl;
        new_size = rw e refl;
        saved_size = rw e refl;
      },
    )
  ]
    where
      and_false : (b : Bool) → b && false ≡ false
      and_false true = refl
      and_false false = refl

  spliced_src :
      (off n : ℕ) (src : ℕ → ℕ) (f : FileMap) (i : ℕ)
      → spliced (contents f) off (n - 0) (λ i. src (0 + i)) i ≡ spliced (contents f) off n src i
  spliced_src off n src f i =
      ap₂ (λ m x. if leb off i && ltb i (off + m) then x else contents f i) (less_zero n)
        (ap src (zero_add (i - off)))
    where
      less_zero : (a : ℕ) → a - 0 ≡ a
      less_zero a = omega arith

      zero_add : (a : ℕ) → 0 + a ≡ a
      zero_add a = omega arith

  -- `writei` inside the blocks that the file has, at an offset within the file, with room in the open
  -- transaction for the blocks that are written and that of the inode, writes all `n` bytes: the bytes
  -- from `off` on are those given, no other byte of the file changes, no block of it moves, its type
  -- stays, and its size grows to the end of the write if that lies behind the old end, on the disk too.
  pub writei_lem :
      (has_write : ℕ → Bool) (off n : ℕ) (src : ℕ → ℕ) (o : OpenInode)
      → o.type ≢ t_dev
      → off ≤ o.size
      → off + n < 0x100000000
      → off + n ≤ maxfile * bsize
      → IsFile sb o.map
      → HasBlocks o.map off (off + n)
      → HasLogRoom (suc (touched off n)) o.log
      → (o' : OpenInode) × (writei sb has_write off n src o ≡ ok (wrote n, o'))
        × IsFile sb o'.map
        × (o'.type ≡ o.type)
        × (o'.size ≡ (if ltb o.size (off + n) then off + n else o.size))
        × (o'.disk_size ≡ (if ltb o.size (off + n) then off + n else o.disk_size))
        × ((k : ℕ) → address o'.map k ≡ address o.map k)
        × ((i : ℕ) → i / bsize < maxfile → contents o'.map i ≡ spliced (contents o.map) off n src i)
  unfolding writei
  writei_lem has_write off n src o file inside small fits is_file has room =
      let (f', g', computes, left, w) =
        write_loop_lem 1 n 0 n off src o.log o.map (omega arith) is_file
          (λ i a b. has i a (omega arith)) (loop_room room) in
      let (o', grown) = grow_lem n (off + n) o f' g' left (λ e. ground (arith, e)) in
      let e = grown.same_map in
      (
        o',
        rw
            (
              eq_false o.type t_dev file,
              writei,
              in_file off n o.size inside small,
              ltb-false (maxfile * bsize) (off + n) fits,
              computes,
              whole,
            )
            grown.computes,
        subst (IsFile sb) (sym e) w.file,
        grown.same_type,
        grown.new_size,
        grown.saved_size,
        λ k. ap (λ f. address f k) e ∙ w.same k,
        λ i l. ap (λ f. contents f i) e ∙ w.bytes i l ∙ spliced_src off n src o.map i,
      )
    where
      whole : off + (n - 0) ≡ off + n
      whole = omega arith

      loop_room : HasLogRoom (suc (touched off n)) o.log → LoopRoom 1 off (n - 0) o.log
      loop_room r =
          (HasLogRoom-less _ _ (omega arith) r, λ more. HasLogRoom-less _ _ (omega arith) r)
