-- ===== src/Fs/Content/Reading.antt =====
-- `readi` returns the bytes of the file.
use sistema_operativo.Base.{
  ℕ, zero, suc, ◌+◌, ◌-◌, ◌/◌, ◌%◌, ◌≤◌, ◌<◌, ◌≡◌, ◌≢◌, refl, sym, ap, ◌∙◌, Bool, false, List, [],
  ◌++◌, Outcome, ok, ltb, ◌==◌, if◌then◌else◌, min, arith, lt→ltb, ltb-false,
}
use native.Mathlib.Decide.{dec_lt}
use sistema_operativo.Fs.{Superblock, bsize}
use sistema_operativo.Fs.Bmap.{FileMap, maxfile}
use sistema_operativo.Fs.Bmap.Address.{address, bmap_old}
use sistema_operativo.Fs.Content.{
  OpenInode, read_bytes, segment, part, read_loop, readi, t_dev, out_of_file,
}
use sistema_operativo.Fs.Content.Segments.{contents, segment-append, segment-block}

-- The file has all its blocks from `off` up to `hi`.
abbrev pub HasBlocks : FileMap → (off hi : ℕ) → Type 0
HasBlocks f off hi =
    (i : ℕ) → off ≤ i → i < hi → (i / bsize < maxfile) × (address f (i / bsize) ≢ 0)

pub part_lem :
    (n tot off : ℕ)
    → tot < n
    → (0 < part n tot off) × (part n tot off ≤ n - tot) × (off % bsize + part n tot off ≤ bsize)
part_lem n tot off h = omega arith

pub eq_false : (a b : ℕ) → a ≢ b → (a == b) ≡ false
eq_false a b h = ground arith

pub in_file : (off n size : ℕ) → off ≤ size → off + n < 0x100000000 → out_of_file off n size ≡ false
in_file off n size h l = ground arith

clip :
    (off n size : ℕ)
    → off ≤ size
    → (if ltb size (off + n) then size - off else n) ≡ min n (size - off)
clip off n size h = ground arith

done :
    (n tot off : ℕ) (f : FileMap)
    → n ≤ tot
    → ◌≡◌ {A = Outcome (List ℕ × FileMap)} (ok (segment (contents f) off (n - tot), f)) (ok ([], f))
unfolding segment
done n tot off f h = rw (zero_left) refl
  where
    zero_left : n - tot ≡ 0
    zero_left = omega arith

module _ (sb : Superblock) where
  read_step :
      (fuel tot n off : ℕ) (f : FileMap) (r : List ℕ)
      → tot < n
      → off / bsize < maxfile
      → address f (off / bsize) ≢ 0
      → read_loop sb fuel (tot + part n tot off) n (off + part n tot off) f ≡ ok (r, f)
      → read_loop sb (suc fuel) tot n off f ≡ ok (segment (contents f) off (part n tot off) ++ r, f)
  unfolding read_loop
  read_step fuel tot n off f r h l a e =
      rw
        (
          lt→ltb tot n h,
          read_loop,
          bmap_old sb (off / bsize) f l a,
          e,
          segment-block f off (part n tot off) (part_lem n tot off h).2,
        )
        refl

  read_stop :
      (fuel tot n off : ℕ) (f : FileMap)
      → n ≤ tot
      → read_loop sb (suc fuel) tot n off f ≡ ok ([], f)
  unfolding read_loop
  read_stop fuel tot n off f h = rw (ltb-false tot n h, read_loop) refl

  read_loop_lem :
      (fuel tot n off : ℕ) (f : FileMap)
      → n - tot ≤ fuel
      → HasBlocks f off (off + (n - tot))
      → read_loop sb fuel tot n off f ≡ ok (segment (contents f) off (n - tot), f)
  read_loop_lem zero tot n off f enough has =
      unfold read_loop in sym (done n tot off f (omega arith))
  read_loop_lem (suc fuel) tot n off f enough has = elim (dec_lt tot n) [
    | no d ↦ read_stop fuel tot n off f (omega arith) ∙ sym (done n tot off f (omega arith))
    | yes d ↦
        let at = has off (omega arith) (omega arith) in
        read_step fuel tot n off f
          (segment (contents f) (off + part n tot off) (n - (tot + part n tot off))) d at.0 at.1
          (read_loop_lem fuel (tot + part n tot off) n (off + part n tot off) f (omega arith)
            (λ i a b. has i (omega arith) (omega arith)))
        ∙ ap (λ l. ok (l, f))
            (sym (segment-append (contents f) off (part n tot off) (n - (tot + part n tot off)))
              ∙ ap (segment (contents f) off) (omega arith))
  ]

  -- `readi` of a file that has all its blocks returns the bytes from `off` on, `n` of them or as many as
  -- there are up to the end of the file, and changes nothing.
  pub readi_lem :
      (has_read : ℕ → Bool) (off n : ℕ) (o : OpenInode)
      → o.type ≢ t_dev
      → off ≤ o.size
      → off + n < 0x100000000
      → HasBlocks o.map 0 o.size
      → readi sb has_read off n o
        ≡ ok (read_bytes (segment (contents o.map) off (min n (o.size - off))), o)
  unfolding readi
  readi_lem has_read off n o file inside small has =
      rw
        (
          eq_false o.type t_dev file,
          readi,
          in_file off n o.size inside small,
          clip off n o.size inside,
          read_loop_lem (min n (o.size - off)) 0 (min n (o.size - off)) off o.map (omega arith)
              (λ i a b. has i (omega arith) (omega arith)),
        )
        (ap (λ m. ok (read_bytes (segment (contents o.map) off m), o)) (omega arith))
