-- ===== src/Fs/Content/RoundTrip.antt =====
-- What `writei` wrote `readi` reads.
use sistema_operativo.Base.{
  ℕ, suc, ◌+◌, ◌-◌, ◌*◌, ◌/◌, ◌≤◌, ◌<◌, ◌≡◌, ◌≢◌, sym, ap, ◌∙◌, Bool, true, ok, ltb, leb,
  if◌then◌else◌, min, arith, ◌⊎◌, inl, inr,
}
use sistema_operativo.Fs.{Superblock, bsize}
use sistema_operativo.Fs.Bmap.{maxfile}
use sistema_operativo.Fs.Bmap.Address.{address}
use sistema_operativo.Fs.Bmap.File.{IsFile}
use sistema_operativo.Fs.Content.{OpenInode, wrote, read_bytes, readi, writei, segment, t_dev}
use sistema_operativo.Fs.Content.Segments.{contents, segment-ext}
use sistema_operativo.Fs.Content.Chunk.{spliced}
use sistema_operativo.Fs.Content.Reading.{HasBlocks, readi_lem}
use sistema_operativo.Fs.Logging.Room.{HasLogRoom}
use sistema_operativo.Fs.Content.Writing.{writei_lem, touched}

spliced_inside :
    (old src : ℕ → ℕ) (off n k : ℕ) → k < n → spliced old off n src (off + k) ≡ src (0 + k)
spliced_inside old src off n k h = rw (low, high) (ap src back)
  where
    low : leb off (off + k) ≡ true
    low = ground arith

    high : ltb (off + k) (off + n) ≡ true
    high = ground arith

    back : off + k - off ≡ 0 + k
    back = omega arith

module _ (sb : Superblock) (has_read has_write : ℕ → Bool) where
  -- After `writei` of `n` bytes in blocks that the file has, at an offset within the file, `readi` of `n` bytes
  -- at that offset returns them, if the open transaction has room for the blocks that are written and
  -- that of the inode.
  pub readi-writei :
      (off n : ℕ) (src : ℕ → ℕ) (o : OpenInode)
      → o.type ≢ t_dev
      → off ≤ o.size
      → off + n < 0x100000000
      → off + n ≤ maxfile * bsize
      → IsFile sb o.map
      → HasBlocks o.map 0 o.size
      → HasBlocks o.map off (off + n)
      → HasLogRoom (suc (touched off n)) o.log
      → (o' : OpenInode) × (writei sb has_write off n src o ≡ ok (wrote n, o'))
        × (readi sb has_read off n o' ≡ ok (read_bytes (segment src 0 n), o'))
  readi-writei off n src o file inside small fits is_file old new log_room =
      let (o', writes, file', type, size, on_disk, same, bytes) =
        writei_lem sb has_write off n src o file inside small fits is_file new log_room in
      (
        o',
        writes,
        readi_lem sb has_read off n o' (λ e. file (sym type ∙ e)) (within o'.size size) small
              (λ i a b.
                let h = has i (grown i o'.size size b) in
                (h.0, λ z. h.1 (sym (same (i / bsize)) ∙ z)))
            ∙ ap (λ l. ok (read_bytes l, o'))
                (ap (segment (contents o'.map) off) (all o'.size size)
                  ∙ segment-ext (contents o'.map) src off 0 n (λ k l.
                    bytes (off + k) (omega arith) ∙ spliced_inside (contents o.map) src off n k l)),
      )
    where
      within : (s : ℕ) → s ≡ (if ltb o.size (off + n) then off + n else o.size) → off ≤ s
      within s e = ground (arith, e)

      all : (s : ℕ) → s ≡ (if ltb o.size (off + n) then off + n else o.size) → min n (s - off) ≡ n
      all s e = ground (arith, e)

      grown :
          (i s : ℕ)
          → s ≡ (if ltb o.size (off + n) then off + n else o.size)
          → i < s
          → (i < o.size) ⊎ ((off ≤ i) × (i < off + n))
      grown i s e h = ground (arith, e)

      has :
          (i : ℕ)
          → (i < o.size) ⊎ ((off ≤ i) × (i < off + n))
          → (i / bsize < maxfile) × (address o.map (i / bsize) ≢ 0)
      has i (inl h) = old i (omega arith) h
      has i (inr h) = new i h.0 h.1
