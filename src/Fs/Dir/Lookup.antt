-- ===== src/Fs/Dir/Lookup.antt =====
-- `dirlookup` finds the first entry with a name.
use sistema_operativo.Base.{
  ltb-false, ℕ, zero, suc, ◌+◌, ◌-◌, ◌*◌, ◌%◌, ◌≤◌, ◌<◌, ◌≡◌, refl, ap, ◌∙◌, subst, Bool, true,
  false, Option, none, some, ok, ◌>>=◌, ◌==◌, min, arith, lt→ltb, Bool-cases, inl, inr,
}
use native.Mathlib.Decide.{ℕ_discrete, dec_lt}
use sistema_operativo.Fs.{Superblock, bsize}
use sistema_operativo.Fs.Bmap.{FileMap, maxfile}
use sistema_operativo.Fs.Content.{OpenInode, segment}
use sistema_operativo.Fs.Content.Segments.{contents}
use sistema_operativo.Fs.Content.Reading.{HasBlocks, readi_lem}
use sistema_operativo.Fs.Dir.{
  Dirent, to_dirent, dirent_size, t_dir, Scan, read_dirent, find_entry, is_entry, dirlookup,
  scan_fuel, looked_up,
}

-- The entry at an offset of a directory.
abbrev pub entry_at : FileMap → ℕ → Dirent
entry_at f off = to_dirent (segment (contents f) off dirent_size)

-- A directory is whole entries, in blocks that it has.
pub record IsDirectory (o : OpenInode) : Type 0 where
  pub is_dir : o.type ≡ t_dir
  pub whole : o.size % dirent_size ≡ 0
  pub fits : o.size ≤ maxfile * bsize
  pub has : HasBlocks o.map 0 o.size

-- No entry with `test` lies from `lo` up to `hi`.
abbrev pub NoEntry : (Dirent → Bool) → FileMap → (lo hi : ℕ) → Type 0
NoEntry test f lo hi = (k : ℕ) → lo ≤ k → k < hi → k % dirent_size ≡ 0 → test (entry_at f k) ≡ false

-- The first entry with `test` from `lo` up to `hi`, if there is one.
abbrev pub FirstEntry : (Dirent → Bool) → FileMap → (lo hi : ℕ) → Option Dirent → ℕ → Type 0
FirstEntry test f lo hi none off = (off ≡ hi) × NoEntry test f lo hi
FirstEntry test f lo hi (some de) off =
    (lo ≤ off)
    × (off < hi)
    × (off % dirent_size ≡ 0)
    × (de ≡ entry_at f off)
    × (test de ≡ true)
    × NoEntry test f lo off

NoEntry-step :
    (test : Dirent → Bool) (f : FileMap) (lo hi : ℕ)
    → lo % dirent_size ≡ 0
    → test (entry_at f lo) ≡ false
    → NoEntry test f (lo + dirent_size) hi
    → NoEntry test f lo hi
NoEntry-step test f lo hi h e n k a b c = elim (ℕ_discrete lo k) [
  | yes q ↦ subst (λ k. test (entry_at f k) ≡ false) q e
  | no q ↦ n k (omega arith) b c
]

FirstEntry-step :
    (test : Dirent → Bool) (f : FileMap) (lo hi : ℕ) (o : Option Dirent) (off : ℕ)
    → lo % dirent_size ≡ 0
    → test (entry_at f lo) ≡ false
    → FirstEntry test f (lo + dirent_size) hi o off
    → FirstEntry test f lo hi o off
FirstEntry-step test f lo hi none off h e (at, n) = (at, NoEntry-step test f lo hi h e n)
FirstEntry-step test f lo hi (some de) off h e (a, b, c, d, t, n) =
    (omega arith, b, c, d, t, NoEntry-step test f lo off h e n)

-- What `dirlookup` returns: the number and the offset of the first entry with the name.
abbrev pub LookedUp : (ℕ → ℕ) → OpenInode → Option (ℕ × ℕ) → Type 0
LookedUp name dp none = NoEntry (is_entry name) dp.map 0 dp.size
LookedUp name dp (some (inum, off)) =
    FirstEntry (is_entry name) dp.map 0 dp.size (some (entry_at dp.map off)) off
    × (inum ≡ (entry_at dp.map off).inum)

module _ (sb : Superblock) (has_read has_write : ℕ → Bool) where
  pub read_dirent_lem :
      (off : ℕ) (o : OpenInode)
      → IsDirectory o
      → off < o.size
      → off % dirent_size ≡ 0
      → read_dirent sb has_read has_write off o ≡ ok (entry_at o.map off, o)
  unfolding read_dirent
  read_dirent_lem off o d l h =
      rw
        (
          readi_lem sb has_read off dirent_size o (λ e. omega (arith, e, d.is_dir)) (omega arith)
              (omega (arith, d.fits)) d.has,
          whole,
        )
        refl
    where
      whole : min dirent_size (o.size - off) ≡ dirent_size
      whole = omega (arith, d.whole)

  pub find_entry_lem :
      (test : Dirent → Bool) (fuel off : ℕ) (o : OpenInode)
      → IsDirectory o
      → off ≤ o.size
      → off % dirent_size ≡ 0
      → o.size < off + fuel * dirent_size
      → (s : Scan) × (find_entry sb has_read has_write test fuel off o ≡ ok s)
        × (s.dir ≡ o)
        × FirstEntry test o.map off o.size s.found s.off
  unfolding find_entry
  find_entry_lem test zero off o d l h enough = absurd (omega arith)
  find_entry_lem test (suc fuel) off o d l h enough = elim (dec_lt off o.size) [
    | no out ↦ (
      record { found = none; off = off; dir = o },
      rw (ltb-false off o.size (omega arith), find_entry) refl,
      refl,
      (omega arith, λ k a b c. absurd (omega arith)),
    )
    | yes more ↦ elim (Bool-cases (test (entry_at o.map off))) [
      | inl e ↦ (
        record { found = some (entry_at o.map off); off = off; dir = o },
        rw (lt→ltb off o.size more, find_entry, read_dirent_lem off o d more h, e) refl,
        refl,
        (omega arith, more, h, refl, e, λ k a b c. absurd (omega arith)),
      )
      | inr e ↦
          let (s, computes, same, first) =
            find_entry_lem test fuel (off + dirent_size) o d (omega (arith, d.whole)) (omega arith)
              (omega arith) in
          (
            s,
            rw (lt→ltb off o.size more, find_entry, read_dirent_lem off o d more h, e, wraps)
                computes,
            same,
            FirstEntry-step test o.map off o.size s.found s.off h e first,
          )
    ]
  ]
    where
      wraps : off < o.size → (off + dirent_size) % 0x100000000 ≡ off + dirent_size
      wraps more = omega (arith, d.fits)

  dirlookup-find_entry :
      (name : ℕ → ℕ) (dp : OpenInode)
      → dp.type ≡ t_dir
      → dirlookup sb has_read has_write name dp
        ≡ (find_entry sb has_read has_write (is_entry name) (scan_fuel dp) 0 dp >>= looked_up)
  unfolding dirlookup
  dirlookup-find_entry name dp h = rw (test, dirlookup) refl
    where
      test : (dp.type == t_dir) ≡ true
      test = ground (arith, h)

  -- `dirlookup` in a directory finds the first entry that matches the name, and says that there is none
  -- only if no entry matches; it changes nothing.
  pub dirlookup_lem :
      (name : ℕ → ℕ) (dp : OpenInode)
      → IsDirectory dp
      → (r : Option (ℕ × ℕ)) × (dirlookup sb has_read has_write name dp ≡ ok (r, dp))
        × LookedUp name dp r
  dirlookup_lem name dp d =
      let (s, computes, same, first) =
        find_entry_lem (is_entry name) (scan_fuel dp) 0 dp d (omega arith) refl (omega arith) in
      by_scan s.found s.off s.dir computes same first
    where
      by_scan :
          (found : Option Dirent) (off : ℕ) (dir : OpenInode)
          → find_entry sb has_read has_write (is_entry name) (scan_fuel dp) 0 dp
            ≡ ok (record { found = found; off = off; dir = dir })
          → dir ≡ dp
          → FirstEntry (is_entry name) dp.map 0 dp.size found off
          → (r : Option (ℕ × ℕ)) × (dirlookup sb has_read has_write name dp ≡ ok (r, dp))
            × LookedUp name dp r
      by_scan none off dir e same (at, missing) = (
        none,
        dirlookup-find_entry name dp d.is_dir
            ∙ ap (λ x. x >>= looked_up) e
            ∙ ap (λ x. ok (none, x)) same,
        missing,
      )
      by_scan (some de) off dir e same (a, b, c, entry, t, earlier) = (
        some (de.inum, off),
        dirlookup-find_entry name dp d.is_dir
            ∙ ap (λ x. x >>= looked_up) e
            ∙ ap (λ x. ok (some (de.inum, off), x)) same,
        (
          (a, b, c, refl, subst (λ x. is_entry name x ≡ true) entry t, earlier),
          ap (λ x. x.inum) entry,
        ),
      )
