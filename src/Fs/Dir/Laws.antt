-- ===== src/Fs/Dir/Laws.antt =====
-- A directory as a map from names: `dirlink` sets one name, and `dirlookup` finds it.
use sistema_operativo.Base.{
  ℕ, ◌%◌, ◌<◌, ◌≡◌, ◌≢◌, inl, inr, refl, sym, ap, ap₂, ◌∙◌, subst, Bool, true, false, Option, none,
  some, Outcome, ok, halt, ◌>>=◌, arith,
}
use native.Mathlib.Decide.{ℕ_discrete, dec_lt}
use sistema_operativo.Fs.{Superblock}
use sistema_operativo.Fs.Content.{OpenInode}
use sistema_operativo.Fs.Dir.{Dirent, dirent_size, is_entry, dirlookup, add_entry, dirlink}
use sistema_operativo.Fs.Dir.Names.{Agree, is_entry_iff}
use sistema_operativo.Fs.Dir.Lookup.{entry_at, IsDirectory, LookedUp, dirlookup_lem}
use sistema_operativo.Fs.Dir.Fresh.{padded-Agree, Agree-padded, Agree-ext}
use sistema_operativo.Fs.Dir.Linking.{HasSpace, Added, add_entry_lem}

-- No matching entry lies before the first one, so that a look-up has one result.
LookedUp-unique :
    (name : ℕ → ℕ) (dp : OpenInode) (r r' : Option (ℕ × ℕ))
    → LookedUp name dp r
    → LookedUp name dp r'
    → r ≡ r'
LookedUp-unique name dp none none a b = refl
LookedUp-unique name dp none (some (inum, off)) a ((lo, hi, al, e, t, n), i) =
    cc (a off lo hi al ∙ refl, t)
LookedUp-unique name dp (some (inum, off)) none ((lo, hi, al, e, t, n), i) b =
    cc (b off lo hi al, t)
LookedUp-unique name dp (some (inum, off)) (some (inum', off')) ((lo, hi, al, e, t, n), i)
      ((lo', hi', al', e', t', n'), i') =
    elim (ℕ_discrete off off') [
      | yes q ↦ ap₂ (λ x y. some (x, y)) (i ∙ ap (λ k. (entry_at dp.map k).inum) q ∙ sym i') q
      | no q ↦ elim (dec_lt off off') [
        | yes l ↦ cc (n' off lo l al, t)
        | no l ↦ cc (n off' lo' (omega arith) al', t')
      ]
    ]

not_true : (b : Bool) → (b ≡ true → ⊥) → b ≡ false
not_true true h = absurd (h refl)
not_true false h = refl

-- An empty entry matches no name.
empty_entry : (name : ℕ → ℕ) (de : Dirent) → de.inum ≡ 0 → is_entry name de ≡ false
empty_entry name de z = not_true _ (λ t. ((is_entry_iff name de).0 t).0 z)

module _ (name : ℕ → ℕ) (inum : ℕ) (dp : OpenInode) (off : ℕ) (dp' : OpenInode) where
  -- The new entry matches the name, and no name that does not agree with it.
  new_matches : Added name inum dp off dp' → inum ≢ 0 → is_entry name (entry_at dp'.map off) ≡ true
  new_matches a nz = (is_entry_iff name (entry_at dp'.map off)).1 (
    (λ z. nz (sym a.number ∙ z)),
    Agree-ext name _ (entry_at dp'.map off).name (λ k l. sym (a.bytes k l)) (padded-Agree name),
  )

  new_apart :
      Added name inum dp off dp'
      → (other : ℕ → ℕ) → ¬ Agree other name
      → is_entry other (entry_at dp'.map off) ≡ false
  new_apart a other n = not_true _ (λ t. n (
      Agree-padded other name (
        Agree-ext other (entry_at dp'.map off).name _ a.bytes
          ((is_entry_iff other (entry_at dp'.map off)).0 t).1)))

  old_entry :
      Added name inum dp off dp'
      → (k : ℕ) → k < dp'.size
      → k % dirent_size ≡ 0
      → k ≢ off
      → k < dp.size
  old_entry a k l al n = ground (arith, a.size, a.aligned, a.place)

  Added-name :
      Added name inum dp off dp'
      → inum ≢ 0
      → LookedUp name dp none
      → LookedUp name dp' (some (inum, off))
  Added-name a nz missing = (
    (
      omega arith,
      a.inside,
      a.aligned,
      refl,
      new_matches a nz,
      λ k lo hi al.
          ap (is_entry name) (a.others k (omega (arith, a.place, hi)) al (λ e. omega arith))
          ∙ missing k lo (omega (arith, a.place, hi)) al,
    ),
    sym a.number,
  )

  Added-other :
      Added name inum dp off dp'
      → (other : ℕ → ℕ) → ¬ Agree other name
      → (r : Option (ℕ × ℕ)) → LookedUp other dp r
      → LookedUp other dp' r
  Added-other a other n none missing = λ k lo hi al. elim (ℕ_discrete k off) [
    | yes e ↦ subst (λ k. is_entry other (entry_at dp'.map k) ≡ false) (sym e) (new_apart a other n)
    | no e ↦
        let l = old_entry a k hi al e in ap (is_entry other) (a.others k l al e) ∙ missing k lo l al
  ]
  Added-other a other n (some (inum, o)) ((lo, hi, al, e, t, before), i) = (
    (
      lo,
      ground (arith, a.size),
      al,
      refl,
      ap (is_entry other) kept ∙ t,
      λ k lo hi' al'. elim (ℕ_discrete k off) [
        | yes e ↦
            subst (λ k. is_entry other (entry_at dp'.map k) ≡ false) (sym e) (new_apart a other n)
        | no e ↦ ap (is_entry other) (a.others k (omega arith) al' e) ∙ before k lo hi' al'
      ],
    ),
    i ∙ ap (λ de. de.inum) (sym kept),
  )
    where
      elsewhere : o ≢ off
      elsewhere e = elim a.place [
        | inl at ↦ omega arith
        | inr (l, z) ↦ cc (
            sym t
            ∙ ap (λ k. is_entry other (entry_at dp.map k)) e
            ∙ empty_entry other (entry_at dp.map off) z)
      ]

      kept : entry_at dp'.map o ≡ entry_at dp.map o
      kept = a.others o hi al elsewhere

module _ (sb : Superblock) (has_read has_write : ℕ → Bool) where
  dirlookup-LookedUp :
      (name : ℕ → ℕ) (dp : OpenInode) (r : Option (ℕ × ℕ))
      → IsDirectory dp
      → LookedUp name dp r
      → dirlookup sb has_read has_write name dp ≡ ok (r, dp)
  dirlookup-LookedUp name dp r d l =
      let (r', computes, l') = dirlookup_lem sb has_read has_write name dp d in
      computes ∙ ap (λ x. ok (x, dp)) (LookedUp-unique name dp r' r l' l)

  LookedUp-dirlookup :
      (name : ℕ → ℕ) (dp : OpenInode) (r : Option (ℕ × ℕ))
      → IsDirectory dp
      → dirlookup sb has_read has_write name dp ≡ ok (r, dp)
      → LookedUp name dp r
  LookedUp-dirlookup name dp r d e =
      let (r', computes, l') = dirlookup_lem sb has_read has_write name dp d in
      subst (LookedUp name dp) (ap found (sym computes ∙ e)) l'
    where
      found : Outcome (Option (ℕ × ℕ) × OpenInode) → Option (ℕ × ℕ)
      found (ok x) = x.0
      found (halt e) = none

  dirlink-add_entry :
      (name : ℕ → ℕ) (inum : ℕ) (dp : OpenInode)
      → dirlookup sb has_read has_write name dp ≡ ok (none, dp)
      → dirlink sb has_read has_write name inum dp ≡ add_entry sb has_read has_write name inum dp
  unfolding dirlink
  dirlink-add_entry name inum dp e =
      ap
        (λ x. x >>= (λ r. elim r.0 [
          | some e ↦ ok (false, r.1)
          | none ↦ add_entry sb has_read has_write name inum r.1
        ]))
        e

  -- Into a directory that has a place for one more entry, with room in the open transaction for two
  -- sectors, and in which a name is missing, `dirlink` puts the name: `dirlookup` then finds the inode's number under it, and under a name that does not agree with
  -- it what it found before.
  pub dirlink_lem :
      (name : ℕ → ℕ) (inum : ℕ) (dp : OpenInode)
      → IsDirectory dp
      → HasSpace sb dp
      → inum ≢ 0
      → inum < 65536
      → dirlookup sb has_read has_write name dp ≡ ok (none, dp)
      → (off : ℕ) × (dp' : OpenInode) × (dirlink sb has_read has_write name inum dp
          ≡ ok (true, dp'))
        × IsDirectory dp'
        × (dirlookup sb has_read has_write name dp' ≡ ok (some (inum, off), dp'))
        × ((other : ℕ → ℕ)
            → ¬ Agree other name
            → (r : Option (ℕ × ℕ)) × (dirlookup sb has_read has_write other dp ≡ ok (r, dp))
              × (dirlookup sb has_read has_write other dp' ≡ ok (r, dp')))
  dirlink_lem name inum dp d space nz small missing =
      let (off, dp', computes, a) =
        add_entry_lem sb has_read has_write name inum dp d space small in
      (
        off,
        dp',
        dirlink-add_entry name inum dp missing ∙ computes,
        a.is_directory,
        dirlookup-LookedUp name dp' (some (inum, off)) a.is_directory
            (Added-name name inum dp off dp' a nz (LookedUp-dirlookup name dp none d missing)),
        λ other n.
            let (r, before, l) = dirlookup_lem sb has_read has_write other dp d in
            (
              r,
              before,
              dirlookup-LookedUp other dp' r a.is_directory
                  (Added-other name inum dp off dp' a other n r l),
            ),
      )
