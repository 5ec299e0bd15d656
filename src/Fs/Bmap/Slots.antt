-- ===== src/Fs/Bmap/Slots.antt =====
-- One entry of the block map: the block that it names, or a new one.
use sistema_operativo.Base.{
  ℕ, ◌<◌, ◌≡◌, ◌≢◌, refl, sym, ap, ◌∙◌, false, ok, ◌==◌, update, arith, update_self, update_ne,
}
use native.Mathlib.Decide.{ℕ_discrete}
use sistema_operativo.Fs.{Superblock, Blocks, bblock}
use sistema_operativo.Fs.Alloc.{used}
use sistema_operativo.Fs.Alloc.Laws.{IsSound, Allocated, balloc_lem}
use sistema_operativo.Fs.Bmap.{FileMap, load_word, store_word, slot, entry}
use sistema_operativo.Fs.Bmap.Words.{load_word-store_word, load_word-store_word_ne}
use sistema_operativo.Fs.Bmap.Extend.{
  IsOwned, HasRoom, Free, Extends, Extends-refl, Allocated-nonzero, Allocated-IsOwned,
  Allocated-keeps, Allocated-Extends, Allocated-Free,
}

not_zero : (n : ℕ) → n ≢ 0 → (n == 0) ≡ false
not_zero n h = ground arith

module _ (sb : Superblock) where
  -- What `slot` leaves.
  pub record Slotted (i : ℕ) (f : FileMap) (x : ℕ) (f' : FileMap) : Type 0 where
    pub computes : slot sb i f ≡ ok (x, f')
    pub nonzero : x ≢ 0
    pub owned : IsOwned sb f'.blocks x
    pub extends : Extends sb f.blocks f'.blocks
    pub at : f'.addrs i ≡ x
    pub others : (j : ℕ) → j ≢ i → f'.addrs j ≡ f.addrs j
    pub zeros : f.addrs i ≡ 0 → f'.blocks x ≡ (λ k. 0)
    pub same : f.addrs i ≢ 0 → f' ≡ f
    pub room : HasRoom sb f.blocks → Free sb f'.blocks
    pub fresh : f.addrs i ≡ 0 → used sb f.blocks x ≡ false

  slot_new :
      (i : ℕ) (f : FileMap) (x : ℕ) (bl' : Blocks)
      → IsSound sb f.blocks
      → f.addrs i ≡ 0
      → Allocated sb f.blocks x bl'
      → Slotted i f x (record { addrs = update f.addrs i x; blocks = bl' })
  unfolding slot
  slot_new i f x bl' s e a = record {
    computes = rw (e, slot, a.computes) refl;
    nonzero = Allocated-nonzero sb f.blocks bl' x s a;
    owned = Allocated-IsOwned sb f.blocks bl' x s a;
    extends = Allocated-Extends sb f.blocks bl' x s a;
    at = update_self f.addrs i x;
    others = λ j n. update_ne f.addrs i j x (λ q. n (sym q));
    zeros = λ _. a.zeros;
    same = λ n. absurd (n e);
    room = λ r. Allocated-Free sb f.blocks bl' x r a;
    fresh = λ _. a.was_free;
  }

  pub slot_kept : (i : ℕ) (f : FileMap) → f.addrs i ≢ 0 → slot sb i f ≡ ok (f.addrs i, f)
  unfolding slot
  slot_kept i f n = rw (not_zero (f.addrs i) n, slot) refl

  pub entry_kept :
      (ind i : ℕ) (f : FileMap)
      → load_word (f.blocks ind) i ≢ 0
      → entry sb ind i f ≡ ok (load_word (f.blocks ind) i, f)
  unfolding entry
  entry_kept ind i f n = rw (not_zero (load_word (f.blocks ind) i) n, entry) refl

  slot_old :
      (i : ℕ) (f : FileMap)
      → IsSound sb f.blocks
      → f.addrs i ≢ 0
      → IsOwned sb f.blocks (f.addrs i)
      → Slotted i f (f.addrs i) f
  slot_old i f s n o = record {
    computes = slot_kept i f n;
    nonzero = n;
    owned = o;
    extends = Extends-refl sb f.blocks s;
    at = refl;
    others = λ j m. refl;
    zeros = λ e. absurd (n e);
    same = λ _. refl;
    room = λ r. (r.one, r.one_inside, r.one_free);
    fresh = λ e. absurd (n e);
  }

  pub slot_lem :
      (i : ℕ) (f : FileMap)
      → IsSound sb f.blocks
      → Free sb f.blocks
      → (f.addrs i ≢ 0 → IsOwned sb f.blocks (f.addrs i))
      → (x : ℕ) × (f' : FileMap) × Slotted i f x f'
  slot_lem i f s (k, h, free) o = elim (ℕ_discrete (f.addrs i) 0) [
    | yes e ↦
        let (x, bl', a) = balloc_lem sb f.blocks k s h free in
        (x, record { addrs = update f.addrs i x; blocks = bl' }, slot_new i f x bl' s e a)
    | no n ↦ (f.addrs i, f, slot_old i f s n (o n))
  ]

  -- A change inside an owned block leaves the bitmap alone.
  used-update :
      (bl : Blocks) (c : ℕ) (m : ℕ → ℕ) (j : ℕ)
      → IsOwned sb bl c
      → j < sb.size
      → used sb (update bl c m) j ≡ used sb bl j
  used-update bl c m j o h = rw (update_ne bl c (bblock sb j) m (o.apart j h)) refl

  pub update-Sound :
      (bl : Blocks) (c : ℕ) (m : ℕ → ℕ)
      → IsOwned sb bl c
      → IsSound sb bl
      → IsSound sb (update bl c m)
  update-Sound bl c m o s = record {
    bitmap = λ j h. used-update bl c m (bblock sb j) o (s.on_disk j h) ∙ s.bitmap j h;
    on_disk = s.on_disk;
    boot = used-update bl c m 0 o (omega (arith, o.inside)) ∙ s.boot;
    small = s.small;
  }

  pub update-Owned :
      (bl : Blocks) (c : ℕ) (m : ℕ → ℕ) (d : ℕ)
      → IsOwned sb bl c
      → IsOwned sb bl d
      → IsOwned sb (update bl c m) d
  update-Owned bl c m d o p = record {
    inside = p.inside;
    in_use = used-update bl c m d o p.inside ∙ p.in_use;
    apart = p.apart;
  }

  -- What `entry` leaves, in the indirect block `ind`.
  pub record Entered (ind i : ℕ) (f : FileMap) (x : ℕ) (f' : FileMap) : Type 0 where
    pub computes : entry sb ind i f ≡ ok (x, f')
    pub nonzero : x ≢ 0
    pub addrs : f'.addrs ≡ f.addrs
    pub at : load_word (f'.blocks ind) i ≡ x
    pub others : (j : ℕ) → j ≢ i → load_word (f'.blocks ind) j ≡ load_word (f.blocks ind) j
    pub sound : IsSound sb f'.blocks
    pub owned : (c : ℕ) → IsOwned sb f.blocks c → IsOwned sb f'.blocks c
    pub keeps : (c : ℕ) → c ≢ ind → IsOwned sb f.blocks c → f'.blocks c ≡ f.blocks c
    pub same : load_word (f.blocks ind) i ≢ 0 → f' ≡ f
    pub own : IsOwned sb f'.blocks x
    pub fresh : load_word (f.blocks ind) i ≡ 0 → used sb f.blocks x ≡ false

  entry_new :
      (ind i : ℕ) (f : FileMap) (x : ℕ) (bl' : Blocks)
      → IsSound sb f.blocks
      → IsOwned sb f.blocks ind
      → load_word (f.blocks ind) i ≡ 0
      → Allocated sb f.blocks x bl'
      → Entered ind i f x (record f { blocks = update bl' ind (store_word (bl' ind) i x) })
  unfolding entry
  entry_new ind i f x bl' s o e a = record {
    computes = rw (e, entry, a.computes) refl;
    nonzero = Allocated-nonzero sb f.blocks bl' x s a;
    addrs = refl;
    at =
        ap (λ m. load_word m i) (update_self bl' ind (store_word (bl' ind) i x))
        ∙ load_word-store_word (bl' ind) i x (omega (arith, a.inside, s.small));
    others = λ j n.
        ap (λ m. load_word m j) (update_self bl' ind (store_word (bl' ind) i x))
        ∙ load_word-store_word_ne (bl' ind) i j x (λ q. n (sym q))
        ∙ ap (λ m. load_word m j) (Allocated-keeps sb f.blocks bl' x ind o a);
    sound = update-Sound bl' ind _ (ext.owned ind o) ext.sound;
    owned = λ c p. update-Owned bl' ind _ c (ext.owned ind o) (ext.owned c p);
    keeps = λ c n p. update_ne bl' ind c _ (λ q. n (sym q)) ∙ ext.keeps c p;
    same = λ n. absurd (n e);
    own = update-Owned bl' ind _ x (ext.owned ind o) (Allocated-IsOwned sb f.blocks bl' x s a);
    fresh = λ _. a.was_free;
  }
    where
      ext : Extends sb f.blocks bl'
      ext = Allocated-Extends sb f.blocks bl' x s a

  entry_old :
      (ind i : ℕ) (f : FileMap)
      → IsSound sb f.blocks
      → load_word (f.blocks ind) i ≢ 0
      → IsOwned sb f.blocks (load_word (f.blocks ind) i)
      → Entered ind i f (load_word (f.blocks ind) i) f
  entry_old ind i f s n p = record {
    computes = entry_kept ind i f n;
    nonzero = n;
    addrs = refl;
    at = refl;
    others = λ j m. refl;
    sound = s;
    owned = λ c p. p;
    keeps = λ c m p. refl;
    same = λ _. refl;
    own = p;
    fresh = λ e. absurd (n e);
  }

  pub entry_lem :
      (ind i : ℕ) (f : FileMap)
      → IsSound sb f.blocks
      → IsOwned sb f.blocks ind
      → Free sb f.blocks
      → (load_word (f.blocks ind) i ≢ 0 → IsOwned sb f.blocks (load_word (f.blocks ind) i))
      → (x : ℕ) × (f' : FileMap) × Entered ind i f x f'
  entry_lem ind i f s o (k, h, free) own = elim (ℕ_discrete (load_word (f.blocks ind) i) 0) [
    | yes e ↦
        let (x, bl', a) = balloc_lem sb f.blocks k s h free in
        (
          x,
          record f { blocks = update bl' ind (store_word (bl' ind) i x) },
          entry_new ind i f x bl' s o e a,
        )
    | no n ↦ (load_word (f.blocks ind) i, f, entry_old ind i f s n (own n))
  ]
