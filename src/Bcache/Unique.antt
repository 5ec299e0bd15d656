-- ===== src/Bcache/Unique.antt =====
-- A block has one buffer, whatever `bget` and `brelse` do.
use sistema_operativo.Base.{
  ℕ, ◌<◌, ◌≡◌, ◌≢◌, ◌⊎◌, inl, inr, refl, sym, ap, ◌∙◌, subst, true, false, Option, none, some, ◌∷◌,
  if◌then◌else◌, ltb, arith, count, Bool-cases, Outcome, ok, halt, panic, update, update_self,
  update_ne,
}
use native.Mathlib.Decide.{ℕ_discrete}
use sistema_operativo.Bcache.{
  Buf, Bcache, nbuf, put_buf, find_block, find_clean, recycle, bget, unlink, brelse,
}
use sistema_operativo.Bcache.Ring.{
  Member, Searched, holds, is_clean, find_block_lem, find_clean_lem, count-unlink,
}

-- The device of a buffer that holds no block.
abbrev pub no_dev : ℕ
no_dev = 0xffffffff

-- Every buffer stands in the ring once, and no two of them hold the same block.
pub record IsValid (c : Bcache) : Type 0 where
  pub ring : (i : ℕ) → count i c.order ≡ (if ltb i nbuf then 1 else 0)
  pub unique :
      (i j : ℕ)
      → i < nbuf
      → j < nbuf
      → i ≢ j
      → (c.buf i).dev ≢ no_dev
      → (c.buf i).dev ≡ (c.buf j).dev
      → (c.buf i).sector ≢ (c.buf j).sector

-- What `bget` did to the buffer that it returns.
pub record Taken (dev sector : ℕ) (c : Bcache) (i : ℕ) (c' : Bcache) : Type 0 where
  pub valid : IsValid c'
  pub inside : i < nbuf
  pub not_busy : (c.buf i).busy ≡ false
  pub busy : (c'.buf i).busy ≡ true
  pub of_dev : (c'.buf i).dev ≡ dev
  pub of_sector : (c'.buf i).sector ≡ sector
  pub content :
      (c'.buf i ≡ record (c.buf i) { busy = true })
      ⊎ (((c.buf i).dirty ≡ false) × ((c'.buf i).valid ≡ false))
  pub others : (j : ℕ) → j ≢ i → c'.buf j ≡ c.buf j

-- The three results: a buffer; the caller sleeps, since the block's buffer is busy; and a panic, since no
-- buffer holds the block and each is busy or dirty.
abbrev pub BgetResult : (dev sector : ℕ) → Bcache → Outcome (Option ℕ × Bcache) → Type 0
BgetResult dev sector c (ok (some i, c')) = Taken dev sector c i c'
BgetResult dev sector c (ok (none, c')) =
    (c' ≡ c) × ((i : ℕ) × (i < nbuf) × (holds dev sector c i ≡ true) × ((c.buf i).busy ≡ true))
BgetResult dev sector c (halt e) =
    (e ≡ panic "bget: no buffers")
    × ((i : ℕ) → i < nbuf → (holds dev sector c i ≡ false) × (is_clean c i ≡ false))

Member-inside : (c : Bcache) (i : ℕ) → IsValid c → Member i c.order → i < nbuf
Member-inside c i v m = ground (arith, v.ring i)

inside-Member : (c : Bcache) (i : ℕ) → IsValid c → i < nbuf → Member i c.order
inside-Member c i v h = ground (arith, v.ring i)

holds_lem :
    (dev sector : ℕ) (c : Bcache) (i : ℕ)
    → holds dev sector c i ≡ true
    → ((c.buf i).dev ≡ dev) × ((c.buf i).sector ≡ sector)
holds_lem dev sector c i h = ground (arith, h)

-- A buffer that gets a block keeps the blocks apart, if no other buffer holds it.
put_buf-IsValid :
    (c : Bcache) (i : ℕ) (b : Buf)
    → IsValid c
    → b.dev ≢ no_dev
    → ((j : ℕ) → j < nbuf → j ≢ i → (c.buf j).dev ≡ b.dev → (c.buf j).sector ≢ b.sector)
    → IsValid (put_buf i b c)
put_buf-IsValid c i b v dev apart = record {
  ring = v.ring;
  unique = λ j k hj hk n nz e s. elim (ℕ_discrete j i) [
    | yes p ↦
        let at : (put_buf i b c).buf j ≡ b = ap (update c.buf i b) p ∙ update_self c.buf i b in
        let by : (put_buf i b c).buf k ≡ c.buf k = update_ne c.buf i k b (omega arith) in
        apart k hk (omega arith) (ap (λ x. x.dev) (sym by) ∙ sym e ∙ ap (λ x. x.dev) at)
          (ap (λ x. x.sector) (sym by) ∙ sym s ∙ ap (λ x. x.sector) at)
    | no p ↦ elim (ℕ_discrete k i) [
      | yes q ↦
          let at : (put_buf i b c).buf k ≡ b = ap (update c.buf i b) q ∙ update_self c.buf i b in
          let by : (put_buf i b c).buf j ≡ c.buf j = update_ne c.buf i j b (omega arith) in
          apart j hj p (ap (λ x. x.dev) (sym by) ∙ e ∙ ap (λ x. x.dev) at)
            (ap (λ x. x.sector) (sym by) ∙ s ∙ ap (λ x. x.sector) at)
      | no q ↦
          let x = update_ne c.buf i j b (omega arith) in
          let y = update_ne c.buf i k b (omega arith) in
          v.unique j k hj hk n (λ z. nz (ap (λ x. x.dev) x ∙ z))
            (ap (λ x. x.dev) (sym x) ∙ e ∙ ap (λ x. x.dev) y)
            (ap (λ x. x.sector) (sym x) ∙ s ∙ ap (λ x. x.sector) y)
    ]
  ];
}

-- The two buffers that `bget` may return.
cached-Taken :
    (dev sector : ℕ) (c : Bcache) (i : ℕ)
    → IsValid c
    → dev ≢ no_dev
    → i < nbuf
    → holds dev sector c i ≡ true
    → (c.buf i).busy ≡ false
    → Taken dev sector c i (put_buf i (record (c.buf i) { busy = true }) c)
cached-Taken dev sector c i v real l h free =
    let (d, s) = holds_lem dev sector c i h in
    let at = update_self c.buf i (record (c.buf i) { busy = true }) in
    record {
      valid =
          put_buf-IsValid c i (record (c.buf i) { busy = true }) v (λ z. real (sym d ∙ z))
            (λ j hj n e t. v.unique i j l hj (omega arith) (λ z. real (sym d ∙ z)) (sym e) (sym t));
      inside = l;
      not_busy = free;
      busy = ap (λ b. b.busy) at;
      of_dev = ap (λ b. b.dev) at ∙ d;
      of_sector = ap (λ b. b.sector) at ∙ s;
      content = inl at;
      others = λ j n. update_ne c.buf i j _ (omega arith);
    }

recycled-Taken :
    (dev sector : ℕ) (c : Bcache) (i : ℕ)
    → IsValid c
    → dev ≢ no_dev
    → i < nbuf
    → is_clean c i ≡ true
    → ((j : ℕ) → Member j c.order → holds dev sector c j ≡ false)
    → Taken dev sector c i (
        put_buf i
          (record { dev = dev; sector = sector; busy = true; valid = false; dirty = false })
          c)
recycled-Taken dev sector c i v real l clean missing =
    let b : Buf = record {
      dev = dev;
      sector = sector;
      busy = true;
      valid = false;
      dirty = false;
    } in
    let at = update_self c.buf i b in
    record {
      valid = put_buf-IsValid c i b v real (λ j hj n e t. nobody j hj e t);
      inside = l;
      not_busy = ground (arith, clean);
      busy = ap (λ b. b.busy) at;
      of_dev = ap (λ b. b.dev) at;
      of_sector = ap (λ b. b.sector) at;
      content = inr (ground (arith, clean), ap (λ b. b.valid) at);
      others = λ j n. update_ne c.buf i j _ (omega arith);
    }
  where
    nobody : (j : ℕ) → j < nbuf → (c.buf j).dev ≡ dev → (c.buf j).sector ≢ sector
    nobody j hj e t = ground (arith, missing j (inside-Member c j v hj), e, t)

-- `bget` of a block keeps one buffer for each block: it returns a buffer for the block that nobody uses,
-- sleeps if the block's buffer is in use, and panics only if no buffer holds the block and each
-- is busy or dirty.
pub bget_lem :
    (dev sector : ℕ) (c : Bcache)
    → IsValid c
    → dev ≢ no_dev
    → BgetResult dev sector c (bget dev sector c)
unfolding bget recycle
bget_lem dev sector c v real =
    by_search (find_block dev sector c.order c) refl (find_block_lem dev sector c.order c)
      (find_clean c.order c) refl (find_clean_lem c.order c)
  where
    by_search :
        (o : Option ℕ)
        → find_block dev sector c.order c ≡ o
        → Searched (holds dev sector c) c.order o
        → (p : Option ℕ) → find_clean c.order c ≡ p
        → Searched (is_clean c) c.order p
        → BgetResult dev sector c (bget dev sector c)
    by_search (some i) e (m, h) p f s = elim (Bool-cases (c.buf i).busy) [
      | inl busy ↦ rw (e, bget, busy) (refl, (i, Member-inside c i v m, h, busy))
      | inr free ↦
          rw (e, bget, free) (cached-Taken dev sector c i v real (Member-inside c i v m) h free)
    ]
    by_search none e missing (some i) f (m, clean) =
        rw (e, bget, f) (recycled-Taken dev sector c i v real (Member-inside c i v m) clean missing)
    by_search none e missing none f dirty =
        rw (e, bget, f)
          (refl, λ i h. (missing i (inside-Member c i v h), dirty i (inside-Member c i v h)))

-- `brelse` of a busy buffer puts it at the head of the ring, free, and keeps one buffer for each block.
pub brelse_lem :
    (i : ℕ) (c : Bcache)
    → IsValid c
    → i < nbuf
    → (c.buf i).busy ≡ true
    → (c' : Bcache) × (brelse i c ≡ ok c')
      × IsValid c'
      × (c'.order ≡ i ∷ unlink i c.order)
      × ((c'.buf i).busy ≡ false)
      × ((j : ℕ) → j ≢ i → c'.buf j ≡ c.buf j)
unfolding brelse
brelse_lem i c v h busy = (
  record (put_buf i (record (c.buf i) { busy = false }) c) { order = i ∷ unlink i c.order },
  rw (busy, brelse) refl,
  record {
    ring = λ j. count-unlink i c.order (inside-Member c i v h) j ∙ v.ring j;
    unique = λ j k hj hk n nz e s.
        v.unique j k hj hk n (λ z. nz ((same j).0 ∙ z)) (sym (same j).0 ∙ e ∙ (same k).0)
          (sym (same j).1 ∙ s ∙ (same k).1);
  },
  refl,
  ap (λ b. b.busy) (update_self c.buf i _),
  λ j n. update_ne c.buf i j _ (omega arith),
)
  where
    released : ℕ → Buf
    released = update c.buf i (record (c.buf i) { busy = false })

    same : (j : ℕ) → ((released j).dev ≡ (c.buf j).dev) × ((released j).sector ≡ (c.buf j).sector)
    same j = elim (ℕ_discrete i j) [
      | yes e ↦
          let at : released j ≡ record (c.buf j) { busy = false } =
            subst (λ j. released j ≡ record (c.buf j) { busy = false }) e
              (update_self c.buf i (record (c.buf i) { busy = false })) in
          (ap (λ b. b.dev) at, ap (λ b. b.sector) at)
      | no n ↦
          let at = update_ne c.buf i j (record (c.buf i) { busy = false }) n in
          (ap (λ b. b.dev) at, ap (λ b. b.sector) at)
    ]
