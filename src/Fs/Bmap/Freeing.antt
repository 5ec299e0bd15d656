-- ===== src/Fs/Bmap/Freeing.antt =====
-- The loops that free blocks.
use sistema_operativo.Base.{
  ℕ, suc, ◌≤◌, ◌<◌, ◌≡◌, ◌≢◌, ◌⊎◌, inl, inr, refl, ◌∙◌, subst, true, false, ok, arith, Bool-cases,
}
use native.Mathlib.Decide.{ℕ_discrete}
use sistema_operativo.Fs.{Superblock, Blocks, bblock}
use sistema_operativo.Fs.Alloc.{used, bfree}
use sistema_operativo.Fs.Alloc.Laws.{bfree_lem}
use sistema_operativo.Fs.Bmap.Extend.{IsOwned}

-- `j` is one of the entries of `a` from `lo` up to `hi`, where 0 is no entry.
abbrev pub Held : (ℕ → ℕ) → (lo hi j : ℕ) → Type 0
Held a lo hi j = (k : ℕ) × (lo ≤ k) × (k < hi) × (a k ≢ 0) × (a k ≡ j)

Held-later : (a : ℕ → ℕ) (lo hi j : ℕ) → Held a (suc lo) hi j → Held a lo hi j
Held-later a lo hi j (k, l, h, nz, e) = (k, omega arith, h, nz, e)

-- The first entry, or a later one.
Held_cases :
    (a : ℕ → ℕ) (lo hi j : ℕ) → Held a lo hi j → ((a lo ≢ 0) × (a lo ≡ j)) ⊎ Held a (suc lo) hi j
Held_cases a lo hi j (k, l, h, nz, e) = elim (ℕ_discrete k lo) [
  | yes q ↦ inl (subst (λ k. (a k ≢ 0) × (a k ≡ j)) q (nz, e))
  | no q ↦ inr (k, omega arith, h, nz, e)
]

module _ (sb : Superblock) where
  -- The blocks with `P` are free, the others are as they were, and so is what no block of the bitmap holds.
  pub record Freed (P : ℕ → Type 0) (bl bl' : Blocks) : Type 0 where
    pub freed : (j : ℕ) → P j → used sb bl' j ≡ false
    pub kept : (j : ℕ) → ¬ P j → used sb bl' j ≡ used sb bl j
    pub only : (j : ℕ) → used sb bl' j ≡ true → used sb bl j ≡ true
    pub same : (c : ℕ) → ((j : ℕ) → j < sb.size → c ≢ bblock sb j) → bl' c ≡ bl c

  pub Freed-none : (P : ℕ → Type 0) (bl : Blocks) → ((j : ℕ) → ¬ P j) → Freed P bl bl
  Freed-none P bl n = record {
    freed = λ j p. absurd (n j p);
    kept = λ j p. refl;
    only = λ j u. u;
    same = λ c h. refl;
  }

  pub Freed-append :
      (P Q R : ℕ → Type 0) {bl bl' bl'' : Blocks}
      → ((j : ℕ) → R j → P j ⊎ Q j)
      → ((j : ℕ) → P j → R j)
      → ((j : ℕ) → Q j → R j)
      → Freed P bl bl'
      → Freed Q bl' bl''
      → Freed R bl bl''
  Freed-append P Q R {bl} {bl'} {bl''} split left right a b = record {
    freed = λ j r. elim (split j r) [
      | inl p ↦ elim (Bool-cases (used sb bl'' j)) [
        | inl u ↦ cc (a.freed j p, b.only j u)
        | inr u ↦ u
      ]
      | inr q ↦ b.freed j q
    ];
    kept = λ j n. b.kept j (λ q. n (right j q)) ∙ a.kept j (λ p. n (left j p));
    only = λ j u. a.only j (b.only j u);
    same = λ c h. b.same c h ∙ a.same c h;
  }

  pub Freed-IsOwned :
      (P : ℕ → Type 0) {bl bl' : Blocks} (c : ℕ)
      → Freed P bl bl'
      → ¬ P c
      → IsOwned sb bl c
      → IsOwned sb bl' c
  Freed-IsOwned P c f n o = record {
    inside = o.inside;
    in_use = f.kept c n ∙ o.in_use;
    apart = o.apart;
  }

  pub bfree-Freed :
      (bl : Blocks) (b : ℕ)
      → IsOwned sb bl b
      → (bl' : Blocks) × (bfree sb b bl ≡ ok bl') × Freed (λ j. b ≡ j) bl bl'
  bfree-Freed bl b o =
      let (bl', computes, bits, others) = bfree_lem sb bl b o.in_use in
      (
        bl',
        computes,
        record {
          freed = λ j e. ground (arith, bits j, e);
          kept = λ j n. ground (arith, bits j, n);
          only = λ j u. ground (arith, bits j, u);
          same = λ c h. others c (h b o.inside);
        },
      )

  -- The entries are blocks in use, each a different one.
  pub record CanFree (a : ℕ → ℕ) (lo hi : ℕ) (bl : Blocks) : Type 0 where
    pub owned : (k : ℕ) → lo ≤ k → k < hi → a k ≢ 0 → IsOwned sb bl (a k)
    pub distinct : (j k : ℕ) → lo ≤ j → j < hi → lo ≤ k → k < hi → j ≢ k → a j ≢ 0 → a j ≢ a k

  -- After the first entry is free, or is none, the others can be freed.
  pub CanFree-later :
      (a : ℕ → ℕ) (lo hi : ℕ) {bl bl' : Blocks} (P : ℕ → Type 0)
      → CanFree a lo hi bl
      → Freed P bl bl'
      → ((k : ℕ) → suc lo ≤ k → k < hi → a k ≢ 0 → ¬ P (a k))
      → CanFree a (suc lo) hi bl'
  CanFree-later a lo hi P c f n = record {
    owned = λ k l h nz. Freed-IsOwned P (a k) f (n k l h nz) (c.owned k (omega arith) h nz);
    distinct = λ j k a b d e ne nz. c.distinct j k (omega arith) b (omega arith) e ne nz;
  }

  pub Freed-step :
      (a : ℕ → ℕ) (lo hi : ℕ) {bl bl' bl'' : Blocks}
      → lo < hi
      → a lo ≢ 0
      → Freed (λ j. a lo ≡ j) bl bl'
      → Freed (Held a (suc lo) hi) bl' bl''
      → Freed (Held a lo hi) bl bl''
  Freed-step a lo hi h nz f g =
      Freed-append (λ j. a lo ≡ j) (Held a (suc lo) hi) (Held a lo hi)
        (λ j r. elim (Held_cases a lo hi j r) [ inl p ↦ inl p.1 | inr q ↦ inr q ])
        (λ j e. (lo, omega arith, h, nz, e)) (λ j q. Held-later a lo hi j q) f g

  pub Freed-skip :
      (a : ℕ → ℕ) (lo hi : ℕ) {bl bl' : Blocks}
      → a lo ≡ 0
      → Freed (Held a (suc lo) hi) bl bl'
      → Freed (Held a lo hi) bl bl'
  Freed-skip a lo hi {bl} z f =
      Freed-append (λ j. ⊥) (Held a (suc lo) hi) (Held a lo hi)
        (λ j r. elim (Held_cases a lo hi j r) [ inl p ↦ absurd (p.0 z) | inr q ↦ inr q ])
        (λ j e. absurd e) (λ j q. Held-later a lo hi j q) (Freed-none (λ j. ⊥) bl (λ j e. e)) f

  Freed-range :
      (a : ℕ → ℕ) (lo : ℕ) {hi hi' : ℕ} {bl bl' : Blocks}
      → hi ≡ hi'
      → Freed (Held a lo hi) bl bl'
      → Freed (Held a lo hi') bl bl'
  Freed-range a lo {hi} {hi'} {bl} {bl'} e f = subst (λ h. Freed (Held a lo h) bl bl') e f
