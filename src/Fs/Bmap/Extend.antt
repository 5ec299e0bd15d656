-- ===== src/Fs/Bmap/Extend.antt =====
-- What an allocation leaves of the other blocks.
use sistema_operativo.Base.{ℕ, ◌<◌, ◌≡◌, ◌≢◌, refl, sym, ap, ◌∙◌, true, false, arith}
use native.Mathlib.Decide.{ℕ_discrete}
use sistema_operativo.Fs.{Superblock, Blocks, bblock}
use sistema_operativo.Fs.Alloc.{used}
use sistema_operativo.Fs.Alloc.Laws.{IsSound, Allocated, Allocated-IsSound}

module _ (sb : Superblock) where
  -- A block that the bitmap has in use, and that is no part of the bitmap.
  pub record IsOwned (bl : Blocks) (c : ℕ) : Type 0 where
    pub inside : c < sb.size
    pub in_use : used sb bl c ≡ true
    pub apart : (j : ℕ) → j < sb.size → c ≢ bblock sb j

  -- Two free blocks: what one call of `bmap` may need.
  pub record HasRoom (bl : Blocks) : Type 0 where
    pub one : ℕ
    pub two : ℕ
    pub differ : one ≢ two
    pub one_inside : one < sb.size
    pub two_inside : two < sb.size
    pub one_free : used sb bl one ≡ false
    pub two_free : used sb bl two ≡ false

  pub Allocated-nonzero : (bl bl' : Blocks) (b : ℕ) → IsSound sb bl → Allocated sb bl b bl' → b ≢ 0
  Allocated-nonzero bl bl' b s a e = cc (sym a.was_free ∙ ap (used sb bl) e ∙ s.boot)

  pub Allocated-IsOwned :
      (bl bl' : Blocks) (b : ℕ) → IsSound sb bl → Allocated sb bl b bl' → IsOwned bl' b
  Allocated-IsOwned bl bl' b s a = record {
    inside = a.inside;
    in_use = ground (arith, a.bits b a.inside);
    apart = λ j h e. cc (sym a.was_free ∙ ap (used sb bl) e ∙ s.bitmap j h);
  }

  -- An owned block keeps its bytes, and stays owned.
  pub Allocated-keeps :
      (bl bl' : Blocks) (b c : ℕ) → IsOwned bl c → Allocated sb bl b bl' → bl' c ≡ bl c
  Allocated-keeps bl bl' b c o a =
      a.others c (λ e. cc (sym a.was_free ∙ ap (used sb bl) (sym e) ∙ o.in_use))
        (o.apart b a.inside)

  -- What was in use stays in use, and keeps its bytes.
  pub record Extends (bl bl' : Blocks) : Type 0 where
    pub sound : IsSound sb bl'
    pub owned : (c : ℕ) → IsOwned bl c → IsOwned bl' c
    pub keeps : (c : ℕ) → IsOwned bl c → bl' c ≡ bl c

  pub Extends-refl : (bl : Blocks) → IsSound sb bl → Extends bl bl
  Extends-refl bl s = record { sound = s; owned = λ c o. o; keeps = λ c o. refl }

  pub Allocated-Extends :
      (bl bl' : Blocks) (b : ℕ) → IsSound sb bl → Allocated sb bl b bl' → Extends bl bl'
  Allocated-Extends bl bl' b s a = record {
    sound = Allocated-IsSound sb bl bl' b s a;
    owned = λ c o. record {
      inside = o.inside;
      in_use = ground (arith, a.bits c o.inside, o.in_use);
      apart = o.apart;
    };
    keeps = λ c o. Allocated-keeps bl bl' b c o a;
  }

  abbrev pub Free : Blocks → Type 0
  Free bl = (k : ℕ) × (k < sb.size) × (used sb bl k ≡ false)

  pub Allocated-Free : (bl bl' : Blocks) (b : ℕ) → HasRoom bl → Allocated sb bl b bl' → Free bl'
  Allocated-Free bl bl' b r a = elim (ℕ_discrete r.one b) [
    | yes e ↦ (r.two, r.two_inside, ground (arith, a.bits r.two r.two_inside, r.two_free, r.differ))
    | no e ↦ (r.one, r.one_inside, ground (arith, a.bits r.one r.one_inside, r.one_free))
  ]
