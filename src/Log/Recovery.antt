-- ===== src/Log/Recovery.antt =====
-- Recovery at boot, over whatever disk a crash leaves.
use sistema_operativo.Base.{
  ℕ, zero, suc, ◌+◌, ◌≤◌, ◌<◌, ◌≡◌, ◌≢◌, refl, ◌∙◌, subst, false, update, arith, take,
}
use native.Mathlib.Decide.{ℕ_discrete}
use sistema_operativo.Log.Commit.{Disk, replay, in_log, Transaction, home_writes, IsHeader}

-- The homes have their new data, and all else outside the log is as it was.
pub record AllNew (t : Transaction) (old d : Disk) : Type 0 where
  pub homes : (i : ℕ) → i < t.n → d (t.home i) ≡ t.new i
  pub kept : (b : ℕ) → in_log t.start b ≡ false → ((i : ℕ) → i < t.n → b ≢ t.home i) → d b ≡ old b

-- Nothing outside the log has changed.
abbrev pub AllOld : Transaction → Disk → Disk → Type 0
AllOld t old d = (b : ℕ) → in_log t.start b ≡ false → d b ≡ old b

-- A disk with a committed log: what is not at home yet can be installed again.
pub record Ready (t : Transaction) (old d : Disk) : Type 0 where
  pub header : IsHeader t (d t.start)
  pub blocks : (i : ℕ) → i < t.n → d (t.start + i + 1) ≡ t.new i
  pub kept : (b : ℕ) → in_log t.start b ≡ false → ((i : ℕ) → i < t.n → b ≢ t.home i) → d b ≡ old b

replay-kept :
    (t : Transaction) (k tail : ℕ) (d : Disk) (b : ℕ)
    → k + tail ≡ t.n
    → ((i : ℕ) → i < t.n → b ≢ t.home i)
    → replay (home_writes t k tail) d b ≡ d b
replay-kept t zero tail d b e other = refl
replay-kept t (suc k) tail d b e other =
    replay-kept t k (suc tail) (update d (t.home tail) (t.new tail)) b (omega arith) other
    ∙ ground (arith, other tail)

-- A home that the writes still come to gets its data; one that they have passed keeps it.
replay-passed :
    (t : Transaction) (k tail i : ℕ) (d : Disk)
    → k + tail ≡ t.n
    → i < tail
    → replay (home_writes t k tail) d (t.home i) ≡ d (t.home i)
replay-passed t zero tail i d e h = refl
replay-passed t (suc k) tail i d e h =
    replay-passed t k (suc tail) i (update d (t.home tail) (t.new tail)) (omega arith) (omega arith)
    ∙ ground (arith, t.distinct tail i)

replay-new :
    (t : Transaction) (k tail i : ℕ) (d : Disk)
    → k + tail ≡ t.n
    → tail ≤ i
    → i < t.n
    → replay (home_writes t k tail) d (t.home i) ≡ t.new i
replay-new t zero tail i d e low high = absurd (omega arith)
replay-new t (suc k) tail i d e low high = elim (ℕ_discrete tail i) [
  | yes same ↦
      subst
        (λ j.
          replay (home_writes t k (suc tail)) (update d (t.home tail) (t.new tail)) (t.home j)
          ≡ t.new j)
        same
        (replay-passed t k (suc tail) tail (update d (t.home tail) (t.new tail)) (omega arith)
            (omega arith)
          ∙ ground arith)
  | no other ↦
      replay-new t k (suc tail) i (update d (t.home tail) (t.new tail)) (omega arith) (omega arith)
        high
]

-- After the writes to the homes a ready disk has all its new data.
pub replay-AllNew :
    (t : Transaction) (old d : Disk) → Ready t old d → AllNew t old (replay (home_writes t t.n 0) d)
replay-AllNew t old d r = record {
  homes = λ i h. replay-new t t.n 0 i d (omega arith) (omega arith) h;
  kept = λ b out other. replay-kept t t.n 0 d b (omega arith) other ∙ r.kept b out other;
}

-- Any part of the writes to the homes leaves a ready disk ready.
pub take-Ready :
    (t : Transaction) (old d : Disk) (j k tail : ℕ)
    → k + tail ≡ t.n
    → Ready t old d
    → Ready t old (replay (take j (home_writes t k tail)) d)
take-Ready t old d zero k tail e r = r
take-Ready t old d (suc j) zero tail e r = r
take-Ready t old d (suc j) (suc k) tail e r =
    take-Ready t old (update d (t.home tail) (t.new tail)) j k (suc tail) (omega arith) (record {
      header = subst (IsHeader t) (ground (arith, away)) r.header;
      blocks = λ i h. ground (arith, r.blocks i h, away, t.small);
      kept = λ b out other. ground (arith, r.kept b out other, other tail);
    })
  where
    away : in_log t.start (t.home tail) ≡ false
    away = t.outside tail (omega arith)
