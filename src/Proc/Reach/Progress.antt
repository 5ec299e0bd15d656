-- ===== src/Proc/Reach/Progress.antt =====
-- The scheduler finds a process whenever one is runnable.
use sistema_operativo.Base.{
  ℕ, zero, suc, ◌+◌, ◌≤◌, ◌<◌, ◌≡◌, ◌≢◌, refl, subst, true, some, List, [], ◌∷◌, arith, ok,
  count-nil,
}
use native.Mathlib.Decide.{ℕ_discrete}
use sistema_operativo.Base.Int.{pos}
use sistema_operativo.Proc.State.{Ptable, mlf_levels, is_runnable}
use sistema_operativo.Proc.Queue.Dequeue.{head-queued}
use sistema_operativo.Proc.Queue.View.{View, IsValid}
use sistema_operativo.Proc.Sched.{sweep}
use sistema_operativo.Proc.Sched.Switch.{sweep_picks, Ran}

-- The first level from `indice` on that holds a process.
record FirstLevel (v : View) (indice m : ℕ) : Type 0 where
  level : ℕ
  head : ℕ
  rest : List ℕ
  low : indice ≤ level
  high : level ≤ m
  before : (k : ℕ) → indice ≤ k → k < level → v k ≡ []
  holds : v level ≡ head ∷ rest

first_level :
    (v : View) (n indice m : ℕ) → indice ≤ m → m < indice + n → v m ≢ [] → FirstLevel v indice m
first_level v zero indice m low high full = absurd (omega arith)
first_level v (suc n) indice m low high full =
    by_list (v indice) refl (first_level v n (suc indice) m)
  where
    by_list :
        (ys : List ℕ)
        → v indice ≡ ys
        → (suc indice ≤ m → m < suc indice + n → v m ≢ [] → FirstLevel v (suc indice) m)
        → FirstLevel v indice m
    by_list (q ∷ rest) e later = record {
      level = indice;
      head = q;
      rest = rest;
      low = omega arith;
      high = low;
      before = λ k a b. absurd (omega arith);
      holds = e;
    }
    by_list [] e later =
        let f = later (past e) (omega arith) full in
        record {
          level = f.level;
          head = f.head;
          rest = f.rest;
          low = omega (arith, f.low);
          high = f.high;
          before = λ k a b. elim (ℕ_discrete indice k) [
            | yes same ↦ subst (λ j. v j ≡ []) same e
            | no other ↦ f.before k (omega arith) b
          ];
          holds = f.holds;
        }
      where
        past : v indice ≡ [] → suc indice ≤ m
        past empty = elim (ℕ_discrete indice m) [
          | yes same ↦ absurd (full (subst (λ j. v j ≡ []) same empty))
          | no other ↦ omega arith
        ]

-- If a process is runnable at level `m`, and all runnable processes have page tables, a sweep from
-- level 0 does not end idle and does not panic: it runs a process of a level that is at most `m`.
pub sweep_progress :
    {t : Ptable} {v : View} (p m : ℕ)
    → IsValid t v
    → is_runnable (t.proc p).state ≡ true
    → (t.proc p).current_level ≡ pos m
    → ((q : ℕ) → is_runnable (t.proc q).state ≡ true → (t.proc q).pgdir ≢ 0)
    → (l : ℕ) × (q : ℕ) × (rest : List ℕ) × (t' : Ptable) × (l ≤ m)
      × (sweep mlf_levels 0 t ≡ ok (some (l, q), t'))
      × Ran t v l q rest t'
sweep_progress {t} {v} p m valid run at mapped =
    let f = first_level v mlf_levels 0 m (omega arith) in_levels full in
    let below : f.level < mlf_levels = omega (arith, f.high, in_levels) in
    let (t', made, ran) =
      sweep_picks mlf_levels 0 f.level f.head f.rest valid refl (omega arith) below f.before f.holds
        (mapped f.head (head-queued f.head f.level f.rest valid below f.holds).0) in
    (f.level, f.head, f.rest, t', f.high, made, ran)
  where
    in_levels : m < mlf_levels
    in_levels = ground (arith, valid.leveled p)

    full : v m ≢ []
    full empty = ground (arith, valid.counted m p in_levels, count-nil p)
