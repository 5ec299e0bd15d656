-- ===== src/Proc/Queue/Edit.antt =====
-- Changes of the process table that leave the queues alone.
use sistema_operativo.Base.{ℕ, ◌≤◌, ◌<◌, ◌≡◌, ◌≢◌, sym, subst, fun_ext, true, false, arith}
use sistema_operativo.Proc.State.{Process, Ptable, is_runnable, is_unused, is_placed, nproc, put}
use sistema_operativo.Proc.Queue.Links.{Holds, Holds-frame}
use sistema_operativo.Proc.Queue.View.{View, IsValid, next_of, is_level}

-- Every process keeps its state, pid, level and link.
pub record Quiet (t t' : Ptable) : Type 0 where
  pub states : (i : ℕ) → (t'.proc i).state ≡ (t.proc i).state
  pub pids : (i : ℕ) → (t'.proc i).pid ≡ (t.proc i).pid
  pub levels : (i : ℕ) → (t'.proc i).current_level ≡ (t.proc i).current_level
  pub nexts : (i : ℕ) → next_of t' i ≡ next_of t i
  pub mlfs : (l : ℕ) → t'.mlf l ≡ t.mlf l
  pub sizes : t'.size ≡ t.size
  pub nextpids : t'.nextpid ≡ t.nextpid

pub Quiet-IsValid : {t t' : Ptable} {v : View} → Quiet t t' → IsValid t v → IsValid t' v
Quiet-IsValid {t} {t'} {v} q valid = record {
  holds = λ l h.
      rw (q.mlfs l)
        (subst (λ nx. Holds nx (t.mlf l) (v l)) (sym (fun_ext q.nexts)) (valid.holds l h));
  counted = λ l p h. ground (arith, valid.counted l p h, q.states p, q.levels p);
  sized = λ l h. ground (arith, valid.sized l h, q.mlfs l);
  summed = rw (q.sizes, valid.summed);
  leveled = λ p h. ground (arith, valid.leveled p, q.states p, q.levels p);
  numbered = λ p h. ground (arith, valid.numbered p, q.states p, q.pids p);
  inside = λ p h. ground (arith, valid.inside p, q.pids p);
  fresh = λ p. ground (arith, valid.fresh p, q.pids p, q.nextpids);
  unique = λ a b h e. ground (arith, valid.unique a b, q.pids a, q.pids b);
}

-- Process `p`, in no queue, becomes `q`, in no queue, and the next pid does not fall.
pub record CanReplace (t : Ptable) (p : ℕ) (q : Process) (nextpid : ℕ) : Type 0 where
  pub was_idle : is_runnable (t.proc p).state ≡ false
  pub idle : is_runnable q.state ≡ false
  pub leveled : is_placed q.state ≡ true → is_level q.current_level ≡ true
  pub numbered : is_unused q.state ≡ false → q.pid ≢ 0
  pub inside : q.pid ≢ 0 → p < nproc
  pub fresh : q.pid < nextpid
  pub grows : t.nextpid ≤ nextpid
  pub unique : (i : ℕ) → i ≢ p → q.pid ≢ 0 → (t.proc i).pid ≢ q.pid

pub replace-IsValid :
    {t : Ptable} {v : View} (p : ℕ) (q : Process) (nextpid : ℕ)
    → CanReplace t p q nextpid
    → IsValid t v
    → IsValid (record (put t p q) { nextpid = nextpid }) v
replace-IsValid {t} {v} p q nextpid can valid = record {
  holds = λ l h.
      Holds-frame (next_of t) (next_of (put t p q)) p (t.mlf l) (v l) (λ i n. ground arith)
        (ground (arith, valid.counted l p h, can.was_idle)) (valid.holds l h);
  counted = λ l i h. ground (arith, valid.counted l i h, valid.counted l p h, can);
  sized = valid.sized;
  summed = valid.summed;
  leveled = λ i h. ground (arith, valid.leveled i, can.leveled);
  numbered = λ i h. ground (arith, valid.numbered i, can.numbered);
  inside = λ i h. ground (arith, valid.inside i, can.inside);
  fresh = λ i. ground (arith, valid.fresh i, can.fresh, can.grows);
  unique = λ a b h e. ground (arith, valid.unique a b, can.unique a, can.unique b);
}
