-- ===== src/Proc/Sched/Switch.antt =====
-- `yield`, `sleep` and the scheduler's choice of the next process.
use sistema_operativo.Base.{
  ℕ, zero, suc, ◌+◌, ◌≤◌, ◌<◌, ◌≡◌, ◌≢◌, refl, sym, ap, subst, ◌∙◌, min, true, false, none, some,
  List, [], ◌∷◌, arith, ok, halt, out_of_range, update, ◌>>=◌,
}
use native.Mathlib.Decide.{ℕ_discrete}
use sistema_operativo.Base.Int.{ℤ, pos, negsuc}
use sistema_operativo.Proc.State.{Process, Ptable, sleeping, running, is_running, mlf_levels, put}
use sistema_operativo.Proc.Queue.{down, make_runnable, make_running, set_priority}
use sistema_operativo.Proc.Queue.Links.{Holds}
use sistema_operativo.Proc.Queue.View.{View, IsValid, is_level, next_of}
use sistema_operativo.Proc.Queue.Enqueue.{CanJoin, Joined, joined, make_runnable_refines}
use sistema_operativo.Proc.Queue.Dequeue.{make_running_refines, head-queued}
use sistema_operativo.Proc.Queue.Edit.{Quiet, Quiet-IsValid, replace-IsValid}
use sistema_operativo.Proc.Sched.{yield, sleep, dispatch, sweep}

down_lem :
    (p : Process) (l : ℕ) → p.current_level ≡ pos l → l < mlf_levels → down p ≡ pos (min (l + 1) 3)
unfolding down
down_lem p l e h = ground (arith, e)

running-CanJoin : (t : Ptable) (p : ℕ) → is_running (t.proc p).state ≡ true → CanJoin t p
running-CanJoin t p h = record { idle = ground arith; live = ground arith }

-- `yield` of the running process at level `l` succeeds: the process goes to the end of the level
-- below, or of the lowest level where it was there. The other processes keep their state and level.
pub yield_refines :
    {t : Ptable} {v : View} (p l : ℕ)
    → IsValid t v
    → is_running (t.proc p).state ≡ true
    → (t.proc p).current_level ≡ pos l
    → (t' : Ptable) × (yield p t ≡ ok t')
      × IsValid t' (joined v p (min (l + 1) 3))
      × Joined t t' p (min (l + 1) 3)
unfolding yield
yield_refines {t} p l valid run e =
    let (t', made, valid', j) =
      make_runnable_refines p (min (l + 1) 3) valid (running-CanJoin t p run) (omega arith) in
    (t', ap (λ z. make_runnable p z t) (down_lem (t.proc p) l e (in_levels l e)) ∙ made, valid', j)
  where
    in_levels : (l : ℕ) → (t.proc p).current_level ≡ pos l → l < mlf_levels
    in_levels l e = ground (arith, valid.leveled p, e)

-- A process that set its own priority to 4 or more, or to -2 or less, makes its next `yield` write
-- outside `ptable.mlf`.
pub yield-set_priority :
    (p : ℕ) (param : ℤ) (t : Ptable)
    → is_level param ≡ false
    → param ≢ negsuc 0
    → yield p (set_priority p param t) ≡ halt out_of_range
unfolding yield set_priority down make_runnable
yield-set_priority p (pos n) t h m = ground arith
yield-set_priority p (negsuc zero) t h m = absurd (m refl)
yield-set_priority p (negsuc (suc n)) t h m = ground arith

pub sleep-IsValid :
    {t : Ptable} {v : View} (p chan : ℕ)
    → IsValid t v
    → is_running (t.proc p).state ≡ true
    → IsValid (sleep p chan t) v
unfolding sleep
sleep-IsValid {t} p chan valid run =
    replace-IsValid p (record (t.proc p) { chan = chan; state = sleeping }) t.nextpid
      (record {
        was_idle = ground arith;
        idle = refl;
        leveled = λ h. ground (arith, valid.leveled p);
        numbered = λ h. ground (arith, valid.numbered p);
        inside = valid.inside p;
        fresh = valid.fresh p;
        grows = omega arith;
        unique = λ i n h e. n (sym (valid.unique p i h (sym e)));
      })
      valid

-- What `dispatch` of `p`, the first process of level `l`, leaves.
pub record Ran (t : Ptable) (v : View) (l p : ℕ) (rest : List ℕ) (t' : Ptable) : Type 0 where
  pub valid' : IsValid t' (update v l rest)
  pub state : (t'.proc p).state ≡ running
  pub quantum : (t'.proc p).quantum ≡ 0
  pub states : (i : ℕ) → i ≢ p → (t'.proc i).state ≡ (t.proc i).state
  pub levels : (i : ℕ) → (t'.proc i).current_level ≡ (t.proc i).current_level

module _ {t : Ptable} {v : View} (l p : ℕ) (rest : List ℕ) (valid : IsValid t v)
    (h : l < mlf_levels) (e : v l ≡ p ∷ rest) (mapped : (t.proc p).pgdir ≢ 0) where
  dispatch-make_running :
      (t1 : Ptable)
      → make_running p t ≡ ok t1
      → dispatch p t ≡ ok (put t1 p (record (t1.proc p) { quantum = 0 }))
  unfolding dispatch
  dispatch-make_running t1 made = ground (arith, head-queued p l rest valid h e)

  Quiet-quantum : (t1 : Ptable) → Quiet t1 (put t1 p (record (t1.proc p) { quantum = 0 }))
  Quiet-quantum t1 = record {
    states = λ i. ground arith;
    pids = λ i. ground arith;
    levels = λ i. ground arith;
    nexts = λ i. ground arith;
    mlfs = λ k. refl;
    sizes = refl;
    nextpids = refl;
  }

  pub dispatch_refines : (t' : Ptable) × (dispatch p t ≡ ok t') × Ran t v l p rest t'
  dispatch_refines =
      let (t1, made, valid1, left) = make_running_refines p l rest valid h e in
      (
        put t1 p (record (t1.proc p) { quantum = 0 }),
        dispatch-make_running t1 made,
        record {
          valid' = Quiet-IsValid (Quiet-quantum t1) valid1;
          state = (Quiet-quantum t1).states p ∙ left.state_self;
          quantum = ground arith;
          states = λ i n. (Quiet-quantum t1).states i ∙ left.state_ne i n;
          levels = λ i. (Quiet-quantum t1).levels i ∙ left.levels i;
        },
      )

  pub first-head : (t.mlf l).first ≡ some p
  first-head = (subst (λ ys. Holds (next_of t) (t.mlf l) ys) e (valid.holds l h)).0

pub first-empty :
    {t : Ptable} {v : View} (l : ℕ)
    → IsValid t v
    → l < mlf_levels
    → v l ≡ []
    → (t.mlf l).first ≡ none
first-empty {t} l valid h e = subst (λ ys. Holds (next_of t) (t.mlf l) ys) e (valid.holds l h)

pub sweep-first :
    (n l p : ℕ) (t : Ptable)
    → (t.mlf l).first ≡ some p
    → sweep (suc n) l t ≡ (dispatch p t >>= λ t'. ok (some (l, p), t'))
unfolding sweep
sweep-first n l p t e = rw (e, sweep)

pub sweep-skip :
    (n l : ℕ) (t : Ptable) → (t.mlf l).first ≡ none → sweep (suc n) l t ≡ sweep n (suc l) t
unfolding sweep
sweep-skip n l t e = rw (e, sweep)

-- A sweep from level `indice` on chooses the oldest process of the first level that is not empty,
-- takes it off its queue and makes it run with quantum 0; all else keeps its state and level. It
-- does not panic, if the process has a page table.
pub sweep_picks :
    {t : Ptable} {v : View} (n indice l p : ℕ) (rest : List ℕ)
    → IsValid t v
    → n + indice ≡ mlf_levels
    → indice ≤ l
    → l < mlf_levels
    → ((k : ℕ) → indice ≤ k → k < l → v k ≡ [])
    → v l ≡ p ∷ rest
    → (t.proc p).pgdir ≢ 0
    → (t' : Ptable) × (sweep n indice t ≡ ok (some (l, p), t')) × Ran t v l p rest t'
sweep_picks zero indice l p rest valid all low high empty e mapped = absurd (omega arith)
sweep_picks {t} {v} (suc n) indice l p rest valid all low high empty e mapped =
    elim (ℕ_discrete indice l) [
      | yes here ↦
          let (t', made, ran) = dispatch_refines l p rest valid high e mapped in
          (
            t',
            rw here (sweep-first n l p t (first-head l p rest valid high e mapped) ∙ rw made),
            ran,
          )
      | no other ↦
          let (t', made, ran) =
            sweep_picks {t = t} {v = v} n (suc indice) l p rest valid (omega arith) (omega arith)
              high (λ k a b. empty k (omega arith) b) e mapped in
          (
            t',
            sweep-skip n indice t (
                  first-empty indice valid (omega arith) (empty indice (omega arith) (omega arith)))
                ∙ made,
            ran,
          )
    ]

-- A sweep over empty levels ends and changes nothing.
pub sweep_idle :
    {t : Ptable} {v : View} (n indice : ℕ)
    → IsValid t v
    → n + indice ≡ mlf_levels
    → ((k : ℕ) → indice ≤ k → k < mlf_levels → v k ≡ [])
    → sweep n indice t ≡ ok (none, t)
unfolding sweep
sweep_idle zero indice valid all empty = refl
sweep_idle {t} {v} (suc n) indice valid all empty =
    sweep-skip n indice t
      (first-empty indice valid (omega arith) (empty indice (omega arith) (omega arith)))
    ∙ sweep_idle {t = t} {v = v} n (suc indice) valid (omega arith)
        (λ k a b. empty k (omega arith) b)
