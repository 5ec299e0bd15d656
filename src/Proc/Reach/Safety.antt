-- ===== src/Proc/Reach/Safety.antt =====
-- Every step keeps the process table well formed.
use sistema_operativo.Base.{ℕ, ◌≡◌, refl, sym, ◌∙◌, subst, true, List, [], arith, Outcome, ok}
use sistema_operativo.Base.Int.{ℤ, pos}
use sistema_operativo.Proc.State.{Process, Ptable, put, unused, embryo, is_running, is_placed}
use sistema_operativo.Proc.Queue.{make_runnable, set_priority}
use sistema_operativo.Proc.Queue.Enqueue.{CanJoin, make_runnable_refines}
use sistema_operativo.Proc.Queue.Edit.{replace-IsValid, Quiet-IsValid}
use sistema_operativo.Proc.Queue.View.{View, IsValid, is_level, boot-IsValid, level_of}
use sistema_operativo.Proc.Sched.{yield, tidy_up, first_process, inherit, abandon, commit_image}
use sistema_operativo.Proc.Sched.Wakeup.{wakeup1_refines}
use sistema_operativo.Proc.Sched.Create.{no_page-IsValid}
use sistema_operativo.Proc.Sched.Switch.{yield_refines, sleep-IsValid}
use sistema_operativo.Proc.Reach.{Step, Reach}
use sistema_operativo.Proc.Reach.Keep.{
  Good, ok-injective, kill-Good, allocproc-Good, wait-Good, exit-Good, sweep-Good,
}

-- A computed table that is valid, and the table that a step names, are one.
same_table :
    {t1 t2 : Ptable} {v : View} {o : Outcome Ptable}
    → o ≡ ok t1
    → o ≡ ok t2
    → IsValid t1 v
    → IsValid t2 v
same_table {v} e f valid = subst (λ t. IsValid t v) (ok-injective (sym e ∙ f)) valid

-- Process `p` keeps what the queues are made of.
record Alike (p q : Process) : Type 0 where
  state : q.state ≡ p.state
  pid : q.pid ≡ p.pid
  level : q.current_level ≡ p.current_level
  next : q.next ≡ p.next

put-Good : (p : ℕ) (q : Process) {t : Ptable} → Alike (t.proc p) q → Good t → Good (put t p q)
put-Good p q {t} same (v, valid) = (
  v,
  Quiet-IsValid
      (record {
        states = λ i. ground (arith, same.state);
        pids = λ i. ground (arith, same.pid);
        levels = λ i. ground (arith, same.level);
        nexts = λ i. ground (arith, same.next);
        mlfs = λ l. refl;
        sizes = refl;
        nextpids = refl;
      })
      valid,
)

first_process-Good : (p pgdir : ℕ) {t : Ptable} → Good t → Good (first_process p pgdir t)
unfolding first_process
first_process-Good p pgdir =
    put-Good p _ (record { state = refl; pid = refl; level = refl; next = refl })

inherit-Good : (p np pgdir : ℕ) {t : Ptable} → Good t → Good (inherit p np pgdir t)
unfolding inherit
inherit-Good p np pgdir =
    put-Good np _ (record { state = refl; pid = refl; level = refl; next = refl })

commit_image-Good :
    (p : ℕ) (last : List ℕ) (pgdir sz : ℕ) {t : Ptable}
    → Good t
    → Good (commit_image p last pgdir sz t)
unfolding commit_image
commit_image-Good p last pgdir sz =
    put-Good p _ (record { state = refl; pid = refl; level = refl; next = refl })

-- A process that is given up keeps its pid until its slot is allocated again.
abandon-Good : (np : ℕ) {t : Ptable} → Good t → (t.proc np).state ≡ embryo → Good (abandon np t)
unfolding abandon
abandon-Good np {t} (v, valid) new = (
  v,
  replace-IsValid np (record (t.proc np) { pgdir = 0; kstack = 0; state = unused }) t.nextpid
      (record {
        was_idle = ground arith;
        idle = refl;
        leveled = λ h. absurd (ground (arith, h));
        numbered = λ h. absurd (ground (arith, h));
        inside = valid.inside np;
        fresh = valid.fresh np;
        grows = omega arith;
        unique = λ i n h e. n (sym (valid.unique np i h (sym e)));
      })
      valid,
)

tidy_up-Good : (p : ℕ) {t : Ptable} → Good t → Good (tidy_up p t)
unfolding tidy_up
tidy_up-Good p = put-Good p _ (record { state = refl; pid = refl; level = refl; next = refl })

set_priority-Good :
    (p : ℕ) (param : ℤ) {t : Ptable}
    → Good t
    → is_running (t.proc p).state ≡ true
    → is_level param ≡ true
    → Good (set_priority p param t)
unfolding set_priority
set_priority-Good p param {t} (v, valid) run level = (
  v,
  replace-IsValid p (record (t.proc p) { current_level = param }) t.nextpid
      (record {
        was_idle = ground arith;
        idle = ground arith;
        leveled = λ h. level;
        numbered = valid.numbered p;
        inside = valid.inside p;
        fresh = valid.fresh p;
        grows = omega arith;
        unique = λ i n h e. n (sym (valid.unique p i h (sym e)));
      })
      valid,
)

yield-Good :
    (p : ℕ) {t t' : Ptable}
    → Good t
    → is_running (t.proc p).state ≡ true
    → yield p t ≡ ok t'
    → Good t'
yield-Good p {t} (v, valid) run e =
    let (l, at, h) = level_of (t.proc p).current_level (valid.leveled p (placed run)) in
    let (t1, made, valid', j) = yield_refines p l valid run at in (_, same_table made e valid')
  where
    placed : is_running (t.proc p).state ≡ true → is_placed (t.proc p).state ≡ true
    placed run = ground arith

start-Good :
    (p : ℕ) {t t' : Ptable}
    → Good t
    → (t.proc p).state ≡ embryo
    → make_runnable p (pos 0) t ≡ ok t'
    → Good t'
start-Good p {t} (v, valid) new e =
    let (t1, made, valid', j) = make_runnable_refines p 0 valid can (omega arith) in
    (_, same_table made e valid')
  where
    can : CanJoin t p
    can = record { idle = ground arith; live = ground arith }

-- Every locked section of a handler leads from a well-formed table to a well-formed table.
pub Step-Good : (addr : ℕ → ℕ) (init : ℕ) {t t' : Ptable} → Step addr init t t' → Good t → Good t'
Step-Good addr init (Step.create page p t' e) good = allocproc-Good page p good e
Step-Good addr init Step.no_page (v, valid) = (v, no_page-IsValid valid)
Step-Good addr init (Step.first p pgdir new h) good = first_process-Good p pgdir good
Step-Good addr init (Step.copy p np pgdir run new h) good = inherit-Good p np pgdir good
Step-Good addr init (Step.give_up np new) good = abandon-Good np good new
Step-Good addr init (Step.load p last pgdir sz run h) good = commit_image-Good p last pgdir sz good
Step-Good addr init (Step.start p t' new h e) good = start-Good p good new e
Step-Good addr init (Step.run n indice l p t' all e) good = sweep-Good n indice l p good all e
Step-Good addr init (Step.preempt p t' run e) good = yield-Good p good run e
Step-Good addr init (Step.block p chan run) (v, valid) = (v, sleep-IsValid p chan valid run)
Step-Good addr init (Step.tidy p) good = tidy_up-Good p good
Step-Good addr init (Step.wake chan t' e) (v, valid) =
    let (t1, made, valid', rest) = wakeup1_refines chan valid in (_, same_table made e valid')
Step-Good addr init (Step.signal pid found t' e) good = kill-Good pid found good e
Step-Good addr init (Step.finish p t' run e) good = exit-Good addr init p good run e
Step-Good addr init (Step.collect p r t' run e) good =
    subst (λ w. Good w.1) e (wait-Good addr p good run)
Step-Good addr init (Step.prioritise p param run level) good =
    set_priority-Good p param good run level

-- Whatever the handlers do after boot, in whatever order (processes made by `userinit` and `fork`, or
-- given up by `fork`, loaded by `exec`, run, preempted, put to sleep, woken, killed, dead, collected), with
-- `set_priority` only to a level and of a running process: the table is well formed for some view. So every runnable process stands in the queue of its level,
-- once, and in no other.
pub Reach-Good : (addr : ℕ → ℕ) (init : ℕ) {t : Ptable} → Reach addr init t → Good t
Reach-Good addr init Reach.start = ((λ _. []), boot-IsValid)
Reach-Good addr init (Reach.later r s) = Step-Good addr init s (Reach-Good addr init r)
