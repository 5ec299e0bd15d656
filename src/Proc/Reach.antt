-- ===== src/Proc/Reach.antt =====
-- The process table under any sequence of the handlers, from boot on.
pub mod Keep
pub mod Safety
pub mod Progress
use sistema_operativo.Base.{
  ℕ, zero, suc, ◌+◌, ◌≤◌, ◌<◌, ◌≡◌, ◌≢◌, refl, sym, ap, ◌∙◌, subst, Bool, true, false, Option, none,
  some, List, [], ◌∷◌, inl, inr, arith, Bool-cases, Option-cases, Outcome, ok, halt, ◌>>=◌,
}
use sistema_operativo.Base.Int.{ℤ, pos}
use sistema_operativo.Proc.State.{Process, Ptable, embryo, mlf_levels, is_running, boot}
use sistema_operativo.Proc.Queue.{make_runnable, set_priority}
use sistema_operativo.Proc.Queue.View.{is_level}
use sistema_operativo.Proc.Sched.{
  allocproc, first_process, inherit, abandon, commit_image, wakeup1, kill, yield, sleep, tidy_up,
  exit, wait, Waited, sweep,
}

-- One locked section of a handler, or what `userinit`, `fork` and `exec` do to the table without it. `addr` gives the address of a slot, `init` is the slot
-- of `initproc`. `start` is the end of `userinit` and of `fork`.
pub data Step (addr : ℕ → ℕ) (init : ℕ) (t : Ptable) : Ptable → Type 0 where
  create : (page p : ℕ) (t' : Ptable) → allocproc (some page) t ≡ (some p, t') → Step addr init t t'
  no_page : Step addr init t (allocproc none t).1
  first :
      (p pgdir : ℕ)
      → (t.proc p).state ≡ embryo
      → pgdir ≢ 0
      → Step addr init t (first_process p pgdir t)
  copy :
      (p np pgdir : ℕ)
      → is_running (t.proc p).state ≡ true
      → (t.proc np).state ≡ embryo
      → pgdir ≢ 0
      → Step addr init t (inherit p np pgdir t)
  give_up : (np : ℕ) → (t.proc np).state ≡ embryo → Step addr init t (abandon np t)
  load :
      (p : ℕ) (last : List ℕ) (pgdir sz : ℕ)
      → is_running (t.proc p).state ≡ true
      → pgdir ≢ 0
      → Step addr init t (commit_image p last pgdir sz t)
  start :
      (p : ℕ) (t' : Ptable)
      → (t.proc p).state ≡ embryo
      → (t.proc p).pgdir ≢ 0
      → make_runnable p (pos 0) t ≡ ok t'
      → Step addr init t t'
  run :
      (n indice l p : ℕ) (t' : Ptable)
      → n + indice ≡ mlf_levels
      → sweep n indice t ≡ ok (some (l, p), t')
      → Step addr init t t'
  preempt :
      (p : ℕ) (t' : Ptable)
      → is_running (t.proc p).state ≡ true
      → yield p t ≡ ok t'
      → Step addr init t t'
  block : (p chan : ℕ) → is_running (t.proc p).state ≡ true → Step addr init t (sleep p chan t)
  tidy : (p : ℕ) → Step addr init t (tidy_up p t)
  wake : (chan : ℕ) (t' : Ptable) → wakeup1 chan t ≡ ok t' → Step addr init t t'
  signal :
      (pid : ℕ) (found : Bool) (t' : Ptable) → kill pid t ≡ ok (found, t') → Step addr init t t'
  finish :
      (p : ℕ) (t' : Ptable)
      → is_running (t.proc p).state ≡ true
      → exit addr init p t ≡ ok t'
      → Step addr init t t'
  collect :
      (p : ℕ) (r : Waited) (t' : Ptable)
      → is_running (t.proc p).state ≡ true
      → wait addr p t ≡ (r, t')
      → Step addr init t t'
  prioritise :
      (p : ℕ) (param : ℤ)
      → is_running (t.proc p).state ≡ true
      → is_level param ≡ true
      → Step addr init t (set_priority p param t)

pub data Reach (addr : ℕ → ℕ) (init : ℕ) : Ptable → Type 0 where
  start : Reach addr init boot
  later : {t t' : Ptable} → Reach addr init t → Step addr init t t' → Reach addr init t'
