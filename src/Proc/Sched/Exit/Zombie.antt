-- ===== src/Proc/Sched/Exit/Zombie.antt =====
-- `exit` as a whole: the zombie, its parent and its children.
use sistema_operativo.Base.{ℕ, ◌<◌, ◌≡◌, ◌≢◌, ◌⊎◌, refl, sym, true, false, ◌&&◌, some, arith, ok}
use sistema_operativo.Proc.State.{Ptable, zombie, runnable, is_running, is_sleeping, nproc, put}
use sistema_operativo.Proc.Queue.View.{View, IsValid}
use sistema_operativo.Proc.Queue.Edit.{CanReplace, replace-IsValid}
use sistema_operativo.Proc.Sched.{is_child, parent_chan, pass_from, exit, wakeup1}
use sistema_operativo.Proc.Sched.Wakeup.{Woke, sleeps_on, wakeup1_refines}
use sistema_operativo.Proc.Sched.Exit.{Nudged, pass_from_lem, within}

module _ (addr : ℕ → ℕ) (init p : ℕ) where
  -- What `exit` of `p` leaves: a zombie, children of `init`, and a parent that is awake.
  pub record Exited (t t' : Ptable) : Type 0 where
    pub view : View
    pub valid' : IsValid t' view
    pub state : (t'.proc p).state ≡ zombie
    pub children :
        (i : ℕ) → i < nproc → is_child (t.proc i) p ≡ true → (t'.proc i).parent ≡ some init
    pub parents : (i : ℕ) → is_child (t.proc i) p ≡ false → (t'.proc i).parent ≡ (t.proc i).parent
    pub parent_wakes :
        (i : ℕ)
        → sleeps_on (parent_chan addr (t.proc p)) (t.proc i) ≡ true
        → (t'.proc i).state ≡ runnable
    pub others :
        (i : ℕ)
        → i ≢ p
        → ((t'.proc i).state ≡ (t.proc i).state)
          ⊎ ((is_sleeping (t.proc i).state ≡ true) × ((t'.proc i).state ≡ runnable))

  zombie-CanReplace :
      {t : Ptable} {v : View}
      → IsValid t v
      → is_running (t.proc p).state ≡ true
      → CanReplace t p (record (t.proc p) { state = zombie }) t.nextpid
  zombie-CanReplace {t} valid run = record {
    was_idle = ground arith;
    idle = refl;
    leveled = λ h. cc;
    numbered = λ h. valid.numbered p (ground arith);
    inside = valid.inside p;
    fresh = valid.fresh p;
    grows = omega arith;
    unique = λ i n h e. n (sym (valid.unique p i h (sym e)));
  }

  zombied : Ptable → Ptable
  zombied t = put t p (record (t.proc p) { state = zombie })

  exit_lem :
      (t t1 t2 : Ptable)
      → p ≢ init
      → wakeup1 (parent_chan addr (t.proc p)) t ≡ ok t1
      → pass_from addr init p nproc 0 t1 ≡ ok t2
      → exit addr init p t ≡ ok (zombied t2)
  unfolding exit zombied
  exit_lem t t1 t2 other woken passed = ground arith

  exit_Exited :
      (t t1 t2 : Ptable) (v : View)
      → IsValid t2 v
      → is_running (t.proc p).state ≡ true
      → ((i : ℕ) → Woke (t.proc i) (t1.proc i) (sleeps_on (parent_chan addr (t.proc p)) (t.proc i)))
      → ((i : ℕ)
          → Nudged init
              (t1.proc i)
              (t2.proc i)
              (within addr init p 0 nproc i && is_child (t1.proc i) p))
      → Exited t (zombied t2)
  unfolding zombied
  exit_Exited t t1 t2 v valid run wakes slots = record {
    view = v;
    valid' =
        replace-IsValid p _ t2.nextpid
          (zombie-CanReplace valid (ground (arith, (wakes p).state, (slots p).state))) valid;
    state = ground arith;
    children = λ i h kid. ground (arith, (wakes i).parent, (slots i).parent);
    parents = λ i kid. ground (arith, (wakes i).parent, (slots i).parent);
    parent_wakes = λ i sleeps. ground (arith, (wakes i).state, (slots i).state);
    others = λ i n. ground (arith, (wakes i).state, (slots i).state);
  }

  -- `exit` of a running process other than `init` succeeds up to its switch: the process is a zombie,
  -- its parent runs again if it slept in `wait`, all its children belong to `init`, no other process
  -- changes its parent, and another process changes its state only by waking.
  pub exit_refines :
      {t : Ptable} {v : View}
      → IsValid t v
      → is_running (t.proc p).state ≡ true
      → p ≢ init
      → (t' : Ptable) × (exit addr init p t ≡ ok t') × Exited t t'
  exit_refines {t} valid run other =
      let (t1, woken, valid1, wakes) = wakeup1_refines (parent_chan addr (t.proc p)) valid in
      let (t2, all) = pass_from_lem addr init p nproc 0 valid1 in
      (
        zombied t2,
        exit_lem t t1 t2 other woken all.computes,
        exit_Exited t t1 t2 all.view all.valid' run wakes all.slots,
      )
