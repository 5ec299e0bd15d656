-- ===== src/Proc/Sched/Wait.antt =====
-- `wait`: the first zombie child is freed; without one the process sleeps, if it has children.
use native.Mathlib.Decide.{ℕ_discrete}
use sistema_operativo.Base.{
  ℕ, zero, suc, ◌+◌, ◌≤◌, ◌<◌, ◌≡◌, ◌≢◌, refl, Bool, true, false, ◌&&◌, none, inl, inr,
  if◌then◌else◌, arith, Bool-cases,
}
use sistema_operativo.Proc.State.{Process, Ptable, unused, is_zombie, nproc}
use sistema_operativo.Proc.Queue.View.{View, IsValid}
use sistema_operativo.Proc.Queue.Edit.{CanReplace, replace-IsValid}
use sistema_operativo.Proc.Sched.{
  is_child, scan_from, zombie_child, children, wait, reap, reaped, no_children, asleep, sleep,
}

abbrev pub dead_child : Ptable → ℕ → ℕ → Bool
dead_child t p i = is_child (t.proc i) p && is_zombie (t.proc i).state

-- The scan stops at the first dead child.
scan_from-dead :
    (p n c i : ℕ) (havekids : Bool) (t : Ptable)
    → c ≤ i
    → i < c + n
    → dead_child t p i ≡ true
    → ((j : ℕ) → c ≤ j → j < i → dead_child t p j ≡ false)
    → scan_from p n c havekids t ≡ zombie_child i
unfolding scan_from
scan_from-dead p zero c i havekids t low high dead before = absurd (omega arith)
scan_from-dead p (suc n) c i havekids t low high dead before = elim (ℕ_discrete c i) [
  | yes e ↦ rw e (ground arith)
  | no e ↦ ground (
    arith,
    before c,
    scan_from-dead p n (suc c) i true t (omega arith) (omega arith) dead
        (λ j a b. before j (omega arith) b),
    scan_from-dead p n (suc c) i havekids t (omega arith) (omega arith) dead
        (λ j a b. before j (omega arith) b),
  )
]

-- Without a dead child it tells whether there is a child.
scan_from-none :
    (p n c : ℕ) (havekids : Bool) (t : Ptable)
    → ((i : ℕ) → c ≤ i → i < c + n → is_child (t.proc i) p ≡ false)
    → scan_from p n c havekids t ≡ children havekids
unfolding scan_from
scan_from-none p zero c havekids t childless = refl
scan_from-none p (suc n) c havekids t childless = ground (
  arith,
  childless c,
  scan_from-none p n (suc c) havekids t (λ i a b. childless i (omega arith) (omega arith)),
)

scan_from-alive :
    (p n c : ℕ) (havekids : Bool) (t : Ptable)
    → havekids ≡ true
    → ((i : ℕ) → c ≤ i → i < c + n → dead_child t p i ≡ false)
    → scan_from p n c havekids t ≡ children true
unfolding scan_from
scan_from-alive p zero c havekids t had alive = rw had
scan_from-alive p (suc n) c havekids t had alive = ground (
  arith,
  alive c,
  scan_from-alive p n (suc c) true t refl (λ i a b. alive i (omega arith) (omega arith)),
  scan_from-alive p n (suc c) havekids t had (λ i a b. alive i (omega arith) (omega arith)),
)

scan_from-children :
    (p n c k : ℕ) (havekids : Bool) (t : Ptable)
    → c ≤ k
    → k < c + n
    → is_child (t.proc k) p ≡ true
    → ((i : ℕ) → c ≤ i → i < c + n → dead_child t p i ≡ false)
    → scan_from p n c havekids t ≡ children true
unfolding scan_from
scan_from-children p zero c k havekids t low high kid alive = absurd (omega arith)
scan_from-children p (suc n) c k havekids t low high kid alive =
    elim (Bool-cases (is_child (t.proc c) p)) [
      | inl here ↦ ground (
        arith,
        alive c,
        scan_from-alive p n (suc c) true t refl (λ i a b. alive i (omega arith) (omega arith)),
      )
      | inr later ↦ rw later (
          scan_from-children p n (suc c) k havekids t (other later) (omega arith) kid
            (λ i a b. alive i (omega arith) (omega arith)))
    ]
  where
    other : is_child (t.proc c) p ≡ false → suc c ≤ k
    other later = ground arith

-- The table after the dead child in slot `i` is freed.
pub record Reaped (t : Ptable) (v : View) (i : ℕ) (t' : Ptable) : Type 0 where
  pub valid' : IsValid t' v
  pub state : (t'.proc i).state ≡ unused
  pub pid : (t'.proc i).pid ≡ 0
  pub parent : (t'.proc i).parent ≡ none
  pub killed : (t'.proc i).killed ≡ false
  pub others : (j : ℕ) → j ≢ i → t'.proc j ≡ t.proc j

pub reap-CanReplace :
    {t : Ptable} {v : View} (i : ℕ) (q : Process)
    → IsValid t v
    → is_zombie (t.proc i).state ≡ true
    → q.state ≡ unused
    → q.pid ≡ 0
    → CanReplace t i q t.nextpid
reap-CanReplace i q valid dead free zeroed = record {
  was_idle = ground arith;
  idle = rw free;
  leveled = λ h. ground arith;
  numbered = λ h. ground arith;
  inside = λ n. absurd (n zeroed);
  fresh = ground (arith, valid.fresh i);
  grows = omega arith;
  unique = λ j n m. absurd (m zeroed);
}

-- `wait` of a process with a dead child, on a well-formed table, frees the first one: it returns its
-- pid, stack and page table, and leaves its slot unused with pid 0, no parent and no `killed` flag. No
-- other slot changes, and the queues are as before.
pub wait_reaps :
    (addr : ℕ → ℕ) {t : Ptable} {v : View} (p i : ℕ)
    → IsValid t v
    → i < nproc
    → dead_child t p i ≡ true
    → ((j : ℕ) → j < i → dead_child t p j ≡ false)
    → (t' : Ptable) × (wait addr p t
        ≡ (reaped (t.proc i).pid (t.proc i).kstack (t.proc i).pgdir, t'))
      × Reaped t v i t'
unfolding wait
wait_reaps addr {t} p i valid h dead first = (
  reap i t,
  rw (scan_from-dead p nproc 0 i false t (omega arith) (omega arith) dead (λ j a b. first j b)),
  record {
    valid' =
        replace-IsValid i _ t.nextpid (reap-CanReplace i _ valid (ground arith) refl refl) valid;
    state = ground arith;
    pid = ground arith;
    parent = ground arith;
    killed = ground arith;
    others = λ j n. ground arith;
  },
)

-- With children, none of them dead, `wait` sleeps on the process itself; it returns -1 if the process
-- was killed.
pub wait_blocks :
    (addr : ℕ → ℕ) (p k : ℕ) (t : Ptable)
    → k < nproc
    → is_child (t.proc k) p ≡ true
    → ((i : ℕ) → i < nproc → dead_child t p i ≡ false)
    → wait addr p t ≡ (if (t.proc p).killed then (no_children, t) else (asleep, sleep p (addr p) t))
unfolding wait
wait_blocks addr p k t h kid alive =
    rw (scan_from-children p nproc 0 k false t (omega arith) (omega arith) kid (λ i a b. alive i b))

-- Without children, `wait` returns -1 and changes nothing.
pub wait_childless :
    (addr : ℕ → ℕ) (p : ℕ) (t : Ptable)
    → ((i : ℕ) → i < nproc → is_child (t.proc i) p ≡ false)
    → wait addr p t ≡ (no_children, t)
unfolding wait
wait_childless addr p t childless = rw (scan_from-none p nproc 0 false t (λ i a b. childless i b))
