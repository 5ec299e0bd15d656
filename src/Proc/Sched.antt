-- ===== src/Proc/Sched.antt =====
-- proc.c: the handlers of the process table, each as what it does while it holds `ptable.lock`, and what
-- `userinit`, `fork` and `exec` (exec.c) do to the table.
pub mod Wakeup
pub mod Kill
pub mod Create
pub mod Exit
pub mod Wait
pub mod Switch
use sistema_operativo.Base.{
  ℕ, zero, suc, ◌+◌, ◌<◌, ◌≡◌, Bool, true, false, not, ◌&&◌, ◌||◌, Option, none, some, List, [],
  ◌∷◌, Outcome, ok, halt, panic, null_pointer, out_of_range, ◌>>=◌, ltb, leb, ◌==◌, if◌then◌else◌,
  update,
}
use sistema_operativo.Base.Int.{ℤ, pos, negsuc}
use sistema_operativo.Proc.State.{
  Process, Ptable, ProcState, unused, embryo, sleeping, runnable, running, zombie, is_unused,
  is_sleeping, is_runnable, is_running, is_zombie, nproc, mlf_levels, put,
}
use sistema_operativo.Proc.Queue.{up, down, make_runnable, make_running}

-- `p->parent == proc`
abbrev pub is_child : Process → ℕ → Bool
is_child q p = elim q.parent [ none ↦ false | some r ↦ r == p ]

-- `allocproc`: the first unused slot from `p` on, of the `n` that are left.
unfoldable pub find_unused : ℕ → ℕ → Ptable → Option ℕ
find_unused zero p t = none
find_unused (suc n) p t =
    let rest = find_unused n (suc p) t in if is_unused (t.proc p).state then some p else rest

-- `allocproc`, with the page that `kalloc` returns: `none` for 0. The frames that it lays out on
-- the stack are not kept.
unfoldable pub found : ℕ → Option ℕ → Ptable → Option ℕ × Ptable
found p none t = (
  none,
  record (put t p (record (t.proc p) { state = unused; kstack = 0; pid = t.nextpid })) {
    nextpid = suc t.nextpid;
  },
)
found p (some page) t = (
  some p,
  record (put t p (record (t.proc p) { state = embryo; pid = t.nextpid; kstack = page })) {
    nextpid = suc t.nextpid;
  },
)

unfoldable pub allocproc : Option ℕ → Ptable → Option ℕ × Ptable
unfolding find_unused found
allocproc page t = elim (find_unused nproc 0 t) [ none ↦ (none, t) | some p ↦ found p page t ]

-- `safestrcpy` on the bytes of a name, with `n` bytes and the last NUL of room: what stands behind the
-- NUL stays.
abbrev rest_of : List ℕ → List ℕ
rest_of [] = []
rest_of (b ∷ bs) = bs

abbrev pub copy_name : ℕ → List ℕ → List ℕ → List ℕ
copy_name zero name old = 0 ∷ rest_of old
copy_name (suc n) [] old = 0 ∷ rest_of old
copy_name (suc n) (zero ∷ name) old = 0 ∷ rest_of old
copy_name (suc n) (suc b ∷ name) old = suc b ∷ copy_name n name (rest_of old)

-- `userinit` between `allocproc` and `make_runnable`, with the page table that `setupkvm` makes. The
-- sizes of the levels that it zeroes are 0 at boot.
unfoldable pub first_process : ℕ → ℕ → Ptable → Ptable
first_process p pgdir t = put t p (record (t.proc p) {
  pgdir = pgdir;
  sz = 4096;
  name = copy_name 15 (105 ∷ 110 ∷ 105 ∷ 116 ∷ 99 ∷ 111 ∷ 100 ∷ 101 ∷ []) (t.proc p).name;
})

-- `fork` of `p` once `copyuvm` returns the page table `pgdir`, not 0, for the new process `np`.
unfoldable pub inherit : ℕ → ℕ → ℕ → Ptable → Ptable
inherit p np pgdir t = put t np (record (t.proc np) {
  pgdir = pgdir;
  sz = (t.proc p).sz;
  parent = some p;
  name = copy_name 15 (t.proc p).name (t.proc np).name;
})

-- `fork` when `copyuvm` fails: the new process is given up.
unfoldable pub abandon : ℕ → Ptable → Ptable
abandon np t = put t np (record (t.proc np) { pgdir = 0; kstack = 0; state = unused })

-- `exec` once the new image is made: `last` is the end of the path, `pgdir` the new page table.
unfoldable pub commit_image : ℕ → List ℕ → ℕ → ℕ → Ptable → Ptable
commit_image p last pgdir sz t =
    put t p (record (t.proc p) { name = copy_name 15 last (t.proc p).name; pgdir = pgdir; sz = sz })

-- `wakeup1`: the loop at slot `p`, and over the `n` slots from `p` on.
unfoldable pub wakeup_slot : ℕ → ℕ → Ptable → Outcome Ptable
wakeup_slot chan p t =
    if is_sleeping (t.proc p).state && (t.proc p).chan == chan
    then make_runnable p (up (t.proc p)) t
    else ok t

unfoldable pub wakeup_from : ℕ → ℕ → ℕ → Ptable → Outcome Ptable
wakeup_from chan zero p t = ok t
wakeup_from chan (suc n) p t = wakeup_slot chan p t >>= wakeup_from chan n (suc p)

unfoldable pub wakeup1 : ℕ → Ptable → Outcome Ptable
wakeup1 chan t = wakeup_from chan nproc 0 t

-- `kill`: what it does to the process that it finds, and its loop; true stands for the result 0,
-- false for -1.
unfoldable pub kill_slot : ℕ → Ptable → Outcome Ptable
kill_slot p t =
    let t' = put t p (record (t.proc p) { killed = true }) in
    if is_sleeping (t.proc p).state then make_runnable p (t.proc p).current_level t' else ok t'

unfoldable pub find_pid : ℕ → ℕ → ℕ → Ptable → Option ℕ
find_pid pid zero p t = none
find_pid pid (suc n) p t =
    let rest = find_pid pid n (suc p) t in if (t.proc p).pid == pid then some p else rest

unfoldable pub kill : ℕ → Ptable → Outcome (Bool × Ptable)
unfolding kill_slot find_pid
kill pid t = elim (find_pid pid nproc 0 t) [
  | none ↦ ok (false, t)
  | some p ↦ kill_slot p t >>= λ t'. ok (true, t')
]

-- `yield` up to its call of `sched`.
unfoldable pub yield : ℕ → Ptable → Outcome Ptable
yield p t = make_runnable p (down (t.proc p)) t

-- `sleep` up to its call of `sched`, and what it does once the process runs again.
unfoldable pub sleep : ℕ → ℕ → Ptable → Ptable
sleep p chan t = put t p (record (t.proc p) { chan = chan; state = sleeping })

unfoldable pub tidy_up : ℕ → Ptable → Ptable
tidy_up p t = put t p (record (t.proc p) { chan = 0 })

-- `exit`: the children of `p` go to `init`, slot by slot. `addr` is the address of a process, the
-- channel on which it waits.
unfoldable pub pass_slot : (ℕ → ℕ) → ℕ → ℕ → ℕ → Ptable → Outcome Ptable
unfolding wakeup1
pass_slot addr init p c t =
    let t' = put t c (record (t.proc c) { parent = some init }) in
    if is_child (t.proc c) p
    then if is_zombie (t.proc c).state then wakeup1 (addr init) t' else ok t'
    else ok t

unfoldable pub pass_from : (ℕ → ℕ) → ℕ → ℕ → ℕ → ℕ → Ptable → Outcome Ptable
pass_from addr init p zero c t = ok t
pass_from addr init p (suc n) c t = pass_slot addr init p c t >>= pass_from addr init p n (suc c)

-- `wakeup1(proc->parent)`: the null pointer is channel 0.
abbrev pub parent_chan : (ℕ → ℕ) → Process → ℕ
parent_chan addr q = elim q.parent [ none ↦ 0 | some r ↦ addr r ]

unfoldable pub exit : (ℕ → ℕ) → ℕ → ℕ → Ptable → Outcome Ptable
unfolding wakeup1
exit addr init p t = if p == init then halt (panic "init exiting") else do
  t1 ← wakeup1 (parent_chan addr (t.proc p)) t
  t2 ← pass_from addr init p nproc 0 t1
  ok (put t2 p (record (t2.proc p) { state = zombie }))

-- One scan of `wait`: the first zombie child, else whether there are children.
pub data Scan : Type 0 where
  zombie_child : ℕ → Scan
  children : Bool → Scan

unfoldable pub scan_from : ℕ → ℕ → ℕ → Bool → Ptable → Scan
scan_from p zero c havekids t = children havekids
scan_from p (suc n) c havekids t =
    let other = scan_from p n (suc c) havekids t in
    let mine = scan_from p n (suc c) true t in
    if is_child (t.proc c) p
    then if is_zombie (t.proc c).state then zombie_child c else mine
    else other

-- What `wait` comes to after a scan: the pid and the freed stack and page table of a child, the
-- result -1, or the process asleep on its own address.
pub data Waited : Type 0 where
  reaped : (pid kstack pgdir : ℕ) → Waited
  no_children : Waited
  asleep : Waited

-- `name[0] = 0`
abbrev pub clear_first : List ℕ → List ℕ
clear_first [] = []
clear_first (b ∷ bs) = 0 ∷ bs

abbrev pub reap : ℕ → Ptable → Ptable
reap c t = put t c (record (t.proc c) {
  kstack = 0;
  state = unused;
  pid = 0;
  parent = none;
  name = clear_first (t.proc c).name;
  killed = false;
})

unfoldable pub after_scan : (ℕ → ℕ) → ℕ → Scan → Ptable → Waited × Ptable
unfolding sleep
after_scan addr p (zombie_child c) t =
    (reaped (t.proc c).pid (t.proc c).kstack (t.proc c).pgdir, reap c t)
after_scan addr p (children havekids) t =
    if not havekids || (t.proc p).killed then (no_children, t) else (asleep, sleep p (addr p) t)

unfoldable pub wait : (ℕ → ℕ) → ℕ → Ptable → Waited × Ptable
unfolding after_scan scan_from
wait addr p t = after_scan addr p (scan_from p nproc 0 false t) t

-- The body of the `while` of `scheduler` at level `indice`, up to `swtch`: the process that it
-- switches to, if the level has one. `switchuvm` panics at a null page table.
unfoldable pub dispatch : ℕ → Ptable → Outcome Ptable
dispatch p t =
    if not (is_runnable (t.proc p).state)
    then halt (panic "This proces is not RUNNABLE")
    else if (t.proc p).pgdir == 0
    then halt (panic "switchuvm: no pgdir")
    else do t' ← make_running p t; ok (put t' p (record (t'.proc p) { quantum = 0 }))

-- From level `indice` on, with `n` levels left: the level and the process that run next; `none` if
-- the sweep ends and the lock is released.
unfoldable pub sweep : ℕ → ℕ → Ptable → Outcome (Option (ℕ × ℕ) × Ptable)
sweep zero indice t = ok (none, t)
sweep (suc n) indice t =
    let next = sweep n (suc indice) t in
    elim (t.mlf indice).first [
      | none ↦ next
      | some p ↦ dispatch p t >>= λ t'. ok (some (indice, p), t')
    ]

-- `if(ptable.mlf[indice].first == 0) indice++`, when the process is done for now.
unfoldable pub resume : ℕ → Ptable → ℕ
resume indice t = elim (t.mlf indice).first [ none ↦ suc indice | some p ↦ indice ]
