-- ===== src/Trap.antt =====
-- trap.c and the calls of sysproc.c that change processes: traps, the quantum of the process that runs,
-- and the ticks.
use sistema_operativo.Base.{
  ℕ, suc, ◌+◌, ◌-◌, ◌%◌, Bool, true, false, not, ◌&&◌, ◌||◌, Option, none, some, Outcome, ok, halt,
  panic, ◌>>=◌, ltb, ◌==◌, if◌then◌else◌,
}
use sistema_operativo.Base.Int.{ℤ, pos, negsuc}
use sistema_operativo.Proc.State.{Ptable, put, max_quantum, is_running}
use sistema_operativo.Proc.Queue.{set_priority}
use sistema_operativo.Proc.Sched.{wakeup1, kill, yield, sleep}
use sistema_operativo.Syscall.{Caller, argint}

-- The processes, and `ticks`, whose address is the channel of those that wait for time.
pub record System : Type 0 where
  pub table : Ptable
  pub ticks : ℕ

-- A trap returns, or the process that it interrupted exits.
pub data Trapped : Type 0 where
  returns : System → Trapped
  exits : System → Trapped

-- The end of `trap`: a killed process that was in user space exits.
abbrev pub leave_trap : (p : ℕ) (user : Bool) → System → Trapped
leave_trap p user s = if (s.table.proc p).killed && user then exits s else returns s

abbrev pub count_quantum : ℕ → Ptable → Ptable
count_quantum p t = put t p (record (t.proc p) { quantum = suc (t.proc p).quantum })

-- The quantum: on a clock tick the running process counts, and yields at MAX_QUANTUM.
unfoldable pub spend : (p num : ℕ) → Ptable → Outcome Ptable
unfolding yield
spend p num t =
    let t' = count_quantum p t in
    let given_up = yield p t' in
    if is_running (t.proc p).state && num == 32
    then if (t'.proc p).quantum == max_quantum then given_up else ok t'
    else ok t

-- `p` is the process of this CPU, `num` the number of the trap, `user` whether it came from user space,
-- and `cpu` the number of the CPU. `syscall` is the call that the process makes, `device num` is what
-- the driver does whose interrupt it is, and `chan` is the address of `ticks`.
module _ (chan : ℕ) (syscall : System → Outcome System) (device : ℕ → System → Outcome System) where
  unfoldable pub clock_tick : (cpu : ℕ) → System → Outcome System
  unfolding wakeup1
  clock_tick cpu s =
      if cpu == 0
      then (wakeup1 chan s.table
          >>= (λ t. ok (record { table = t; ticks = (s.ticks + 1) % 0x100000000 })))
      else ok s

  abbrev pub is_device : ℕ → Bool
  is_device num = num == 33 || num == 36 || num == 46

  abbrev pub is_spurious : ℕ → Bool
  is_spurious num = num == 39 || num == 47 || num == 63

  -- The `switch` on the number. A trap of no device kills the process, and in the kernel panics.
  unfoldable pub interrupt : (p : Option ℕ) (num cpu : ℕ) (user : Bool) → System → Outcome System
  unfolding clock_tick
  interrupt p num cpu user s =
      if num == 32
      then clock_tick cpu s
      else if is_device num
      then device num s
      else if is_spurious num
      then ok s
      else fault p user
    where
      fault : Option ℕ → Bool → Outcome System
      fault none user = halt (panic "trap")
      fault (some p) false = halt (panic "trap")
      fault (some p) true =
          ok (record s { table = put s.table p (record (s.table.proc p) { killed = true }) })

  abbrev pub after_interrupt : (p : Option ℕ) (num : ℕ) (user : Bool) → System → Outcome Trapped
  after_interrupt none num user s = ok (returns s)
  after_interrupt (some p) num user s =
      let left = spend p num s.table >>= λ t. ok (leave_trap p user (record s { table = t })) in
      if (s.table.proc p).killed && user then ok (exits s) else left

  unfoldable pub trap : (p : Option ℕ) (num cpu : ℕ) (user : Bool) → System → Outcome Trapped
  unfolding interrupt spend
  trap p num cpu user s = interrupt p num cpu user s >>= after_interrupt p num user

  -- A system call, which is trap 64.
  unfoldable pub trap_syscall : (p : ℕ) → System → Outcome Trapped
  trap_syscall p s =
      let called = syscall s >>= λ s'. ok (leave_trap p true s') in
      if (s.table.proc p).killed then ok (exits s) else called

-- The `int` of 32 bits.
abbrev pub to_int : ℕ → ℤ
to_int n = if ltb n 0x80000000 then pos n else negsuc (0xffffffff - n)

-- `none` and false stand for the result -1.
unfoldable pub sys_kill : Caller → Ptable → Outcome (Bool × Ptable)
unfolding argint kill
sys_kill caller t = elim (argint 0 caller) [ none ↦ ok (false, t) | some pid ↦ kill pid t ]

unfoldable pub sys_getpid : ℕ → Ptable → ℕ
sys_getpid p t = (t.proc p).pid

unfoldable pub sys_set_priority : Caller → ℕ → Ptable → Bool × Ptable
unfolding argint set_priority
sys_set_priority caller p t = elim (argint 0 caller) [
  | none ↦ (false, t)
  | some param ↦ (true, set_priority p (to_int param) t)
]

unfoldable pub sys_uptime : System → ℕ
sys_uptime s = s.ticks

-- One test of the loop of `sys_sleep` of `n` ticks since `ticks0`; the comparison is of `uint`.
pub data Slept : Type 0 where
  done : Slept
  interrupted : Slept
  sleeps : System → Slept

unfoldable pub sleep_ticks : (chan n ticks0 p : ℕ) → System → Slept
unfolding sleep
sleep_ticks chan n ticks0 p s =
    if not (ltb ((s.ticks + 0x100000000 - ticks0) % 0x100000000) n)
    then done
    else if (s.table.proc p).killed
    then interrupted
    else sleeps (record s { table = sleep p chan s.table })
