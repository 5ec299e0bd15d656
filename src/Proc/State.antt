-- ===== src/Proc/State.antt =====
-- The data of proc.h and the head of proc.c: processes, the queue of a level, the process table.
use sistema_operativo.Base.{
  ℕ, Bool, true, false, Option, none, List, [], Outcome, ok, halt, out_of_range, ltb, if◌then◌else◌,
  update,
}
use sistema_operativo.Base.Int.{ℤ, pos, negsuc}

-- `enum procstate`
pub data ProcState : Type 0 where
  unused embryo sleeping runnable running zombie : ProcState

abbrev pub is_unused : ProcState → Bool
is_unused unused = true
is_unused _ = false

abbrev pub is_sleeping : ProcState → Bool
is_sleeping sleeping = true
is_sleeping _ = false

abbrev pub is_runnable : ProcState → Bool
is_runnable runnable = true
is_runnable _ = false

abbrev pub is_running : ProcState → Bool
is_running running = true
is_running _ = false

-- On its way through the queues: its level is used again.
abbrev pub is_placed : ProcState → Bool
is_placed sleeping = true
is_placed runnable = true
is_placed running = true
is_placed _ = false

abbrev pub is_zombie : ProcState → Bool
is_zombie zombie = true
is_zombie _ = false

-- `struct proc`. A pointer to a process is its index in the table; a null pointer is `none`, and 0
-- for a channel, a stack and a page table. The frames `tf` and `context`, the open files and the
-- current directory are not kept here.
pub record Process : Type 0 where
  pub sz : ℕ
  pub pgdir : ℕ
  pub kstack : ℕ
  pub state : ProcState
  pub pid : ℕ
  pub parent : Option ℕ
  pub chan : ℕ
  pub killed : Bool
  pub name : List ℕ
  pub quantum : ℕ
  pub next : Option ℕ
  pub current_level : ℤ

-- `struct queue`
pub record Level : Type 0 where
  pub first : Option ℕ
  pub last : Option ℕ
  pub size : ℤ

-- `ptable`, without its lock, and `nextpid`, an `int` that does not overflow here.
pub record Ptable : Type 0 where
  pub proc : ℕ → Process
  pub mlf : ℕ → Level
  pub size : ℤ
  pub nextpid : ℕ

abbrev pub nproc : ℕ
nproc = 64

abbrev pub mlf_levels : ℕ
mlf_levels = 4

abbrev pub max_quantum : ℕ
max_quantum = 4

-- The index of `ptable.mlf[level]`: C leaves an access outside the array undefined.
abbrev pub mlf_index : ℤ → Outcome ℕ
mlf_index (pos l) = if ltb l mlf_levels then ok l else halt out_of_range
mlf_index (negsuc n) = halt out_of_range

-- A process as it stands in the zeroed memory of the kernel.
abbrev pub zero_process : Process
zero_process = record {
  sz = 0;
  pgdir = 0;
  kstack = 0;
  state = unused;
  pid = 0;
  parent = none;
  chan = 0;
  killed = false;
  name = [];
  quantum = 0;
  next = none;
  current_level = pos 0;
}

-- The table at boot: zeroed memory, and `int nextpid = 1`.
abbrev pub boot : Ptable
boot = record {
  proc = λ _. zero_process;
  mlf = λ _. record { first = none; last = none; size = pos 0 };
  size = pos 0;
  nextpid = 1;
}

-- `ptable.proc[p] = q`
abbrev pub put : Ptable → ℕ → Process → Ptable
put t p q = record t { proc = update t.proc p q }
