-- ===== src/Tests/Disk.antt =====
-- Examples for the log: a transaction of one block, whose home is sector 5, with the log at 100.
use sistema_operativo.Base.{
  ℕ, ◌+◌, ◌<◌, ◌≡◌, refl, true, none, some, [], arith, if◌then◌else◌, ◌==◌,
}
use sistema_operativo.Log.{Block, Machine, initlog}
use sistema_operativo.Log.Commit.{Transaction, Disk}
use sistema_operativo.Log.Crash.{CrashOutcome, Prepared, crashed, crash_atomic}
use sistema_operativo.Log.Append.{Pending, Logs, log_write_refines}

abbrev block : ℕ → Block
block x w = x

abbrev one_block : Transaction
one_block = record {
  start = 100;
  n = 1;
  home = λ i. 5;
  new = λ i. block 7;
  small = omega arith;
  outside = λ i h. refl;
  distinct = λ i j a b e. omega arith;
}

abbrev disk : Disk
disk b = if b == 101 then block 7 else block 0

-- A machine inside a transaction, with `n` entries, all for sector 5.
abbrev machine : ℕ → Machine
machine n = record {
  disk = disk;
  dirty = λ b. if b == 5 then some (block 7) else none;
  writes = [];
  start = 100;
  size = 11;
  busy = true;
  n = n;
  sector = λ i. 5;
}

stored : (i : ℕ) → i < 1 → disk (100 + i + 1) ≡ block 7
stored i h = ground arith

machine-Prepared : Prepared one_block (machine 1)
machine-Prepared = record {
  logged = record { start = refl; homes = λ i h. refl; blocks = λ i h. ground arith };
  count = refl;
  some_block = omega arith;
  stored = stored;
  no_commit = refl;
  from_here = refl;
}

crash_atomic_example : CrashOutcome one_block disk 2 (initlog (crashed (machine 1) 2) 111 11).disk
crash_atomic_example = crash_atomic one_block 111 11 refl (machine 1) machine-Prepared 2

machine-Pending : Pending one_block (machine 1)
machine-Pending = record {
  start = refl;
  count = refl;
  homes = λ i h. refl;
  stored = stored;
  clean = λ b h. ground arith;
  active = refl;
}

log_write_refines_example : Logs one_block (machine 1) 6 (block 8)
log_write_refines_example =
    log_write_refines one_block (machine 1) 6 (block 8) machine-Pending (omega arith) (omega arith)
      refl
