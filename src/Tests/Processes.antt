-- ===== src/Tests/Processes.antt =====
-- Examples for the queues and the calls that put processes into them.
use sistema_operativo.Base.{
  ℕ, ◌<◌, ◌≡◌, ◌≢◌, refl, true, some, [], arith, ◌++◌, update, ok, halt, out_of_range,
}
use sistema_operativo.Base.Int.{pos}
use sistema_operativo.Proc.State.{Ptable, nproc}
use sistema_operativo.Proc.Queue.{make_runnable, make_running, set_priority}
use sistema_operativo.Proc.Queue.View.{IsValid}
use sistema_operativo.Proc.Queue.Enqueue.{Joined, joined, make_runnable_refines}
use sistema_operativo.Proc.Queue.Dequeue.{Left, make_running_refines}
use sistema_operativo.Proc.Sched.{allocproc, find_unused, find_pid, wakeup1, kill, yield}
use sistema_operativo.Proc.Sched.Wakeup.{Woke, woken, sleeps_on, wakeup1_refines}
use sistema_operativo.Proc.Sched.Kill.{Killed, kill_refines}
use sistema_operativo.Proc.Sched.Switch.{yield_refines, yield-set_priority}
use sistema_operativo.Proc.Sched.Create.{Created, allocproc_refines, kill_zero}
use sistema_operativo.Tests.Fixture.{
  table, empty, table-IsValid, sleeper-CanJoin, queued_table, queued_table-IsValid,
}

make_runnable_refines_example :
    (t' : Ptable) × (make_runnable 0 (pos 1) table ≡ ok t')
    × IsValid t' (joined empty 0 1)
    × Joined table t' 0 1
make_runnable_refines_example =
    make_runnable_refines {t = table} {v = empty} 0 1 table-IsValid sleeper-CanJoin (omega arith)

make_running_refines_example :
    (t' : Ptable) × (make_running 0 queued_table ≡ ok t')
    × IsValid t' (update (joined empty 0 1) 1 [])
    × Left queued_table t' 0 1
make_running_refines_example =
    make_running_refines {t = queued_table} {v = joined empty 0 1} 0 1 [] queued_table-IsValid
      (omega arith) refl

wakeup1_refines_example :
    (t' : Ptable) × (wakeup1 9 table ≡ ok t')
    × IsValid t' (λ l. empty l ++ woken 9 table l nproc 0)
    × ((i : ℕ) → Woke (table.proc i) (t'.proc i) (sleeps_on 9 (table.proc i)))
wakeup1_refines_example = wakeup1_refines 9 {t = table} {v = empty} table-IsValid

kill_refines_example : (t' : Ptable) × (kill 1 table ≡ ok (true, t')) × Killed table empty 0 t'
kill_refines_example = kill_refines {t = table} {v = empty} 0 1 table-IsValid (omega arith) refl

no_seven : (i : ℕ) → i < nproc → (table.proc i).pid ≢ 7
no_seven i h = ground arith

yield_refines_example :
    (t' : Ptable) × (yield 1 table ≡ ok t') × IsValid t' (joined empty 1 2) × Joined table t' 1 2
yield_refines_example = yield_refines {t = table} {v = empty} 1 1 table-IsValid refl refl

yield-set_priority_example : yield 1 (set_priority 1 (pos 7) table) ≡ halt out_of_range
yield-set_priority_example = yield-set_priority 1 (pos 7) table refl (λ e. cc)

first_unused : find_unused nproc 0 table ≡ some 3
unfolding find_unused
first_unused = refl

first_zero : find_pid 0 nproc 0 table ≡ some 3
unfolding find_pid
first_zero = refl

allocproc_refines_example :
    (t' : Ptable) × (allocproc (some 4096) table ≡ (some 3, t')) × Created table empty 4096 3 t'
allocproc_refines_example =
    allocproc_refines {t = table} {v = empty} 4096 3 table-IsValid first_unused

kill_zero_example :
    (t' : Ptable) × (kill 0 table ≡ ok (true, t'))
    × ((allocproc (some 4096) t').0 ≡ some 3)
    × (((allocproc (some 4096) t').1.proc 3).killed ≡ true)
kill_zero_example = kill_zero 3 4096 table first_zero first_unused
