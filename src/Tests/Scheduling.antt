-- ===== src/Tests/Scheduling.antt =====
-- Examples for waiting, exiting and the sweep of the scheduler.
use sistema_operativo.Base.{
  ℕ, ◌+◌, ◌≤◌, ◌<◌, ◌≡◌, ◌≢◌, refl, true, false, some, List, [], arith, ok,
}
use sistema_operativo.Base.Int.{pos}
use sistema_operativo.Proc.State.{Ptable, nproc, mlf_levels, is_runnable}
use sistema_operativo.Proc.Queue.{make_runnable, encolar, append_at}
use sistema_operativo.Proc.Queue.Enqueue.{joined}
use sistema_operativo.Proc.Sched.{sweep, exit, wait, reaped}
use sistema_operativo.Proc.Sched.Switch.{Ran, sweep_picks}
use sistema_operativo.Proc.Sched.Wait.{Reaped, dead_child, wait_reaps}
use sistema_operativo.Proc.Sched.Exit.Zombie.{Exited, exit_refines}
use sistema_operativo.Proc.Reach.Progress.{sweep_progress}
use sistema_operativo.Tests.Fixture.{
  table, empty, table-IsValid, queued_table, queued_table-IsValid, queued_table-pgdir,
}

abbrev address : ℕ → ℕ
address i = 100 + i

none_before : (j : ℕ) → j < 2 → dead_child table 1 j ≡ false
none_before j h = ground arith

wait_reaps_example :
    (t' : Ptable) × (wait address 1 table ≡ (reaped 3 0 0, t')) × Reaped table empty 2 t'
wait_reaps_example =
    wait_reaps address {t = table} {v = empty} 1 2 table-IsValid (omega arith) refl none_before

none_dead : (i : ℕ) → i < nproc → dead_child table 0 i ≡ false
none_dead i h = ground arith

exit_refines_example :
    (t' : Ptable) × (exit address 0 1 table ≡ ok t') × Exited address 0 1 table t'
exit_refines_example =
    exit_refines address 0 1 {t = table} {v = empty} table-IsValid refl (omega arith)

mapped : (queued_table.proc 0).pgdir ≢ 0
mapped e = ground (arith, queued_table-pgdir)

below_empty : (k : ℕ) → 0 ≤ k → k < 1 → joined empty 0 1 k ≡ []
below_empty k a b = ground arith

sweep_picks_example :
    (t' : Ptable) × (sweep 4 0 queued_table ≡ ok (some (1, 0), t'))
    × Ran queued_table (joined empty 0 1) 1 0 [] t'
sweep_picks_example =
    sweep_picks {t = queued_table} {v = joined empty 0 1} 4 0 1 0 [] queued_table-IsValid refl
      (omega arith) (omega arith) below_empty refl mapped

queued_runnable : is_runnable (queued_table.proc 0).state ≡ true
unfolding make_runnable encolar append_at
queued_runnable = refl

queued_level : (queued_table.proc 0).current_level ≡ pos 1
unfolding make_runnable encolar append_at
queued_level = refl

all_mapped :
    (q : ℕ) → is_runnable (queued_table.proc q).state ≡ true → (queued_table.proc q).pgdir ≢ 0
unfolding make_runnable encolar append_at
all_mapped q h = ground arith

sweep_progress_example :
    (l : ℕ) × (q : ℕ) × (rest : List ℕ) × (t' : Ptable) × (l ≤ 1)
    × (sweep mlf_levels 0 queued_table ≡ ok (some (l, q), t'))
    × Ran queued_table (joined empty 0 1) l q rest t'
sweep_progress_example =
    sweep_progress {t = queued_table} {v = joined empty 0 1} 0 1 queued_table-IsValid
      queued_runnable queued_level all_mapped
