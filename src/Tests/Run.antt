-- ===== src/Tests/Run.antt =====
-- A run of the kernel: two processes, the second one dead at the end.
use sistema_operativo.Base.{ℕ, ◌+◌, refl, some, arith, Outcome, ok, halt}
use sistema_operativo.Base.Int.{pos}
use sistema_operativo.Proc.State.{Ptable, boot}
use sistema_operativo.Proc.Queue.{
  make_runnable, encolar, append_at, make_running, desencolar, compare_ends, down, up, set_priority,
}
use sistema_operativo.Proc.Sched.{
  allocproc, found, find_unused, first_process, inherit, yield, sweep, dispatch, exit, pass_from,
  pass_slot, wakeup1, wakeup_from, wakeup_slot, sleep,
}
use sistema_operativo.Proc.Reach.{Step, Reach}
use sistema_operativo.Proc.Reach.Keep.{Good}
use sistema_operativo.Proc.Reach.Safety.{Reach-Good}
use sistema_operativo.Tests.Fixture.{ok_or}

abbrev address : ℕ → ℕ
address i = 100 + i

abbrev table_or : {A : Type 0} → Ptable → Outcome (A × Ptable) → Ptable
table_or t (ok r) = r.1
table_or t (halt f) = t

abbrev created : Ptable
created = (allocproc (some 4096) boot).1

abbrev filled : Ptable
filled = first_process 0 8192 created

abbrev started : Ptable
started = ok_or boot (make_runnable 0 (pos 0) filled)

abbrev runs : Ptable
runs = table_or boot (sweep 4 0 started)

abbrev forking : Ptable
forking = (allocproc (some 12288) runs).1

abbrev copied : Ptable
copied = inherit 0 1 16384 forking

abbrev forked : Ptable
forked = ok_or boot (make_runnable 1 (pos 0) copied)

abbrev preempted : Ptable
preempted = ok_or boot (yield 0 forked)

abbrev child_runs : Ptable
child_runs = table_or boot (sweep 4 0 preempted)

abbrev lowered : Ptable
lowered = set_priority 1 (pos 2) child_runs

abbrev dead : Ptable
dead = ok_or boot (exit address 0 1 lowered)

-- Up to the first process running.
first_run : Reach address 0 runs
unfolding allocproc found find_unused first_process make_runnable encolar append_at sweep dispatch
    make_running desencolar compare_ends
first_run =
    Reach.later
      (Reach.later
        (Reach.later (Reach.later Reach.start (Step.create 4096 0 created refl))
          (Step.first 0 8192 refl (omega arith)))
        (Step.start 0 started refl (λ e. ground (arith, e)) refl))
      (Step.run 4 0 0 0 runs refl refl)

-- The child is made and the parent gives way to it.
fork_run : Reach address 0 child_runs
unfolding allocproc found find_unused first_process inherit make_runnable encolar append_at sweep
    dispatch make_running desencolar compare_ends yield down
fork_run =
    Reach.later
      (Reach.later
        (Reach.later
          (Reach.later (Reach.later first_run (Step.create 12288 1 forking refl))
            (Step.copy 0 1 16384 refl refl (omega arith)))
          (Step.start 1 forked refl (λ e. ground (arith, e)) refl))
        (Step.preempt 0 preempted refl refl))
      (Step.run 4 0 0 1 child_runs refl refl)

-- The child is moved to level 2 and dies.
exit_run : Reach address 0 dead
unfolding allocproc found find_unused first_process inherit make_runnable encolar append_at sweep
    dispatch make_running desencolar compare_ends yield down set_priority exit pass_from pass_slot
    wakeup1 wakeup_from wakeup_slot
exit_run =
    Reach.later (Reach.later fork_run (Step.prioritise 1 (pos 2) refl refl))
      (Step.finish 1 dead refl refl)

Reach-Good_example : Good dead
Reach-Good_example = Reach-Good address 0 exit_run

-- Another run: the first process sleeps, wakes and runs again.
abbrev slept : Ptable
slept = sleep 0 9 runs

abbrev woken : Ptable
woken = ok_or boot (wakeup1 9 slept)

sleep_run : Reach address 0 woken
unfolding allocproc found find_unused first_process make_runnable encolar append_at sweep dispatch
    make_running desencolar compare_ends sleep up wakeup1 wakeup_from wakeup_slot
sleep_run = Reach.later (Reach.later first_run (Step.block 0 9 refl)) (Step.wake 9 woken refl)
