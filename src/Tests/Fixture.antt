-- ===== src/Tests/Fixture.antt =====
-- A process table with three processes: 0 sleeps, its child 1 runs, and the child 2 of 1 is dead.
use sistema_operativo.Base.{◌≡◌, refl, sym, ap, subst, some, [], arith, Outcome, ok, halt}
use sistema_operativo.Base.Int.{pos}
use sistema_operativo.Proc.State.{
  Process, Ptable, sleeping, running, zombie, zero_process, boot, put,
}
use sistema_operativo.Proc.Queue.{make_runnable, append_at, encolar}
use sistema_operativo.Proc.Queue.View.{View, IsValid, boot-IsValid}
use sistema_operativo.Proc.Queue.Edit.{CanReplace, replace-IsValid}
use sistema_operativo.Proc.Queue.Enqueue.{CanJoin, joined, make_runnable_refines}

abbrev pub sleeper : Process
sleeper = record zero_process { pgdir = 1; state = sleeping; pid = 1; chan = 9 }

abbrev pub runner : Process
runner = record zero_process {
  pgdir = 1;
  state = running;
  pid = 2;
  parent = some 0;
  current_level = pos 1;
}

abbrev pub corpse : Process
corpse = record zero_process { state = zombie; pid = 3; parent = some 1 }

abbrev pub table1 : Ptable
table1 = record (put boot 0 sleeper) { nextpid = 2 }

abbrev pub table2 : Ptable
table2 = record (put table1 1 runner) { nextpid = 3 }

abbrev pub table : Ptable
table = record (put table2 2 corpse) { nextpid = 4 }

abbrev pub empty : View
empty l = []

sleeper-CanReplace : CanReplace boot 0 sleeper 2
sleeper-CanReplace = record {
  was_idle = refl;
  idle = refl;
  leveled = λ h. refl;
  numbered = λ h. omega arith;
  inside = λ h. omega arith;
  fresh = omega arith;
  grows = omega arith;
  unique = λ i n h. ground arith;
}

runner-CanReplace : CanReplace table1 1 runner 3
runner-CanReplace = record {
  was_idle = refl;
  idle = refl;
  leveled = λ h. refl;
  numbered = λ h. omega arith;
  inside = λ h. omega arith;
  fresh = omega arith;
  grows = omega arith;
  unique = λ i n h. ground arith;
}

corpse-CanReplace : CanReplace table2 2 corpse 4
corpse-CanReplace = record {
  was_idle = refl;
  idle = refl;
  leveled = λ h. refl;
  numbered = λ h. omega arith;
  inside = λ h. omega arith;
  fresh = omega arith;
  grows = omega arith;
  unique = λ i n h. ground arith;
}

pub table-IsValid : IsValid table empty
table-IsValid = replace-IsValid 2 corpse 4 corpse-CanReplace (
    replace-IsValid 1 runner 3 runner-CanReplace
      (replace-IsValid 0 sleeper 2 sleeper-CanReplace boot-IsValid))

pub sleeper-CanJoin : CanJoin table 0
sleeper-CanJoin = record { idle = refl; live = refl }

abbrev pub ok_or : Ptable → Outcome Ptable → Ptable
ok_or t (ok t') = t'
ok_or t (halt f) = t

-- The same table with process 0 in the queue of level 1.
abbrev pub queued_table : Ptable
queued_table = ok_or boot (make_runnable 0 (pos 1) table)

pub queued_table-IsValid : IsValid queued_table (joined empty 0 1)
queued_table-IsValid =
    let (t', e, valid, j) = make_runnable_refines 0 1 table-IsValid sleeper-CanJoin (omega arith) in
    subst (λ t. IsValid t (joined empty 0 1)) (sym (ap (ok_or boot) e)) valid

pub queued_table-pgdir : (queued_table.proc 0).pgdir ≡ 1
unfolding make_runnable encolar append_at
queued_table-pgdir = refl
