-- ===== src/Proc/Queue.antt =====
-- proc.c: `up`, `down`, `encolar`, `desencolar`, `make_runnable`, `make_running`, `set_priority`.
pub mod View
pub mod Links
pub mod Enqueue
pub mod Dequeue
pub mod Edit
use sistema_operativo.Base.{
  ℕ, zero, suc, ◌-◌, ◌<◌, ◌≡◌, Bool, true, false, Option, none, some, Outcome, ok, halt,
  null_pointer, ◌>>=◌, ltb, ◌==◌, if◌then◌else◌, update,
}
use sistema_operativo.Base.Int.{ℤ, pos, negsuc, inc, dec, is_positive, ltb_ℤ}
use sistema_operativo.Proc.State.{
  Process, Level, Ptable, mlf_levels, mlf_index, put, runnable, running,
}

-- The level of a process that moves up, and of one that moves down.
unfoldable pub up : Process → ℤ
up p = if is_positive p.current_level then dec p.current_level else p.current_level

unfoldable pub down : Process → ℤ
down p = if ltb_ℤ p.current_level (mlf_levels - 1) then inc p.current_level else p.current_level

-- `p->current_level = level`
abbrev pub set_level : Ptable → ℕ → ℤ → Ptable
set_level t p level = put t p (record (t.proc p) { current_level = level })

-- `p->next = q`
abbrev pub set_next : Ptable → ℕ → ℕ → Ptable
set_next t p q = put t p (record (t.proc p) { next = some q })

-- `encolar` behind the last process of level `l`, or as the first one.
unfoldable pub append_at : ℕ → ℤ → ℕ → Option ℕ → Option ℕ → Ptable → Outcome Ptable
append_at p level l none last t = ok (
    set_level
      (record t {
        mlf =
            update t.mlf l
              (record (t.mlf l) { first = some p; last = some p; size = inc (t.mlf l).size });
      })
      p level)
append_at p level l (some f) none t = halt null_pointer
append_at p level l (some f) (some z) t = ok (
    set_level
      (set_next
        (record t {
          mlf = update t.mlf l (record (t.mlf l) { last = some p; size = inc (t.mlf l).size });
        })
        z p)
      p level)

unfoldable pub encolar : ℕ → ℤ → Ptable → Outcome Ptable
unfolding append_at
encolar p level t = do
  l ← mlf_index level
  append_at p level l (t.mlf l).first (t.mlf l).last (record t { size = inc t.size })

-- `desencolar`, once the pids of the first and the last process of level `l` are compared.
abbrev unlink_first : ℕ → ℕ → Bool → Ptable → Ptable
unlink_first p l single t = record t {
  mlf = update t.mlf l (
      if single
      then record { first = none; last = none; size = dec (t.mlf l).size }
      else record (t.mlf l) { first = (t.proc p).next; size = dec (t.mlf l).size });
}

unfoldable pub compare_ends : ℕ → ℕ → Option ℕ → Option ℕ → Ptable → Outcome Ptable
compare_ends p l (some f) (some z) t = ok (unlink_first p l ((t.proc z).pid == (t.proc f).pid) t)
compare_ends p l (some f) none t = halt null_pointer
compare_ends p l none last t = halt null_pointer

unfoldable pub desencolar : ℕ → Ptable → Outcome Ptable
unfolding compare_ends
desencolar p t = do
  l ← mlf_index (t.proc p).current_level
  compare_ends p l (t.mlf l).first (t.mlf l).last (record t { size = dec t.size })

unfoldable pub make_runnable : ℕ → ℤ → Ptable → Outcome Ptable
unfolding encolar
make_runnable p level t = do
  t' ← encolar p level t
  ok (put t' p (record (t'.proc p) { state = runnable }))

unfoldable pub make_running : ℕ → Ptable → Outcome Ptable
unfolding desencolar
make_running p t = do t' ← desencolar p t; ok (put t' p (record (t'.proc p) { state = running }))

unfoldable pub set_priority : ℕ → ℤ → Ptable → Ptable
set_priority p param t = set_level t p param
