-- ===== src/Proc/Sched/Kill.antt =====
-- `kill`: the process with the pid, its flag, and its wake-up at its own level.
use sistema_operativo.Base.{
  ℕ, zero, suc, ◌+◌, ◌≤◌, ◌<◌, ◌≡◌, ◌≢◌, refl, ap, ◌∙◌, true, false, ◌&&◌, none, some, [], ◌∷◌,
  ◌++◌, inl, inr, if◌then◌else◌, ◌==◌, arith, ok, Bool-cases, Option-cases,
}
use sistema_operativo.Base.Int.{pos, is_ℕ}
use sistema_operativo.Proc.State.{Process, Ptable, runnable, is_sleeping, nproc, mlf_levels, put}
use sistema_operativo.Proc.Queue.{make_runnable}
use sistema_operativo.Proc.Queue.View.{level_of, View, IsValid, IsValid-view}
use sistema_operativo.Proc.Queue.Enqueue.{CanJoin, make_runnable_refines}
use sistema_operativo.Proc.Queue.Edit.{Quiet, Quiet-IsValid}
use sistema_operativo.Proc.Sched.{kill, kill_slot, find_pid}

-- The loop finds a slot if one of those that it visits has the pid, and the first such one.
find_pid-some :
    (pid n p q : ℕ) (t : Ptable)
    → find_pid pid n p t ≡ some q
    → ((t.proc q).pid ≡ pid)
      × (p ≤ q)
      × (q < p + n)
      × ((i : ℕ) → p ≤ i → i < q → (t.proc i).pid ≢ pid)
unfolding find_pid
find_pid-some pid zero p q t h = cc
find_pid-some pid (suc n) p q t h = elim (Bool-cases ((t.proc p).pid == pid)) [
  | inl here ↦ (ground arith, ground arith, ground arith, λ i a b. ground arith)
  | inr later ↦
      let (found, low, high, before) = find_pid-some pid n (suc p) q t (rw later at h) in
      (found, omega arith, omega arith, λ i a b. ground (arith, before i))
]

find_pid-none :
    (pid n p : ℕ) (t : Ptable)
    → find_pid pid n p t ≡ none
    → (i : ℕ) → p ≤ i
    → i < p + n
    → (t.proc i).pid ≢ pid
unfolding find_pid
find_pid-none pid zero p t h i a b = absurd (omega arith)
find_pid-none pid (suc n) p t h i a b =
    ground (arith, find_pid-none pid n (suc p) t, find_pid-none pid n (suc p) t (ground arith) i)

pub find_pid-eq :
    {t : Ptable} {v : View} (p pid : ℕ)
    → IsValid t v
    → pid ≢ 0
    → (t.proc p).pid ≡ pid
    → find_pid pid nproc 0 t ≡ some p
find_pid-eq {t} p pid valid n e = elim (Option-cases (find_pid pid nproc 0 t)) [
  | inl gone ↦
      absurd (find_pid-none pid nproc 0 t gone p (omega arith) (valid.inside p (ground arith)) e)
  | inr (q, found) ↦
      let (same, low, high, first) = find_pid-some pid nproc 0 q t found in
      found ∙ ap some (valid.unique q p (ground arith) (ground arith))
]

-- The queues after `kill` of `p`, which was `q`: it joins its own level if it slept.
abbrev pub killed_view : View → ℕ → Process → View
killed_view v p q l = if is_sleeping q.state && is_ℕ q.current_level l then v l ++ p ∷ [] else v l

pub record Killed (t : Ptable) (v : View) (p : ℕ) (t' : Ptable) : Type 0 where
  pub valid' : IsValid t' (killed_view v p (t.proc p))
  pub flag : (t'.proc p).killed ≡ true
  pub state :
      (t'.proc p).state ≡ (if is_sleeping (t.proc p).state then runnable else (t.proc p).state)
  pub levels : (i : ℕ) → (t'.proc i).current_level ≡ (t.proc i).current_level
  pub pids : (i : ℕ) → (t'.proc i).pid ≡ (t.proc i).pid
  pub parents : (i : ℕ) → (t'.proc i).parent ≡ (t.proc i).parent
  pub states : (i : ℕ) → i ≢ p → (t'.proc i).state ≡ (t.proc i).state
  pub flags : (i : ℕ) → i ≢ p → (t'.proc i).killed ≡ (t.proc i).killed

module _ {t : Ptable} {v : View} (p : ℕ) (valid : IsValid t v) where
  abbrev flagged : Ptable
  flagged = put t p (record (t.proc p) { killed = true })

  flagged-Quiet : Quiet t flagged
  flagged-Quiet = record {
    states = λ i. ground arith;
    pids = λ i. ground arith;
    levels = λ i. ground arith;
    nexts = λ i. ground arith;
    mlfs = λ l. refl;
    sizes = refl;
    nextpids = refl;
  }

  flagged-IsValid : IsValid flagged v
  flagged-IsValid = Quiet-IsValid flagged-Quiet valid

  kill_awake :
      is_sleeping (t.proc p).state ≡ false → (kill_slot p t ≡ ok flagged) × Killed t v p flagged
  unfolding kill_slot
  kill_awake awake = (
    rw awake,
    record {
      valid' = IsValid-view (λ l. rw awake) flagged-IsValid;
      flag = ground arith;
      state = rw awake (ground arith);
      levels = flagged-Quiet.levels;
      pids = flagged-Quiet.pids;
      parents = λ i. ground arith;
      states = λ i n. ground arith;
      flags = λ i n. ground arith;
    },
  )

  flagged-CanJoin : is_sleeping (t.proc p).state ≡ true → CanJoin flagged p
  flagged-CanJoin asleep = record { idle = ground arith; live = ground arith }

  kill_asleep :
      (l : ℕ)
      → is_sleeping (t.proc p).state ≡ true
      → (t.proc p).current_level ≡ pos l
      → l < mlf_levels
      → (t' : Ptable) × (kill_slot p t ≡ ok t') × Killed t v p t'
  unfolding kill_slot
  kill_asleep l asleep e h =
      let (t', made, valid', j) =
        make_runnable_refines p l flagged-IsValid (flagged-CanJoin asleep) h in
      (
        t',
        slot ∙ made,
        record {
          valid' = IsValid-view (λ k. ground arith) valid';
          flag = j.killeds p ∙ ground arith;
          state = rw asleep j.state_self;
          levels = λ i. ground (arith, j.level_self, j.level_ne i);
          pids = λ i. j.pids i ∙ flagged-Quiet.pids i;
          parents = λ i. j.parents i ∙ ground arith;
          states = λ i n. j.state_ne i n ∙ flagged-Quiet.states i;
          flags = λ i n. j.killeds i ∙ ground arith;
        },
      )
    where
      slot : kill_slot p t ≡ make_runnable p (pos l) flagged
      slot = rw asleep (ap (λ z. make_runnable p z flagged) e)

  pub kill_slot_lem : (t' : Ptable) × (kill_slot p t ≡ ok t') × Killed t v p t'
  kill_slot_lem = elim (Bool-cases (is_sleeping (t.proc p).state)) [
    | inl asleep ↦
        let (l, e, h) = level_of (t.proc p).current_level (valid.leveled p (ground arith)) in
        kill_asleep l asleep e h
    | inr awake ↦ let (e, k) = kill_awake awake in (flagged, e, k)
  ]

-- `kill` of a pid that a process has succeeds, and flags that process; if it slept it becomes runnable
-- at the end of its own level. No other process changes its state, level, pid, parent or flag.
pub kill_refines :
    {t : Ptable} {v : View} (p pid : ℕ)
    → IsValid t v
    → pid ≢ 0
    → (t.proc p).pid ≡ pid
    → (t' : Ptable) × (kill pid t ≡ ok (true, t')) × Killed t v p t'
unfolding kill
kill_refines p pid valid n e =
    let (t', made, k) = kill_slot_lem p valid in
    (t', rw (kill, find_pid-eq p pid valid n e, made), k)

-- `kill` of a pid that no slot has returns -1 and changes nothing.
pub kill_missing :
    (pid : ℕ) (t : Ptable)
    → ((i : ℕ) → i < nproc → (t.proc i).pid ≢ pid)
    → kill pid t ≡ ok (false, t)
unfolding kill
kill_missing pid t missing = elim (Option-cases (find_pid pid nproc 0 t)) [
  | inl gone ↦ rw (gone, kill)
  | inr (q, found) ↦
      let (same, low, high, first) = find_pid-some pid nproc 0 q t found in
      absurd (missing q high same)
]
