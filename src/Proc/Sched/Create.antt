-- ===== src/Proc/Sched/Create.antt =====
-- `allocproc`: an unused slot, and a pid that no process has had.
use native.Mathlib.Decide.{ℕ_discrete}
use sistema_operativo.Base.{
  ℕ, zero, suc, ◌+◌, ◌≤◌, ◌<◌, ◌≡◌, ◌≢◌, refl, ◌∙◌, true, false, Option, none, some, inl, inr,
  arith, Bool-cases, Option-cases,
}
use sistema_operativo.Proc.State.{Process, Ptable, unused, embryo, is_unused, nproc, put}
use sistema_operativo.Proc.Queue.View.{View, IsValid}
use sistema_operativo.Proc.Queue.Edit.{CanReplace, replace-IsValid}
use sistema_operativo.Proc.Sched.{find_unused, found, allocproc, find_pid, kill, kill_slot}
use sistema_operativo.Base.{ok}

pub find_unused-some :
    (n p q : ℕ) (t : Ptable)
    → find_unused n p t ≡ some q
    → (is_unused (t.proc q).state ≡ true) × (p ≤ q) × (q < p + n)
unfolding find_unused
find_unused-some zero p q t h = cc
find_unused-some (suc n) p q t h = elim (Bool-cases (is_unused (t.proc p).state)) [
  | inl here ↦ (ground arith, ground arith, ground arith)
  | inr later ↦
      let (free, low, high) = find_unused-some n (suc p) q t (rw later at h) in
      (free, omega arith, omega arith)
]

find_unused-none :
    (n p : ℕ) (t : Ptable)
    → find_unused n p t ≡ none
    → (i : ℕ) → p ≤ i
    → i < p + n
    → is_unused (t.proc i).state ≡ false
unfolding find_unused
find_unused-none zero p t h i a b = absurd (omega arith)
find_unused-none (suc n) p t h i a b = elim (Bool-cases (is_unused (t.proc p).state)) [
  | inl here ↦ absurd (ground arith)
  | inr later ↦ elim (ℕ_discrete p i) [
    | yes e ↦ rw (← e) later
    | no e ↦ find_unused-none n (suc p) t (rw later at h) i (omega arith) (omega arith)
  ]
]

-- The table after `allocproc` has made the slot `p` an embryo.
pub record Created (t : Ptable) (v : View) (page p : ℕ) (t' : Ptable) : Type 0 where
  pub valid' : IsValid t' v
  pub free : is_unused (t.proc p).state ≡ true
  pub state : (t'.proc p).state ≡ embryo
  pub kstack : (t'.proc p).kstack ≡ page
  pub pid : (t'.proc p).pid ≡ t.nextpid
  pub new : (i : ℕ) → (t.proc i).pid ≢ (t'.proc p).pid
  pub others : (i : ℕ) → i ≢ p → t'.proc i ≡ t.proc i

module _ {t : Ptable} {v : View} (page p : ℕ) (valid : IsValid t v) where
  abbrev born : Process
  born = record (t.proc p) { state = embryo; pid = t.nextpid; kstack = page }

  born-CanReplace :
      is_unused (t.proc p).state ≡ true → p < nproc → CanReplace t p born (suc t.nextpid)
  born-CanReplace free h = record {
    was_idle = ground arith;
    idle = refl;
    leveled = λ h. cc;
    numbered = λ h. ground (arith, valid.fresh p);
    inside = λ n. h;
    fresh = omega arith;
    grows = omega arith;
    unique = λ i n h e. ground (arith, valid.fresh i);
  }

  pub found-Created :
      is_unused (t.proc p).state ≡ true
      → p < nproc
      → Created t v page p (record (put t p born) { nextpid = suc t.nextpid })
  found-Created free h = record {
    valid' = replace-IsValid p born (suc t.nextpid) (born-CanReplace free h) valid;
    free = free;
    state = ground arith;
    kstack = ground arith;
    pid = ground arith;
    new = λ i e. ground (arith, valid.fresh i);
    others = λ i n. ground arith;
  }

-- `allocproc` with a page, on a well-formed table: the first unused slot holds an embryo with that
-- stack and a pid that no process had, no other slot changes, and the queues are as before.
pub allocproc_refines :
    {t : Ptable} {v : View} (page p : ℕ)
    → IsValid t v
    → find_unused nproc 0 t ≡ some p
    → (t' : Ptable) × (allocproc (some page) t ≡ (some p, t')) × Created t v page p t'
unfolding allocproc found
allocproc_refines {t} page p valid e =
    let (free, low, high) = find_unused-some nproc 0 p t e in
    (_, rw (e, allocproc), found-Created page p valid free high)

pub allocproc_full :
    (page : Option ℕ) (t : Ptable)
    → ((i : ℕ) → i < nproc → is_unused (t.proc i).state ≡ false)
    → allocproc page t ≡ (none, t)
unfolding allocproc
allocproc_full page t full = elim (Option-cases (find_unused nproc 0 t)) [
  | inl gone ↦ rw (gone, allocproc)
  | inr (q, e) ↦
      let (free, low, high) = find_unused-some nproc 0 q t e in absurd (ground (arith, full q))
]

-- Without a page the slot stays unused, and the pid is used up.
pub no_page-IsValid : {t : Ptable} {v : View} → IsValid t v → IsValid (allocproc none t).1 v
unfolding allocproc found
no_page-IsValid {t} {v} valid = elim (Option-cases (find_unused nproc 0 t)) [
  | inl gone ↦ rw (gone, allocproc) valid
  | inr (p, e) ↦
      let (free, low, high) = find_unused-some nproc 0 p t e in
      rw (e, allocproc)
        (replace-IsValid p (record (t.proc p) { state = unused; kstack = 0; pid = t.nextpid })
          (suc t.nextpid)
          (record {
            was_idle = ground arith;
            idle = refl;
            leveled = λ h. cc;
            numbered = λ h. ground (arith, valid.fresh p);
            inside = λ n. high;
            fresh = omega arith;
            grows = omega arith;
            unique = λ i n h e. ground (arith, valid.fresh i);
          })
          valid)
]

find_unused-same :
    (n p : ℕ) (t t' : Ptable)
    → ((i : ℕ) → (t'.proc i).state ≡ (t.proc i).state)
    → find_unused n p t' ≡ find_unused n p t
unfolding find_unused
find_unused-same zero p t t' same = refl
find_unused-same (suc n) p t t' same = rw (same p, find_unused-same n (suc p) t t' same) refl

flagged-state :
    (p : ℕ) (t : Ptable) (i : ℕ)
    → ((put t p (record (t.proc p) { killed = true })).proc i).state ≡ (t.proc i).state
flagged-state p t i = ground arith

found-killed :
    (p page : ℕ) (t : Ptable) → ((found p (some page) t).1.proc p).killed ≡ (t.proc p).killed
unfolding found
found-killed p page t = ground arith

flagged-killed :
    (p : ℕ) (t : Ptable) → ((put t p (record (t.proc p) { killed = true })).proc p).killed ≡ true
flagged-killed p t = ground arith

found-some : (p page : ℕ) (t : Ptable) → (found p (some page) t).0 ≡ some p
unfolding found
found-some p page t = refl

-- `kill` does not look whether the slot that it finds is in use, and `allocproc` does not reset
-- `killed`. If the slot that `allocproc` would take is the first whose pid is 0, as it is when only
-- slots that were never used or were reaped have that pid, then `kill(0)` succeeds, and the next
-- process created in that slot starts out as killed.
pub kill_zero :
    (p page : ℕ) (t : Ptable)
    → find_pid 0 nproc 0 t ≡ some p
    → find_unused nproc 0 t ≡ some p
    → (t' : Ptable) × (kill 0 t ≡ ok (true, t'))
      × ((allocproc (some page) t').0 ≡ some p)
      × (((allocproc (some page) t').1.proc p).killed ≡ true)
unfolding kill kill_slot allocproc
kill_zero p page t named free = (
  t',
  rw (named, kill) (ground (arith, find_unused-some nproc 0 p t free)),
  rw (again, allocproc) (found-some p page t'),
  rw (again, allocproc) (found-killed p page t' ∙ flagged-killed p t),
)
  where
    t' : Ptable
    t' = put t p (record (t.proc p) { killed = true })

    again : find_unused nproc 0 t' ≡ some p
    again = find_unused-same nproc 0 t t' (flagged-state p t) ∙ free
