-- ===== src/Proc/Queue/View.antt =====
-- The abstract view of the queues: for each level, the list of its processes, oldest first.
use sistema_operativo.Base.{
  ℕ, ◌+◌, ◌<◌, ◌≡◌, ◌≢◌, refl, subst, fun_ext, Bool, true, false, ◌&&◌, Option, List, [], length,
  arith, count, if◌then◌else◌, ltb, ltb→lt, count-nil,
}
use sistema_operativo.Base.Int.{ℤ, pos, negsuc, is_ℕ}
use sistema_operativo.Proc.State.{
  Process, Ptable, is_runnable, is_unused, is_placed, nproc, mlf_levels, boot,
}
use sistema_operativo.Proc.Queue.Links.{Holds}

abbrev pub View : Type 0
View = ℕ → List ℕ

abbrev pub next_of : Ptable → ℕ → Option ℕ
next_of t i = (t.proc i).next

-- How often a process is to stand in the queue of level `l`.
abbrev pub queued : Process → ℕ → ℕ
queued p l = if is_runnable p.state && is_ℕ p.current_level l then 1 else 0

abbrev pub is_level : ℤ → Bool
is_level (pos l) = ltb l mlf_levels
is_level (negsuc n) = false

pub level_of : (z : ℤ) → is_level z ≡ true → (l : ℕ) × (z ≡ pos l) × (l < mlf_levels)
level_of (pos l) h = (l, refl, ltb→lt l mlf_levels h)
level_of (negsuc n) h = cc

abbrev pub total : View → ℕ
total v = length (v 0) + length (v 1) + length (v 2) + length (v 3)

-- The table is well formed and its queues hold the lists of `v`: the pointers of each level chain
-- its list; a process stands in a list exactly if it is runnable at that level, and then once; the
-- sizes are the lengths; pids other than 0 differ, and a process in use has one.
pub record IsValid (t : Ptable) (v : View) : Type 0 where
  pub holds : (l : ℕ) → l < mlf_levels → Holds (next_of t) (t.mlf l) (v l)
  pub counted : (l p : ℕ) → l < mlf_levels → count p (v l) ≡ queued (t.proc p) l
  pub sized : (l : ℕ) → l < mlf_levels → (t.mlf l).size ≡ pos (length (v l))
  pub summed : t.size ≡ pos (total v)
  pub leveled :
      (p : ℕ) → is_placed (t.proc p).state ≡ true → is_level (t.proc p).current_level ≡ true
  pub numbered : (p : ℕ) → is_unused (t.proc p).state ≡ false → (t.proc p).pid ≢ 0
  pub inside : (p : ℕ) → (t.proc p).pid ≢ 0 → p < nproc
  pub fresh : (p : ℕ) → (t.proc p).pid < t.nextpid
  pub unique : (p q : ℕ) → (t.proc p).pid ≢ 0 → (t.proc p).pid ≡ (t.proc q).pid → p ≡ q

-- The table at boot is valid, and its queues are empty.
pub boot-IsValid : IsValid boot (λ _. [])
boot-IsValid = record {
  holds = λ l h. refl;
  counted = λ l p h. count-nil p;
  sized = λ l h. refl;
  summed = refl;
  leveled = λ p h. cc;
  numbered = λ p h. cc;
  inside = λ p h. absurd (h refl);
  fresh = λ p. omega arith;
  unique = λ p q h e. absurd (h refl);
}

-- Views that hold the same lists are one.
pub IsValid-view : {t : Ptable} {v w : View} → ((l : ℕ) → v l ≡ w l) → IsValid t v → IsValid t w
IsValid-view {t} e valid = subst (IsValid t) (fun_ext e) valid
