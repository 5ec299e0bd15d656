-- ===== src/Proc/Sched/Wakeup.antt =====
-- `wakeup1` puts every process that sleeps on the channel at the end of the level above its own.
use sistema_operativo.Base.{
  ℕ, zero, suc, ◌+◌, ◌≤◌, ◌<◌, ◌≡◌, ◌≢◌, refl, sym, ap, ap₂, subst, ◌∙◌, Bool, true, false, ◌&&◌,
  List, [], ◌∷◌, ◌++◌, inl, inr, if◌then◌else◌, ltb, leb, ◌==◌, arith, ok, Bool-cases,
}
use native.Mathlib.Decide.{ℕ_discrete}
use mathlib.Core.List.{append-nil, append_assoc}
use sistema_operativo.Base.Int.{ℤ, pos, negsuc, is_ℕ, is_positive, dec}
use sistema_operativo.Proc.State.{
  Process, Ptable, runnable, is_sleeping, is_unused, nproc, mlf_levels,
}
use sistema_operativo.Proc.Queue.{up}
use sistema_operativo.Proc.Queue.View.{View, IsValid, IsValid-view, is_level}
use sistema_operativo.Proc.Queue.Enqueue.{CanJoin, make_runnable_refines}
use sistema_operativo.Proc.Sched.{wakeup_slot, wakeup_from, wakeup1}

-- One level up, with level 0 as the top; a level that is none stays.
abbrev pub above : ℤ → ℤ
above (pos zero) = pos 0
above (pos (suc l)) = pos l
above (negsuc n) = negsuc n

up-above : (p : Process) → up p ≡ above p.current_level
unfolding up
up-above p = by_level p.current_level
  where
    by_level : (z : ℤ) → (if is_positive z then dec z else z) ≡ above z
    by_level (pos zero) = refl
    by_level (pos (suc l)) = ground arith
    by_level (negsuc n) = refl

abbrev pub sleeps_on : ℕ → Process → Bool
sleeps_on chan p = is_sleeping p.state && p.chan == chan

-- The processes that wake at level `l`, of the `n` slots from `p` on.
abbrev pub woken : ℕ → Ptable → ℕ → ℕ → ℕ → List ℕ
woken chan t l zero p = []
woken chan t l (suc n) p =
    if sleeps_on chan (t.proc p) && is_ℕ (above (t.proc p).current_level) l
    then p ∷ woken chan t l n (suc p)
    else woken chan t l n (suc p)

-- A process of slot `i` before and after: `w` says whether it woke.
pub record Woke (p q : Process) (w : Bool) : Type 0 where
  pub state : q.state ≡ (if w then runnable else p.state)
  pub level : q.current_level ≡ (if w then above p.current_level else p.current_level)
  pub chan : q.chan ≡ p.chan
  pub killed : q.killed ≡ p.killed
  pub pid : q.pid ≡ p.pid
  pub parent : q.parent ≡ p.parent

abbrev in_range : ℕ → ℕ → ℕ → Bool
in_range p n i = leb p i && ltb i (p + n)

up-is_level :
    (p : Process) → is_level p.current_level ≡ true → (l : ℕ) × (up p ≡ pos l) × (l < mlf_levels)
unfolding up
up-is_level p h = by_level p.current_level refl
  where
    by_level : (z : ℤ) → p.current_level ≡ z → (l : ℕ) × (up p ≡ pos l) × (l < mlf_levels)
    by_level (pos zero) e = (0, ground (arith, h), omega arith)
    by_level (pos (suc l)) e = (l, ground (arith, h), ground (arith, h, e))
    by_level (negsuc n) e = cc

module _ (chan : ℕ) {t : Ptable} {v : View} (valid : IsValid t v) where
  -- One slot: its process joins the level above its own if it sleeps on the channel.
  record Slot (p : ℕ) (t' : Ptable) : Type 0 where
    computes : wakeup_slot chan p t ≡ ok t'
    valid' : IsValid t' (λ l. v l ++ woken chan t l 1 p)
    self : Woke (t.proc p) (t'.proc p) (sleeps_on chan (t.proc p))
    others : (i : ℕ) → i ≢ p → Woke (t.proc i) (t'.proc i) false

  sleeper : (p : ℕ) → sleeps_on chan (t.proc p) ≡ true → CanJoin t p
  sleeper p sleeps = record { idle = ground arith; live = ground arith }

  sleeper_level :
      (p : ℕ) → sleeps_on chan (t.proc p) ≡ true → is_level (t.proc p).current_level ≡ true
  sleeper_level p sleeps = valid.leveled p (ground arith)

  wakeup_sleeper :
      (p l : ℕ)
      → sleeps_on chan (t.proc p) ≡ true
      → up (t.proc p) ≡ pos l
      → l < mlf_levels
      → (t' : Ptable) × Slot p t'
  unfolding wakeup_slot
  wakeup_sleeper p l sleeps e h =
      let at = sym (up-above (t.proc p)) ∙ e in
      let (t', made, valid', j) = make_runnable_refines p l valid (sleeper p sleeps) h in
      (
        t',
        record {
          computes = rw (sleeps, e) made;
          valid' = IsValid-view (λ k. ground (arith, at, append-nil (v k))) valid';
          self = record {
            state = rw sleeps j.state_self;
            level = rw sleeps (j.level_self ∙ sym at);
            chan = j.chans p;
            killed = j.killeds p;
            pid = j.pids p;
            parent = j.parents p;
          };
          others = λ i n. record {
            state = j.state_ne i n;
            level = j.level_ne i n;
            chan = j.chans i;
            killed = j.killeds i;
            pid = j.pids i;
            parent = j.parents i;
          };
        },
      )

  wakeup_slot_lem : (p : ℕ) → (t' : Ptable) × Slot p t'
  unfolding wakeup_slot
  wakeup_slot_lem p = elim (Bool-cases (sleeps_on chan (t.proc p))) [
    | inl sleeps ↦
        let (l, e, h) = up-is_level (t.proc p) (sleeper_level p sleeps) in
        wakeup_sleeper p l sleeps e h
    | inr awake ↦ (
      t,
      record {
        computes = rw awake;
        valid' = IsValid-view (λ k. ground (arith, append-nil (v k))) valid;
        self = record {
          state = rw awake;
          level = rw awake;
          chan = refl;
          killed = refl;
          pid = refl;
          parent = refl;
        };
        others = λ i n. record {
          state = refl;
          level = refl;
          chan = refl;
          killed = refl;
          pid = refl;
          parent = refl;
        };
      },
    )
  ]

-- Slots that are not touched wake the same processes.
woken-congr :
    (chan : ℕ) (t t' : Ptable) (l n p : ℕ)
    → ((i : ℕ) → p ≤ i → Woke (t.proc i) (t'.proc i) false)
    → woken chan t' l n p ≡ woken chan t l n p
unfolding up
woken-congr chan t t' l zero p same = refl
woken-congr chan t t' l (suc n) p same =
    ground
      (arith, same p (omega arith), woken-congr chan t t' l n (suc p) (λ i h. same i (omega arith)))

woken-append :
    (chan : ℕ) (t : Ptable) (l n p : ℕ)
    → woken chan t l 1 p ++ woken chan t l n (suc p) ≡ woken chan t l (suc n) p
woken-append chan t l n p = ground arith

Woke-same : (a : Process) → Woke a a false
Woke-same a = record {
  state = refl;
  level = refl;
  chan = refl;
  killed = refl;
  pid = refl;
  parent = refl;
}

Woke-after : {a b c : Process} (w : Bool) → Woke a b false → Woke b c w → Woke a c w
unfolding up
Woke-after w f g = record {
  state = ground (arith, f.state, g.state);
  level = ground (arith, f.level, g.level);
  chan = g.chan ∙ f.chan;
  killed = g.killed ∙ f.killed;
  pid = g.pid ∙ f.pid;
  parent = g.parent ∙ f.parent;
}

Woke-before : {a b c : Process} (w : Bool) → Woke a b w → Woke b c false → Woke a c w
Woke-before w f g = record {
  state = g.state ∙ f.state;
  level = g.level ∙ f.level;
  chan = g.chan ∙ f.chan;
  killed = g.killed ∙ f.killed;
  pid = g.pid ∙ f.pid;
  parent = g.parent ∙ f.parent;
}

sleeps_on-Woke : (chan : ℕ) {a b : Process} → Woke a b false → sleeps_on chan b ≡ sleeps_on chan a
sleeps_on-Woke chan f = rw (f.state, f.chan)

-- What the loop over `n` slots from `p` on does.
pub record Loop (chan : ℕ) (t : Ptable) (v : View) (n p : ℕ) (t' : Ptable) : Type 0 where
  pub computes : wakeup_from chan n p t ≡ ok t'
  pub valid' : IsValid t' (λ l. v l ++ woken chan t l n p)
  pub slots : (i : ℕ) → Woke (t.proc i) (t'.proc i) (in_range p n i && sleeps_on chan (t.proc i))

slot_then_loop :
    (chan n p : ℕ) (t t1 t2 : Ptable)
    → Woke (t.proc p) (t1.proc p) (sleeps_on chan (t.proc p))
    → ((i : ℕ) → i ≢ p → Woke (t.proc i) (t1.proc i) false)
    → ((i : ℕ) → Woke (t1.proc i) (t2.proc i) (in_range (suc p) n i && sleeps_on chan (t1.proc i)))
    → (i : ℕ) → Woke (t.proc i) (t2.proc i) (in_range p (suc n) i && sleeps_on chan (t.proc i))
slot_then_loop chan n p t t1 t2 self others rest i = elim (ℕ_discrete i p) [
  | yes e ↦ rw e (
      subst (Woke (t.proc p) (t2.proc p)) (ground arith) (
        Woke-before (sleeps_on chan (t.proc p)) self
          (subst (Woke (t1.proc p) (t2.proc p)) (ground arith) (rest p))))
  | no other ↦
      subst (Woke (t.proc i) (t2.proc i))
        (ap₂ ◌&&◌ (shifted i other) (sleeps_on-Woke chan (others i other)))
        (Woke-after _ (others i other) (rest i))
]
  where
    shifted : (i : ℕ) → i ≢ p → in_range (suc p) n i ≡ in_range p (suc n) i
    shifted i other = ground arith

wakeup_from_lem :
    (chan n p : ℕ) {t : Ptable} {v : View} → IsValid t v → (t' : Ptable) × Loop chan t v n p t'
unfolding wakeup_from
wakeup_from_lem chan zero p {t} {v} valid = (
  t,
  record {
    computes = refl;
    valid' = IsValid-view (λ l. sym (append-nil (v l))) valid;
    slots = λ i. subst (Woke (t.proc i) (t.proc i)) (ground arith) (Woke-same (t.proc i));
  },
)
wakeup_from_lem chan (suc n) p {t} {v} valid =
    let (t1, slot) = wakeup_slot_lem chan valid p in
    let (t2, loop) = wakeup_from_lem chan n (suc p) slot.valid' in
    (
      t2,
      record {
        computes = rw slot.computes loop.computes;
        valid' =
            IsValid-view
              (λ l.
                append_assoc (v l) (woken chan t l 1 p) (woken chan t1 l n (suc p))
                ∙ ap (λ w. v l ++ (woken chan t l 1 p ++ w))
                    (woken-congr chan t t1 l n (suc p) (λ i h. slot.others i (omega arith)))
                ∙ ap (λ w. v l ++ w) (woken-append chan t l n p))
              loop.valid';
        slots = slot_then_loop chan n p t t1 t2 slot.self slot.others loop.slots;
      },
    )

sleeper_inside : (chan : ℕ) (q : Process) → sleeps_on chan q ≡ true → is_unused q.state ≡ false
sleeper_inside chan q h = ground arith

all_slots :
    (chan i : ℕ) {t : Ptable} {v : View}
    → IsValid t v
    → in_range 0 nproc i && sleeps_on chan (t.proc i) ≡ sleeps_on chan (t.proc i)
all_slots chan i {t} valid = elim (Bool-cases (sleeps_on chan (t.proc i))) [
  | inl sleeps ↦
      rw sleeps (within (valid.inside i (valid.numbered i (sleeper_inside chan (t.proc i) sleeps))))
  | inr awake ↦ rw awake (beyond (in_range 0 nproc i))
]
  where
    within : i < nproc → in_range 0 nproc i && true ≡ true
    within h = ground arith

    beyond : (b : Bool) → b && false ≡ false
    beyond b = ground arith

-- `wakeup1` succeeds. Every process that sleeps on the channel becomes runnable one level up (or stays
-- at level 0), and stands at the end of that level's queue, in the order of the table; all other
-- processes keep their state and level, and no process changes its channel, pid, parent or killed flag.
pub wakeup1_refines :
    (chan : ℕ) {t : Ptable} {v : View}
    → IsValid t v
    → (t' : Ptable) × (wakeup1 chan t ≡ ok t')
      × IsValid t' (λ l. v l ++ woken chan t l nproc 0)
      × ((i : ℕ) → Woke (t.proc i) (t'.proc i) (sleeps_on chan (t.proc i)))
unfolding wakeup1
wakeup1_refines chan {t} valid =
    let (t', loop) = wakeup_from_lem chan nproc 0 valid in
    (
      t',
      loop.computes,
      loop.valid',
      λ i. subst (Woke (t.proc i) (t'.proc i)) (all_slots chan i valid) (loop.slots i),
    )
