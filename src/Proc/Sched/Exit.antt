-- ===== src/Proc/Sched/Exit.antt =====
-- `exit`: the parent wakes, the children go to `init`, and the process becomes a zombie.
pub mod Zombie
use native.Mathlib.Decide.{ℕ_discrete}
use sistema_operativo.Base.{
  ℕ, zero, suc, ◌+◌, ◌≤◌, ◌<◌, ◌≡◌, ◌≢◌, ◌⊎◌, refl, sym, ap, ap₂, subst, ◌∙◌, Bool, true, false,
  not, ◌&&◌, ◌||◌, Option, none, some, inl, inr, if◌then◌else◌, ltb, leb, ◌==◌, arith, update,
  Bool-cases, Option-cases, Outcome, ok, ◌>>=◌,
}
use sistema_operativo.Proc.State.{
  Process, Ptable, unused, zombie, runnable, is_zombie, is_runnable, is_running, is_sleeping,
  is_placed, is_unused, nproc, put,
}
use sistema_operativo.Proc.Queue.View.{View, IsValid}
use sistema_operativo.Proc.Queue.Edit.{CanReplace, replace-IsValid, Quiet, Quiet-IsValid}
use sistema_operativo.Proc.Sched.{is_child, parent_chan, pass_slot, pass_from, exit, wakeup1}
use sistema_operativo.Proc.Sched.Wakeup.{Woke, sleeps_on, wakeup1_refines}

-- A process before and after, while others exit: it may wake. `w` says whether it gets a new parent.
pub record Nudged (init : ℕ) (a b : Process) (w : Bool) : Type 0 where
  pub state : (b.state ≡ a.state) ⊎ ((is_sleeping a.state ≡ true) × (b.state ≡ runnable))
  pub pid : b.pid ≡ a.pid
  pub killed : b.killed ≡ a.killed
  pub parent : b.parent ≡ (if w then some init else a.parent)

Nudged-Woke :
    (init : ℕ) {a b : Process} (chan : ℕ) → Woke a b (sleeps_on chan a) → Nudged init a b false
Nudged-Woke init chan k = record {
  state = ground (arith, k.state);
  pid = k.pid;
  killed = k.killed;
  parent = k.parent;
}

Nudged-before :
    {init : ℕ} {a b c : Process} (w : Bool)
    → Nudged init a b w
    → Nudged init b c false
    → Nudged init a c w
Nudged-before w f g = record {
  state = ground (arith, f.state, g.state);
  pid = g.pid ∙ f.pid;
  killed = g.killed ∙ f.killed;
  parent = g.parent ∙ f.parent;
}

Nudged-after :
    {init : ℕ} {a b c : Process} (w : Bool)
    → Nudged init a b false
    → Nudged init b c w
    → Nudged init a c w
Nudged-after w f g = record {
  state = ground (arith, f.state, g.state);
  pid = g.pid ∙ f.pid;
  killed = g.killed ∙ f.killed;
  parent = ground (arith, f.parent, g.parent);
}

module _ (addr : ℕ → ℕ) (init p : ℕ) where
  abbrev adopted : Ptable → ℕ → Ptable
  adopted t c = put t c (record (t.proc c) { parent = some init })

  adopted-Quiet : (t : Ptable) (c : ℕ) → Quiet t (adopted t c)
  adopted-Quiet t c = record {
    states = λ i. ground arith;
    pids = λ i. ground arith;
    levels = λ i. ground arith;
    nexts = λ i. ground arith;
    mlfs = λ l. refl;
    sizes = refl;
    nextpids = refl;
  }

  adopted-Nudged : (t : Ptable) (c i : ℕ) → Nudged init (t.proc i) ((adopted t c).proc i) (i == c)
  adopted-Nudged t c i = record {
    state = inl ((adopted-Quiet t c).states i);
    pid = (adopted-Quiet t c).pids i;
    killed = ground arith;
    parent = ground arith;
  }

  -- What one slot of the loop does.
  record Passed (t : Ptable) (c : ℕ) (t' : Ptable) : Type 0 where
    view : View
    computes : pass_slot addr init p c t ≡ ok t'
    valid' : IsValid t' view
    slots : (i : ℕ) → Nudged init (t.proc i) (t'.proc i) (i == c && is_child (t.proc c) p)

  pass_slot_child :
      {t : Ptable} {v : View} (c : ℕ)
      → IsValid t v
      → is_child (t.proc c) p ≡ true
      → (t' : Ptable) × Passed t c t'
  unfolding pass_slot
  pass_slot_child {t} {v} c valid kid = elim (Bool-cases (is_zombie (t.proc c).state)) [
    | inl dead ↦
        let (t', woken, valid', slots) =
          wakeup1_refines (addr init) (Quiet-IsValid (adopted-Quiet t c) valid) in
        (
          t',
          record {
            view = _;
            computes = rw (kid, dead) woken;
            valid' = valid';
            slots = λ i. rw kid (
                subst (Nudged init (t.proc i) (t'.proc i)) (ground arith) (
                  Nudged-before (i == c) (adopted-Nudged t c i)
                    (Nudged-Woke init (addr init) (slots i))));
          },
        )
    | inr alive ↦ (
      adopted t c,
      record {
        view = v;
        computes = rw (kid, alive);
        valid' = Quiet-IsValid (adopted-Quiet t c) valid;
        slots =
            λ i. rw kid (subst (Nudged init (t.proc i) _) (ground arith) (adopted-Nudged t c i));
      },
    )
  ]

  Nudged-same : (a : Process) → Nudged init a a false
  Nudged-same a = record { state = inl refl; pid = refl; killed = refl; parent = refl }

  pass_slot_lem : {t : Ptable} {v : View} (c : ℕ) → IsValid t v → (t' : Ptable) × Passed t c t'
  unfolding pass_slot
  pass_slot_lem {t} {v} c valid = elim (Bool-cases (is_child (t.proc c) p)) [
    | inl kid ↦ pass_slot_child c valid kid
    | inr other ↦ (
      t,
      record {
        view = v;
        computes = rw other;
        valid' = valid;
        slots = λ i.
            rw other
              (subst (Nudged init (t.proc i) (t.proc i)) (ground arith) (Nudged-same (t.proc i)));
      },
    )
  ]

  abbrev within : ℕ → ℕ → ℕ → Bool
  within c n i = leb c i && ltb i (c + n)

  pub record PassedAll (t : Ptable) (n c : ℕ) (t' : Ptable) : Type 0 where
    pub view : View
    pub computes : pass_from addr init p n c t ≡ ok t'
    pub valid' : IsValid t' view
    pub slots : (i : ℕ) → Nudged init (t.proc i) (t'.proc i) (within c n i && is_child (t.proc i) p)

  pub is_child-Nudged : {a b : Process} → Nudged init a b false → is_child b p ≡ is_child a p
  is_child-Nudged f = rw f.parent

  -- The slots after one slot and the loop over the rest.
  slot_then_loop :
      (n c : ℕ) (t t1 t2 : Ptable)
      → ((i : ℕ) → Nudged init (t.proc i) (t1.proc i) (i == c && is_child (t.proc c) p))
      → ((i : ℕ)
          → Nudged init (t1.proc i) (t2.proc i) (within (suc c) n i && is_child (t1.proc i) p))
      → (i : ℕ) → Nudged init (t.proc i) (t2.proc i) (within c (suc n) i && is_child (t.proc i) p)
  slot_then_loop n c t t1 t2 slot rest i = elim (ℕ_discrete i c) [
    | yes e ↦ rw e (
        subst (Nudged init (t.proc c) (t2.proc c)) here (
          Nudged-before (c == c && is_child (t.proc c) p) (slot c)
            (subst (Nudged init (t1.proc c) (t2.proc c)) past (rest c))))
    | no other ↦
        let kept = subst (Nudged init (t.proc i) (t1.proc i)) (apart other) (slot i) in
        subst (Nudged init (t.proc i) (t2.proc i)) (ap₂ ◌&&◌ (shifted other) (is_child-Nudged kept))
          (Nudged-after _ kept (rest i))
  ]
    where
      here : c == c && is_child (t.proc c) p ≡ within c (suc n) c && is_child (t.proc c) p
      here = ground arith

      past : within (suc c) n c && is_child (t1.proc c) p ≡ false
      past = ground arith

      apart : i ≢ c → i == c && is_child (t.proc c) p ≡ false
      apart other = ground arith

      shifted : i ≢ c → within (suc c) n i ≡ within c (suc n) i
      shifted other = ground arith

  pub pass_from_lem :
      (n c : ℕ) {t : Ptable} {v : View} → IsValid t v → (t' : Ptable) × PassedAll t n c t'
  unfolding pass_from
  pass_from_lem zero c {t} {v} valid = (
    t,
    record {
      view = v;
      computes = refl;
      valid' = valid;
      slots = λ i. subst (Nudged init (t.proc i) (t.proc i)) (nowhere i) (Nudged-same (t.proc i));
    },
  )
    where
      nowhere : (i : ℕ) → false ≡ within c 0 i && is_child (t.proc i) p
      nowhere i = ground arith
  pass_from_lem (suc n) c {t} valid =
      let (t1, slot) = pass_slot_lem c valid in
      let (t2, loop) = pass_from_lem n (suc c) slot.valid' in
      (
        t2,
        record {
          view = loop.view;
          computes = rw slot.computes loop.computes;
          valid' = loop.valid';
          slots = slot_then_loop n c t t1 t2 slot.slots loop.slots;
        },
      )
