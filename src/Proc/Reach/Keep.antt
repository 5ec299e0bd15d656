-- ===== src/Proc/Reach/Keep.antt =====
-- Whatever table a handler returns is well formed.
use sistema_operativo.Base.{
  ℕ, zero, suc, ◌+◌, ◌≡◌, ◌≢◌, refl, sym, ap, ◌∙◌, subst, Bool, true, false, Option, some, List, [],
  ◌∷◌, inl, inr, arith, Option-cases, Outcome, ok, ◌>>=◌, update, if◌then◌else◌,
}
use native.Mathlib.Decide.{ℕ_discrete}
use sistema_operativo.Proc.State.{Ptable, mlf_levels, nproc, is_running}
use sistema_operativo.Proc.Queue.Edit.{replace-IsValid}
use sistema_operativo.Proc.Queue.View.{View, IsValid, next_of}
use sistema_operativo.Proc.Queue.Links.{Holds}
use sistema_operativo.Proc.Sched.{
  allocproc, found, find_unused, find_pid, kill, exit, wait, Waited, sweep, dispatch, scan_from,
  zombie_child, children, after_scan, sleep, Scan, no_children, asleep,
}
use sistema_operativo.Proc.Sched.Kill.{kill_slot_lem, killed_view}
use sistema_operativo.Proc.Sched.Create.{find_unused-some, found-Created}
use sistema_operativo.Proc.Sched.Switch.{
  sweep-first, sweep-skip, first-empty, dispatch_refines, sleep-IsValid,
}
use sistema_operativo.Proc.Sched.Wait.{dead_child, reap-CanReplace}
use sistema_operativo.Proc.Sched.Exit.Zombie.{exit_refines}

pub ok-injective : {A : Type 0} {a b : A} → ok a ≡ ok b → a ≡ b
ok-injective h = cc

-- A table that is valid for some view.
abbrev pub Good : Ptable → Type 0
Good t = (v : View) × IsValid t v

pub kill-Good : (pid : ℕ) (b : Bool) {t t' : Ptable} → Good t → kill pid t ≡ ok (b, t') → Good t'
unfolding kill
kill-Good pid b {t} {t'} (v, valid) e = elim (Option-cases (find_pid pid nproc 0 t)) [
  | inl gone ↦ (v, subst (λ u. IsValid u v) (ground (arith, e, gone)) valid)
  | inr (p, found) ↦
      let (t1, made, k) = kill_slot_lem p valid in
      (
        killed_view v p (t.proc p),
        subst (λ u. IsValid u (killed_view v p (t.proc p))) (ground (arith, e, found, made))
            k.valid',
      )
]

pub allocproc-Good :
    (page p : ℕ) {t t' : Ptable} → Good t → allocproc (some page) t ≡ (some p, t') → Good t'
unfolding allocproc found
allocproc-Good page p {t} {t'} (v, valid) e = elim (Option-cases (find_unused nproc 0 t)) [
  | inl gone ↦ absurd (ground (arith, e, gone))
  | inr (q, slot) ↦
      let (free, low, high) = find_unused-some nproc 0 q t slot in
      (
        v,
        subst (λ u. IsValid u v) (ground (arith, e, slot))
            (found-Created page q valid free high).valid',
      )
]

scan_from_sound :
    (p n c i : ℕ) (havekids : Bool) (t : Ptable)
    → scan_from p n c havekids t ≡ zombie_child i
    → dead_child t p i ≡ true
unfolding scan_from
scan_from_sound p zero c i havekids t e = cc
scan_from_sound p (suc n) c i havekids t e =
    ground (arith, scan_from_sound p n (suc c) i true t, scan_from_sound p n (suc c) i havekids t)

either : (b : Bool) (x y : Waited × Ptable) → Good x.1 → Good y.1 → Good (if b then x else y).1
either true x y gx gy = gx
either false x y gx gy = gy

after_scan-Good :
    (addr : ℕ → ℕ) (p : ℕ) (s : Scan) {t : Ptable}
    → Good t
    → is_running (t.proc p).state ≡ true
    → ((i : ℕ) → s ≡ zombie_child i → dead_child t p i ≡ true)
    → Good (after_scan addr p s t).1
unfolding after_scan
after_scan-Good addr p (zombie_child c) {t} (v, valid) run dead = (
  v,
  replace-IsValid c _ t.nextpid (reap-CanReplace c _ valid (ground (arith, dead c refl)) refl refl)
      valid,
)
after_scan-Good addr p (children true) {t} (v, valid) run dead =
    either (t.proc p).killed (no_children, t) (asleep, sleep p (addr p) t) (v, valid)
      (v, sleep-IsValid p (addr p) valid run)
after_scan-Good addr p (children false) {t} (v, valid) run dead = (v, valid)

pub wait-Good :
    (addr : ℕ → ℕ) (p : ℕ) {t : Ptable}
    → Good t
    → is_running (t.proc p).state ≡ true
    → Good (wait addr p t).1
unfolding wait
wait-Good addr p {t} good run =
    after_scan-Good addr p (scan_from p nproc 0 false t) good run
      (λ i. scan_from_sound p nproc 0 i false t)

pub exit-Good :
    (addr : ℕ → ℕ) (init p : ℕ) {t t' : Ptable}
    → Good t
    → is_running (t.proc p).state ≡ true
    → exit addr init p t ≡ ok t'
    → Good t'
unfolding exit
exit-Good addr init p {t} {t'} (v, valid) run e = elim (ℕ_discrete p init) [
  | yes same ↦ absurd (ground (arith, e, same))
  | no other ↦
      let (t1, made, exited) = exit_refines addr init p valid run other in
      (exited.view, subst (λ u. IsValid u exited.view) (ok-injective (sym made ∙ e)) exited.valid')
]

dispatch-unmapped :
    (q : ℕ) (t : Ptable) {a : Option (ℕ × ℕ) × Ptable} (r : Option (ℕ × ℕ))
    → (t.proc q).pgdir ≡ 0
    → (dispatch q t >>= λ t'. ok (r, t')) ≢ ok a
unfolding dispatch
dispatch-unmapped q t r unmapped = ground arith

ok-second :
    {t1 t2 : Ptable} {r s : Option (ℕ × ℕ)}
    → ◌≡◌ {A = Outcome (Option (ℕ × ℕ) × Ptable)} (ok (r, t1)) (ok (s, t2))
    → t1 ≡ t2
ok-second h = cc

-- The table that a sweep returns with a chosen process is well formed.
pub sweep-Good :
    (n indice l p : ℕ) {t t' : Ptable}
    → Good t
    → n + indice ≡ mlf_levels
    → sweep n indice t ≡ ok (some (l, p), t')
    → Good t'
unfolding sweep
sweep-Good zero indice l p good all e = cc
sweep-Good (suc n) indice l p {t} {t'} (v, valid) all e =
    by_head (v indice) refl (sweep-Good n (suc indice) l p (v, valid) (omega arith))
  where
    by_head :
        (ys : List ℕ)
        → v indice ≡ ys
        → (sweep n (suc indice) t ≡ ok (some (l, p), t') → Good t')
        → Good t'
    by_head [] empty rec =
        rec (sym (sweep-skip n indice t (first-empty indice valid (omega arith) empty)) ∙ e)
    by_head (q ∷ rest) holds rec =
        let first =
          (subst (λ ys. Holds (next_of t) (t.mlf indice) ys) holds
            (valid.holds indice (omega arith))).0 in
        let chosen = sym (sweep-first n indice q t first) ∙ e in
        elim (ℕ_discrete (t.proc q).pgdir 0) [
          | yes unmapped ↦ absurd (dispatch-unmapped q t (some (indice, q)) unmapped chosen)
          | no mapped ↦
              let (t1, made, ran) =
                dispatch_refines indice q rest valid (omega arith) holds mapped in
              (
                update v indice rest,
                subst (λ u. IsValid u (update v indice rest))
                    (ok-second
                      (sym (ap (λ o. o >>= λ t'. ok (some (indice, q), t')) made) ∙ chosen))
                    ran.valid',
              )
        ]
