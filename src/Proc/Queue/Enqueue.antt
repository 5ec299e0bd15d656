-- ===== src/Proc/Queue/Enqueue.antt =====
-- `make_runnable` puts a process at the end of the queue of its level.
use sistema_operativo.Base.{
  ℕ, suc, ◌<◌, ◌≡◌, ◌≢◌, refl, sym, ap, subst, false, none, some, List, [], ◌∷◌, ◌++◌, inl, inr,
  count, count-cons, count-nil, count-append, length-append, ◌==◌, arith, ok, update, Bool-cases,
}
use sistema_operativo.Base.Int.{pos, inc}
use sistema_operativo.Proc.State.{Ptable, runnable, is_runnable, is_unused, mlf_levels, put}
use sistema_operativo.Proc.Queue.{make_runnable, set_level, set_next}
use sistema_operativo.Proc.Queue.Links.{
  Holds, Holds-frame, Links-append, last_of-append, last_of, count-last_of,
}
use sistema_operativo.Proc.Queue.View.{View, IsValid, next_of, queued, total}

-- The table after `make_runnable` at an empty level, and at one whose last process is `z`.
abbrev join_empty : ℕ → ℕ → Ptable → Ptable
join_empty p l t =
    let t' =
      set_level
        (record t {
          mlf =
              update t.mlf l
                (record (t.mlf l) { first = some p; last = some p; size = inc (t.mlf l).size });
          size = inc t.size;
        })
        p (pos l) in
    put t' p (record (t'.proc p) { state = runnable })

abbrev join_last : ℕ → ℕ → ℕ → Ptable → Ptable
join_last z p l t =
    let t' =
      set_level
        (set_next
          (record t {
            mlf = update t.mlf l (record (t.mlf l) { last = some p; size = inc (t.mlf l).size });
            size = inc t.size;
          })
          z p)
        p (pos l) in
    put t' p (record (t'.proc p) { state = runnable })

make_runnable_empty :
    (p l : ℕ) (t : Ptable)
    → l < mlf_levels
    → (t.mlf l).first ≡ none
    → make_runnable p (pos l) t ≡ ok (join_empty p l t)
unfolding make_runnable
make_runnable_empty p l t h e = ground arith

make_runnable_last :
    (p l x z : ℕ) (t : Ptable)
    → l < mlf_levels
    → (t.mlf l).first ≡ some x
    → (t.mlf l).last ≡ some z
    → make_runnable p (pos l) t ≡ ok (join_last z p l t)
unfolding make_runnable
make_runnable_last p l x z t h e f = ground arith

-- The table may be joined by `p`: a process that is live and in no queue.
pub record CanJoin (t : Ptable) (p : ℕ) : Type 0 where
  pub idle : is_runnable (t.proc p).state ≡ false
  pub live : is_unused (t.proc p).state ≡ false

-- What joining does to the processes and sizes, whatever the pointers are.
pub record Joined (t t' : Ptable) (p l : ℕ) : Type 0 where
  pub state_self : (t'.proc p).state ≡ runnable
  pub level_self : (t'.proc p).current_level ≡ pos l
  pub state_ne : (i : ℕ) → i ≢ p → (t'.proc i).state ≡ (t.proc i).state
  pub level_ne : (i : ℕ) → i ≢ p → (t'.proc i).current_level ≡ (t.proc i).current_level
  pub pids : (i : ℕ) → (t'.proc i).pid ≡ (t.proc i).pid
  pub size_self : (t'.mlf l).size ≡ inc (t.mlf l).size
  pub mlf_ne : (k : ℕ) → k ≢ l → t'.mlf k ≡ t.mlf k
  pub sizes : t'.size ≡ inc t.size
  pub nextpid : t'.nextpid ≡ t.nextpid
  pub chans : (i : ℕ) → (t'.proc i).chan ≡ (t.proc i).chan
  pub killeds : (i : ℕ) → (t'.proc i).killed ≡ (t.proc i).killed
  pub parents : (i : ℕ) → (t'.proc i).parent ≡ (t.proc i).parent

join_empty-Joined : (p l : ℕ) (t : Ptable) → Joined t (join_empty p l t) p l
join_empty-Joined p l t = record {
  state_self = ground arith;
  level_self = ground arith;
  state_ne = λ i n. ground arith;
  level_ne = λ i n. ground arith;
  pids = λ i. ground arith;
  chans = λ i. ground arith;
  killeds = λ i. ground arith;
  parents = λ i. ground arith;
  size_self = ground arith;
  mlf_ne = λ k n. ground arith;
  sizes = refl;
  nextpid = refl;
}

join_last-Joined : (z p l : ℕ) (t : Ptable) → Joined t (join_last z p l t) p l
join_last-Joined z p l t = record {
  state_self = ground arith;
  level_self = ground arith;
  state_ne = λ i n. ground arith;
  level_ne = λ i n. ground arith;
  pids = λ i. ground arith;
  chans = λ i. ground arith;
  killeds = λ i. ground arith;
  parents = λ i. ground arith;
  size_self = ground arith;
  mlf_ne = λ k n. ground arith;
  sizes = refl;
  nextpid = refl;
}

abbrev pub joined : View → ℕ → ℕ → View
joined v p l = update v l (v l ++ p ∷ [])

total-joined : (v : View) (p l : ℕ) → l < mlf_levels → total (joined v p l) ≡ suc (total v)
total-joined v p l h = ground (arith, length-append (v l) (p ∷ []))

module _ {t t' : Ptable} {v : View} {p l : ℕ} (valid : IsValid t v) (can : CanJoin t p)
    (h : l < mlf_levels) (j : Joined t t' p l) where
  open valid use {counted, sized, summed, leveled, inside, fresh, unique}

  joined-counted : (k i : ℕ) → k < mlf_levels → count i (joined v p l k) ≡ queued (t'.proc i) k
  joined-counted k i hk = ground (
    arith,
    counted k i hk,
    can,
    j.state_self,
    j.level_self,
    j.state_ne i,
    j.level_ne i,
    count-append i (v l) (p ∷ []),
    count-cons i p [],
    count-nil i,
  )

  joined-IsValid :
      ((k : ℕ) → k < mlf_levels → Holds (next_of t') (t'.mlf k) (joined v p l k))
      → IsValid t' (joined v p l)
  joined-IsValid holds = record {
    holds = holds;
    counted = joined-counted;
    sized =
        λ k hk. ground (arith, sized k hk, j.size_self, j.mlf_ne k, length-append (v l) (p ∷ []));
    summed = rw (j.sizes, summed, total-joined v p l h);
    leveled = λ i q. ground (arith, leveled i, j.state_ne i, j.level_ne i, j.level_self);
    numbered =
        λ i q. ground (arith, valid.numbered i, j.state_ne i, j.pids i, can, valid.numbered p);
    inside = λ i q. ground (arith, inside i, j.pids i);
    fresh = λ i. ground (arith, fresh i, j.pids i, j.nextpid);
    unique = λ a b q e. ground (arith, unique a b, j.pids a, j.pids b);
  }

module _ {t : Ptable} {v : View} {p l : ℕ} (valid : IsValid t v) (can : CanJoin t p)
    (h : l < mlf_levels) where
  open valid use {counted}

  absent : (k : ℕ) → k < mlf_levels → count p (v k) ≡ 0
  absent k hk = ground (arith, counted k p hk, can)

  join_empty-Holds :
      v l ≡ []
      → (k : ℕ) → k < mlf_levels
      → Holds (next_of (join_empty p l t)) ((join_empty p l t).mlf k) (joined v p l k)
  join_empty-Holds e k hk = elim (Bool-cases (l == k)) [
    | inl same ↦ rw (same, e) (refl, refl, tt)
    | inr other ↦ rw other (
        Holds-frame (next_of t) (next_of (join_empty p l t)) p (t.mlf k) (v k) (λ i n. ground arith)
          (absent k hk) (valid.holds k hk))
  ]

  module _ (x : ℕ) (xs : List ℕ) (e : v l ≡ x ∷ xs) where
    abbrev z : ℕ
    z = last_of x xs

    next-join_last : (i : ℕ) → i ≢ z → next_of (join_last z p l t) i ≡ next_of t i
    next-join_last i n = ground arith

    next-join_last_self : next_of (join_last z p l t) z ≡ some p
    next-join_last_self = ground arith

    once : count z (x ∷ xs) ≡ 1
    once = ground (arith, counted l z h, count-last_of x xs, e)

    elsewhere : (k : ℕ) → k < mlf_levels → l ≢ k → count z (v k) ≡ 0
    elsewhere k hk n = ground (arith, counted k z hk, counted l z h, once, e)

    held : Holds (next_of t) (t.mlf l) (x ∷ xs)
    held = subst (λ ys. Holds (next_of t) (t.mlf l) ys) e (valid.holds l h)

    join_last-Holds :
        (k : ℕ)
        → k < mlf_levels
        → Holds (next_of (join_last z p l t)) ((join_last z p l t).mlf k) (joined v p l k)
    join_last-Holds k hk = elim (Bool-cases (l == k)) [
      | inl same ↦
          rw (same, e)
            (
              held.0,
              ap some (sym (last_of-append x xs p)),
              Links-append (next_of t) (next_of (join_last z p l t)) p x xs next-join_last
                  next-join_last_self (omega (arith, once)) held.2,
            )
      | inr other ↦ rw other (
          Holds-frame (next_of t) (next_of (join_last z p l t)) z (t.mlf k) (v k) next-join_last
            (elsewhere k hk (ground arith)) (valid.holds k hk))
    ]

-- `make_runnable` succeeds at every level of the table, and puts `p` at the end of that level's queue:
-- the other queues keep their lists, and the other processes their states and levels.
pub make_runnable_refines :
    {t : Ptable} {v : View} (p l : ℕ)
    → IsValid t v
    → CanJoin t p
    → l < mlf_levels
    → (t' : Ptable) × (make_runnable p (pos l) t ≡ ok t')
      × IsValid t' (joined v p l)
      × Joined t t' p l
make_runnable_refines {t} {v} p l valid can h = by_list (v l) refl
  where
    by_list :
        (ys : List ℕ)
        → v l ≡ ys
        → (t' : Ptable) × (make_runnable p (pos l) t ≡ ok t')
          × IsValid t' (joined v p l)
          × Joined t t' p l
    by_list [] e = (
      join_empty p l t,
      make_runnable_empty p l t h
          (subst (λ ys. Holds (next_of t) (t.mlf l) ys) e (valid.holds l h)),
      joined-IsValid valid can h (join_empty-Joined p l t) (join_empty-Holds valid can h e),
      join_empty-Joined p l t,
    )
    by_list (x ∷ xs) e =
        let held = subst (λ ys. Holds (next_of t) (t.mlf l) ys) e (valid.holds l h) in
        (
          join_last (last_of x xs) p l t,
          make_runnable_last p l x (last_of x xs) t h held.0 held.1,
          joined-IsValid valid can h (join_last-Joined (last_of x xs) p l t)
              (join_last-Holds valid can h x xs e),
          join_last-Joined (last_of x xs) p l t,
        )
