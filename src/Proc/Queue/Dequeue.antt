-- ===== src/Proc/Queue/Dequeue.antt =====
-- `make_running` takes the first process of a level out of its queue.
use sistema_operativo.Base.{
  ℕ, suc, ◌<◌, ◌≡◌, ◌≢◌, refl, sym, subst, fun_ext, ◌∙◌, true, Option, none, some, List, [], ◌∷◌,
  inl, inr, count, count-cons, if◌then◌else◌, ◌==◌, ==_iff, arith, ok, update, Bool-cases,
}
use sistema_operativo.Base.Int.{pos, dec}
use sistema_operativo.Proc.State.{Ptable, Level, running, is_runnable, mlf_levels}
use sistema_operativo.Proc.Queue.{make_running}
use sistema_operativo.Proc.Queue.Links.{Holds, last_of, count-last_of}
use sistema_operativo.Proc.Queue.View.{View, IsValid, next_of, queued, total}

-- The table after `make_running`, with the pointers left at level `l`.
abbrev leave : ℕ → ℕ → Option ℕ → Option ℕ → Ptable → Ptable
leave p l first last t = record t {
  proc = update t.proc p (record (t.proc p) { state = running });
  mlf = update t.mlf l (record { first = first; last = last; size = dec (t.mlf l).size });
  size = dec t.size;
}

make_running_lem :
    (p l x z : ℕ) (t : Ptable)
    → l < mlf_levels
    → (t.proc p).current_level ≡ pos l
    → (t.mlf l).first ≡ some x
    → (t.mlf l).last ≡ some z
    → make_running p t
      ≡ ok (
          if (t.proc z).pid == (t.proc x).pid
          then leave p l none none t
          else leave p l (t.proc p).next (t.mlf l).last t)
unfolding make_running
make_running_lem p l x z t h lev e f = ground arith

-- What leaving does to the processes and the sizes.
pub record Left (t t' : Ptable) (p l : ℕ) : Type 0 where
  pub state_self : (t'.proc p).state ≡ running
  pub state_ne : (i : ℕ) → i ≢ p → (t'.proc i).state ≡ (t.proc i).state
  pub levels : (i : ℕ) → (t'.proc i).current_level ≡ (t.proc i).current_level
  pub pids : (i : ℕ) → (t'.proc i).pid ≡ (t.proc i).pid
  pub chans : (i : ℕ) → (t'.proc i).chan ≡ (t.proc i).chan
  pub killeds : (i : ℕ) → (t'.proc i).killed ≡ (t.proc i).killed
  pub parents : (i : ℕ) → (t'.proc i).parent ≡ (t.proc i).parent
  pub nexts : (i : ℕ) → next_of t' i ≡ next_of t i
  pub size_self : (t'.mlf l).size ≡ dec (t.mlf l).size
  pub mlf_ne : (k : ℕ) → k ≢ l → t'.mlf k ≡ t.mlf k
  pub sizes : t'.size ≡ dec t.size
  pub nextpid : t'.nextpid ≡ t.nextpid

leave-Left : (p l : ℕ) (first last : Option ℕ) (t : Ptable) → Left t (leave p l first last t) p l
leave-Left p l first last t = record {
  state_self = ground arith;
  state_ne = λ i n. ground arith;
  levels = λ i. ground arith;
  pids = λ i. ground arith;
  chans = λ i. ground arith;
  killeds = λ i. ground arith;
  parents = λ i. ground arith;
  nexts = λ i. ground arith;
  size_self = ground arith;
  mlf_ne = λ k n. ground arith;
  sizes = refl;
  nextpid = refl;
}

module _ {t : Ptable} {v : View} (p l : ℕ) (rest : List ℕ) (valid : IsValid t v)
    (h : l < mlf_levels) (e : v l ≡ p ∷ rest) where
  open valid use {counted, sized, summed, leveled, inside, fresh, unique}

  -- The first process of a level is runnable, and at that level.
  pub head-queued : (is_runnable (t.proc p).state ≡ true) × ((t.proc p).current_level ≡ pos l)
  head-queued = ground (arith, counted l p h, count-cons p p rest, e)

  gone : count p rest ≡ 0
  gone = ground (arith, counted l p h, count-cons p p rest, e)

  Left-counted :
      {t' : Ptable}
      → Left t t' p l
      → (k i : ℕ) → k < mlf_levels
      → count i (update v l rest k) ≡ queued (t'.proc i) k
  Left-counted j k i hk = ground (
    arith,
    counted k i hk,
    e,
    head-queued,
    gone,
    j.state_self,
    j.state_ne i,
    j.levels i,
    count-cons i p rest,
  )

  total-left : total v ≡ suc (total (update v l rest))
  total-left = ground (arith, e)

  Holds-nexts :
      {t' : Ptable} (q : Level) (ys : List ℕ)
      → Left t t' p l
      → Holds (next_of t) q ys
      → Holds (next_of t') q ys
  Holds-nexts q ys j = subst (λ nx. Holds nx q ys) (sym (fun_ext j.nexts))

  Left-IsValid :
      {t' : Ptable}
      → Left t t' p l
      → Holds (next_of t) (t'.mlf l) rest
      → IsValid t' (update v l rest)
  Left-IsValid {t'} j own = record {
    holds = λ k hk. elim (Bool-cases (l == k)) [
      | inl same ↦ rw same (
          subst (λ m. Holds (next_of t') (t'.mlf m) rest) ((==_iff l k).0 same)
            (Holds-nexts (t'.mlf l) rest j own))
      | inr other ↦
          rw (other, j.mlf_ne k (ground arith)) (Holds-nexts (t.mlf k) (v k) j (valid.holds k hk))
    ];
    counted = Left-counted j;
    sized = λ k hk. ground (arith, sized k hk, j.size_self, j.mlf_ne k, e);
    summed = rw (j.sizes, summed, total-left);
    leveled = λ i q. ground (
      arith,
      leveled i,
      leveled p,
      head-queued,
      j.levels p,
      j.state_ne i,
      j.levels i,
      j.state_self,
    );
    numbered = λ i q.
        ground (arith, valid.numbered i, valid.numbered p, j.state_ne i, j.pids i, head-queued);
    inside = λ i q. ground (arith, inside i, j.pids i);
    fresh = λ i. ground (arith, fresh i, j.pids i, j.nextpid);
    unique = λ a b q e. ground (arith, unique a b, j.pids a, j.pids b);
  }

  own : Holds (next_of t) (t.mlf l) (p ∷ rest)
  own = subst (λ ys. Holds (next_of t) (t.mlf l) ys) e (valid.holds l h)

  -- The comparison of the pids tells whether the process is the only one of its level.
  single : (z : ℕ) → z ≡ last_of p rest → ((t.proc z).pid == (t.proc p).pid) ≡ (z == p)
  single z q =
      ground
        (arith, unique z p, valid.numbered z, counted l z h, count-last_of p rest, head-queued, e)

  own_of : (ys : List ℕ) → rest ≡ ys → Holds (next_of t) (t.mlf l) (p ∷ ys)
  own_of ys q = subst (λ ys. Holds (next_of t) (t.mlf l) (p ∷ ys)) q own

  computed :
      make_running p t
      ≡ ok (
          if last_of p rest == p
          then leave p l none none t
          else leave p l (t.proc p).next (t.mlf l).last t)
  computed =
      make_running_lem p l p (last_of p rest) t h head-queued.1 own.0 own.1
      ∙ rw (single (last_of p rest) refl)

  make_running_some :
      (ys : List ℕ)
      → rest ≡ ys
      → (t' : Ptable) × (make_running p t ≡ ok t') × Left t t' p l × Holds (next_of t) (t'.mlf l) ys
  make_running_some [] q =
      (leave p l none none t, ground (arith, computed, q), leave-Left p l none none t, ground arith)
  make_running_some (y ∷ ys) q =
      let links = own_of (y ∷ ys) q in
      (
        leave p l (t.proc p).next (t.mlf l).last t,
        ground (arith, computed, q, gone, count-last_of y ys),
        leave-Left p l _ _ t,
        (ground (arith, links.2.0), ground (arith, links.1), links.2.1),
      )

-- `make_running` of the first process of a level succeeds and takes it off its queue: the other
-- processes of the level keep their order, and the other levels their lists.
pub make_running_refines :
    {t : Ptable} {v : View} (p l : ℕ) (rest : List ℕ)
    → IsValid t v
    → l < mlf_levels
    → v l ≡ p ∷ rest
    → (t' : Ptable) × (make_running p t ≡ ok t') × IsValid t' (update v l rest) × Left t t' p l
make_running_refines p l rest valid h e =
    let (t', computes, left, links) = make_running_some p l rest valid h e rest refl in
    (t', computes, Left-IsValid p l rest valid h e left links, left)
