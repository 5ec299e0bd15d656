-- ===== src/Pipe/Fifo.antt =====
-- A pipe is a queue of bytes: `pipewrite` adds at its end, `piperead` takes from its front.
use mathlib.Core.List.{append-nil, append_assoc}
use sistema_operativo.Base.{
  ℕ, ◌≡◌, ◌≢◌, ◌⊎◌, refl, sym, ap, ◌∙◌, Bool, true, false, not, ◌||◌, List, [], ◌∷◌, ◌++◌,
  if◌then◌else◌, arith, Bool-cases, inl, inr,
}
use sistema_operativo.Pipe.{Pipe, pipesize, put, is_full, pipewrite, Wrote, all, broken}
use sistema_operativo.Pipe.Contents.{
  IsValid, contents, filled, is_full_iff, put-IsValid, contents-put,
}

-- The bytes that fit: those that `pipewrite` puts before it returns or sleeps.
pub accepted : List ℕ → Pipe → List ℕ
accepted [] p = []
accepted (b ∷ bs) p = let rest = accepted bs (put b p) in if is_full p then [] else b ∷ rest

-- How a write of `bs` has gone that put the bytes `acc` and left the bytes `rest`.
pub record Written (killed : Bool) (bs acc rest : List ℕ) (p : Pipe) (o : Wrote × Pipe)
    : Type 0 where
  pub valid' : IsValid o.1
  pub added : contents o.1 ≡ contents p ++ acc
  pub split : bs ≡ acc ++ rest
  pub returns : o.0 ≡ all → rest ≡ []
  pub sleeps :
      (l : List ℕ)
      → o.0 ≡ Wrote.waits l
      → (l ≡ rest) × (filled o.1 ≡ pipesize) × (o.1.readopen ≡ true) × (killed ≡ false)
  pub fails : o.0 ≡ broken → (filled o.1 ≡ pipesize) × ((o.1.readopen ≡ false) ⊎ (killed ≡ true))
  pub nread : o.1.nread ≡ p.nread

pipewrite-room :
    (killed : Bool) (b : ℕ) (bs : List ℕ) (p : Pipe)
    → is_full p ≡ false
    → (pipewrite killed (b ∷ bs) p ≡ pipewrite killed bs (put b p))
      × (accepted (b ∷ bs) p ≡ b ∷ accepted bs (put b p))
unfolding pipewrite accepted
pipewrite-room killed b bs p room = (rw room, rw room)

pipewrite-full :
    (killed : Bool) (b : ℕ) (bs : List ℕ) (p : Pipe)
    → is_full p ≡ true
    → (pipewrite killed (b ∷ bs) p
        ≡ (if not p.readopen || killed then (broken, p) else (Wrote.waits (b ∷ bs), p)))
      × (accepted (b ∷ bs) p ≡ [])
unfolding pipewrite accepted
pipewrite-full killed b bs p full = (rw full, rw full)

has_room : (p : Pipe) → IsValid p → is_full p ≡ false → filled p ≢ pipesize
has_room p v h = ground (arith, is_full_iff p v)

no_room : (p : Pipe) → IsValid p → is_full p ≡ true → filled p ≡ pipesize
no_room p v h = ground (arith, is_full_iff p v)

blocked :
    (killed : Bool) (bs : List ℕ) (p : Pipe)
    → IsValid p
    → filled p ≡ pipesize
    → Written killed bs [] bs p
        (if not p.readopen || killed then (broken, p) else (Wrote.waits bs, p))
blocked killed bs p v full = elim (Bool-cases (not p.readopen || killed)) [
  | inl fails ↦ rw fails (record {
    valid' = v;
    added = sym (append-nil (contents p));
    split = refl;
    returns = λ e. cc;
    sleeps = λ l e. cc;
    fails = λ e. (full, ground arith);
    nread = refl;
  })
  | inr sleeps ↦ rw sleeps (record {
    valid' = v;
    added = sym (append-nil (contents p));
    split = refl;
    returns = λ e. cc;
    sleeps = λ l e. (cc, full, ground arith, ground arith);
    fails = λ e. cc;
    nread = refl;
  })
]

put_first :
    (killed : Bool) (b : ℕ) (bs acc rest : List ℕ) (p : Pipe) (o : Wrote × Pipe)
    → IsValid p
    → filled p ≢ pipesize
    → Written killed bs acc rest (put b p) o
    → Written killed (b ∷ bs) (b ∷ acc) rest p o
put_first killed b bs acc rest p o v free w = record {
  valid' = w.valid';
  added =
      w.added
      ∙ ap (λ l. l ++ acc) (contents-put b p v free)
      ∙ append_assoc (contents p) (b ∷ []) acc;
  split = ap (λ l. b ∷ l) w.split;
  returns = w.returns;
  sleeps = w.sleeps;
  fails = w.fails;
  nread = w.nread;
}

-- `pipewrite` puts its bytes in order at the end of the pipe, as long as there is room. It returns n
-- when all are put; with the pipe full it sleeps on the rest, or returns -1 if nobody can read or
-- the process was killed.
pub pipewrite_lem :
    (killed : Bool) (bs : List ℕ) (p : Pipe)
    → IsValid p
    → (rest : List ℕ) × Written killed bs (accepted bs p) rest p (pipewrite killed bs p)
pipewrite_lem killed [] p v = (
  [],
  unfold pipewrite accepted in
      record {
        valid' = v;
        added = sym (append-nil (contents p));
        split = refl;
        returns = λ e. refl;
        sleeps = λ l e. cc;
        fails = λ e. cc;
        nread = refl;
      },
)
pipewrite_lem killed (b ∷ bs) p v = elim (Bool-cases (is_full p)) [
  | inl full ↦
      let (e, f) = pipewrite-full killed b bs p full in
      (b ∷ bs, rw (e, f) (blocked killed (b ∷ bs) p v (no_room p v full)))
  | inr room ↦
      let (e, f) = pipewrite-room killed b bs p room in
      let (rest, w) = pipewrite_lem killed bs (put b p) (put-IsValid b p v (has_room p v room)) in
      (
        rest,
        rw (e, f)
            (put_first killed b bs (accepted bs (put b p)) rest p (pipewrite killed bs (put b p)) v
              (has_room p v room) w),
      )
]
