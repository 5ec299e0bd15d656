-- ===== src/Pipe/Reading.antt =====
-- What `piperead` takes, and a pipe under any sequence of reads and writes.
use mathlib.Core.List.{append-nil, append_assoc}
use native.Mathlib.Decide.{ℕ_discrete}
use sistema_operativo.Base.{
  ℕ, zero, suc, ◌%◌, ◌≡◌, ◌≢◌, ◌⊎◌, refl, sym, ap, ◌∙◌, subst, min, Bool, true, false, List, [],
  ◌∷◌, ◌++◌, length, if◌then◌else◌, arith, Bool-cases, inl, inr,
}
use sistema_operativo.Pipe.{Pipe, pipesize, add32, pipewrite, copy_out, piperead, Got, interrupted}
use sistema_operativo.Pipe.Contents.{IsValid, contents, filled, window}
use sistema_operativo.Pipe.Fifo.{accepted, pipewrite_lem}

abbrev next : Pipe → Pipe
next p = record p { nread = add32 p.nread 1 }

window-cons :
    (bytes : ℕ → ℕ) (i n k : ℕ)
    → n ≡ suc k
    → window bytes i n ≡ bytes (i % pipesize) ∷ window bytes (add32 i 1) k
window-cons bytes i n k e = ap (window bytes i) e

next-IsValid : (p : Pipe) → IsValid p → filled p ≢ 0 → IsValid (next p)
next-IsValid p v n = record {
  read_word = omega arith;
  write_word = v.write_word;
  room = omega arith;
}

contents-next :
    (p : Pipe)
    → IsValid p
    → filled p ≢ 0
    → contents p ≡ p.bytes (p.nread % pipesize) ∷ contents (next p)
contents-next p v n = window-cons p.bytes p.nread (filled p) (filled (next p)) (omega arith)

contents-empty : (p : Pipe) → filled p ≡ 0 → contents p ≡ []
contents-empty p e = ap (window p.bytes p.nread) e

copy_out-empty : (n : ℕ) (p : Pipe) → p.nread ≡ p.nwrite → copy_out (suc n) p ≡ ([], p)
unfolding copy_out
copy_out-empty n p e = ground arith

copy_out-next :
    (n : ℕ) (p : Pipe)
    → p.nread ≢ p.nwrite
    → copy_out (suc n) p
      ≡ (p.bytes (p.nread % pipesize) ∷ (copy_out n (next p)).0, (copy_out n (next p)).1)
unfolding copy_out
copy_out-next n p e = ground arith

-- The bytes `o.0` are taken off the front of the pipe.
pub record Taken (n : ℕ) (p : Pipe) (o : List ℕ × Pipe) : Type 0 where
  pub valid' : IsValid o.1
  pub taken : contents p ≡ o.0 ++ contents o.1
  pub count : length o.0 ≡ min n (filled p)

pub copy_out_lem : (n : ℕ) (p : Pipe) → IsValid p → Taken n p (copy_out n p)
copy_out_lem zero p v = unfold copy_out in record { valid' = v; taken = refl; count = omega arith }
copy_out_lem (suc n) p v = elim (ℕ_discrete p.nread p.nwrite) [
  | yes e ↦ rw (copy_out-empty n p e) (record { valid' = v; taken = refl; count = omega arith })
  | no e ↦
      rw (copy_out-next n p e)
        (step e (copy_out n (next p)) (copy_out_lem n (next p) (next-IsValid p v (omega arith))))
]
  where
    step :
        (e : p.nread ≢ p.nwrite) (o : List ℕ × Pipe)
        → Taken n (next p) o
        → Taken (suc n) p (p.bytes (p.nread % pipesize) ∷ o.0, o.1)
    step e o t = record {
      valid' = t.valid';
      taken = contents-next p v (omega arith) ∙ ap (λ l. p.bytes (p.nread % pipesize) ∷ l) t.taken;
      count = omega (arith, t.count);
    }

-- `piperead` sleeps, or returns -1 if the process was killed, exactly while the pipe is empty and may
-- still be written; otherwise it takes the oldest bytes, as many as there are up to `n`.
pub record ReadSpec (killed : Bool) (n : ℕ) (p : Pipe) (o : Got × Pipe) : Type 0 where
  pub blocks :
      filled p ≡ 0 → p.writeopen ≡ true → o ≡ (if killed then interrupted else Got.waits, p)
  pub reads :
      (filled p ≢ 0) ⊎ (p.writeopen ≡ false)
      → (bs : List ℕ) × (o.0 ≡ Got.bytes bs)
        × IsValid o.1
        × (contents p ≡ bs ++ contents o.1)
        × (length bs ≡ min n (filled p))

pub piperead_lem :
    (killed : Bool) (n : ℕ) (p : Pipe) → IsValid p → ReadSpec killed n p (piperead killed n p)
unfolding piperead
piperead_lem killed n p v = record {
  blocks = λ e w. blocked (empty e) w;
  reads = λ h.
      let t = copy_out_lem n p v in
      (
        (copy_out n p).0,
        ap (λ (o : Got × Pipe). o.0) (goes h),
        subst (λ (o : Got × Pipe). IsValid o.1) (sym (goes h)) t.valid',
        subst (λ (o : Got × Pipe). contents p ≡ (copy_out n p).0 ++ contents o.1) (sym (goes h))
            t.taken,
        t.count,
      );
}
  where
    empty : filled p ≡ 0 → p.nread ≡ p.nwrite
    empty e = omega arith

    blocked :
        p.nread ≡ p.nwrite
        → p.writeopen ≡ true
        → piperead killed n p ≡ (if killed then interrupted else Got.waits, p)
    blocked e w = ground arith

    goes :
        (filled p ≢ 0) ⊎ (p.writeopen ≡ false)
        → piperead killed n p ≡ (Got.bytes (copy_out n p).0, (copy_out n p).1)
    goes h = ground arith

-- While the pipe is empty and may still be written, `piperead` takes nothing: it returns -1 if the
-- process was killed, and sleeps otherwise.
pub piperead_blocks :
    (killed : Bool) (n : ℕ) (p : Pipe)
    → IsValid p
    → filled p ≡ 0
    → p.writeopen ≡ true
    → piperead killed n p ≡ (if killed then interrupted else Got.waits, p)
piperead_blocks killed n p v = (piperead_lem killed n p v).blocks

-- From a pipe that is not empty, or that nobody can write any more, `piperead` returns the oldest
-- bytes, as many as there are up to `n`, and leaves the rest.
pub piperead_takes :
    (killed : Bool) (n : ℕ) (p : Pipe)
    → IsValid p
    → (filled p ≢ 0) ⊎ (p.writeopen ≡ false)
    → (bs : List ℕ) × ((piperead killed n p).0 ≡ Got.bytes bs)
      × IsValid (piperead killed n p).1
      × (contents p ≡ bs ++ contents (piperead killed n p).1)
      × (length bs ≡ min n (filled p))
piperead_takes killed n p v = (piperead_lem killed n p v).reads

-- The calls of processes at the two ends, in the order in which they hold the pipe's lock. A call that
-- slept is called again.
pub data Op : Type 0 where
  write : Bool → List ℕ → Op
  read : Bool → ℕ → Op

abbrev pub got_bytes : Got → List ℕ
got_bytes (Got.bytes bs) = bs
got_bytes _ = []

-- The bytes that the writes put, the bytes that the reads got, and the pipe at the end.
pub traffic : List Op → Pipe → List ℕ × List ℕ × Pipe
traffic [] p = ([], [], p)
traffic (write killed bs ∷ ops) p =
    let (put, got, q) = traffic ops (pipewrite killed bs p).1 in (accepted bs p ++ put, got, q)
traffic (read killed n ∷ ops) p =
    let (put, got, q) = traffic ops (piperead killed n p).1 in
    (put, got_bytes (piperead killed n p).0 ++ got, q)

-- One read, whether it blocks or not.
read_step :
    (killed : Bool) (n : ℕ) (p : Pipe) (o : Got × Pipe)
    → IsValid p
    → ReadSpec killed n p o
    → IsValid o.1 × (contents p ≡ got_bytes o.0 ++ contents o.1)
read_step killed n p o v s = elim (ℕ_discrete (filled p) 0) [
  | no full ↦ taken (s.reads (inl full))
  | yes empty ↦ elim (Bool-cases p.writeopen) [
    | inr closed ↦ taken (s.reads (inr closed))
    | inl opened ↦ rw (s.blocks empty opened) (v, quiet killed)
  ]
]
  where
    taken :
        ((bs : List ℕ) × (o.0 ≡ Got.bytes bs)
          × IsValid o.1
          × (contents p ≡ bs ++ contents o.1)
          × (length bs ≡ min n (filled p)))
        → IsValid o.1 × (contents p ≡ got_bytes o.0 ++ contents o.1)
    taken (bs, e, v', c, l) = (v', c ∙ ap (λ g. got_bytes g ++ contents o.1) (sym e))

    quiet : (b : Bool) → contents p ≡ got_bytes (if b then interrupted else Got.waits) ++ contents p
    quiet true = refl
    quiet false = refl

-- No byte is lost, doubled or overtaken: what was in the pipe, and then was put, is what was got, and
-- then is still in the pipe, in this order. This holds for ever, though the counters go round.
pub traffic_fifo :
    (ops : List Op) (p : Pipe)
    → IsValid p
    → IsValid (traffic ops p).2
      × (contents p ++ (traffic ops p).0 ≡ (traffic ops p).1 ++ contents (traffic ops p).2)
unfolding traffic
traffic_fifo [] p v = (v, append-nil (contents p))
traffic_fifo (write killed bs ∷ ops) p v =
    let (rest, w) = pipewrite_lem killed bs p v in
    let (v', e) = traffic_fifo ops (pipewrite killed bs p).1 w.valid' in
    (
      v',
      sym (append_assoc (contents p) (accepted bs p) _)
          ∙ ap (λ l. l ++ (traffic ops (pipewrite killed bs p).1).0) (sym w.added)
          ∙ e,
    )
traffic_fifo (read killed n ∷ ops) p v =
    let (v1, taken) = read_step killed n p (piperead killed n p) v (piperead_lem killed n p v) in
    let (v', e) = traffic_fifo ops (piperead killed n p).1 v1 in
    (
      v',
      ap (λ l. l ++ (traffic ops (piperead killed n p).1).0) taken
          ∙ append_assoc (got_bytes (piperead killed n p).0) (contents (piperead killed n p).1) _
          ∙ ap (λ l. got_bytes (piperead killed n p).0 ++ l) e
          ∙ sym (
              append_assoc (got_bytes (piperead killed n p).0)
                (traffic ops (piperead killed n p).1).1 _),
    )
