-- ===== src/Pipe.antt =====
-- pipe.c: a pipe as a ring of 512 bytes with two counters of 32 bits.
pub mod Contents
pub mod Fifo
pub mod Reading
use sistema_operativo.Base.{
  ℕ, zero, suc, ◌+◌, ◌%◌, ◌≡◌, Bool, true, false, not, ◌&&◌, ◌||◌, List, [], ◌∷◌, ◌++◌, ◌==◌,
  if◌then◌else◌, update,
}

-- `struct pipe` without its lock.
pub record Pipe : Type 0 where
  pub bytes : ℕ → ℕ
  pub nread : ℕ
  pub nwrite : ℕ
  pub readopen : Bool
  pub writeopen : Bool

abbrev pub pipesize : ℕ
pipesize = 512

-- Addition of `uint`.
abbrev pub add32 : ℕ → ℕ → ℕ
add32 a b = (a + b) % 0x100000000

-- The new pipe of `pipealloc`, in a page with the bytes `junk`.
abbrev pub fresh : (ℕ → ℕ) → Pipe
fresh junk = record { bytes = junk; nread = 0; nwrite = 0; readopen = true; writeopen = true }

-- `pipeclose`: the pipe, and whether its page is freed.
unfoldable pub pipeclose : Bool → Pipe → Pipe × Bool
pipeclose writable p =
    let p' = if writable then record p { writeopen = false } else record p { readopen = false } in
    (p', not p'.readopen && not p'.writeopen)

abbrev pub is_full : Pipe → Bool
is_full p = p.nwrite == add32 p.nread pipesize

-- `p->data[p->nwrite++ % PIPESIZE] = b`
abbrev pub put : ℕ → Pipe → Pipe
put b p = record p { bytes = update p.bytes (p.nwrite % pipesize) b; nwrite = add32 p.nwrite 1 }

-- How `pipewrite` comes to a stop: it returns n; it returns -1; or it sleeps, with the bytes that it
-- still has to write. When it wakes it goes on with these.
pub data Wrote : Type 0 where
  all : Wrote
  broken : Wrote
  waits : List ℕ → Wrote

unfoldable pub pipewrite : Bool → List ℕ → Pipe → Wrote × Pipe
pipewrite killed [] p = (all, p)
pipewrite killed (b ∷ bs) p =
    let rest = pipewrite killed bs (put b p) in
    if is_full p
    then (if not p.readopen || killed then (broken, p) else (waits (b ∷ bs), p))
    else rest

-- The copy loop of `piperead`, for at most `n` bytes.
unfoldable pub copy_out : ℕ → Pipe → List ℕ × Pipe
copy_out zero p = ([], p)
copy_out (suc n) p =
    let (bs, p') = copy_out n (record p { nread = add32 p.nread 1 }) in
    if p.nread == p.nwrite then ([], p) else (p.bytes (p.nread % pipesize) ∷ bs, p')

-- How `piperead` comes to a stop: it returns with the bytes; it returns -1; or it sleeps.
pub data Got : Type 0 where
  bytes : List ℕ → Got
  interrupted : Got
  waits : Got

unfoldable pub piperead : Bool → ℕ → Pipe → Got × Pipe
unfolding copy_out
piperead killed n p =
    let (bs, p') = copy_out n p in
    if p.nread == p.nwrite && p.writeopen
    then (if killed then (interrupted, p) else (Got.waits, p))
    else (Got.bytes bs, p')
