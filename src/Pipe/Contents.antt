-- ===== src/Pipe/Contents.antt =====
-- The bytes in a pipe, oldest first, and what one write and one read do to them.
use sistema_operativo.Base.{
  ℕ, zero, suc, ◌+◌, ◌-◌, ◌%◌, ◌≤◌, ◌<◌, ◌≡◌, ◌≢◌, ap, ap₂, ◌∙◌, List, [], ◌∷◌, ◌++◌, ◌==◌, update,
  arith,
}
use sistema_operativo.Pipe.{Pipe, pipesize, add32, put, is_full}

-- The `n` bytes from the counter `i` on; the counters go round at 2^32, the indices at 512.
abbrev pub window : (ℕ → ℕ) → ℕ → ℕ → List ℕ
window bytes i zero = []
window bytes i (suc n) = bytes (i % pipesize) ∷ window bytes (add32 i 1) n

-- How many bytes the pipe holds, as a difference of the counters.
abbrev pub filled : Pipe → ℕ
filled p = (p.nwrite + 0x100000000 - p.nread) % 0x100000000

abbrev pub contents : Pipe → List ℕ
contents p = window p.bytes p.nread (filled p)

pub record IsValid (p : Pipe) : Type 0 where
  pub read_word : p.nread < 0x100000000
  pub write_word : p.nwrite < 0x100000000
  pub room : filled p ≤ pipesize

-- Writing byte `b` at the end of a window of less than 512 bytes adds it to the window, also where the
-- counters or the indices go round.
window-update :
    (bytes : ℕ → ℕ) (b i n w : ℕ)
    → i < 0x100000000
    → n < pipesize
    → w ≡ add32 i n
    → window (update bytes (w % pipesize) b) i (suc n) ≡ window bytes i n ++ b ∷ []
window-update bytes b i zero w h small e = ground arith
window-update bytes b i (suc n) w h small e =
    ap₂ ◌∷◌ (ground arith)
      (window-update bytes b (add32 i 1) n w (omega arith) (omega arith) (omega arith))

pub is_full_iff : (p : Pipe) → IsValid p → is_full p ≡ (filled p == pipesize)
is_full_iff p v = ground arith

pub put-IsValid : (b : ℕ) (p : Pipe) → IsValid p → filled p ≢ pipesize → IsValid (put b p)
put-IsValid b p v n = record {
  read_word = v.read_word;
  write_word = omega arith;
  room = omega arith;
}

pub filled-put :
    (b : ℕ) (p : Pipe) → IsValid p → filled p ≢ pipesize → filled (put b p) ≡ suc (filled p)
filled-put b p v n = omega arith

pub contents-put :
    (b : ℕ) (p : Pipe) → IsValid p → filled p ≢ pipesize → contents (put b p) ≡ contents p ++ b ∷ []
contents-put b p v n =
    ap (window (update p.bytes (p.nwrite % pipesize) b) p.nread) (filled-put b p v n)
    ∙ window-update p.bytes b p.nread (filled p) p.nwrite v.read_word (omega arith) (omega arith)
