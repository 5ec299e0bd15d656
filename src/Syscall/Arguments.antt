-- ===== src/Syscall/Arguments.antt =====
-- What the checks of the arguments guarantee, and where they do not.
use sistema_operativo.Base.{
  ℕ, zero, suc, ◌+◌, ◌-◌, ◌≤◌, ◌<◌, ◌≡◌, ◌≢◌, refl, sym, ap, ◌∙◌, ◌&&◌, none, some, ltb, leb,
  if◌then◌else◌, arith,
}
use sistema_operativo.Syscall.{Caller, load_int, fetchint, find_nul, fetchstr, argint, argptr}

-- `fetchint` reads the four bytes if all of them belong to the process, and returns -1 otherwise, if
-- the process is no larger than the user half of the address space.
pub fetchint_lem :
    (addr : ℕ) (p : Caller)
    → p.sz ≤ 0x80000000
    → fetchint addr p ≡ (if leb (addr + 4) p.sz then some (load_int p.memory addr) else none)
unfolding fetchint
fetchint_lem addr p small = ground arith

find_nul-some :
    (m : ℕ → ℕ) (n s len k : ℕ)
    → k < n
    → m (s + k) ≡ 0
    → ((j : ℕ) → j < k → m (s + j) ≢ 0)
    → find_nul m n s len ≡ some (len + k)
unfolding find_nul
find_nul-some m zero s len k h z before = absurd (omega arith)
find_nul-some m (suc n) s len zero h z before = ground arith
find_nul-some m (suc n) s len (suc k) h z before = ground (
  arith,
  before 0,
  find_nul-some m n (suc s) (suc len) k (omega arith) (ap m (shift k) ∙ z)
      (λ j l e. before (suc j) (omega arith) (sym (ap m (shift j)) ∙ e)),
)
  where
    shift : (i : ℕ) → suc s + i ≡ s + suc i
    shift i = omega arith

find_nul-none :
    (m : ℕ → ℕ) (n s len : ℕ) → ((j : ℕ) → j < n → m (s + j) ≢ 0) → find_nul m n s len ≡ none
unfolding find_nul
find_nul-none m zero s len before = refl
find_nul-none m (suc n) s len before = ground (
  arith,
  before 0,
  find_nul-none m n (suc s) (suc len)
      (λ j l e. before (suc j) (omega arith) (sym (ap m (shift j)) ∙ e)),
)
  where
    shift : (i : ℕ) → suc s + i ≡ s + suc i
    shift i = omega arith

-- `fetchstr` returns the length of the string, the number of bytes before its first NUL, if that
-- NUL lies inside the process.
pub fetchstr_lem :
    (addr k : ℕ) (p : Caller)
    → addr + k < p.sz
    → p.memory (addr + k) ≡ 0
    → ((j : ℕ) → j < k → p.memory (addr + j) ≢ 0)
    → fetchstr addr p ≡ some k
unfolding fetchstr
fetchstr_lem addr k p h z before =
    ground (arith, find_nul-some p.memory (p.sz - addr) addr 0 k (omega arith) z before)

-- `fetchstr` returns -1 if no byte from the address up to the end of the process is NUL.
pub fetchstr_unterminated :
    (addr : ℕ) (p : Caller)
    → ((j : ℕ) → addr + j < p.sz → p.memory (addr + j) ≢ 0)
    → fetchstr addr p ≡ none
unfolding fetchstr
fetchstr_unterminated addr p all =
    ground (arith, find_nul-none p.memory (p.sz - addr) addr 0 (λ j h. all j (omega arith)))

-- For a size that is no negative `int`, `argptr` accepts a pointer exactly if the block starts inside
-- the process and ends inside it, if the process is no larger than the user half of the address space.
pub argptr_lem :
    (n size i : ℕ) (p : Caller)
    → p.sz ≤ 0x80000000
    → size < 0x80000000
    → argint n p ≡ some i
    → argptr n size p ≡ (if ltb i p.sz && leb (i + size) p.sz then some i else none)
unfolding argptr
argptr_lem n size i p small positive e = rw (e, argptr) (ground arith)

-- A negative size passes the check: at any pointer into the process but the first address, `argptr`
-- accepts -1, whose 32 bits stand for a block of 4 GB.
pub argptr-negative :
    (n i : ℕ) (p : Caller)
    → p.sz ≤ 0x80000000
    → argint n p ≡ some i
    → 0 < i
    → i < p.sz
    → argptr n 0xffffffff p ≡ some i
unfolding argptr
argptr-negative n i p small e pos h = rw (e, argptr) (ground arith)
