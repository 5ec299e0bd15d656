-- ===== src/Syscall.antt =====
-- syscall.c: the arguments of a system call, checked against the size of the process, and the
-- dispatch on its number.
pub mod Arguments
pub mod Dispatch
use sistema_operativo.Base.{
  ℕ, zero, suc, ◌+◌, ◌-◌, ◌*◌, ◌%◌, ◌<◌, ◌≡◌, Bool, true, false, not, ◌&&◌, ◌||◌, Option, none,
  some, ltb, leb, ◌==◌, if◌then◌else◌,
}

-- The calling process: `proc->sz`, `proc->tf->esp`, and the bytes of its memory.
pub record Caller : Type 0 where
  pub sz : ℕ
  pub esp : ℕ
  pub memory : ℕ → ℕ

-- `uint` sums.
abbrev pub add32 : ℕ → ℕ → ℕ
add32 a b = (a + b) % 0x100000000

-- `*(int*)addr`, as its 32 bits: bytes, the lowest first.
abbrev pub load_int : (ℕ → ℕ) → ℕ → ℕ
load_int m a = m a + 256 * m (a + 1) + 65536 * m (a + 2) + 16777216 * m (a + 3)

-- `none` stands for the result -1.
unfoldable pub fetchint : ℕ → Caller → Option ℕ
fetchint addr p =
    if leb p.sz addr || ltb p.sz (add32 addr 4) then none else some (load_int p.memory addr)

-- The loop of `fetchstr` over the `n` bytes from `s` on, to the length of the string.
unfoldable pub find_nul : (ℕ → ℕ) → ℕ → ℕ → ℕ → Option ℕ
find_nul m zero s len = none
find_nul m (suc n) s len =
    let rest = find_nul m n (suc s) (suc len) in if m s == 0 then some len else rest

unfoldable pub fetchstr : ℕ → Caller → Option ℕ
unfolding find_nul
fetchstr addr p = if leb p.sz addr then none else find_nul p.memory (p.sz - addr) addr 0

unfoldable pub argint : ℕ → Caller → Option ℕ
unfolding fetchint
argint n p = fetchint (add32 (p.esp + 4) (4 * n)) p

-- The bits of `size` are those of an `int`, which may be negative.
unfoldable pub argptr : ℕ → ℕ → Caller → Option ℕ
unfolding argint
argptr n size p = elim (argint n p) [
  | none ↦ none
  | some i ↦ if leb p.sz i || ltb p.sz (add32 i size) then none else some i
]

-- The address and the length of a string argument.
unfoldable pub argstr : ℕ → Caller → Option (ℕ × ℕ)
unfolding argint fetchstr
argstr n p = elim (argint n p) [
  | none ↦ none
  | some addr ↦ elim (fetchstr addr p) [ none ↦ none | some len ↦ some (addr, len) ]
]
