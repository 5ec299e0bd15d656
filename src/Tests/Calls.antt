-- ===== src/Tests/Calls.antt =====
-- Examples for the arguments and the numbers of the system calls.
use sistema_operativo.Base.{
  ℕ, ◌+◌, ◌<◌, ◌≡◌, ◌≢◌, refl, none, some, arith, leb, ◌||◌, ◌==◌, if◌then◌else◌,
}
use sistema_operativo.Syscall.{Caller, load_int, fetchint, fetchstr, argint, argptr}
use sistema_operativo.Syscall.Arguments.{fetchint_lem, fetchstr_unterminated, argptr-negative}

-- A process of one page, every byte of which is 1 but for the two NULs at 6 and 7: so each int on the
-- stack at 0 but the first is 0x0101.
abbrev memory : ℕ → ℕ
memory a = if a == 6 || a == 7 then 0 else 1

abbrev caller : Caller
caller = record { sz = 4096; esp = 0; memory = memory }

fetchint_lem_example :
    fetchint 4093 caller ≡ (if leb (4093 + 4) 4096 then some (load_int memory 4093) else none)
fetchint_lem_example = fetchint_lem 4093 caller (omega arith)

before_nul : (j : ℕ) → j < 2 → memory (4 + j) ≢ 0
before_nul j h = ground arith

no_nul : (j : ℕ) → 8 + j < 4096 → memory (8 + j) ≢ 0
no_nul j h = ground arith

fetchstr_unterminated_example : fetchstr 8 caller ≡ none
fetchstr_unterminated_example = fetchstr_unterminated 8 caller no_nul

first_argument : argint 0 caller ≡ some 0x0101
unfolding argint fetchint
first_argument = refl

argptr-negative_example : argptr 0 0xffffffff caller ≡ some 0x0101
argptr-negative_example =
    argptr-negative 0 0x0101 caller (omega arith) first_argument (omega arith) (omega arith)
