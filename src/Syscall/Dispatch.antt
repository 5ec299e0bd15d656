-- ===== src/Syscall/Dispatch.antt =====
-- `syscall`: the table of the system calls and the two tests on the number.
use sistema_operativo.Base.{
  ℕ, zero, suc, ◌+◌, ◌≡◌, ◌↔◌, refl, ap, ◌∙◌, Option, none, some, List, [], ◌∷◌, ltb, if◌then◌else◌,
  arith, get_or, length,
}
use sistema_operativo.Base.Int.{ℤ, pos, negsuc}

pub data Sys : Type 0 where
  fork exit wait pipe read kill exec fstat chdir dup getpid sbrk : Sys
  sleep uptime open_ write mknod unlink link mkdir close procstat set_priority : Sys

-- The numbers of syscall.h.
abbrev pub number : Sys → ℕ
number fork = 1
number exit = 2
number wait = 3
number pipe = 4
number read = 5
number kill = 6
number exec = 7
number fstat = 8
number chdir = 9
number dup = 10
number getpid = 11
number sbrk = 12
number sleep = 13
number uptime = 14
number procstat = 15
number set_priority = 16
number open_ = 17
number write = 18
number mknod = 19
number unlink = 20
number link = 21
number mkdir = 22
number close = 23

-- `syscalls[]`, with 0 at its first place.
abbrev pub syscalls : List (Option Sys)
syscalls =
    none
    ∷ some fork
    ∷ some exit
    ∷ some wait
    ∷ some pipe
    ∷ some read
    ∷ some kill
    ∷ some exec
    ∷ some fstat
    ∷ some chdir
    ∷ some dup
    ∷ some getpid
    ∷ some sbrk
    ∷ some sleep
    ∷ some uptime
    ∷ some procstat
    ∷ some set_priority
    ∷ some open_
    ∷ some write
    ∷ some mknod
    ∷ some unlink
    ∷ some link
    ∷ some mkdir
    ∷ some close
    ∷ []

-- The system call that runs; `none` if `syscall` reports an unknown one and returns -1.
unfoldable pub syscall : ℤ → Option Sys
syscall (negsuc n) = none
syscall (pos num) =
    if ltb num (number open_)
    then get_or syscalls num none
    else if ltb num (length syscalls)
    then get_or syscalls num none
    else none

in_table : (s : Sys) → syscall (pos (number s)) ≡ some s
unfolding syscall
in_table fork = refl
in_table exit = refl
in_table wait = refl
in_table pipe = refl
in_table read = refl
in_table kill = refl
in_table exec = refl
in_table fstat = refl
in_table chdir = refl
in_table dup = refl
in_table getpid = refl
in_table sbrk = refl
in_table sleep = refl
in_table uptime = refl
in_table open_ = refl
in_table write = refl
in_table mknod = refl
in_table unlink = refl
in_table link = refl
in_table mkdir = refl
in_table close = refl
in_table procstat = refl
in_table set_priority = refl

-- Every entry from the place `k` on has its place for its number.
IsNumbered : List (Option Sys) → ℕ → Type 0
IsNumbered [] k = Unit
IsNumbered (none ∷ xs) k = IsNumbered xs (suc k)
IsNumbered (some s ∷ xs) k = (number s ≡ k) × IsNumbered xs (suc k)

entry :
    (xs : List (Option Sys)) (k n : ℕ) (s : Sys)
    → IsNumbered xs k
    → get_or xs n none ≡ some s
    → number s ≡ k + n
unfolding IsNumbered
entry [] k n s h e = cc
entry (none ∷ xs) k zero s h e = cc
entry (none ∷ xs) k (suc n) s h e = entry xs (suc k) n s h e ∙ omega arith
entry (some a ∷ xs) k zero s (h, hs) e = ground (arith, e, h)
entry (some a ∷ xs) k (suc n) s (h, hs) e = entry xs (suc k) n s hs e ∙ omega arith

table : IsNumbered syscalls 0
unfolding IsNumbered
table = (
  refl,
  (
    refl,
    (
      refl,
      (
        refl,
        (
          refl,
          (
            refl,
            (
              refl,
              (
                refl,
                (
                  refl,
                  (
                    refl,
                    (
                      refl,
                      (
                        refl,
                        (
                          refl,
                          (
                            refl,
                            (
                              refl,
                              (refl, (refl, (refl, (refl, (refl, (refl, (refl, (refl, tt)))))))),
                            ),
                          ),
                        ),
                      ),
                    ),
                  ),
                ),
              ),
            ),
          ),
        ),
      ),
    ),
  ),
)

-- `syscall` runs a system call exactly for its number in syscall.h, and refuses every other number,
-- the negative ones included.
pub syscall_iff : (num : ℤ) (s : Sys) → (syscall num ≡ some s) ↔ (num ≡ pos (number s))
unfolding syscall
syscall_iff num s = (only num, λ e. ap syscall e ∙ in_table s)
  where
    only : (num : ℤ) → syscall num ≡ some s → num ≡ pos (number s)
    only (negsuc n) e = cc
    only (pos n) e = ground (arith, entry syscalls 0 n s table (ground arith))
