-- ===== src/Strings.antt =====
-- string.c: blocks of memory and C strings. Addresses are numbers, and memory is a function from an
-- address to a byte; no block reaches past the last address.
pub mod Move
pub mod Copy
pub mod Pad
use sistema_operativo.Base.{
  ℕ, zero, suc, ◌+◌, ◌-◌, ◌%◌, ◌<◌, ◌≡◌, Bool, true, false, ◌&&◌, ltb, ◌==◌, if◌then◌else◌, update,
  not,
}
use sistema_operativo.Base.Int.{ℤ, pos, negsuc}

abbrev pub Memory : Type 0
Memory = ℕ → ℕ

-- `memset`, byte by byte (`stosl` stores the same byte four at a time).
unfoldable pub memset : ℕ → ℕ → ℕ → Memory → Memory
memset dst c zero m = m
memset dst c (suc n) m = memset (suc dst) c n (update m dst (c % 256))

-- a - b, as the difference of two bytes promoted to `int`
abbrev pub byte_diff : ℕ → ℕ → ℤ
byte_diff a b = if ltb a b then negsuc (b - a - 1) else pos (a - b)

unfoldable pub memcmp : ℕ → ℕ → ℕ → Memory → ℤ
memcmp s1 s2 zero m = pos 0
memcmp s1 s2 (suc n) m =
    let rest = memcmp (suc s1) (suc s2) n m in
    if m s1 == m s2 then rest else byte_diff (m s1) (m s2)

-- The two loops of `memmove`: from the ends down, and from the starts up.
unfoldable pub move_down : ℕ → ℕ → ℕ → Memory → Memory
move_down dst src zero m = m
move_down dst src (suc n) m = move_down dst src n (update m (dst + n) (m (src + n)))

unfoldable pub move_up : ℕ → ℕ → ℕ → Memory → Memory
move_up dst src zero m = m
move_up dst src (suc n) m = move_up (suc dst) (suc src) n (update m dst (m src))

unfoldable pub memmove : ℕ → ℕ → ℕ → Memory → Memory
memmove dst src n m =
    if ltb src dst && ltb dst (src + n) then move_down dst src n m else move_up dst src n m

unfoldable pub strncmp : ℕ → ℕ → ℕ → Memory → ℤ
strncmp p q zero m = pos 0
strncmp p q (suc n) m =
    let rest = strncmp (suc p) (suc q) n m in
    if not (m p == 0) && m p == m q then rest else byte_diff (m p) (m q)

-- `strncpy`: the copy up to the NUL, then NULs.
unfoldable pub zero_fill : ℕ → ℕ → Memory → Memory
zero_fill s zero m = m
zero_fill s (suc n) m = zero_fill (suc s) n (update m s 0)

unfoldable pub strncpy : ℕ → ℕ → ℕ → Memory → Memory
strncpy s t zero m = m
strncpy s t (suc n) m =
    let m' = update m s (m t) in
    let rest = strncpy (suc s) (suc t) n m' in if m t == 0 then zero_fill (suc s) n m' else rest

-- `safestrcpy`: its loop with `n` more tests of `--n > 0` to pass, then the last NUL.
unfoldable pub safe_copy : ℕ → ℕ → ℕ → Memory → Memory
safe_copy s t zero m = update m s 0
safe_copy s t (suc n) m =
    let m' = update m s (m t) in
    let rest = safe_copy (suc s) (suc t) n m' in if m t == 0 then update m' (suc s) 0 else rest

unfoldable pub safestrcpy : ℕ → ℕ → ℕ → Memory → Memory
unfolding safe_copy
safestrcpy s t zero m = m
safestrcpy s t (suc n) m = safe_copy s t n m
