-- ===== src/Userlib.antt =====
-- user/ulib.c and user/printf.c: strings and numbers of the user programs. A string is the list of its
-- bytes without the NUL.
pub mod Decimal
use sistema_operativo.Base.{
  ℕ, zero, suc, ◌+◌, ◌-◌, ◌*◌, ◌/◌, ◌%◌, Bool, true, false, ◌&&◌, Option, none, some, List, [], ◌∷◌,
  ltb, leb, ◌==◌, if◌then◌else◌,
}
use sistema_operativo.Base.Int.{ℤ, pos}
use sistema_operativo.Strings.{byte_diff}

unfoldable pub strcmp : List ℕ → List ℕ → ℤ
strcmp [] [] = pos 0
strcmp [] (b ∷ q) = byte_diff 0 b
strcmp (a ∷ p) [] = byte_diff a 0
strcmp (a ∷ p) (b ∷ q) = let rest = strcmp p q in if a == b then rest else byte_diff a b

unfoldable pub strlen : List ℕ → ℕ
strlen [] = 0
strlen (a ∷ s) = suc (strlen s)

-- The string from the first `c` on; `none` for the null pointer.
unfoldable pub strchr : List ℕ → ℕ → Option (List ℕ)
strchr [] c = none
strchr (a ∷ s) c = let rest = strchr s c in if a == c then some (a ∷ s) else rest

-- The loop of `atoi`; `n` is the 32 bits of an `int`.
unfoldable pub atoi_from : ℕ → List ℕ → ℕ
atoi_from n [] = n
atoi_from n (c ∷ s) =
    let rest = atoi_from ((n * 10 + c - b'0') % 0x100000000) s in
    if leb b'0' c && leb c b'9' then rest else n

unfoldable pub atoi : List ℕ → ℕ
unfolding atoi_from
atoi s = atoi_from 0 s

-- `digits[d]`
abbrev pub digit : ℕ → ℕ
digit d = if ltb d 10 then b'0' + d else b'A' + d - 10

-- The loop of `printint`, from the last digit on, before the digits `s`. It has as much fuel as `buf`
-- has bytes.
unfoldable pub digits_from : (fuel x base : ℕ) → List ℕ → List ℕ
digits_from zero x base s = s
digits_from (suc fuel) x base s =
    let more = digits_from fuel (x / base) base (digit (x % base) ∷ s) in
    if x / base == 0 then digit (x % base) ∷ s else more

-- What `printint` puts out for the 32 bits `xx`.
unfoldable pub printint : (xx base : ℕ) → (sgn : Bool) → List ℕ
unfolding digits_from
printint xx base sgn =
    if sgn && leb 0x80000000 xx
    then b'-' ∷ digits_from 16 (0x100000000 - xx) base []
    else digits_from 16 xx base []
