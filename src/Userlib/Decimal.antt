-- ===== src/Userlib/Decimal.antt =====
-- `atoi` reads what `printint` puts out in base 10.
use sistema_operativo.Base.{
  ℕ, zero, suc, ◌+◌, ◌*◌, ◌/◌, ◌%◌, ◌<◌, ◌≡◌, refl, ap, ◌∙◌, Bool, true, false, List, [], ◌∷◌, leb,
  arith, ◌==◌, inl, inr, Bool-cases,
}
use sistema_operativo.Userlib.{atoi_from, atoi, digit, digits_from, printint}

atoi_from-nil : (n : ℕ) → atoi_from n [] ≡ n
unfolding atoi_from
atoi_from-nil n = refl

pow10 : ℕ → ℕ
pow10 zero = 1
pow10 (suc n) = 10 * pow10 n

atoi_from-digit :
    (n d : ℕ) (s : List ℕ)
    → d < 10
    → n * 10 + d < 0x100000000
    → atoi_from n (digit d ∷ s) ≡ atoi_from (n * 10 + d) s
unfolding atoi_from
atoi_from-digit n d s h small = ground arith

atoi_from-digits_from :
    (fuel x : ℕ) (s : List ℕ)
    → x < pow10 fuel
    → x < 0x100000000
    → atoi_from 0 (digits_from fuel x 10 s) ≡ atoi_from x s
unfolding digits_from pow10
atoi_from-digits_from zero x s h small = ground arith
atoi_from-digits_from (suc fuel) x s h small = elim (Bool-cases (x / 10 == 0)) [
  | inl last ↦ ground (arith, last, atoi_from-digit 0 (x % 10) s (omega arith) (omega arith))
  | inr more ↦ ground (
    arith,
    more,
    atoi_from-digits_from fuel (x / 10) (digit (x % 10) ∷ s) (omega arith) (omega arith),
    atoi_from-digit (x / 10) (x % 10) s (omega arith) (omega arith),
  )
]

enough : 0x100000000 < pow10 16
unfolding pow10
enough = omega arith

not_negative : (x : ℕ) → x < 0x80000000 → leb 0x80000000 x ≡ false
not_negative x h = ground arith

unsigned : (x : ℕ) (sgn : Bool) → x < 0x80000000 → printint x 10 sgn ≡ digits_from 16 x 10 []
unfolding printint
unsigned x true h = rw (not_negative x h, printint) refl
unsigned x false h = refl

read_back : (x : ℕ) → x < 0x80000000 → atoi_from 0 (digits_from 16 x 10 []) ≡ x
read_back x h =
    atoi_from-digits_from 16 x [] (omega (arith, enough)) (omega arith) ∙ atoi_from-nil x

-- `atoi` of the digits that `printint` puts out in base 10 for an `int` that is not negative is that
-- number.
pub atoi-printint : (x : ℕ) (sgn : Bool) → x < 0x80000000 → atoi (printint x 10 sgn) ≡ x
unfolding atoi
atoi-printint x sgn h = ap (atoi_from 0) (unsigned x sgn h) ∙ read_back x h
