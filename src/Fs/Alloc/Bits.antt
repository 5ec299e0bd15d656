-- ===== src/Fs/Alloc/Bits.antt =====
-- The bits of a byte of the bitmap.
use sistema_operativo.Base.{
  ℕ, zero, suc, ◌+◌, ◌*◌, ◌/◌, ◌%◌, ◌≡◌, ap, true, false, ◌==◌, if◌then◌else◌, arith,
}
use sistema_operativo.Fs.Alloc.{bit_set, set_bit, clear_bit}

half : (x y : ℕ) → (x % 2 + 2 * y) / 2 ≡ y
half x y = omega arith

pub bit_set-set_bit : (x k j : ℕ) → bit_set (set_bit x k) j ≡ (if j == k then true else bit_set x j)
unfolding bit_set set_bit
bit_set-set_bit x zero zero = ground arith
bit_set-set_bit x zero (suc j) = ground (arith, ap (λ z. bit_set z j) (twice x))
  where
    twice : (x : ℕ) → (x / 2 * 2 + 1) / 2 ≡ x / 2
    twice x = omega arith
bit_set-set_bit x (suc k) zero = ground arith
bit_set-set_bit x (suc k) (suc j) =
    ground (arith, bit_set-set_bit (x / 2) k j, ap (λ z. bit_set z j) (half x (set_bit (x / 2) k)))

pub bit_set-clear_bit :
    (x k j : ℕ) → bit_set (clear_bit x k) j ≡ (if j == k then false else bit_set x j)
unfolding bit_set clear_bit
bit_set-clear_bit x zero zero = ground arith
bit_set-clear_bit x zero (suc j) = ground (arith, ap (λ z. bit_set z j) (twice x))
  where
    twice : (x : ℕ) → (x / 2 * 2) / 2 ≡ x / 2
    twice x = omega arith
bit_set-clear_bit x (suc k) zero = ground arith
bit_set-clear_bit x (suc k) (suc j) =
    ground
      (arith, bit_set-clear_bit (x / 2) k j, ap (λ z. bit_set z j) (half x (clear_bit (x / 2) k)))
