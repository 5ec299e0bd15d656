-- ===== src/Vm/Flags.antt =====
-- The flags of an entry of a page table.
use sistema_operativo.Base.{
  ℕ, zero, suc, ◌/◌, ◌%◌, ◌<◌, ◌≡◌, refl, ◌∙◌, Bool, true, false, if◌then◌else◌, arith,
}
use sistema_operativo.Kalloc.{pgsize}
use sistema_operativo.Fs.Alloc.{bit_set, set_bit}
use sistema_operativo.Fs.Alloc.Bits.{bit_set-set_bit}
use sistema_operativo.Vm.{Perm, with_flags, pte_addr, is_present, is_user}

set_bit-high : (x k : ℕ) → k < 3 → set_bit x k / 8 ≡ x / 8
unfolding set_bit
set_bit-high x zero h = omega arith
set_bit-high x (suc zero) h = omega arith
set_bit-high x (suc (suc zero)) h = omega arith
set_bit-high x (suc (suc (suc k))) h = absurd (omega arith)

flag-high : (b : Bool) (x k : ℕ) → k < 3 → (if b then set_bit x k else x) / 8 ≡ x / 8
flag-high true x k h = set_bit-high x k h
flag-high false x k h = refl

-- The flags leave the page and the bits above them.
with_flags-high : (pa : ℕ) (perm : Perm) → with_flags pa perm / 8 ≡ pa / 8
unfolding with_flags
with_flags-high pa perm =
    set_bit-high _ 0 (omega arith)
    ∙ flag-high perm.user _ 2 (omega arith)
    ∙ flag-high perm.writable pa 1 (omega arith)

pub pte_addr-with_flags :
    (pa : ℕ) (perm : Perm) → pa % pgsize ≡ 0 → pte_addr (with_flags pa perm) ≡ pa
pte_addr-with_flags pa perm h = omega (arith, with_flags-high pa perm)

pub is_present-with_flags : (pa : ℕ) (perm : Perm) → is_present (with_flags pa perm) ≡ true
unfolding with_flags
is_present-with_flags pa perm = bit_set-set_bit _ 0 0

flag-user : (b : Bool) (x : ℕ) → bit_set x 2 ≡ false → bit_set (if b then set_bit x 2 else x) 2 ≡ b
flag-user true x h = bit_set-set_bit x 2 2
flag-user false x h = h

flag-writable : (b : Bool) (x : ℕ) → bit_set (if b then set_bit x 1 else x) 2 ≡ bit_set x 2
flag-writable true x = bit_set-set_bit x 1 2
flag-writable false x = refl

aligned_bit : (pa : ℕ) → pa % pgsize ≡ 0 → bit_set pa 2 ≡ false
unfolding bit_set
aligned_bit pa h = ground (arith, low)
  where
    low : pa / 2 / 2 % 2 ≡ 0
    low = omega arith

pub is_user-with_flags :
    (pa : ℕ) (perm : Perm) → pa % pgsize ≡ 0 → is_user (with_flags pa perm) ≡ perm.user
unfolding with_flags
is_user-with_flags pa perm h =
    bit_set-set_bit _ 0 2
    ∙ flag-user perm.user _ (flag-writable perm.writable pa ∙ aligned_bit pa h)
