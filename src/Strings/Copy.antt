-- ===== src/Strings/Copy.antt =====
-- What `safestrcpy` writes, and what `strncmp` compares.
use sistema_operativo.Base.{ℕ, zero, suc, ◌+◌, ◌≤◌, ◌<◌, ◌≡◌, ◌≢◌, ◌⊎◌, ◌↔◌, refl, update, arith}
use native.Mathlib.Decide.{ℕ_discrete}
use sistema_operativo.Base.Int.{pos}
use sistema_operativo.Strings.{Memory, safe_copy, safestrcpy, strncmp}

safe_copy-outside :
    (s t n : ℕ) (m : Memory) (a : ℕ) → (a < s) ⊎ (s + n < a) → safe_copy s t n m a ≡ m a
unfolding safe_copy
safe_copy-outside s t zero m a h = ground arith
safe_copy-outside s t (suc n) m a h =
    ground (arith, safe_copy-outside (suc s) (suc t) n (update m s (m t)) a)

safe_copy-ends : (s t n : ℕ) (m : Memory) → (k : ℕ) × (k ≤ n) × (safe_copy s t n m (s + k) ≡ 0)
unfolding safe_copy
safe_copy-ends s t zero m = (0, omega arith, ground arith)
safe_copy-ends s t (suc n) m = elim (ℕ_discrete (m t) 0) [
  | yes e ↦ (0, omega arith, ground arith)
  | no e ↦
      let (k, h, z) = safe_copy-ends (suc s) (suc t) n (update m s (m t)) in
      (suc k, omega arith, ground (arith, z, moved k))
]
  where
    moved : (k : ℕ) → s + suc k ≡ suc s + k
    moved k = omega arith

-- With room for `n` bytes, `n` at least 1, `safestrcpy` writes a NUL inside the destination, and writes
-- nothing outside its `n` bytes.
pub safestrcpy_lem :
    (s t n : ℕ) (m : Memory)
    → 0 < n
    → ((k : ℕ) × (k < n) × (safestrcpy s t n m (s + k) ≡ 0))
      × ((a : ℕ) → (a < s) ⊎ (s + n ≤ a) → safestrcpy s t n m a ≡ m a)
unfolding safestrcpy
safestrcpy_lem s t zero m h = absurd (omega arith)
safestrcpy_lem s t (suc n) m h =
    let (k, low, z) = safe_copy-ends s t n m in
    ((k, omega arith, z), λ a out. safe_copy-outside s t n m a (omega arith))

-- The strings at `p` and `q` agree on their first `n` bytes, or up to the end of both.
abbrev pub Same : ℕ → ℕ → ℕ → Memory → Type 0
Same p q zero m = Unit
Same p q (suc n) m = (m p ≡ m q) × (m p ≢ 0 → Same (suc p) (suc q) n m)

-- `strncmp` returns 0 exactly if the strings agree so far.
pub strncmp_iff : (p q n : ℕ) (m : Memory) → (strncmp p q n m ≡ pos 0) ↔ Same p q n m
unfolding strncmp
strncmp_iff p q zero m = (λ h. tt, λ h. refl)
strncmp_iff p q (suc n) m = (
  λ h. (ground arith, λ more. (strncmp_iff (suc p) (suc q) n m).0 (ground arith)),
  λ h. elim (ℕ_discrete (m p) 0) [
    | yes e ↦ ground (arith, h.0)
    | no e ↦ ground (arith, h.0, (strncmp_iff (suc p) (suc q) n m).1 (h.1 e))
  ],
)
