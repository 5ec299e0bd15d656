-- ===== src/Strings/Pad.antt =====
-- What `strncpy` writes.
use sistema_operativo.Base.{
  ℕ, zero, suc, ◌+◌, ◌≤◌, ◌<◌, ◌≡◌, ◌≢◌, ◌⊎◌, refl, sym, ap, subst, ◌∙◌, update, update_ne, arith,
  ==_ne, ==_iff,
}
use native.Mathlib.Decide.{ℕ_discrete}
use sistema_operativo.Strings.{Memory, zero_fill, strncpy}

zero_fill-outside : (s n : ℕ) (m : Memory) (a : ℕ) → (a < s) ⊎ (s + n ≤ a) → zero_fill s n m a ≡ m a
unfolding zero_fill
zero_fill-outside s zero m a h = refl
zero_fill-outside s (suc n) m a h =
    zero_fill-outside (suc s) n (update m s 0) a (omega arith) ∙ update_ne m s a 0 (omega arith)

zero_fill-inside : (s n k : ℕ) (m : Memory) → k < n → zero_fill s n m (s + k) ≡ 0
unfolding zero_fill
zero_fill-inside s zero k m h = absurd (omega arith)
zero_fill-inside s (suc n) zero m h =
    zero_fill-outside (suc s) n (update m s 0) (s + 0) (omega arith) ∙ ground arith
zero_fill-inside s (suc n) (suc k) m h =
    ap (zero_fill (suc s) n (update m s 0)) shift
    ∙ zero_fill-inside (suc s) n k (update m s 0) (omega arith)
  where
    shift : s + suc k ≡ suc s + k
    shift = omega arith

-- The branches of one step.
strncpy-nul :
    (s t n : ℕ) (m : Memory)
    → m t ≡ 0
    → strncpy s t (suc n) m ≡ zero_fill (suc s) n (update m s (m t))
unfolding strncpy
strncpy-nul s t n m z = rw ((==_iff (m t) 0).1 z, strncpy) refl

strncpy-byte :
    (s t n : ℕ) (m : Memory)
    → m t ≢ 0
    → strncpy s t (suc n) m ≡ strncpy (suc s) (suc t) n (update m s (m t))
unfolding strncpy
strncpy-byte s t n m nz = rw (==_ne (m t) 0 nz, strncpy) refl

strncpy-outside : (s t n : ℕ) (m : Memory) (a : ℕ) → (a < s) ⊎ (s + n ≤ a) → strncpy s t n m a ≡ m a
unfolding strncpy
strncpy-outside s t zero m a h = refl
strncpy-outside s t (suc n) m a h = elim (ℕ_discrete (m t) 0) [
  | yes z ↦
      ap (λ f. f a) (strncpy-nul s t n m z)
      ∙ zero_fill-outside (suc s) n (update m s (m t)) a (omega arith)
      ∙ update_ne m s a (m t) (omega arith)
  | no nz ↦
      ap (λ f. f a) (strncpy-byte s t n m nz)
      ∙ strncpy-outside (suc s) (suc t) n (update m s (m t)) a (omega arith)
      ∙ update_ne m s a (m t) (omega arith)
]

-- What the destination holds at `k`: the byte of the source, or 0 behind a NUL of the source.
abbrev Padded : (t k : ℕ) → Memory → ℕ → Type 0
Padded t k m x =
    (((j : ℕ) → j < k → m (t + j) ≢ 0) → x ≡ m (t + k)) × ((j : ℕ) → j < k → m (t + j) ≡ 0 → x ≡ 0)

Padded-first : (t : ℕ) (m : Memory) (x : ℕ) → x ≡ m t → Padded t 0 m x
Padded-first t m x e = (λ nz. e ∙ ap m (sym plus_zero), λ j l z. absurd (omega arith))
  where
    plus_zero : t + 0 ≡ t
    plus_zero = omega arith

Padded-later :
    (s t k n : ℕ) (m : Memory) (x : ℕ)
    → (s < t) ⊎ (t + n < s)
    → k < n
    → m t ≢ 0
    → Padded (suc t) k (update m s (m t)) x
    → Padded t (suc k) m x
Padded-later s t k n m x apart l nz (copy, pad) = (
  λ all. copy (λ j less z. all (suc j) (omega arith) (sym (same j (omega arith)) ∙ z)) ∙ same k l,
  λ j less z. by_index j less z,
)
  where
    shift : (j : ℕ) → suc t + j ≡ t + suc j
    shift j = omega arith

    same : (j : ℕ) → j < n → update m s (m t) (suc t + j) ≡ m (t + suc j)
    same j h = update_ne m s (suc t + j) (m t) (omega arith) ∙ ap m (shift j)

    plus_zero : t + 0 ≡ t
    plus_zero = omega arith

    by_index : (j : ℕ) → j < suc k → m (t + j) ≡ 0 → x ≡ 0
    by_index zero less z = absurd (nz (sym (ap m plus_zero) ∙ z))
    by_index (suc j) less z = pad j (omega arith) (same j (omega arith) ∙ z)

-- Into room of `n` bytes apart from the source, `strncpy` copies the bytes up to a NUL, and puts zeros behind
-- it; it writes nothing outside the room.
pub strncpy_lem :
    (s t n : ℕ) (m : Memory)
    → (s + n ≤ t) ⊎ (t + n ≤ s)
    → ((k : ℕ)
        → k < n
        → (((j : ℕ) → j < k → m (t + j) ≢ 0) → strncpy s t n m (s + k) ≡ m (t + k))
          × ((j : ℕ) → j < k → m (t + j) ≡ 0 → strncpy s t n m (s + k) ≡ 0))
      × ((a : ℕ) → (a < s) ⊎ (s + n ≤ a) → strncpy s t n m a ≡ m a)
strncpy_lem s t n m apart = (inside s t n m apart, strncpy-outside s t n m)
  where
    inside :
        (s t n : ℕ) (m : Memory)
        → (s + n ≤ t) ⊎ (t + n ≤ s)
        → (k : ℕ) → k < n
        → Padded t k m (strncpy s t n m (s + k))
    inside s t zero m apart k l = absurd (omega arith)
    inside s t (suc n) m apart zero l = elim (ℕ_discrete (m t) 0) [
      | yes z ↦ Padded-first t m _ (
          ap (λ f. f (s + 0)) (strncpy-nul s t n m z)
          ∙ zero_fill-outside (suc s) n (update m s (m t)) (s + 0) (omega arith)
          ∙ at_start s m (m t))
      | no nz ↦ Padded-first t m _ (
          ap (λ f. f (s + 0)) (strncpy-byte s t n m nz)
          ∙ strncpy-outside (suc s) (suc t) n (update m s (m t)) (s + 0) (omega arith)
          ∙ at_start s m (m t))
    ]
      where
        at_start : (s : ℕ) (m : Memory) (x : ℕ) → update m s x (s + 0) ≡ x
        at_start s m x = ground arith
    inside s t (suc n) m apart (suc k) l = elim (ℕ_discrete (m t) 0) [
      | yes z ↦ (
        λ all. absurd (all 0 (omega arith) (ap m (plus_zero t) ∙ z)),
        λ j less e.
            ap (λ f. f (s + suc k)) (strncpy-nul s t n m z)
            ∙ ap (zero_fill (suc s) n (update m s (m t))) (shift s k)
            ∙ zero_fill-inside (suc s) n k (update m s (m t)) (omega arith),
      )
      | no nz ↦
          subst (Padded t (suc k) m)
            (sym (
              ap (λ f. f (s + suc k)) (strncpy-byte s t n m nz)
              ∙ ap (strncpy (suc s) (suc t) n (update m s (m t))) (shift s k)))
            (Padded-later s t k n m _ (omega arith) (omega arith) nz
              (inside (suc s) (suc t) n (update m s (m t)) (omega arith) k (omega arith)))
    ]
      where
        plus_zero : (t : ℕ) → t + 0 ≡ t
        plus_zero t = omega arith

        shift : (s k : ℕ) → s + suc k ≡ suc s + k
        shift s k = omega arith
