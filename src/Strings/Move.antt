-- ===== src/Strings/Move.antt =====
-- `memmove` copies also where the blocks overlap.
use sistema_operativo.Base.{
  ℕ, zero, suc, ◌+◌, ◌-◌, ◌≤◌, ◌≡◌, ◌⊎◌, inl, inr, ◌∙◌, ◌&&◌, ltb, leb, if◌then◌else◌, update,
  arith, Bool-cases,
}
use sistema_operativo.Strings.{Memory, memmove, move_up, move_down}

-- Memory after a copy: the block at `dst` holds what stood at `src`, and all else is as before.
abbrev pub copied : ℕ → ℕ → ℕ → Memory → Memory
copied dst src n m a = if leb dst a && ltb a (dst + n) then m (src + (a - dst)) else m a

move_down_lem :
    (dst src n : ℕ) (m : Memory) (a : ℕ)
    → src ≤ dst
    → move_down dst src n m a ≡ copied dst src n m a
unfolding move_down
move_down_lem dst src zero m a h = ground arith
move_down_lem dst src (suc n) m a h =
    move_down_lem dst src n (update m (dst + n) (m (src + n))) a h ∙ ground arith

move_up_lem :
    (dst src n : ℕ) (m : Memory) (a : ℕ)
    → (dst ≤ src) ⊎ (src + n ≤ dst)
    → move_up dst src n m a ≡ copied dst src n m a
unfolding move_up
move_up_lem dst src zero m a h = ground arith
move_up_lem dst src (suc n) m a h =
    move_up_lem (suc dst) (suc src) n (update m dst (m src)) a (omega arith) ∙ ground arith

-- `memmove` leaves at `dst` what stood at `src` before the call, however the blocks overlap, and
-- changes no byte outside the destination.
pub memmove_lem :
    (dst src n : ℕ) (m : Memory) (a : ℕ) → memmove dst src n m a ≡ copied dst src n m a
unfolding memmove
memmove_lem dst src n m a = elim (Bool-cases (ltb src dst && ltb dst (src + n))) [
  | inl down ↦ rw down (move_down_lem dst src n m a (ground arith))
  | inr up ↦ rw up (move_up_lem dst src n m a (ground arith))
]
