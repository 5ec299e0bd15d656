-- ===== src/File/Chunks.antt =====
-- `filewrite` to an inode writes everything, chunk by chunk.
use sistema_operativo.Base.{
  ℕ, zero, suc, ◌+◌, ◌-◌, ◌≤◌, ◌<◌, ◌≡◌, Option, some, Outcome, ok, ltb, arith, inl, inr,
  Bool-cases,
}
use sistema_operativo.Base.Int.{ℤ, pos, negsuc}
use sistema_operativo.File.{chunk, after_chunk, write_chunks}

module _ {S : Type 0} (writei : S → ℕ → ℕ → ℕ → ℤ × S)
    (full : (s : S) (addr off n : ℕ) → (writei s addr off n).0 ≡ pos n) where
  after_chunk-full :
      (more : ℕ → ℕ → S → Outcome (Option ℕ × ℕ × S)) (i off n1 : ℕ) (o : ℤ × S)
      → o.0 ≡ pos n1
      → after_chunk writei more i off n1 o ≡ more (i + n1) (off + n1) o.1
  unfolding after_chunk
  after_chunk-full more i off n1 (pos r, s) e = ground (arith, e)
  after_chunk-full more i off n1 (negsuc r, s) e = absurd (ground (arith, e))

  -- If every transaction writes its whole chunk, the loop of `filewrite` with `n` bytes of fuel returns
  -- `n`, and the offset of the file moves by the bytes that were left.
  pub write_chunks_lem :
      (fuel addr n i off : ℕ) (s : S)
      → i ≤ n
      → n - i < fuel
      → (s' : S) × (write_chunks writei fuel addr n i off s ≡ ok (some n, off + (n - i), s'))
  unfolding write_chunks
  write_chunks_lem zero addr n i off s h enough = absurd (omega arith)
  write_chunks_lem (suc fuel) addr n i off s h enough = elim (Bool-cases (ltb i n)) [
    | inr done ↦ (s, ground (arith, done))
    | inl more ↦
        let o = writei s (addr + i) off (chunk (n - i)) in
        let (s', rest) =
          write_chunks_lem fuel addr n (i + chunk (n - i)) (off + chunk (n - i)) o.1
            (ground (arith, more)) (ground (arith, more)) in
        (
          s',
          ground (
            arith,
            more,
            rest,
            after_chunk-full (write_chunks writei fuel addr n) i off (chunk (n - i)) o
                (full s (addr + i) off (chunk (n - i))),
          ),
        )
  ]
