-- ===== src/File/Counts.antt =====
-- The reference counts: each file counts its descriptors.
use sistema_operativo.Base.{
  ℕ, zero, suc, ◌+◌, ◌-◌, ◌≤◌, ◌<◌, ◌≡◌, inl, inr, refl, Option, none, some, ok, ltb, ◌==◌,
  if◌then◌else◌, update, arith, Option-cases, Bool-cases,
}
use native.Mathlib.Decide.{ℕ_discrete}
use sistema_operativo.Syscall.{Caller, argint}
use sistema_operativo.File.{
  Files, fd_none, nofile, put_file, filedup, fileclose, Closing, stays, closing, argfd, find_fd,
  fdalloc, dup_allocated, sys_dup, sys_close,
}

abbrev pub hit : Option ℕ → ℕ → ℕ
hit none i = 0
hit (some j) i = if j == i then 1 else 0

-- How many of the `n` descriptors from `c` on stand for file `i`.
unfoldable pub descriptors : ℕ → ℕ → (ℕ → Option ℕ) → ℕ → ℕ
descriptors zero c o i = 0
descriptors (suc n) c o i = hit (o c) i + descriptors n (suc c) o i

-- Every file counts the descriptors of the process, and `others i`: those of other processes, and
-- the calls that are at work on it.
abbrev pub Balanced : (ℕ → ℕ) → Files → Type 0
Balanced others t = (i : ℕ) → (t.file i).ref ≡ descriptors nofile 0 t.ofile i + others i

descriptors-outside :
    (n c fd : ℕ) (o : ℕ → Option ℕ) (w : Option ℕ) (i : ℕ)
    → fd < c
    → descriptors n c (update o fd w) i ≡ descriptors n c o i
unfolding descriptors
descriptors-outside zero c fd o w i h = refl
descriptors-outside (suc n) c fd o w i h =
    ground (arith, descriptors-outside n (suc c) fd o w i (omega arith))

descriptors-update :
    (n c fd : ℕ) (o : ℕ → Option ℕ) (w : Option ℕ) (i : ℕ)
    → c ≤ fd
    → fd < c + n
    → descriptors n c (update o fd w) i + hit (o fd) i ≡ descriptors n c o i + hit w i
unfolding descriptors
descriptors-update zero c fd o w i a b = absurd (omega arith)
descriptors-update (suc n) c fd o w i a b = elim (ℕ_discrete c fd) [
  | yes e ↦ ground (arith, descriptors-outside n (suc c) fd o w i (omega arith))
  | no e ↦ ground (arith, descriptors-update n (suc c) fd o w i (omega arith) (omega arith))
]

find_fd-some :
    (n c fd : ℕ) (t : Files)
    → find_fd n c t ≡ some fd
    → (c ≤ fd) × (fd < c + n) × (t.ofile fd ≡ none)
unfolding find_fd
find_fd-some zero c fd t e = cc
find_fd-some (suc n) c fd t e = elim (Option-cases (t.ofile c)) [
  | inl free ↦ (ground (arith, free), ground (arith, free), ground (arith, free))
  | inr (i, used) ↦
      let (a, b, f) = find_fd-some n (suc c) fd t (later i used) in (omega arith, omega arith, f)
]
  where
    later : (i : ℕ) → t.ofile c ≡ some i → find_fd n (suc c) t ≡ some fd
    later i used = ground (arith, used)

argfd-some :
    (n fd i : ℕ) (p : Caller) (t : Files)
    → argfd n p t ≡ some (fd, i)
    → (fd < nofile) × (t.ofile fd ≡ some i)
unfolding argfd
argfd-some n fd i p t e = elim (Option-cases (argint n p)) [
  | inl a ↦ absurd (ground (arith, a))
  | inr (a, h) ↦ elim (Option-cases (t.ofile a)) [
    | inl f ↦ absurd (ground (arith, h, f))
    | inr (j, f) ↦ (ground (arith, h, f), ground (arith, h, f))
  ]
]

descriptors-hit :
    (fd i : ℕ) (t : Files) → fd < nofile → t.ofile fd ≡ some i → 1 ≤ descriptors nofile 0 t.ofile i
descriptors-hit fd i t h e =
    ground (arith, e, descriptors-update nofile 0 fd t.ofile none i (omega arith) h)

dup_step :
    (others : ℕ → ℕ) (fd i : ℕ) (t : Files)
    → Balanced others t
    → (fd < nofile) × (t.ofile fd ≡ some i)
    → (r : Option ℕ) × (t' : Files) × (dup_allocated i (fdalloc i t) ≡ ok (r, t'))
      × Balanced others t'
unfolding dup_allocated fdalloc filedup
dup_step others fd i t b (h, e) = elim (Option-cases (find_fd nofile 0 t)) [
  | inl full ↦ (none, t, rw (full, fdalloc) refl, b)
  | inr (fd', free) ↦
      let (low, high, unused) = find_fd-some nofile 0 fd' t free in
      (
        some fd',
        put_file i (record (t.file i) { ref = (t.file i).ref + 1 })
            (record t { ofile = update t.ofile fd' (some i) }),
        rw (free, fdalloc) (ground (arith, b i, descriptors-hit fd i t h e)),
        λ j.
            ground (
              arith,
              b i,
              b j,
              unused,
              descriptors-update nofile 0 fd' t.ofile (some i) j low high,
            ),
      )
]

-- `sys_dup` never panics, and leaves every file counting its descriptors.
pub sys_dup-Balanced :
    (others : ℕ → ℕ) (p : Caller) (t : Files)
    → Balanced others t
    → (r : Option ℕ) × (t' : Files) × (sys_dup p t ≡ ok (r, t')) × Balanced others t'
unfolding sys_dup
sys_dup-Balanced others p t b = elim (Option-cases (argfd 0 p t)) [
  | inl e ↦ (none, t, rw (e, sys_dup) refl, b)
  | inr ((fd, i), e) ↦
      let (r, t', made, b') = dup_step others fd i t b (argfd-some 0 fd i p t e) in
      (r, t', rw (e, sys_dup) made, b')
]

close_step :
    (others : ℕ → ℕ) (fd i : ℕ) (t : Files)
    → Balanced others t
    → (fd < nofile) × (t.ofile fd ≡ some i)
    → (c : Closing) × (t' : Files) × (fileclose i (record t { ofile = update t.ofile fd none })
        ≡ ok (c, t'))
      × Balanced others t'
unfolding fileclose
close_step others fd i t b (h, e) = elim (Bool-cases (ltb 1 (t.file i).ref)) [
  | inl more ↦ (
    stays,
    put_file i (record (t.file i) { ref = (t.file i).ref - 1 })
        (record t { ofile = update t.ofile fd none }),
    ground (arith, more),
    λ j.
        ground
          (arith, more, b i, b j, e, descriptors-update nofile 0 fd t.ofile none j (omega arith) h),
  )
  | inr last ↦ (
    closing (t.file i) (t.file i).type,
    put_file i (record (t.file i) { ref = 0; type = fd_none })
        (record t { ofile = update t.ofile fd none }),
    ground (arith, last, b i, descriptors-hit fd i t h e),
    λ j.
        ground
          (arith, last, b i, b j, e, descriptors-update nofile 0 fd t.ofile none j (omega arith) h),
  )
]

-- `sys_close` never panics, and leaves every file counting its descriptors.
pub sys_close-Balanced :
    (others : ℕ → ℕ) (p : Caller) (t : Files)
    → Balanced others t
    → (r : Option Closing) × (t' : Files) × (sys_close p t ≡ ok (r, t')) × Balanced others t'
unfolding sys_close
sys_close-Balanced others p t b = elim (Option-cases (argfd 0 p t)) [
  | inl e ↦ (none, t, rw (e, sys_close) refl, b)
  | inr ((fd, i), e) ↦
      let (c, t', made, b') = close_step others fd i t b (argfd-some 0 fd i p t e) in
      (some c, t', rw (e, sys_close, made) refl, b')
]
