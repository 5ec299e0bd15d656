-- ===== src/Fs/Content/Segments.antt =====
-- Runs of bytes.
use sistema_operativo.Base.{
  ℕ, zero, suc, ◌+◌, ◌/◌, ◌%◌, ◌≤◌, ◌<◌, ◌≡◌, refl, sym, subst, ap, ap₂, ◌∙◌, ◌∷◌, ◌++◌, arith,
}
use sistema_operativo.Fs.{bsize}
use sistema_operativo.Fs.Bmap.{FileMap}
use sistema_operativo.Fs.Bmap.Address.{address}
use sistema_operativo.Fs.Content.{segment}

zero-add : (n : ℕ) → 0 + n ≡ n
zero-add n = omega arith

add-zero : (n : ℕ) → n + 0 ≡ n
add-zero n = omega arith

-- The byte of a file at an offset.
abbrev pub contents : FileMap → ℕ → ℕ
contents f i = f.blocks (address f (i / bsize)) (i % bsize)

pub segment-append :
    (g : ℕ → ℕ) (i m r : ℕ) → segment g i (m + r) ≡ segment g i m ++ segment g (i + m) r
unfolding segment
segment-append g i zero r = rw (zero-add r, add-zero i) refl
segment-append g i (suc m) r =
    rw (suc-add m r, add-suc i m) (ap (λ l. g i ∷ l) (segment-append g (suc i) m r))
  where
    suc-add : (m r : ℕ) → suc m + r ≡ suc (m + r)
    suc-add m r = omega arith

    add-suc : (i m : ℕ) → i + suc m ≡ suc i + m
    add-suc i m = omega arith

-- Runs that have the same bytes.
pub segment-ext :
    (g h : ℕ → ℕ) (i j m : ℕ)
    → ((k : ℕ) → k < m → g (i + k) ≡ h (j + k))
    → segment g i m ≡ segment h j m
unfolding segment
segment-ext g h i j zero same = refl
segment-ext g h i j (suc m) same =
    ap₂ (λ x l. x ∷ l) (first)
      (segment-ext g h (suc i) (suc j) m
        (λ k l. ap g (shift i k) ∙ same (suc k) (omega arith) ∙ ap h (sym (shift j k))))
  where
    shift : (i k : ℕ) → suc i + k ≡ i + suc k
    shift i k = omega arith

    first : g i ≡ h j
    first =
        subst (λ a. g a ≡ h j) (add-zero i)
          (subst (λ b. g (i + 0) ≡ h b) (add-zero j) (same 0 (omega arith)))

-- A run inside one block of the file.
pub segment-block :
    (f : FileMap) (off m : ℕ)
    → off % bsize + m ≤ bsize
    → segment (f.blocks (address f (off / bsize))) (off % bsize) m ≡ segment (contents f) off m
segment-block f off m h =
    segment-ext (f.blocks (address f (off / bsize))) (contents f) (off % bsize) off m
      (λ k l. ap₂ (λ b i. f.blocks (address f b) i) (block k l) (byte k l))
  where
    block : (k : ℕ) → k < m → off / bsize ≡ (off + k) / bsize
    block k l = omega arith

    byte : (k : ℕ) → k < m → off % bsize + k ≡ (off + k) % bsize
    byte k l = omega arith
