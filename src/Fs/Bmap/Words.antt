-- ===== src/Fs/Bmap/Words.antt =====
-- Words in the bytes of a block.
use sistema_operativo.Base.{ℕ, ◌<◌, ◌≡◌, ◌≢◌, arith}
use sistema_operativo.Fs.Bmap.{load_word, store_word}

pub load_word-store_word :
    (m : ℕ → ℕ) (i x : ℕ) → x < 0x100000000 → load_word (store_word m i x) i ≡ x
unfolding load_word store_word
load_word-store_word m i x h = ground arith

pub load_word-store_word_ne :
    (m : ℕ → ℕ) (i j x : ℕ) → i ≢ j → load_word (store_word m i x) j ≡ load_word m j
unfolding load_word store_word
load_word-store_word_ne m i j x n = ground arith

pub load_word-zero : (i : ℕ) → load_word (λ k. 0) i ≡ 0
unfolding load_word
load_word-zero i = omega arith
