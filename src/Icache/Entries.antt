-- ===== src/Icache/Entries.antt =====
-- An inode has one entry of the cache at most.
use sistema_operativo.Base.{ℕ, ◌+◌, ◌≤◌, ◌<◌, ◌≡◌, ◌≢◌, ◌⊎◌, true, false, Option, none, some, ok}
use sistema_operativo.Base.Int.{pos, inc, is_positive, is_ℕ}
use sistema_operativo.Icache.{Icache, ninode, put_inode, is_cached, Search, cached, absent, iget}

-- Entries in use for the same inode are one.
abbrev pub Unique : Icache → Type 0
Unique c =
    (i j : ℕ)
    → i < ninode
    → j < ninode
    → is_positive (c.inode i).ref ≡ true
    → is_positive (c.inode j).ref ≡ true
    → (c.inode i).dev ≡ (c.inode j).dev
    → (c.inode i).inum ≡ (c.inode j).inum
    → i ≡ j

-- What a search that started with `e` at entry `i` came to.
abbrev Sought : (dev inum n i : ℕ) → Option ℕ → Icache → Search → Type 0
Sought dev inum n i e c (cached j) = (i ≤ j) × (j < i + n) × (is_cached dev inum (c.inode j) ≡ true)
Sought dev inum n i e c (absent none) =
    (e ≡ none) × ((k : ℕ) → i ≤ k → k < i + n → is_ℕ (c.inode k).ref 0 ≡ false)
Sought dev inum n i e c (absent (some j)) =
    ((k : ℕ) → i ≤ k → k < i + n → is_cached dev inum (c.inode k) ≡ false)
    × ((e ≡ some j) ⊎ ((i ≤ j) × (j < i + n) × (is_ℕ (c.inode j).ref 0 ≡ true)))

-- What `iget` leaves: entry `i` in use for the inode, and the other entries as before.
pub record Got (dev inum : ℕ) (c : Icache) (i : ℕ) (c' : Icache) : Type 0 where
  pub computes : iget dev inum c ≡ ok (i, c')
  pub unique : Unique c'
  pub inside : i < ninode
  pub in_use : is_cached dev inum (c'.inode i) ≡ true
  pub others : (j : ℕ) → j ≢ i → c'.inode j ≡ c.inode j

abbrev shared : ℕ → Icache → Icache
shared i c = put_inode i (record (c.inode i) { ref = inc (c.inode i).ref }) c

abbrev recycled : (dev inum : ℕ) → ℕ → Icache → Icache
recycled dev inum i c =
    put_inode i
      (record (c.inode i) { dev = dev; inum = inum; ref = pos 1; busy = false; valid = false }) c
