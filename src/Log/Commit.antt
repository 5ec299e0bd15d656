-- ===== src/Log/Commit.antt =====
-- What a commit writes, sector by sector.
use mathlib.Core.List.{append-nil, append_assoc}
use sistema_operativo.Base.{
  ℕ, zero, suc, ◌+◌, ◌≤◌, ◌<◌, ◌≡◌, ◌⊎◌, refl, sym, ap, ap₂, ◌∙◌, subst, Bool, false, ◌&&◌, List,
  [], ◌∷◌, ◌++◌, lt→ltb, leb, update, arith, inl, inr,
}
use sistema_operativo.Log.{
  Block, Machine, bread, bwrite, install_from, install_trans, write_head, put_header, commit_trans,
  logsize,
}

abbrev pub Disk : Type 0
Disk = ℕ → Block

-- The disk after some sectors are written.
abbrev pub replay : List (ℕ × Block) → Disk → Disk
replay [] d = d
replay ((b, x) ∷ ws) d = replay ws (update d b x)

pub replay-append :
    (ws vs : List (ℕ × Block)) (d : Disk) → replay (ws ++ vs) d ≡ replay vs (replay ws d)
replay-append [] vs d = refl
replay-append ((b, x) ∷ ws) vs d = replay-append ws vs (update d b x)

-- The log area: the header, and a block for each entry.
abbrev pub in_log : ℕ → ℕ → Bool
in_log start b = leb start b && leb b (start + logsize)

-- A transaction of `n` blocks: their homes and their data. The homes differ and lie outside the log.
pub record Transaction : Type 0 where
  pub start : ℕ
  pub n : ℕ
  pub home : ℕ → ℕ
  pub new : ℕ → Block
  pub small : n ≤ logsize
  pub outside : (i : ℕ) → i < n → in_log start (home i) ≡ false
  pub distinct : (i j : ℕ) → i < n → j < n → home i ≡ home j → i ≡ j

-- The writes that install the `k` blocks from `tail` on.
abbrev pub home_writes : Transaction → ℕ → ℕ → List (ℕ × Block)
home_writes t zero tail = []
home_writes t (suc k) tail = (t.home tail, t.new tail) ∷ home_writes t k (suc tail)

-- A machine that has the log blocks of the transaction, and its entries in memory.
pub record Logged (t : Transaction) (m : Machine) : Type 0 where
  pub start : m.start ≡ t.start
  pub homes : (i : ℕ) → i < t.n → m.sector i ≡ t.home i
  pub blocks : (i : ℕ) → i < t.n → bread (t.start + i + 1) m ≡ t.new i

bwrite-Logged :
    (t : Transaction) (b : ℕ) (x : Block) (m : Machine)
    → Logged t m
    → (in_log t.start b ≡ false) ⊎ (b ≡ t.start)
    → Logged t (bwrite b x m)
bwrite-Logged t b x m g out = record {
  start = g.start;
  homes = g.homes;
  blocks = λ i h. ground (arith, g.blocks i h, t.small);
}

-- Installing: the writes to the homes, in order, and the disk that they leave.
pub record Installed (t : Transaction) (m m' : Machine) (ws : List (ℕ × Block)) : Type 0 where
  pub disk : m'.disk ≡ replay ws m.disk
  pub writes : m'.writes ≡ m.writes ++ ws
  pub logged : Logged t m'

install_step :
    (t : Transaction) (k tail : ℕ) (m : Machine)
    → tail < t.n
    → Logged t m
    → Installed t
        (bwrite (t.home tail) (t.new tail) m)
        (install_from k (suc tail) (bwrite (t.home tail) (t.new tail) m))
        (home_writes t k (suc tail))
    → Installed t m (install_from (suc k) tail m) (home_writes t (suc k) tail)
unfolding install_from
install_step t k tail m h g rest =
    subst (λ m1. Installed t m (install_from k (suc tail) m1) (home_writes t (suc k) tail))
      (sym here)
      (record {
        disk = rest.disk;
        writes =
            rest.writes
            ∙ append_assoc m.writes ((t.home tail, t.new tail) ∷ []) (home_writes t k (suc tail));
        logged = rest.logged;
      })
  where
    here :
        bwrite (m.sector tail) (bread (m.start + tail + 1) m) m
        ≡ bwrite (t.home tail) (t.new tail) m
    here =
        ap₂ (λ b x. bwrite b x m) (g.homes tail h)
          (ap (λ s. bread (s + tail + 1) m) g.start ∙ g.blocks tail h)

pub install_from-Installed :
    (t : Transaction) (k tail : ℕ) (m : Machine)
    → k + tail ≡ t.n
    → Logged t m
    → Installed t m (install_from k tail m) (home_writes t k tail)
install_from-Installed t zero tail m e g =
    unfold install_from in record { disk = refl; writes = sym (append-nil m.writes); logged = g }
install_from-Installed t (suc k) tail m e g = install_step t k tail m (omega arith) g (
    install_from-Installed t k (suc tail) (bwrite (t.home tail) (t.new tail) m) (omega arith)
      (bwrite-Logged t (t.home tail) (t.new tail) m g (inl (t.outside tail (omega arith)))))

-- A sector with the header of the transaction.
pub record IsHeader (t : Transaction) (x : Block) : Type 0 where
  pub count : x 0 ≡ t.n
  pub entries : (i : ℕ) → i < t.n → x (suc i) ≡ t.home i

put_header-IsHeader :
    (t : Transaction) (sector : ℕ → ℕ) (x : Block)
    → ((i : ℕ) → i < t.n → sector i ≡ t.home i)
    → IsHeader t (put_header t.n sector x)
put_header-IsHeader t sector x same = record {
  count = refl;
  entries = λ i h. ground (arith, same i h);
}

-- The writes of a commit: the header, the homes, and a header that counts nothing.
pub record CommitWrites (t : Transaction) (ws : List (ℕ × Block)) : Type 0 where
  pub header : Block
  pub cleared : Block
  pub is_header : IsHeader t header
  pub is_cleared : cleared 0 ≡ 0
  pub all : ws ≡ (t.start, header) ∷ (home_writes t t.n 0 ++ (t.start, cleared) ∷ [])

-- The machine with the header written, and then with the blocks at their homes.
abbrev headed : Machine → Machine
headed m = bwrite m.start (put_header m.n m.sector (bread m.start m)) m

abbrev emptied : Machine → Machine
emptied m = bwrite m.start (put_header 0 m.sector (bread m.start m)) (record m { n = 0 })

commit_trans_lem :
    (m : Machine)
    → 0 < m.n
    → commit_trans m ≡ record (emptied (install_from m.n 0 (headed m))) { busy = false }
unfolding commit_trans install_trans write_head
commit_trans_lem m pos = rw (lt→ltb 0 m.n pos)

pub commit_trans-writes :
    (t : Transaction) (m : Machine)
    → Logged t m
    → m.n ≡ t.n
    → 0 < t.n
    → m.writes ≡ []
    → CommitWrites t (commit_trans m).writes
commit_trans-writes t m g e pos fresh = record {
  header = put_header m.n m.sector (bread m.start m);
  cleared = put_header 0 m2.sector (bread m2.start m2);
  is_header =
      subst (λ n. IsHeader t (put_header n m.sector (bread m.start m))) (sym e)
        (put_header-IsHeader t m.sector (bread m.start m) g.homes);
  is_cleared = refl;
  all =
      ap (λ (k : Machine). k.writes) (commit_trans_lem m (omega arith))
      ∙ ap₂ (λ ws s. ws ++ (s, put_header 0 m2.sector (bread m2.start m2)) ∷ []) written
          done.logged.start;
}
  where
    m2 : Machine
    m2 = install_from m.n 0 (headed m)

    done : Installed t (headed m) m2 (home_writes t t.n 0)
    done =
        subst (λ n. Installed t (headed m) (install_from n 0 (headed m)) (home_writes t t.n 0))
          (sym e)
          (install_from-Installed t t.n 0 (headed m) (omega arith)
            (bwrite-Logged t m.start (put_header m.n m.sector (bread m.start m)) m g (inr g.start)))

    written : m2.writes ≡ (t.start, put_header m.n m.sector (bread m.start m)) ∷ home_writes t t.n 0
    written =
        done.writes
        ∙ ap₂
            (λ ws s.
              (ws ++ (s, put_header m.n m.sector (bread m.start m)) ∷ []) ++ home_writes t t.n 0)
            fresh g.start
