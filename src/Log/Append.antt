-- ===== src/Log/Append.antt =====
-- `log_write` adds a sector to the transaction, or gives one that is in it new data.
use sistema_operativo.Base.{
  ℕ, zero, suc, ◌+◌, ◌≤◌, ◌<◌, ◌≡◌, ◌≢◌, ◌⊎◌, subst, true, false, none, some, ok, halt, panic, ◌==◌,
  if◌then◌else◌, update, arith, Bool-cases, inl, inr,
}
use native.Mathlib.Decide.{ℕ_discrete}
use sistema_operativo.Log.{Block, Machine, bread, bwrite, find_entry, log_write, logsize}
use sistema_operativo.Log.Commit.{in_log, Transaction, Logged}

-- The transaction so far: its entries in memory, its data in the log on disk.
pub record Pending (t : Transaction) (m : Machine) : Type 0 where
  pub start : m.start ≡ t.start
  pub count : m.n ≡ t.n
  pub homes : (i : ℕ) → i < t.n → m.sector i ≡ t.home i
  pub stored : (i : ℕ) → i < t.n → m.disk (t.start + i + 1) ≡ t.new i
  pub clean : (b : ℕ) → in_log t.start b ≡ true → m.dirty b ≡ none
  pub active : m.busy ≡ true

pub Pending-Logged : (t : Transaction) (m : Machine) → Pending t m → Logged t m
Pending-Logged t m p = record {
  start = p.start;
  homes = p.homes;
  blocks = λ i h. ground (arith, p.stored i h, p.clean (t.start + i + 1), t.small);
}

-- The entry that `log_write` uses: the one of the sector, or the one behind the last.
pub record Entry (b k i : ℕ) (m : Machine) (e : ℕ) : Type 0 where
  pub low : i ≤ e
  pub high : e ≤ i + k
  pub own : e < i + k → m.sector e ≡ b
  pub before : (j : ℕ) → i ≤ j → j < e → m.sector j ≢ b

find_entry-Entry : (b k i : ℕ) (m : Machine) → Entry b k i m (find_entry b k i m)
unfolding find_entry
find_entry-Entry b zero i m = record {
  low = omega arith;
  high = omega arith;
  own = λ h. absurd (omega arith);
  before = λ j a c. absurd (omega arith);
}
find_entry-Entry b (suc k) i m = elim (Bool-cases (m.sector i == b)) [
  | inl here ↦ rw here (record {
    low = omega arith;
    high = omega arith;
    own = λ h. ground arith;
    before = λ j a c. absurd (omega arith);
  })
  | inr later ↦
      let e = find_entry-Entry b k (suc i) m in
      rw later (record {
        low = omega (arith, e.low);
        high = omega (arith, e.high);
        own = λ h. e.own (omega arith);
        before = λ j a c. elim (ℕ_discrete i j) [
          | yes same ↦ subst (λ j. m.sector j ≢ b) same (λ q. ground arith)
          | no other ↦ e.before j (omega arith) c
        ];
      })
]

module _ (t : Transaction) (m : Machine) (b : ℕ) (x : Block) (p : Pending t m)
    (room : t.n < logsize) (out : in_log t.start b ≡ false) where
  abbrev pub e : ℕ
  e = find_entry b m.n 0 m

  pub e_lem : Entry b m.n 0 m e
  e_lem = find_entry-Entry b m.n 0 m

  abbrev pub count' : ℕ
  count' = if e == t.n then suc t.n else t.n

  abbrev pub home' : ℕ → ℕ
  home' = update t.home e b

  pub few : count' ≤ logsize
  few = ground (arith, t.small)

  pub apart : (i : ℕ) → i < count' → in_log t.start (home' i) ≡ false
  apart i h = ground (arith, t.outside i)

  pub differ : (i j : ℕ) → i < count' → j < count' → home' i ≡ home' j → i ≡ j
  differ i j hi hj q = ground (
    arith,
    t.distinct i j,
    e_lem.high,
    e_lem.before i,
    e_lem.before j,
    e_lem.own,
    p.count,
    p.homes i,
    p.homes j,
    p.homes e,
  )

  -- The transaction with the sector `b` and its data at entry `e`.
  abbrev pub extended : Transaction
  extended = record {
    start = t.start;
    n = if e == t.n then suc t.n else t.n;
    home = update t.home e b;
    new = update t.new e x;
    small = few;
    outside = apart;
    distinct = differ;
  }

  abbrev pub after : Machine
  after =
      let m' = bwrite (m.start + e + 1) x (record m { sector = update m.sector e b }) in
      record m' { n = if e == m.n then suc m.n else m.n; dirty = update m'.dirty b (some x) }

  log_write-after : t.n + 1 < m.size → log_write b x m ≡ ok after
  unfolding log_write
  log_write-after fits = ground (arith, p.count, p.active)

  after-Pending : Pending extended after
  after-Pending = record {
    start = p.start;
    count = ground (arith, p.count);
    homes = λ i h. ground (arith, p.homes i, p.count);
    stored = λ i h. ground (arith, p.stored i, p.start);
    clean = λ c h. ground (arith, p.clean c h);
    active = p.active;
  }

  entry_in : e < extended.n
  entry_in = ground (arith, e_lem.high, p.count)

-- What `log_write` of sector `b` with the data `x` leaves.
pub record Logs (t : Transaction) (m : Machine) (b : ℕ) (x : Block) : Type 0 where
  pub transaction : Transaction
  pub machine : Machine
  pub computes : log_write b x m ≡ ok machine
  pub pending : Pending transaction machine
  pub entry : ℕ
  pub entry_in : entry < transaction.n
  pub home : transaction.home entry ≡ b
  pub new : transaction.new entry ≡ x
  pub others : (i : ℕ) → i ≢ entry → (transaction.home i ≡ t.home i) × (transaction.new i ≡ t.new i)
  pub visible : bread b machine ≡ x
  pub unwritten : (a : ℕ) → in_log t.start a ≡ false → machine.disk a ≡ m.disk a

-- `log_write` of a sector outside the log, in an open transaction with room, gives the sector the new
-- data in the transaction, in its own entry or in one more; readers see the new data at once, and no
-- sector outside the log is written.
pub log_write_refines :
    (t : Transaction) (m : Machine) (b : ℕ) (x : Block)
    → Pending t m
    → t.n < logsize
    → t.n + 1 < m.size
    → in_log t.start b ≡ false
    → Logs t m b x
log_write_refines t m b x p room fits out = record {
  transaction = extended t m b x p room out;
  machine = after t m b x p room out;
  computes = log_write-after t m b x p room out fits;
  pending = after-Pending t m b x p room out;
  entry = e t m b x p room out;
  entry_in = entry_in t m b x p room out;
  home = ground arith;
  new = ground arith;
  others = λ i n. (ground arith, ground arith);
  visible = ground arith;
  unwritten = λ a h. ground (arith, (e_lem t m b x p room out).high, p.start, p.count);
}

-- `log_write` panics when the transaction has filled the log or its region of the disk.
pub log_write-full :
    (b : ℕ) (x : Block) (m : Machine)
    → (logsize ≤ m.n) ⊎ (m.size ≤ m.n + 1)
    → log_write b x m ≡ halt (panic "too big a transaction")
unfolding log_write
log_write-full b x m h = ground arith

-- `log_write` with room in the log panics outside a transaction.
pub log_write-idle :
    (b : ℕ) (x : Block) (m : Machine)
    → m.n < logsize
    → m.n + 1 < m.size
    → m.busy ≡ false
    → log_write b x m ≡ halt (panic "write outside of trans")
unfolding log_write
log_write-idle b x m h k l = ground arith
