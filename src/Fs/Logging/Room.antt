-- ===== src/Fs/Logging/Room.antt =====
-- A transaction with room for some more sectors.
use sistema_operativo.Base.{
  ℕ, zero, suc, ◌+◌, ◌≤◌, ◌<◌, ◌≡◌, refl, ap, Bool, true, false, ◌||◌, Outcome, ok, ◌>>=◌, leb,
  ◌==◌, if◌then◌else◌, update, arith,
}
use sistema_operativo.Log.{logsize, Machine, log_write, find_entry}
use sistema_operativo.Fs.Logging.{OpenLog, find_sector, log_sector}

-- The transaction is open, and `k` more sectors fit.
pub record HasLogRoom (k : ℕ) (g : OpenLog) : Type 0 where
  pub busy : g.busy ≡ true
  pub fits : g.n + k ≤ logsize
  pub sized : g.n + k < g.size

pub HasLogRoom-less : (j k : ℕ) {g : OpenLog} → j ≤ k → HasLogRoom k g → HasLogRoom j g
HasLogRoom-less j k h r = record {
  busy = r.busy;
  fits = omega (arith, r.fits);
  sized = omega (arith, r.sized);
}

-- A sector takes at most one place.
pub log_sector_lem :
    (b k : ℕ) (g : OpenLog)
    → HasLogRoom (suc k) g
    → (g' : OpenLog) × (log_sector b g ≡ ok g') × HasLogRoom k g'
unfolding log_sector
log_sector_lem b k g r =
    let i = find_sector b g.n 0 g.sector in
    (
      record g { sector = update g.sector i b; n = if i == g.n then suc g.n else g.n },
      rw (inside, log_sector, r.busy) refl,
      record {
        busy = r.busy;
        fits = omega (arith, r.fits, grows (i == g.n));
        sized = omega (arith, r.sized, grows (i == g.n));
      },
    )
  where
    inside : leb logsize g.n || leb g.size (g.n + 1) ≡ false
    inside = ground (arith, r.fits, r.sized)

    grows : (b : Bool) → (if b then suc g.n else g.n) ≤ suc g.n
    grows b = ground arith

-- The sectors of a machine of log.c.
abbrev pub of_machine : Machine → OpenLog
of_machine m = record { busy = m.busy; size = m.size; n = m.n; sector = m.sector }

-- `log_write` does to the sectors what `log_sector` does, and panics where it does.
abbrev sectors_of : Outcome Machine → Outcome OpenLog
sectors_of o = o >>= (λ m. ok (of_machine m))

find_entry-find_sector : (b k i : ℕ) (m : Machine) → find_entry b k i m ≡ find_sector b k i m.sector
unfolding find_entry find_sector
find_entry-find_sector b zero i m = refl
find_entry-find_sector b (suc k) i m =
    ap (λ later. if m.sector i == b then i else later) (find_entry-find_sector b k (suc i) m)

pub log_sector-log_write :
    (b : ℕ) (x : ℕ → ℕ) (m : Machine) → sectors_of (log_write b x m) ≡ log_sector b (of_machine m)
unfolding log_write log_sector
log_sector-log_write b x m = by_tests (leb logsize m.n || leb m.size (m.n + 1)) refl m.busy refl
  where
    by_tests :
        (full : Bool)
        → leb logsize m.n || leb m.size (m.n + 1) ≡ full
        → (busy : Bool) → m.busy ≡ busy
        → sectors_of (log_write b x m) ≡ log_sector b (of_machine m)
    by_tests true e busy f = rw (e, log_write, log_sector) refl
    by_tests false e false f = rw (e, log_write, log_sector, f) refl
    by_tests false e true f =
        rw (e, log_write, log_sector, f)
          (ap
            (λ i. ok (record {
              busy = true;
              size = m.size;
              n = if i == m.n then suc m.n else m.n;
              sector = update m.sector i b;
            }))
            (find_entry-find_sector b m.n 0 (record m { busy = true })))
