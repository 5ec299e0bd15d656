-- ===== src/Fs/Logging.antt =====
-- The log as the calls of `log_write` in fs.c see it: the sectors of the open transaction. Log has the
-- whole of log.c, with the data.
pub mod Room
use sistema_operativo.Base.{
  ℕ, zero, suc, ◌+◌, Bool, true, false, not, ◌||◌, List, [], ◌∷◌, Outcome, ok, halt, panic, ◌>>=◌,
  leb, ◌==◌, if◌then◌else◌, update,
}
use sistema_operativo.Log.{logsize}

-- `log.busy`, `log.size` and `log.lh`.
pub record OpenLog : Type 0 where
  pub busy : Bool
  pub size : ℕ
  pub n : ℕ
  pub sector : ℕ → ℕ

-- The loop of `log_write`: the entry of sector `b` among the `k` from `i` on, or the one behind them.
unfoldable pub find_sector : (b k i : ℕ) → (ℕ → ℕ) → ℕ
find_sector b zero i sector = i
find_sector b (suc k) i sector =
    let later = find_sector b k (suc i) sector in if sector i == b then i else later

-- `log_write` of sector `b`, without its data.
unfoldable pub log_sector : ℕ → OpenLog → Outcome OpenLog
unfolding find_sector
log_sector b g =
    if leb logsize g.n || leb g.size (g.n + 1)
    then halt (panic "too big a transaction")
    else if not g.busy
    then halt (panic "write outside of trans")
    else let i = find_sector b g.n 0 g.sector in
      ok (record g { sector = update g.sector i b; n = if i == g.n then suc g.n else g.n })

unfoldable pub log_sectors : List ℕ → OpenLog → Outcome OpenLog
unfolding log_sector
log_sectors [] g = ok g
log_sectors (b ∷ bs) g = log_sector b g >>= log_sectors bs
