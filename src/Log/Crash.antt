-- ===== src/Log/Crash.antt =====
-- A commit is atomic and durable: after a crash at any point, recovery leaves all of it or nothing.
use sistema_operativo.Base.{
  ℕ, zero, suc, ◌+◌, ◌-◌, ◌≤◌, ◌<◌, ◌≡◌, refl, sym, ap, ◌∙◌, subst, List, [], ◌∷◌, ◌++◌, update,
  arith, take, length,
}
use native.Mathlib.Decide.{dec_le}
use sistema_operativo.Log.{
  Block, Machine, bread, install_from, install_trans, write_head, read_head, put_header,
  commit_trans, initlog, booted,
}
use sistema_operativo.Log.Commit.{
  Disk, replay, replay-append, Transaction, home_writes, Logged, Installed, install_from-Installed,
  IsHeader, CommitWrites, commit_trans-writes,
}
use sistema_operativo.Log.Recovery.{AllNew, AllOld, Ready, replay-AllNew, take-Ready}

-- The machine at `commit_trans`: the entries are in memory and their data in the log on disk, where
-- the header counts nothing; the sectors written are counted from here.
pub record Prepared (t : Transaction) (m : Machine) : Type 0 where
  pub logged : Logged t m
  pub count : m.n ≡ t.n
  pub some_block : 0 < t.n
  pub stored : (i : ℕ) → i < t.n → m.disk (t.start + i + 1) ≡ t.new i
  pub no_commit : m.disk t.start 0 ≡ 0
  pub from_here : m.writes ≡ []

-- The disk that a crash after `k` sector writes of the commit leaves.
abbrev pub crashed : Machine → ℕ → Disk
crashed m k = replay (take k (commit_trans m).writes) m.disk

take-append_le {ℓ} :
    {A : Type ℓ} (j : ℕ) (xs ys : List A) → j ≤ length xs → take j (xs ++ ys) ≡ take j xs
take-append_le zero xs ys h = refl
take-append_le (suc j) [] ys h = absurd (omega arith)
take-append_le (suc j) (x ∷ xs) ys h = ap (λ l. x ∷ l) (take-append_le j xs ys (omega arith))

take-append_gt {ℓ} :
    {A : Type ℓ} (j : ℕ) (xs : List A) (y : A)
    → length xs < j
    → take j (xs ++ y ∷ []) ≡ xs ++ y ∷ []
take-append_gt zero xs y h = absurd (omega arith)
take-append_gt (suc zero) [] y h = refl
take-append_gt (suc (suc j)) [] y h = refl
take-append_gt (suc j) (x ∷ xs) y h = ap (λ l. x ∷ l) (take-append_gt j xs y (omega arith))

length-home_writes : (t : Transaction) (k tail : ℕ) → length (home_writes t k tail) ≡ k
length-home_writes t zero tail = refl
length-home_writes t (suc k) tail = ap suc (length-home_writes t k (suc tail))

-- The disk `d` that recovery leaves after a crash behind `k` writes of the commit, whose disk was
-- `old` before it.
pub CrashOutcome : Transaction → Disk → ℕ → Disk → Type 0
CrashOutcome t old zero d = AllOld t old d
CrashOutcome t old (suc k) d = AllNew t old d

module _ (t : Transaction) (size nlog : ℕ) (at : size - nlog ≡ t.start) where
  initlog_lem :
      (d : Disk)
      → let m = install_from (d (size - nlog) 0) 0 (read_head (booted d size nlog)) in
        (initlog d size nlog).disk ≡ update m.disk m.start (put_header 0 m.sector (bread m.start m))
  unfolding initlog install_trans write_head read_head
  initlog_lem d = refl

  read_head-Logged : (old d : Disk) → Ready t old d → Logged t (read_head (booted d size nlog))
  unfolding read_head
  read_head-Logged old d r = record {
    start = at;
    homes = λ i h. rw at (ground (arith, r.header.count, r.header.entries i h));
    blocks = λ i h. r.blocks i h;
  }

  AllNew-log :
      (old d : Disk) (s : ℕ) (x : Block)
      → s ≡ t.start
      → AllNew t old d
      → AllNew t old (update d s x)
  AllNew-log old d s x e a = record {
    homes = λ i h. ground (arith, a.homes i h, t.outside i h);
    kept = λ b out other. ground (arith, a.kept b out other);
  }

  disk-read_head : (d : Disk) → (read_head (booted d size nlog)).disk ≡ d
  unfolding read_head
  disk-read_head d = refl

  -- Recovery installs a committed log.
  recover-Ready : (old d : Disk) → Ready t old d → AllNew t old (initlog d size nlog).disk
  recover-Ready old d r = subst (AllNew t old) (sym (initlog_lem d)) (
      AllNew-log old m2.disk m2.start _ done.logged.start (
        subst (AllNew t old)
          (sym (done.disk ∙ ap (replay (home_writes t t.n 0)) (disk-read_head d)))
          (replay-AllNew t old d r)))
    where
      m1 : Machine
      m1 = read_head (booted d size nlog)

      m2 : Machine
      m2 = install_from (d (size - nlog) 0) 0 m1

      done : Installed t m1 m2 (home_writes t t.n 0)
      done =
          subst (λ n. Installed t m1 (install_from n 0 m1) (home_writes t t.n 0))
            (sym (ap (λ s. d s 0) at ∙ r.header.count))
            (install_from-Installed t t.n 0 m1 (omega arith) (read_head-Logged old d r))

  -- Recovery of an empty log changes nothing outside the log.
  recover-empty : (d : Disk) → d t.start 0 ≡ 0 → AllOld t d (initlog d size nlog).disk
  unfolding initlog install_trans write_head read_head install_from
  recover-empty d e b out =
      subst (λ n. (emptied n).disk b ≡ d b) (sym (ap (λ s. d s 0) at ∙ e)) (ground arith)
    where
      emptied : ℕ → Machine
      emptied n = write_head (record (install_from n 0 (read_head (booted d size nlog))) { n = 0 })

  headed-Ready :
      (m : Machine) (x : Block)
      → Prepared t m
      → IsHeader t x
      → Ready t m.disk (update m.disk t.start x)
  headed-Ready m x p h = record {
    header = subst (IsHeader t) (ground arith) h;
    blocks = λ i l. ground (arith, p.stored i l);
    kept = λ b out other. ground arith;
  }

  AllNew-AllOld : (old d d' : Disk) → AllNew t old d → AllOld t d d' → AllNew t old d'
  AllNew-AllOld old d d' a o = record {
    homes = λ i h. o (t.home i) (t.outside i h) ∙ a.homes i h;
    kept = λ b out other. o b out ∙ a.kept b out other;
  }

  crash_later :
      (m : Machine) (j : ℕ) (p : Prepared t m)
      → (w : CommitWrites t (commit_trans m).writes)
      → AllNew t m.disk
          (initlog
            (replay
              (take j (home_writes t t.n 0 ++ (t.start, w.cleared) ∷ []))
              (update m.disk t.start w.header))
            size
            nlog).disk
  crash_later m j p w = elim (dec_le j t.n) [
    | yes h ↦
        subst (λ ws. AllNew t m.disk (initlog (replay ws d1) size nlog).disk)
          (sym
            (take-append_le j hw ((t.start, w.cleared) ∷ []) (rw (length-home_writes t t.n 0) h)))
          (recover-Ready m.disk (replay (take j hw) d1)
            (take-Ready t m.disk d1 j t.n 0 (omega arith) ready))
    | no h ↦
        subst (λ ws. AllNew t m.disk (initlog (replay ws d1) size nlog).disk)
          (sym (
            take-append_gt j hw (t.start, w.cleared)
              (rw (length-home_writes t t.n 0) (omega arith))))
          (subst (λ d. AllNew t m.disk (initlog d size nlog).disk)
            (sym (replay-append hw ((t.start, w.cleared) ∷ []) d1))
            (AllNew-AllOld m.disk cleared _
              (AllNew-log m.disk (replay hw d1) t.start w.cleared refl
                (replay-AllNew t m.disk d1 ready))
              (recover-empty cleared (ground (arith, w.is_cleared)))))
  ]
    where
      hw : List (ℕ × Block)
      hw = home_writes t t.n 0

      d1 : Disk
      d1 = update m.disk t.start w.header

      ready : Ready t m.disk d1
      ready = headed-Ready m w.header p w.is_header

      cleared : Disk
      cleared = update (replay hw d1) t.start w.cleared

  -- A commit is atomic and durable, for every transaction that fits the log. A crash before the first
  -- sector write of `commit_trans`, and recovery, leave every sector outside the log as it was; a
  -- crash after any later number of its writes (all of them included), and recovery, leave at each
  -- home the new data, and every other sector outside the log as it was.
  pub crash_atomic :
      (m : Machine)
      → Prepared t m
      → (k : ℕ) → CrashOutcome t m.disk k (initlog (crashed m k) size nlog).disk
  unfolding CrashOutcome
  crash_atomic m p zero = recover-empty m.disk p.no_commit
  crash_atomic m p (suc j) =
      let w = commit_trans-writes t m p.logged p.count p.some_block p.from_here in
      subst (λ ws. AllNew t m.disk (initlog (replay (take (suc j) ws) m.disk) size nlog).disk)
        (sym w.all) (crash_later m j p w)
