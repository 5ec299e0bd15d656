-- ===== src/Spinlock.antt =====
-- spinlock.c: the lock, the nesting of `cli`, and a CPU's interrupt flag.
pub mod Nesting
use sistema_operativo.Base.{
  ℕ, zero, suc, ◌≡◌, Bool, true, false, not, ◌&&◌, Option, none, some, Outcome, ok, halt, panic,
  spins, ◌>>=◌, ◌==◌, if◌then◌else◌,
}
use sistema_operativo.Base.Int.{ℤ, pos, negsuc, inc, dec, is_ℕ}

-- `struct spinlock`, without the name and the call stack that are kept for debugging. The `cpu`
-- field is the number of the CPU, `none` for the null pointer.
pub record Spinlock : Type 0 where
  pub locked : Bool
  pub holder : Option ℕ

-- The fields of `struct cpu` that locking uses, and FL_IF of the CPU's flags.
pub record Cpu : Type 0 where
  pub id : ℕ
  pub ncli : ℤ
  pub intena : Bool
  pub interrupts : Bool

abbrev pub initlock : Spinlock
initlock = record { locked = false; holder = none }

abbrev pub is_cpu : Option ℕ → ℕ → Bool
is_cpu none c = false
is_cpu (some h) c = h == c

unfoldable pub holding : Spinlock → Cpu → Bool
holding lk c = lk.locked && is_cpu lk.holder c.id

unfoldable pub pushcli : Cpu → Cpu
pushcli c = record c {
  interrupts = false;
  intena = if is_ℕ c.ncli 0 then c.interrupts else c.intena;
  ncli = inc c.ncli;
}

abbrev pub is_negative : ℤ → Bool
is_negative (pos n) = false
is_negative (negsuc n) = true

unfoldable pub popcli : Cpu → Outcome Cpu
popcli c =
    if c.interrupts
    then halt (panic "popcli - interruptible")
    else if is_negative (dec c.ncli)
    then halt (panic "popcli")
    else ok (record c { ncli = dec c.ncli; interrupts = is_ℕ (dec c.ncli) 0 && c.intena })

-- One call of `acquire`: where the lock is another's, the loop on `xchg` goes on.
unfoldable pub acquire : Spinlock → Cpu → Outcome (Spinlock × Cpu)
unfolding pushcli holding
acquire lk c =
    let c' = pushcli c in
    if holding lk c'
    then halt (panic "acquire")
    else if lk.locked
    then halt spins
    else ok (record { locked = true; holder = some c'.id }, c')

unfoldable pub release : Spinlock → Cpu → Outcome (Spinlock × Cpu)
unfolding popcli holding
release lk c =
    if not (holding lk c)
    then halt (panic "release")
    else popcli c >>= λ c'. ok (record { locked = false; holder = none }, c')
