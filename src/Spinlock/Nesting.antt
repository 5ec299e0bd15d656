-- ===== src/Spinlock/Nesting.antt =====
-- Nesting of `pushcli` and `popcli`, and a critical section of one lock.
use sistema_operativo.Base.{
  ℕ, zero, suc, ◌≡◌, ◌≢◌, refl, ap, true, false, some, Outcome, ok, halt, panic, spins, ◌∙◌, ◌>>=◌,
  arith,
}
use sistema_operativo.Base.Int.{pos}
use sistema_operativo.Spinlock.{Spinlock, Cpu, initlock, holding, pushcli, popcli, acquire, release}

-- Between two calls: the depth is no negative number, and interrupts are off inside a section.
pub record IsValid (c : Cpu) : Type 0 where
  pub depth : ℕ
  pub ncli : c.ncli ≡ pos depth
  pub closed : depth ≢ 0 → c.interrupts ≡ false

-- `n` calls of `pushcli`, and `n` of `popcli`.
pub push_times : ℕ → Cpu → Cpu
push_times zero c = c
push_times (suc n) c = pushcli (push_times n c)

pub pop_times : ℕ → Cpu → Outcome Cpu
pop_times zero c = ok c
pop_times (suc n) c = popcli c >>= pop_times n

pub pushcli-IsValid : (c : Cpu) → IsValid c → IsValid (pushcli c)
unfolding pushcli
pushcli-IsValid c v = record {
  depth = suc v.depth;
  ncli = ground (arith, v.ncli);
  closed = λ n. refl;
}

-- At depth `n` one `popcli` undoes a `pushcli`, but for the note of the flag at depth 0.
popcli-pushcli :
    (c : Cpu) → IsValid c → popcli (pushcli c) ≡ ok (record c { intena = (pushcli c).intena })
unfolding pushcli popcli
popcli-pushcli c v = ground (arith, v.ncli, v.closed)

pub ncli-pushcli : (c : Cpu) (v : IsValid c) → (pushcli c).ncli ≡ pos (suc v.depth)
unfolding pushcli
ncli-pushcli c v = ground (arith, v.ncli)

push_times-IsValid : (n : ℕ) (c : Cpu) → IsValid c → IsValid (push_times n c)
unfolding push_times
push_times-IsValid zero c v = v
push_times-IsValid (suc n) c v = pushcli-IsValid (push_times n c) (push_times-IsValid n c v)

-- Inside a section a further `pushcli` keeps the note of the flag.
intena-pushcli : (c : Cpu) (v : IsValid c) → (pushcli (pushcli c)).intena ≡ (pushcli c).intena
unfolding pushcli
intena-pushcli c v = ground (arith, v.ncli)

-- `n` calls of `popcli` undo `n` calls of `pushcli`, whatever `n` and the depth are: none panics,
-- and the depth and the interrupt flag come back. In between interrupts are off.
pub pop_times-push_times :
    (n : ℕ) (c : Cpu)
    → IsValid c
    → (c' : Cpu) × (pop_times n (push_times n c) ≡ ok c')
      × (c'.ncli ≡ c.ncli)
      × (c'.interrupts ≡ c.interrupts)
      × (c'.id ≡ c.id)
      × ((push_times (suc n) c).interrupts ≡ false)
unfolding push_times pop_times pushcli
pop_times-push_times zero c v = (c, refl, refl, refl, refl, refl)
pop_times-push_times (suc zero) c v =
    (record c { intena = (pushcli c).intena }, rw (popcli-pushcli c v), refl, refl, refl, refl)
pop_times-push_times (suc (suc n)) c v =
    let (c', e, ncli, flag, id, off) = pop_times-push_times (suc n) c v in
    (c', step ∙ e, ncli, flag, id, refl)
  where
    d : Cpu
    d = push_times (suc n) c

    step : (popcli (pushcli d) >>= pop_times (suc n)) ≡ pop_times (suc n) d
    step = rw (popcli-pushcli d (push_times-IsValid (suc n) c v)) (
        ap (λ b. pop_times (suc n) (record d { intena = b }))
          (intena-pushcli (push_times n c) (push_times-IsValid n c v)))

-- A lock that is free is taken, with interrupts off; while it is held, the holder that asks again
-- panics, another CPU spins and cannot release it; the release frees it and brings the depth and the
-- interrupt flag back.
pub acquire-release :
    (lk : Spinlock) (c : Cpu)
    → lk.locked ≡ false
    → IsValid c
    → (lk' : Spinlock) × (c' : Cpu) × (c'' : Cpu) × (acquire lk c ≡ ok (lk', c'))
      × (holding lk' c' ≡ true)
      × (c'.interrupts ≡ false)
      × (acquire lk' c' ≡ halt (panic "acquire"))
      × ((d : Cpu)
          → d.id ≢ c.id
          → (acquire lk' d ≡ halt spins) × (release lk' d ≡ halt (panic "release")))
      × (release lk' c' ≡ ok (initlock, c''))
      × (c''.ncli ≡ c.ncli)
      × (c''.interrupts ≡ c.interrupts)
unfolding acquire release
acquire-release lk c free v = (
  record { locked = true; holder = some c.id },
  pushcli c,
  record c { intena = (pushcli c).intena },
  ground arith,
  ground arith,
  refl,
  ground arith,
  λ d n. (ground arith, ground arith),
  ground arith,
  refl,
  refl,
)
