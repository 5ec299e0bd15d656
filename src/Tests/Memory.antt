-- ===== src/Tests/Memory.antt =====
-- Examples for the page allocator, the string functions and the locks.
use sistema_operativo.Base.{
  ℕ, suc, ◌-◌, ◌/◌, ◌≡◌, ◌≢◌, refl, true, false, [], ◌∷◌, arith, ok, halt, panic, spins, count,
  count-nil, count-cons, if◌then◌else◌, ◌==◌,
}
use sistema_operativo.Base.Int.{pos}
use sistema_operativo.Kalloc.{Kmem, kinit1, pgsize, pg_round_up}
use sistema_operativo.Kalloc.FreeList.{Holds, freed, kinit1_lem}
use sistema_operativo.Spinlock.{Spinlock, Cpu, initlock, holding, acquire, release}
use sistema_operativo.Spinlock.Nesting.{
  IsValid, push_times, pop_times, pop_times-push_times, acquire-release,
}
use sistema_operativo.Strings.{Memory, memmove}
use sistema_operativo.Strings.Move.{copied, memmove_lem}

-- The kernel ends at 0x80100000, and page 0x80200000 is free.
abbrev kernel_end : ℕ
kernel_end = 0x80100000

abbrev free_page : ℕ
free_page = 0x80200000

abbrev kmem : Kmem
kmem = record { word = λ a. 0; freelist = free_page; use_lock = true }

kmem-Holds : Holds kernel_end kmem (free_page ∷ [])
kmem-Holds = record { chain = (refl, omega arith, refl); pages = (refl, count-nil free_page, tt) }

not_free : count 0x80300000 (free_page ∷ []) ≡ 0
not_free = ground (arith, count-cons 0x80300000 free_page [], count-nil 0x80300000)

abbrev no_pages : Kmem
no_pages = record { word = λ a. 0; freelist = 0; use_lock = false }

kinit1_lem_example :
    (k' : Kmem) × (kinit1 kernel_end 0x80100001 0x80104000 no_pages ≡ ok k')
    × Holds kernel_end k' (
        freed kernel_end
          ((0x80104000 - pg_round_up 0x80100001) / pgsize)
          (pg_round_up 0x80100001)
          [])
kinit1_lem_example =
    kinit1_lem kernel_end 0x80100001 0x80104000 no_pages (omega arith) refl (omega arith)
      (omega arith) (omega arith) (omega arith)

-- "ab", a NUL, and zeros.
abbrev memory : Memory
memory a = if a == 0 then b'a' else if a == 1 then b'b' else 0

memmove_lem_example : memmove 1 0 2 memory 2 ≡ copied 1 0 2 memory 2
memmove_lem_example = memmove_lem 1 0 2 memory 2

abbrev cpu : Cpu
cpu = record { id = 0; ncli = pos 0; intena = false; interrupts = true }

cpu-IsValid : IsValid cpu
cpu-IsValid = record { depth = 0; ncli = refl; closed = λ n. absurd (n refl) }

pop_times-push_times_example :
    (c' : Cpu) × (pop_times 2 (push_times 2 cpu) ≡ ok c')
    × (c'.ncli ≡ cpu.ncli)
    × (c'.interrupts ≡ cpu.interrupts)
    × (c'.id ≡ cpu.id)
    × ((push_times (suc 2) cpu).interrupts ≡ false)
pop_times-push_times_example = pop_times-push_times 2 cpu cpu-IsValid

acquire-release_example :
    (lk' : Spinlock) × (c' : Cpu) × (c'' : Cpu) × (acquire initlock cpu ≡ ok (lk', c'))
    × (holding lk' c' ≡ true)
    × (c'.interrupts ≡ false)
    × (acquire lk' c' ≡ halt (panic "acquire"))
    × ((d : Cpu)
        → d.id ≢ cpu.id
        → (acquire lk' d ≡ halt spins) × (release lk' d ≡ halt (panic "release")))
    × (release lk' c' ≡ ok (initlock, c''))
    × (c''.ncli ≡ cpu.ncli)
    × (c''.interrupts ≡ cpu.interrupts)
acquire-release_example = acquire-release initlock cpu refl cpu-IsValid
