-- ===== src/Tests/Pages.antt =====
-- Examples for page tables: an empty page directory, and one free page.
use sistema_operativo.Base.{ℕ, ◌≡◌, ◌⊎◌, refl, true, false, none, some, ok, halt, panic, arith}
use sistema_operativo.Kalloc.{Kmem, pgsize}
use sistema_operativo.Fs.Alloc.{bit_set}
use sistema_operativo.Vm.{
  user_writable, pde_of, is_present, zero_page, walkpgdir, mappages, uva2ka, allocuvm,
}
use sistema_operativo.Vm.Mapping.{Separate, uva2ka-mappages}
use sistema_operativo.Vm.Growing.{allocuvm-unmapped}

abbrev pgdir : ℕ
pgdir = 0x80100000

abbrev memory : Kmem
memory = record { word = λ a. 0; freelist = 0x80200000; use_lock = true }

memory-Separate : Separate pgdir 4096 memory
memory-Separate = record { old_table = omega arith; new_page = omega arith }

uva2ka-mappages_example :
    ((mappages pgdir 4096 pgsize 0x300000 user_writable memory ≡ ok (false, memory))
      × (memory.freelist ≡ 0)
      × (is_present (memory.word (pde_of pgdir 4096)) ≡ false))
    ⊎ ((mappages pgdir 4096 pgsize 0x300000 user_writable memory ≡ halt (panic "remap"))
        × ((pte : ℕ) × (k' : Kmem) × (walkpgdir pgdir 4096 true memory ≡ (some pte, k'))
            × (is_present (k'.word pte) ≡ true)))
    ⊎ ((k' : Kmem) × (mappages pgdir 4096 pgsize 0x300000 user_writable memory ≡ ok (true, k'))
        × (uva2ka pgdir 4096 k' ≡ ok (some 0x80300000)))
uva2ka-mappages_example =
    uva2ka-mappages pgdir 4096 0x300000 user_writable memory (omega arith) (omega arith)
      (omega arith) (λ nz. (omega arith, omega arith, omega arith)) memory-Separate

no_table : is_present (zero_page 0x80200000 (λ a. 0) (pde_of pgdir 4096)) ≡ false
unfolding bit_set
no_table = refl

allocuvm-unmapped_example :
    (k' : Kmem) × (allocuvm 0x80100000 pgdir 4096 8192 memory ≡ ok (8192, k'))
    × ((walkpgdir pgdir 4096 false k').0 ≡ none)
    × (k'.freelist ≡ 0)
allocuvm-unmapped_example =
    allocuvm-unmapped 0x80100000 pgdir 4096 memory (omega arith) (omega arith) (omega arith) refl
      no_table
