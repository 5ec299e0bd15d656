-- ===== src/Vm.antt =====
-- vm.c: page tables. A page directory and its tables are pages of words, at their kernel addresses.
pub mod Flags
pub mod Mapping
pub mod Growing
use sistema_operativo.Base.{
  ℕ, zero, suc, ◌+◌, ◌-◌, ◌*◌, ◌/◌, ◌%◌, ◌<◌, Bool, true, false, not, ◌&&◌, Option, none, some,
  Outcome, ok, halt, panic, null_pointer, ◌>>=◌, ltb, leb, ◌==◌, if◌then◌else◌, update,
}
use sistema_operativo.Kalloc.{Kmem, pgsize, kernbase, v2p, pg_round_up, kfree, kalloc}
use sistema_operativo.Fs.Alloc.{bit_set, set_bit, clear_bit}

-- PDX, PTX, PGROUNDDOWN and PTE_ADDR.
abbrev pub pdx : ℕ → ℕ
pdx va = va / 4194304 % 1024

abbrev pub ptx : ℕ → ℕ
ptx va = va / 4096 % 1024

abbrev pub pg_round_down : ℕ → ℕ
pg_round_down a = a / pgsize * pgsize

abbrev pub pte_addr : ℕ → ℕ
pte_addr pte = pte / pgsize * pgsize

abbrev pub p2v : ℕ → ℕ
p2v a = (a + kernbase) % 0x100000000

-- PTE_P, PTE_W and PTE_U are bits 0, 1 and 2.
abbrev pub is_present : ℕ → Bool
is_present pte = bit_set pte 0

abbrev pub is_user : ℕ → Bool
is_user pte = bit_set pte 2

-- The permissions of `mappages`: PTE_W and PTE_U.
pub record Perm : Type 0 where
  pub writable : Bool
  pub user : Bool

abbrev pub user_writable : Perm
user_writable = record { writable = true; user = true }

-- `pa | perm | PTE_P`
unfoldable pub with_flags : ℕ → Perm → ℕ
unfolding set_bit
with_flags pa perm =
    let w = if perm.writable then set_bit pa 1 else pa in
    set_bit (if perm.user then set_bit w 2 else w) 0

-- `memset(v, 0, PGSIZE)`
abbrev pub zero_page : ℕ → (ℕ → ℕ) → ℕ → ℕ
zero_page v word a = if leb v a && ltb a (v + pgsize) then 0 else word a

-- The address of the entry of the directory for `va`.
abbrev pub pde_of : (pgdir va : ℕ) → ℕ
pde_of pgdir va = pgdir + 4 * pdx va

-- A new table for `va`, empty, and its entry in the directory.
abbrev pub with_table : (pgdir va pgtab : ℕ) → Kmem → Kmem
with_table pgdir va pgtab k = record k {
  word = update (zero_page pgtab k.word) (pde_of pgdir va) (with_flags (v2p pgtab) user_writable);
}

abbrev pub new_table : (pgdir va : ℕ) → ℕ × Kmem → Option ℕ × Kmem
new_table pgdir va (pgtab, k) =
    if pgtab == 0 then (none, k) else (some (pgtab + 4 * ptx va), with_table pgdir va pgtab k)

-- The address of the entry of a table for `va`.
unfoldable pub walkpgdir : (pgdir va : ℕ) → (alloc : Bool) → Kmem → Option ℕ × Kmem
unfolding kalloc with_flags bit_set
walkpgdir pgdir va alloc k =
    if is_present (k.word (pde_of pgdir va))
    then (some (p2v (pte_addr (k.word (pde_of pgdir va))) + 4 * ptx va), k)
    else if not alloc
    then (none, k)
    else new_table pgdir va (kalloc k)

-- One page of `mappages`; false for the result -1.
abbrev pub map_page : (pa : ℕ) → Perm → Option ℕ × Kmem → Outcome (Bool × Kmem)
map_page pa perm (none, k) = ok (false, k)
map_page pa perm (some pte, k) =
    if is_present (k.word pte)
    then halt (panic "remap")
    else ok (true, record k { word = update k.word pte (with_flags pa perm) })

-- The loop of `mappages` from page `a` to page `last`, over addresses of 32 bits.
unfoldable pub map_pages : (fuel pgdir a last pa : ℕ) → Perm → Kmem → Outcome (Bool × Kmem)
unfolding walkpgdir
map_pages zero pgdir a last pa perm k = ok (true, k)
map_pages (suc fuel) pgdir a last pa perm k = map_page pa perm (walkpgdir pgdir a true k) >>= (λ r.
    let rest =
      map_pages fuel pgdir ((a + pgsize) % 0x100000000) last ((pa + pgsize) % 0x100000000) perm
        r.1 in
    if not r.0 then ok r else if a == last then ok r else rest)

-- The fuel is the number of the pages.
unfoldable pub mappages : (pgdir va size pa : ℕ) → Perm → Kmem → Outcome (Bool × Kmem)
unfolding map_pages
mappages pgdir va size pa perm k =
    let a = pg_round_down va in
    let last = pg_round_down ((va + size + 0xffffffff) % 0x100000000) in
    map_pages (suc ((last + 0x100000000 - a) % 0x100000000 / pgsize)) pgdir a last pa perm k

unfoldable pub clearpteu : (pgdir uva : ℕ) → Kmem → Outcome Kmem
unfolding walkpgdir clear_bit
clearpteu pgdir uva k = elim (walkpgdir pgdir uva false k).0 [
  | none ↦ halt (panic "clearpteu")
  | some pte ↦ ok (record k { word = update k.word pte (clear_bit (k.word pte) 2) })
]

-- The kernel address of a user page; `walkpgdir` finds no table where the process has no memory near.
abbrev pub user_page : ℕ → Option ℕ
user_page pte =
    if not (is_present pte)
    then none
    else if not (is_user pte)
    then none
    else some (p2v (pte_addr pte))

unfoldable pub uva2ka : (pgdir uva : ℕ) → Kmem → Outcome (Option ℕ)
unfolding walkpgdir bit_set
uva2ka pgdir uva k = elim (walkpgdir pgdir uva false k).0 [
  | none ↦ halt null_pointer
  | some pte ↦ ok (user_page (k.word pte))
]

module _ (end : ℕ) where
  -- The page of a present entry goes back.
  abbrev pub drop_page : (pte : ℕ) → Kmem → Outcome Kmem
  drop_page pte k =
      let pa = pte_addr (k.word pte) in
      if pa == 0
      then halt (panic "kfree")
      else (kfree end (p2v pa) k >>= (λ k'. ok (record k' { word = update k'.word pte 0 })))

  -- The loop of `deallocuvm`; without a table, it goes on 4 MB behind.
  unfoldable pub drop_pages : (fuel pgdir a oldsz : ℕ) → Kmem → Outcome Kmem
  unfolding walkpgdir kfree
  drop_pages zero pgdir a oldsz k = ok k
  drop_pages (suc fuel) pgdir a oldsz k =
      let next = (a + pgsize) % 0x100000000 in
      let skip = drop_pages fuel pgdir ((a + 1024 * pgsize) % 0x100000000) oldsz k in
      let kept = drop_pages fuel pgdir next oldsz k in
      let step : Outcome Kmem = elim (walkpgdir pgdir a false k).0 [
        | none ↦ skip
        | some pte ↦
            if is_present (k.word pte)
            then (drop_page pte k >>= drop_pages fuel pgdir next oldsz)
            else kept
      ] in
      if ltb a oldsz then step else ok k

  unfoldable pub deallocuvm : (pgdir oldsz newsz : ℕ) → Kmem → Outcome (ℕ × Kmem)
  unfolding drop_pages
  deallocuvm pgdir oldsz newsz k =
      if leb oldsz newsz
      then ok (oldsz, k)
      else (drop_pages (suc (oldsz / pgsize)) pgdir (pg_round_up newsz) oldsz k
          >>= (λ k'. ok (newsz, k')))

  -- The loop of `allocuvm`; 0 for an error. The result of `mappages` is not looked at.
  unfoldable pub add_pages : (fuel pgdir a oldsz newsz : ℕ) → Kmem → Outcome (ℕ × Kmem)
  unfolding kalloc mappages deallocuvm
  add_pages zero pgdir a oldsz newsz k = ok (newsz, k)
  add_pages (suc fuel) pgdir a oldsz newsz k =
      let (mem, k') = kalloc k in
      let step =
        mappages pgdir a pgsize (v2p mem) user_writable (record k' { word = zero_page mem k'.word })
        >>= (λ r. add_pages fuel pgdir (a + pgsize) oldsz newsz r.1) in
      if ltb a newsz
      then if mem == 0 then (deallocuvm pgdir newsz oldsz k' >>= (λ r. ok (0, r.1))) else step
      else ok (newsz, k)

  unfoldable pub allocuvm : (pgdir oldsz newsz : ℕ) → Kmem → Outcome (ℕ × Kmem)
  unfolding add_pages
  allocuvm pgdir oldsz newsz k =
      if leb kernbase newsz
      then ok (0, k)
      else if ltb newsz oldsz
      then ok (oldsz, k)
      else add_pages (suc (newsz / pgsize)) pgdir (pg_round_up oldsz) oldsz newsz k

  -- The loop of `freevm` over the `n` entries from `i` on.
  unfoldable pub free_tables : (n i pgdir : ℕ) → Kmem → Outcome Kmem
  unfolding kfree bit_set
  free_tables zero i pgdir k = ok k
  free_tables (suc n) i pgdir k =
      let freed =
        kfree end (p2v (pte_addr (k.word (pgdir + 4 * i)))) k >>= free_tables n (suc i) pgdir in
      let kept = free_tables n (suc i) pgdir k in
      if is_present (k.word (pgdir + 4 * i)) then freed else kept

  unfoldable pub freevm : ℕ → Kmem → Outcome Kmem
  unfolding deallocuvm free_tables kfree
  freevm pgdir k =
      if pgdir == 0
      then halt (panic "freevm: no pgdir")
      else ((deallocuvm pgdir kernbase 0 k >>= (λ r. free_tables 1024 0 pgdir r.1))
          >>= kfree end pgdir)
