-- ===== src/Vm/Mapping.antt =====
-- What `mappages` maps, `uva2ka` finds.
use sistema_operativo.Base.{
  ℕ, ◌+◌, ◌*◌, ◌/◌, ◌%◌, ◌≤◌, ◌<◌, ◌≡◌, ◌≢◌, refl, sym, ap, ◌∙◌, Bool, true, false, not, Option,
  none, some, Outcome, ok, ◌>>=◌, ◌==◌, if◌then◌else◌, update, update_self, update_ne, arith,
  Bool-cases, inl, inr, ==_self, ==_iff, ◌⊎◌, halt, panic, ==_ne,
}
use native.Mathlib.Decide.{ℕ_discrete}
use sistema_operativo.Kalloc.{Kmem, pgsize, kernbase, v2p, kalloc}
use sistema_operativo.Vm.{
  Perm, user_writable, with_flags, pte_addr, p2v, ptx, pde_of, is_present, walkpgdir, new_table,
  with_table, zero_page, map_page, map_pages, mappages, uva2ka, user_page,
}
use sistema_operativo.Vm.Flags.{pte_addr-with_flags, is_present-with_flags, is_user-with_flags}

-- `walkpgdir` with a table in place.
walkpgdir-present :
    (pgdir va : ℕ) (alloc : Bool) (k : Kmem)
    → is_present (k.word (pde_of pgdir va)) ≡ true
    → walkpgdir pgdir va alloc k
      ≡ (some (p2v (pte_addr (k.word (pde_of pgdir va))) + 4 * ptx va), k)
unfolding walkpgdir
walkpgdir-present pgdir va alloc k e = rw (e, walkpgdir) refl

pub walkpgdir-absent :
    (pgdir va : ℕ) (k : Kmem)
    → is_present (k.word (pde_of pgdir va)) ≡ false
    → walkpgdir pgdir va true k ≡ new_table pgdir va (kalloc k)
unfolding walkpgdir
walkpgdir-absent pgdir va k e = rw (e, walkpgdir) refl

kernel_address :
    (v : ℕ)
    → v % pgsize ≡ 0
    → kernbase ≤ v
    → v < 0x100000000
    → (v2p v % pgsize ≡ 0) × (p2v (v2p v) ≡ v)
kernel_address v a b c = (omega arith, omega arith)

-- The next free page has an address in the kernel.
abbrev pub PageFree : Kmem → Type 0
PageFree k =
    k.freelist ≢ 0
    → (k.freelist % pgsize ≡ 0) × (kernbase ≤ k.freelist) × (k.freelist < 0x100000000)

-- The entry of the directory for `va` points to the table with the entry `pte`.
record Points (pgdir va : ℕ) (k : Kmem) (pte : ℕ) : Type 0 where
  present : is_present (k.word (pde_of pgdir va)) ≡ true
  table : p2v (pte_addr (k.word (pde_of pgdir va))) + 4 * ptx va ≡ pte

with_table-Points :
    (pgdir va pgtab : ℕ) (k : Kmem)
    → pgtab % pgsize ≡ 0
    → kernbase ≤ pgtab
    → pgtab < 0x100000000
    → Points pgdir va (with_table pgdir va pgtab k) (pgtab + 4 * ptx va)
with_table-Points pgdir va pgtab k a b c =
    let at =
      update_self (zero_page pgtab k.word) (pde_of pgdir va)
        (with_flags (v2p pgtab) user_writable) in
    let (low, back) = kernel_address pgtab a b c in
    record {
      present = ap is_present at ∙ is_present-with_flags (v2p pgtab) user_writable;
      table =
          ap (λ x. p2v (pte_addr x) + 4 * ptx va) at
          ∙ ap (λ x. p2v x + 4 * ptx va) (pte_addr-with_flags (v2p pgtab) user_writable low)
          ∙ ap (λ x. x + 4 * ptx va) back;
    }

new_table-made :
    (pgdir va pgtab : ℕ) (k : Kmem)
    → pgtab ≢ 0
    → new_table pgdir va (pgtab, k) ≡ (some (pgtab + 4 * ptx va), with_table pgdir va pgtab k)
new_table-made pgdir va pgtab k nz = rw (==_ne pgtab 0 nz) refl

pub kalloc-none : (k : Kmem) → k.freelist ≡ 0 → kalloc k ≡ (0, k)
unfolding kalloc
kalloc-none k z = rw ((==_iff k.freelist 0).1 z, kalloc) refl

pub kalloc-some :
    (k : Kmem) → k.freelist ≢ 0 → kalloc k ≡ (k.freelist, record k { freelist = k.word k.freelist })
unfolding kalloc
kalloc-some k nz = rw (==_ne k.freelist 0 nz, kalloc) refl

-- `walkpgdir` with `alloc` finds or makes a table, or there is no page for it.
walkpgdir_lem :
    (pgdir va : ℕ) (k : Kmem)
    → PageFree k
    → ((walkpgdir pgdir va true k ≡ (none, k))
        × (k.freelist ≡ 0)
        × (is_present (k.word (pde_of pgdir va)) ≡ false))
      ⊎ ((pte : ℕ) × (k' : Kmem) × (walkpgdir pgdir va true k ≡ (some pte, k'))
          × Points pgdir va k' pte
          × ((pte ≡ p2v (pte_addr (k.word (pde_of pgdir va))) + 4 * ptx va)
              ⊎ (pte ≡ k.freelist + 4 * ptx va)))
walkpgdir_lem pgdir va k free = elim (Bool-cases (is_present (k.word (pde_of pgdir va)))) [
  | inl e ↦ inr (
    p2v (pte_addr (k.word (pde_of pgdir va))) + 4 * ptx va,
    k,
    walkpgdir-present pgdir va true k e,
    record { present = e; table = refl },
    inl refl,
  )
  | inr e ↦ elim (ℕ_discrete k.freelist 0) [
    | yes z ↦ inl (walkpgdir-absent pgdir va k e ∙ ap (new_table pgdir va) (kalloc-none k z), z, e)
    | no nz ↦
        let (a, b, c) = free nz in
        inr (
          k.freelist + 4 * ptx va,
          with_table pgdir va k.freelist (record k { freelist = k.word k.freelist }),
          walkpgdir-absent pgdir va k e
              ∙ ap (new_table pgdir va) (kalloc-some k nz)
              ∙ new_table-made pgdir va k.freelist (record k { freelist = k.word k.freelist }) nz,
          with_table-Points pgdir va k.freelist (record k { freelist = k.word k.freelist }) a b c,
          inr refl,
        )
  ]
]

-- `mappages` of one page.
one_page :
    (a : ℕ) (o : Outcome (Bool × Kmem)) (rest : Bool × Kmem → Outcome (Bool × Kmem))
    → (o >>= (λ r. if not r.0 then ok r else if a == a then ok r else rest r)) ≡ o
one_page a (ok (true, k)) rest = rw (==_self a) refl
one_page a (ok (false, k)) rest = refl
one_page a (halt e) rest = refl

pub mappages-map_page :
    (pgdir va pa : ℕ) (perm : Perm) (k : Kmem)
    → va % pgsize ≡ 0
    → va < 0x100000000
    → mappages pgdir va pgsize pa perm k ≡ map_page pa perm (walkpgdir pgdir va true k)
unfolding mappages map_pages
mappages-map_page pgdir va pa perm k h l =
    rw (start, end) (one_page va (map_page pa perm (walkpgdir pgdir va true k)) _)
  where
    start : va / 4096 * 4096 ≡ va
    start = omega arith

    end : (va + pgsize + 0xffffffff) % 0x100000000 / 4096 * 4096 ≡ va
    end = omega arith

uva2ka-user_page :
    (pgdir va : ℕ) (k : Kmem) (pte : ℕ)
    → Points pgdir va k pte
    → uva2ka pgdir va k ≡ ok (user_page (k.word pte))
unfolding uva2ka
uva2ka-user_page pgdir va k pte p =
    rw (walkpgdir-present pgdir va false k p.present, uva2ka)
      (ap (λ x. ok (user_page (k.word x))) p.table)

user_page-with_flags :
    (pa : ℕ) (perm : Perm)
    → pa % pgsize ≡ 0
    → user_page (with_flags pa perm) ≡ (if perm.user then some (p2v pa) else none)
user_page-with_flags pa perm h =
    rw (is_present-with_flags pa perm, is_user-with_flags pa perm h, pte_addr-with_flags pa perm h)
      (by_user perm.user (some (p2v pa)) none)
  where
    by_user : (b : Bool) (x y : Option ℕ) → (if not b then y else x) ≡ (if b then x else y)
    by_user true x y = refl
    by_user false x y = refl

-- The entry of the directory for `va` lies neither in its table nor in the page for a new table.
pub record Separate (pgdir va : ℕ) (k : Kmem) : Type 0 where
  pub old_table : p2v (pte_addr (k.word (pde_of pgdir va))) + 4 * ptx va ≢ pde_of pgdir va
  pub new_page : k.freelist + 4 * ptx va ≢ pde_of pgdir va

mapped-Points :
    (pgdir va : ℕ) (k : Kmem) (pte x : ℕ)
    → pte ≢ pde_of pgdir va
    → Points pgdir va k pte
    → Points pgdir va (record k { word = update k.word pte x }) pte
mapped-Points pgdir va k pte x n p =
    let same = update_ne k.word pte (pde_of pgdir va) x n in
    record {
      present = ap is_present same ∙ p.present;
      table = ap (λ y. p2v (pte_addr y) + 4 * ptx va) same ∙ p.table;
    }

-- `mappages` of one page, where the directory and the tables are separate: it returns -1 only if the table
-- is missing and no page is free; it panics only if the entry of the page is present; and else
-- `uva2ka` finds the page that was mapped, if its permissions let the user see it.
pub uva2ka-mappages :
    (pgdir va pa : ℕ) (perm : Perm) (k : Kmem)
    → va % pgsize ≡ 0
    → va < 0x100000000
    → pa % pgsize ≡ 0
    → PageFree k
    → Separate pgdir va k
    → ((mappages pgdir va pgsize pa perm k ≡ ok (false, k))
        × (k.freelist ≡ 0)
        × (is_present (k.word (pde_of pgdir va)) ≡ false))
      ⊎ ((mappages pgdir va pgsize pa perm k ≡ halt (panic "remap"))
          × ((pte : ℕ) × (k' : Kmem) × (walkpgdir pgdir va true k ≡ (some pte, k'))
              × (is_present (k'.word pte) ≡ true)))
      ⊎ ((k' : Kmem) × (mappages pgdir va pgsize pa perm k ≡ ok (true, k'))
          × (uva2ka pgdir va k' ≡ ok (if perm.user then some (p2v pa) else none)))
uva2ka-mappages pgdir va pa perm k al l pal free sep = elim (walkpgdir_lem pgdir va k free) [
  | inl (missing, z, e) ↦ inl (single ∙ ap (map_page pa perm) missing, z, e)
  | inr (pte, k', walks, points, place) ↦ elim (Bool-cases (is_present (k'.word pte))) [
    | inl e ↦
        inr (inl (single ∙ ap (map_page pa perm) walks ∙ remaps k' pte e, (pte, k', walks, e)))
    | inr e ↦
        let mapped : Kmem = record k' { word = update k'.word pte (with_flags pa perm) } in
        inr (
          inr (
            mapped,
            single ∙ ap (map_page pa perm) walks ∙ maps k' pte e,
            uva2ka-user_page pgdir va mapped pte
                  (mapped-Points pgdir va k' pte (with_flags pa perm) (apart pte place) points)
                ∙ ap (λ x. ok (user_page x)) (update_self k'.word pte (with_flags pa perm))
                ∙ ap ok (user_page-with_flags pa perm pal),
          ))
  ]
]
  where
    single : mappages pgdir va pgsize pa perm k ≡ map_page pa perm (walkpgdir pgdir va true k)
    single = mappages-map_page pgdir va pa perm k al l

    remaps :
        (k' : Kmem) (pte : ℕ)
        → is_present (k'.word pte) ≡ true
        → map_page pa perm (some pte, k') ≡ halt (panic "remap")
    remaps k' pte e = rw e refl

    maps :
        (k' : Kmem) (pte : ℕ)
        → is_present (k'.word pte) ≡ false
        → map_page pa perm (some pte, k')
          ≡ ok (true, record k' { word = update k'.word pte (with_flags pa perm) })
    maps k' pte e = rw e refl

    apart :
        (pte : ℕ)
        → (pte ≡ p2v (pte_addr (k.word (pde_of pgdir va))) + 4 * ptx va)
          ⊎ (pte ≡ k.freelist + 4 * ptx va)
        → pte ≢ pde_of pgdir va
    apart pte (inl e) q = sep.old_table (sym e ∙ q)
    apart pte (inr e) q = sep.new_page (sym e ∙ q)
