-- ===== src/Kalloc.antt =====
-- kalloc.c: the allocator of physical pages. Each function is what it does under `kmem.lock`.
pub mod FreeList
use sistema_operativo.Base.{
  ℕ, zero, suc, ◌+◌, ◌-◌, ◌*◌, ◌/◌, ◌%◌, ◌<◌, ◌≤◌, ◌≡◌, Bool, true, false, not, ◌&&◌, ◌||◌, Outcome,
  ok, halt, panic, ◌>>=◌, ltb, leb, ◌==◌, if◌then◌else◌, update,
}

-- Memory by words, at the address of each; `freelist` is 0 for the null pointer.
pub record Kmem : Type 0 where
  pub word : ℕ → ℕ
  pub freelist : ℕ
  pub use_lock : Bool

abbrev pub pgsize : ℕ
pgsize = 4096

-- KERNBASE and PHYSTOP.
abbrev pub kernbase : ℕ
kernbase = 0x80000000

abbrev pub phystop : ℕ
phystop = 0xE000000

-- `v2p`, a subtraction of 32-bit addresses.
abbrev pub v2p : ℕ → ℕ
v2p v = (v + 0x100000000 - kernbase) % 0x100000000

-- `memset(v, 1, PGSIZE)`
abbrev pub junk : (ℕ → ℕ) → ℕ → ℕ → ℕ
junk word v a = if leb v a && ltb a (v + pgsize) then 0x01010101 else word a

-- PGROUNDUP
abbrev pub pg_round_up : ℕ → ℕ
pg_round_up a = (a + pgsize - 1) % 0x100000000 / pgsize * pgsize

-- `end` is the first address after the kernel, which the linker sets.
module _ (end : ℕ) where
  abbrev pub is_page : ℕ → Bool
  is_page v = v % pgsize == 0 && leb end v && ltb (v2p v) phystop

  unfoldable pub kfree : ℕ → Kmem → Outcome Kmem
  kfree v k =
      if not (is_page v)
      then halt (panic "kfree")
      else ok (record k { word = update (junk k.word v) v k.freelist; freelist = v })

  -- `for(; p + PGSIZE <= vend; p += PGSIZE) kfree(p)`, with as much fuel as pages may be left.
  unfoldable pub free_pages : ℕ → ℕ → ℕ → Kmem → Outcome Kmem
  free_pages zero p vend k = ok k
  free_pages (suc fuel) p vend k =
      let rest = kfree p k >>= free_pages fuel (p + pgsize) vend in
      if leb (p + pgsize) vend then rest else ok k

  unfoldable pub freerange : ℕ → ℕ → Kmem → Outcome Kmem
  unfolding free_pages
  freerange vstart vend k = free_pages (suc (vend / pgsize)) (pg_round_up vstart) vend k

  unfoldable pub kinit1 : ℕ → ℕ → Kmem → Outcome Kmem
  unfolding freerange
  kinit1 vstart vend k = freerange vstart vend (record k { use_lock = false })

  unfoldable pub kinit2 : ℕ → ℕ → Kmem → Outcome Kmem
  unfolding freerange
  kinit2 vstart vend k = do k' ← freerange vstart vend k; ok (record k' { use_lock = true })

-- The page, 0 if there is none.
unfoldable pub kalloc : Kmem → ℕ × Kmem
kalloc k =
    if k.freelist == 0 then (0, k) else (k.freelist, record k { freelist = k.word k.freelist })
