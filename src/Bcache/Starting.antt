-- ===== src/Bcache/Starting.antt =====
-- The ring that `binit` makes.
use sistema_operativo.Base.{
  ℕ, zero, suc, ◌+◌, ◌<◌, ◌≤◌, ◌≡◌, refl, sym, ap, ◌∙◌, ◌&&◌, [], ◌∷◌, if◌then◌else◌, ltb, leb,
  arith, count, count-nil, count-cons, update, update_self, update_ne,
}
use native.Mathlib.Decide.{ℕ_discrete}
use sistema_operativo.Bcache.{Buf, Bcache, nbuf, put_buf, link_from, binit}
use sistema_operativo.Bcache.Unique.{IsValid, no_dev}

count-link_from :
    (j n i : ℕ) (c : Bcache)
    → count j (link_from n i c).order
      ≡ count j c.order + (if leb i j && ltb j (i + n) then 1 else 0)
unfolding link_from
count-link_from j zero i c = ground arith
count-link_from j (suc n) i c =
    count-link_from j n (suc i) _
    ∙ ap (λ a. a + (if leb (suc i) j && ltb j (suc i + n) then 1 else 0)) (count-cons j i c.order)
    ∙ ground arith

link_from-dev :
    (j n i : ℕ) (c : Bcache)
    → (i ≤ j → j < i + n → ((link_from n i c).buf j).dev ≡ no_dev)
      × (j < i → (link_from n i c).buf j ≡ c.buf j)
unfolding link_from
link_from-dev j zero i c = (λ a b. absurd (omega arith), λ h. refl)
link_from-dev j (suc n) i c =
    let c' : Bcache = record (put_buf i (record (c.buf i) { dev = no_dev }) c) {
      order = i ∷ c.order;
    } in
    let (inside, below) = link_from-dev j n (suc i) c' in
    (
      λ a b. elim (ℕ_discrete i j) [
        | yes e ↦
            ap (λ b. b.dev)
              (below (omega arith)
                ∙ ap (update c.buf i (record (c.buf i) { dev = no_dev })) (sym e)
                ∙ update_self c.buf i (record (c.buf i) { dev = no_dev }))
        | no n ↦ inside (omega arith) (omega arith)
      ],
      λ h.
          below (omega arith)
          ∙ update_ne c.buf i j (record (c.buf i) { dev = no_dev }) (omega arith),
    )

-- After `binit` every buffer stands in the ring once, and holds no block.
pub binit-IsValid : (buf : ℕ → Buf) → IsValid (binit buf)
unfolding binit
binit-IsValid buf = record {
  ring = λ i.
      count-link_from i nbuf 0 (record { order = []; buf = buf }) ∙ ground (arith, count-nil i);
  unique = λ i j hi hj n nz.
      absurd (nz ((link_from-dev i nbuf 0 (record { order = []; buf = buf })).0 (omega arith) hi));
}
