-- ===== src/Bcache/Ring.antt =====
-- Searching the ring of the buffers, and moving one to its head.
use sistema_operativo.Base.{
  ℕ, ◌<◌, ◌≡◌, ◌⊎◌, inl, inr, refl, sym, subst, Bool, true, false, not, ◌&&◌, Option, none, some,
  List, [], ◌∷◌, ◌==◌, arith, count, count-nil, count-cons, Bool-cases, Option-cases,
}
use native.Mathlib.Decide.{ℕ_discrete}
use sistema_operativo.Bcache.{Bcache, find_block, find_clean, unlink}

-- `i` stands in the list.
abbrev pub Member : ℕ → List ℕ → Type 0
Member i is = 0 < count i is

Member-head : (i : ℕ) (is : List ℕ) → Member i (i ∷ is)
Member-head i is = ground (arith, count-cons i i is)

Member-tail : (i j : ℕ) (is : List ℕ) → Member i is → Member i (j ∷ is)
Member-tail i j is h = omega (arith, count-cons i j is)

Member-cases : (i j : ℕ) (is : List ℕ) → Member i (j ∷ is) → (i ≡ j) ⊎ Member i is
Member-cases i j is h = elim (ℕ_discrete i j) [
  | yes e ↦ inl e
  | no n ↦ inr (ground (arith, count-cons i j is))
]

-- A test fails for the whole list, or holds for a member, which is the result.
abbrev pub Searched : (ℕ → Bool) → List ℕ → Option ℕ → Type 0
Searched test is none = (i : ℕ) → Member i is → test i ≡ false
Searched test is (some i) = Member i is × (test i ≡ true)

Searched-nil : (test : ℕ → Bool) → Searched test [] none
Searched-nil test i h = absurd (omega (arith, count-nil i))

Searched-head :
    (test : ℕ → Bool) (j : ℕ) (is : List ℕ) → test j ≡ true → Searched test (j ∷ is) (some j)
Searched-head test j is e = (Member-head j is, e)

Searched-tail :
    (test : ℕ → Bool) (j : ℕ) (is : List ℕ) (o : Option ℕ)
    → (o ≡ none → test j ≡ false)
    → Searched test is o
    → Searched test (j ∷ is) o
Searched-tail test j is none e s = λ i h. elim (Member-cases i j is h) [
  | inl q ↦ subst (λ i. test i ≡ false) (sym q) (e refl)
  | inr m ↦ s i m
]
Searched-tail test j is (some i) e (m, t) = (Member-tail i j is m, t)

abbrev pub holds : (dev sector : ℕ) → Bcache → ℕ → Bool
holds dev sector c i = (c.buf i).dev == dev && (c.buf i).sector == sector

abbrev pub is_clean : Bcache → ℕ → Bool
is_clean c i = not (c.buf i).busy && not (c.buf i).dirty

pub find_block_lem :
    (dev sector : ℕ) (is : List ℕ) (c : Bcache)
    → Searched (holds dev sector c) is (find_block dev sector is c)
unfolding find_block
find_block_lem dev sector [] c = Searched-nil (holds dev sector c)
find_block_lem dev sector (j ∷ is) c = elim (Bool-cases (holds dev sector c j)) [
  | inl e ↦ rw (e, find_block) (Searched-head (holds dev sector c) j is e)
  | inr e ↦
      rw (e, find_block)
        (Searched-tail (holds dev sector c) j is _ (λ q. e) (find_block_lem dev sector is c))
]

pub find_clean_lem : (is : List ℕ) (c : Bcache) → Searched (is_clean c) is (find_clean is c)
unfolding find_clean
find_clean_lem [] c = Searched-nil (is_clean c)
find_clean_lem (j ∷ is) c = elim (Option-cases (find_clean is c)) [
  | inl n ↦ elim (Bool-cases (is_clean c j)) [
    | inl e ↦ rw (n, find_clean, e) (Searched-head (is_clean c) j is e)
    | inr e ↦
        rw (n, find_clean, e)
          (Searched-tail (is_clean c) j is none (λ q. e)
            (subst (Searched (is_clean c) is) n (find_clean_lem is c)))
  ]
  | inr (i, s) ↦
      rw (s, find_clean)
        (Searched-tail (is_clean c) j is (some i) (λ q. cc (q))
          (subst (Searched (is_clean c) is) s (find_clean_lem is c)))
]

-- A member that moves to the head: the ring has the same members.
pub count-unlink :
    (i : ℕ) (is : List ℕ) → Member i is → (j : ℕ) → count j (i ∷ unlink i is) ≡ count j is
count-unlink i [] h j = omega (arith, count-nil i)
count-unlink i (k ∷ is) h j = elim (Bool-cases (k == i)) [
  | inl e ↦ rw e (ground (arith, count-cons j k is, count-cons j i is))
  | inr e ↦
      let m : Member i is = ground (arith, count-cons i k is) in
      rw e (
        omega (
          arith,
          count-cons j k is,
          count-cons j i (k ∷ unlink i is),
          count-cons j k (unlink i is),
          count-cons j i (unlink i is),
          count-unlink i is m j,
        ))
]
