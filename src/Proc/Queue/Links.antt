-- ===== src/Proc/Queue/Links.antt =====
-- The chain of `next` pointers from the first to the last process of a level.
use sistema_operativo.Base.{
  ℕ, ◌≤◌, ◌≡◌, ◌≢◌, refl, ◌∙◌, Option, none, some, List, [], ◌∷◌, ◌++◌, count, count-cons,
  count-nil, arith,
}
use sistema_operativo.Proc.State.{Level}

abbrev pub last_of : ℕ → List ℕ → ℕ
last_of x [] = x
last_of x (y ∷ ys) = last_of y ys

-- Each process of the list points at the one behind it. The last pointer is not looked at.
abbrev pub Links : (ℕ → Option ℕ) → ℕ → List ℕ → Type 0
Links nx x [] = Unit
Links nx x (y ∷ ys) = (nx x ≡ some y) × Links nx y ys

-- The queue `q` holds the processes of the list, in its order.
abbrev pub Holds : (ℕ → Option ℕ) → Level → List ℕ → Type 0
Holds nx q [] = q.first ≡ none
Holds nx q (x ∷ xs) = (q.first ≡ some x) × (q.last ≡ some (last_of x xs)) × Links nx x xs

pub last_of-append : (x : ℕ) (xs : List ℕ) (p : ℕ) → last_of x (xs ++ p ∷ []) ≡ p
last_of-append x [] p = refl
last_of-append x (y ∷ ys) p = last_of-append y ys p

-- The last process stands in the list.
pub count-last_of : (x : ℕ) (xs : List ℕ) → 1 ≤ count (last_of x xs) (x ∷ xs)
count-last_of x [] = ground (arith, count-cons x x [], count-nil x)
count-last_of x (y ∷ ys) = ground (arith, count-last_of y ys, count-cons (last_of y ys) x (y ∷ ys))

-- A chain that does not pass `w` keeps when only the pointer of `w` changes.
pub Links-frame :
    (nx nx' : ℕ → Option ℕ) (w x : ℕ) (xs : List ℕ)
    → ((i : ℕ) → i ≢ w → nx' i ≡ nx i)
    → count w (x ∷ xs) ≡ 0
    → Links nx x xs
    → Links nx' x xs
Links-frame nx nx' w x [] agree absent links = tt
Links-frame nx nx' w x (y ∷ ys) agree absent links = (
  agree x (ground (arith, count-cons w x (y ∷ ys))) ∙ links.0,
  Links-frame nx nx' w y ys agree (ground (arith, count-cons w x (y ∷ ys))) links.1,
)

-- Pointing the last process at `p` puts `p` at the end of the chain.
pub Links-append :
    (nx nx' : ℕ → Option ℕ) (p x : ℕ) (xs : List ℕ)
    → ((i : ℕ) → i ≢ last_of x xs → nx' i ≡ nx i)
    → nx' (last_of x xs) ≡ some p
    → count (last_of x xs) (x ∷ xs) ≤ 1
    → Links nx x xs
    → Links nx' x (xs ++ p ∷ [])
Links-append nx nx' p x [] agree new once links = (new, tt)
Links-append nx nx' p x (y ∷ ys) agree new once links = (
  agree x (ground (arith, count-cons (last_of y ys) x (y ∷ ys), count-last_of y ys)) ∙ links.0,
  Links-append nx nx' p y ys agree new (ground (arith, count-cons (last_of y ys) x (y ∷ ys)))
      links.1,
)

pub Holds-frame :
    (nx nx' : ℕ → Option ℕ) (w : ℕ) (q : Level) (xs : List ℕ)
    → ((i : ℕ) → i ≢ w → nx' i ≡ nx i)
    → count w xs ≡ 0
    → Holds nx q xs
    → Holds nx' q xs
Holds-frame nx nx' w q [] agree absent h = h
Holds-frame nx nx' w q (x ∷ xs) agree absent h =
    (h.0, h.1, Links-frame nx nx' w x xs agree absent h.2)
