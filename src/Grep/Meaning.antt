-- ===== src/Grep/Meaning.antt =====
-- What a pattern means, as a relation, and that the matcher decides it.
use sistema_operativo.Base.{
  ℕ, ◌≡◌, ◌≢◌, ◌⊎◌, ◌↔◌, inl, inr, refl, sym, ◌∙◌, Bool, true, false, ◌||◌, List, [], ◌∷◌, ◌==◌,
  arith, Bool-cases,
}
use native.Mathlib.Decide.{ℕ_discrete}
use sistema_operativo.Grep.{matchstar, match_one, matchhere, match_from, match}

-- The character `c` of a pattern stands for `t`.
abbrev pub Fits : ℕ → ℕ → Type 0
Fits c t = (c ≡ b'.') ⊎ (c ≡ t)

-- A prefix of the text belongs to the pattern.
pub data Here : List ℕ → List ℕ → Type 0 where
  done : {text : List ℕ} → Here [] text
  end : {c : ℕ} → c ≡ b'$' → Here (c ∷ []) []
  last : {c t : ℕ} {ts : List ℕ} → c ≢ b'$' → Fits c t → Here (c ∷ []) (t ∷ ts)
  one :
      {c d t : ℕ} {re ts : List ℕ}
      → d ≢ b'*'
      → Fits c t
      → Here (d ∷ re) ts
      → Here (c ∷ d ∷ re) (t ∷ ts)
  stop : {c d : ℕ} {re ts : List ℕ} → d ≡ b'*' → Here re ts → Here (c ∷ d ∷ re) ts
  more :
      {c d t : ℕ} {re ts : List ℕ}
      → d ≡ b'*'
      → Fits c t
      → Here (c ∷ d ∷ re) ts
      → Here (c ∷ d ∷ re) (t ∷ ts)

Fits-true : (c t : ℕ) → (c == b'.' || c == t) ≡ true → Fits c t
Fits-true c t h = ground arith

true-Fits : (c t : ℕ) → Fits c t → (c == b'.' || c == t) ≡ true
true-Fits c t h = ground arith

matchstar-stop :
    (here : List ℕ → Bool) (c : ℕ) (text : List ℕ) → here text ≡ true → matchstar here c text ≡ true
unfolding matchstar
matchstar-stop here c [] h = h
matchstar-stop here c (t ∷ ts) h = rw h

matchstar-more :
    (here : List ℕ → Bool) (c t : ℕ) (ts : List ℕ)
    → Fits c t
    → matchstar here c ts ≡ true
    → matchstar here c (t ∷ ts) ≡ true
unfolding matchstar
matchstar-more here c t ts f h = ground arith

-- The star case of `matchhere`.
matchhere-star :
    (c d : ℕ) (re text : List ℕ)
    → d ≡ b'*'
    → matchhere (c ∷ d ∷ re) text ≡ matchstar (matchhere re) c text
unfolding matchhere
matchhere-star c d re text e = ground arith

matchhere-one :
    (c d : ℕ) (re text : List ℕ)
    → d ≢ b'*'
    → matchhere (c ∷ d ∷ re) text ≡ match_one (matchhere (d ∷ re)) c text
unfolding matchhere
matchhere-one c d re text e = ground arith

matchhere_complete : {re text : List ℕ} → Here re text → matchhere re text ≡ true
unfolding matchhere
matchhere_complete done = refl
matchhere_complete (end e) = ground arith
matchhere_complete (last e f) = ground arith
matchhere_complete (one {c} {d} {t} {re} {ts} e f h) =
    matchhere-one c d re (t ∷ ts) e ∙ rw (true-Fits c t f) (matchhere_complete h)
matchhere_complete (stop {c} {d} {re} {ts} e h) =
    matchhere-star c d re ts e ∙ matchstar-stop (matchhere re) c ts (matchhere_complete h)
matchhere_complete (more {c} {d} {t} {re} {ts} e f h) =
    matchhere-star c d re (t ∷ ts) e
    ∙ matchstar-more (matchhere re) c t ts f
        (sym (matchhere-star c d re ts e) ∙ matchhere_complete h)

star_sound :
    (c d : ℕ) (re : List ℕ)
    → d ≡ b'*'
    → ((ts : List ℕ) → matchhere re ts ≡ true → Here re ts)
    → (text : List ℕ) → matchstar (matchhere re) c text ≡ true
    → Here (c ∷ d ∷ re) text
unfolding matchstar
star_sound c d re e whole [] h = stop e (whole [] h)
star_sound c d re e whole (t ∷ ts) h = elim (Bool-cases (matchhere re (t ∷ ts))) [
  | inl here ↦ stop e (whole (t ∷ ts) here)
  | inr gone ↦ more e (fits gone) (star_sound c d re e whole ts (rest gone))
]
  where
    fits : matchhere re (t ∷ ts) ≡ false → Fits c t
    fits gone = ground arith

    rest : matchhere re (t ∷ ts) ≡ false → matchstar (matchhere re) c ts ≡ true
    rest gone = ground arith

match_one_sound :
    (here : List ℕ → Bool) (c : ℕ) (text : List ℕ)
    → match_one here c text ≡ true
    → (t : ℕ) × (ts : List ℕ) × (text ≡ t ∷ ts) × Fits c t × (here ts ≡ true)
unfolding match_one
match_one_sound here c [] h = cc
match_one_sound here c (t ∷ ts) h = (t, ts, refl, ground arith, ground arith)

matchhere_sound : (re text : List ℕ) → matchhere re text ≡ true → Here re text
unfolding matchhere
matchhere_sound [] text h = done
matchhere_sound (c ∷ []) [] h = end (ground arith)
matchhere_sound (c ∷ []) (t ∷ ts) h = last (ground arith) (ground arith)
matchhere_sound (c ∷ d ∷ re) text h = elim (ℕ_discrete d b'*') [
  | yes e ↦ star_sound c d re e (matchhere_sound re) text (sym (matchhere-star c d re text e) ∙ h)
  | no e ↦
      let (t, ts, q, f, rest) =
        match_one_sound (matchhere (d ∷ re)) c text (sym (matchhere-one c d re text e) ∙ h) in
      rw q (one e f (matchhere_sound (d ∷ re) ts rest))
]

-- Some suffix of the text starts with what belongs to the pattern.
pub data Somewhere (re : List ℕ) : List ℕ → Type 0 where
  now : {text : List ℕ} → Here re text → Somewhere re text
  later : {t : ℕ} {ts : List ℕ} → Somewhere re ts → Somewhere re (t ∷ ts)

-- A leading ^ ties the pattern to the start of the text.
abbrev pub Found : List ℕ → List ℕ → Type 0
Found [] text = Somewhere [] text
Found (c ∷ re) text = ((c ≡ b'^') × Here re text) ⊎ ((c ≢ b'^') × Somewhere (c ∷ re) text)

match_from_complete : (re text : List ℕ) → Somewhere re text → match_from re text ≡ true
unfolding match_from
match_from_complete re [] (now h) = matchhere_complete h
match_from_complete re (t ∷ ts) (now h) = rw (matchhere_complete h)
match_from_complete re (t ∷ ts) (later s) = ground (arith, match_from_complete re ts s)

match_from_sound : (re text : List ℕ) → match_from re text ≡ true → Somewhere re text
unfolding match_from
match_from_sound re [] h = now (matchhere_sound re [] h)
match_from_sound re (t ∷ ts) h = elim (Bool-cases (matchhere re (t ∷ ts))) [
  | inl here ↦ now (matchhere_sound re (t ∷ ts) here)
  | inr gone ↦ later (match_from_sound re ts (rw gone at h))
]

-- `match` returns 1 exactly for the texts that the pattern describes.
pub match_iff : (re text : List ℕ) → (match re text ≡ true) ↔ Found re text
unfolding match
match_iff [] text = (match_from_sound [] text, match_from_complete [] text)
match_iff (c ∷ re) text = elim (ℕ_discrete c b'^') [
  | yes e ↦ (
    λ h. inl (e, matchhere_sound re text (ground arith)),
    λ f. ground (arith, matchhere_complete (tied e f)),
  )
  | no e ↦ (
    λ h. inr (e, match_from_sound (c ∷ re) text (ground arith)),
    λ f. ground (arith, match_from_complete (c ∷ re) text (free e f)),
  )
]
  where
    tied : c ≡ b'^' → Found (c ∷ re) text → Here re text
    tied e (inl f) = f.1
    tied e (inr f) = absurd (f.0 e)

    free : c ≢ b'^' → Found (c ∷ re) text → Somewhere (c ∷ re) text
    free e (inl f) = absurd (e f.0)
    free e (inr f) = f.1
