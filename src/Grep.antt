-- ===== src/Grep.antt =====
-- user/grep.c: the matcher for the operators ^ . * $, on strings without their final NUL.
pub mod Meaning
use sistema_operativo.Base.{ℕ, Bool, true, false, ◌&&◌, ◌||◌, List, [], ◌∷◌, ◌==◌, if◌then◌else◌}

-- The loop of `matchstar`, where `here` is `matchhere` of the rest of the pattern.
unfoldable pub matchstar : (List ℕ → Bool) → ℕ → List ℕ → Bool
matchstar here c [] = here []
matchstar here c (t ∷ ts) =
    let again = matchstar here c ts in
    if here (t ∷ ts) then true else if t == c || c == b'.' then again else false

abbrev pub is_empty : List ℕ → Bool
is_empty [] = true
is_empty (t ∷ ts) = false

unfoldable pub match_one : (List ℕ → Bool) → ℕ → List ℕ → Bool
match_one here c [] = false
match_one here c (t ∷ ts) = if c == b'.' || c == t then here ts else false

unfoldable pub matchhere : List ℕ → List ℕ → Bool
unfolding matchstar match_one
matchhere [] text = true
matchhere (c ∷ []) text = if c == b'$' then is_empty text else match_one (λ ts. true) c text
matchhere (c ∷ d ∷ re) text =
    let star = matchstar (matchhere re) c text in
    let one = match_one (matchhere (d ∷ re)) c text in if d == b'*' then star else one

-- The loop of `match`.
unfoldable pub match_from : List ℕ → List ℕ → Bool
match_from re [] = matchhere re []
match_from re (t ∷ ts) =
    let later = match_from re ts in if matchhere re (t ∷ ts) then true else later

unfoldable pub match : List ℕ → List ℕ → Bool
unfolding match_from matchhere
match [] text = match_from [] text
match (c ∷ re) text = if c == b'^' then matchhere re text else match_from (c ∷ re) text
