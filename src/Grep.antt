-- ===== src/Grep.antt =====
-- The matcher of grep.c, on strings as the lists of their bytes before the NUL byte.
pub mod Language
mod Tests
use osassignment.Prelude.{ℕ, Bool, true, false, ◌&&◌, ◌||◌, ◌==◌, if◌then◌else◌, List, [], ◌∷◌}

abbrev pub fits : ℕ → ℕ → Bool
fits c x = (c == b'.') || (c == x)

-- `matchstar(c, re, text)`, where `here` is `matchhere(re, ·)`.
unfoldable pub matchstar : (List ℕ → Bool) → ℕ → List ℕ → Bool
matchstar here c [] = here []
matchstar here c (x ∷ text) = here (x ∷ text) || (fits c x && matchstar here c text)

-- The last two tests of `matchhere`, where `rest` is `matchhere(re+1, ·)`.
abbrev pub match_one : (List ℕ → Bool) → ℕ → List ℕ → Bool
match_one rest c [] = false
match_one rest c (x ∷ text) = fits c x && rest text

abbrev pub is_empty : List ℕ → Bool
is_empty [] = true
is_empty (x ∷ text) = false

unfoldable pub matchhere : List ℕ → List ℕ → Bool
unfolding matchstar
matchhere [] text = true
matchhere (c ∷ []) text = if c == b'$' then is_empty text else match_one (matchhere []) c text
matchhere (c ∷ d ∷ re) text =
    let star = matchstar (matchhere re) c text in
    let one = match_one (matchhere (d ∷ re)) c text in if d == b'*' then star else one

-- The loop of `match`: at the start of the text, and behind each of its bytes.
unfoldable pub match_from : List ℕ → List ℕ → Bool
unfolding matchhere
match_from re [] = matchhere re []
match_from re (x ∷ text) = matchhere re (x ∷ text) || match_from re text

unfoldable pub match : List ℕ → List ℕ → Bool
unfolding match_from
match [] text = match_from [] text
match (c ∷ re) text = if c == b'^' then matchhere re text else match_from (c ∷ re) text
