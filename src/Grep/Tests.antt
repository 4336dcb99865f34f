-- ===== src/Grep/Tests.antt =====
-- Runs of the matcher.
use osassignment.Prelude.{ℕ, ◌≡◌, refl, ◌↔◌, true, false, List, [], ◌∷◌}
use osassignment.Grep.{match, matchhere, matchstar}
use osassignment.Grep.Language.{Means, match-Means}

-- "^ab*c$" and "abbc".
abbrev pattern_bytes : List ℕ
pattern_bytes = b'^' ∷ b'a' ∷ b'b' ∷ b'*' ∷ b'c' ∷ b'$' ∷ []

abbrev text_bytes : List ℕ
text_bytes = b'a' ∷ b'b' ∷ b'b' ∷ b'c' ∷ []

match_run : match pattern_bytes text_bytes ≡ true
unfolding match matchhere matchstar
match_run = refl

match_fails_run : match pattern_bytes (b'x' ∷ text_bytes) ≡ false
unfolding match matchhere matchstar
match_fails_run = refl

match-Means_example : (match pattern_bytes text_bytes ≡ true) ↔ Means pattern_bytes text_bytes
match-Means_example = match-Means pattern_bytes text_bytes
