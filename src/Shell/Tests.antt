-- ===== src/Shell/Tests.antt =====
-- Runs of the parser on `ls>a|(b;c)&`.
use native.Mathlib.Omega.{arith}
use osassignment.Prelude.{ℕ, ◌≡◌, refl, List, [], ◌∷◌}
use osassignment.Shell.{
  execcmd, redircmd, pipecmd, listcmd, backcmd, parsed, panics, missing_paren, o_create, parsecmd,
}
use osassignment.Shell.Args.{Returns, parsecmd-Returns}

abbrev line : List ℕ
line = b'l' ∷ b's' ∷ b'>' ∷ b'a' ∷ b'|' ∷ b'(' ∷ b'b' ∷ b';' ∷ b'c' ∷ b')' ∷ b'&' ∷ []

parsecmd-line :
    parsecmd 12 line
    ≡ parsed
        (backcmd (
          pipecmd
            (redircmd (execcmd ((b'l' ∷ b's' ∷ []) ∷ [])) (b'a' ∷ []) o_create 1)
            (listcmd (execcmd ((b'b' ∷ []) ∷ [])) (execcmd ((b'c' ∷ []) ∷ [])))))
        []
unfolding parsecmd
parsecmd-line = refl

parsecmd_open : parsecmd 9 (b'(' ∷ b'a' ∷ b' ' ∷ b'b' ∷ []) ≡ panics missing_paren
unfolding parsecmd
parsecmd_open = refl

parsecmd-Returns_example : Returns (parsecmd 12 line)
parsecmd-Returns_example = parsecmd-Returns 12 line (omega arith)
