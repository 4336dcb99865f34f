-- ===== src/Shell/Ends.antt =====
-- The parser ends: fuel for one more than the bytes of the input is enough.
use osassignment.Prelude.{
  ℕ, zero, suc, ◌+◌, ◌≤◌, ◌<◌, ◌≡◌, ◌∙◌, sym, Bool, true, leb, ◌==◌, List, [], ◌∷◌, length,
  Bool-cases, inl, inr, arith,
}
use osassignment.Shell.{
  Cmd, execcmd, backcmd, Parsed, parsed, panics, stuck, and_then, skip, gettoken, peek, is_angle,
  redir_of, parseredirs, add_arg, ends_args, parseargs, parseblock, parseexec, parsepipe,
  parsebacks, parseline, parsecmd, maxargs, leftovers,
}
use osassignment.Shell.Tokens.{
  length-skip, skip-skip, gettoken-lt, first_is-nonempty, token-nonempty,
}

-- Not out of fuel, and at most `m` bytes are left.
abbrev pub Ends : ℕ → Parsed → Type 0
Ends m (parsed cmd s) = length s ≤ m
Ends m (panics e) = Unit
Ends m stuck = ⊥

Ends-le : (m k : ℕ) (p : Parsed) → m ≤ k → Ends m p → Ends k p
Ends-le m k (parsed cmd s) h e = omega arith
Ends-le m k (panics x) h e = tt
Ends-le m k stuck h e = elim e [ ]

Ends-and_then :
    (m k : ℕ) (p : Parsed) (f : Cmd → List ℕ → Parsed)
    → Ends m p
    → ((cmd : Cmd) (s : List ℕ) → length s ≤ m → Ends k (f cmd s))
    → Ends k (and_then p f)
Ends-and_then m k (parsed cmd s) f e h = h cmd s e
Ends-and_then m k (panics x) f e h = tt
Ends-and_then m k stuck f e h = elim e [ ]

-- A token behind a byte for which `peek` answers yes.
token_shorter :
    (test : ℕ → Bool) (s : List ℕ) → peek test s ≡ true → length (gettoken (skip s)).2 < length s
token_shorter test s h =
    let a = length-skip s in
    let c =
      (gettoken-lt (skip s)).1 (λ e. first_is-nonempty test (skip s) h (sym (skip-skip s) ∙ e)) in
    omega (arith, a, length-skip (skip s), c)

parseredirs-Ends :
    (n : ℕ) (cmd : Cmd) (s : List ℕ) → length s < n → Ends (length s) (parseredirs n cmd s)
unfolding parseredirs
parseredirs-Ends zero cmd s lt = absurd (omega arith)
parseredirs-Ends (suc n) cmd s lt = elim (Bool-cases (peek is_angle s)) [
  | inr off ↦ rw off (length-skip s)
  | inl on ↦
      let shorter = token_shorter is_angle s on in
      let r = gettoken (skip s) in
      let le = (gettoken-lt r.2).0 in
      let le2 = length-skip r.2 in
      let rest =
        parseredirs-Ends n (redir_of r.0 cmd (gettoken r.2).1) (gettoken r.2).2 (omega arith) in
      rw on (elim (Bool-cases ((gettoken r.2).0 == b'a')) [
        | inl word ↦ rw word (Ends-le _ _ _ (omega arith) rest)
        | inr other ↦ rw other tt
      ])
]

parseargs-Ends :
    (n argc : ℕ) (cmd : Cmd) (s : List ℕ) → length s < n → Ends (length s) (parseargs n argc cmd s)
unfolding parseargs
parseargs-Ends zero argc cmd s lt = absurd (omega arith)
parseargs-Ends (suc n) argc cmd s lt =
    let r = gettoken (skip s) in
    let le = length-skip s in
    let le2 = length-skip (skip s) in
    let le3 = (gettoken-lt (skip s)).0 in
    elim (Bool-cases (peek ends_args s)) [
      | inl on ↦ rw on le
      | inr off ↦ rw off (elim (Bool-cases (r.0 == 0)) [
        | inl end ↦ rw end (omega arith)
        | inr more ↦ rw more (elim (Bool-cases (r.0 == b'a')) [
          | inr other ↦ rw other tt
          | inl word ↦ rw word (elim (Bool-cases (leb maxargs (argc + 1))) [
            | inl full ↦ rw full tt
            | inr room ↦
                let shorter = (gettoken-lt (skip s)).1 (token-nonempty (skip s) more) in
                rw room (
                  Ends-and_then (length r.2) (length s) _ (parseargs n (argc + 1))
                    (parseredirs-Ends (suc n) (add_arg r.1 cmd) r.2 (omega arith))
                    (λ c t h.
                      Ends-le (length t) (length s) _ (omega arith)
                        (parseargs-Ends n (argc + 1) c t (omega arith))))
          ])
        ])
      ])
    ]

-- `parseline`, for the inputs below `n`.
abbrev LineEnds : ℕ → (List ℕ → Parsed) → Type 0
LineEnds n line = (t : List ℕ) → length t < n → Ends (length t) (line t)

parseblock-Ends :
    (n : ℕ) (line : List ℕ → Parsed) (s : List ℕ)
    → LineEnds (length s) line
    → length s < n
    → Ends (length s) (parseblock n line s)
unfolding parseblock
parseblock-Ends n line s h lt = elim (Bool-cases (peek (λ c. c == b'(') s)) [
  | inr off ↦ rw off tt
  | inl on ↦
      let inside = token_shorter (λ c. c == b'(') s on in
      let r = gettoken (skip s) in
      rw on (
        Ends-and_then (length r.2) _ _ _ (h r.2 inside) (λ cmd t le.
          elim (Bool-cases (peek (λ c. c == b')') t)) [
            | inr open_end ↦ rw open_end tt
            | inl closed ↦
                let behind = token_shorter (λ c. c == b')') t closed in
                rw closed (
                  Ends-le (length (gettoken (skip t)).2) _ _ (omega arith)
                    (parseredirs-Ends n cmd _ (omega arith)))
          ]))
]

parseexec-Ends :
    (n : ℕ) (line : List ℕ → Parsed) (s : List ℕ)
    → LineEnds (length s) line
    → length s < n
    → Ends (length s) (parseexec n line s)
unfolding parseexec
parseexec-Ends n line s h lt =
    let le = length-skip s in
    elim (Bool-cases (peek (λ c. c == b'(') s)) [
      | inl on ↦ rw on (
          Ends-le (length (skip s)) _ _ le
            (parseblock-Ends n line (skip s) (λ t lt. h t (omega arith)) (omega arith)))
      | inr off ↦ rw off (
          Ends-and_then (length (skip s)) _ _ _
            (parseredirs-Ends n (execcmd []) (skip s) (omega arith))
            (λ cmd t h.
              Ends-le (length t) _ _ (omega arith) (parseargs-Ends n 0 cmd t (omega arith))))
    ]

parsepipe-Ends :
    (n : ℕ) (line : List ℕ → Parsed) (s : List ℕ)
    → LineEnds (length s) line
    → length s < n
    → Ends (length s) (parsepipe n line s)
unfolding parsepipe
parsepipe-Ends zero line s h lt = absurd (omega arith)
parsepipe-Ends (suc n) line s h lt =
    Ends-and_then (length s) _ _ _ (parseexec-Ends (suc n) line s h lt) (λ cmd t le.
      elim (Bool-cases (peek (λ c. c == b'|') t)) [
        | inr off ↦ rw off (let le2 = length-skip t in omega arith)
        | inl on ↦
            let shorter = token_shorter (λ c. c == b'|') t on in
            let r = gettoken (skip t) in
            rw on (
              Ends-and_then (length r.2) _ _ _
                (parsepipe-Ends n line r.2 (λ u lt. h u (omega arith)) (omega arith))
                (λ right u le3. omega arith))
      ])

parsebacks-Ends :
    (n : ℕ) (cmd : Cmd) (s : List ℕ) → length s < n → Ends (length s) (parsebacks n cmd s)
unfolding parsebacks
parsebacks-Ends zero cmd s lt = absurd (omega arith)
parsebacks-Ends (suc n) cmd s lt = elim (Bool-cases (peek (λ c. c == b'&') s)) [
  | inr off ↦ rw off (length-skip s)
  | inl on ↦
      let shorter = token_shorter (λ c. c == b'&') s on in
      rw on (
        Ends-le (length (gettoken (skip s)).2) _ _ (omega arith)
          (parsebacks-Ends n (backcmd cmd) _ (omega arith)))
]

parseline-Ends : (n : ℕ) (s : List ℕ) → length s < n → Ends (length s) (parseline n s)
unfolding parseline
parseline-Ends zero s lt = absurd (omega arith)
parseline-Ends (suc n) s lt =
    Ends-and_then (length s) _ _ _
      (Ends-and_then (length s) _ _ _
        (parsepipe-Ends (suc n) (parseline n) s (λ t h. parseline-Ends n t (omega arith)) lt)
        (λ cmd t le. Ends-le (length t) _ _ le (parsebacks-Ends (suc n) cmd t (omega arith))))
      (λ cmd t le. elim (Bool-cases (peek (λ c. c == b';') t)) [
        | inr off ↦ rw off (let le2 = length-skip t in omega arith)
        | inl on ↦
            let shorter = token_shorter (λ c. c == b';') t on in
            let r = gettoken (skip t) in
            rw on (
              Ends-and_then (length r.2) _ _ _ (parseline-Ends n r.2 (omega arith))
                (λ right u le3. omega arith))
      ])

at_end :
    (cmd : Cmd) (s : List ℕ) → Ends 0 (elim s [ [] ↦ parsed cmd [] | c ∷ r ↦ panics leftovers ])
at_end cmd [] = omega arith
at_end cmd (c ∷ s) = tt

-- With fuel for more than the bytes of the input, the parser ends: it returns a command and leaves
-- nothing of the input, or it calls `panic`.
pub parsecmd-Ends : (n : ℕ) (s : List ℕ) → length s < n → Ends 0 (parsecmd n s)
unfolding parsecmd
parsecmd-Ends n s lt =
    Ends-and_then (length s) _ _ _ (parseline-Ends n s lt) (λ cmd t le. at_end cmd (skip t))
