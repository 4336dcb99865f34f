-- ===== src/Shell/Args.antt =====
-- The argument vectors that the parser builds stay inside `argv[MAXARGS]`.
use osassignment.Prelude.{
  ℕ, zero, suc, ◌+◌, ◌<◌, ◌≡◌, refl, leb, ◌==◌, List, [], ◌∷◌, length, length-append, Bool-cases,
  inl, inr, arith,
}
use osassignment.Shell.Ends.{Ends, parsecmd-Ends}
use osassignment.Shell.{
  Cmd, execcmd, redircmd, pipecmd, listcmd, backcmd, Parsed, parsed, panics, stuck, and_then, skip,
  gettoken, peek, is_angle, redir_of, parseredirs, add_arg, ends_args, parseargs, parseblock,
  parseexec, parsepipe, parsebacks, parseline, parsecmd, maxargs, leftovers,
}

-- Each `execcmd` has at most `MAXARGS - 1` arguments: the 0 behind them fits.
abbrev pub FewArgs : Cmd → Type 0
FewArgs (execcmd argv) = length argv < maxargs
FewArgs (redircmd c file mode fd) = FewArgs c
FewArgs (pipecmd l r) = FewArgs l × FewArgs r
FewArgs (listcmd l r) = FewArgs l × FewArgs r
FewArgs (backcmd c) = FewArgs c

abbrev pub Holds : (Cmd → Type 0) → Parsed → Type 0
Holds P (parsed cmd s) = P cmd
Holds P (panics e) = Unit
Holds P stuck = Unit

-- Redirections around an `execcmd` with `k` arguments.
abbrev HasArgs : ℕ → Cmd → Type 0
HasArgs k (execcmd argv) = length argv ≡ k
HasArgs k (redircmd c file mode fd) = HasArgs k c
HasArgs k (pipecmd l r) = ⊥
HasArgs k (listcmd l r) = ⊥
HasArgs k (backcmd c) = ⊥

HasArgs-FewArgs : (k : ℕ) (cmd : Cmd) → k < maxargs → HasArgs k cmd → FewArgs cmd
HasArgs-FewArgs k (execcmd argv) lt h = omega arith
HasArgs-FewArgs k (redircmd c file mode fd) lt h = HasArgs-FewArgs k c lt h
HasArgs-FewArgs k (pipecmd l r) lt h = absurd h
HasArgs-FewArgs k (listcmd l r) lt h = absurd h
HasArgs-FewArgs k (backcmd c) lt h = absurd h

add_arg-HasArgs : (k : ℕ) (w : List ℕ) (cmd : Cmd) → HasArgs k cmd → HasArgs (k + 1) (add_arg w cmd)
unfolding add_arg
add_arg-HasArgs k w (execcmd argv) h = omega (arith, length-append argv (w ∷ []), h)
add_arg-HasArgs k w (redircmd c file mode fd) h = add_arg-HasArgs k w c h
add_arg-HasArgs k w (pipecmd l r) h = absurd h
add_arg-HasArgs k w (listcmd l r) h = absurd h
add_arg-HasArgs k w (backcmd c) h = absurd h

Holds-and_then :
    (P Q : Cmd → Type 0) (p : Parsed) (f : Cmd → List ℕ → Parsed)
    → Holds P p
    → ((cmd : Cmd) (s : List ℕ) → P cmd → Holds Q (f cmd s))
    → Holds Q (and_then p f)
Holds-and_then P Q (parsed cmd s) f h k = k cmd s h
Holds-and_then P Q (panics e) f h k = tt
Holds-and_then P Q stuck f h k = tt

redir_of-closed :
    (P : Cmd → Type 0)
    → ((c : Cmd) (file : List ℕ) (mode fd : ℕ) → P c → P (redircmd c file mode fd))
    → (tok : ℕ) (cmd : Cmd) (file : List ℕ) → P cmd
    → P (redir_of tok cmd file)
redir_of-closed P closed tok cmd file h = elim (Bool-cases (tok == b'<')) [
  | inl lt ↦ rw lt (closed cmd file _ _ h)
  | inr gt ↦ rw gt (closed cmd file _ _ h)
]

parseredirs-Holds :
    (P : Cmd → Type 0)
    → ((c : Cmd) (file : List ℕ) (mode fd : ℕ) → P c → P (redircmd c file mode fd))
    → (n : ℕ) (cmd : Cmd) (s : List ℕ) → P cmd
    → Holds P (parseredirs n cmd s)
unfolding parseredirs
parseredirs-Holds P closed zero cmd s h = tt
parseredirs-Holds P closed (suc n) cmd s h = elim (Bool-cases (peek is_angle s)) [
  | inr off ↦ rw off h
  | inl on ↦
      let r = gettoken (skip s) in
      let file = gettoken r.2 in
      let next = redir_of-closed P closed r.0 cmd file.1 h in
      rw on (elim (Bool-cases (file.0 == b'a')) [
        | inl word ↦ rw word (parseredirs-Holds P closed n (redir_of r.0 cmd file.1) file.2 next)
        | inr other ↦ rw other tt
      ])
]

parseargs-FewArgs :
    (n argc : ℕ) (cmd : Cmd) (s : List ℕ)
    → argc < maxargs
    → HasArgs argc cmd
    → Holds FewArgs (parseargs n argc cmd s)
unfolding parseargs
parseargs-FewArgs zero argc cmd s lt h = tt
parseargs-FewArgs (suc n) argc cmd s lt h =
    let r = gettoken (skip s) in
    let few = HasArgs-FewArgs argc cmd lt h in
    elim (Bool-cases (peek ends_args s)) [
      | inl on ↦ rw on few
      | inr off ↦ rw off (elim (Bool-cases (r.0 == 0)) [
        | inl end ↦ rw end few
        | inr more ↦ rw more (elim (Bool-cases (r.0 == b'a')) [
          | inr other ↦ rw other tt
          | inl word ↦ rw word (elim (Bool-cases (leb maxargs (argc + 1))) [
            | inl full ↦ rw full tt
            | inr room ↦ rw room (
                Holds-and_then (HasArgs (argc + 1)) FewArgs
                  (parseredirs (suc n) (add_arg r.1 cmd) r.2) (parseargs n (argc + 1))
                  (parseredirs-Holds (HasArgs (argc + 1)) (λ c file mode fd h. h) (suc n)
                    (add_arg r.1 cmd) r.2 (add_arg-HasArgs argc r.1 cmd h))
                  (λ c t k. parseargs-FewArgs n (argc + 1) c t (ground (arith, room)) k))
          ])
        ])
      ])
    ]

abbrev LineFew : (List ℕ → Parsed) → Type 0
LineFew line = (t : List ℕ) → Holds FewArgs (line t)

parseblock-FewArgs :
    (n : ℕ) (line : List ℕ → Parsed) (s : List ℕ)
    → LineFew line
    → Holds FewArgs (parseblock n line s)
unfolding parseblock
parseblock-FewArgs n line s h = elim (Bool-cases (peek (λ c. c == b'(') s)) [
  | inr off ↦ rw off tt
  | inl on ↦ rw on (
      Holds-and_then FewArgs FewArgs (line (gettoken (skip s)).2) _ (h _) (λ cmd t k.
        elim (Bool-cases (peek (λ c. c == b')') t)) [
          | inr open_end ↦ rw open_end tt
          | inl closed ↦ rw closed (parseredirs-Holds FewArgs (λ c file mode fd h. h) n cmd _ k)
        ]))
]

parseexec-FewArgs :
    (n : ℕ) (line : List ℕ → Parsed) (s : List ℕ)
    → LineFew line
    → Holds FewArgs (parseexec n line s)
unfolding parseexec
parseexec-FewArgs n line s h = elim (Bool-cases (peek (λ c. c == b'(') s)) [
  | inl on ↦ rw on (parseblock-FewArgs n line (skip s) h)
  | inr off ↦ rw off (
      Holds-and_then (HasArgs 0) FewArgs (parseredirs n (execcmd []) (skip s)) _
        (parseredirs-Holds (HasArgs 0) (λ c file mode fd h. h) n (execcmd []) (skip s) refl)
        (λ cmd t k. parseargs-FewArgs n 0 cmd t (omega arith) k))
]

parsepipe-FewArgs :
    (n : ℕ) (line : List ℕ → Parsed) (s : List ℕ)
    → LineFew line
    → Holds FewArgs (parsepipe n line s)
unfolding parsepipe
parsepipe-FewArgs zero line s h = tt
parsepipe-FewArgs (suc n) line s h =
    Holds-and_then FewArgs FewArgs (parseexec (suc n) line s) _ (parseexec-FewArgs (suc n) line s h)
      (λ cmd t k. elim (Bool-cases (peek (λ c. c == b'|') t)) [
        | inr off ↦ rw off k
        | inl on ↦ rw on (
            Holds-and_then FewArgs FewArgs (parsepipe n line (gettoken (skip t)).2) _
              (parsepipe-FewArgs n line (gettoken (skip t)).2 h) (λ right u k2. (k, k2)))
      ])

parsebacks-FewArgs :
    (n : ℕ) (cmd : Cmd) (s : List ℕ) → FewArgs cmd → Holds FewArgs (parsebacks n cmd s)
unfolding parsebacks
parsebacks-FewArgs zero cmd s h = tt
parsebacks-FewArgs (suc n) cmd s h = elim (Bool-cases (peek (λ c. c == b'&') s)) [
  | inr off ↦ rw off h
  | inl on ↦ rw on (parsebacks-FewArgs n (backcmd cmd) (gettoken (skip s)).2 h)
]

parseline-FewArgs : (n : ℕ) (s : List ℕ) → Holds FewArgs (parseline n s)
unfolding parseline
parseline-FewArgs zero s = tt
parseline-FewArgs (suc n) s =
    Holds-and_then FewArgs FewArgs
      (and_then (parsepipe (suc n) (parseline n) s) (parsebacks (suc n))) _
      (Holds-and_then FewArgs FewArgs (parsepipe (suc n) (parseline n) s) _
        (parsepipe-FewArgs (suc n) (parseline n) s (parseline-FewArgs n))
        (λ cmd t k. parsebacks-FewArgs (suc n) cmd t k))
      (λ cmd t k. elim (Bool-cases (peek (λ c. c == b';') t)) [
        | inr off ↦ rw off k
        | inl on ↦ rw on (
            Holds-and_then FewArgs FewArgs (parseline n (gettoken (skip t)).2) _
              (parseline-FewArgs n (gettoken (skip t)).2) (λ right u k2. (k, k2)))
      ])

at_end :
    (cmd : Cmd) (s : List ℕ)
    → FewArgs cmd
    → Holds FewArgs (elim s [ [] ↦ parsed cmd [] | c ∷ r ↦ panics leftovers ])
at_end cmd [] h = h
at_end cmd (c ∷ s) h = tt

parsecmd-Holds : (n : ℕ) (s : List ℕ) → Holds FewArgs (parsecmd n s)
unfolding parsecmd
parsecmd-Holds n s =
    Holds-and_then FewArgs FewArgs (parseline n s) _ (parseline-FewArgs n s)
      (λ cmd t k. at_end cmd (skip t) k)

-- A panic, or a command with few arguments for all of the input.
abbrev pub Returns : Parsed → Type 0
Returns (parsed cmd s) = FewArgs cmd × (length s ≡ 0)
Returns (panics e) = Unit
Returns stuck = ⊥

both : (p : Parsed) → Ends 0 p → Holds FewArgs p → Returns p
both (parsed cmd s) e h = (h, omega (arith, e))
both (panics x) e h = tt
both stuck e h = e

-- With fuel for more than the bytes of the input, the parser calls `panic`, or it returns a command
-- for all of the input in which each `execcmd` has fewer than `MAXARGS` arguments.
pub parsecmd-Returns : (n : ℕ) (s : List ℕ) → length s < n → Returns (parsecmd n s)
parsecmd-Returns n s lt = both (parsecmd n s) (parsecmd-Ends n s lt) (parsecmd-Holds n s)
