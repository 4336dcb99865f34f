-- ===== src/Shell.antt =====
-- The parser of the shell (sh.c). The input between `*ps` and `es` is a list of bytes without NUL; a
-- token between `q` and `eq` is the list of its bytes, as which it is left by `nulterminate`.
pub mod Tokens
pub mod Ends
pub mod Args
mod Tests
use osassignment.Prelude.{
  ℕ, zero, suc, ◌+◌, ◌≤◌, ◌<◌, Bool, true, false, not, ◌&&◌, ◌||◌, leb, ◌==◌, if◌then◌else◌, List,
  [], ◌∷◌, ◌++◌, length,
}

pub data Cmd : Type 0 where
  execcmd : (argv : List (List ℕ)) → Cmd
  redircmd : (subcmd : Cmd) (file : List ℕ) (mode fd : ℕ) → Cmd
  pipecmd : (left right : Cmd) → Cmd
  listcmd : (left right : Cmd) → Cmd
  backcmd : (subcmd : Cmd) → Cmd

-- The calls of `panic`, and "leftovers".
pub data Error : Type 0 where
  missing_file syntax_error missing_paren no_block too_many_args leftovers : Error

-- A command and the input behind it; `stuck`: out of fuel.
pub data Parsed : Type 0 where
  parsed : Cmd → List ℕ → Parsed
  panics : Error → Parsed
  stuck : Parsed

abbrev pub and_then : Parsed → (Cmd → List ℕ → Parsed) → Parsed
and_then (parsed cmd s) k = k cmd s
and_then (panics e) k = panics e
and_then stuck k = stuck

abbrev pub maxargs : ℕ
maxargs = 10

abbrev pub o_rdonly : ℕ
o_rdonly = 0x000

-- `O_WRONLY|O_CREATE`
abbrev pub o_create : ℕ
o_create = 0x201

-- `strchr(whitespace, c)`, `strchr(symbols, c)`
abbrev pub is_space : ℕ → Bool
is_space c = (c == b' ') || ((c == 9) || ((c == 13) || ((c == 10) || (c == 11))))

abbrev pub is_symbol : ℕ → Bool
is_symbol c =
    (c == b'<')
    || ((c == b'|')
        || ((c == b'>') || ((c == b'&') || ((c == b';') || ((c == b'(') || (c == b')'))))))

unfoldable pub skip : List ℕ → List ℕ
skip [] = []
skip (c ∷ s) = if is_space c then skip s else c ∷ s

-- The bytes of a word, and what is behind it.
unfoldable pub word : List ℕ → List ℕ × List ℕ
word [] = ([], [])
word (c ∷ s) =
    let (w, rest) = word s in if is_space c || is_symbol c then ([], c ∷ s) else (c ∷ w, rest)

-- The two cases of `>`, by what follows.
unfoldable pub after_gt : List ℕ → ℕ × List ℕ × List ℕ
after_gt [] = (b'>', b'>' ∷ [], [])
after_gt (c ∷ s) = if c == b'>' then (b'+', b'>' ∷ b'>' ∷ [], s) else (b'>', b'>' ∷ [], c ∷ s)

-- The `switch`, at a byte that is not NUL.
unfoldable pub token_at : ℕ → List ℕ → ℕ × List ℕ × List ℕ
unfolding after_gt word
token_at c s =
    if (c == b'|')
      || ((c == b'(') || ((c == b')') || ((c == b';') || ((c == b'&') || (c == b'<')))))
    then (c, c ∷ [], s)
    else if c == b'>'
    then after_gt s
    else (let (w, rest) = word (c ∷ s) in (b'a', w, rest))

abbrev pub token_of : List ℕ → ℕ × List ℕ × List ℕ
token_of [] = (0, [], [])
token_of (c ∷ s) = token_at c s

-- The token, its bytes, and the input behind it.
unfoldable pub gettoken : List ℕ → ℕ × List ℕ × List ℕ
unfolding skip token_at
gettoken s = let (tok, w, rest) = token_of (skip s) in (tok, w, skip rest)

abbrev pub first_is : (ℕ → Bool) → List ℕ → Bool
first_is test [] = false
first_is test (c ∷ s) = test c

-- `peek` moves `*ps` to `skip s`; this is its answer, with `strchr(toks, ·)` as a test.
abbrev pub peek : (ℕ → Bool) → List ℕ → Bool
peek toks s = first_is toks (skip s)

abbrev pub redir_of : ℕ → Cmd → List ℕ → Cmd
redir_of tok cmd file =
    if tok == b'<' then redircmd cmd file o_rdonly 0 else redircmd cmd file o_create 1

abbrev pub is_angle : ℕ → Bool
is_angle c = (c == b'<') || (c == b'>')

unfoldable pub parseredirs : ℕ → Cmd → List ℕ → Parsed
unfolding gettoken
parseredirs zero cmd s = stuck
parseredirs (suc n) cmd s =
    let (tok, _, s2) = gettoken (skip s) in
    let (kind, file, s3) = gettoken s2 in
    let rest = parseredirs n (redir_of tok cmd file) s3 in
    if peek is_angle s
    then (if kind == b'a' then rest else panics missing_file)
    else parsed cmd (skip s)

-- `cmd->argv[argc] = q` reaches the `execcmd` inside the redirections around it.
unfoldable pub add_arg : List ℕ → Cmd → Cmd
add_arg w (execcmd argv) = execcmd (argv ++ (w ∷ []))
add_arg w (redircmd c file mode fd) = redircmd (add_arg w c) file mode fd
add_arg w (pipecmd l r) = pipecmd l r
add_arg w (listcmd l r) = listcmd l r
add_arg w (backcmd c) = backcmd c

abbrev pub ends_args : ℕ → Bool
ends_args c = (c == b'|') || ((c == b')') || ((c == b'&') || (c == b';')))

-- The loop of `parseexec`.
unfoldable pub parseargs : ℕ → ℕ → Cmd → List ℕ → Parsed
unfolding gettoken parseredirs add_arg
parseargs zero argc cmd s = stuck
parseargs (suc n) argc cmd s =
    let (tok, w, s2) = gettoken (skip s) in
    let rest = and_then (parseredirs (suc n) (add_arg w cmd) s2) (parseargs n (argc + 1)) in
    if peek ends_args s
    then parsed cmd (skip s)
    else if tok == 0
    then parsed cmd s2
    else if tok == b'a'
    then (if leb maxargs (argc + 1) then panics too_many_args else rest)
    else panics syntax_error

-- `line` is `parseline`.
unfoldable pub parseblock : ℕ → (List ℕ → Parsed) → List ℕ → Parsed
unfolding gettoken parseredirs
parseblock n line s =
    if peek (λ c. c == b'(') s
    then and_then (line (gettoken (skip s)).2) (λ cmd s1.
      if peek (λ c. c == b')') s1
      then parseredirs n cmd (gettoken (skip s1)).2
      else panics missing_paren)
    else panics no_block

unfoldable pub parseexec : ℕ → (List ℕ → Parsed) → List ℕ → Parsed
unfolding parseblock parseargs parseredirs
parseexec n line s =
    if peek (λ c. c == b'(') s
    then parseblock n line (skip s)
    else and_then (parseredirs n (execcmd []) (skip s)) (parseargs n 0)

unfoldable pub parsepipe : ℕ → (List ℕ → Parsed) → List ℕ → Parsed
unfolding parseexec gettoken
parsepipe zero line s = stuck
parsepipe (suc n) line s = and_then (parseexec (suc n) line s) (λ cmd s1.
    let rest = parsepipe n line (gettoken (skip s1)).2 in
    if peek (λ c. c == b'|') s1
    then and_then rest (λ right s2. parsed (pipecmd cmd right) s2)
    else parsed cmd (skip s1))

-- The loop of `parseline`.
unfoldable pub parsebacks : ℕ → Cmd → List ℕ → Parsed
unfolding gettoken
parsebacks zero cmd s = stuck
parsebacks (suc n) cmd s =
    let rest = parsebacks n (backcmd cmd) (gettoken (skip s)).2 in
    if peek (λ c. c == b'&') s then rest else parsed cmd (skip s)

unfoldable pub parseline : ℕ → List ℕ → Parsed
unfolding parsepipe parsebacks gettoken
parseline zero s = stuck
parseline (suc n) s =
    and_then (and_then (parsepipe (suc n) (parseline n) s) (parsebacks (suc n))) (λ cmd s1.
      let rest = parseline n (gettoken (skip s1)).2 in
      if peek (λ c. c == b';') s1
      then and_then rest (λ right s2. parsed (listcmd cmd right) s2)
      else parsed cmd (skip s1))

unfoldable pub parsecmd : ℕ → List ℕ → Parsed
unfolding parseline skip
parsecmd n s =
    and_then (parseline n s)
      (λ cmd s1. elim (skip s1) [ [] ↦ parsed cmd [] | c ∷ r ↦ panics leftovers ])
