-- ===== src/Pipe/Write.antt =====
-- What `pipewrite` adds.
use osassignment.Prelude.{
  ℕ, ◌+◌, ◌≡◌, ◌≢◌, ◌⊎◌, inl, inr, refl, ◌∙◌, sym, ap, ◌||◌, not, true, ◌==◌, List, [], ◌∷◌, ◌++◌,
  length, append_assoc, append-nil, Bool-cases, arith,
}
use osassignment.Pipe.{Pipe, is_full, put, Written, wrote, broken, write_sleeps, pipewrite}
use osassignment.Pipe.Contents.{PipeOk, contents, put-contents}

-- The bytes up to a stop, and those that are left.
pub record Stopped (p : Pipe) (bs : List ℕ) (i : ℕ) (q : Pipe) (j : ℕ) : Type 0 where
  pub front : List ℕ
  pub next : ℕ
  pub rest : List ℕ
  pub split : bs ≡ front ++ (next ∷ rest)
  pub index : j ≡ i + length front
  pub ok : PipeOk q
  pub added : contents q ≡ contents p ++ front
  pub full : is_full q ≡ true

abbrev pub WriteResult : ℕ → List ℕ → ℕ → Pipe → Written → Type 0
WriteResult killed bs i p (wrote q j) =
    (j ≡ i + length bs) × PipeOk q × (contents q ≡ contents p ++ bs)
WriteResult killed bs i p (broken q j) = Stopped p bs i q j × ((q.readopen ≡ 0) ⊎ (killed ≢ 0))
WriteResult killed bs i p (write_sleeps q j) = Stopped p bs i q j × (q.readopen ≢ 0) × (killed ≡ 0)

Stopped-later :
    (p : Pipe) (b : ℕ) (bs : List ℕ) (i : ℕ) (q : Pipe) (j : ℕ)
    → contents (put p b) ≡ contents p ++ (b ∷ [])
    → Stopped (put p b) bs (i + 1) q j
    → Stopped p (b ∷ bs) i q j
Stopped-later p b bs i q j e s = record {
  front = b ∷ s.front;
  next = s.next;
  rest = s.rest;
  split = ap (λ l. b ∷ l) s.split;
  index = omega (arith, s.index);
  ok = s.ok;
  added = s.added ∙ ap (λ l. l ++ s.front) e ∙ append_assoc (contents p) (b ∷ []) s.front;
  full = s.full;
}

later :
    (killed : ℕ) (p : Pipe) (b : ℕ) (bs : List ℕ) (i : ℕ) (w : Written)
    → contents (put p b) ≡ contents p ++ (b ∷ [])
    → WriteResult killed bs (i + 1) (put p b) w
    → WriteResult killed (b ∷ bs) i p w
later killed p b bs i (wrote q j) e (index, ok, added) =
    (omega arith, ok, added ∙ ap (λ l. l ++ bs) e ∙ append_assoc (contents p) (b ∷ []) bs)
later killed p b bs i (broken q j) e (s, why) = (Stopped-later p b bs i q j e s, why)
later killed p b bs i (write_sleeps q j) e (s, reader, live) =
    (Stopped-later p b bs i q j e s, reader, live)

Stopped-here :
    (p : Pipe) (b : ℕ) (bs : List ℕ) (i : ℕ)
    → PipeOk p
    → is_full p ≡ true
    → Stopped p (b ∷ bs) i p i
Stopped-here p b bs i v h = record {
  front = [];
  next = b;
  rest = bs;
  split = refl;
  index = omega arith;
  ok = v;
  added = sym (append-nil (contents p));
  full = h;
}

-- A pipe with at most 512 bytes in it stays one. `pipewrite` returns n with all its bytes behind those
-- that the pipe held; or it stops at a full pipe, with the first `i` bytes behind them, and then
-- returns -1 exactly if the pipe has no reader or the writer was killed, and sleeps otherwise.
pub pipewrite-WriteResult :
    (killed : ℕ) (bs : List ℕ) (i : ℕ) (p : Pipe)
    → PipeOk p
    → WriteResult killed bs i p (pipewrite killed bs i p)
unfolding pipewrite
pipewrite-WriteResult killed [] i p v = (omega arith, v, sym (append-nil (contents p)))
pipewrite-WriteResult killed (b ∷ bs) i p v = elim (Bool-cases (is_full p)) [
  | inl full ↦ elim (Bool-cases (p.readopen == 0 || not (killed == 0))) [
    | inl stop ↦ rw (full, stop) (Stopped-here p b bs i v full, ground arith)
    | inr go ↦ rw (full, go) (Stopped-here p b bs i v full, ground arith, ground arith)
  ]
  | inr room ↦ rw room (
      later killed p b bs i (pipewrite killed bs (i + 1) (put p b)) (put-contents p b v room).1
        (pipewrite-WriteResult killed bs (i + 1) (put p b) (put-contents p b v room).0))
]
