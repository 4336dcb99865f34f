-- ===== src/Pipe/Fifo.antt =====
-- A pipe under any sequence of reads, writes and closes by any processes.
use osassignment.Prelude.{
  ℕ, ◌-◌, ◌≤◌, ◌≡◌, refl, ◌∙◌, sym, ap, Bool, true, false, subst, List, [], ◌∷◌, ◌++◌, take, length,
  append_assoc, append-nil, arith,
}
use osassignment.Memory.{Mem}
use osassignment.Pipe.{
  Pipe, pipesize, Written, wrote, broken, write_sleeps, pipewrite, got, piperead, pipeclose,
  new_pipe,
}
use osassignment.Pipe.Contents.{PipeOk, contents, held, window}
use osassignment.Pipe.Write.{WriteResult, Stopped, pipewrite-WriteResult}
use osassignment.Pipe.Read.{ReadOf, piperead-ReadOf}

-- The pipe and the index that a run of `pipewrite` leaves.
abbrev pub after : Written → Pipe
after (wrote p i) = p
after (broken p i) = p
after (write_sleeps p i) = p

abbrev pub reached : Written → ℕ
reached (wrote p i) = i
reached (broken p i) = i
reached (write_sleeps p i) = i

-- What goes into the pipe and what comes out of it. A writer that slept goes on with the rest.
pub data Step (p : Pipe) : List ℕ → List ℕ → Pipe → Type 0 where
  writes :
      (killed i : ℕ) (bs : List ℕ)
      → Step p
          (take (reached (pipewrite killed bs i p) - i) bs)
          []
          (after (pipewrite killed bs i p))
  reads : {bs : List ℕ} {q : Pipe} (killed n : ℕ) → piperead killed n p ≡ got bs q → Step p [] bs q
  closes : (writable : Bool) → Step p [] [] (pipeclose p writable).0

pub data Trace (p : Pipe) : List ℕ → List ℕ → Pipe → Type 0 where
  start : Trace p [] [] p
  then :
      {ins outs ins' outs' : List ℕ} {q q' : Pipe}
      → Trace p ins outs q
      → Step q ins' outs' q'
      → Trace p (ins ++ ins') (outs ++ outs') q'

take-append : (xs ys : List ℕ) → take (length xs) (xs ++ ys) ≡ xs
take-append [] ys = refl
take-append (x ∷ xs) ys = ap (λ l. x ∷ l) (take-append xs ys)

take_front :
    (n : ℕ) (bs front rest : List ℕ) → bs ≡ front ++ rest → n ≡ length front → take n bs ≡ front
take_front n bs front rest e f = rw (e, f) (take-append front rest)

-- In order: what is in the pipe and what is put in is what is taken out and what is left.
abbrev Flow : Pipe → List ℕ → List ℕ → Pipe → Type 0
Flow p ins outs q = PipeOk q × (contents p ++ ins ≡ outs ++ contents q)

Flow-then :
    (p q r : Pipe) (ins outs ins' outs' : List ℕ)
    → Flow p ins outs q
    → Flow q ins' outs' r
    → Flow p (ins ++ ins') (outs ++ outs') r
Flow-then p q r ins outs ins' outs' (_, e) (ok, f) = (
  ok,
  sym (append_assoc (contents p) ins ins')
      ∙ ap (λ l. l ++ ins') e
      ∙ append_assoc outs (contents q) ins'
      ∙ ap (λ l. outs ++ l) f
      ∙ sym (append_assoc outs outs' (contents r)),
)

Stopped-Flow :
    (i : ℕ) (bs : List ℕ) (p q : Pipe) (j : ℕ) → Stopped p bs i q j → Flow p (take (j - i) bs) [] q
Stopped-Flow i bs p q j s = (
  s.ok,
  rw (take_front (j - i) bs s.front (s.next ∷ s.rest) s.split (omega (arith, s.index)))
      (sym s.added),
)

written-Flow :
    (killed i : ℕ) (bs : List ℕ) (p : Pipe) (w : Written)
    → WriteResult killed bs i p w
    → Flow p (take (reached w - i) bs) [] (after w)
written-Flow killed i bs p (wrote q j) (index, ok, e) =
    (ok, rw (take_front (j - i) bs bs [] (sym (append-nil bs)) (omega (arith, index))) (sym e))
written-Flow killed i bs p (broken q j) (s, _) = Stopped-Flow i bs p q j s
written-Flow killed i bs p (write_sleeps q j) (s, _, _) = Stopped-Flow i bs p q j s

closed-Flow : (p : Pipe) (writable : Bool) → PipeOk p → Flow p [] [] (pipeclose p writable).0
unfolding pipeclose
closed-Flow p true v = (
  record { nread_word = v.nread_word; nwrite_word = v.nwrite_word; room = v.room },
  append-nil (contents p),
)
closed-Flow p false v = (
  record { nread_word = v.nread_word; nwrite_word = v.nwrite_word; room = v.room },
  append-nil (contents p),
)

read-Flow :
    (killed n : ℕ) (p q : Pipe) (bs : List ℕ)
    → PipeOk p
    → piperead killed n p ≡ got bs q
    → Flow p [] bs q
read-Flow killed n p q bs v e =
    let (t, _) = subst (ReadOf killed n p) e (piperead-ReadOf killed n p v) in
    (t.ok, append-nil (contents p) ∙ t.front)

Step-Flow : (p q : Pipe) (ins outs : List ℕ) → PipeOk p → Step p ins outs q → Flow p ins outs q
Step-Flow p _ _ _ v (writes killed i bs) =
    written-Flow killed i bs p (pipewrite killed bs i p) (pipewrite-WriteResult killed bs i p v)
Step-Flow p q _ bs v (reads killed n e) = read-Flow killed n p q bs v e
Step-Flow p _ _ _ v (closes writable) = closed-Flow p writable v

Trace-Flow : (p q : Pipe) (ins outs : List ℕ) → PipeOk p → Trace p ins outs q → Flow p ins outs q
Trace-Flow p _ _ _ v start = (v, append-nil (contents p))
Trace-Flow p r _ _ v (then {ins} {outs} {ins'} {outs'} {q} t s) =
    let f = Trace-Flow p q ins outs v t in
    Flow-then p q r ins outs ins' outs' f (Step-Flow q r ins' outs' f.0 s)

new_pipe-PipeOk : (page : Mem) → PipeOk (new_pipe page)
unfolding new_pipe
new_pipe-PipeOk page = record {
  nread_word = omega arith;
  nwrite_word = omega arith;
  room = omega arith;
}

new_pipe-contents : (page : Mem) → contents (new_pipe page) ≡ []
unfolding new_pipe window
new_pipe-contents page = refl

-- From a new pipe, after any sequence of reads, writes and closes by any processes, the bytes that
-- were written are those that were read, in the same order, followed by those still in the pipe,
-- and the pipe holds at most 512. The counters may have wrapped round any number of times.
pub Trace-fifo :
    (page : Mem) (ins outs : List ℕ) (q : Pipe)
    → Trace (new_pipe page) ins outs q
    → (ins ≡ outs ++ contents q) × (held q ≤ pipesize)
Trace-fifo page ins outs q t =
    let (ok, e) = Trace-Flow (new_pipe page) q ins outs (new_pipe-PipeOk page) t in
    (ap (λ l. l ++ ins) (sym (new_pipe-contents page)) ∙ e, ok.room)
