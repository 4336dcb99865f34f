-- ===== src/Pipe/Read.antt =====
-- What `piperead` takes.
use osassignment.Prelude.{
  ℕ, zero, suc, ◌<◌, ◌≡◌, ◌≢◌, ◌⊎◌, inl, inr, refl, ◌∙◌, ap, ◌&&◌, not, ◌==◌, List, [], ◌∷◌, ◌++◌,
  length, ne_of_==, Bool-cases, arith,
}
use osassignment.Pipe.{Pipe, get, read_bytes, ReadResult, got, read_killed, read_sleeps, piperead}
use osassignment.Pipe.Contents.{PipeOk, contents, held, get-contents, window}

-- The bytes `bs` came off the front: `n` of them, or all that there were.
pub record Taken (n : ℕ) (p : Pipe) (bs : List ℕ) (q : Pipe) : Type 0 where
  pub ok : PipeOk q
  pub front : contents p ≡ bs ++ contents q
  pub count : (length bs ≡ n) ⊎ ((length bs < n) × (contents q ≡ []))

no_contents : (p : Pipe) → PipeOk p → p.nread ≡ p.nwrite → contents p ≡ []
unfolding window
no_contents p v e = ap (window p.bytes p.nread) {x = held p} {y = 0} (omega (arith, v.nread_word))

Taken-more :
    (n : ℕ) (p : Pipe) (bs : List ℕ) (q : Pipe)
    → contents p ≡ (get p).0 ∷ contents (get p).1
    → Taken n (get p).1 bs q
    → Taken (suc n) p ((get p).0 ∷ bs) q
Taken-more n p bs q e t = record {
  ok = t.ok;
  front = e ∙ ap (λ l. (get p).0 ∷ l) t.front;
  count = elim t.count [
    | inl all ↦ inl (ap suc all)
    | inr (few, none_left) ↦ inr (omega arith, none_left)
  ];
}

read_bytes-Taken : (n : ℕ) (p : Pipe) → PipeOk p → Taken n p (read_bytes n p).0 (read_bytes n p).1
unfolding read_bytes
read_bytes-Taken zero p v = record { ok = v; front = refl; count = inl refl }
read_bytes-Taken (suc n) p v = elim (Bool-cases (p.nread == p.nwrite)) [
  | inl e ↦
      rw e
        (record { ok = v; front = refl; count = inr (omega arith, no_contents p v (ground arith)) })
  | inr off ↦
      let (ok, e, _) = get-contents p v (ne_of_== p.nread p.nwrite off) in
      rw off (
        Taken-more n p (read_bytes n (get p).1).0 (read_bytes n (get p).1).1 e
          (read_bytes-Taken n (get p).1 ok))
]

abbrev pub ReadOf : ℕ → ℕ → Pipe → ReadResult → Type 0
ReadOf killed n p (got bs q) = Taken n p bs q × ((p.writeopen ≡ 0) ⊎ (p.nread ≢ p.nwrite))
ReadOf killed n p read_killed = (contents p ≡ []) × (p.writeopen ≢ 0) × (killed ≢ 0)
ReadOf killed n p read_sleeps = (contents p ≡ []) × (p.writeopen ≢ 0) × (killed ≡ 0)

-- From a pipe with at most 512 bytes in it, `piperead` takes the first n bytes, or all if there are
-- fewer, and leaves the others in their order. It does not if the pipe is empty and has a writer:
-- then it returns -1 if the reader was killed, and sleeps otherwise.
pub piperead-ReadOf : (killed n : ℕ) (p : Pipe) → PipeOk p → ReadOf killed n p (piperead killed n p)
unfolding piperead
piperead-ReadOf killed n p v = elim (Bool-cases (p.nread == p.nwrite && not (p.writeopen == 0))) [
  | inl wait ↦ elim (Bool-cases (not (killed == 0))) [
    | inl dead ↦ rw (wait, dead) (no_contents p v (ground arith), ground arith, ground arith)
    | inr live ↦ rw (wait, live) (no_contents p v (ground arith), ground arith, ground arith)
  ]
  | inr go ↦ rw go (read_bytes-Taken n p v, ground arith)
]
