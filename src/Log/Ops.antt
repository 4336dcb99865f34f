-- ===== src/Log/Ops.antt =====
-- The log under any sequence of file system operations by any processes.
use osassignment.Prelude.{
  ℕ, suc, ◌+◌, ◌<◌, ◌≤◌, ◌⊎◌, inl, inr, ◌≡◌, ◌≢◌, refl, ◌∙◌, sym, ap, subst, Bool, true, false,
  none, some, List, [], ◌∷◌, ◌++◌, length, arith,
}
use osassignment.Log.{Log, Device, begin_op, end_op, end_commit, commit, log_write, maxopblocks}
use osassignment.Log.Space.{
  HasSpace, total, total-middle, length-middle, Within-middle, total-le, log_write-Logged,
}

-- `bs` is what each open operation may still write.
pub data Step (log : Log) (bs : List ℕ) : Log → List ℕ → Type 0 where
  begins : {log' : Log} → begin_op log ≡ some log' → Step log bs log' (maxopblocks ∷ bs)
  writes :
      {log' : Log} (front : List ℕ) (b : ℕ) (rest : List ℕ) (x : ℕ)
      → bs ≡ front ++ (suc b ∷ rest)
      → log_write x log ≡ some log'
      → Step log bs log' (front ++ (b ∷ rest))
  ends :
      {log' : Log} {last : Bool} (front : List ℕ) (b : ℕ) (rest : List ℕ)
      → bs ≡ front ++ (b ∷ rest)
      → end_op log ≡ some (log', last)
      → Step log bs log' (front ++ rest)
  commits : (d : Device) → log.committing ≡ true → Step log bs (end_commit (commit log d).0) bs

pub data Reach (log : Log) (bs : List ℕ) : Log → List ℕ → Type 0 where
  here : Reach log bs log bs
  next : {u v : Log} {ps qs : List ℕ} → Reach log bs u ps → Step u ps v qs → Reach log bs v qs

begin_op-HasSpace :
    (size : ℕ) (log log' : Log) (bs : List ℕ)
    → HasSpace size log bs
    → begin_op log ≡ some log'
    → HasSpace size log' (maxopblocks ∷ bs)
unfolding begin_op
begin_op-HasSpace size log log' bs s e = record {
  open_ops = ground (arith, s.open_ops);
  within = (omega arith, s.within);
  few = ground arith;
  sized = ground (arith, s.sized);
  room = ground (arith, total-le bs s.within, s.open_ops);
  idle = λ c. absurd (ground arith);
  once = same_blocks;
}
  where
    same_blocks : (i j : ℕ) → i < log'.n → j < log'.n → log'.block i ≡ log'.block j → i ≡ j
    same_blocks i j h g c = s.once i j (ground arith) (ground arith) (ground arith)

log_write-HasSpace :
    (size : ℕ) (log : Log) (front : List ℕ) (b : ℕ) (rest : List ℕ) (x : ℕ)
    → HasSpace size log (front ++ (suc b ∷ rest))
    → ((size ≤ log.n + 1) × (log_write x log ≡ none))
      ⊎ ((log.n + 1 < size)
          × ((log' : Log) × (log_write x log ≡ some log')
              × HasSpace size log' (front ++ (b ∷ rest))))
log_write-HasSpace size log front b rest x s =
    elim (log_write-Logged x log (omega (arith, s.room, m)) (λ z. omega (arith, s.open_ops, k, z))
      s.few s.once) [
        | inl (h, e) ↦ inl (omega (arith, h, s.sized), e)
        | inr (h, (log', e, l)) ↦ inr (
          omega (arith, h, s.sized),
          (
            log',
            e,
            record {
              open_ops = omega (arith, l.same_ops, s.open_ops, k, length-middle front b rest);
              within = (Within-middle front (suc b) b rest (omega arith) s.within).0;
              few = omega (arith, l.same_ops, s.few);
              sized = omega (arith, l.same_size, s.sized);
              room = omega (arith, l.grows, s.room, m, total-middle front b rest);
              idle = λ c. absurd (not_idle (s.idle (sym l.same_phase ∙ c)));
              once = l.once;
            },
          ),
        )
      ]
  where
    m : total (front ++ (suc b ∷ rest)) ≡ suc b + total (front ++ rest)
    m = total-middle front (suc b) rest

    k : length (front ++ (suc b ∷ rest)) ≡ suc (length (front ++ rest))
    k = length-middle front (suc b) rest

    not_idle : front ++ (suc b ∷ rest) ≢ []
    not_idle e = omega (arith, length-middle front (suc b) rest, ap length e)

end_op-HasSpace :
    (size : ℕ) (log log' : Log) (last : Bool) (front : List ℕ) (b : ℕ) (rest : List ℕ)
    → HasSpace size log (front ++ (b ∷ rest))
    → end_op log ≡ some (log', last)
    → HasSpace size log' (front ++ rest)
unfolding end_op
end_op-HasSpace size log log' last front b rest s e = record {
  open_ops = ground (arith, k, s.open_ops, s.few);
  within = (Within-middle front b b rest (omega arith) s.within).1;
  few = ground (arith, k, s.open_ops, s.few);
  sized = ground (arith, s.sized);
  room = ground (arith, s.room, total-middle front b rest);
  idle = λ c. empty (front ++ rest) (ground (arith, k, s.open_ops, s.few));
  once = same_blocks;
}
  where
    k : length (front ++ (b ∷ rest)) ≡ suc (length (front ++ rest))
    k = length-middle front b rest

    empty : (xs : List ℕ) → length xs ≡ 0 → xs ≡ []
    empty [] h = refl
    empty (y ∷ xs) h = absurd (omega arith)

    same_blocks : (i j : ℕ) → i < log'.n → j < log'.n → log'.block i ≡ log'.block j → i ≡ j
    same_blocks i j h g c = s.once i j (ground arith) (ground arith) (ground arith)

commit-HasSpace :
    (size : ℕ) (log : Log) (bs : List ℕ) (d : Device)
    → HasSpace size log bs
    → log.committing ≡ true
    → HasSpace size (end_commit (commit log d).0) bs
unfolding end_commit commit
commit-HasSpace size log bs d s c = record {
  open_ops = ground (arith, s.open_ops);
  within = s.within;
  few = ground (arith, s.few);
  sized = ground (arith, s.sized);
  room = ground (arith, s.room);
  idle = λ z. absurd (ground arith);
  once = λ i j h g e. absurd (ground arith);
}

Step-HasSpace :
    (size : ℕ) (log log' : Log) (bs cs : List ℕ)
    → Step log bs log' cs
    → HasSpace size log bs
    → HasSpace size log' cs
Step-HasSpace size log log' bs _ (begins e) s = begin_op-HasSpace size log log' bs s e
Step-HasSpace size log log' bs _ (writes front b rest x q e) s =
    elim (log_write-HasSpace size log front b rest x (subst (HasSpace size log) q s)) [
      | inl (h, e0) ↦ absurd (some_none log' (sym e ∙ e0))
      | inr (h, (log1, e1, s1)) ↦
          subst (λ l. HasSpace size l (front ++ (b ∷ rest))) (same_log log1 log' (sym e1 ∙ e)) s1
    ]
  where
    some_none : (u : Log) → some u ≢ none
    some_none u p = ground arith

    same_log : (u v : Log) → some u ≡ some v → u ≡ v
    same_log u v p = ap (λ o. elim o [ none ↦ u | some w ↦ w ]) p
Step-HasSpace size log log' bs _ (ends {last} front b rest q e) s =
    end_op-HasSpace size log log' last front b rest (subst (HasSpace size log) q s) e
Step-HasSpace size log _ bs _ (commits d c) s = commit-HasSpace size log bs d s c

-- From an idle log, after any sequence of `begin_op`, of `log_write` by operations that each write at
-- most 10 blocks, of `end_op` and of commits: the logged blocks and what the open operations may
-- still write are at most 30, no block is logged twice, nobody writes during a commit, and
-- `log_write` by an operation that may still write panics exactly when the header and the
-- logged blocks fill the log, so not in a log of more than 30 blocks, and in one of 30 only with 29
-- blocks logged.
pub Reach-HasSpace :
    (log log' : Log) (bs : List ℕ)
    → (log.n ≡ 0) × (log.outstanding ≡ 0) × (log.committing ≡ false)
    → Reach log [] log' bs
    → HasSpace log.size log' bs
      × ((front : List ℕ) (b : ℕ) (rest : List ℕ) (x : ℕ)
          → bs ≡ front ++ (suc b ∷ rest)
          → ((log.size ≤ log'.n + 1) × (log_write x log' ≡ none))
            ⊎ ((log'.n + 1 < log.size)
                × ((log'' : Log) × (log_write x log' ≡ some log'')
                    × HasSpace log.size log'' (front ++ (b ∷ rest)))))
Reach-HasSpace log log' bs (n, o, c) r =
    let s = all_steps log.size log [] log' bs r (start log n o c) in
    (
      s,
      λ front b rest x q.
          log_write-HasSpace log.size log' front b rest x (subst (HasSpace log.size log') q s),
    )
  where
    start : (l : Log) → l.n ≡ 0 → l.outstanding ≡ 0 → l.committing ≡ false → HasSpace l.size l []
    start l n o c = record {
      open_ops = o;
      within = tt;
      few = omega (arith, o);
      sized = refl;
      room = omega (arith, n);
      idle = λ z. refl;
      once = λ i j h g e. absurd (omega (arith, n));
    }

    all_steps :
        (size : ℕ) (l : Log) (xs : List ℕ) (l' : Log) (ys : List ℕ)
        → Reach l xs l' ys
        → HasSpace size l xs
        → HasSpace size l' ys
    all_steps size l xs _ _ here s = s
    all_steps size l xs l' ys (next {u} {ps} q st) s =
        Step-HasSpace size u l' ps ys st (all_steps size l xs u ps q s)
