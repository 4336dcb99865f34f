-- ===== src/Pipe.antt =====
-- Pipes (pipe.c). `p->lock` is held from one `sleep` to the next, so what happens between them is one
-- step. `killed` is that of the calling process.
pub mod Contents
pub mod Write
pub mod Read
pub mod Fifo
mod Tests
use osassignment.Prelude.{
  ℕ, zero, suc, ◌+◌, ◌%◌, ◌^◌, Bool, true, false, not, ◌&&◌, ◌||◌, ◌==◌, if◌then◌else◌, List, [],
  ◌∷◌,
}
use osassignment.Memory.{Mem, write}

abbrev pub pipesize : ℕ
pipesize = 512

-- `data` by index below `pipesize`.
pub record Pipe : Type 0 where
  pub bytes : Mem
  pub nread : ℕ
  pub nwrite : ℕ
  pub readopen : ℕ
  pub writeopen : ℕ

-- The two channels that processes sleep on: `&p->nread` and `&p->nwrite`.
pub data Chan : Type 0 where
  at_nread at_nwrite : Chan

-- The part of `pipealloc` that sets up a page with any bytes in it.
unfoldable pub new_pipe : Mem → Pipe
new_pipe page = record { bytes = page; nread = 0; nwrite = 0; readopen = 1; writeopen = 1 }

-- The pipe, the channel that is woken, and whether the page is freed.
unfoldable pub pipeclose : Pipe → Bool → Pipe × Chan × Bool
pipeclose p writable =
    let q = if writable then record p { writeopen = 0 } else record p { readopen = 0 } in
    (q, (if writable then at_nread else at_nwrite), (q.readopen == 0 && (q.writeopen == 0)))

abbrev pub is_full : Pipe → Bool
is_full p = p.nwrite == (p.nread + pipesize) % 2 ^ 32

-- `p->data[p->nwrite++ % PIPESIZE] = b`
unfoldable pub put : Pipe → ℕ → Pipe
put p b = record p {
  bytes = write p.bytes (p.nwrite % pipesize) b;
  nwrite = (p.nwrite + 1) % 2 ^ 32;
}

-- Each with `i`: the return of n, the return of -1, and a sleep on `&p->nwrite`. The first and the
-- last wake `&p->nread` before.
pub data Written : Type 0 where
  wrote : Pipe → ℕ → Written
  broken : Pipe → ℕ → Written
  write_sleeps : Pipe → ℕ → Written

-- From `i` on, with the bytes `addr[i]` to `addr[n - 1]`.
unfoldable pub pipewrite : ℕ → List ℕ → ℕ → Pipe → Written
unfolding put
pipewrite killed [] i p = wrote p i
pipewrite killed (b ∷ bs) i p =
    let rest = pipewrite killed bs (i + 1) (put p b) in
    if is_full p
    then (if p.readopen == 0 || not (killed == 0) then broken p i else write_sleeps p i)
    else rest

-- `p->data[p->nread++ % PIPESIZE]`, the byte and the counter.
unfoldable pub get : Pipe → ℕ × Pipe
get p = (p.bytes (p.nread % pipesize), record p { nread = (p.nread + 1) % 2 ^ 32 })

-- The copy loop of `piperead`, with `n` rounds to go.
unfoldable pub read_bytes : ℕ → Pipe → List ℕ × Pipe
unfolding get
read_bytes zero p = ([], p)
read_bytes (suc n) p =
    let (b, q) = get p in
    let (bs, r) = read_bytes n q in if p.nread == p.nwrite then ([], p) else (b ∷ bs, r)

-- The bytes that are read, with a wakeup of `&p->nwrite`; the return of -1; a sleep on `&p->nread`.
pub data ReadResult : Type 0 where
  got : List ℕ → Pipe → ReadResult
  read_killed : ReadResult
  read_sleeps : ReadResult

unfoldable pub piperead : ℕ → ℕ → Pipe → ReadResult
unfolding read_bytes
piperead killed n p =
    if p.nread == p.nwrite && not (p.writeopen == 0)
    then (if not (killed == 0) then read_killed else read_sleeps)
    else (let (bs, q) = read_bytes n p in got bs q)
