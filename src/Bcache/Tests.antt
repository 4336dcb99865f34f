-- ===== src/Bcache/Tests.antt =====
-- A block that is read and used again, in a cache after `binit`.
use osassignment.Prelude.{ℕ, ◌+◌, ◌%◌, ◌^◌, ◌≡◌, refl, false, some, [], ◌∷◌, arith}
use osassignment.Prelude.Table.{update}
use osassignment.Bcache.{Buf, Bcache, nbuf, link_all, bget}
use osassignment.Bcache.Blocks.{System, gets, Reach, boot, next, IsCache}
use osassignment.Bcache.Steps.{Reach-IsCache}
use osassignment.Bcache.Recycle.{IsGot, bget-IsGot}

abbrev blank : ℕ → Buf
blank i = record { dev = 0; blockno = 0; refcnt = 0; valid = false; dirty = false }

abbrev booted : System
booted = record { bc = record { order = link_all nbuf; bufs = blank }; users = [] }

-- The buffer at the end of the list, 0, for block 7.
abbrev read : System
read = record {
  bc = record (booted.bc) {
    bufs =
        update blank 0 (record { dev = 1; blockno = 7; refcnt = 1; valid = false; dirty = false });
  };
  users = 0 ∷ [];
}

read-Reach : Reach read
unfolding bget link_all
read-Reach =
    next booted read (boot blank (λ i. refl) (λ i. refl))
      (gets booted 1 7 0 _ (omega arith) (omega arith) refl)

Reach-IsCache_example : IsCache read
Reach-IsCache_example = Reach-IsCache read read-Reach

abbrev again : Bcache
again = record (read.bc) {
  bufs =
      update read.bc.bufs 0
        (record (read.bc.bufs 0) { refcnt = ((read.bc.bufs 0).refcnt + 1) % 2 ^ 32 });
}

read_again : bget 1 7 read.bc ≡ some (0, again)
unfolding bget link_all update
read_again = refl

bget-IsGot_example : IsGot read 1 7 0 again
bget-IsGot_example = bget-IsGot read 1 7 0 again read-Reach read_again
