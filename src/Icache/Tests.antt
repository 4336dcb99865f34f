-- ===== src/Icache/Tests.antt =====
-- Two references to the root directory.
use osassignment.Prelude.{ℕ, refl, false, [], ◌∷◌, arith}
use osassignment.Prelude.Table.{update}
use osassignment.Prelude.Count.{count}
use osassignment.Icache.{Inode, scan, bump, iget}
use osassignment.Icache.System.{System, get, dup, Reach, boot, next, WellFormed}
use osassignment.Icache.Unique.{Reach-WellFormed}

abbrev unused : ℕ → Inode
unused i = record { dev = 0; inum = 0; ref = 0; valid = false; kind = 0; nlink = 0; size = 0 }

abbrev opened : System
opened = record {
  inodes = update unused 0 (record (unused 0) { dev = 1; inum = 1; ref = 1; valid = false });
  holders = 0 ∷ [];
}

abbrev shared : System
shared = record { inodes = bump 0 opened.inodes; holders = 0 ∷ 0 ∷ [] }

shared-Reach : Reach shared
unfolding iget scan count update
shared-Reach =
    next opened shared
      (next (record { inodes = unused; holders = [] }) opened (boot unused (λ i. refl))
        (get _ 1 1 0 _ (omega arith) refl))
      (dup opened 0 (omega arith) (omega arith))

Reach-WellFormed_example : WellFormed shared
Reach-WellFormed_example = Reach-WellFormed shared shared-Reach
