-- ===== src/Ftable/Tests.antt =====
-- A file that two descriptors share.
use osassignment.Prelude.{ℕ, ◌<◌, refl, true, false, [], ◌∷◌, arith}
use osassignment.Prelude.Table.{update, find_first}
use osassignment.Prelude.Count.{count}
use osassignment.Ftable.{File, fd_none, fd_inode, filealloc, filedup}
use osassignment.Ftable.Counts.{
  System, alloc, sets, dup, Reach, boot, next, set_fields, IsCounted, Reach-IsCounted,
}

abbrev unused : ℕ → File
unused i = record {
  kind = fd_none;
  ref = 0;
  readable = false;
  writable = false;
  pipe = 0;
  ip = 0;
  off = 0;
}

abbrev opened : System
opened = record { files = update unused 0 (record (unused 0) { ref = 1 }); holders = 0 ∷ [] }

abbrev with_inode : System
with_inode = record opened {
  files = update opened.files 0 (set_fields (opened.files 0) fd_inode true false 0 7 0);
}

abbrev shared : System
shared = record {
  files = update with_inode.files 0 (record (with_inode.files 0) { ref = 2 });
  holders = 0 ∷ 0 ∷ [];
}

shared-Reach : Reach shared
unfolding filealloc filedup count update find_first
shared-Reach =
    next with_inode shared
      (next opened with_inode
        (next (record { files = unused; holders = [] }) opened (boot unused (λ i. refl))
          (alloc _ 0 _ refl))
        (sets opened 0 fd_inode true false 0 7 0 (omega arith)))
      (dup with_inode 0 _ (omega arith) (omega arith) refl)

Reach-IsCounted_example : IsCounted shared
Reach-IsCounted_example = Reach-IsCounted shared shared-Reach

shared-held : 0 < count 0 shared.holders
unfolding count
shared-held = omega arith
