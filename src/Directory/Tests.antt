-- ===== src/Directory/Tests.antt =====
-- A directory of one entry, on a disk of 20 blocks of which the first 10 are in use.
use osassignment.Prelude.{
  ℕ, zero, suc, ◌≤◌, List, [], ◌∷◌, ◌*◌, ◌<◌, ◌≡◌, inl, refl, subst, false, ◌==◌, if◌then◌else◌,
  arith, some,
}
use osassignment.Prelude.Table.{update}
use osassignment.Prelude.Run.{Run, done, panics, stuck, Ensures}
use osassignment.Memory.{Mem, write}
use osassignment.Strings.{strncmp}
use osassignment.Balloc.{bsize}
use osassignment.Content.{
  maxfile, Node, readi, writei, read_loop, write_loop, bmap, map_addr, copy_bytes, load16,
}
use osassignment.Balloc.Tests.{sb}
use osassignment.Content.Tests.{file, sb-Layout, file-IsDinode, file-IsNode}
use osassignment.Content.Owned.{IsNode-same, own, byte}
use osassignment.Content.Map.{Needs, FullOn}
use osassignment.Icache.{Inode, iget, scan}
use osassignment.Content.Store.{IsDinode}
use osassignment.Directory.{
  find_entry, get_entry, found_at, dirlookup, dirlink, LinkResult, linked, present, look_loop,
  empty_loop, read_entry, whole, link_at, link_new, after_lookup,
}
use osassignment.Directory.Reading.{IsDirectory}
use osassignment.Directory.Get.{LookupOf, NoLookup, dirlookup-LookupOf}
use osassignment.Strings.Copy.{padded}
use osassignment.Directory.Tree.{NameAt, dirs_of, dirlookup-Dirs}
use osassignment.Directory.After.{looked_inum, dirlookup-dirlink}

abbrev directory : Node
directory = record file { kind = 1; size = 16 }

-- The name at 100 is "AB".
abbrev memory : Mem
memory a = if a == 100 then 65 else if a == 101 then 66 else 0

directory-IsDinode : IsDinode directory
directory-IsDinode = record {
  kind_fits = omega arith;
  major_fits = file-IsDinode.major_fits;
  minor_fits = file-IsDinode.minor_fits;
  nlink_fits = file-IsDinode.nlink_fits;
  size_fits = omega arith;
  addrs_fit = file-IsDinode.addrs_fit;
}

own-directory : (k : ℕ) → own directory k ≡ own file k
unfolding own
own-directory k = refl

directory-IsDirectory : IsDirectory sb directory
directory-IsDirectory = record {
  node =
      IsNode-same sb file directory sb-Layout file-IsNode (λ k le. own-directory k) (λ b lt. refl);
  kind_dir = refl;
  small = omega arith;
  entries = omega arith;
}

directory_bytes : (x : ℕ) → x < maxfile * bsize → byte directory x < 256
unfolding byte own
directory_bytes x lt = ground arith

memory_bytes : (x : ℕ) → memory x < 256
memory_bytes x = ground arith

directory_room : ¬ (FullOn sb (Needs 0 16) directory)
unfolding own
directory_room (f, ip', k, q, full, (x, lo, hi, at), small, z) = omega (
  arith,
  q.kept 0 (omega arith) (λ e. omega (arith, e)),
  subst (λ j. own ip' j ≡ 0) {x = k} {y = 0} (omega (arith, at)) z,
)

abbrev no_inodes : ℕ → Inode
no_inodes i = record { dev = 0; inum = 0; ref = 0; valid = false; kind = 0; nlink = 0; size = 0 }

dirlookup-LookupOf_example :
    Ensures
      (NoLookup sb (Needs 0 16) 1 100 directory memory no_inodes)
      (LookupOf sb (Needs 0 16) 1 100 200 directory memory no_inodes)
      (dirlookup sb (λ d. false) 1 100 200 directory memory no_inodes)
dirlookup-LookupOf_example =
    dirlookup-LookupOf sb (λ d. false) 1 100 200 directory memory no_inodes sb-Layout
      (inl (omega arith)) directory-IsDirectory directory_bytes memory_bytes

abbrev linked_directory : Run LinkResult → Node
linked_directory (done (linked dp)) = dp
linked_directory (done (present i dp ic)) = dp
linked_directory panics = directory
linked_directory stuck = directory

abbrev after_link : Node
after_link = linked_directory (dirlink sb (λ d. false) 1 100 5 200 directory memory no_inodes)

link_run : dirlink sb (λ d. false) 1 100 5 200 directory memory no_inodes ≡ done (linked after_link)
unfolding dirlink dirlookup find_entry get_entry found_at iget scan look_loop empty_loop read_entry
    whole link_at link_new after_lookup readi writei read_loop write_loop bmap map_addr load16
    copy_bytes write update strncmp
link_run = refl

dirlookup-dirlink_example :
    Ensures
      (NoLookup sb (Needs 0 after_link.size) 1 100 after_link memory no_inodes)
      (λ r. looked_inum r ≡ some 5)
      (dirlookup sb (λ d. false) 1 100 200 after_link memory no_inodes)
dirlookup-dirlink_example =
    dirlookup-dirlink sb (λ d. false) 100 5 200 sb-Layout (inl (omega arith)) (omega arith)
      (omega arith) 1 directory after_link memory no_inodes no_inodes (omega arith)
      directory-IsDinode directory-IsDirectory directory_bytes memory_bytes link_run

abbrev a_name : List ℕ
a_name = 65 ∷ 66 ∷ []

padded_end : (j x : ℕ) → 102 ≤ x → padded memory x j ≡ 0
padded_end zero x le = ground (arith, le)
padded_end (suc j) x le = ground (arith, le)

a_name-NameAt : NameAt memory 100 a_name
a_name-NameAt zero lt = refl
a_name-NameAt (suc zero) lt = refl
a_name-NameAt (suc (suc j)) lt = padded_end j 102 (omega arith)

dirlookup-Dirs_example :
    Ensures
      (NoLookup sb (Needs 0 16) 1 100 directory memory no_inodes)
      (λ r. looked_inum r ≡ (dirs_of (λ i. directory)).dirlookup 1 a_name)
      (dirlookup sb (λ d. false) 1 100 200 directory memory no_inodes)
dirlookup-Dirs_example =
    dirlookup-Dirs sb (λ d. false) 1 100 200 (λ i. directory) 1 memory no_inodes a_name sb-Layout
      (inl (omega arith)) directory-IsDirectory directory_bytes memory_bytes a_name-NameAt
