-- ===== src/Content/Tests.antt =====
-- A file of one block on a disk of 20 blocks, of which the first 10 are in use.
use osassignment.Prelude.{
  min, ◌-◌, ℕ, zero, suc, ◌+◌, ◌%◌, ◌≤◌, ◌<◌, ◌≡◌, refl, sym, subst, true, false, ◌==◌,
  if◌then◌else◌, arith, ℕ_discrete,
}
use osassignment.Prelude.Bits.{test_bit}
use osassignment.Prelude.Run.{Ensures}
use osassignment.Memory.{Mem}
use osassignment.Balloc.Tests.{sb, disk}
use osassignment.Balloc.Bitmap.{in_use}
use osassignment.Content.{Node, readi, writei, iupdate}
use osassignment.Content.Store.{IsDinode}
use osassignment.Content.Owned.{Layout, own, IsData, IsNode}
use osassignment.Content.Map.{FullOn, Needs}
use osassignment.Content.Dinode.{IsUpdated, iupdate-IsUpdated}
use osassignment.Content.Write.{WriteiOf, writei-WriteiOf}
use osassignment.Content.Read.{ReadiOf, readi-ReadiOf}

abbrev pub file : Node
file = record {
  disk = disk;
  inum = 1;
  kind = 2;
  major = 0;
  minor = 0;
  nlink = 1;
  size = 100;
  addrs = λ k. if k == 0 then 9 else 0;
}

abbrev memory : Mem
memory a = 65 + a % 26

pub sb-Layout : Layout sb
sb-Layout = record { starts = omega arith; room = omega arith; words = omega arith }

pub file-IsDinode : IsDinode file
file-IsDinode = record {
  kind_fits = omega arith;
  major_fits = omega arith;
  minor_fits = omega arith;
  nlink_fits = omega arith;
  size_fits = omega arith;
  addrs_fit = λ k le. ground arith;
}

first_used : (b : ℕ) → b < 4 → in_use sb disk b ≡ true
unfolding test_bit
first_used zero lt = refl
first_used (suc zero) lt = refl
first_used (suc (suc zero)) lt = refl
first_used (suc (suc (suc zero))) lt = refl
first_used (suc (suc (suc (suc b)))) lt = absurd (omega arith)

own-file : (k : ℕ) → own file k ≡ (if k == 0 then 9 else 0)
unfolding own
own-file k = ground arith

last_used : IsData sb disk 9
unfolding test_bit
last_used = (omega arith, omega arith, refl)

pub file-IsNode : IsNode sb file
file-IsNode = record {
  meta = λ b lt. first_used b lt;
  owned = λ k le ne. elim (ℕ_discrete (own file k) 9) [
    | yes e ↦ subst (IsData sb disk) (sym e) last_used
    | no other ↦ ground (arith, own-file k, ne, other)
  ];
  apart = λ j k hj hk ne e. ground (arith, own-file j, own-file k, ne, e);
}

-- The first block of the file is there, so this disk is never full for its bytes.
file_room : (off n : ℕ) → off + n ≤ 512 → ¬ (FullOn sb (Needs off n) file)
file_room off n le (f, ip', k, q, full, (x, lo, hi, at), small, z) = omega (
  arith,
  at,
  z,
  q.kept 0 (omega arith) (λ e. omega (arith, own-file 0, e)),
  own-file 0,
  subst (λ j. own ip' j ≡ 0) {x = k} {y = 0} (omega (arith, at)) z,
)

writei-WriteiOf_example :
    Ensures
      (FullOn sb (Needs 90 20) file)
      (WriteiOf sb (λ d. false) 1000 90 20 memory file)
      (writei sb (λ d. false) 1000 90 20 memory file)
writei-WriteiOf_example =
    writei-WriteiOf sb (λ d. false) 1000 90 20 memory file sb-Layout (omega arith) file-IsDinode
      file-IsNode (omega arith) (omega arith)

readi-ReadiOf_example :
    Ensures
      (FullOn sb (Needs 90 (min 20 (100 - 90))) file)
      (ReadiOf sb (λ d. false) 1000 90 20 file memory)
      (readi sb (λ d. false) 1000 90 20 file memory)
readi-ReadiOf_example =
    readi-ReadiOf sb (λ d. false) 1000 90 20 file memory sb-Layout file-IsNode (omega arith)
      (omega arith) (omega arith)

iupdate-IsUpdated_example : IsUpdated sb file (iupdate sb file).disk
iupdate-IsUpdated_example = iupdate-IsUpdated sb file file-IsDinode
