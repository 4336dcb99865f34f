-- ===== src/Directory/Tree.antt =====
-- The directories on a disk, as a path lookup sees them.
use osassignment.Prelude.{
  ℕ, zero, suc, ◌+◌, ◌*◌, ◌/◌, ◌%◌, ◌≤◌, ◌<◌, ◌≡◌, ◌⊎◌, ◌↔◌, inl, inr, refl, sym, ap, ◌∙◌, subst,
  Bool, true, ◌==◌, if◌then◌else◌, arith, ℕ_discrete, ==_iff, ==_ne, Bool-cases, Option, none, some,
  List, [], ◌∷◌,
}
use osassignment.Prelude.Bits.{check_below, checked_below}
use osassignment.Prelude.Run.{Ensures, Ensures-weaken}
use osassignment.Memory.{Mem}
use osassignment.Balloc.{bsize, Superblock}
use osassignment.Strings.Copy.{padded}
use osassignment.Names.{dirsiz, Dirs}
use osassignment.Content.{Node, load16, maxfile}
use osassignment.Content.Owned.{Layout, byte}
use osassignment.Content.Map.{Needs}
use osassignment.Icache.{Inode}
use osassignment.Directory.After.{looked_inum}
use osassignment.Directory.{t_dir, direntsize, dirlookup, LookupResult, absent, found}
use osassignment.Directory.Entry.{SameString, IsEntry}
use osassignment.Directory.Found.{FoundFrom, found_inum}
use osassignment.Directory.Reading.{IsDirectory}
use osassignment.Directory.Get.{LookupOf, NoLookup, lookup-LookupOf}

-- Byte `j` of a name, or 0 behind its end.
abbrev pub name_byte : List ℕ → ℕ → ℕ
name_byte [] j = 0
name_byte (c ∷ s) zero = c
name_byte (c ∷ s) (suc j) = name_byte s j

-- The name is at `a`.
abbrev pub NameAt : Mem → ℕ → List ℕ → Type 0
NameAt mem a name = (j : ℕ) → j < dirsiz → padded mem a j ≡ name_byte name j

abbrev pub has_name : (ℕ → ℕ) → ℕ → List ℕ → Bool
has_name f off name = check_below dirsiz (λ j. padded f off j == name_byte name j)

-- The inode number of the first entry with the name, of `n` entries of the content `f` from `off` on.
unfoldable pub search : ℕ → (ℕ → ℕ) → ℕ → List ℕ → Option ℕ
search zero f off name = none
search (suc n) f off name =
    let rest = search n f (off + direntsize) name in
    if load16 f off == 0
    then rest
    else if has_name f (off + 2) name
    then some (load16 f off)
    else rest

-- The directories among the inodes `nodes`.
abbrev pub dirs_of : (ℕ → Node) → Dirs
dirs_of nodes = record {
  is_dir = λ i. (nodes i).kind == t_dir;
  dirlookup = λ i name. search ((nodes i).size / direntsize) (byte (nodes i)) 0 name;
}

check_all :
    (k : ℕ) (test : ℕ → Bool) → ((n : ℕ) → n < k → test n ≡ true) → check_below k test ≡ true
unfolding check_below
check_all zero test h = refl
check_all (suc k) test h =
    ground (arith, check_all k test (λ n lt. h n (omega arith)), h k (omega arith))

has_name-SameString :
    (f : ℕ → ℕ) (off : ℕ) (mem : Mem) (a : ℕ) (name : List ℕ)
    → NameAt mem a name
    → (has_name f off name ≡ true) ↔ SameString dirsiz mem a f off
has_name-SameString f off mem a name at = (
  λ h j lt.
      at j lt
      ∙ sym ((==_iff (padded f off j) (name_byte name j)).0 (checked_below dirsiz _ j h lt)),
  λ h.
      check_all dirsiz _
        (λ j lt. (==_iff (padded f off j) (name_byte name j)).1 (sym (h j lt) ∙ at j lt)),
)

-- The entry at `off` is not the one.
FoundFrom-rest :
    (f : ℕ → ℕ) (size : ℕ) (mem : Mem) (a off : ℕ) (r : Option (ℕ × ℕ))
    → off % direntsize ≡ 0
    → ¬ (IsEntry f off mem a)
    → FoundFrom f size mem a off r
    → FoundFrom f size mem a (off + direntsize) r
FoundFrom-rest f size mem a off none al no_entry h = λ y le lt even e. h y (omega arith) lt even e
FoundFrom-rest f size mem a off (some (i, o)) al no_entry (le, lt, even, at, here, before) =
    elim (ℕ_discrete off o) [
      | yes e ↦ absurd (no_entry (subst (λ z. IsEntry f z mem a) (sym e) here))
      | no ne ↦ (
        omega arith,
        lt,
        even,
        at,
        here,
        λ y from below aligned e. before y (omega arith) below aligned e,
      )
    ]

FoundFrom-here :
    (f : ℕ → ℕ) (size : ℕ) (mem : Mem) (a off : ℕ) (r : Option (ℕ × ℕ))
    → off % direntsize ≡ 0
    → off < size
    → IsEntry f off mem a
    → FoundFrom f size mem a off r
    → found_inum r ≡ some (load16 f off)
FoundFrom-here f size mem a off none al inside entry h =
    absurd (h off (omega arith) inside al entry)
FoundFrom-here f size mem a off (some (i, o)) al inside entry (le, lt, even, at, here, before) =
    elim (ℕ_discrete off o) [
      | yes e ↦ ap some (at ∙ ap (load16 f) (sym e))
      | no ne ↦ absurd (before off (omega arith) (omega arith) al entry)
    ]

search-FoundFrom :
    (n : ℕ) (f : ℕ → ℕ) (size : ℕ) (mem : Mem) (a : ℕ) (name : List ℕ) (off : ℕ)
    (r : Option (ℕ × ℕ))
    → NameAt mem a name
    → off % direntsize ≡ 0
    → off + n * direntsize ≡ size
    → FoundFrom f size mem a off r
    → found_inum r ≡ search n f off name
unfolding search
search-FoundFrom zero f size mem a name off none named al end h = refl
search-FoundFrom zero f size mem a name off (some (i, o)) named al end
      (le, lt, even, at, here, before) =
    absurd (omega arith)
search-FoundFrom (suc n) f size mem a name off r named al end h =
    let (there, back) = has_name-SameString f (off + 2) mem a name named in
    let rest : ¬ (IsEntry f off mem a) → found_inum r ≡ search n f (off + direntsize) name =
      λ no_entry.
        search-FoundFrom n f size mem a name (off + direntsize) r named (omega arith) (omega arith)
          (FoundFrom-rest f size mem a off r al no_entry h) in
    elim (ℕ_discrete (load16 f off) 0) [
      | yes z ↦ rw z (rest (λ e. e.0 z))
      | no nz ↦ rw (==_ne _ 0 nz) (elim (Bool-cases (has_name f (off + 2) name)) [
        | inl same ↦ rw same (FoundFrom-here f size mem a off r al (omega arith) (nz, there same) h)
        | inr differs ↦ rw differs (rest (λ e. ground (arith, back e.1, differs)))
      ])
    ]

-- As for `dirlookup`: the number of the inode that it returns, if any, is the one that `namex` takes
-- it to find, with the directories `dirs_of` that the contents of the inodes make. It panics only as
-- `dirlookup` does: apart from `log_write`, at a hole of the directory on a disk that is full with at
-- most its holes filled, or without room in the inode cache for an inode of that name.
pub dirlookup-Dirs :
    (sb : Superblock) (has : ℕ → Bool) (dev a de : ℕ) (nodes : ℕ → Node) (i : ℕ) (mem : Mem)
    (ic : ℕ → Inode) (name : List ℕ)
    → Layout sb
    → (a + dirsiz ≤ de) ⊎ (de + direntsize ≤ a)
    → IsDirectory sb (nodes i)
    → ((x : ℕ) → x < maxfile * bsize → byte (nodes i) x < 256)
    → ((x : ℕ) → mem x < 256)
    → NameAt mem a name
    → Ensures
        (NoLookup sb (Needs 0 (nodes i).size) dev a (nodes i) mem ic)
        (λ r. looked_inum r ≡ (dirs_of nodes).dirlookup i name)
        (dirlookup sb has dev a de (nodes i) mem ic)
dirlookup-Dirs sb has dev a de nodes i mem ic name l apart w content bytes named =
    Ensures-weaken (NoLookup sb (Needs 0 (nodes i).size) dev a (nodes i) mem ic)
      (NoLookup sb (Needs 0 (nodes i).size) dev a (nodes i) mem ic)
      (LookupOf sb (Needs 0 (nodes i).size) dev a de (nodes i) mem ic) _ _
      (lookup-LookupOf sb (Needs 0 (nodes i).size) has dev a de ic (nodes i) mem l apart w content
        bytes (λ k h. h))
      (λ why. why) is_found
  where
    is_found :
        (r : LookupResult)
        → LookupOf sb (Needs 0 (nodes i).size) dev a de (nodes i) mem ic r
        → looked_inum r ≡ (dirs_of nodes).dirlookup i name
    is_found (absent d m) q =
        search-FoundFrom ((nodes i).size / direntsize) (byte (nodes i)) (nodes i).size mem a name 0
          none named (omega arith) (omega (arith, w.entries)) q.0
    is_found (found slot o d m c) q =
        search-FoundFrom ((nodes i).size / direntsize) (byte (nodes i)) (nodes i).size mem a name 0
          (some ((c slot).inum, o)) named (omega arith) (omega (arith, w.entries)) q.0.0
