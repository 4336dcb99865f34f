-- ===== src/Names.antt =====
-- Path names (`skipelem`, `namex`, `namei`, `nameiparent` of fs.c). A path is the list of its bytes
-- before NUL, a name that of its bytes up to NUL or `DIRSIZ`.
pub mod Elements
pub mod Walk
pub mod Balance
mod Tests
use osassignment.Prelude.{
  ℕ, zero, suc, ◌+◌, Bool, true, false, not, ◌&&◌, ◌==◌, if◌then◌else◌, Option, none, some, List,
  [], ◌∷◌, ◌++◌, take, length,
}

abbrev pub dirsiz : ℕ
dirsiz = 14

abbrev pub rootino : ℕ
rootino = 1

abbrev pub is_slash : ℕ → Bool
is_slash c = c == b'/'

unfoldable pub drop_slashes : List ℕ → List ℕ
drop_slashes [] = []
drop_slashes (c ∷ s) = if is_slash c then drop_slashes s else c ∷ s

-- The bytes from `s` to the end of the element, and what is behind it.
unfoldable pub element : List ℕ → List ℕ × List ℕ
element [] = ([], [])
element (c ∷ s) = let (w, rest) = element s in if is_slash c then ([], c ∷ s) else (c ∷ w, rest)

abbrev pub after_slashes : List ℕ → Option (List ℕ × List ℕ)
after_slashes [] = none
after_slashes (c ∷ s) = let (w, rest) = element (c ∷ s) in some (take dirsiz w, drop_slashes rest)

-- The name and the path behind it; none for 0.
unfoldable pub skipelem : List ℕ → Option (List ℕ × List ℕ)
unfolding drop_slashes element
skipelem path = after_slashes (drop_slashes path)

-- The directories: whether an inode is one (`T_DIR`), and the inode that `dirlookup` finds in it.
pub record Dirs : Type 0 where
  pub is_dir : ℕ → Bool
  pub dirlookup : ℕ → List ℕ → Option ℕ

-- What a lookup does to inodes: a reference more (`iget`, `idup`) or less (`iput`), and the lock.
pub data Event : Type 0 where
  gets puts locks unlocks : ℕ → Event

-- The result (none for 0), `name`, and the events.
pub record Found : Type 0 where
  pub result : Option ℕ
  pub name : List ℕ
  pub events : List Event

abbrev pub stops : Option ℕ → List ℕ → List Event → Found
stops r name es = record { result = r; name = name; events = es }

abbrev pub after_events : List Event → Option Found → Option Found
after_events es none = none
after_events es (some f) = some (record f { events = es ++ f.events })

abbrev pub is_empty : List ℕ → Bool
is_empty [] = true
is_empty (c ∷ s) = false

-- `iunlockput`
abbrev pub unlockput : ℕ → List Event
unlockput ip = unlocks ip ∷ puts ip ∷ []

-- The loop of `namex` behind `ilock`, with the rest of the loop for the next inode.
abbrev pub enter : Dirs → Bool → ℕ → List ℕ → List ℕ → (ℕ → Option Found) → Option ℕ → Option Found
enter d parent ip name path rest next =
    if not (d.is_dir ip)
    then some (stops none name (locks ip ∷ unlockput ip))
    else if parent && is_empty path
    then some (stops (some ip) name (locks ip ∷ unlocks ip ∷ []))
    else elim next [
      | none ↦ some (stops none name (locks ip ∷ unlockput ip))
      | some n ↦ after_events (locks ip ∷ gets n ∷ unlockput ip) (rest n)
    ]

abbrev pub ends : Bool → ℕ → List ℕ → Found
ends parent ip name = if parent then stops none name (puts ip ∷ []) else stops (some ip) name []

abbrev pub elem_step :
    Dirs
    → Bool
    → ℕ
    → List ℕ
    → (List ℕ → List ℕ → ℕ → Option Found)
    → Option (List ℕ × List ℕ)
    → Option Found
elem_step d parent ip name rest none = some (ends parent ip name)
elem_step d parent ip name rest (some (elem, path)) =
    enter d parent ip elem path (rest elem path) (d.dirlookup ip elem)

-- With fuel for the elements; none when it runs out.
unfoldable pub walk_path : ℕ → Dirs → Bool → ℕ → List ℕ → List ℕ → Option Found
unfolding skipelem
walk_path zero d parent ip name path = none
walk_path (suc n) d parent ip name path =
    elem_step d parent ip name (λ elem rest next. walk_path n d parent next elem rest)
      (skipelem path)

abbrev pub starts_at_root : List ℕ → Bool
starts_at_root [] = false
starts_at_root (c ∷ s) = is_slash c

-- `name` is uninitialised before the first element.
unfoldable pub namex : ℕ → Dirs → Bool → ℕ → List ℕ → List ℕ → Option Found
unfolding walk_path
namex n d parent cwd name path =
    let start = if starts_at_root path then rootino else cwd in
    after_events (gets start ∷ []) (walk_path n d parent start name path)
