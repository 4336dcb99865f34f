-- ===== src/Directory.antt =====
-- Directories (`dirlookup` and `dirlink`; fs.c). The caller holds the lock of the directory. `iget`
-- is that of the inode cache.
pub mod Entry
pub mod Found
pub mod Reading
pub mod Lookup
pub mod Get
pub mod Vacant
pub mod Written
pub mod Placed
pub mod Link
pub mod After
pub mod Tree
mod Tests
use osassignment.Prelude.{
  ℕ, zero, suc, ◌+◌, Bool, true, false, not, ltb, ◌==◌, if◌then◌else◌, Option, none, some,
}
use osassignment.Prelude.Run.{Run, done, panics, stuck, ◌>>=◌}
use osassignment.Memory.{Mem}
use osassignment.Strings.{strncmp, strncpy}
use osassignment.Balloc.{Superblock}
use osassignment.Names.{dirsiz}
use osassignment.Icache.{Inode, iget}
use osassignment.Content.{Node, Io, failed, device, moved, readi, writei, load16, store16}

abbrev pub t_dir : ℕ
t_dir = 1

-- `sizeof(de)`
abbrev pub direntsize : ℕ
direntsize = 16

abbrev pub namecmp : Mem → ℕ → ℕ → ℕ
namecmp m s t = strncmp m s t dirsiz

-- Anything but `sizeof(de)` is a panic. A directory is no device.
unfoldable pub whole : {A : Type 0} → Io A → Run A
whole failed = panics
whole (device d) = panics
whole (moved n r) = if n == direntsize then done r else panics

-- `struct dirent de` is at `de`. A sum with `off` does not wrap: `readi` fails before that.
unfoldable pub read_entry : Superblock → (ℕ → Bool) → ℕ → ℕ → Node → Mem → Run (Node × Mem)
read_entry sb has de off dp mem = readi sb has de off direntsize dp mem >>= whole

unfoldable pub look_loop :
    ℕ → Superblock → (ℕ → Bool) → ℕ → ℕ → ℕ → Node → Mem → Run (Option (ℕ × ℕ) × Node × Mem)
look_loop zero sb has name de off dp mem = stuck
look_loop (suc f) sb has name de off dp mem =
    let round =
      (read_entry sb has de off dp mem >>= λ (dp', mem').
      let next = look_loop f sb has name de (off + direntsize) dp' mem' in
      if load16 mem' de == 0
      then next
      else if namecmp mem' name (de + 2) == 0
      then done (some (load16 mem' de, off), dp', mem')
      else next) in
    if ltb off dp.size then round else done (none, dp, mem)

-- `dirlookup` before `iget`.
unfoldable pub find_entry :
    Superblock → (ℕ → Bool) → ℕ → ℕ → Node → Mem → Run (Option (ℕ × ℕ) × Node × Mem)
find_entry sb has name de dp mem =
    if dp.kind == t_dir then look_loop (suc dp.size) sb has name de 0 dp mem else panics

-- The returns of `dirlookup`: 0; the inode at an index of the cache, and the offset of its entry.
pub data LookupResult : Type 0 where
  absent : Node → Mem → LookupResult
  found : ℕ → ℕ → Node → Mem → (ℕ → Inode) → LookupResult

unfoldable pub found_at : ℕ → Node → Mem → Option (ℕ × (ℕ → Inode)) → Run LookupResult
found_at off dp mem none = panics
found_at off dp mem (some (slot, ic)) = done (found slot off dp mem ic)

unfoldable pub get_entry : ℕ → (ℕ → Inode) → Option (ℕ × ℕ) × Node × Mem → Run LookupResult
get_entry dev ic (none, dp, mem) = done (absent dp mem)
get_entry dev ic (some (inum, off), dp, mem) = found_at off dp mem (iget dev inum ic)

-- `dev` is `dp->dev`, `ic` the cache of inodes.
unfoldable pub dirlookup :
    Superblock → (ℕ → Bool) → ℕ → ℕ → ℕ → Node → Mem → (ℕ → Inode) → Run LookupResult
dirlookup sb has dev name de dp mem ic = find_entry sb has name de dp mem >>= get_entry dev ic

-- The offset of the first empty entry, or the end.
unfoldable pub empty_loop : ℕ → Superblock → (ℕ → Bool) → ℕ → ℕ → Node → Mem → Run (ℕ × Node × Mem)
empty_loop zero sb has de off dp mem = stuck
empty_loop (suc f) sb has de off dp mem =
    let round =
      (read_entry sb has de off dp mem >>= λ (dp', mem').
      let next = empty_loop f sb has de (off + direntsize) dp' mem' in
      if load16 mem' de == 0 then done (off, dp', mem') else next) in
    if ltb off dp.size then round else done (off, dp, mem)

-- The entry is written at `off`.
unfoldable pub link_at : Superblock → (ℕ → Bool) → ℕ → ℕ → ℕ → ℕ → Node → Mem → Run Node
link_at sb has name inum de off dp mem =
    writei sb has de off direntsize (store16 (strncpy mem (de + 2) name dirsiz) de inum) dp
    >>= whole

unfoldable pub link_new : Superblock → (ℕ → Bool) → ℕ → ℕ → ℕ → Node → Mem → Run Node
link_new sb has name inum de dp mem =
    empty_loop (suc dp.size) sb has de 0 dp mem >>= λ (off, dp', mem').
    link_at sb has name inum de off dp' mem'

-- The returns of `dirlink`: -1, before `iput` of the inode that was found; 0.
pub data LinkResult : Type 0 where
  present : ℕ → Node → (ℕ → Inode) → LinkResult
  linked : Node → LinkResult

unfoldable pub after_lookup : Superblock → (ℕ → Bool) → ℕ → ℕ → ℕ → LookupResult → Run LinkResult
after_lookup sb has name inum de (found slot off dp mem ic) = done (present slot dp ic)
after_lookup sb has name inum de (absent dp mem) =
    link_new sb has name inum de dp mem >>= λ dp'. done (linked dp')

unfoldable pub dirlink :
    Superblock → (ℕ → Bool) → ℕ → ℕ → ℕ → ℕ → Node → Mem → (ℕ → Inode) → Run LinkResult
dirlink sb has dev name inum de dp mem ic =
    dirlookup sb has dev name de dp mem ic >>= after_lookup sb has name inum de
