-- ===== src/Ftable.antt =====
-- The table of open files (file.c). `ftable.lock` makes each operation one step.
pub mod Counts
mod Tests
use osassignment.Prelude.{
  ℕ, zero, suc, ◌+◌, ◌-◌, ◌%◌, ◌^◌, Bool, true, false, below_one, ◌==◌, if◌then◌else◌, Option, none,
  some,
}
use osassignment.Prelude.Table.{update, find_first}

abbrev pub nfile : ℕ
nfile = 100

pub data Kind : Type 0 where
  fd_none fd_pipe fd_inode : Kind

-- `pipe` and `ip` are addresses; `ref` is an `int` as its 32 bits.
pub record File : Type 0 where
  pub kind : Kind
  pub ref : ℕ
  pub readable : Bool
  pub writable : Bool
  pub pipe : ℕ
  pub ip : ℕ
  pub off : ℕ

abbrev pub is_free_file : File → Bool
is_free_file f = f.ref == 0

abbrev pub take_slot : (ℕ → File) → Option ℕ → Option ℕ × (ℕ → File)
take_slot ft none = (none, ft)
take_slot ft (some i) = (some i, update ft i (record (ft i) { ref = 1 }))

unfoldable pub filealloc : (ℕ → File) → Option ℕ × (ℕ → File)
filealloc ft = take_slot ft (find_first is_free_file ft 0 nfile)

-- none: panic.
unfoldable pub filedup : ℕ → (ℕ → File) → Option (ℕ → File)
filedup i ft =
    if below_one (ft i).ref
    then none
    else some (update ft i (record (ft i) { ref = ((ft i).ref + 1) % 2 ^ 32 }))

-- What `fileclose` does with the copy `ff`.
pub data Effect : Type 0 where
  nothing : Effect
  closes_pipe : (pipe : ℕ) (writable : Bool) → Effect
  puts_inode : (ip : ℕ) → Effect

abbrev pub release_of : File → Kind → Effect
release_of f fd_none = nothing
release_of f fd_pipe = closes_pipe f.pipe f.writable
release_of f fd_inode = puts_inode f.ip

unfoldable pub fileclose : ℕ → (ℕ → File) → Option ((ℕ → File) × Effect)
fileclose i ft =
    let f = ft i in
    let r = (f.ref + (2 ^ 32 - 1)) % 2 ^ 32 in
    if below_one f.ref
    then none
    else if below_one r
    then some (update ft i (record f { ref = 0; kind = fd_none }), release_of f f.kind)
    else some (update ft i (record f { ref = r }), nothing)
