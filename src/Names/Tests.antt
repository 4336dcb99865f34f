-- ===== src/Names/Tests.antt =====
-- Lookups of `/a/b` and `a//b/` in a tree where the root is 1, its `a` is 2 and the `b` of that is 3.
use osassignment.Prelude.{
  ℕ, ◌≡◌, refl, true, false, ◌&&◌, ◌||◌, ◌==◌, if◌then◌else◌, none, some, List, [], ◌∷◌, arith,
}
use osassignment.Names.{Dirs, stops, gets, puts, locks, unlocks, namex, starts_at_root, rootino}
use osassignment.Names.Elements.{elements}
use osassignment.Names.Walk.{FindsFrom, namex-FindsFrom}
use osassignment.Names.Balance.{OwnsResult, namex-OwnsResult}

abbrev first_byte : List ℕ → ℕ
first_byte [] = 0
first_byte (c ∷ s) = c

abbrev tree : Dirs
tree = record {
  is_dir = λ ip. (ip == 1) || (ip == 2);
  dirlookup = λ ip name.
      if (ip == 1) && (first_byte name == b'a')
      then some 2
      else if (ip == 2) && (first_byte name == b'b')
      then some 3
      else none;
}

abbrev rooted : List ℕ
rooted = b'/' ∷ b'a' ∷ b'/' ∷ b'b' ∷ []

abbrev relative : List ℕ
relative = b'a' ∷ b'/' ∷ b'/' ∷ b'b' ∷ b'/' ∷ []

namex-rooted :
    namex 5 tree false 2 [] rooted
    ≡ some (
        stops (some 3) (b'b' ∷ []) (
          gets 1
          ∷ locks 1
          ∷ gets 2
          ∷ unlocks 1
          ∷ puts 1
          ∷ locks 2
          ∷ gets 3
          ∷ unlocks 2
          ∷ puts 2
          ∷ []))
unfolding namex
namex-rooted = refl

namex_parent :
    namex 6 tree true 1 [] relative
    ≡ some (
        stops
          (some 2)
          (b'b' ∷ [])
          (gets 1 ∷ locks 1 ∷ gets 2 ∷ unlocks 1 ∷ puts 1 ∷ locks 2 ∷ unlocks 2 ∷ []))
unfolding namex
namex_parent = refl

namex-FindsFrom_example :
    FindsFrom tree true
      (if starts_at_root relative then rootino else 1)
      (elements relative)
      (namex 6 tree true 1 [] relative)
namex-FindsFrom_example = namex-FindsFrom 6 tree true 1 [] relative (omega arith)

namex-OwnsResult_example : OwnsResult (namex 6 tree true 1 [] relative)
namex-OwnsResult_example = namex-OwnsResult 6 tree true 1 [] relative (omega arith)
