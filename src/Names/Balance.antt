-- ===== src/Names/Balance.antt =====
-- The references and locks that a lookup leaves behind.
use osassignment.Prelude.{
  ◌<◌, length, ℕ, zero, suc, ◌+◌, ◌≡◌, refl, Bool, true, false, ◌&&◌, ◌==◌, if◌then◌else◌, Option,
  none, some, List, [], ◌∷◌, Bool-cases, ==_refl, inl, inr, arith,
}
use osassignment.Names.Elements.{elements}
use osassignment.Names.Walk.{FindsFrom, walk_path-FindsFrom}
use osassignment.Names.{
  skipelem, is_empty, Dirs, Event, Found, stops, after_events, unlockput, enter, elem_step,
  walk_path, namex, starts_at_root, rootino, locks, gets, puts, unlocks,
}

abbrev pub hit : ℕ → ℕ → ℕ
hit i j = if i == j then 1 else 0

-- How often the events do it to the inode `j`.
unfoldable pub gets_of : ℕ → List Event → ℕ
gets_of j [] = 0
gets_of j (gets i ∷ es) = hit i j + gets_of j es
gets_of j (puts i ∷ es) = gets_of j es
gets_of j (locks i ∷ es) = gets_of j es
gets_of j (unlocks i ∷ es) = gets_of j es

unfoldable pub puts_of : ℕ → List Event → ℕ
puts_of j [] = 0
puts_of j (gets i ∷ es) = puts_of j es
puts_of j (puts i ∷ es) = hit i j + puts_of j es
puts_of j (locks i ∷ es) = puts_of j es
puts_of j (unlocks i ∷ es) = puts_of j es

-- The locks that are held after the events, with those of before; none when one is taken by its
-- holder or released by another.
unfoldable pub lock_after : Option ℕ → List Event → Option (Option ℕ)
lock_after held [] = some held
lock_after held (gets i ∷ es) = lock_after held es
lock_after held (puts i ∷ es) = lock_after held es
lock_after none (locks i ∷ es) = lock_after (some i) es
lock_after (some k) (locks i ∷ es) = none
lock_after none (unlocks i ∷ es) = none
lock_after (some k) (unlocks i ∷ es) =
    let rest = lock_after none es in if k == i then rest else none

abbrev pub held : ℕ → Option ℕ → ℕ
held j none = 0
held j (some i) = hit i j

-- With a reference to `start`: what is got and not put is the reference to the result; one lock at a
-- time is taken, and none is left.
abbrev pub IsBalanced : ℕ → Option Found → Type 0
IsBalanced start none = Unit
IsBalanced start (some f) =
    ((j : ℕ) → puts_of j f.events + held j f.result ≡ gets_of j f.events + hit start j)
    × (lock_after none f.events ≡ some none)

-- From a directory to the inode that is found in it.
next-IsBalanced :
    (ip n : ℕ) (o : Option Found)
    → IsBalanced n o
    → IsBalanced ip (after_events (locks ip ∷ gets n ∷ unlockput ip) o)
unfolding gets_of puts_of lock_after
next-IsBalanced ip n none h = tt
next-IsBalanced ip n (some f) (h, lock) = (λ j. omega (arith, h j), rw (==_refl ip) lock)

enter-IsBalanced :
    (d : Dirs) (parent : Bool) (ip : ℕ) (e path : List ℕ) (rest : ℕ → Option Found)
    (next : Option ℕ)
    → ((n : ℕ) → IsBalanced n (rest n))
    → IsBalanced ip (enter d parent ip e path rest next)
unfolding gets_of puts_of lock_after
enter-IsBalanced d parent ip e path rest next h = elim (Bool-cases (d.is_dir ip)) [
  | inr off ↦ rw off (λ j. omega arith, rw (==_refl ip) refl)
  | inl on ↦ elim (Bool-cases (parent && is_empty path)) [
    | inl stop ↦ rw (on, stop) (λ j. omega arith, rw (==_refl ip) refl)
    | inr go_on ↦ rw (on, go_on) (found next)
  ]
]
  where
    found :
        (o : Option ℕ)
        → IsBalanced ip (elim o [
          | none ↦ some (stops none e (locks ip ∷ unlockput ip))
          | some n ↦ after_events (locks ip ∷ gets n ∷ unlockput ip) (rest n)
        ])
    found none = (λ j. omega arith, rw (==_refl ip) refl)
    found (some n) = next-IsBalanced ip n (rest n) (h n)

step-IsBalanced :
    (d : Dirs) (parent : Bool) (ip : ℕ) (name : List ℕ) (rest : List ℕ → List ℕ → ℕ → Option Found)
    (o : Option (List ℕ × List ℕ))
    → ((e s : List ℕ) (n : ℕ) → IsBalanced n (rest e s n))
    → IsBalanced ip (elem_step d parent ip name rest o)
unfolding gets_of puts_of lock_after
step-IsBalanced d true ip name rest none h = (λ j. omega arith, refl)
step-IsBalanced d false ip name rest none h = (λ j. omega arith, refl)
step-IsBalanced d parent ip name rest (some (e, s)) h =
    enter-IsBalanced d parent ip e s (rest e s) (d.dirlookup ip e) (h e s)

walk_path-IsBalanced :
    (n : ℕ) (d : Dirs) (parent : Bool) (ip : ℕ) (name path : List ℕ)
    → IsBalanced ip (walk_path n d parent ip name path)
unfolding walk_path
walk_path-IsBalanced zero d parent ip name path = tt
walk_path-IsBalanced (suc n) d parent ip name path =
    step-IsBalanced d parent ip name _ (skipelem path)
      (λ e s next. walk_path-IsBalanced n d parent next e s)

-- The references after `namex`, which starts with none.
abbrev pub OwnsResult : Option Found → Type 0
OwnsResult none = ⊥
OwnsResult (some f) =
    ((j : ℕ) → puts_of j f.events + held j f.result ≡ gets_of j f.events)
    × (lock_after none f.events ≡ some none)

after_events-OwnsResult :
    (d : Dirs) (parent : Bool) (start : ℕ) (es : List (List ℕ)) (o : Option Found)
    → FindsFrom d parent start es o
    → IsBalanced start o
    → OwnsResult (after_events (gets start ∷ []) o)
unfolding gets_of puts_of lock_after
after_events-OwnsResult d parent start es none found h = absurd found
after_events-OwnsResult d parent start es (some f) found (h, lock) = (λ j. omega (arith, h j), lock)

-- With fuel for more than the bytes of the path, `namex` returns; what it gets and does not put again
-- is one reference to the inode that it returns, if any; it holds at most one lock at a time, unlocks
-- only that one, and returns without a lock.
pub namex-OwnsResult :
    (n : ℕ) (d : Dirs) (parent : Bool) (cwd : ℕ) (name path : List ℕ)
    → length path < n
    → OwnsResult (namex n d parent cwd name path)
unfolding namex
namex-OwnsResult n d parent cwd name path lt =
    let start = if starts_at_root path then rootino else cwd in
    after_events-OwnsResult d parent start (elements path) _
      (walk_path-FindsFrom n d parent start name path lt)
      (walk_path-IsBalanced n d parent start name path)
