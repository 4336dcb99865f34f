-- ===== src/Names/Walk.antt =====
-- What a path leads to, against a walk over its elements.
use osassignment.Prelude.{
  ℕ, zero, suc, ◌<◌, ◌≡◌, refl, Bool, true, false, not, if◌then◌else◌, Option, none, some, List, [],
  ◌∷◌, length, Bool-cases, inl, inr, arith,
}
use osassignment.Names.{
  skipelem, is_empty, Dirs, Event, Found, after_events, unlockput, enter, ends, elem_step,
  walk_path, namex, starts_at_root, rootino, locks, gets,
}
use osassignment.Names.Elements.{elements, is_nil, Skips, skipelem-Skips}

-- Each element is looked up in the directory before it.
abbrev pub walk : Dirs → ℕ → List (List ℕ) → Option ℕ
walk d ip [] = some ip
walk d ip (e ∷ es) =
    if not (d.is_dir ip)
    then none
    else elim (d.dirlookup ip e) [ none ↦ none | some n ↦ walk d n es ]

-- The directory of the last element, and that element.
abbrev pub walk_parent : Dirs → ℕ → List (List ℕ) → Option (ℕ × List ℕ)
walk_parent d ip [] = none
walk_parent d ip (e ∷ es) =
    if not (d.is_dir ip)
    then none
    else if is_nil es
    then some (ip, e)
    else elim (d.dirlookup ip e) [ none ↦ none | some n ↦ walk_parent d n es ]

abbrev pub with_name : Option ℕ → List ℕ → Option (ℕ × List ℕ)
with_name none name = none
with_name (some ip) name = some (ip, name)

-- What is found from `ip` on, with the elements `es` to go.
abbrev pub FindsFrom : Dirs → Bool → ℕ → List (List ℕ) → Option Found → Type 0
FindsFrom d parent ip es none = ⊥
FindsFrom d false ip es (some f) = f.result ≡ walk d ip es
FindsFrom d true ip es (some f) = with_name f.result f.name ≡ walk_parent d ip es

FindsFrom-after :
    (d : Dirs) (parent : Bool) (ip : ℕ) (es : List (List ℕ)) (events : List Event)
    (o : Option Found)
    → FindsFrom d parent ip es o
    → FindsFrom d parent ip es (after_events events o)
FindsFrom-after d parent ip es events none h = h
FindsFrom-after d false ip es events (some f) h = h
FindsFrom-after d true ip es events (some f) h = h

ends-FindsFrom :
    (d : Dirs) (parent : Bool) (ip : ℕ) (name : List ℕ)
    → FindsFrom d parent ip [] (some (ends parent ip name))
ends-FindsFrom d true ip name = refl
ends-FindsFrom d false ip name = refl

-- The walk goes on in the directory that is found.
FindsFrom-next :
    (d : Dirs) (parent : Bool) (ip n : ℕ) (e : List ℕ) (es : List (List ℕ)) (events : List Event)
    (o : Option Found)
    → d.is_dir ip ≡ true
    → d.dirlookup ip e ≡ some n
    → (parent ≡ true → is_nil es ≡ false)
    → FindsFrom d parent n es o
    → FindsFrom d parent ip (e ∷ es) (after_events events o)
FindsFrom-next d parent ip n e es events none on found more h = h
FindsFrom-next d false ip n e es events (some f) on found more h = rw (on, found) h
FindsFrom-next d true ip n e es events (some f) on found more h = rw (on, more refl, found) h

enter-FindsFrom :
    (d : Dirs) (parent : Bool) (ip : ℕ) (e path : List ℕ) (es : List (List ℕ))
    (rest : ℕ → Option Found) (next : Option ℕ)
    → is_empty path ≡ is_nil es
    → d.dirlookup ip e ≡ next
    → ((n : ℕ) → FindsFrom d parent n es (rest n))
    → FindsFrom d parent ip (e ∷ es) (enter d parent ip e path rest next)
enter-FindsFrom d false ip e path es rest none empty found h = elim (Bool-cases (d.is_dir ip)) [
  | inl on ↦ rw on (rw (on, found) refl)
  | inr off ↦ rw off (rw off refl)
]
enter-FindsFrom d false ip e path es rest (some n) empty found h = elim (Bool-cases (d.is_dir ip)) [
  | inl on ↦ rw on (
      FindsFrom-next d false ip n e es (locks ip ∷ gets n ∷ unlockput ip) (rest n) on found
        (λ c. absurd (cc)) (h n))
  | inr off ↦ rw off (rw off refl)
]
enter-FindsFrom d true ip e path es rest none empty found h = elim (Bool-cases (d.is_dir ip)) [
  | inl on ↦ elim (Bool-cases (is_nil es)) [
    | inl last ↦ rw (on, empty, last) (rw (on, last) refl)
    | inr more ↦ rw (on, empty, more) (rw (on, more, found) refl)
  ]
  | inr off ↦ rw off (rw off refl)
]
enter-FindsFrom d true ip e path es rest (some n) empty found h = elim (Bool-cases (d.is_dir ip)) [
  | inl on ↦ elim (Bool-cases (is_nil es)) [
    | inl last ↦ rw (on, empty, last) (rw (on, last) refl)
    | inr more ↦
        rw (on, empty, more)
          (FindsFrom-next d true ip n e es (locks ip ∷ gets n ∷ unlockput ip) (rest n) on found
            (λ c. more) (h n))
  ]
  | inr off ↦ rw off (rw off refl)
]

step-FindsFrom :
    (d : Dirs) (parent : Bool) (ip : ℕ) (name path : List ℕ)
    (rest : List ℕ → List ℕ → ℕ → Option Found) (o : Option (List ℕ × List ℕ))
    → Skips path o
    → ((e s : List ℕ) (next : ℕ)
        → length s < length path
        → FindsFrom d parent next (elements s) (rest e s next))
    → FindsFrom d parent ip (elements path) (elem_step d parent ip name rest o)
step-FindsFrom d parent ip name path rest none h k = rw h (ends-FindsFrom d parent ip name)
step-FindsFrom d parent ip name path rest (some (e, s)) (h, shorter, empty) k = rw h (
    enter-FindsFrom d parent ip e s (elements s) (rest e s) (d.dirlookup ip e) empty refl
      (λ next. k e s next shorter))

pub walk_path-FindsFrom :
    (n : ℕ) (d : Dirs) (parent : Bool) (ip : ℕ) (name path : List ℕ)
    → length path < n
    → FindsFrom d parent ip (elements path) (walk_path n d parent ip name path)
unfolding walk_path
walk_path-FindsFrom zero d parent ip name path lt = absurd (omega arith)
walk_path-FindsFrom (suc n) d parent ip name path lt =
    step-FindsFrom d parent ip name path _ (skipelem path) (skipelem-Skips path)
      (λ e s next shorter. walk_path-FindsFrom n d parent next e s (omega arith))

-- Fuel for more than the bytes of the path is enough, and `namex` finds what the walk over the
-- elements finds, from the root for a path that starts with a slash.
pub namex-FindsFrom :
    (n : ℕ) (d : Dirs) (parent : Bool) (cwd : ℕ) (name path : List ℕ)
    → length path < n
    → FindsFrom d parent
        (if starts_at_root path then rootino else cwd)
        (elements path)
        (namex n d parent cwd name path)
unfolding namex
namex-FindsFrom n d parent cwd name path lt =
    FindsFrom-after d parent (if starts_at_root path then rootino else cwd) (elements path)
      (gets (if starts_at_root path then rootino else cwd) ∷ []) _
      (walk_path-FindsFrom n d parent (if starts_at_root path then rootino else cwd) name path lt)
