-- ===== src/Names/Elements.antt =====
-- The elements of a path, against a split at the slashes.
use osassignment.Prelude.{
  ℕ, ◌≤◌, ◌<◌, ◌≡◌, refl, sym, ap, ap₂, ◌∙◌, Bool, true, false, if◌then◌else◌, Option, none, some,
  List, [], ◌∷◌, take, length, Bool-cases, inl, inr, arith,
}
use osassignment.Names.{dirsiz, is_slash, drop_slashes, element, after_slashes, skipelem, is_empty}

-- The parts between slashes, empty ones too: the first one, and the others.
unfoldable pub split : List ℕ → List ℕ × List (List ℕ)
split [] = ([], [])
split (c ∷ s) = let (w, ws) = split s in if is_slash c then ([], w ∷ ws) else (c ∷ w, ws)

abbrev add_name : List ℕ → List (List ℕ) → List (List ℕ)
add_name [] ws = ws
add_name (c ∷ w) ws = take dirsiz (c ∷ w) ∷ ws

abbrev pub names_of : List (List ℕ) → List (List ℕ)
names_of [] = []
names_of (w ∷ ws) = add_name w (names_of ws)

-- The parts that are not empty, cut to `DIRSIZ` bytes.
unfoldable pub elements : List ℕ → List (List ℕ)
unfolding split
elements path = let (w, ws) = split path in names_of (w ∷ ws)

elements-drop_slashes : (s : List ℕ) → elements (drop_slashes s) ≡ elements s
unfolding elements drop_slashes
elements-drop_slashes [] = refl
elements-drop_slashes (c ∷ s) = elim (Bool-cases (is_slash c)) [
  | inl on ↦ rw on (elements-drop_slashes s)
  | inr off ↦ rw off (rw off refl)
]

drop_slashes-head : (s : List ℕ) (c : ℕ) (r : List ℕ) → drop_slashes s ≡ c ∷ r → is_slash c ≡ false
unfolding drop_slashes
drop_slashes-head [] c r e = absurd (cc)
drop_slashes-head (d ∷ s) c r e = elim (Bool-cases (is_slash d)) [
  | inl on ↦ drop_slashes-head s c r (rw on at e)
  | inr off ↦ ground (arith, off, rw off at e)
]

length-drop_slashes : (s : List ℕ) → length (drop_slashes s) ≤ length s
unfolding drop_slashes
length-drop_slashes [] = omega arith
length-drop_slashes (c ∷ s) = ground (arith, length-drop_slashes s)

length-element : (s : List ℕ) → length (element s).1 ≤ length s
unfolding element
length-element [] = omega arith
length-element (c ∷ s) = elim (Bool-cases (is_slash c)) [
  | inl on ↦ rw on (omega arith)
  | inr off ↦ rw off (omega (arith, length-element s))
]

-- The part that `element` takes is the first of the split; the others are those of the rest.
element-split :
    (s : List ℕ) → (names_of (split s).1 ≡ elements (element s).1) × ((split s).0 ≡ (element s).0)
unfolding element elements
element-split [] = (refl, refl)
element-split (c ∷ s) = elim (Bool-cases (is_slash c)) [
  | inl on ↦ rw on (rw on (refl, refl))
  | inr off ↦ let (a, b) = element-split s in rw off (a, ap (λ w. c ∷ w) b)
]

abbrev pub is_nil : List (List ℕ) → Bool
is_nil [] = true
is_nil (w ∷ ws) = false

-- What `skipelem` answers, against the elements of the path.
abbrev pub Skips : List ℕ → Option (List ℕ × List ℕ) → Type 0
Skips path none = elements path ≡ []
Skips path (some (w, rest)) =
    (elements path ≡ w ∷ elements rest)
    × (length rest < length path)
    × (is_empty rest ≡ is_nil (elements rest))

no_slash-empty :
    (t : List ℕ)
    → ((c : ℕ) (r : List ℕ) → t ≡ c ∷ r → is_slash c ≡ false)
    → is_empty t ≡ is_nil (elements t)
unfolding elements
no_slash-empty [] h = refl
no_slash-empty (c ∷ s) h = rw (h c s refl) refl

after_slashes-Skips :
    (t : List ℕ)
    → ((c : ℕ) (r : List ℕ) → t ≡ c ∷ r → is_slash c ≡ false)
    → Skips t (after_slashes t)
unfolding elements element
after_slashes-Skips [] h = refl
after_slashes-Skips (c ∷ s) h =
    let off = h c s refl in
    let (others, first) = element-split s in
    let back = (element s).1 in
    rw off (
      ap₂ (λ w ws. take dirsiz (c ∷ w) ∷ ws) first (others ∙ sym (elements-drop_slashes back)),
      omega (arith, length-drop_slashes back, length-element s),
      no_slash-empty (drop_slashes back) (drop_slashes-head back),
    )

Skips-longer :
    (s t : List ℕ) (o : Option (List ℕ × List ℕ))
    → elements t ≡ elements s
    → length t ≤ length s
    → Skips t o
    → Skips s o
Skips-longer s t none e le h = sym e ∙ h
Skips-longer s t (some (w, rest)) e le (h, lt, empty) = (sym e ∙ h, omega arith, empty)

-- `skipelem` takes the first element off, and what is left is shorter.
pub skipelem-Skips : (path : List ℕ) → Skips path (skipelem path)
unfolding skipelem
skipelem-Skips path =
    Skips-longer path (drop_slashes path) _ (elements-drop_slashes path) (length-drop_slashes path)
      (after_slashes-Skips (drop_slashes path) (drop_slashes-head path))
