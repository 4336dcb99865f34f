-- ===== src/Grep/Language.antt =====
-- What a pattern means, and that the matcher decides it.
use osassignment.Prelude.{
  ℕ, ◌≡◌, ◌⊎◌, ◌↔◌, inl, inr, refl, ◌∙◌, ap, Bool, true, false, ◌&&◌, ◌||◌, ◌==◌, if◌then◌else◌,
  List, [], ◌∷◌, ◌++◌, Bool-cases, arith,
}
use osassignment.Grep.{fits, matchstar, match_one, is_empty, matchhere, match_from, match}

-- A byte, any number of a byte, or the end of the text.
pub data Item : Type 0 where
  single many : ℕ → Item
  final : Item

unfoldable pub items : List ℕ → List Item
items [] = []
items (c ∷ []) = (if c == b'$' then final else single c) ∷ []
items (c ∷ d ∷ re) =
    let starred = many c ∷ items re in
    let plain = single c ∷ items (d ∷ re) in if d == b'*' then starred else plain

abbrev pub AllFit : ℕ → List ℕ → Type 0
AllFit c [] = Unit
AllFit c (x ∷ xs) = (fits c x ≡ true) × AllFit c xs

-- The text starts with what the items stand for.
abbrev pub Starts : List Item → List ℕ → Type 0
Starts [] text = Unit
Starts (single c ∷ is) text =
    (x : ℕ) × (rest : List ℕ) × (text ≡ x ∷ rest) × (fits c x ≡ true) × Starts is rest
Starts (many c ∷ is) text =
    (front : List ℕ) × (rest : List ℕ) × (text ≡ front ++ rest) × AllFit c front × Starts is rest
Starts (final ∷ is) text = text ≡ []

-- At some place of the text.
abbrev pub Occurs : List Item → List ℕ → Type 0
Occurs is text = (before : List ℕ) × (rest : List ℕ) × (text ≡ before ++ rest) × Starts is rest

abbrev pub Means : List ℕ → List ℕ → Type 0
Means [] text = Occurs [] text
Means (c ∷ re) text = if c == b'^' then Starts (items re) text else Occurs (items (c ∷ re)) text

or_cases : (a b : Bool) → (a || b) ≡ true → (a ≡ true) ⊎ (b ≡ true)
or_cases true b h = inl refl
or_cases false b h = inr h

module _ (here : List ℕ → Bool) (is : List Item)
    (agree : (text : List ℕ) → (here text ≡ true) ↔ Starts is text) where
  matchstar_sound :
      (c : ℕ) (text : List ℕ) → matchstar here c text ≡ true → Starts (many c ∷ is) text
  unfolding matchstar
  matchstar_sound c [] h = ([], [], refl, tt, (agree []).0 h)
  matchstar_sound c (x ∷ text) h =
      elim (or_cases (here (x ∷ text)) (fits c x && matchstar here c text) h) [
        | inl now ↦ ([], x ∷ text, refl, tt, (agree (x ∷ text)).0 now)
        | inr more ↦
            let (front, rest, e, all, s) = matchstar_sound c text (ground arith) in
            (x ∷ front, rest, ap (λ l. x ∷ l) e, (ground arith, all), s)
      ]

  matchstar_complete :
      (c : ℕ) (front rest : List ℕ)
      → AllFit c front
      → Starts is rest
      → matchstar here c (front ++ rest) ≡ true
  unfolding matchstar
  matchstar_complete c [] [] all s = (agree []).1 s
  matchstar_complete c [] (x ∷ rest) all s = rw ((agree (x ∷ rest)).1 s)
  matchstar_complete c (x ∷ front) rest (f, all) s =
      ground (arith, matchstar_complete c front rest all s)

  pub matchstar-Starts :
      (c : ℕ) (text : List ℕ) → (matchstar here c text ≡ true) ↔ Starts (many c ∷ is) text
  matchstar-Starts c text = (
    matchstar_sound c text,
    λ (front, rest, e, all, s). ap (matchstar here c) e ∙ matchstar_complete c front rest all s,
  )

  pub match_one-Starts :
      (c : ℕ) (text : List ℕ) → (match_one here c text ≡ true) ↔ Starts (single c ∷ is) text
  match_one-Starts c [] = (λ h. absurd (cc), λ (x, rest, e, _, _). absurd (cc))
  match_one-Starts c (x ∷ text) = (
    λ h. (x, text, refl, ground arith, (agree text).0 (ground arith)),
    λ (y, rest, e, f, s). ground (arith, (agree rest).1 s),
  )

is_empty_iff : (text : List ℕ) → (is_empty text ≡ true) ↔ (text ≡ [])
is_empty_iff [] = (λ h. refl, λ e. refl)
is_empty_iff (x ∷ text) = (λ h. absurd (cc), λ e. absurd (cc))

matchhere-Starts : (re text : List ℕ) → (matchhere re text ≡ true) ↔ Starts (items re) text
unfolding matchhere items
matchhere-Starts [] text = (λ h. tt, λ s. refl)
matchhere-Starts (c ∷ []) text = elim (Bool-cases (c == b'$')) [
  | inl e ↦ rw e (is_empty_iff text)
  | inr off ↦ rw off (match_one-Starts (matchhere []) [] (matchhere-Starts []) c text)
]
matchhere-Starts (c ∷ d ∷ re) text = elim (Bool-cases (d == b'*')) [
  | inl e ↦ rw e (matchstar-Starts (matchhere re) (items re) (matchhere-Starts re) c text)
  | inr off ↦
      rw off
        (match_one-Starts (matchhere (d ∷ re)) (items (d ∷ re)) (matchhere-Starts (d ∷ re)) c text)
]

match_from_sound : (re text : List ℕ) → match_from re text ≡ true → Occurs (items re) text
unfolding match_from
match_from_sound re [] h = ([], [], refl, (matchhere-Starts re []).0 h)
match_from_sound re (x ∷ text) h =
    elim (or_cases (matchhere re (x ∷ text)) (match_from re text) h) [
      | inl now ↦ ([], x ∷ text, refl, (matchhere-Starts re (x ∷ text)).0 now)
      | inr more ↦
          let (before, rest, e, s) = match_from_sound re text more in
          (x ∷ before, rest, ap (λ l. x ∷ l) e, s)
    ]

match_from_complete :
    (re before rest : List ℕ) → Starts (items re) rest → match_from re (before ++ rest) ≡ true
unfolding match_from
match_from_complete re [] [] s = (matchhere-Starts re []).1 s
match_from_complete re [] (x ∷ rest) s = rw ((matchhere-Starts re (x ∷ rest)).1 s)
match_from_complete re (x ∷ before) rest s = ground (arith, match_from_complete re before rest s)

match_from-Occurs : (re text : List ℕ) → (match_from re text ≡ true) ↔ Occurs (items re) text
match_from-Occurs re text = (
  match_from_sound re text,
  λ (before, rest, e, s). ap (match_from re) e ∙ match_from_complete re before rest s,
)

-- `match` answers true exactly if the text contains what the pattern stands for: at its start if the
-- pattern begins with `^`, and anywhere if not; `.` is any byte, `c*` any number of `c`, and `$`
-- as the last byte is the end of the text.
pub match-Means : (re text : List ℕ) → (match re text ≡ true) ↔ Means re text
unfolding match items
match-Means [] text = match_from-Occurs [] text
match-Means (c ∷ re) text = elim (Bool-cases (c == b'^')) [
  | inl e ↦ rw e (matchhere-Starts re text)
  | inr off ↦ rw off (match_from-Occurs (c ∷ re) text)
]
