-- ===== src/Directory/Found.antt =====
-- The entries of a directory.
use osassignment.Prelude.{
  ℕ, ◌+◌, ◌%◌, ◌≤◌, ◌<◌, ◌≡◌, sym, ap, ◌∙◌, subst, arith, ℕ_discrete, Option, none, some,
}
use osassignment.Memory.{Mem}
use osassignment.Names.{dirsiz}
use osassignment.Content.{load16}
use osassignment.Directory.{direntsize}
use osassignment.Directory.Entry.{IsEntry, padded-shift}

-- What a search of the entries from `off` on finds.
abbrev pub FoundFrom : (ℕ → ℕ) → ℕ → Mem → ℕ → ℕ → Option (ℕ × ℕ) → Type 0
FoundFrom f size mem name off none =
    (y : ℕ) → off ≤ y → y < size → y % direntsize ≡ 0 → ¬ (IsEntry f y mem name)
FoundFrom f size mem name off (some (inum, o)) =
    (off ≤ o)
    × (o < size)
    × (o % direntsize ≡ 0)
    × (inum ≡ load16 f o)
    × IsEntry f o mem name
    × ((y : ℕ) → off ≤ y → y < o → y % direntsize ≡ 0 → ¬ (IsEntry f y mem name))

-- The inode number of the result.
abbrev pub found_inum : Option (ℕ × ℕ) → Option ℕ
found_inum none = none
found_inum (some (inum, o)) = some inum

-- An entry that is not the one, and the search of the rest.
pub FoundFrom-next :
    (f : ℕ → ℕ) (size : ℕ) (mem : Mem) (name off : ℕ) (r : Option (ℕ × ℕ))
    → off % direntsize ≡ 0
    → ¬ (IsEntry f off mem name)
    → FoundFrom f size mem name (off + direntsize) r
    → FoundFrom f size mem name off r
FoundFrom-next f size mem name off none al no_entry h = λ y le lt aligned e.
    elim (ℕ_discrete off y) [
      | yes at ↦ no_entry (subst (λ z. IsEntry f z mem name) (sym at) e)
      | no ne ↦ h y (omega arith) lt aligned e
    ]
FoundFrom-next f size mem name off (some (inum, o)) al no_entry
      (le, lt, aligned, at, here, before) =
    (
      omega arith,
      lt,
      aligned,
      at,
      here,
      λ y from below even e. elim (ℕ_discrete off y) [
        | yes at ↦ no_entry (subst (λ z. IsEntry f z mem name) (sym at) e)
        | no ne ↦ before y (omega arith) below even e
      ],
    )

pub load16_same :
    (f g : ℕ → ℕ) (y : ℕ)
    → ((i : ℕ) → i < direntsize → f (y + i) ≡ g (y + i))
    → load16 f y ≡ load16 g y
unfolding load16
load16_same f g y same =
    let zero_index : y + 0 ≡ y = omega arith in
    ground (arith, ap f zero_index, same 0 (omega arith), ap g zero_index, same 1 (omega arith))

pub IsEntry-cong :
    (f g : ℕ → ℕ) (y : ℕ) (mem k : Mem) (name : ℕ)
    → ((i : ℕ) → i < direntsize → f (y + i) ≡ g (y + i))
    → ((i : ℕ) → i < dirsiz → mem (name + i) ≡ k (name + i))
    → IsEntry f y mem name
    → IsEntry g y k name
IsEntry-cong f g y mem k name same names (nz, named) = (
  λ e. nz (load16_same f g y same ∙ e),
  λ j lt.
      sym (padded-shift j mem k name name (λ i le. names i (omega arith)))
      ∙ named j lt
      ∙ padded-shift j f g (y + 2) (y + 2) (λ i le.
        let index : y + 2 + i ≡ y + (2 + i) = omega arith in
        ap f index ∙ same (2 + i) (omega arith) ∙ sym (ap g index)),
)

pub FoundFrom-cong :
    (f g : ℕ → ℕ) (size : ℕ) (mem k : Mem) (name off : ℕ) (r : Option (ℕ × ℕ))
    → size % direntsize ≡ 0
    → ((i : ℕ) → i < size → f i ≡ g i)
    → ((i : ℕ) → i < dirsiz → mem (name + i) ≡ k (name + i))
    → FoundFrom f size mem name off r
    → FoundFrom g size k name off r
FoundFrom-cong f g size mem k name off none al same names h = λ y le lt even e. h y le lt even (
    IsEntry-cong g f y k mem name (λ i small. sym (same (y + i) (omega arith)))
      (λ i small. sym (names i small)) e)
FoundFrom-cong f g size mem k name off (some (inum, o)) al same names
      (le, lt, even, at, here, before) =
    (
      le,
      lt,
      even,
      at ∙ load16_same f g o (λ i small. same (o + i) (omega arith)),
      IsEntry-cong f g o mem k name (λ i small. same (o + i) (omega arith)) names here,
      λ y from below aligned e. before y from below aligned (
          IsEntry-cong g f y k mem name (λ i small. sym (same (y + i) (omega arith)))
            (λ i small. sym (names i small)) e),
    )
