-- ===== src/Ulib/Tests.antt =====
-- Runs of the library.
use osassignment.Prelude.{
  ℕ, ◌≤◌, ◌≡◌, refl, true, false, if◌then◌else◌, some, List, [], ◌∷◌, length, arith,
}
use osassignment.Ulib.{strchr, atoi, is_negative, magnitude, printint}
use osassignment.Ulib.Number.{printint-atoi}

-- -120
printint_neg : printint 0xffffff88 10 true ≡ some (b'-' ∷ b'1' ∷ b'2' ∷ b'0' ∷ [])
unfolding printint
printint_neg = refl

printint_hex :
    printint 0xffffff88 16 false ≡ some (b'F' ∷ b'F' ∷ b'F' ∷ b'F' ∷ b'F' ∷ b'F' ∷ b'8' ∷ b'8' ∷ [])
unfolding printint
printint_hex = refl

strchr_slash : strchr (b'a' ∷ b'/' ∷ b'b' ∷ []) b'/' ≡ some (b'/' ∷ b'b' ∷ [])
unfolding strchr
strchr_slash = refl

printint-atoi_example :
    (s : List ℕ) × (printint 0xffffff88 10 true
      ≡ some (if is_negative true 0xffffff88 then b'-' ∷ s else s))
    × (atoi s ≡ magnitude true 0xffffff88)
    × (length s ≤ 15)
printint-atoi_example = printint-atoi 0xffffff88 true (omega arith)

abbrev ls : List ℕ
ls = b'l' ∷ b's' ∷ []

abbrev ln : List ℕ
ln = b'l' ∷ b'n' ∷ []
