-- ===== src/Strings/Copy.antt =====
-- The result of `strncpy`.
use osassignment.Prelude.{
  ℕ, zero, suc, ◌+◌, ◌-◌, ◌≤◌, ◌<◌, ◌≡◌, ◌⊎◌, refl, ap, ◌&&◌, ◌==◌, ltb, leb, if◌then◌else◌, arith,
}
use osassignment.Memory.{Mem, write}
use osassignment.Strings.{strncpy, zero_fill}

-- Byte `i` of the string at `t`, or 0 behind its end.
abbrev pub padded : Mem → ℕ → ℕ → ℕ
padded m t zero = m t
padded m t (suc i) = if m t == 0 then 0 else padded m (t + 1) i

zero_fill_lem :
    (n : ℕ) (m : Mem) (s x : ℕ) → zero_fill m s n x ≡ (if leb s x && ltb x (s + n) then 0 else m x)
unfolding zero_fill write
zero_fill_lem zero m s x = ground arith
zero_fill_lem (suc n) m s x = ground (arith, zero_fill_lem n (write m s 0) (s + 1) x)

padded_cong :
    (i : ℕ) (m k : Mem) (t : ℕ)
    → ((x : ℕ) → t ≤ x → x ≤ t + i → k x ≡ m x)
    → padded k t i ≡ padded m t i
padded_cong zero m k t f = f t (omega arith) (omega arith)
padded_cong (suc i) m k t f =
    rw
      (
        f t (omega arith) (omega arith),
        padded_cong i m k (t + 1) (λ x lo hi. f x (omega arith) (omega arith)),
      )
      refl

padded-sub :
    (m : Mem) (s t x : ℕ)
    → s < x
    → padded m t (x - s) ≡ (if m t == 0 then 0 else padded m (t + 1) (x - (s + 1)))
padded-sub m s t x h = ap (padded m t) {x = x - s} {y = suc (x - (s + 1))} (omega arith)

padded-zero : (m : Mem) (s t x : ℕ) → x ≡ s → padded m t (x - s) ≡ m t
padded-zero m s t x e = ap (padded m t) {x = x - s} {y = 0} (omega arith)

padded-write :
    (m : Mem) (s t v n x : ℕ)
    → (t + suc n ≤ s) ⊎ (s + suc n ≤ t)
    → x < s + suc n
    → s < x
    → padded (write m s v) (t + 1) (x - (s + 1)) ≡ padded m (t + 1) (x - (s + 1))
unfolding write
padded-write m s t v n x h lt gt =
    padded_cong (x - (s + 1)) m (write m s v) (t + 1) (λ y lo hi. ground arith)

-- Where the two blocks do not meet, `strncpy` stores the n bytes from the source up to its end and
-- zeros behind it, and changes no other byte.
pub strncpy_lem :
    (n : ℕ) (m : Mem) (s t x : ℕ)
    → (t + n ≤ s) ⊎ (s + n ≤ t)
    → strncpy m s t n x ≡ (if leb s x && ltb x (s + n) then padded m t (x - s) else m x)
unfolding strncpy write
strncpy_lem zero m s t x h = ground arith
strncpy_lem (suc n) m s t x h = ground (
  arith,
  strncpy_lem n (write m s (m t)) (s + 1) (t + 1) x,
  zero_fill_lem n (write m s (m t)) (s + 1) x,
  padded-sub m s t x,
  padded-zero m s t x,
  padded-write m s t (m t) n x h,
)
