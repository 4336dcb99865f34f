-- ===== src/Bcache/Recycle.antt =====
-- What `bget` leaves alone.
use osassignment.Prelude.{
  ℕ, ◌<◌, ◌≡◌, ◌⊎◌, refl, sym, ap, subst, true, Option, none, some, inl, inr, arith, ℕ_discrete,
}
use mathlib.Core.Option.{some-injective}
use osassignment.Prelude.Table.{update, update_self, update_ne}
use osassignment.Prelude.Count.{count}
use osassignment.Bcache.{Buf, Bcache, is_block, is_spare, use_buf, bget}
use osassignment.Bcache.Search.{FoundIn, find_next-FoundIn, find_prev-FoundIn}
use osassignment.Bcache.Blocks.{System, Reach, IsCache}
use osassignment.Bcache.Steps.{Reach-IsCache}

-- The same block, and what is known of its data.
abbrev pub SameBlock : Buf → Buf → Type 0
SameBlock a b =
    (a.dev ≡ b.dev) × (a.blockno ≡ b.blockno) × (a.valid ≡ b.valid) × (a.dirty ≡ b.dirty)

-- Somebody uses the buffer, or the log still needs it.
abbrev pub IsNeeded : System → ℕ → Type 0
IsNeeded s j = (0 < count j s.users) ⊎ ((s.bc.bufs j).dirty ≡ true)

abbrev pub IsGot : System → ℕ → ℕ → ℕ → Bcache → Type 0
IsGot s dev blockno i bc =
    ((bc.bufs i).dev ≡ dev)
    × ((bc.bufs i).blockno ≡ blockno)
    × ((j : ℕ) → IsNeeded s j → SameBlock (bc.bufs j) (s.bc.bufs j))

SameBlock-update :
    (bufs : ℕ → Buf) (i j : ℕ) (b : Buf)
    → (i ≡ j → SameBlock b (bufs i))
    → SameBlock (update bufs i b j) (bufs j)
SameBlock-update bufs i j b h = elim (ℕ_discrete i j) [
  | yes e ↦ rw (← e, update_self bufs i b) (h e)
  | no ne ↦ rw (update_ne bufs i j b ne) (refl, refl, refl, refl)
]

spare-IsNeeded :
    (s : System) (k j : ℕ) → IsCache s → is_spare (s.bc.bufs k) ≡ true → k ≡ j → IsNeeded s j → ⊥
spare-IsNeeded s k j w free e (inl used) =
    let none_left : count k s.users ≡ 0 = ground (arith, free, w.counted k) in
    omega (arith, subst (λ m. 0 < count m s.users) (sym e) used, none_left)
spare-IsNeeded s k j w free e (inr dirty) =
    let still = subst (λ m. (s.bc.bufs m).dirty ≡ true) (sym e) dirty in ground (arith, free, still)

use_buf-IsGot :
    (s : System) (dev blockno i : ℕ) (bc : Bcache) (hit spare : Option ℕ)
    → IsCache s
    → FoundIn (is_block dev blockno) s.bc.bufs s.bc.order hit
    → FoundIn is_spare s.bc.bufs s.bc.order spare
    → use_buf dev blockno s.bc hit spare ≡ some (i, bc)
    → IsGot s dev blockno i bc
use_buf-IsGot s dev blockno i bc (some k) spare w (at, on) h e =
    let both = some-injective _ _ e in
    rw (← ap (λ p. p.0) both, ← ap (λ p. p.1) both, update_self s.bc.bufs k)
      (
        ground (arith, on),
        ground (arith, on),
        λ j needed. SameBlock-update s.bc.bufs k j _ (λ same. (refl, refl, refl, refl)),
      )
use_buf-IsGot s dev blockno i bc none (some k) w none_cached (at, free) e =
    let both = some-injective _ _ e in
    rw (← ap (λ p. p.0) both, ← ap (λ p. p.1) both, update_self s.bc.bufs k)
      (
        refl,
        refl,
        λ j needed.
            SameBlock-update s.bc.bufs k j _
              (λ same. absurd (spare-IsNeeded s k j w free same needed)),
      )
use_buf-IsGot s dev blockno i bc none none w h k e = absurd (cc)

-- In any state that the users reach: the buffer that `bget` returns is for the block that was asked
-- for, and every buffer that has a user or is dirty stays for its block, with its flags.
pub bget-IsGot :
    (s : System) (dev blockno i : ℕ) (bc : Bcache)
    → Reach s
    → bget dev blockno s.bc ≡ some (i, bc)
    → IsGot s dev blockno i bc
unfolding bget
bget-IsGot s dev blockno i bc r e =
    use_buf-IsGot s dev blockno i bc _ _ (Reach-IsCache s r)
      (find_next-FoundIn (is_block dev blockno) s.bc.bufs s.bc.order)
      (find_prev-FoundIn is_spare s.bc.bufs s.bc.order) e
