-- ===== src/Bcache/Steps.antt =====
-- One buffer for each block.
use osassignment.Prelude.{
  ℕ, zero, suc, ◌+◌, ◌-◌, ◌%◌, ◌^◌, ◌<◌, ◌≡◌, ◌≢◌, refl, sym, ap, ◌∙◌, false, ltb, ◌==◌,
  if◌then◌else◌, Option, none, some, List, ◌∷◌, length, Bool-cases, inl, inr, arith, ℕ_discrete,
}
use mathlib.Core.Option.{some-injective}
use osassignment.Prelude.Table.{update, update_self, update_ne}
use osassignment.Prelude.Count.{
  count, remove, count-cons_self, count-cons_ne, count-remove_self, count-remove_ne, count-le,
}
use osassignment.Bcache.{Buf, Bcache, nbuf, link_all, is_block, is_spare, use_buf, bget, brelse}
use osassignment.Bcache.Search.{FoundIn, find_next-FoundIn, find_prev-FoundIn}
use osassignment.Bcache.Blocks.{System, Step, gets, flags, releases, Reach, boot, next, IsCache}

-- One buffer changes with its users, and stays for its block or is for one that no other has.
IsCache-update :
    (s : System) (i : ℕ) (b : Buf) (is us : List ℕ)
    → IsCache s
    → b.refcnt ≡ count i us
    → count i us < 2 ^ 32
    → i < nbuf
    → ((j : ℕ) → i ≢ j → count j us ≡ count j s.users)
    → ((j : ℕ) → count j is ≡ count j s.bc.order)
    → ((j : ℕ)
        → i ≢ j
        → j < nbuf
        → 0 < b.dev
        → b.dev ≡ (s.bc.bufs j).dev
        → b.blockno ≡ (s.bc.bufs j).blockno
        → ⊥)
    → IsCache (record { bc = record { order = is; bufs = update s.bc.bufs i b }; users = us })
IsCache-update s i b is us w here few lt others same_list apart = record {
  counted = λ j. elim (ℕ_discrete i j) [
    | yes e ↦ rw (← e) (ap (λ g. g.refcnt) (update_self s.bc.bufs i b) ∙ here)
    | no ne ↦ rw (update_ne s.bc.bufs i j b ne, others j ne) (w.counted j)
  ];
  small =
      λ j. elim (ℕ_discrete i j) [ yes e ↦ rw (← e) few | no ne ↦ rw (others j ne) (w.small j) ];
  inside = λ j used. elim (ℕ_discrete i j) [
    | yes e ↦ rw (← e) lt
    | no ne ↦ w.inside j (rw (others j ne) at used)
  ];
  listed = λ j. same_list j ∙ w.listed j;
  unique = λ j k. same j k (ℕ_discrete i j) (ℕ_discrete i k);
}
  where
    same :
        (j k : ℕ)
        → Dec (i ≡ j)
        → Dec (i ≡ k)
        → 0 < (update s.bc.bufs i b j).dev
        → j < nbuf
        → k < nbuf
        → (update s.bc.bufs i b j).dev ≡ (update s.bc.bufs i b k).dev
        → (update s.bc.bufs i b j).blockno ≡ (update s.bc.bufs i b k).blockno
        → j ≡ k
    same j k (yes x) (yes y) pos hj hk d n = sym x ∙ y
    same j k (yes x) (no y) pos hj hk d n = absurd (
        apart k y hk (rw (← x, update_self s.bc.bufs i b) at pos)
          (rw (← x, update_self s.bc.bufs i b, update_ne s.bc.bufs i k b y) at d)
          (rw (← x, update_self s.bc.bufs i b, update_ne s.bc.bufs i k b y) at n))
    same j k (no x) (yes y) pos hj hk d n =
        let d2 = rw (← y, update_self s.bc.bufs i b, update_ne s.bc.bufs i j b x) at d in
        absurd (
          apart j x hj (omega (arith, d2, rw (update_ne s.bc.bufs i j b x) at pos)) (sym d2)
            (sym (rw (← y, update_self s.bc.bufs i b, update_ne s.bc.bufs i j b x) at n)))
    same j k (no x) (no y) pos hj hk d n =
        w.unique j k (rw (update_ne s.bc.bufs i j b x) at pos) hj hk
          (rw (update_ne s.bc.bufs i j b x, update_ne s.bc.bufs i k b y) at d)
          (rw (update_ne s.bc.bufs i j b x, update_ne s.bc.bufs i k b y) at n)

IsCache-keep :
    (s : System) (i : ℕ) (b : Buf) (is us : List ℕ)
    → IsCache s
    → i < nbuf
    → b.dev ≡ (s.bc.bufs i).dev
    → b.blockno ≡ (s.bc.bufs i).blockno
    → b.refcnt ≡ count i us
    → count i us < 2 ^ 32
    → ((j : ℕ) → i ≢ j → count j us ≡ count j s.users)
    → ((j : ℕ) → count j is ≡ count j s.bc.order)
    → IsCache (record { bc = record { order = is; bufs = update s.bc.bufs i b }; users = us })
IsCache-keep s i b is us w lt d n here few others same_list =
    IsCache-update s i b is us w here few lt others same_list (λ j ne hj pos dj nj.
      ne (w.unique i j (omega (arith, d, pos)) lt hj (sym d ∙ dj) (sym n ∙ nj)))

listed-lt : (s : System) (i : ℕ) → IsCache s → 0 < count i s.bc.order → i < nbuf
listed-lt s i w h = ground (arith, w.listed i)

lt-listed : (s : System) (i : ℕ) → IsCache s → i < nbuf → count i s.bc.order ≡ 1
lt-listed s i w h = ground (arith, w.listed i)

-- A buffer that is taken from its place goes to the front.
move_to_front : (i j : ℕ) (is : List ℕ) → 0 < count i is → count j (i ∷ remove i is) ≡ count j is
move_to_front i j is at = elim (ℕ_discrete i j) [
  | yes e ↦ rw (← e) (omega (arith, count-cons_self i (remove i is), count-remove_self i is))
  | no ne ↦ count-cons_ne i j (remove i is) ne ∙ count-remove_ne i j is ne
]

use_buf-IsCache :
    (s : System) (dev blockno i : ℕ) (bc : Bcache) (hit spare : Option ℕ)
    → IsCache s
    → length s.users < 2 ^ 32 - 1
    → FoundIn (is_block dev blockno) s.bc.bufs s.bc.order hit
    → FoundIn is_spare s.bc.bufs s.bc.order spare
    → use_buf dev blockno s.bc hit spare ≡ some (i, bc)
    → IsCache (record { bc = bc; users = i ∷ s.users })
use_buf-IsCache s dev blockno i bc (some k) spare w few (at, on) h e =
    let both = some-injective _ _ e in
    let one = count-cons_self k s.users in
    let le = count-le k s.users in
    rw (← ap (λ p. p.0) both, ← ap (λ p. p.1) both)
      (IsCache-keep s k _ s.bc.order (k ∷ s.users) w (listed-lt s k w at) refl refl
        (omega (arith, one, le, few, w.counted k)) (omega (arith, one, le, few))
        (λ j ne. count-cons_ne k j s.users ne) (λ j. refl))
use_buf-IsCache s dev blockno i bc none (some k) w few none_cached (at, free) e =
    let both = some-injective _ _ e in
    let one = count-cons_self k s.users in
    let unused : count k s.users ≡ 0 = ground (arith, free, w.counted k) in
    rw (← ap (λ p. p.0) both, ← ap (λ p. p.1) both)
      (IsCache-update s k
        (record { dev = dev; blockno = blockno; refcnt = 1; valid = false; dirty = false })
        s.bc.order (k ∷ s.users) w (omega (arith, one, unused)) (omega (arith, one, unused))
        (listed-lt s k w at) (λ j ne. count-cons_ne k j s.users ne) (λ j. refl)
        (λ j ne hj pos d n.
          let there = lt-listed s j w hj in
          ground (arith, none_cached j (omega (arith, there)), d, n)))
use_buf-IsCache s dev blockno i bc none none w few h k e = absurd (cc)

brelse-IsCache :
    (s : System) (i : ℕ)
    → IsCache s
    → 0 < count i s.users
    → IsCache (record { bc = brelse i s.bc; users = remove i s.users })
unfolding brelse
brelse-IsCache s i w used =
    let r = ((s.bc.bufs i).refcnt + (2 ^ 32 - 1)) % 2 ^ 32 in
    let fewer = count-remove_self i s.users in
    let lt = w.inside i used in
    let there = lt-listed s i w lt in
    let keep = λ (is : List ℕ) (h : (j : ℕ) → count j is ≡ count j s.bc.order).
      IsCache-keep s i (record (s.bc.bufs i) { refcnt = r }) is (remove i s.users) w lt refl refl
        (omega (arith, fewer, used, w.counted i, w.small i)) (omega (arith, fewer, w.small i))
        (λ j ne. count-remove_ne i j s.users ne) h in
    elim (Bool-cases (r == 0)) [
      | inl last ↦ rw last (
          keep (i ∷ remove i s.bc.order) (λ j. move_to_front i j s.bc.order (omega (arith, there))))
      | inr more ↦ rw more (keep s.bc.order (λ j. refl))
    ]

Step-IsCache : (s t : System) → Step s t → IsCache s → IsCache t
unfolding bget
Step-IsCache _ _ (gets s dev blockno i bc pos few e) w =
    use_buf-IsCache s dev blockno i bc _ _ w few
      (find_next-FoundIn (is_block dev blockno) s.bc.bufs s.bc.order)
      (find_prev-FoundIn is_spare s.bc.bufs s.bc.order) e
Step-IsCache _ _ (flags s i valid dirty used) w =
    IsCache-keep s i _ s.bc.order s.users w (w.inside i used) refl refl (w.counted i) (w.small i)
      (λ j ne. refl) (λ j. refl)
Step-IsCache _ _ (releases s i used) w = brelse-IsCache s i w used

count-link_all : (n i : ℕ) → count i (link_all n) ≡ (if ltb i n then 1 else 0)
unfolding count link_all
count-link_all zero i = ground arith
count-link_all (suc n) i = ground (arith, count-link_all n i)

-- Whatever the users do, from `binit` on: each reference count is the number of the users, each
-- buffer stands exactly once in the list, and no two buffers are for the same block.
pub Reach-IsCache : (s : System) → Reach s → IsCache s
unfolding count
Reach-IsCache _ (boot bufs h d) = record {
  counted = h;
  small = λ i. omega arith;
  inside = λ i used. absurd (omega arith);
  listed = λ i. count-link_all nbuf i;
  unique = λ i j pos. absurd (omega (arith, d i));
}
Reach-IsCache _ (next s t r step) = Step-IsCache s t step (Reach-IsCache s r)
