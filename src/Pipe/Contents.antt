-- ===== src/Pipe/Contents.antt =====
-- The bytes that a pipe holds, in order, through both counters' wrap-around.
use osassignment.Prelude.{
  ℕ, zero, suc, ◌+◌, ◌-◌, ◌%◌, ◌^◌, ◌≤◌, ◌<◌, ◌≡◌, ◌≢◌, refl, ◌∙◌, ap, ap₂, false, List, [], ◌∷◌,
  ◌++◌, arith,
}
use osassignment.Memory.{Mem, write}
use osassignment.Pipe.{Pipe, pipesize, is_full, put, get}

-- `n` bytes from index `r` on, round the end of the buffer.
unfoldable pub window : Mem → ℕ → ℕ → List ℕ
window m r zero = []
window m r (suc n) = m (r % pipesize) ∷ window m (r + 1) n

-- How far `nwrite` is ahead of `nread`.
abbrev pub held : Pipe → ℕ
held p = (p.nwrite + 2 ^ 32 - p.nread) % 2 ^ 32

abbrev pub contents : Pipe → List ℕ
contents p = window p.bytes p.nread (held p)

pub record PipeOk (p : Pipe) : Type 0 where
  pub nread_word : p.nread < 2 ^ 32
  pub nwrite_word : p.nwrite < 2 ^ 32
  pub room : held p ≤ pipesize

window_wrap : (m : Mem) (n r s : ℕ) → r % pipesize ≡ s % pipesize → window m r n ≡ window m s n
unfolding window
window_wrap m zero r s e = refl
window_wrap m (suc n) r s e = ap₂ ◌∷◌ (ap m e) (window_wrap m n (r + 1) (s + 1) (omega arith))

window-snoc :
    (m : Mem) (n r : ℕ) → window m r (suc n) ≡ window m r n ++ (m ((r + n) % pipesize) ∷ [])
unfolding window
window-snoc m zero r = ap (λ x. m x ∷ []) (omega arith)
window-snoc m (suc n) r =
    ap (λ l. m (r % pipesize) ∷ l)
      (window-snoc m n (r + 1) ∙ ap (λ x. window m (r + 1) n ++ (m x ∷ [])) (omega arith))

first_byte :
    (m : Mem) (b k r : ℕ)
    → suc k < pipesize
    → write m ((r + suc k) % pipesize) b (r % pipesize) ≡ m (r % pipesize)
unfolding write
first_byte m b k r h = ground arith

-- A byte that is stored `k` places after the start is in none of the first `n` places.
window-write :
    (m : Mem) (b n k r : ℕ)
    → n ≤ k
    → k < pipesize
    → window (write m ((r + k) % pipesize) b) r n ≡ window m r n
unfolding window write
window-write m b zero k r h g = refl
window-write m b (suc n) zero r h g = absurd (omega arith)
window-write m b (suc n) (suc k) r h g = ap₂ ◌∷◌ (first_byte m b k r g) (
    ap (λ x. window (write m x b) (r + 1) n) {x = (r + suc k) % pipesize}
      {y = (r + 1 + k) % pipesize} (omega arith)
    ∙ window-write m b n k (r + 1) (omega arith) (omega arith))

write_self : (m : Mem) (a v : ℕ) → write m a v a ≡ v
unfolding write
write_self m a v = ground arith

window-put :
    (m : Mem) (b n r j : ℕ)
    → n < pipesize
    → j ≡ (r + n) % pipesize
    → window (write m j b) r (suc n) ≡ window m r n ++ (b ∷ [])
window-put m b n r j h e = rw e (
    window-snoc (write m ((r + n) % pipesize) b) n r
    ∙ ap₂ (λ l x. l ++ (x ∷ [])) (window-write m b n n r (omega arith) h)
        (write_self m ((r + n) % pipesize) b))

pub put-contents :
    (p : Pipe) (b : ℕ)
    → PipeOk p
    → is_full p ≡ false
    → PipeOk (put p b) × (contents (put p b) ≡ contents p ++ (b ∷ []))
unfolding put
put-contents p b v h = (
  record { nread_word = v.nread_word; nwrite_word = omega arith; room = omega (arith, more, room) },
  ap (window (write p.bytes (p.nwrite % pipesize) b) p.nread) more
      ∙ window-put p.bytes b (held p) p.nread (p.nwrite % pipesize) room
          (omega (arith, v.nread_word, v.nwrite_word)),
)
  where
    room : held p < pipesize
    room = ground (arith, v.room, v.nread_word, v.nwrite_word)

    more : ((p.nwrite + 1) % 2 ^ 32 + 2 ^ 32 - p.nread) % 2 ^ 32 ≡ suc (held p)
    more = omega (arith, room, v.nread_word, v.nwrite_word)

pub get-contents :
    (p : Pipe)
    → PipeOk p
    → p.nread ≢ p.nwrite
    → PipeOk (get p).1
      × (contents p ≡ (get p).0 ∷ contents (get p).1)
      × (held p ≡ suc (held (get p).1))
unfolding get
get-contents p v h = (
  record {
    nread_word = omega arith;
    nwrite_word = v.nwrite_word;
    room = omega (arith, fewer, v.room);
  },
  ap (window p.bytes p.nread) fewer
      ∙ unfold window in
        ap (λ l. p.bytes (p.nread % pipesize) ∷ l)
          (window_wrap p.bytes ((p.nwrite + 2 ^ 32 - (p.nread + 1) % 2 ^ 32) % 2 ^ 32) (p.nread + 1)
            ((p.nread + 1) % 2 ^ 32) (omega arith)),
  fewer,
)
  where
    fewer : held p ≡ suc ((p.nwrite + 2 ^ 32 - (p.nread + 1) % 2 ^ 32) % 2 ^ 32)
    fewer = omega (arith, h, v.room, v.nread_word, v.nwrite_word)
