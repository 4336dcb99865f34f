-- ===== src/Kalloc/Freelist.antt =====
-- The free list as a list of pages.
use osassignment.Prelude.{
  ℕ, ◌+◌, ◌%◌, ◌^◌, ◌≤◌, ◌<◌, ◌≡◌, ◌≢◌, ◌⊎◌, inl, inr, refl, ◌∙◌, sym, false, none, some, List, [],
  ◌∷◌, subst, Bool-cases, ==_ne, arith,
}
use osassignment.Memory.{Mem, load32, store32, memset}
use osassignment.Memory.Fill.{memset_lem}
use osassignment.Memory.Words.{load32-store32_self, store32_outside, load32_cong}
use osassignment.Kalloc.{Kmem, kfree, kalloc, pgsize, phystop, v2p, bad_page}

-- A page that `kfree` takes.
pub record IsPage (end v : ℕ) : Type 0 where
  pub word : v < 2 ^ 32
  pub aligned : v % pgsize ≡ 0
  pub above : end ≤ v
  pub below : v2p v < phystop

abbrev pub In : ℕ → List ℕ → Type 0
In v [] = ⊥
In v (p ∷ ps) = (v ≡ p) ⊎ In v ps

-- From `head` on, the links go through these pages, each once, and end in 0.
abbrev pub Chain : ℕ → Mem → ℕ → List ℕ → Type 0
Chain end m head [] = head ≡ 0
Chain end m head (p ∷ ps) = (head ≡ p) × IsPage end p × (In p ps → ⊥) × Chain end m (load32 m p) ps

-- Two memories with the same words at the pages of the list.
abbrev pub SameLinks : ℕ → Mem → Mem → List ℕ → Type 0
SameLinks end m m' ps = (p : ℕ) → IsPage end p → In p ps → (x : ℕ) → p ≤ x → x < p + 4 → m' x ≡ m x

pub Chain-frame :
    (end : ℕ) (m m' : Mem) (head head' : ℕ) (ps : List ℕ)
    → SameLinks end m m' ps
    → head' ≡ head
    → Chain end m head ps
    → Chain end m' head' ps
Chain-frame end m m' head head' [] same h c = h ∙ c
Chain-frame end m m' head head' (p ∷ ps) same h (e, page, absent, c) = (
  h ∙ e,
  page,
  absent,
  Chain-frame end m m' (load32 m p) (load32 m' p) ps (λ q r i. same q r (inr i))
      (load32_cong m' m p p (same p page (inl refl) p (omega arith) (omega arith))
        (same p page (inl refl) (p + 1) (omega arith) (omega arith))
        (same p page (inl refl) (p + 2) (omega arith) (omega arith))
        (same p page (inl refl) (p + 3) (omega arith) (omega arith)))
      c,
)

pub page_ne_zero : (end v : ℕ) → IsPage end v → v ≢ 0
page_ne_zero end v p e = ground (arith, p.below)

good_page : (end v : ℕ) → IsPage end v → bad_page end v ≡ false
good_page end v p = ground (arith, p.aligned, p.above, p.below)

bad_page_lem : (end v : ℕ) → v < 2 ^ 32 → bad_page end v ≡ false → IsPage end v
bad_page_lem end v h e = record {
  word = h;
  aligned = ground arith;
  above = ground arith;
  below = ground arith;
}

-- Memory after `v` was freed with `head` as the next page.
abbrev pub freed_memory : Mem → ℕ → ℕ → Mem
freed_memory m v head = store32 (memset m v 1 pgsize) v head

pub freed_outside :
    (m : Mem) (v head x : ℕ) → (x < v) ⊎ (v + pgsize ≤ x) → freed_memory m v head x ≡ m x
freed_outside m v head x h =
    ground (arith, store32_outside (memset m v 1 pgsize) v head x, memset_lem m v 1 pgsize x)

freed_junk : (m : Mem) (v head x : ℕ) → v + 4 ≤ x → x < v + pgsize → freed_memory m v head x ≡ 1
freed_junk m v head x h g =
    ground (arith, store32_outside (memset m v 1 pgsize) v head x, memset_lem m v 1 pgsize x)

-- Two pages that differ do not meet.
pub pages_apart :
    (end u v x : ℕ)
    → IsPage end u
    → IsPage end v
    → u ≢ v
    → u ≤ x
    → x < u + pgsize
    → (x < v) ⊎ (v + pgsize ≤ x)
pages_apart end u v x p q ne lo hi = ground (arith, p.aligned, q.aligned)

freed-SameLinks :
    (end : ℕ) (m : Mem) (v head : ℕ) (ps : List ℕ)
    → IsPage end v
    → (In v ps → ⊥)
    → SameLinks end m (freed_memory m v head) ps
freed-SameLinks end m v head ps page absent p q i x lo hi =
    freed_outside m v head x
      (pages_apart end p v x q page (λ e. absent (subst (λ u. In u ps) e i)) lo (omega arith))

Chain-word : (end : ℕ) (m : Mem) (head : ℕ) (ps : List ℕ) → Chain end m head ps → head < 2 ^ 32
Chain-word end m head [] c = omega arith
Chain-word end m head (p ∷ ps) (e, page, _, _) = omega (arith, page.word)

-- What `kfree` does to the free list `ps`.
pub record Freed (end v : ℕ) (k k' : Kmem) (ps : List ℕ) : Type 0 where
  pub chain : Chain end k'.mem k'.freelist (v ∷ ps)
  pub junk : (x : ℕ) → v + 4 ≤ x → x < v + pgsize → k'.mem x ≡ 1
  pub others : (x : ℕ) → (x < v) ⊎ (v + pgsize ≤ x) → k'.mem x ≡ k.mem x

-- `kfree` panics at an address that is no page of the allocator. Otherwise, if the page is not free
-- already, it becomes the first of the free list, its bytes behind the link are 1, and no byte
-- outside the page changes.
pub kfree-Freed :
    (end v : ℕ) (k : Kmem) (ps : List ℕ)
    → v < 2 ^ 32
    → Chain end k.mem k.freelist ps
    → (In v ps → ⊥)
    → ((kfree end v k ≡ none) × (IsPage end v → ⊥))
      ⊎ ((k' : Kmem) × (kfree end v k ≡ some k') × IsPage end v × Freed end v k k' ps)
unfolding kfree
kfree-Freed end v k ps h c absent = elim (Bool-cases (bad_page end v)) [
  | inl bad ↦ inl (rw bad, λ page. ground (arith, good_page end v page))
  | inr good ↦
      let page = bad_page_lem end v h good in
      inr (
        record { mem = freed_memory k.mem v k.freelist; freelist = v },
        rw good,
        page,
        record {
          chain = (
            refl,
            page,
            absent,
            Chain-frame end k.mem (freed_memory k.mem v k.freelist) k.freelist
                (load32 (freed_memory k.mem v k.freelist) v) ps
                (freed-SameLinks end k.mem v k.freelist ps page absent)
                (load32-store32_self (memset k.mem v 1 pgsize) v k.freelist
                  (Chain-word end k.mem k.freelist ps c))
                c,
          );
          junk = freed_junk k.mem v k.freelist;
          others = freed_outside k.mem v k.freelist;
        },
      )
]

-- `kalloc` gives out the first page of the free list and leaves the others on it, or 0 and leaves
-- everything as it was if there is none; it writes no memory.
pub kalloc-Chain :
    (end : ℕ) (k : Kmem) (ps : List ℕ)
    → Chain end k.mem k.freelist ps
    → ((ps ≡ []) × (kalloc k ≡ (0, k)))
      ⊎ ((p : ℕ) × (qs : List ℕ) × (ps ≡ p ∷ qs)
          × ((kalloc k).0 ≡ p)
          × ((kalloc k).1.mem ≡ k.mem)
          × Chain end k.mem (kalloc k).1.freelist qs)
unfolding kalloc
kalloc-Chain end k [] c = inl (refl, ground arith)
kalloc-Chain end k (p ∷ qs) (e, page, absent, c) =
    let off = ==_ne k.freelist 0 (λ z. page_ne_zero end p page (sym e ∙ z)) in
    inr (p, qs, refl, rw off e, rw off, rw (off, e) c)
