-- ===== src/Kalloc/Owners.antt =====
-- Pages that are handed out have one owner each, under any sequence of operations.
use osassignment.Prelude.{
  ℕ, ◌+◌, ◌≤◌, ◌<◌, ◌≡◌, ◌≢◌, ◌⊎◌, inl, inr, refl, ◌∙◌, sym, ap, subst, Bool, true, false, not,
  ◌&&◌, ◌||◌, ◌==◌, none, some, List, [], ◌∷◌, ℕ_discrete, ==_ne, ==_refl, arith,
}
use osassignment.Memory.{Mem}
use osassignment.Kalloc.{Kmem, kfree, kalloc, pgsize}
use osassignment.Kalloc.Freelist.{
  IsPage, In, Chain, Chain-frame, kfree-Freed, kalloc-Chain, pages_apart, page_ne_zero,
}

-- Which pages have an owner.
abbrev pub Owners : Type 0
Owners = ℕ → Bool

abbrev pub take_page : ℕ → Owners → Owners
take_page p o v = (v == p) || o v

abbrev pub give_page : ℕ → Owners → Owners
give_page p o v = not (v == p) && o v

-- The owners write what they like, to their own pages.
abbrev pub OwnWrites : Owners → Mem → Mem → Type 0
OwnWrites o m m' = (x : ℕ) → ((v : ℕ) → o v ≡ true → (x < v) ⊎ (v + pgsize ≤ x)) → m' x ≡ m x

module _ (end : ℕ) where
  pub data Step (k : Kmem) (o : Owners) : Kmem → Owners → Type 0 where
    allocs : (kalloc k).0 ≢ 0 → Step k o (kalloc k).1 (take_page (kalloc k).0 o)
    refused : (kalloc k).0 ≡ 0 → Step k o (kalloc k).1 o
    frees : {k' : Kmem} (v : ℕ) → o v ≡ true → kfree end v k ≡ some k' → Step k o k' (give_page v o)
    writes : (m : Mem) → OwnWrites o k.mem m → Step k o (record k { mem = m }) o

  pub data Reach (k : Kmem) (o : Owners) : Kmem → Owners → Type 0 where
    here : Reach k o k o
    next : {u v : Kmem} {p q : Owners} → Reach k o u p → Step u p v q → Reach k o v q

  -- The free list is a list of pages, and no page is both free and owned.
  pub record Good (k : Kmem) (o : Owners) : Type 0 where
    pub pages : List ℕ
    pub chain : Chain end k.mem k.freelist pages
    pub owned : (v : ℕ) → o v ≡ true → IsPage end v
    pub apart : (v : ℕ) → In v pages → o v ≡ false

  take_owned :
      (o : Owners) (p v : ℕ)
      → IsPage end p
      → (o v ≡ true → IsPage end v)
      → take_page p o v ≡ true
      → IsPage end v
  take_owned o p v page old e = elim (ℕ_discrete v p) [
    | yes q ↦ subst (IsPage end) (sym q) page
    | no ne ↦ old (ground (arith, ==_ne v p ne))
  ]

  take_apart :
      (o : Owners) (p v : ℕ) (qs : List ℕ)
      → (In p qs → ⊥)
      → o v ≡ false
      → In v qs
      → take_page p o v ≡ false
  take_apart o p v qs absent e i =
      ground (arith, e, ==_ne v p (λ q. absent (subst (λ u. In u qs) q i)))

  allocs-Good :
      (k : Kmem) (o : Owners)
      → Good k o
      → (kalloc k).0 ≢ 0
      → Good (kalloc k).1 (take_page (kalloc k).0 o)
  allocs-Good k o g ne = elim (kalloc-Chain end k g.pages g.chain) [
    | inl (_, e) ↦ absurd (ne (ap (λ r. r.0) e))
    | inr (p, qs, e, first, same, chain) ↦
        let (_, page, absent, _) = subst (Chain end k.mem k.freelist) e g.chain in
        rw first (record {
          pages = qs;
          chain = subst (λ m. Chain end m (kalloc k).1.freelist qs) (sym same) chain;
          owned = λ v h. take_owned o p v page (g.owned v) h;
          apart = λ v i. take_apart o p v qs absent (g.apart v (subst (In v) (sym e) (inr i))) i;
        })
  ]

  refused-Good : (k : Kmem) (o : Owners) → Good k o → (kalloc k).0 ≡ 0 → Good (kalloc k).1 o
  refused-Good k o g z = elim (kalloc-Chain end k g.pages g.chain) [
    | inl (_, e) ↦ subst (λ s. Good s o) (sym (ap (λ r. r.1) e)) g
    | inr (p, qs, e, first, _, _) ↦
        let (_, page, _, _) = subst (Chain end k.mem k.freelist) e g.chain in
        absurd (page_ne_zero end p page (sym first ∙ z))
  ]

  same_kmem : (a b : Kmem) → some a ≡ some b → a ≡ b
  same_kmem a b e = ap (λ o. elim o [ none ↦ a | some x ↦ x ]) e

  give_owned :
      (o : Owners) (p v : ℕ) → (o v ≡ true → IsPage end v) → give_page p o v ≡ true → IsPage end v
  give_owned o p v old e = old (ground arith)

  give_apart :
      (o : Owners) (p v : ℕ) (ps : List ℕ)
      → (In v ps → o v ≡ false)
      → In v (p ∷ ps)
      → give_page p o v ≡ false
  give_apart o p v ps old (inl e) = rw (e, ==_refl p)
  give_apart o p v ps old (inr i) = ground (arith, old i)

  frees-Good :
      (k k' : Kmem) (o : Owners) (v : ℕ)
      → Good k o
      → o v ≡ true
      → kfree end v k ≡ some k'
      → Good k' (give_page v o)
  frees-Good k k' o v g own e =
      elim (kfree-Freed end v k g.pages (g.owned v own).word g.chain
        (λ i. ground (arith, g.apart v i))) [
          | inl (panics, _) ↦ ground arith
          | inr (k1, e1, page, f) ↦
              subst (λ s. Good s (give_page v o)) (same_kmem k1 k' (sym e1 ∙ e))
                (record {
                  pages = v ∷ g.pages;
                  chain = f.chain;
                  owned = λ u h. give_owned o v u (g.owned u) h;
                  apart = λ u i. give_apart o v u g.pages (g.apart u) i;
                })
        ]

  writes-Good :
      (k : Kmem) (o : Owners) (m : Mem)
      → Good k o
      → OwnWrites o k.mem m
      → Good (record k { mem = m }) o
  writes-Good k o m g w = record {
    pages = g.pages;
    chain =
        Chain-frame end k.mem m k.freelist k.freelist g.pages
          (λ p page i x lo hi. w x (λ v own.
            pages_apart end p v x page (g.owned v own) (λ e. ground (arith, g.apart p i, ap o e)) lo
              (omega arith)))
          refl g.chain;
    owned = g.owned;
    apart = g.apart;
  }

  Step-Good : (k k' : Kmem) (o o' : Owners) → Step k o k' o' → Good k o → Good k' o'
  Step-Good k _ o _ (allocs ne) g = allocs-Good k o g ne
  Step-Good k _ o _ (refused z) g = refused-Good k o g z
  Step-Good k k' o _ (frees v own e) g = frees-Good k k' o v g own e
  Step-Good k _ o _ (writes m w) g = writes-Good k o m g w

  Reach-Good :
      (k : Kmem) (o : Owners) (k' : Kmem) (o' : Owners) → Reach k o k' o' → Good k o → Good k' o'
  Reach-Good k o _ _ here g = g
  Reach-Good k o k' o' (next {u} {p} r s) g = Step-Good u k' p o' s (Reach-Good k o u p r g)

  -- The allocator starts with an empty list and every page in the hands of the start-up code. After
  -- any sequence of `kalloc`, of `kfree` of pages that have an owner, and of writes by the owners to
  -- their own pages, `kalloc` returns 0 or a page that has no owner.
  pub kalloc-exclusive :
      (k k' : Kmem) (o o' : Owners)
      → k.freelist ≡ 0
      → ((v : ℕ) → o v ≡ true → IsPage end v)
      → Reach k o k' o'
      → ((kalloc k').0 ≡ 0) ⊎ (IsPage end (kalloc k').0 × (o' (kalloc k').0 ≡ false))
  kalloc-exclusive k k' o o' z own r =
      let g =
        Reach-Good k o k' o' r
          (record { pages = []; chain = z; owned = own; apart = λ v i. absurd i }) in
      elim (kalloc-Chain end k' g.pages g.chain) [
        | inl (_, e) ↦ inl (ap (λ s. s.0) e)
        | inr (p, qs, e, first, _, _) ↦
            let (_, page, _, _) = subst (Chain end k'.mem k'.freelist) e g.chain in
            inr (rw first (page, g.apart p (subst (In p) (sym e) (inl refl))))
      ]
