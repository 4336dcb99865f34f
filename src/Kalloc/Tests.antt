-- ===== src/Kalloc/Tests.antt =====
-- Runs of the page allocator.
use osassignment.Prelude.{
  ℕ, ◌≡◌, ◌⊎◌, refl, true, false, ◌==◌, none, some, [], ◌∷◌, sym, subst, ==_iff, arith,
}
use osassignment.Memory.{load32, store32, write}
use osassignment.Kalloc.{Kmem, kfree, kalloc}
use osassignment.Kalloc.Freelist.{IsPage, Chain, Freed, kfree-Freed, freed_memory}
use osassignment.Kalloc.Owners.{Owners, Reach, here, next, frees, give_page, kalloc-exclusive}

abbrev kernel_end : ℕ
kernel_end = 0x80100000

abbrev a_page : ℕ
a_page = 0x80200000

abbrev no_memory : Kmem
no_memory = record { mem = λ _. 0; freelist = 0 }

abbrev one_page : Kmem
one_page = record { mem = freed_memory (λ _. 0) a_page 0; freelist = a_page }

abbrev starter : Owners
starter v = v == a_page

kfree_run : kfree kernel_end a_page no_memory ≡ some one_page
unfolding kfree
kfree_run = refl

kfree_low_run : kfree kernel_end 0x80000000 no_memory ≡ none
unfolding kfree
kfree_low_run = refl

kalloc_run : (kalloc one_page).0 ≡ a_page
unfolding kalloc
kalloc_run = refl

a_page-IsPage : IsPage kernel_end a_page
a_page-IsPage = record {
  word = omega arith;
  aligned = refl;
  above = omega arith;
  below = omega arith;
}

kfree-Freed_example :
    ((kfree kernel_end a_page no_memory ≡ none) × (IsPage kernel_end a_page → ⊥))
    ⊎ ((k' : Kmem) × (kfree kernel_end a_page no_memory ≡ some k')
        × IsPage kernel_end a_page
        × Freed kernel_end a_page no_memory k' [])
kfree-Freed_example = kfree-Freed kernel_end a_page no_memory [] (omega arith) refl (λ i. absurd i)

one_page-Chain : Chain kernel_end one_page.mem a_page (a_page ∷ [])
one_page-Chain = (refl, a_page-IsPage, (λ i. absurd i), unfold load32 store32 write in refl)

starter-IsPage : (v : ℕ) → starter v ≡ true → IsPage kernel_end v
starter-IsPage v e = subst (IsPage kernel_end) (sym ((==_iff v a_page).0 e)) a_page-IsPage

freed-Reach : Reach kernel_end no_memory starter one_page (give_page a_page starter)
freed-Reach = next here (frees a_page refl kfree_run)

kalloc-exclusive_example :
    ((kalloc one_page).0 ≡ 0)
    ⊎ (IsPage kernel_end (kalloc one_page).0
        × (give_page a_page starter (kalloc one_page).0 ≡ false))
kalloc-exclusive_example =
    kalloc-exclusive kernel_end no_memory one_page starter (give_page a_page starter) refl
      starter-IsPage freed-Reach
