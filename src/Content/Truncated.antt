-- ===== src/Content/Truncated.antt =====
-- The inode in `itrunc`.
use osassignment.Prelude.{
  ℕ, zero, suc, ◌+◌, ◌-◌, ◌*◌, ◌≤◌, ◌<◌, ◌≡◌, ◌≢◌, refl, sym, ap, ◌∙◌, subst, ◌==◌, if◌then◌else◌,
  arith, ℕ_discrete, dec_lt, ==_iff, ne_of_==,
}
use osassignment.Prelude.Table.{update, update_self, update_ne}
use osassignment.Prelude.Run.{done, ◌>>=◌, Ensures, Ensures-bind, Ensures-if}
use osassignment.Memory.{load32}
use osassignment.Balloc.{Superblock, Disk, bfree}
use osassignment.Balloc.Free.{bfree-BfreeOf}
use osassignment.Content.{
  ndirect, nindirect, maxfile, Node, from_bfree, free_addr, free_direct, free_entries,
  free_indirect,
}
use osassignment.Content.Owned.{data_start, Layout, own, IsNode}
use osassignment.Content.Becomes.{SameFields}
use osassignment.Content.Place.{place, own-place, own_top, own_entry, own_none, place_low}
use osassignment.Content.Freed.{Freed, Freed-none, Freed-skip, Freed-bfree, Freed-skips}

place_before :
    (j k : ℕ) → j ≤ ndirect → k ≤ ndirect → place j < place k + 1 → k ≢ j → place j < place k
place_before j k hj hk lt ne = ground (arith, ne)

module _ (sb : Superblock) (ip : Node) (l : Layout sb) (w : IsNode sb ip) where
  -- The inode in `itrunc`, after the first `n` of its blocks.
  pub record Truncated (n : ℕ) (ip' : Node) : Type 0 where
    pub freed : Freed sb ip n ip'.disk
    pub zero_before : (k : ℕ) → k ≤ ndirect → place k < n → ip'.addrs k ≡ 0
    pub same_after : (k : ℕ) → k ≤ ndirect → n ≤ place k → ip'.addrs k ≡ ip.addrs k
    pub fields : SameFields ip' ip

  free_addr-Truncated :
      (k : ℕ) (ip' : Node)
      → k ≤ ndirect
      → Truncated (place k) ip'
      → Ensures ⊥ (Truncated (place k + 1)) (free_addr sb k ip')
  unfolding free_addr
  free_addr-Truncated k ip' le p =
      let at : ip'.addrs k ≡ own ip (place k) =
        p.same_after k le (omega arith) ∙ sym (own-place ip k le) in
      Ensures-if ⊥ (Truncated (place k + 1)) (ip'.addrs k == 0) _ _
        (λ z. record {
          freed =
              Freed-skip sb ip l w (place k) ip'.disk (sym at ∙ (==_iff (ip'.addrs k) 0).0 z)
                p.freed;
          zero_before = λ j hj lt. elim (ℕ_discrete k j) [
            | yes e ↦ ap ip'.addrs (sym e) ∙ (==_iff (ip'.addrs k) 0).0 z
            | no ne ↦ p.zero_before j hj (place_before j k hj le lt ne)
          ];
          same_after = λ j hj h. p.same_after j hj (omega arith);
          fields = p.fields;
        })
        (λ nz.
          Ensures-bind ⊥ ⊥ (Freed sb ip (place k + 1)) (Truncated (place k + 1))
            (from_bfree (bfree sb (ip'.addrs k) ip'.disk)) _
            (subst (λ b. Ensures ⊥ (Freed sb ip (place k + 1)) (from_bfree (bfree sb b ip'.disk)))
              (sym at)
              (Freed-bfree sb ip l w (place k) ip'.disk _ (ground arith)
                (λ z. ne_of_== (ip'.addrs k) 0 nz (at ∙ z)) p.freed
                (bfree-BfreeOf sb (own ip (place k)) ip'.disk)))
            (λ e. e)
            (λ d q. record {
              freed = q;
              zero_before = λ j hj lt. elim (ℕ_discrete k j) [
                | yes e ↦ ap (λ i. update ip'.addrs k 0 i) (sym e) ∙ update_self ip'.addrs k 0
                | no ne ↦
                    update_ne ip'.addrs k j 0 ne ∙ p.zero_before j hj (place_before j k hj le lt ne)
              ];
              same_after = λ j hj h.
                  update_ne ip'.addrs k j 0 (λ e. omega (arith, h, ap place e))
                  ∙ p.same_after j hj (omega arith);
              fields = p.fields;
            }))

  free_direct-Truncated :
      (n k : ℕ) (ip' : Node)
      → k + n ≤ ndirect
      → Truncated k ip'
      → Ensures ⊥ (Truncated (k + n)) (free_direct n sb k ip')
  unfolding free_direct
  free_direct-Truncated zero k ip' le p = subst (λ i. Truncated i ip') (omega arith) p
  free_direct-Truncated (suc n) k ip' le p =
      let here : place k ≡ k = place_low k (omega arith) in
      let next : k + 1 + n ≡ k + suc n = omega arith in
      Ensures-bind ⊥ ⊥ (Truncated (place k + 1)) (Truncated (k + suc n)) (free_addr sb k ip') _
        (free_addr-Truncated k ip' (omega arith) (subst (λ i. Truncated i ip') (sym here) p))
        (λ e. e)
        (λ ip2 q.
          subst (λ i. Ensures ⊥ (Truncated i) (free_direct n sb (k + 1) ip2)) next
            (free_direct-Truncated n (k + 1) ip2 (omega arith)
              (subst (λ i. Truncated (i + 1) ip2) here q)))

  free_entries-Freed :
      (n j : ℕ) (d : Disk)
      → j + n ≤ nindirect
      → ip.addrs ndirect ≢ 0
      → Freed sb ip (ndirect + j) d
      → Ensures ⊥
          (Freed sb ip (ndirect + (j + n)))
          (free_entries n sb (ip.disk (ip.addrs ndirect)) j d)
  unfolding free_entries
  free_entries-Freed zero j d le top p =
      subst (λ i. Freed sb ip i d) (let e : ndirect + j ≡ ndirect + (j + 0) = omega arith in e) p
  free_entries-Freed (suc n) j d le top p =
      let a = ip.disk (ip.addrs ndirect) in
      let index : ndirect + j - ndirect ≡ j = omega arith in
      let at : own ip (ndirect + j) ≡ load32 a (4 * j) =
        own_entry ip (ndirect + j) (omega arith) (omega arith) top
        ∙ ap (λ i. load32 a (4 * i)) index in
      let next : ndirect + j + 1 ≡ ndirect + (j + 1) = omega arith in
      let last : ndirect + (j + 1 + n) ≡ ndirect + (j + suc n) = omega arith in
      Ensures-bind ⊥ ⊥ (Freed sb ip (ndirect + (j + 1))) (Freed sb ip (ndirect + (j + suc n)))
        (if load32 a (4 * j) == 0 then done d else from_bfree (bfree sb (load32 a (4 * j)) d)) _
        (subst
          (λ i.
            Ensures ⊥ (Freed sb ip i) (
              if load32 a (4 * j) == 0 then done d else from_bfree (bfree sb (load32 a (4 * j)) d)))
          next
          (subst
            (λ b.
              Ensures ⊥ (Freed sb ip (ndirect + j + 1))
                (if b == 0 then done d else from_bfree (bfree sb b d)))
            at
            (Ensures-if ⊥ (Freed sb ip (ndirect + j + 1)) (own ip (ndirect + j) == 0) _ _
              (λ z. Freed-skip sb ip l w (ndirect + j) d ((==_iff (own ip (ndirect + j)) 0).0 z) p)
              (λ nz.
                Freed-bfree sb ip l w (ndirect + j) d _ (omega arith)
                  (ne_of_== (own ip (ndirect + j)) 0 nz) p
                  (bfree-BfreeOf sb (own ip (ndirect + j)) d)))))
        (λ e. e)
        (λ d2 q.
          subst (λ i. Ensures ⊥ (Freed sb ip i) (free_entries n sb a (j + 1) d2)) last
            (free_entries-Freed n (j + 1) d2 (omega arith) top q))

  no_indirect :
      ip.addrs ndirect ≡ 0 → (k : ℕ) → ndirect ≤ k → k < ndirect + (nindirect + 1) → own ip k ≡ 0
  no_indirect z k lo hi = elim (dec_lt k maxfile) [
    | yes lt ↦ own_none ip k lo lt z
    | no ge ↦ ap (own ip) (let e : k ≡ maxfile = omega arith in e) ∙ own_top ip ∙ z
  ]

  top_data : ip.addrs ndirect ≢ 0 → data_start sb ≤ ip.addrs ndirect
  top_data nz =
      omega (arith, (w.owned maxfile (omega arith) (λ z. nz (sym (own_top ip) ∙ z))).0, own_top ip)

  free_indirect-Truncated :
      (ip' : Node)
      → Truncated ndirect ip'
      → Ensures ⊥ (Truncated (maxfile + 1)) (free_indirect sb ip')
  unfolding free_indirect
  free_indirect-Truncated ip' p =
      let at : ip'.addrs ndirect ≡ ip.addrs ndirect =
        p.same_after ndirect (omega arith) (omega arith) in
      Ensures-if ⊥ (Truncated (maxfile + 1)) (ip'.addrs ndirect == 0) _ _
        (λ z. record {
          freed =
              Freed-skips sb ip l w (nindirect + 1) ndirect ip'.disk
                (no_indirect (sym at ∙ (==_iff (ip'.addrs ndirect) 0).0 z)) p.freed;
          zero_before = λ k le lt. elim (ℕ_discrete k ndirect) [
            | yes e ↦ ap ip'.addrs e ∙ (==_iff (ip'.addrs ndirect) 0).0 z
            | no ne ↦ p.zero_before k le (ground (arith, le, ne))
          ];
          same_after = λ j hj h. absurd (ground (arith, hj, h));
          fields = p.fields;
        })
        (λ nz.
          Ensures-bind ⊥ ⊥ (Freed sb ip maxfile) (Truncated (maxfile + 1))
            (free_entries nindirect sb (ip'.disk (ip'.addrs ndirect)) 0 ip'.disk) _
            (rw
              (ap ip'.disk at
                ∙ p.freed.data_same (ip.addrs ndirect) (top_data (λ z. ne_of_== _ 0 nz (at ∙ z))))
              (free_entries-Freed nindirect 0 ip'.disk (omega arith) (λ z. ne_of_== _ 0 nz (at ∙ z))
                p.freed))
            (λ e. e)
            (λ d q.
              free_addr-Truncated ndirect (record ip' { disk = d }) (omega arith)
                (record {
                  freed = q;
                  zero_before = λ k le lt. p.zero_before k le (ground (arith, le, lt));
                  same_after = λ k le h. p.same_after k le (ground (arith, le, h));
                  fields = p.fields;
                })))

  pub itrunc-Truncated :
      Ensures ⊥ (Truncated (maxfile + 1)) (free_direct ndirect sb 0 ip >>= free_indirect sb)
  itrunc-Truncated =
      Ensures-bind ⊥ ⊥ (Truncated ndirect) (Truncated (maxfile + 1)) (free_direct ndirect sb 0 ip)
        (free_indirect sb)
        (free_direct-Truncated ndirect 0 ip (omega arith) (record {
          freed = Freed-none sb ip l w;
          zero_before = λ k le lt. absurd (omega arith);
          same_after = λ k le h. refl;
          fields = (refl, refl, refl, refl, refl, refl);
        }))
        (λ e. e) free_indirect-Truncated
