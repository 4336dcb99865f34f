-- ===== src/Content/Grow.antt =====
-- An inode that gets a new block.
use osassignment.Prelude.{
  ℕ, ◌*◌, ◌/◌, ◌%◌, ◌≤◌, ◌<◌, ◌≡◌, ◌≢◌, ◌⊎◌, inl, inr, refl, sym, ap, ◌∙◌, subst, Bool, true, false,
  ◌||◌, ◌==◌, arith, ℕ_discrete, ==_refl, ==_ne,
}
use osassignment.Prelude.Bits.{test_bit}
use osassignment.Balloc.{bsize, bpb, Superblock, Disk, bblock}
use osassignment.Balloc.Bitmap.{in_use}
use osassignment.Content.{maxfile, Node}
use osassignment.Content.Owned.{data_start, Layout, own, IsData, IsNode, byte, IsForeign, bblock-lt}
use osassignment.Content.Becomes.{IsNew, SameFields, Becomes}

-- `ip'` is `ip` with the new block `c` at `k0`.
pub record Grown (sb : Superblock) (ip ip' : Node) (k0 c : ℕ) (d : Disk) : Type 0 where
  pub new : IsNew sb ip.disk c d
  pub low : k0 ≤ maxfile
  pub empty : own ip k0 ≡ 0
  pub here : own ip' k0 ≡ c
  pub there : (k : ℕ) → k0 ≢ k → k ≤ maxfile → own ip' k ≡ own ip k
  pub same : (b : ℕ) → (own ip' maxfile ≡ b → b ≡ 0) → ip'.disk b ≡ d b

or_true : (x : Bool) → (x || true) ≡ true
or_true true = refl
or_true false = refl

module _ (sb : Superblock) (ip ip' : Node) (k0 c : ℕ) (d : Disk) (l : Layout sb) (w : IsNode sb ip)
    (g : Grown sb ip ip' k0 c d) where
  new_ne : (k : ℕ) → k ≤ maxfile → own ip k ≢ c
  new_ne k le e = elim (ℕ_discrete (own ip k) 0) [
    | yes z ↦ omega (arith, z, e, g.new.after_meta)
    | no ne ↦
        ground
          (arith, g.new.was_free, subst (λ b. in_use sb ip.disk b ≡ true) e (w.owned k le ne).2)
  ]

  own_high : (k : ℕ) → k ≤ maxfile → (own ip' k ≡ 0) ⊎ (data_start sb ≤ own ip' k)
  own_high k le = elim (ℕ_discrete k0 k) [
    | yes e ↦ inr (omega (arith, g.new.after_meta, g.here, ap (own ip') e))
    | no ne ↦ elim (ℕ_discrete (own ip k) 0) [
      | yes z ↦ inl (g.there k ne le ∙ z)
      | no nz ↦ inr (omega (arith, g.there k ne le, (w.owned k le nz).0))
    ]
  ]

  -- The indirect block is no block of the free map.
  map_same : (b : ℕ) → sb.bmapstart ≤ b → b < data_start sb → ip'.disk b ≡ d b
  map_same b lo hi =
      g.same b (λ e. absurd (ground (arith, own_high maxfile (omega arith), e, lo, hi, l.starts)))

  bits_after : (b : ℕ) → b < sb.size → in_use sb ip'.disk b ≡ (in_use sb ip.disk b || (c == b))
  bits_after b lt =
      ap (λ m. test_bit (m (b % bpb / 8)) (b % bpb % 8))
        (map_same (bblock sb b) (omega arith) (bblock-lt sb b lt))
      ∙ g.new.bits b lt

  still_used : (b : ℕ) → b < sb.size → in_use sb ip.disk b ≡ true → in_use sb ip'.disk b ≡ true
  still_used b lt h = bits_after b lt ∙ ap (λ x. x || (c == b)) h

  kept_block : (b : ℕ) → data_start sb ≤ b → c ≢ b → own ip' maxfile ≢ b → ip'.disk b ≡ ip.disk b
  kept_block b hi ne off =
      g.same b (λ e. absurd (off e))
      ∙ g.new.others b ne (λ e. omega (arith, e, hi, bblock-lt sb c g.new.inside))

  -- The indirect block is no other block that was there.
  indirect_ne : (b : ℕ) → c ≢ b → own ip maxfile ≢ b → own ip' maxfile ≢ b
  indirect_ne b ne off e = elim (ℕ_discrete k0 maxfile) [
    | yes at ↦ ne (sym g.here ∙ ap (own ip') at ∙ e)
    | no other ↦ off (sym (g.there maxfile other (omega arith)) ∙ e)
  ]

  grown_owned : (k : ℕ) → k ≤ maxfile → own ip' k ≢ 0 → IsData sb ip'.disk (own ip' k)
  grown_owned k le ne = elim (ℕ_discrete k0 k) [
    | yes e ↦
        let at : own ip' k ≡ c = ap (own ip') (sym e) ∙ g.here in
        rw at (
          g.new.after_meta,
          g.new.inside,
          bits_after c g.new.inside ∙ rw (==_refl c) (or_true (in_use sb ip.disk c)),
        )
    | no other ↦
        let at = g.there k other le in
        let (hi, lt, used) = w.owned k le (λ z. ne (at ∙ z)) in
        rw at (hi, lt, still_used (own ip k) lt used)
  ]

  grown_apart :
      (j k : ℕ) → j ≤ maxfile → k ≤ maxfile → own ip' j ≢ 0 → own ip' j ≡ own ip' k → j ≡ k
  grown_apart j k hj hk ne e = elim (ℕ_discrete k0 j) [
    | yes a ↦ elim (ℕ_discrete k0 k) [
      | yes b ↦ sym a ∙ b
      | no b ↦ absurd (new_ne k hk (sym (g.there k b hk) ∙ sym e ∙ ap (own ip') (sym a) ∙ g.here))
    ]
    | no a ↦ elim (ℕ_discrete k0 k) [
      | yes b ↦ absurd (new_ne j hj (sym (g.there j a hj) ∙ e ∙ ap (own ip') (sym b) ∙ g.here))
      | no b ↦
          w.apart j k hj hk (λ z. ne (g.there j a hj ∙ z))
            (sym (g.there j a hj) ∙ e ∙ g.there k b hk)
    ]
  ]

  grown_content : (off : ℕ) → off < maxfile * bsize → byte ip' off ≡ byte ip off
  unfolding byte
  grown_content off lt =
      let k = off / bsize in
      let small : k ≤ maxfile = omega arith in
      let inner : k ≢ maxfile = λ e. omega (arith, e, lt) in
      elim (ℕ_discrete k0 k) [
        | yes e ↦
            let at : own ip' k ≡ c = ap (own ip') (sym e) ∙ g.here in
            let was : own ip k ≡ 0 = ap (own ip) (sym e) ∙ g.empty in
            let block : ip'.disk c ≡ d c = g.same c (λ f. absurd (
              inner (
                grown_apart k maxfile small (omega arith)
                  (λ z. omega (arith, z, at, g.new.after_meta)) (at ∙ sym f)))) in
            rw (at, was, block) (ground (arith, g.new.zeros (off % bsize) (omega arith)))
        | no other ↦
            let at = g.there k other small in
            elim (ℕ_discrete (own ip k) 0) [
              | yes z ↦ rw (at, z) refl
              | no nz ↦
                  let block =
                    kept_block (own ip k) (w.owned k small nz).0 (λ f. new_ne k small (sym f))
                      (indirect_ne (own ip k) (λ f. new_ne k small (sym f))
                        (λ f. inner (w.apart k maxfile small (omega arith) nz (sym f)))) in
                  rw (at, block) refl
            ]
      ]

  grown-IsForeign : (b : ℕ) → IsForeign sb ip b → IsForeign sb ip' b × (ip'.disk b ≡ ip.disk b)
  grown-IsForeign b ((hi, lt, used), off) =
      let ne : c ≢ b = λ e. ground (arith, g.new.was_free, used, ap (in_use sb ip.disk) e) in
      (
        (
          (hi, lt, still_used b lt used),
          λ k le e. elim (ℕ_discrete k0 k) [
            | yes at ↦ ne (sym g.here ∙ ap (own ip') at ∙ e)
            | no other ↦ off k le (sym (g.there k other le) ∙ e)
          ],
        ),
        kept_block b hi ne (indirect_ne b ne (off maxfile (omega arith))),
      )

  grown_meta : (b : ℕ) → b < sb.bmapstart → ip'.disk b ≡ ip.disk b
  grown_meta b lt =
      g.same b (λ e. ground (arith, own_high maxfile (omega arith), e, lt))
      ∙ g.new.others b (λ e. omega (arith, e, lt, g.new.after_meta)) (λ e. omega (arith, e, lt))

  pub Grown-Becomes : (T : ℕ → Type 0) → T k0 → SameFields ip' ip → Becomes sb T ip (byte ip) ip'
  Grown-Becomes T here f = record {
    node = record {
      meta = λ b lt. still_used b (omega (arith, lt, l.room)) (w.meta b lt);
      owned = grown_owned;
      apart = grown_apart;
    };
    content = grown_content;
    foreign = grown-IsForeign;
    meta_same = grown_meta;
    kept = λ k le ne. g.there k (λ e. ne (ap (own ip) (sym e) ∙ g.empty)) le;
    only = λ b lt h. elim (ℕ_discrete c b) [
      | yes e ↦ inr (k0, g.low, g.here ∙ e, λ z. omega (arith, z, e, g.new.after_meta))
      | no ne ↦ inl (ground (arith, bits_after b lt, h, ==_ne c b ne))
    ];
    grown = λ k le ne. elim (ℕ_discrete k0 k) [
      | yes e ↦ subst T e here
      | no other ↦ absurd (ne (g.there k other le))
    ];
    fields = f;
  }
