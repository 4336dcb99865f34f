-- ===== src/Directory/Vacant.antt =====
-- The first empty entry of a directory.
use osassignment.Prelude.{
  subst, ℕ, zero, suc, ◌+◌, ◌%◌, ◌≤◌, ◌<◌, ◌≡◌, ◌≢◌, ◌⊎◌, refl, sym, ap, ◌∙◌, Bool, ltb, ◌==◌,
  arith, ℕ_discrete, ==_iff, ne_of_==, ltb→lt,
}
use osassignment.Prelude.Run.{Ensures, Ensures-bind, Ensures-if, Ensures-weaken}
use osassignment.Memory.{Mem}
use osassignment.Balloc.{Superblock}
use osassignment.Content.{Node, load16}
use osassignment.Content.Owned.{Layout, byte}
use osassignment.Content.Becomes.{Becomes, Becomes-refl, Becomes-trans, Becomes-cong}
use osassignment.Content.Map.{Needs, FullOn, FullOn-trans}
use osassignment.Directory.{direntsize, read_entry, empty_loop}
use osassignment.Directory.Entry.{fetched-inum, fetched_outside}
use osassignment.Directory.Found.{load16_same}
use osassignment.Directory.Reading.{
  IsDirectory, IsDirectory-Becomes, EntryRead, read_entry-EntryRead,
}

-- `o` is the first empty entry from `off` on, or the end of the directory.
pub record IsVacant (f : ℕ → ℕ) (size off o : ℕ) : Type 0 where
  pub from : off ≤ o
  pub inside : o ≤ size
  pub aligned : o % direntsize ≡ 0
  pub empty : o < size → load16 f o ≡ 0
  pub used : (y : ℕ) → off ≤ y → y < o → y % direntsize ≡ 0 → load16 f y ≢ 0

abbrev pub Vacated : Superblock → (ℕ → Type 0) → ℕ → ℕ → Node → Mem → ℕ × Node × Mem → Type 0
Vacated sb T de off dp mem r =
    IsVacant (byte dp) dp.size off r.0
    × Becomes sb T dp (byte dp) r.1
    × ((x : ℕ) → (x < de) ⊎ (de + direntsize ≤ x) → r.2 x ≡ mem x)

Vacated-next :
    (sb : Superblock) (T : ℕ → Type 0) (de off : ℕ) (dp dp1 : Node) (mem mem1 : Mem)
    (r : ℕ × Node × Mem)
    → IsDirectory sb dp
    → off % direntsize ≡ 0
    → EntryRead sb T de off dp mem (dp1, mem1)
    → load16 (byte dp) off ≢ 0
    → Vacated sb T de (off + direntsize) dp1 mem1 r
    → Vacated sb T de off dp mem r
Vacated-next sb T de off dp dp1 mem mem1 (o, dp2, mem2) w al (p, e) nz (v, q, outside) =
    let size = p.fields.5 in
    (
      record {
        from = omega (arith, v.from);
        inside = omega (arith, size, v.inside);
        aligned = v.aligned;
        empty = λ lt.
            load16_same (byte dp) (byte dp1) o (λ i small.
              sym (p.content (o + i) (omega (arith, small, lt, w.small, w.entries, v.aligned))))
            ∙ v.empty (omega (arith, size, lt));
        used = λ y lo hi even. elim (ℕ_discrete off y) [
          | yes at ↦ λ z. nz (ap (load16 (byte dp)) at ∙ z)
          | no ne ↦ λ z. v.used y (omega arith) hi even (
              load16_same (byte dp1) (byte dp) y (λ i small.
                p.content (y + i)
                  (omega (arith, small, hi, v.inside, size, w.small, w.entries, v.aligned, even)))
              ∙ z)
        ];
      },
      Becomes-cong sb T dp dp2 (byte dp1) (byte dp) p.content
          (Becomes-trans sb T dp dp1 dp2 (byte dp) (byte dp1) p q),
      λ x h. outside x h ∙ fetched_outside off de 0 (byte dp) mem mem1 e x h,
    )

pub empty_loop-Vacated :
    (fuel : ℕ) (sb : Superblock) (T : ℕ → Type 0) (has : ℕ → Bool) (de off : ℕ) (dp : Node)
    (mem : Mem)
    → Layout sb
    → IsDirectory sb dp
    → off % direntsize ≡ 0
    → off ≤ dp.size
    → dp.size < fuel + off
    → ((k : ℕ) → Needs 0 dp.size k → T k)
    → Ensures (FullOn sb T dp) (Vacated sb T de off dp mem) (empty_loop fuel sb has de off dp mem)
unfolding empty_loop
empty_loop-Vacated zero sb T has de off dp mem l w al inside enough cov = absurd (omega arith)
empty_loop-Vacated (suc fuel) sb T has de off dp mem l w al inside enough cov =
    Ensures-if (FullOn sb T dp) (Vacated sb T de off dp mem) (ltb off dp.size) _ _
      (λ more.
        Ensures-bind (FullOn sb T dp) (FullOn sb T dp) (EntryRead sb T de off dp mem)
          (Vacated sb T de off dp mem) (read_entry sb has de off dp mem) _
          (read_entry-EntryRead sb T has de off dp mem l w al (ltb→lt off dp.size more) cov)
          (λ full. full)
          (λ (dp1, mem1) (p, e).
            let inum = fetched-inum off de 0 (byte dp) mem mem1 e in
            Ensures-if (FullOn sb T dp) (Vacated sb T de off dp mem) (load16 mem1 de == 0) _ _
              (λ z. (
                here off dp inside al (λ lt. sym inum ∙ (==_iff (load16 mem1 de) 0).0 z),
                p,
                fetched_outside off de 0 (byte dp) mem mem1 e,
              ))
              (λ nz.
                Ensures-weaken (FullOn sb T dp1) (FullOn sb T dp)
                  (Vacated sb T de (off + direntsize) dp1 mem1) (Vacated sb T de off dp mem) _
                  (empty_loop-Vacated fuel sb T has de (off + direntsize) dp1 mem1 l
                    (IsDirectory-Becomes sb T dp dp1 (byte dp) w p) (omega arith)
                    (omega (arith, ltb→lt off dp.size more, p.fields.5, w.entries))
                    (omega (arith, p.fields.5))
                    (subst (λ z. (k : ℕ) → Needs 0 z k → T k) (sym p.fields.5) cov))
                  (FullOn-trans sb T dp dp1 (byte dp) p)
                  (λ r q.
                    Vacated-next sb T de off dp dp1 mem mem1 r w al (p, e)
                      (λ z. ne_of_== (load16 mem1 de) 0 nz (inum ∙ z)) q))))
      (λ end. (
        here off dp inside al (λ lt. ground (arith, end, lt)),
        Becomes-refl sb T dp w.node,
        λ x h. refl,
      ))
  where
    here :
        (off : ℕ) (dp : Node)
        → off ≤ dp.size
        → off % direntsize ≡ 0
        → (off < dp.size → load16 (byte dp) off ≡ 0)
        → IsVacant (byte dp) dp.size off off
    here off dp le al z = record {
      from = omega arith;
      inside = le;
      aligned = al;
      empty = z;
      used = λ y lo hi. omega arith;
    }

pub IsVacant-cong :
    (f g : ℕ → ℕ) (size off o : ℕ)
    → size % direntsize ≡ 0
    → ((i : ℕ) → i < size → f i ≡ g i)
    → IsVacant f size off o
    → IsVacant g size off o
IsVacant-cong f g size off o al same v = record {
  from = v.from;
  inside = v.inside;
  aligned = v.aligned;
  empty = λ lt.
      load16_same g f o (λ i small. sym (same (o + i) (omega (arith, small, lt, al, v.aligned))))
      ∙ v.empty lt;
  used = λ y lo hi even z. v.used y lo hi even (
      load16_same f g y
        (λ i small. same (y + i) (omega (arith, small, hi, v.inside, al, even, v.aligned)))
      ∙ z);
}
