-- ===== src/Directory/Lookup.antt =====
-- The search of `dirlookup`.
use osassignment.Prelude.{
  ℕ, zero, suc, ◌+◌, ◌-◌, ◌*◌, ◌%◌, ◌≤◌, ◌<◌, ◌≡◌, ◌⊎◌, refl, sym, ◌∙◌, subst, Bool, ltb, ◌==◌,
  if◌then◌else◌, arith, dec_lt, ==_iff, ne_of_==, Option, some, ltb→lt,
}
use osassignment.Prelude.Run.{done, Ensures, Ensures-bind, Ensures-if, Ensures-weaken}
use osassignment.Memory.{Mem}
use osassignment.Balloc.{bsize, Superblock}
use osassignment.Names.{dirsiz}
use osassignment.Content.{Node, load16, maxfile}
use osassignment.Content.Owned.{Layout, byte}
use osassignment.Content.Becomes.{Becomes, Becomes-refl, Becomes-trans, Becomes-cong}
use osassignment.Content.Map.{Needs, FullOn, FullOn-trans}
use osassignment.Content.Read.{fetched}
use osassignment.Directory.{t_dir, direntsize, namecmp, read_entry, look_loop, find_entry}
use osassignment.Directory.Found.{FoundFrom, FoundFrom-next, FoundFrom-cong}
use osassignment.Directory.Entry.{IsEntry, fetched-inum, fetched-SameString, fetched_outside}
use osassignment.Directory.Reading.{
  IsDirectory, IsDirectory-Becomes, EntryRead, read_entry-EntryRead,
}

-- The result of a search, the directory and the memory, of which only the buffer has changed.
abbrev pub Looked :
    Superblock → (ℕ → Type 0) → ℕ → ℕ → ℕ → Node → Mem → Option (ℕ × ℕ) × Node × Mem → Type 0
Looked sb T name de off dp mem r =
    FoundFrom (byte dp) dp.size mem name off r.0
    × Becomes sb T dp (byte dp) r.1
    × ((x : ℕ) → (x < de) ⊎ (de + direntsize ≤ x) → r.2 x ≡ mem x)
    × ((x : ℕ) → r.2 x < 256)

pub fetched-lt :
    (off de : ℕ) (f : ℕ → ℕ) (mem : Mem) (x : ℕ)
    → off + direntsize ≤ maxfile * bsize
    → ((y : ℕ) → y < maxfile * bsize → f y < 256)
    → mem x < 256
    → fetched direntsize off f de mem x < 256
fetched-lt off de f mem x small content byte_lt = elim (dec_lt x de) [
  | yes before ↦ ground (arith, before, byte_lt)
  | no from ↦ elim (dec_lt x (de + direntsize)) [
    | yes inside ↦ ground (arith, from, inside, content (off + (x - de)) (omega arith))
    | no after ↦ ground (arith, after, byte_lt)
  ]
]

-- The round for the entry at `off`, then the rest.
Looked-next :
    (sb : Superblock) (T : ℕ → Type 0) (name de off : ℕ) (dp dp1 : Node) (mem mem1 : Mem)
    (r : Option (ℕ × ℕ) × Node × Mem)
    → IsDirectory sb dp
    → (name + dirsiz ≤ de) ⊎ (de + direntsize ≤ name)
    → off % direntsize ≡ 0
    → EntryRead sb T de off dp mem (dp1, mem1)
    → ¬ (IsEntry (byte dp) off mem name)
    → Looked sb T name de (off + direntsize) dp1 mem1 r
    → Looked sb T name de off dp mem r
Looked-next sb T name de off dp dp1 mem mem1 (r, dp2, mem2) w apart al (p, e) no_entry
      (found, q, outside, bytes) =
    let out : (x : ℕ) → (x < de) ⊎ (de + direntsize ≤ x) → mem1 x ≡ mem x =
      fetched_outside off de name (byte dp) mem mem1 e in
    (
      FoundFrom-next (byte dp) dp.size mem name off r al no_entry (
          FoundFrom-cong (byte dp1) (byte dp) dp.size mem1 mem name (off + direntsize) r w.entries
            (λ i lt. p.content i (omega (arith, lt, w.small)))
            (λ i lt. out (name + i) (omega arith))
            (subst (λ s. FoundFrom (byte dp1) s mem1 name (off + direntsize) r) p.fields.5 found)),
      Becomes-cong sb T dp dp2 (byte dp1) (byte dp) p.content
          (Becomes-trans sb T dp dp1 dp2 (byte dp) (byte dp1) p q),
      λ x h. outside x h ∙ out x h,
      bytes,
    )

module _ (sb : Superblock) (T : ℕ → Type 0) (has : ℕ → Bool) (name de : ℕ) (l : Layout sb)
    (apart : (name + dirsiz ≤ de) ⊎ (de + direntsize ≤ name)) where
  round :
      (fuel off : ℕ) (dp dp1 : Node) (mem mem1 : Mem)
      → IsDirectory sb dp
      → ((x : ℕ) → mem x < 256)
      → off % direntsize ≡ 0
      → off < dp.size
      → ((x : ℕ) → x < maxfile * bsize → byte dp x < 256)
      → EntryRead sb T de off dp mem (dp1, mem1)
      → Ensures
          (FullOn sb T dp)
          (Looked sb T name de (off + direntsize) dp1 mem1)
          (look_loop fuel sb has name de (off + direntsize) dp1 mem1)
      → Ensures (FullOn sb T dp) (Looked sb T name de off dp mem) (
          if load16 mem1 de == 0
          then look_loop fuel sb has name de (off + direntsize) dp1 mem1
          else if namecmp mem1 name (de + 2) == 0
          then done (some (load16 mem1 de, off), dp1, mem1)
          else look_loop fuel sb has name de (off + direntsize) dp1 mem1)
  round fuel off dp dp1 mem mem1 w bytes al lt content (p, e) rest =
      let inum = fetched-inum off de name (byte dp) mem mem1 e in
      let low : (x : ℕ) → mem1 x < 256 = λ x. omega (
        arith,
        e x,
        fetched-lt off de (byte dp) mem x (omega (arith, lt, w.small, w.entries)) content (bytes x),
      ) in
      let (there, back) = fetched-SameString off de name (byte dp) mem mem1 e apart low in
      let skip : ¬ (IsEntry (byte dp) off mem name)
          → Ensures (FullOn sb T dp) (Looked sb T name de off dp mem)
              (look_loop fuel sb has name de (off + direntsize) dp1 mem1) =
        λ no_entry.
          Ensures-weaken (FullOn sb T dp) (FullOn sb T dp) _ (Looked sb T name de off dp mem) _ rest
            (λ full. full)
            (λ r q. Looked-next sb T name de off dp dp1 mem mem1 r w apart al (p, e) no_entry q) in
      Ensures-if (FullOn sb T dp) (Looked sb T name de off dp mem) (load16 mem1 de == 0) _ _
        (λ z. skip (λ h. h.0 (sym inum ∙ (==_iff (load16 mem1 de) 0).0 z)))
        (λ used.
          Ensures-if (FullOn sb T dp) (Looked sb T name de off dp mem)
            (namecmp mem1 name (de + 2) == 0) _ _
            (λ same. (
              (
                omega arith,
                lt,
                al,
                inum,
                (
                  λ z. ne_of_== (load16 mem1 de) 0 used (inum ∙ z),
                  there ((==_iff (namecmp mem1 name (de + 2)) 0).0 same),
                ),
                λ y from below even h. omega arith,
              ),
              p,
              fetched_outside off de name (byte dp) mem mem1 e,
              low,
            ))
            (λ differs. skip (λ h. ne_of_== (namecmp mem1 name (de + 2)) 0 differs (back h.1))))

  look_loop-Looked :
      (fuel off : ℕ) (dp : Node) (mem : Mem)
      → IsDirectory sb dp
      → ((x : ℕ) → x < maxfile * bsize → byte dp x < 256)
      → ((x : ℕ) → mem x < 256)
      → off % direntsize ≡ 0
      → off ≤ dp.size
      → dp.size < fuel + off
      → ((k : ℕ) → Needs 0 dp.size k → T k)
      → Ensures
          (FullOn sb T dp)
          (Looked sb T name de off dp mem)
          (look_loop fuel sb has name de off dp mem)
  unfolding look_loop
  look_loop-Looked zero off dp mem w content bytes al inside enough cov = absurd (omega arith)
  look_loop-Looked (suc fuel) off dp mem w content bytes al inside enough cov =
      Ensures-if (FullOn sb T dp) (Looked sb T name de off dp mem) (ltb off dp.size) _ _
        (λ more.
          Ensures-bind (FullOn sb T dp) (FullOn sb T dp) (EntryRead sb T de off dp mem)
            (Looked sb T name de off dp mem) (read_entry sb has de off dp mem) _
            (read_entry-EntryRead sb T has de off dp mem l w al (ltb→lt off dp.size more) cov)
            (λ full. full)
            (λ (dp1, mem1) h.
              round fuel off dp dp1 mem mem1 w bytes al (ltb→lt off dp.size more) content h (
                Ensures-weaken (FullOn sb T dp1) (FullOn sb T dp)
                  (Looked sb T name de (off + direntsize) dp1 mem1)
                  (Looked sb T name de (off + direntsize) dp1 mem1) _
                  (look_loop-Looked fuel (off + direntsize) dp1 mem1
                    (IsDirectory-Becomes sb T dp dp1 (byte dp) w h.0)
                    (λ x lt. omega (arith, h.0.content x lt, content x lt))
                    (λ x. omega (
                      arith,
                      h.1 x,
                      fetched-lt off de (byte dp) mem x
                          (omega (arith, ltb→lt off dp.size more, w.small, w.entries)) content
                          (bytes x),
                    ))
                    (omega arith) (omega (arith, ltb→lt off dp.size more, h.0.fields.5, w.entries))
                    (omega (arith, h.0.fields.5))
                    (subst (λ z. (k : ℕ) → Needs 0 z k → T k) (sym h.0.fields.5) cov))
                  (FullOn-trans sb T dp dp1 (byte dp) h.0) (λ r q. q))))
        (λ end. (
          λ y from lt even h. ground (arith, end, from, lt),
          Becomes-refl sb T dp w.node,
          λ x h. refl,
          bytes,
        ))

  pub find_entry-Looked :
      (dp : Node) (mem : Mem)
      → IsDirectory sb dp
      → ((x : ℕ) → x < maxfile * bsize → byte dp x < 256)
      → ((x : ℕ) → mem x < 256)
      → ((k : ℕ) → Needs 0 dp.size k → T k)
      → Ensures (FullOn sb T dp) (Looked sb T name de 0 dp mem) (find_entry sb has name de dp mem)
  unfolding find_entry
  find_entry-Looked dp mem w content bytes cov =
      Ensures-if (FullOn sb T dp) (Looked sb T name de 0 dp mem) (dp.kind == t_dir) _ _
        (λ dir.
          look_loop-Looked (suc dp.size) 0 dp mem w content bytes (omega arith) (omega arith)
            (omega arith) cov)
        (λ other. absurd (ne_of_== dp.kind t_dir other w.kind_dir))
