-- ===== src/Ftable/Counts.antt =====
-- The reference counts of open files, against the references that there are.
use osassignment.Prelude.{
  ℕ, ◌+◌, ◌-◌, ◌%◌, ◌^◌, ◌<◌, ◌≡◌, ◌≢◌, refl, sym, ap, ◌∙◌, Bool, false, below_one, ◌==◌,
  if◌then◌else◌, Option, none, some, inl, inr, List, [], ◌∷◌, length, Bool-cases, arith, ℕ_discrete,
}
use mathlib.Core.Option.{some-injective}
use osassignment.Prelude.Table.{update, update_self, update_ne, First, find_first, find_first-First}
use osassignment.Prelude.Count.{
  count, remove, count-cons_self, count-cons_ne, count-remove_self, count-remove_ne, count-le,
}
use osassignment.Ftable.{
  File, Kind, fd_none, nfile, is_free_file, take_slot, filealloc, filedup, Effect, nothing,
  release_of, fileclose,
}

-- The table, and each reference to a file that a descriptor or a system call holds.
pub record System : Type 0 where
  pub files : ℕ → File
  pub holders : List ℕ

-- The fields that a holder sets, as `pipealloc`, `sys_open`, `fileread` and `filewrite` do.
abbrev pub set_fields : File → Kind → Bool → Bool → ℕ → ℕ → ℕ → File
set_fields f kind readable writable pipe ip off = record f {
  kind = kind;
  readable = readable;
  writable = writable;
  pipe = pipe;
  ip = ip;
  off = off;
}

-- No more references than an `int` counts: a process has `NOFILE` descriptors.
pub data Step : System → System → Type 0 where
  alloc :
      (s : System) (i : ℕ) (ft : ℕ → File)
      → filealloc s.files ≡ (some i, ft)
      → Step s (record { files = ft; holders = i ∷ s.holders })
  sets :
      (s : System) (i : ℕ) (kind : Kind) (readable writable : Bool) (pipe ip off : ℕ)
      → 0 < count i s.holders
      → Step s (record s {
        files = update s.files i (set_fields (s.files i) kind readable writable pipe ip off);
      })
  dup :
      (s : System) (i : ℕ) (ft : ℕ → File)
      → 0 < count i s.holders
      → length s.holders < 2 ^ 31 - 1
      → filedup i s.files ≡ some ft
      → Step s (record { files = ft; holders = i ∷ s.holders })
  close :
      (s : System) (i : ℕ) (ft : ℕ → File) (e : Effect)
      → 0 < count i s.holders
      → fileclose i s.files ≡ some (ft, e)
      → Step s (record { files = ft; holders = remove i s.holders })

-- From a table with no file, as at boot.
pub data Reach : System → Type 0 where
  boot : (ft : ℕ → File) → ((i : ℕ) → (ft i).ref ≡ 0) → Reach (record { files = ft; holders = [] })
  next : (s t : System) → Reach s → Step s t → Reach t

-- Each count is the number of the references, and no `int` overflows.
abbrev pub IsCounted : System → Type 0
IsCounted s = (i : ℕ) → ((s.files i).ref ≡ count i s.holders) × (count i s.holders < 2 ^ 31)

IsCounted-update :
    (s : System) (i : ℕ) (f : File) (hs : List ℕ)
    → IsCounted s
    → f.ref ≡ count i hs
    → count i hs < 2 ^ 31
    → ((j : ℕ) → i ≢ j → count j hs ≡ count j s.holders)
    → IsCounted (record { files = update s.files i f; holders = hs })
IsCounted-update s i f hs c here small others j = elim (ℕ_discrete i j) [
  | yes e ↦ rw (← e) (ap (λ g. g.ref) (update_self s.files i f) ∙ here, small)
  | no ne ↦
      let same = ap (λ g. g.ref) (update_ne s.files i j f ne) in
      omega (arith, same, others j ne, (c j).0, (c j).1)
]

module _ (ft gt : ℕ → File) (i : ℕ) where
  abbrev IsFresh : Type 0
  IsFresh = ((ft i).ref ≡ 0) × (i < nfile) × (gt ≡ update ft i (record (ft i) { ref = 1 }))

  take_slot-IsFresh :
      (o : Option ℕ) → First is_free_file ft 0 nfile o → take_slot ft o ≡ (some i, gt) → IsFresh
  take_slot-IsFresh none f e = absurd (cc)
  take_slot-IsFresh (some k) (lo, hi, on, before) e =
      let same : k ≡ i = cc in rw (← same) (ground (arith, on), omega arith, sym (ap (λ p. p.1) e))

  -- The slot that `filealloc` takes is free.
  filealloc-IsFresh : filealloc ft ≡ (some i, gt) → IsFresh
  unfolding filealloc
  filealloc-IsFresh e =
      take_slot-IsFresh (find_first is_free_file ft 0 nfile)
        (find_first-First is_free_file ft 0 nfile) e

filedup-holder :
    (s : System) (i : ℕ)
    → IsCounted s
    → 0 < count i s.holders
    → filedup i s.files
      ≡ some (update s.files i (record (s.files i) { ref = ((s.files i).ref + 1) % 2 ^ 32 }))
unfolding filedup
filedup-holder s i c held =
    let alive : below_one (s.files i).ref ≡ false = ground (arith, (c i).0, (c i).1) in
    rw alive refl

fileclose-holder :
    (s : System) (i : ℕ)
    → IsCounted s
    → 0 < count i s.holders
    → fileclose i s.files
      ≡ some (
          if count i (remove i s.holders) == 0
          then (
            update s.files i (record (s.files i) { ref = 0; kind = fd_none }),
            release_of (s.files i) (s.files i).kind,
          )
          else (
            update s.files i (record (s.files i) { ref = count i (remove i s.holders) }),
            nothing,
          ))
unfolding fileclose
fileclose-holder s i c held =
    let k = count i (remove i s.holders) in
    let fewer = count-remove_self i s.holders in
    let alive : below_one (s.files i).ref ≡ false = ground (arith, (c i).0, (c i).1) in
    let left : ((s.files i).ref + (2 ^ 32 - 1)) % 2 ^ 32 ≡ k =
      omega (arith, fewer, (c i).0, (c i).1) in
    rw (alive, left)
      (elim (Bool-cases (k == 0)) [
        | inl last ↦ rw last refl
        | inr more ↦
            let stays : below_one k ≡ false = ground (arith, fewer, (c i).1, more) in
            rw (stays, more) refl
      ])

Step-IsCounted : (s t : System) → Step s t → IsCounted s → IsCounted t
Step-IsCounted _ _ (alloc s i ft e) c =
    let (zero_ref, lo, eq) = filealloc-IsFresh s.files ft i e in
    let one = count-cons_self i s.holders in
    rw eq (
      IsCounted-update s i _ (i ∷ s.holders) c (omega (arith, one, zero_ref, (c i).0))
        (omega (arith, one, zero_ref, (c i).0)) (λ j ne. count-cons_ne i j s.holders ne))
Step-IsCounted _ _ (sets s i kind readable writable pipe ip off held) c =
    IsCounted-update s i _ s.holders c (c i).0 (c i).1 (λ j ne. refl)
Step-IsCounted _ _ (dup s i ft held few e) c =
    let one = count-cons_self i s.holders in
    let le = count-le i s.holders in
    let bumped = record (s.files i) { ref = ((s.files i).ref + 1) % 2 ^ 32 } in
    let eq : ft ≡ update s.files i bumped =
      some-injective _ _ (sym e ∙ filedup-holder s i c held) in
    rw eq (
      IsCounted-update s i _ (i ∷ s.holders) c (omega (arith, one, le, few, (c i).0))
        (omega (arith, one, le, few)) (λ j ne. count-cons_ne i j s.holders ne))
Step-IsCounted _ _ (close s i ft x held e) c =
    let k = count i (remove i s.holders) in
    let fewer = count-remove_self i s.holders in
    let eq = some-injective _ _ (sym e ∙ fileclose-holder s i c held) in
    let others : (j : ℕ) → i ≢ j → count j (remove i s.holders) ≡ count j s.holders =
      λ j ne. count-remove_ne i j s.holders ne in
    elim (Bool-cases (k == 0)) [
      | inl last ↦ rw (ap (λ p. p.0) (rw last at eq)) (
          IsCounted-update s i _ (remove i s.holders) c (ground (arith, last))
            (ground (arith, last)) others)
      | inr more ↦ rw (ap (λ p. p.0) (rw more at eq)) (
          IsCounted-update s i _ (remove i s.holders) c refl (omega (arith, fewer, (c i).1)) others)
    ]

-- Whatever the steps of the holders of files: each count is the number of references to the file,
-- below 2 ^ 31.
pub Reach-IsCounted : (s : System) → Reach s → IsCounted s
unfolding count
Reach-IsCounted _ (boot ft h) = λ i. (h i, omega arith)
Reach-IsCounted _ (next s t r step) = Step-IsCounted s t step (Reach-IsCounted s r)

-- In any state that the steps reach, for a file with a reference: `filedup` and `fileclose` do not
-- panic; the close gives up the pipe or the inode when no other reference is left, and only then.
pub holder_lem :
    (s : System) (i : ℕ)
    → Reach s
    → 0 < count i s.holders
    → (filedup i s.files
        ≡ some (update s.files i (record (s.files i) { ref = ((s.files i).ref + 1) % 2 ^ 32 })))
      × (fileclose i s.files
          ≡ some (
              if count i (remove i s.holders) == 0
              then (
                update s.files i (record (s.files i) { ref = 0; kind = fd_none }),
                release_of (s.files i) (s.files i).kind,
              )
              else (
                update s.files i (record (s.files i) { ref = count i (remove i s.holders) }),
                nothing,
              )))
holder_lem s i r held =
    let c = Reach-IsCounted s r in (filedup-holder s i c held, fileclose-holder s i c held)
