-- ===== src/Ptable/Fork/Built.antt =====
-- The stack, the memory and the files of a new process.
use osassignment.Prelude.{
  ℕ, zero, suc, ◌+◌, ◌-◌, ◌<◌, ◌≤◌, ◌≡◌, ◌≢◌, ◌⊎◌, inl, inr, refl, ◌∙◌, sym, ap, subst, ◌==◌,
  Option, none, some, List, [], ◌∷◌, length, get_or, Bool-cases, arith,
}
use osassignment.Prelude.Table.{find_first, update, update_self}
use osassignment.Memory.{Mem, load32, store32, memset, memmove}
use osassignment.Memory.Words.{load32-store32_self, store32_outside}
use osassignment.Memory.Fill.{memset_lem}
use osassignment.Memory.Move.{memmove_lem}
use osassignment.Proc.{embryo, nproc}
use osassignment.Signal.{trapframe_size, tf_eax}
use osassignment.Ptable.{Services, Layout, Kernel}
use osassignment.Ptable.Fork.{
  is_free, alloc_at, allocproc, allocpid, init_stack, dup_files, safestrcpy, fork_child, kstacksize,
  sizeof_context,
}

-- The descriptor of a child: the parent's, or the one that its entry had.
abbrev pub inherited : Option ℕ → Option ℕ → Option ℕ
inherited none old = old
inherited (some f) old = some f

-- `filedup` of each open file of the first `n` descriptors.
abbrev pub dup_each : {R : Type 0} → (ℕ → R → R) → ℕ → List (Option ℕ) → R → R
dup_each dup zero fs r = r
dup_each dup (suc n) [] r = r
dup_each dup (suc n) (none ∷ fs) r = dup_each dup n fs r
dup_each dup (suc n) (some f ∷ fs) r = dup_each dup n fs (dup f r)

-- Entry `i` has its name and files from before, and a new page for its stack.
pub record Built (s : Services) (i : ℕ) (k k' : Kernel s.Res) : Type 0 where
  pub name : (k'.procs i).name ≡ (k.procs i).name
  pub ofile : (k'.procs i).ofile ≡ (k.procs i).ofile
  pub kstack : (k'.procs i).kstack ≡ (s.kalloc k.res).0
  pub tf : (k'.procs i).tf ≡ (k'.procs i).kstack + kstacksize - trapframe_size
  pub res : k'.res ≡ (s.kalloc k.res).1
  pub memory :
      (x : ℕ)
      → (x < (k'.procs i).kstack) ⊎ ((k'.procs i).kstack + kstacksize ≤ x)
      → k'.mem x ≡ k.mem x

abbrev pub BuiltResult : (s : Services) → Kernel s.Res → Option ℕ × Kernel s.Res → Type 0
BuiltResult s k (none, k') = Unit
BuiltResult s k (some i, k') = Built s i k k'

init_stack_outside :
    (s : Services) (l : Layout) (stack : ℕ) (m : Mem) (x : ℕ)
    → (x < stack) ⊎ (stack + kstacksize ≤ x)
    → init_stack s l stack m x ≡ m x
unfolding init_stack
init_stack_outside s l stack m x h =
    let tf = stack + kstacksize - trapframe_size in
    let m' = store32 m (tf - 4) l.trapret in
    ground (
      arith,
      h,
      store32_outside m (tf - 4) l.trapret x (omega arith),
      memset_lem m' (tf - 4 - sizeof_context) 0 sizeof_context x,
      store32_outside (memset m' (tf - 4 - sizeof_context) 0 sizeof_context)
          (tf - 4 - sizeof_context + 16) l.forkret x (omega arith),
    )

alloc_at-BuiltResult :
    (s : Services) (l : Layout) (i : ℕ) (k c : Kernel s.Res)
    → c.res ≡ k.res
    → c.mem ≡ k.mem
    → (c.procs i).name ≡ (k.procs i).name
    → (c.procs i).ofile ≡ (k.procs i).ofile
    → BuiltResult s k (alloc_at s l i c)
unfolding alloc_at
alloc_at-BuiltResult s l i k c res mem name ofile = elim (Bool-cases ((s.kalloc c.res).0 == 0)) [
  | inl e ↦ rw (e, allocpid) tt
  | inr e ↦
      rw (e, allocpid)
        (let at = update_self c.procs i _ in
          record {
            name = ap (λ p. p.name) at ∙ name;
            ofile = ap (λ p. p.ofile) at ∙ ofile;
            kstack = ap (λ p. p.kstack) at ∙ ap (λ r. (s.kalloc r).0) res;
            tf = ap (λ p. p.tf) at ∙ sym (ap (λ p. p.kstack + kstacksize - trapframe_size) at);
            res = ap (λ r. (s.kalloc r).1) res;
            memory = λ x h.
                init_stack_outside s l (s.kalloc c.res).0 c.mem x
                  (omega (arith, h, ap (λ p. p.kstack) at))
                ∙ ap (λ m. m x) mem;
          })
]

pub allocproc-BuiltResult :
    (s : Services) (l : Layout) (k : Kernel s.Res) → BuiltResult s k (allocproc s l k)
unfolding allocproc
allocproc-BuiltResult s l k = go (find_first is_free k.procs 0 nproc)
  where
    go :
        (o : Option ℕ)
        → BuiltResult s k (elim o [
          | none ↦ (none, k)
          | some i ↦
              alloc_at s l i
                (record k { procs = update k.procs i (record (k.procs i) { state = embryo }) })
        ])
    go none = tt
    go (some i) =
        let at = update_self k.procs i (record (k.procs i) { state = embryo }) in
        alloc_at-BuiltResult s l i k
          (record k { procs = update k.procs i (record (k.procs i) { state = embryo }) }) refl refl
          (ap (λ p. p.name) at) (ap (λ p. p.ofile) at)

dup_files-inherited :
    (s : Services) (l : Layout) (fs ns : List (Option ℕ)) (r : s.Res) (d : ℕ)
    → d < length ns
    → get_or (dup_files s l fs ns r).0 d none ≡ inherited (get_or fs d none) (get_or ns d none)
unfolding dup_files
dup_files-inherited s l [] ns r d lt = refl
dup_files-inherited s l (f ∷ fs) [] r d lt = absurd (omega arith)
dup_files-inherited s l (none ∷ fs) (n ∷ ns) r zero lt = refl
dup_files-inherited s l (none ∷ fs) (n ∷ ns) r (suc d) lt =
    dup_files-inherited s l fs ns r d (omega arith)
dup_files-inherited s l (some f ∷ fs) (n ∷ ns) r zero lt = refl
dup_files-inherited s l (some f ∷ fs) (n ∷ ns) r (suc d) lt =
    dup_files-inherited s l fs ns (s.filedup f r) d (omega arith)

dup_files-dup_each :
    (s : Services) (l : Layout) (fs ns : List (Option ℕ)) (r : s.Res)
    → (dup_files s l fs ns r).1 ≡ dup_each s.filedup (length ns) fs r
unfolding dup_files
dup_files-dup_each s l [] [] r = refl
dup_files-dup_each s l [] (n ∷ ns) r = refl
dup_files-dup_each s l (f ∷ fs) [] r = refl
dup_files-dup_each s l (none ∷ fs) (n ∷ ns) r = dup_files-dup_each s l fs ns r
dup_files-dup_each s l (some f ∷ fs) (n ∷ ns) r = dup_files-dup_each s l fs ns (s.filedup f r)

-- The child in entry `i` has copies of the files, the name, the memory and the trap frame of `cur`.
pub record Copied (s : Services) (cur i : ℕ) (k k' : Kernel s.Res) : Type 0 where
  pub name : (k'.procs i).name ≡ safestrcpy (k.procs i).name (k.procs cur).name 16
  pub files :
      (d : ℕ)
      → d < length (k.procs i).ofile
      → get_or (k'.procs i).ofile d none
        ≡ inherited (get_or (k.procs cur).ofile d none) (get_or (k.procs i).ofile d none)
  pub kstack : (k'.procs i).kstack ≡ (s.kalloc k.res).0
  pub tf : (k'.procs i).tf ≡ (k'.procs i).kstack + kstacksize - trapframe_size
  pub pgdir :
      (k'.procs i).pgdir ≡ (s.copyuvm (k.procs cur).pgdir (k.procs cur).sz (s.kalloc k.res).1).0
  pub has_pgdir : (k'.procs i).pgdir ≢ 0
  pub res :
      k'.res
      ≡ s.idup (k.procs cur).cwd (
          dup_each s.filedup
            (length (k.procs i).ofile)
            (k.procs cur).ofile
            (s.copyuvm (k.procs cur).pgdir (k.procs cur).sz (s.kalloc k.res).1).1)
  pub eax : load32 k'.mem ((k'.procs i).tf + tf_eax) ≡ 0
  pub frame :
      (x : ℕ)
      → x < trapframe_size
      → (x < tf_eax) ⊎ (tf_eax + 4 ≤ x)
      → ((k.procs cur).tf + x < (k'.procs i).kstack)
        ⊎ ((k'.procs i).kstack + kstacksize ≤ (k.procs cur).tf + x)
      → k'.mem ((k'.procs i).tf + x) ≡ k.mem ((k.procs cur).tf + x)
  pub memory :
      (x : ℕ)
      → (x < (k'.procs i).kstack) ⊎ ((k'.procs i).kstack + kstacksize ≤ x)
      → k'.mem x ≡ k.mem x

abbrev pub CopiedBy : (s : Services) → ℕ → ℕ → Kernel s.Res → Option ℕ × Kernel s.Res → Type 0
CopiedBy s cur i k (o, k') = Copied s cur i k k'

module _ (s : Services) (l : Layout) (cur i : ℕ) (k c : Kernel s.Res) (b : Built s i k c)
    (at_cur : c.procs cur ≡ k.procs cur) (pgdir : ℕ) (res : s.Res) (has : pgdir ≢ 0)
    (copied : s.copyuvm (c.procs cur).pgdir (c.procs cur).sz c.res ≡ (pgdir, res)) where
  copied_now : s.copyuvm (k.procs cur).pgdir (k.procs cur).sz (s.kalloc k.res).1 ≡ (pgdir, res)
  copied_now =
      ap (λ p. s.copyuvm p.pgdir p.sz (s.kalloc k.res).1) (sym at_cur)
      ∙ ap (λ r. s.copyuvm (c.procs cur).pgdir (c.procs cur).sz r) (sym b.res)
      ∙ copied

  abbrev moved_frame : Mem
  moved_frame = memmove c.mem (c.procs i).tf (c.procs cur).tf trapframe_size

  abbrev final : Mem
  final = store32 moved_frame ((c.procs i).tf + tf_eax) 0

  other_byte :
      (x : ℕ) → (x < (c.procs i).kstack) ⊎ ((c.procs i).kstack + kstacksize ≤ x) → final x ≡ k.mem x
  other_byte x h = ground (
    arith,
    h,
    b.tf,
    b.memory x h,
    store32_outside moved_frame ((c.procs i).tf + tf_eax) 0 x (omega (arith, h, b.tf)),
    memmove_lem c.mem (c.procs i).tf (c.procs cur).tf trapframe_size x,
  )

  frame_byte :
      (x : ℕ)
      → x < trapframe_size
      → (x < tf_eax) ⊎ (tf_eax + 4 ≤ x)
      → ((k.procs cur).tf + x < (c.procs i).kstack)
        ⊎ ((c.procs i).kstack + kstacksize ≤ (k.procs cur).tf + x)
      → final ((c.procs i).tf + x) ≡ k.mem ((k.procs cur).tf + x)
  frame_byte x lt out h = ground (
    arith,
    ap (λ p. p.tf) at_cur,
    b.memory ((k.procs cur).tf + x) h,
    store32_outside moved_frame ((c.procs i).tf + tf_eax) 0 ((c.procs i).tf + x) (omega arith),
    memmove_lem c.mem (c.procs i).tf (c.procs cur).tf trapframe_size ((c.procs i).tf + x),
    ap c.mem {x = (c.procs cur).tf + ((c.procs i).tf + x - (c.procs i).tf)}
        {y = (k.procs cur).tf + x} (omega (arith, ap (λ p. p.tf) at_cur)),
  )

  pub fork_child-Copied : CopiedBy s cur i k (fork_child s l cur i pgdir (record c { res = res }))
  unfolding fork_child
  fork_child-Copied =
      let at = update_self c.procs i _ in
      record {
        name =
            ap (λ p. p.name) at
            ∙ ap (λ z. safestrcpy z (c.procs cur).name 16) b.name
            ∙ ap (λ p. safestrcpy (k.procs i).name p.name 16) at_cur;
        files = λ d lt.
            ap (λ p. get_or p.ofile d none) at
            ∙ dup_files-inherited s l (c.procs cur).ofile (c.procs i).ofile res d
                (subst (λ f. d < length f) (sym b.ofile) lt)
            ∙ ap (λ p. inherited (get_or p.ofile d none) (get_or (c.procs i).ofile d none)) at_cur
            ∙ ap (λ f. inherited (get_or (k.procs cur).ofile d none) (get_or f d none)) b.ofile;
        kstack = ap (λ p. p.kstack) at ∙ b.kstack;
        tf = ap (λ p. p.tf) at ∙ b.tf ∙ sym (ap (λ p. p.kstack + kstacksize - trapframe_size) at);
        pgdir = ap (λ p. p.pgdir) at ∙ sym (ap (λ q. q.0) copied_now);
        has_pgdir = λ z. has (sym (ap (λ p. p.pgdir) at) ∙ z);
        res =
            ap (λ r. s.idup (c.procs cur).cwd r)
              (dup_files-dup_each s l (c.procs cur).ofile (c.procs i).ofile res)
            ∙ ap (λ p. s.idup p.cwd (dup_each s.filedup (length (c.procs i).ofile) p.ofile res))
                at_cur
            ∙ ap
                (λ f.
                  s.idup (k.procs cur).cwd (dup_each s.filedup (length f) (k.procs cur).ofile res))
                b.ofile
            ∙ ap
                (λ q.
                  s.idup (k.procs cur).cwd
                    (dup_each s.filedup (length (k.procs i).ofile) (k.procs cur).ofile q.1))
                (sym copied_now);
        eax =
            ap (λ p. load32 final (p.tf + tf_eax)) at
            ∙ load32-store32_self moved_frame ((c.procs i).tf + tf_eax) 0 (omega arith);
        frame = λ x lt out apart.
            ap (λ p. final (p.tf + x)) at
            ∙ frame_byte x lt out (omega (arith, apart, ap (λ p. p.kstack) at));
        memory = λ x out. other_byte x (omega (arith, out, ap (λ p. p.kstack) at));
      }
