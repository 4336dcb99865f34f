-- ===== src/Signal/Deliver.antt =====
-- The stack that a user handler starts on, and the saved trap frame.
use osassignment.Prelude.{ℕ, ◌+◌, ◌-◌, ◌^◌, ◌≤◌, ◌<◌, ◌≡◌, ◌⊎◌, ap, arith}
use osassignment.Memory.{Mem, load32, store32, memmove}
use osassignment.Memory.Words.{load32-store32_self, load32-store32_ne, store32_outside, load32_cong}
use osassignment.Memory.Move.{memmove_lem}
use osassignment.Proc.{Proc}
use osassignment.Signal.{
  Image, deliver_frame, push32, handler, tf_esp, tf_eip, sub32, trapframe_size,
}
use osassignment.Signal.Stack.{esp_of, Apart, store-esp, push32-esp, push32-word, push32_outside}

-- There is room below the user's `esp`, and the trap frame, its backup, the injected code and the
-- part of the stack that is written do not meet.
pub record Room (image : Image) (p : Proc) (m : Mem) (e : ℕ) : Type 0 where
  pub at : esp_of p.tf m ≡ e
  pub word : e < 2 ^ 32
  pub room : image.size + 8 ≤ e
  pub frame_stack : Apart p.tf trapframe_size (e - (image.size + 8)) (image.size + 8)
  pub backup_frame : Apart p.trap_backup trapframe_size p.tf trapframe_size
  pub backup_stack : Apart p.trap_backup trapframe_size (e - (image.size + 8)) (image.size + 8)
  pub code_frame : Apart image.code image.size p.tf trapframe_size
  pub code_backup : Apart image.code image.size p.trap_backup trapframe_size

module _ (image : Image) (i : ℕ) (p : Proc) (m : Mem) (e : ℕ) (r : Room image p m e) where
  open p use {tf, trap_backup}
  open r use {at, word, room, frame_stack, backup_frame, backup_stack, code_frame, code_backup}

  abbrev m0 : Mem
  m0 = memmove m trap_backup tf trapframe_size

  abbrev m1 : Mem
  m1 = store32 m0 (tf + tf_esp) (sub32 (load32 m0 (tf + tf_esp)) image.size)

  abbrev injected : ℕ
  injected = e - image.size

  abbrev m2 : Mem
  m2 = memmove m1 injected image.code image.size

  abbrev m3 : Mem
  m3 = push32 tf i m2

  abbrev m4 : Mem
  m4 = store32 m3 (tf + tf_eip) (handler p i)

  m0-at : (x : ℕ) → Apart trap_backup trapframe_size x 1 → m0 x ≡ m x
  m0-at x a = ground (arith, memmove_lem m trap_backup tf trapframe_size x)

  m0-esp : esp_of tf m0 ≡ e
  m0-esp = omega (
    arith,
    load32_cong m0 m (tf + tf_esp) (tf + tf_esp) (m0-at (tf + tf_esp) (omega arith))
        (m0-at (tf + tf_esp + 1) (omega arith)) (m0-at (tf + tf_esp + 2) (omega arith))
        (m0-at (tf + tf_esp + 3) (omega arith)),
  )

  m1-esp : esp_of tf m1 ≡ injected
  m1-esp =
      omega
        (arith, m0-esp, store-esp tf m0 (sub32 (load32 m0 (tf + tf_esp)) image.size) (omega arith))

  abbrev m5 : Mem
  m5 = push32 tf injected m4

  deliver_frame-m5 : deliver_frame image i p m ≡ m5
  unfolding deliver_frame
  deliver_frame-m5 = rw m1-esp

  m2-at : (x : ℕ) → Apart injected image.size x 1 → m2 x ≡ m1 x
  m2-at x a = ground (arith, memmove_lem m1 injected image.code image.size x)

  m2-esp : esp_of tf m2 ≡ injected
  m2-esp = omega (
    arith,
    m1-esp,
    load32_cong m2 m1 (tf + tf_esp) (tf + tf_esp) (m2-at (tf + tf_esp) (omega arith))
        (m2-at (tf + tf_esp + 1) (omega arith)) (m2-at (tf + tf_esp + 2) (omega arith))
        (m2-at (tf + tf_esp + 3) (omega arith)),
  )

  m3-esp : esp_of tf m3 ≡ injected - 4
  m3-esp = push32-esp tf m2 i injected m2-esp (omega arith) (omega arith) (omega arith)

  m4-esp : esp_of tf m4 ≡ injected - 4
  m4-esp =
      omega (
        arith,
        m3-esp,
        load32-store32_ne m3 (tf + tf_eip) (tf + tf_esp) (handler p i) (omega arith),
      )

  m5_outside :
      (x : ℕ)
      → (x < tf + tf_esp) ⊎ (tf + tf_esp + 4 ≤ x)
      → (x < injected - 8) ⊎ (injected - 4 ≤ x)
      → m5 x ≡ m4 x
  m5_outside x h g =
      push32_outside tf m4 injected (injected - 4) m4-esp (omega arith) (omega arith) (omega arith)
        x h (omega arith)

  m3_outside :
      (x : ℕ)
      → (x < tf + tf_esp) ⊎ (tf + tf_esp + 4 ≤ x)
      → (x < injected - 4) ⊎ (injected ≤ x)
      → m3 x ≡ m2 x
  m3_outside x = push32_outside tf m2 i injected m2-esp (omega arith) (omega arith) (omega arith) x

  m5-m2 : (x : ℕ) → Apart tf trapframe_size x 1 → Apart (injected - 8) 8 x 1 → m5 x ≡ m2 x
  m5-m2 x a b = omega (
    arith,
    m5_outside x (omega arith) (omega arith),
    store32_outside m3 (tf + tf_eip) (handler p i) x (omega arith),
    m3_outside x (omega arith) (omega arith),
  )

  m1-at : (x : ℕ) → Apart tf trapframe_size x 1 → m1 x ≡ m0 x
  m1-at x a =
      store32_outside m0 (tf + tf_esp) (sub32 (load32 m0 (tf + tf_esp)) image.size) x (omega arith)

  pub deliver_frame-esp : esp_of tf (deliver_frame image i p m) ≡ e - (image.size + 8)
  deliver_frame-esp = rw deliver_frame-m5 (
      omega (
        arith,
        push32-esp tf m4 injected (injected - 4) m4-esp (omega arith) (omega arith) (omega arith),
      ))

  deliver_frame-return : load32 (deliver_frame image i p m) (e - (image.size + 8)) ≡ injected
  deliver_frame-return =
      let q : e - (image.size + 8) ≡ injected - 4 - 4 = omega arith in
      rw (deliver_frame-m5, q)
        (push32-word tf m4 injected (injected - 4) m4-esp (omega arith) (omega arith) (omega arith)
          (omega arith))

  m3-word : i < 32 → load32 m3 (injected - 4) ≡ i
  m3-word h =
      push32-word tf m2 i injected m2-esp (omega arith) (omega arith) (omega arith) (omega arith)

  -- The words that `push32` and the store into the frame do not touch.
  m5-m3 : (x : ℕ) → Apart tf trapframe_size x 1 → Apart (injected - 8) 4 x 1 → m5 x ≡ m3 x
  m5-m3 x a b = omega (
    arith,
    m5_outside x (omega arith) (omega arith),
    store32_outside m3 (tf + tf_eip) (handler p i) x (omega arith),
  )

  deliver_frame-argument : i < 32 → load32 (deliver_frame image i p m) (e - (image.size + 4)) ≡ i
  deliver_frame-argument h =
      let q : e - (image.size + 4) ≡ injected - 4 = omega arith in
      rw (deliver_frame-m5, q)
        (omega (
          arith,
          m3-word h,
          load32_cong m5 m3 (injected - 4) (injected - 4)
              (m5-m3 (injected - 4) (omega arith) (omega arith))
              (m5-m3 (injected - 4 + 1) (omega arith) (omega arith))
              (m5-m3 (injected - 4 + 2) (omega arith) (omega arith))
              (m5-m3 (injected - 4 + 3) (omega arith) (omega arith)),
        ))

  deliver_frame-eip :
      handler p i < 2 ^ 32 → load32 (deliver_frame image i p m) (tf + tf_eip) ≡ handler p i
  deliver_frame-eip h = rw deliver_frame-m5 (
      omega (
        arith,
        load32-store32_self m3 (tf + tf_eip) (handler p i) h,
        load32_cong m5 m4 (tf + tf_eip) (tf + tf_eip)
            (m5_outside (tf + tf_eip) (omega arith) (omega arith))
            (m5_outside (tf + tf_eip + 1) (omega arith) (omega arith))
            (m5_outside (tf + tf_eip + 2) (omega arith) (omega arith))
            (m5_outside (tf + tf_eip + 3) (omega arith) (omega arith)),
      ))

  m1-m : (x : ℕ) → Apart tf trapframe_size x 1 → Apart trap_backup trapframe_size x 1 → m1 x ≡ m x
  m1-m x a b = omega (arith, m1-at x a, m0-at x b)

  deliver_frame-code :
      (k : ℕ) → k < image.size → deliver_frame image i p m (injected + k) ≡ m (image.code + k)
  deliver_frame-code k h = rw deliver_frame-m5 (
      ground (
        arith,
        m5-m2 (injected + k) (omega arith) (omega arith),
        memmove_lem m1 injected image.code image.size (injected + k),
        m1-m (image.code + k) (omega arith) (omega arith),
        ap m1 {x = image.code + (injected + k - injected)} {y = image.code + k} (omega arith),
      ))

  -- The backup holds the trap frame as it was before.
  pub deliver_frame-backup :
      (k : ℕ) → k < trapframe_size → deliver_frame image i p m (trap_backup + k) ≡ m (tf + k)
  deliver_frame-backup k h = rw deliver_frame-m5 (
      ground (
        arith,
        m5-m2 (trap_backup + k) (omega arith) (omega arith),
        m2-at (trap_backup + k) (omega arith),
        m1-at (trap_backup + k) (omega arith),
        memmove_lem m trap_backup tf trapframe_size (trap_backup + k),
        ap m {x = tf + (trap_backup + k - trap_backup)} {y = tf + k} (omega arith),
      ))

  -- Every byte outside the frame, the backup and the part of the stack below `esp` is unchanged.
  pub deliver_frame_outside :
      (x : ℕ)
      → Apart tf trapframe_size x 1
      → Apart trap_backup trapframe_size x 1
      → Apart (e - (image.size + 8)) (image.size + 8) x 1
      → deliver_frame image i p m x ≡ m x
  deliver_frame_outside x a b c =
      rw deliver_frame-m5
        (omega (arith, m5-m2 x a (omega arith), m2-at x (omega arith), m1-m x a b))

  -- The bytes of the frame that are not those of `esp` and `eip`.
  deliver_frame-frame :
      (x : ℕ)
      → tf ≤ x
      → x < tf + trapframe_size
      → Apart (tf + tf_esp) 4 x 1
      → Apart (tf + tf_eip) 4 x 1
      → deliver_frame image i p m x ≡ m x
  deliver_frame-frame x lo hi b c = rw deliver_frame-m5 (
      omega (
        arith,
        m5_outside x (omega arith) (omega arith),
        store32_outside m3 (tf + tf_eip) (handler p i) x (omega arith),
        m3_outside x (omega arith) (omega arith),
        m2-at x (omega arith),
        store32_outside m0 (tf + tf_esp) (sub32 (load32 m0 (tf + tf_esp)) image.size) x
            (omega arith),
        m0-at x (omega arith),
      ))

  -- What the user handler finds.
  pub record Entry (f : Mem) : Type 0 where
    pub esp : esp_of tf f ≡ e - (image.size + 8)
    pub return : load32 f (e - (image.size + 8)) ≡ e - image.size
    pub argument : load32 f (e - (image.size + 4)) ≡ i
    pub eip : load32 f (tf + tf_eip) ≡ handler p i
    pub code : (k : ℕ) → k < image.size → f (e - image.size + k) ≡ m (image.code + k)
    pub backup : (k : ℕ) → k < trapframe_size → f (trap_backup + k) ≡ m (tf + k)
    pub frame :
        (x : ℕ)
        → tf ≤ x
        → x < tf + trapframe_size
        → Apart (tf + tf_esp) 4 x 1
        → Apart (tf + tf_eip) 4 x 1
        → f x ≡ m x
    pub elsewhere :
        (x : ℕ)
        → Apart tf trapframe_size x 1
        → Apart trap_backup trapframe_size x 1
        → Apart (e - (image.size + 8)) (image.size + 8) x 1
        → f x ≡ m x

  -- Where the regions do not meet and the stack has room, a user handler starts at its address with
  -- `esp` at a return address that points to a copy of the sigret code, the signal number above it
  -- as the argument; the backup holds the old trap frame; of the frame only `esp` and `eip` have
  -- changed, and nothing else but the backup and the bytes of the stack below the old `esp`.
  pub deliver_frame-Entry : i < 32 → handler p i < 2 ^ 32 → Entry (deliver_frame image i p m)
  deliver_frame-Entry h g = record {
    esp = deliver_frame-esp;
    return = deliver_frame-return;
    argument = deliver_frame-argument h;
    eip = deliver_frame-eip g;
    code = deliver_frame-code;
    backup = deliver_frame-backup;
    frame = deliver_frame-frame;
    elsewhere = deliver_frame_outside;
  }
