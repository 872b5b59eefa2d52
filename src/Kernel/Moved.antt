-- ===== src/Kernel/Moved.antt =====
-- The new stack that `move_stack`, src/sys/kernel.c, leaves.
use frod.Base.{
  ℕ, zero, suc, ◌+◌, ◌-◌, ◌*◌, ◌/◌, ◌%◌, ◌^◌, ◌<◌, ◌≤◌, ◌≡◌, ◌≢◌, ◌⊎◌, inl, inr, refl, ◌∙◌, ap,
  arith, leb, ltb, ◌&&◌, Bool-cases, if◌then◌else◌, Memory, read32, write, u32, true, false,
}
use frod.Heap.{done}
use frod.Strings.{memcpy}
use frod.Strings.Copy.{moved, memcpy-moved}
use frod.Cpu.{write32}
use frod.Cpu.Area.{read32-write32}
use frod.Vmm.{Vmm}
use frod.Kernel.Stack.{Running, map_pages, shift, shift_word, shift_words, move_stack}

write32_outside : (m : Memory) (a v b : ℕ) → (b < a) ⊎ (a + 4 ≤ b) → write32 m a v b ≡ m b
unfolding write32 write
write32_outside m a v b out = ground arith

same_bytes :
    (m m' : Memory) (a : ℕ) → ((b : ℕ) → a ≤ b → b < a + 4 → m' b ≡ m b) → read32 m' a ≡ read32 m a
unfolding read32
same_bytes m m' a e =
    rw
      (
        e a (omega arith) (omega arith),
        e (a + 1) (omega arith) (omega arith),
        e (a + 2) (omega arith) (omega arith),
        e (a + 3) (omega arith) (omega arith),
      )
      refl

module _ (old init off : ℕ) where
  shift_word-here :
      (i : ℕ) (m : Memory)
      → read32 (shift_word old init off i m) i ≡ shift old init off (read32 m i)
  unfolding shift_word shift
  shift_word-here i m = elim (Bool-cases (ltb old (read32 m i) && ltb (read32 m i) init)) [
    | inl inside ↦ rw inside (read32-write32 m i _ (omega arith))
    | inr outside ↦ rw outside refl
  ]

  shift_word-outside :
      (i : ℕ) (m : Memory) (b : ℕ) → (b < i) ⊎ (i + 4 ≤ b) → shift_word old init off i m b ≡ m b
  unfolding shift_word
  shift_word-outside i m b out = elim (Bool-cases (ltb old (read32 m i) && ltb (read32 m i) init)) [
    | inl inside ↦ rw inside (write32_outside m i _ b out)
    | inr outside ↦ rw outside refl
  ]

  shift_words_step :
      (fuel bottom i below : ℕ) (m m' : Memory)
      → leb bottom i ≡ true
      → u32 (i + 2 ^ 32 - 4) ≡ below
      → shift_words fuel old init off bottom below (shift_word old init off i m) ≡ done m'
      → shift_words (suc fuel) old init off bottom i m ≡ done m'
  unfolding shift_words
  shift_words_step fuel bottom i below m m' above next e = rw (above, next) e

  -- The `count` words from `bottom` on are shifted, the highest first.
  record AreShifted (bottom count : ℕ) (m m' : Memory) : Type 0 where
    shifted :
        (j : ℕ)
        → j < count
        → read32 m' (bottom + 4 * j) ≡ shift old init off (read32 m (bottom + 4 * j))
    stays : (b : ℕ) → (b < bottom) ⊎ (bottom + 4 * count ≤ b) → m' b ≡ m b

  shift_words-AreShifted :
      (fuel count bottom i : ℕ) (m : Memory)
      → count < fuel
      → 4 ≤ bottom
      → i + 4 ≡ bottom + 4 * count
      → i < 2 ^ 32
      → (m' : Memory) × (shift_words fuel old init off bottom i m ≡ done m')
        × AreShifted bottom count m m'
  unfolding shift_words
  shift_words-AreShifted zero count bottom i m enough low here small = absurd (omega arith)
  shift_words-AreShifted (suc fuel) zero bottom i m enough low here small =
      let below : leb bottom i ≡ false = ground arith in
      (m, rw below refl, record { shifted = λ j lt. absurd (omega arith); stays = λ b out. refl })
  shift_words-AreShifted (suc fuel) (suc count) bottom i m enough low here small =
      let above : leb bottom i ≡ true = ground arith in
      let next : u32 (i + 2 ^ 32 - 4) ≡ i - 4 = omega arith in
      let m1 = shift_word old init off i m in
      let (m', e, s) =
        shift_words-AreShifted fuel count bottom (i - 4) m1 (omega arith) low (omega arith)
          (omega arith) in
      (
        m',
        shift_words_step fuel bottom i (i - 4) m m' above next e,
        record {
          shifted = λ j lt. elim (Bool-cases (ltb j count)) [
            | inl inner ↦
                s.shifted j (ground arith)
                ∙ ap (shift old init off) (
                    same_bytes m m1 (bottom + 4 * j)
                      (λ b lo hi. shift_word-outside i m b (ground (arith, inner))))
            | inr top ↦
                let e' : bottom + 4 * j ≡ i = ground arith in
                rw e'
                  (same_bytes m1 m' i (λ b lo hi. s.stays b (ground arith)) ∙ shift_word-here i m)
          ];
          stays = λ b out. s.stays b (ground arith) ∙ shift_word-outside i m b (ground arith);
        },
      )

-- A pointer into the old stack, at the same distance from the top of the new one.
pub follows : ℕ → ℕ → ℕ → ℕ → ℕ
follows new_stack old_stack init_esp w =
    if ltb old_stack w && ltb w init_esp then new_stack - (init_esp - w) else w

module _ (fuel new_stack sz init_esp : ℕ) (s : Running) (v : Vmm)
    (pages : map_pages fuel (new_stack - sz) new_stack s.vmm ≡ done v) (enough : sz / 4 + 1 < fuel)
    (words : sz % 4 ≡ 0) (low : sz + 4 ≤ new_stack) (high : new_stack < 2 ^ 32)
    (used : s.esp ≤ init_esp) (used_words : (init_esp - s.esp) % 4 ≡ 0)
    (fits : init_esp - s.esp ≤ sz) (not_null : s.esp ≢ 0) (below_end : init_esp < 2 ^ 32)
    (apart : (init_esp ≤ new_stack - sz) ⊎ (new_stack + 4 ≤ s.esp)) where
  abbrev depth : ℕ
  depth = init_esp - s.esp

  abbrev offset : ℕ
  offset = u32 (new_stack + 2 ^ 32 - init_esp)

  abbrev copied : Memory
  copied = (memcpy (new_stack - depth) s.esp depth s.mem).0

  copied_is : (a : ℕ) → copied a ≡ moved (new_stack - depth) s.esp depth s.mem a
  copied_is a =
      (memcpy-moved (new_stack - depth) s.esp depth s.mem a (λ e. absurd (omega arith)) not_null
        (ground arith)).0

  copied_byte : (a k : ℕ) → a ≡ new_stack - depth + k → k < depth → copied a ≡ s.mem (s.esp + k)
  unfolding moved
  copied_byte a k e lt =
      let at : a - (new_stack - depth) ≡ k = omega arith in copied_is a ∙ rw at (ground arith)

  copied_word :
      (j : ℕ)
      → 4 * j < depth
      → read32 copied (new_stack - depth + 4 * j) ≡ read32 s.mem (s.esp + 4 * j)
  unfolding read32
  copied_word j lt =
      let b0 = copied_byte (new_stack - depth + 4 * j) (4 * j) (omega arith) (omega arith) in
      let b1 =
        copied_byte (new_stack - depth + 4 * j + 1) (4 * j + 1) (omega arith) (omega arith) in
      let b2 =
        copied_byte (new_stack - depth + 4 * j + 2) (4 * j + 2) (omega arith) (omega arith) in
      let b3 =
        copied_byte (new_stack - depth + 4 * j + 3) (4 * j + 3) (omega arith) (omega arith) in
      rw (b0, b1, b2, b3) (ground arith)

  copied_outside : (b : ℕ) → (b < new_stack - depth) ⊎ (new_stack ≤ b) → copied b ≡ s.mem b
  unfolding moved
  copied_outside b out = copied_is b ∙ ground arith

  shift-follows : (w : ℕ) → shift s.esp init_esp offset w ≡ follows new_stack s.esp init_esp w
  unfolding shift follows
  shift-follows w = ground arith

  move_stack_returns :
      (m : Memory)
      → shift_words fuel s.esp init_esp offset (new_stack - sz) new_stack copied ≡ done m
      → move_stack fuel new_stack sz init_esp s
        ≡ done (record { vmm = v; mem = m; esp = new_stack - depth; ebp = u32 (s.ebp + offset) })
  unfolding move_stack
  move_stack_returns m e =
      let bottom : u32 (new_stack + 2 ^ 32 - sz) ≡ new_stack - sz = omega arith in
      let ptr : u32 (s.esp + offset) ≡ new_stack - depth = omega arith in
      let num : u32 (init_esp + 2 ^ 32 - s.esp) ≡ depth = omega arith in
      rw bottom (rw pages (rw ptr (rw num (rw e refl))))

  -- A word that the copy leaves.
  copied_word_outside :
      (a : ℕ) → (a + 4 ≤ new_stack - depth) ⊎ (new_stack ≤ a) → read32 copied a ≡ read32 s.mem a
  copied_word_outside a out = same_bytes s.mem copied a (λ b lo hi. copied_outside b (ground arith))

  -- Where the loop over the pages ends with the page tables `v`, the used part of the old stack fits
  -- the new one and does not overlap it or the word above it, `move_stack` returns with these tables
  -- and with both stack registers moved by the distance of the two tops. The new stack is used as
  -- far from its top as the old one was, and each of its words is that of the old one, a pointer
  -- into the old stack turned into one at the same distance from the new top. The words below, and
  -- the one at the top itself, which lies above the stack, are turned in the same way where they
  -- stand. No byte below the new stack or above that word changes.
  pub move_stack-IsMoved :
      (t : Running) × (move_stack fuel new_stack sz init_esp s ≡ done t)
      × (t.vmm ≡ v)
      × (t.esp ≡ new_stack - depth)
      × (t.ebp ≡ u32 (s.ebp + u32 (new_stack + 2 ^ 32 - init_esp)))
      × ((j : ℕ)
          → 4 * j < depth
          → read32 t.mem (t.esp + 4 * j)
            ≡ follows new_stack s.esp init_esp (read32 s.mem (s.esp + 4 * j)))
      × ((j : ℕ)
          → new_stack - sz + 4 * j < t.esp
          → read32 t.mem (new_stack - sz + 4 * j)
            ≡ follows new_stack s.esp init_esp (read32 s.mem (new_stack - sz + 4 * j)))
      × (read32 t.mem new_stack ≡ follows new_stack s.esp init_esp (read32 s.mem new_stack))
      × ((b : ℕ) → (b < new_stack - sz) ⊎ (new_stack + 4 ≤ b) → t.mem b ≡ s.mem b)
  move_stack-IsMoved =
      let (m, e, k) =
        shift_words-AreShifted s.esp init_esp offset fuel (sz / 4 + 1) (new_stack - sz) new_stack
          copied enough (omega arith) (omega arith) high in
      (
        record { vmm = v; mem = m; esp = new_stack - depth; ebp = u32 (s.ebp + offset) },
        move_stack_returns m e,
        refl,
        refl,
        refl,
        λ j lt.
            let place : new_stack - sz + 4 * ((sz - depth) / 4 + j) ≡ new_stack - depth + 4 * j =
              omega arith in
            rw place at (k.shifted ((sz - depth) / 4 + j) (omega arith))
            ∙ shift-follows _
            ∙ ap (follows new_stack s.esp init_esp) (copied_word j lt),
        λ j lt.
            k.shifted j (omega arith)
            ∙ shift-follows _
            ∙ ap (follows new_stack s.esp init_esp) (copied_word_outside _ (inl (omega arith))),
        (let place : new_stack - sz + 4 * (sz / 4) ≡ new_stack = omega arith in
            rw place at (k.shifted (sz / 4) (omega arith))
            ∙ shift-follows _
            ∙ ap (follows new_stack s.esp init_esp) (copied_word_outside _ (inr (omega arith)))),
        λ b out. k.stays b (ground arith) ∙ copied_outside b (ground arith),
      )
