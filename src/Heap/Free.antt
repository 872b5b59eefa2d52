-- ===== src/Heap/Free.antt =====
-- What `heap_free`, src/sys/heap.c, changes and what it leaves as it is.
use frod.Base.{ℕ, ◌+◌, ◌≡◌, ◌≢◌, Bool, false, ◌==◌, ◌&&◌, not, if◌then◌else◌, u32}
use frod.Heap.{Heap, LlMalloc, fits}

-- The same blocks are in use.
abbrev pub SameUse : Heap → Heap → Type 0
SameUse h t = (y : ℕ) → (t.blocks y).used ≡ (h.blocks y).used

-- What the two joins do to the sizes: a block takes `sz` as its size, and no other changes.
abbrev SizeSet : ℕ → ℕ → Heap → Heap → Type 0
SizeSet a sz h t = (y : ℕ) → (t.blocks y).size ≡ (if y == a then sz else (h.blocks y).size)

-- The test of the header.
abbrev pub has_header : LlMalloc → Bool
has_header b = (b.used == 1) && (b.magic1 == 0xabcd) && (b.magic2 == 0xef)

-- The block before `free` in the ring is another one that is unused and ends where `free` begins.
abbrev pub meets_prev : Heap → ℕ → Bool
meets_prev h free =
    let p = (h.blocks free).prev in
    not (p == free) && ((h.blocks p).used == 0) && (u32 (p + (h.blocks p).size) == free)

-- The block behind `free` in the ring is another one that is unused.
abbrev pub meets_next : Heap → ℕ → Bool
meets_next h free = let n = (h.blocks free).next in not (n == free) && ((h.blocks n).used == 0)

-- The size of block `a` with the block behind it in the ring and its header.
abbrev pub joint_size : Heap → ℕ → ℕ
joint_size h a = u32 ((h.blocks a).size + ((h.blocks (h.blocks a).next).size + 16))

-- From `h` to `t` block `free` is joined with the block behind it in the ring, if that one is
-- unused; the same blocks are in use, so that a search passes `free` over.
pub record IsFreed (free : ℕ) (h t : Heap) : Type 0 where
  pub used : SameUse h t
  pub joined :
      (t.blocks free).size ≡ (if meets_next h free then joint_size h free else (h.blocks free).size)
  pub sizes : (y : ℕ) → y ≢ free → (t.blocks y).size ≡ (h.blocks y).size
  pub passed : (sz : ℕ) → fits sz (t.blocks free) ≡ false
