-- ===== src/Heap.antt =====
-- The kernel heap, src/sys/heap.c: blocks in a ring, each behind a header. `blocks` holds the
-- headers by their virtual addresses. The lock, which only `heap_init` takes, is left out.
pub mod Ring
pub mod Split
pub mod Malloc
pub mod Grow
pub mod Serve
pub mod Free
mod Tests
use frod.Base.{
  ℕ, zero, suc, ◌+◌, ◌-◌, ◌*◌, ◌%◌, Option, none, some, Bool, ◌==◌, ◌&&◌, ltb, leb, not,
}
use frod.Base.{if◌then◌else◌, u32}
use frod.Base.Int.{ℤ, pos, negsuc}
use frod.Pmm.{pmm_alloc_first}
use frod.Vmm.{Vmm, vmm_map_page, page_writable}

-- What a call comes to: it returns, it stops the machine, it meets a page that is not mapped, or
-- its loop did not end within the fuel.
pub data Outcome (A : Type 0) : Type 0 where
  done : A → Outcome A
  panic : Outcome A
  page_fault : Outcome A
  out_of_fuel : Outcome A

infixl 5 ◌>>=◌
abbrev pub ◌>>=◌ : {A B : Type 0} → Outcome A → (A → Outcome B) → Outcome B
done a >>= f = f a
panic >>= f = panic
page_fault >>= f = page_fault
out_of_fuel >>= f = out_of_fuel

pub record LlMalloc : Type 0 where
  pub next : ℕ
  pub prev : ℕ
  pub size : ℕ
  pub used : ℕ
  pub magic1 : ℕ
  pub magic2 : ℕ

-- `sizeof(LlMalloc)`.
abbrev pub sizeof_llmalloc : ℕ
sizeof_llmalloc = 16

pub record Heap : Type 0 where
  pub blocks : ℕ → LlMalloc
  pub kern_heap : ℕ
  pub blocks_allocked : ℕ
  pub vmm : Vmm

-- `HEAP_BLOCKS` and `HEAP_START`.
abbrev pub heap_blocks : ℕ
heap_blocks = 1024

abbrev pub heap_start : ℕ
heap_start = 0x20000000

unfoldable pub put : ℕ → LlMalloc → Heap → Heap
put a x h = record h { blocks = λ b. if b == a then x else h.blocks b }

unfoldable pub set_next : ℕ → ℕ → Heap → Heap
set_next a n h = put a (record (h.blocks a) { next = n }) h

unfoldable pub set_prev : ℕ → ℕ → Heap → Heap
set_prev a p h = put a (record (h.blocks a) { prev = p }) h

unfoldable pub set_size : ℕ → ℕ → Heap → Heap
set_size a sz h = put a (record (h.blocks a) { size = sz }) h

unfoldable pub set_used : ℕ → ℕ → Heap → Heap
set_used a u h = put a (record (h.blocks a) { used = u }) h

unfoldable pub mapped : Heap → Option (Vmm × ℤ) → Outcome Heap
mapped h none = page_fault
mapped h (some (v, pos zero)) = done (record h { vmm = v; blocks_allocked = h.blocks_allocked + 1 })
mapped h (some (v, pos (suc n))) = panic
mapped h (some (v, negsuc n)) = panic

-- The loop of `heap_get_new_block`, with `left` pages to map.
unfoldable pub map_blocks : ℕ → Heap → Outcome Heap
map_blocks zero h = done h
map_blocks (suc left) h = do
  let (pmm', phys) = pmm_alloc_first h.vmm.pmm
  let virt = u32 (heap_start + h.blocks_allocked * 4096)
  h' ← mapped h (vmm_map_page phys virt page_writable (record h.vmm { pmm = pmm' }))
  map_blocks left h'

unfoldable pub link_block : ℕ → ℕ → Heap → Heap
link_block prev ret h =
    if not (prev == 0)
    then set_next prev ret (set_prev ret prev (set_next ret (h.blocks prev).next h))
    else set_prev ret ret (set_next ret ret h)

unfoldable pub heap_get_new_block : ℕ → Heap → Outcome (Heap × ℕ)
heap_get_new_block prev h = do
  let ret = u32 (heap_start + h.blocks_allocked * 4096)
  h1 ← map_blocks heap_blocks h
  let h2 = link_block prev ret h1
  let x = record (h2.blocks ret) {
    size = 4096 * heap_blocks - sizeof_llmalloc;
    used = 0;
    magic1 = 0xabcd;
    magic2 = 0xef;
  }
  done (put ret x h2, ret)

unfoldable pub heap_init : Heap → Outcome Heap
heap_init h = do
  (h1, first) ← heap_get_new_block 0 (record h { blocks_allocked = 0 })
  done (record h1 { kern_heap = first })

unfoldable pub fits : ℕ → LlMalloc → Bool
fits sz b = (b.used == 0) && leb sz b.size

-- The search of `heap_malloc`, from block `it` on; where no block fits it stops at `end` again.
unfoldable pub find_from : ℕ → ℕ → ℕ → ℕ → Heap → Outcome ℕ
find_from zero sz end it h = out_of_fuel
find_from (suc fuel) sz end it h =
    let n = (h.blocks it).next in
    let rest = find_from fuel sz end n h in
    if fits sz (h.blocks it) then done it else (if n == end then done n else rest)

-- Block `it` is taken, and what it has beyond `sz` bytes and a header becomes a block.
unfoldable pub take_block : ℕ → ℕ → Heap → Heap
take_block sz it h =
    let h1 = set_used it 1 h in
    let n = u32 (it + sz + sizeof_llmalloc) in
    let h2 = set_size n ((h1.blocks it).size - sizeof_llmalloc - sz) (set_used n 0 h1) in
    let h3 = set_next it n (set_prev n it (set_next n (h2.blocks it).next h2)) in
    if ltb sizeof_llmalloc ((h.blocks it).size - sz) then set_size it sz h3 else h1

unfoldable pub heap_malloc : ℕ → ℕ → Heap → Outcome (Heap × ℕ)
heap_malloc zero arg h = out_of_fuel
heap_malloc (suc fuel) arg h =
    let sz = u32 (arg + arg % 4) in
    if ltb (4096 - sizeof_llmalloc) sz then panic else (do
      it ← find_from fuel sz h.kern_heap h.kern_heap h
      if fits sz (h.blocks it)
          then done (take_block sz it h, u32 (it + sizeof_llmalloc))
          else (do (h', block) ← heap_get_new_block it h; heap_malloc fuel sz h'))

-- Where `free` is joined with the block before it, that block goes on as `free`.
unfoldable pub join_prev : ℕ → Heap → Heap × ℕ
join_prev free h =
    let p = (h.blocks free).prev in
    let size = u32 ((h.blocks p).size + ((h.blocks (h.blocks p).next).size + sizeof_llmalloc)) in
    let h1 = set_size p size h in
    let q = (h1.blocks p).prev in
    if not (p == free) && ((h.blocks p).used == 0) && (u32 (p + (h.blocks p).size) == free)
    then (
      (if q == (h1.blocks p).next
          then set_next p p (set_prev p p h1)
          else set_next p (h1.blocks (h1.blocks p).next).next h1),
      p,
    )
    else (h, free)

unfoldable pub join_next : ℕ → Heap → Heap
join_next free h =
    let n = (h.blocks free).next in
    let h1 = set_size free (u32 ((h.blocks free).size + ((h.blocks n).size + sizeof_llmalloc))) h in
    if not (n == free) && ((h.blocks n).used == 0)
    then (if (h1.blocks free).next == (h1.blocks free).prev
        then set_next free free (set_prev free free h1)
        else set_next free (h1.blocks (h1.blocks free).next).next h1)
    else h

unfoldable pub heap_free : ℕ → Heap → Outcome Heap
heap_free addr h =
    let free = u32 (addr + 0x100000000 - sizeof_llmalloc) in
    let b = h.blocks free in
    if (b.used == 1) && (b.magic1 == 0xabcd) && (b.magic2 == 0xef)
    then (let (h1, free') = join_prev free h in done (join_next free' h1))
    else panic
