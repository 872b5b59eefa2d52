-- ===== src/Heap/Tests.antt =====
-- Runs of src/sys/heap.c on a heap of one free block of 4 MB, and on one that has given out 100
-- bytes.
use frod.Base.{◌≡◌, refl, arith, ◌⊎◌, ◌==◌, if◌then◌else◌, []}
use frod.Vmm.{Vmm}
use frod.Heap.{
  Heap, LlMalloc, Outcome, panic, heap_malloc, heap_free, heap_start, find_from, fits, take_block,
  put, set_used, set_size, set_next, set_prev, ◌>>=◌,
}
use frod.Heap.Ring.{IsRing, here, there}
use frod.Heap.Grow.{AllBelow}
use frod.Heap.Serve.{Serves, NoneFits, Grows, heap_malloc-Serves}

abbrev no_pages : Vmm
no_pages = record {
  words = λ a. 0;
  pmm = record { mem = λ a. 0; pmm_bitmap = 0; pmm_bitmap_sz = 1 };
  kernel_dir = 0;
  current_dir = 0;
  cr3 = 0;
}

abbrev first : LlMalloc
first = record {
  next = heap_start;
  prev = heap_start;
  size = 0x3FFFF0;
  used = 0;
  magic1 = 0xabcd;
  magic2 = 0xef;
}

abbrev nothing : LlMalloc
nothing = record { next = 0; prev = 0; size = 0; used = 0; magic1 = 0; magic2 = 0 }

abbrev fresh : Heap
fresh = record {
  blocks = λ a. if a == heap_start then first else nothing;
  kern_heap = heap_start;
  blocks_allocked = 1024;
  vmm = no_pages;
}

fresh-IsRing : IsRing fresh []
fresh-IsRing = record { chain = refl; separate = (omega arith, tt, tt) }

fresh-AllBelow : AllBelow fresh []
fresh-AllBelow _ here = omega arith
fresh-AllBelow _ (there i) = elim i [ ]

heap_malloc-Serves_example :
    Serves fresh [] 102 (heap_malloc 5 101 fresh)
    ⊎ (NoneFits fresh [] 102 × Grows fresh [] 104 (heap_malloc 5 101 fresh))
heap_malloc-Serves_example =
    heap_malloc-Serves 4 101 fresh [] fresh-IsRing (omega arith) (omega arith) fresh-AllBelow
      (λ e. omega arith) (omega arith)

-- A block in use at the start, and an unused one behind it.
abbrev behind : LlMalloc
behind = record {
  next = heap_start;
  prev = heap_start;
  size = 0x400;
  used = 0;
  magic1 = 0xabcd;
  magic2 = 0xef;
}

abbrev in_use : Heap
in_use = record fresh {
  blocks = λ a.
      if a == heap_start
      then record behind { next = 0x20000074; prev = 0x20000074; size = 100; used = 1 }
      else if a == 0x20000074
      then behind
      else nothing;
}

-- The block that is split off has no magic values, and giving back what lies in it stops the
-- machine.
abbrev given : Outcome Heap
given = do (h1, a) ← heap_malloc 3 100 fresh; (h2, b) ← heap_malloc 3 100 h1; heap_free b h2

free_run : given ≡ panic
unfolding heap_malloc heap_free find_from fits take_block put set_used set_size set_next set_prev
free_run = refl
