-- ===== src/Dllist/Tests.antt =====
-- Runs of src/sys/dllist.c on a list of the numbers 5 and 8, on a heap of one free block of 4 MB.
use frod.Base.{ℕ, ◌≡◌, refl, arith, [], ◌∷◌, ◌==◌, ◌-◌, ltb, if◌then◌else◌}
use frod.Base.Int.{ℤ, pos, negsuc}
use frod.Vmm.{Vmm}
use frod.Heap.{Heap, LlMalloc, done, heap_start}
use frod.Dllist.{Lists, dllist_find}
use frod.Dllist.Find.{last, link, none_left, one_below, dllist_find_first}

abbrev no_pages : Vmm
no_pages = record {
  words = λ a. 0;
  pmm = record { mem = λ a. 0; pmm_bitmap = 0; pmm_bitmap_sz = 1 };
  kernel_dir = 0;
  current_dir = 0;
  cr3 = 0;
}

abbrev free_block : LlMalloc
free_block = record {
  next = heap_start;
  prev = heap_start;
  size = 0x3FFFF0;
  used = 0;
  magic1 = 0xabcd;
  magic2 = 0xef;
}

abbrev heap : Heap
heap = record {
  blocks = λ a. free_block;
  kern_heap = heap_start;
  blocks_allocked = 1024;
  vmm = no_pages;
}

abbrev compare_numbers : ℕ → ℕ → ℤ
compare_numbers a b = if ltb a b then negsuc (b - a - 1) else pos (a - b)

abbrev two : Lists
two = record {
  heap = heap;
  elems = λ a.
      if a == 100
      then record { element = 5; prev = 200; next = 200 }
      else record { element = 8; prev = 100; next = 100 };
  heads = λ a. record {
    lessthan = compare_numbers;
    lessthan_find = compare_numbers;
    elem = 100;
    elements = 2;
  };
}

dllist_find_first_example : dllist_find 2 16 8 two ≡ done 8
dllist_find_first_example =
    dllist_find_first 16 8 8 0 (5 ∷ []) two (λ e. omega arith) (link refl (last refl))
      (one_below refl none_left) refl
