-- ===== src/Dllist.antt =====
-- The doubly linked list, src/sys/dllist.c. `elems` and `heads` hold the elements and the heads by
-- the addresses that the heap gives; the data that the list points to is an address too, and the
-- comparison functions, which the caller gives, are fields of the head as in the source.
pub mod Find
mod Tests
use frod.Base.{ℕ, zero, suc, ◌+◌, ◌==◌, if◌then◌else◌, Bool, true, false, u32}
use frod.Base.Int.{ℤ, pos, negsuc}
use frod.Heap.{Outcome, done, panic, page_fault, out_of_fuel, ◌>>=◌, Heap, heap_malloc, heap_free}

-- `dllist_lessthan`, whose result is an `int8_t`.
abbrev pub DllistLessthan : Type 0
DllistLessthan = ℕ → ℕ → ℤ

pub record DllistElement : Type 0 where
  pub element : ℕ
  pub prev : ℕ
  pub next : ℕ

pub record DllistHead : Type 0 where
  pub lessthan : DllistLessthan
  pub lessthan_find : DllistLessthan
  pub elem : ℕ
  pub elements : ℕ

pub record Lists : Type 0 where
  pub heap : Heap
  pub elems : ℕ → DllistElement
  pub heads : ℕ → DllistHead

abbrev pub sizeof_element : ℕ
sizeof_element = 12

abbrev pub sizeof_head : ℕ
sizeof_head = 16

unfoldable pub put_elem : ℕ → DllistElement → Lists → Lists
put_elem a x s = record s { elems = λ b. if b == a then x else s.elems b }

unfoldable pub put_head : ℕ → DllistHead → Lists → Lists
put_head a x s = record s { heads = λ b. if b == a then x else s.heads b }

unfoldable pub set_element : ℕ → ℕ → Lists → Lists
set_element a x s = put_elem a (record (s.elems a) { element = x }) s

unfoldable pub point_prev : ℕ → ℕ → Lists → Lists
point_prev a p s = put_elem a (record (s.elems a) { prev = p }) s

unfoldable pub point_next : ℕ → ℕ → Lists → Lists
point_next a n s = put_elem a (record (s.elems a) { next = n }) s

unfoldable pub set_elem : ℕ → ℕ → Lists → Lists
set_elem l e s = put_head l (record (s.heads l) { elem = e }) s

unfoldable pub count_one : ℕ → Lists → Lists
count_one l s = put_head l (record (s.heads l) { elements = u32 ((s.heads l).elements + 1) }) s

-- `heap_malloc(size)`, with the fuel of the heap.
unfoldable pub malloc : ℕ → ℕ → Lists → Outcome (Lists × ℕ)
malloc fuel size s = do (h, a) ← heap_malloc fuel size s.heap; done (record s { heap = h }, a)

unfoldable pub dllist_init : ℕ → ℕ → DllistLessthan → DllistLessthan → Lists → Outcome (Lists × ℕ)
dllist_init fuel el f1 f2 s = do
  (s1, ret) ← malloc fuel sizeof_head s
  (s2, elem) ← malloc fuel sizeof_element s1
  let s3 = point_next elem elem (point_prev elem elem (set_element elem el s2))
  let x : DllistHead = record {
    lessthan = f1;
    lessthan_find = f2;
    elem = elem;
    elements = if el == 0 then 0 else 1;
  }
  done (put_head ret x s3, ret)

unfoldable pub dllist_insert_location : ℕ → ℕ → ℕ → Lists → Outcome Lists
dllist_insert_location fuel bef el s = do
  (s1, elem) ← malloc fuel sizeof_element s
  let s2 = set_element elem el s1
  let s3 = point_next elem (s2.elems bef).next s2
  done (point_prev elem bef (point_next bef elem s3))

-- `cmp > 0`, for an `int8_t`.
unfoldable pub positive : ℤ → Bool
positive (pos zero) = false
positive (pos (suc n)) = true
positive (negsuc n) = false

unfoldable pub is_zero : ℤ → Bool
is_zero (pos zero) = true
is_zero (pos (suc n)) = false
is_zero (negsuc n) = false

-- The new element stands before `curr`, which may have been the first.
unfoldable pub insert_before : ℕ → ℕ → ℕ → ℕ → Lists → Outcome Lists
insert_before fuel l el curr s = do
  let prev = (s.elems curr).prev
  s1 ← dllist_insert_location fuel prev el s
  done (if (s1.heads l).elem == curr then set_elem l prev s1 else s1)

-- The loop of `dllist_insert`, from the element `curr` on; `fuel` is that of the heap.
unfoldable pub insert_from : ℕ → ℕ → ℕ → ℕ → ℕ → Lists → Outcome Lists
insert_from zero fuel l el curr s = out_of_fuel
insert_from (suc rounds) fuel l el curr s =
    let n = (s.elems curr).next in
    let rest = insert_from rounds fuel l el n s in
    if positive ((s.heads l).lessthan el (s.elems curr).element)
    then insert_before fuel l el curr s
    else (if (s.heads l).elem == n then dllist_insert_location fuel (s.elems n).prev el s else rest)

unfoldable pub insert_only : ℕ → ℕ → ℕ → Lists → Outcome Lists
insert_only fuel l el s = do
  (s1, e) ← malloc fuel sizeof_element s
  done (set_element e el (set_elem l e s1))

unfoldable pub dllist_insert : ℕ → ℕ → ℕ → ℕ → Lists → Outcome Lists
dllist_insert rounds fuel l el s =
    let curr = (s.heads l).elem in
    let s1 = count_one l s in
    if curr == 0 then insert_only fuel l el s1 else insert_from rounds fuel l el curr s1

-- In an empty list the element is written through the null pointer.
unfoldable pub dllist_insert_end : ℕ → ℕ → ℕ → Lists → Outcome Lists
dllist_insert_end fuel l el s = do
  let curr = (s.heads l).elem
  (s1, n) ← malloc fuel sizeof_element s
  let s2 = count_one l (set_element n el s1)
  let last = (s2.elems curr).prev
  if curr == 0
      then done (set_element (s2.heads l).elem el s2)
      else done (point_next last n (point_next n (s2.elems last).next s2))

-- The loop of `dllist_find`, from the element `curr` on.
unfoldable pub find_elem_from : ℕ → ℕ → ℕ → ℕ → Lists → Outcome ℕ
find_elem_from zero l val curr s = out_of_fuel
find_elem_from (suc rounds) l val curr s =
    let cmp = (s.heads l).lessthan_find (s.elems curr).element val in
    let rest = find_elem_from rounds l val (s.elems curr).next s in
    if is_zero cmp then done (s.elems curr).element else (if positive cmp then done 0 else rest)

unfoldable pub dllist_find : ℕ → ℕ → ℕ → Lists → Outcome ℕ
dllist_find rounds l val s =
    let curr = (s.heads l).elem in if curr == 0 then done 0 else find_elem_from rounds l val curr s

-- What `dllist_find` gives, the data of the caller, is used as an element of the list.
unfoldable pub unlink : ℕ → ℕ → Lists → Outcome (Lists × ℕ)
unlink l elem s = do
  let s1 = point_next (s.elems elem).prev (s.elems elem).next s
  let ret = (s1.elems elem).element
  let s2 = if (s1.heads l).elem == elem then set_elem l 0 s1 else s1
  h ← heap_free elem s2.heap
  done (record s2 { heap = h }, ret)

unfoldable pub dllist_remove : ℕ → ℕ → ℕ → Lists → Outcome (Lists × ℕ)
dllist_remove rounds l val s = do
  elem ← dllist_find rounds l val s
  if elem == 0 then done (s, 0) else unlink l elem s
