-- ===== src/Dllist/Find.antt =====
-- What `dllist_find` gives, src/sys/dllist.c, against the list of the data.
use frod.Base.{
  ℕ, zero, suc, ◌+◌, ◌==◌, if◌then◌else◌, ◌≡◌, refl, ◌≢◌, arith, false, List, [], ◌∷◌, length,
}
use frod.Base.Int.{pos, negsuc}
use frod.Heap.{done}
use frod.Dllist.{Lists, DllistLessthan, dllist_find, find_elem_from, is_zero, positive}

-- The elements from `a` on, along `next`, point to the data `xs`, and then to `y`.
pub data IsChain (s : Lists) (y : ℕ) : ℕ → List ℕ → Type 0 where
  last : {a : ℕ} → (s.elems a).element ≡ y → IsChain s y a []
  link :
      {a : ℕ} {x : ℕ} {xs : List ℕ}
      → (s.elems a).element ≡ x
      → IsChain s y (s.elems a).next xs
      → IsChain s y a (x ∷ xs)

-- The data `xs` all compare as below `val`.
pub data AreBelow (f : DllistLessthan) (val : ℕ) : List ℕ → Type 0 where
  none_left : AreBelow f val []
  one_below :
      {x : ℕ} {xs : List ℕ} {n : ℕ}
      → f x val ≡ negsuc n
      → AreBelow f val xs
      → AreBelow f val (x ∷ xs)

find_elem_from_first :
    (l val y n : ℕ) (s : Lists)
    → (s.heads l).lessthan_find y val ≡ pos n
    → (a : ℕ) (xs : List ℕ) → IsChain s y a xs
    → AreBelow (s.heads l).lessthan_find val xs
    → find_elem_from (suc (length xs)) l val a s ≡ done (if n == 0 then y else 0)
unfolding find_elem_from is_zero positive
find_elem_from_first l val y zero s at_y a [] (last here) below = rw here (rw at_y refl)
find_elem_from_first l val y (suc n) s at_y a [] (last here) below =
    let off : (suc n == 0) ≡ false = ground arith in rw here (rw at_y (rw off refl))
find_elem_from_first l val y n s at_y a (x ∷ xs) (link here chain) (one_below lower below) =
    rw here (rw lower (find_elem_from_first l val y n s at_y _ xs chain below))

-- Where the list holds the data `xs`, all below `val`, and then `y`, which compares as `n`, zero or
-- more, `dllist_find` returns: `y` where it compares as equal, and the null pointer where it does
-- not. As many rounds as there are data up to `y` are enough.
pub dllist_find_first :
    (l val y n : ℕ) (xs : List ℕ) (s : Lists)
    → (s.heads l).elem ≢ 0
    → IsChain s y (s.heads l).elem xs
    → AreBelow (s.heads l).lessthan_find val xs
    → (s.heads l).lessthan_find y val ≡ pos n
    → dllist_find (length xs + 1) l val s ≡ done (if n == 0 then y else 0)
unfolding dllist_find
dllist_find_first l val y n xs s some_elem chain below at_y =
    let e : length xs + 1 ≡ suc (length xs) = omega arith in
    let off : ((s.heads l).elem == 0) ≡ false = ground arith in
    rw off (rw e (find_elem_from_first l val y n s at_y (s.heads l).elem xs chain below))
