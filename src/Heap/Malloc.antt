-- ===== src/Heap/Malloc.antt =====
-- What `heap_malloc`, src/sys/heap.c, does to the ring of blocks.
use frod.Base.{
  ℕ, ◌+◌, ◌-◌, ◌^◌, ◌≤◌, ◌<◌, ◌≡◌, refl, ◌≢◌, ◌⊎◌, inl, inr, arith, true, false, Bool-cases,
}
use frod.Base.{ltb, List, [], ◌∷◌, u32}
use frod.Heap.{Heap, LlMalloc, fits, take_block, put, set_used, set_size, set_next, set_prev}
use frod.Heap.Ring.{Chain, Sep, AllSep, Separate, Inside, IsRing, here, there}
use frod.Heap.Split.{total, insert, IsSplit, Chain-split, Separate-split, total_split}

-- `t` is `h` after block `x` was given out for `sz` bytes, which keeps the other blocks.
pub record IsServed (h t : Heap) (rest : List ℕ) (x sz : ℕ) : Type 0 where
  pub rest' : List ℕ
  pub ring : IsRing t rest'
  pub start : t.kern_heap ≡ h.kern_heap
  pub taken : (t.blocks x).used ≡ 1
  pub room : sz ≤ (t.blocks x).size
  pub waste : (t.blocks x).size ≤ sz + 16
  pub kept : (y : ℕ) → Inside y (h.kern_heap ∷ rest) → y ≢ x → t.blocks y ≡ h.blocks y
  pub conserved : total t.blocks (t.kern_heap ∷ rest') ≡ total h.blocks (h.kern_heap ∷ rest)

module _ (b b' : ℕ → LlMalloc) (next : (y : ℕ) → (b' y).next ≡ (b y).next)
    (size : (y : ℕ) → (b' y).size ≡ (b y).size) where
  Chain-next : (xs : List ℕ) (a e : ℕ) → Chain b a xs e → Chain b' a xs e
  Chain-next [] a e c = c
  Chain-next (y ∷ ys) a e (q, c) = (q, rw (next y) (Chain-next ys (b y).next e c))

  AllSep-size : (x : ℕ) (ys : List ℕ) → AllSep b x ys → AllSep b' x ys
  AllSep-size x [] s = s
  AllSep-size x (y ∷ ys) (s, ss) = (rw (size x, size y) s, AllSep-size x ys ss)

  Separate-size : (ys : List ℕ) → Separate b ys → Separate b' ys
  Separate-size [] s = s
  Separate-size (y ∷ ys) (lt, s, ss) = (rw (size y) lt, AllSep-size y ys s, Separate-size ys ss)

  total_size : (ys : List ℕ) → total b' ys ≡ total b ys
  total_size [] = refl
  total_size (y ∷ ys) = rw (size y) (omega (arith, total_size ys))

pub Inside-bound :
    (b : ℕ → LlMalloc) (x : ℕ) (xs : List ℕ)
    → Inside x xs
    → Separate b xs
    → x + 16 + (b x).size < 2 ^ 32
Inside-bound b x _ here (lt, _, _) = lt
Inside-bound b x _ (there i) (lt, s, ss) = Inside-bound b x _ i ss

AllSep-Inside : (b : ℕ → LlMalloc) (x y : ℕ) (xs : List ℕ) → Inside y xs → AllSep b x xs → Sep b x y
AllSep-Inside b x y _ here (s, ss) = s
AllSep-Inside b x y _ (there i) (s, ss) = AllSep-Inside b x y _ i ss

Sep-Inside :
    (b : ℕ → LlMalloc) (x y : ℕ) (xs : List ℕ)
    → Inside x xs
    → Inside y xs
    → y ≢ x
    → Separate b xs
    → Sep b x y ⊎ Sep b y x
Sep-Inside b x y _ here here ne s = absurd (ne refl)
Sep-Inside b x y _ here (there j) ne (lt, s, ss) = inl (AllSep-Inside b x y _ j s)
Sep-Inside b x y _ (there i) here ne (lt, s, ss) = inr (AllSep-Inside b y x _ i s)
Sep-Inside b x y _ (there i) (there j) ne (lt, s, ss) = Sep-Inside b x y _ i j ne ss

module _ (h : Heap) (rest : List ℕ) (r : IsRing h rest) (x sz : ℕ)
    (i : Inside x (h.kern_heap ∷ rest)) (f : fits sz (h.blocks x) ≡ true) where
  abbrev t : Heap
  t = take_block sz x h

  fits_room : sz ≤ (h.blocks x).size
  unfolding fits
  fits_room = ground arith

  bound : x + 16 + (h.blocks x).size < 2 ^ 32
  bound = Inside-bound h.blocks x (h.kern_heap ∷ rest) i r.separate

  module _ (big : ltb 16 ((h.blocks x).size - sz) ≡ true) where
    abbrev n : ℕ
    n = u32 (x + sz + 16)

    IsSplit-heap : IsSplit h.blocks t.blocks x n
    unfolding take_block set_used set_size set_next set_prev put
    IsSplit-heap = record {
      head = ground (arith, bound);
      tail = ground (arith, bound);
      within = ground (arith, bound);
      room = ground (arith, bound);
      other = λ y p q. ground (arith, bound);
    }

    IsServed-split : IsServed h t rest x sz
    IsServed-split =
        let (rest', p) = insert x n h.kern_heap rest i in
        let whole : Chain h.blocks h.kern_heap (h.kern_heap ∷ rest) h.kern_heap = (refl, r.chain) in
        let start : t.kern_heap ≡ h.kern_heap =
          unfold take_block set_used set_size set_next set_prev put in (ground arith) in
        let size : (t.blocks x).size ≡ sz = omega (arith, IsSplit-heap.within, bound, fits_room) in
        record {
          rest' = rest';
          ring = record {
            chain =
                rw start
                  (Chain-split h.blocks t.blocks x n IsSplit-heap p h.kern_heap h.kern_heap
                    r.separate whole).1;
            separate = rw start (Separate-split h.blocks t.blocks x n IsSplit-heap p r.separate);
          };
          start = start;
          taken =
              unfold take_block set_used set_size set_next set_prev put in (ground (arith, bound));
          room = omega (arith, size);
          waste = omega (arith, size);
          kept = λ y j ne.
              let sep = Sep-Inside h.blocks x y (h.kern_heap ∷ rest) i j ne r.separate in
              IsSplit-heap.other y ne
                (λ e. omega (arith, sep, IsSplit-heap.room, size, IsSplit-heap.within));
          conserved = rw start (total_split h.blocks t.blocks x n IsSplit-heap p r.separate);
        }

  module _ (small : ltb 16 ((h.blocks x).size - sz) ≡ false) where
    whole_fields :
        (y : ℕ) → ((t.blocks y).next ≡ (h.blocks y).next) × ((t.blocks y).size ≡ (h.blocks y).size)
    unfolding take_block set_used put
    whole_fields y = rw small (ground arith)

    IsServed-whole : IsServed h t rest x sz
    unfolding take_block set_used put
    IsServed-whole =
        let next = λ (y : ℕ). (whole_fields y).0 in
        let size = λ (y : ℕ). (whole_fields y).1 in
        let start : t.kern_heap ≡ h.kern_heap = rw small refl in
        record {
          rest' = rest;
          ring = record {
            chain =
                rw (start, next h.kern_heap)
                  (Chain-next h.blocks t.blocks next size rest _ _ r.chain);
            separate =
                rw start
                  (Separate-size h.blocks t.blocks next size (h.kern_heap ∷ rest) r.separate);
          };
          start = start;
          taken = rw small (ground arith);
          room = rw (size x) fits_room;
          waste = rw (size x) (ground arith);
          kept = λ y j ne. rw small (ground arith);
          conserved = rw start (total_size h.blocks t.blocks next size (h.kern_heap ∷ rest));
        }

  pub served : IsServed h t rest x sz
  served = elim (Bool-cases (ltb 16 ((h.blocks x).size - sz))) [
    | inl big ↦ IsServed-split big
    | inr small ↦ IsServed-whole small
  ]
