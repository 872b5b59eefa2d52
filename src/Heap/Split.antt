-- ===== src/Heap/Split.antt =====
-- A block of the ring that `heap_malloc`, src/sys/heap.c, splits in two.
use frod.Base.{ℕ, ◌+◌, ◌≡◌, refl, ap, ◌≢◌, inl, inr, arith}
use frod.Base.{List, [], ◌∷◌}
use frod.Heap.{LlMalloc}
use frod.Heap.Ring.{Chain, Sep, AllSep, Separate, Inside, here, there}

-- The bytes of the blocks, headers included.
abbrev pub total : (ℕ → LlMalloc) → List ℕ → ℕ
total b [] = 0
total b (x ∷ xs) = 16 + (b x).size + total b xs

-- The second list is the first with `n` put behind `x`.
pub data Inserted (x n : ℕ) : List ℕ → List ℕ → Type 0 where
  at_head : {ys : List ℕ} → Inserted x n (x ∷ ys) (x ∷ n ∷ ys)
  in_tail : {y : ℕ} {ys zs : List ℕ} → Inserted x n ys zs → Inserted x n (y ∷ ys) (y ∷ zs)

-- The new ring when `n` is put behind `x`.
pub insert :
    (x n y : ℕ) (ys : List ℕ) → Inside x (y ∷ ys) → (zs : List ℕ) × Inserted x n (y ∷ ys) (y ∷ zs)
insert x n y ys here = (n ∷ ys, at_head)
insert x n y [] (there i) = elim i [ ]
insert x n y (z ∷ ys) (there i) = let (zs, p) = insert x n z ys i in (z ∷ zs, in_tail p)

-- The headers `b'` are `b` after block `x` was split at `n`.
pub record IsSplit (b b' : ℕ → LlMalloc) (x n : ℕ) : Type 0 where
  pub head : (b' x).next ≡ n
  pub tail : (b' n).next ≡ (b x).next
  pub within : n ≡ x + 16 + (b' x).size
  pub room : n + 16 + (b' n).size ≡ x + 16 + (b x).size
  pub other : (y : ℕ) → y ≢ x → y ≢ n → b' y ≡ b y

module _ (b b' : ℕ → LlMalloc) (x n : ℕ) (sp : IsSplit b b' x n) where
  Chain-same : (xs : List ℕ) (a e : ℕ) → AllSep b x xs → Chain b a xs e → Chain b' a xs e
  Chain-same [] a e s c = c
  Chain-same (y ∷ ys) a e (s, ss) (q, c) =
      let same : b' y ≡ b y =
        sp.other y (λ z. omega (arith, s)) (λ z. omega (arith, s, sp.within, sp.room)) in
      (q, rw same (Chain-same ys (b y).next e ss c))

  Sep-other : (z : ℕ) → Sep b z x → (z ≢ x) × (z ≢ n)
  Sep-other z s = ((λ e. omega (arith, s)), (λ e. omega (arith, s, sp.within, sp.room)))

  Sep-Inserted : {xs zs : List ℕ} → Inserted x n xs zs → (y : ℕ) → AllSep b y xs → Sep b y x
  Sep-Inserted at_head y (s, ss) = s
  Sep-Inserted (in_tail p) y (s, ss) = Sep-Inserted p y ss

  same_apart : (y : ℕ) → Sep b y x → b' y ≡ b y
  same_apart y s = sp.other y (Sep-other y s).0 (Sep-other y s).1

  pub Chain-split :
      {xs zs : List ℕ}
      → Inserted x n xs zs
      → (a e : ℕ) → Separate b xs
      → Chain b a xs e
      → Chain b' a zs e
  Chain-split (at_head {ys}) a e (lt, s, ss) (q, c) =
      (q, (sp.head, rw sp.tail (Chain-same ys (b x).next e s c)))
  Chain-split (in_tail {y} p) a e (lt, s, ss) (q, c) =
      let same : b' y ≡ b y = same_apart y (Sep-Inserted p y s) in
      (q, rw same (Chain-split p (b y).next e ss c))

  -- The blocks that are apart from `x` are apart from its two parts.
  Sep-parts : (y : ℕ) → Sep b y x → Sep b' y x × Sep b' y n × Sep b' x y × Sep b' n y
  Sep-parts y s =
      let same = ap LlMalloc.size (same_apart y s) in
      elim s [
        | inl below ↦ (
          inl (omega (arith, sp.within, sp.room, same)),
          inl (omega (arith, sp.within, sp.room, same)),
          inr (omega (arith, sp.within, sp.room, same)),
          inr (omega (arith, sp.within, sp.room, same)),
        )
        | inr above ↦ (
          inr (omega (arith, sp.within, sp.room, same)),
          inr (omega (arith, sp.within, sp.room, same)),
          inl (omega (arith, sp.within, sp.room, same)),
          inl (omega (arith, sp.within, sp.room, same)),
        )
      ]

  Sep-sym : (y z : ℕ) → Sep b y z → Sep b z y
  Sep-sym y z (inl p) = inr p
  Sep-sym y z (inr p) = inl p

  AllSep-parts : (ys : List ℕ) → AllSep b x ys → AllSep b' x ys × AllSep b' n ys
  AllSep-parts [] s = (tt, tt)
  AllSep-parts (y ∷ ys) (s, ss) =
      let (_, _, u, v) = Sep-parts y (Sep-sym x y s) in
      let (us, vs) = AllSep-parts ys ss in ((u, us), (v, vs))

  AllSep-kept :
      (y : ℕ) → b' y ≡ b y → (ys : List ℕ) → AllSep b x ys → AllSep b y ys → AllSep b' y ys
  AllSep-kept y q [] f s = s
  AllSep-kept y q (z ∷ zs) (f, fs) (s, ss) =
      (rw (q, same_apart z (Sep-sym x z f)) s, AllSep-kept y q zs fs ss)

  Separate-same : (ys : List ℕ) → AllSep b x ys → Separate b ys → Separate b' ys
  Separate-same [] f s = s
  Separate-same (y ∷ ys) (f, fs) (lt, s, ss) =
      let q = same_apart y (Sep-sym x y f) in
      (rw q lt, AllSep-kept y q ys fs s, Separate-same ys fs ss)

  pub AllSep-split :
      {xs zs : List ℕ}
      → Inserted x n xs zs
      → (y : ℕ) → Sep b y x
      → Separate b xs
      → AllSep b y xs
      → AllSep b' y zs
  AllSep-split (at_head {ys}) y c (lt, fs, _) (s, ss) =
      let (u, v, _, _) = Sep-parts y c in (u, (v, AllSep-kept y (same_apart y c) ys fs ss))
  AllSep-split (in_tail {y = z} p) y c (lt, f, fs) (s, ss) =
      let q = same_apart z (Sep-Inserted p z f) in
      (rw (same_apart y c, q) s, AllSep-split p y c fs ss)

  pub Separate-split : {xs zs : List ℕ} → Inserted x n xs zs → Separate b xs → Separate b' zs
  Separate-split (at_head {ys}) (lt, f, fs) =
      let (us, vs) = AllSep-parts ys f in
      (
        omega (arith, lt, sp.within, sp.room),
        (inl (omega (arith, sp.within)), us),
        (omega (arith, lt, sp.within, sp.room), vs, Separate-same ys f fs),
      )
  Separate-split (in_tail {y} p) (lt, f, fs) =
      let c = Sep-Inserted p y f in
      (rw (same_apart y c) lt, AllSep-split p y c fs f, Separate-split p fs)

  total_same : (ys : List ℕ) → AllSep b x ys → total b' ys ≡ total b ys
  total_same [] f = refl
  total_same (y ∷ ys) (f, fs) = rw (same_apart y (Sep-sym x y f)) (omega (arith, total_same ys fs))

  pub total_split : {xs zs : List ℕ} → Inserted x n xs zs → Separate b xs → total b' zs ≡ total b xs
  total_split (at_head {ys}) (lt, f, fs) = omega (arith, total_same ys f, sp.within, sp.room)
  total_split (in_tail {y} p) (lt, f, fs) =
      rw (same_apart y (Sep-Inserted p y f)) (omega (arith, total_split p fs))
