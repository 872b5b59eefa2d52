-- ===== src/Heap/Ring.antt =====
-- The ring of the heap's blocks, src/sys/heap.c, and the search through it.
use frod.Base.{
  ℕ, zero, suc, ◌+◌, ◌^◌, ◌≤◌, ◌<◌, ◌≡◌, refl, ap, ◌⊎◌, inl, inr, arith, ◌∙◌, true, Bool-cases,
}
use frod.Base.{if◌then◌else◌, List, [], ◌∷◌, length}
use frod.Heap.{Heap, LlMalloc, done, fits, find_from}

-- From `a`, the `next` pointers go through the blocks of the list and end at `e`.
abbrev pub Chain : (ℕ → LlMalloc) → ℕ → List ℕ → ℕ → Type 0
Chain b a [] e = a ≡ e
Chain b a (x ∷ xs) e = (a ≡ x) × Chain b (b x).next xs e

-- Blocks `x` and `y`, with their headers, do not overlap.
abbrev pub Sep : (ℕ → LlMalloc) → ℕ → ℕ → Type 0
Sep b x y = (x + 16 + (b x).size ≤ y) ⊎ (y + 16 + (b y).size ≤ x)

abbrev pub AllSep : (ℕ → LlMalloc) → ℕ → List ℕ → Type 0
AllSep b x [] = Unit
AllSep b x (y ∷ ys) = Sep b x y × AllSep b x ys

-- No two blocks of the list overlap, and each ends within the 32-bit address space.
abbrev pub Separate : (ℕ → LlMalloc) → List ℕ → Type 0
Separate b [] = Unit
Separate b (x ∷ xs) = (x + 16 + (b x).size < 2 ^ 32) × AllSep b x xs × Separate b xs

-- The ring starts at `kern_heap` and goes on through the blocks `rest`.
pub record IsRing (h : Heap) (rest : List ℕ) : Type 0 where
  pub chain : Chain h.blocks (h.blocks h.kern_heap).next rest h.kern_heap
  pub separate : Separate h.blocks (h.kern_heap ∷ rest)

pub data Inside (x : ℕ) : List ℕ → Type 0 where
  here : {ys : List ℕ} → Inside x (x ∷ ys)
  there : {y : ℕ} {ys : List ℕ} → Inside x ys → Inside x (y ∷ ys)

-- The first block of the list that has room, and `e` if there is none.
unfoldable pub first_fit : (ℕ → LlMalloc) → ℕ → List ℕ → ℕ → ℕ
first_fit b sz [] e = e
first_fit b sz (x ∷ xs) e = if fits sz (b x) then x else first_fit b sz xs e

find_from-Chain :
    (fuel sz a : ℕ) (rest : List ℕ) (h : Heap) (e : ℕ)
    → Chain h.blocks (h.blocks a).next rest e
    → AllSep h.blocks e rest
    → length rest < fuel
    → find_from fuel sz e a h
      ≡ done (if fits sz (h.blocks a) then a else first_fit h.blocks sz rest e)
unfolding find_from first_fit
find_from-Chain zero sz a rest h e c ap lt = absurd (omega arith)
find_from-Chain (suc fuel) sz a [] h e c ap lt = ground (arith, c)
find_from-Chain (suc fuel) sz a (x ∷ rest) h e (n, c) (sep, ap) lt =
    let ih = find_from-Chain fuel sz x rest h e c ap (omega arith) in rw n (ground (arith, ih))

-- The search ends at the first block of the ring that has room, and at the start of the ring if no
-- block has.
pub find_from-first_fit :
    (fuel sz : ℕ) (rest : List ℕ) (h : Heap)
    → IsRing h rest
    → length rest < fuel
    → find_from fuel sz h.kern_heap h.kern_heap h
      ≡ done (first_fit h.blocks sz (h.kern_heap ∷ rest) h.kern_heap)
unfolding first_fit
find_from-first_fit fuel sz rest h r lt =
    find_from-Chain fuel sz h.kern_heap rest h h.kern_heap r.chain r.separate.1 lt

pub first_fit-Inside :
    (b : ℕ → LlMalloc) (sz e : ℕ) (xs : List ℕ)
    → (Inside (first_fit b sz xs e) xs × (fits sz (b (first_fit b sz xs e)) ≡ true))
      ⊎ (first_fit b sz xs e ≡ e)
first_fit-Inside b sz e [] = inr (unfold first_fit in refl)
first_fit-Inside b sz e (x ∷ xs) = elim (Bool-cases (fits sz (b x))) [
  | inl yes_here ↦
      let q : first_fit b sz (x ∷ xs) e ≡ x = unfold first_fit in (rw yes_here refl) in
      inl (rw q here, rw q yes_here)
  | inr no_here ↦
      let q : first_fit b sz (x ∷ xs) e ≡ first_fit b sz xs e =
        unfold first_fit in (rw no_here refl) in
      elim (first_fit-Inside b sz e xs) [
        | inl (i, f) ↦ inl (rw q (there i), rw q f)
        | inr none_fits ↦ inr (q ∙ none_fits)
      ]
]
