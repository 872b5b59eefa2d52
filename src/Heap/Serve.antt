-- ===== src/Heap/Serve.antt =====
-- The contract of `heap_malloc`, src/sys/heap.c.
use frod.Base.{
  ℕ, zero, suc, ◌+◌, ◌%◌, ◌^◌, ◌≤◌, ◌<◌, ◌≡◌, refl, ◌≢◌, ◌⊎◌, inl, inr, arith, ◌∙◌, true, false,
  Bool-cases,
}
use frod.Base.{ltb, List, [], ◌∷◌, length, u32}
use frod.Vmm.{Vmm}
use frod.Heap.{
  Heap, LlMalloc, Outcome, done, panic, page_fault, map_blocks, fits, take_block, heap_malloc,
  heap_get_new_block, ◌>>=◌,
}
use frod.Heap.Ring.{Inside, IsRing, here, there, first_fit, first_fit-Inside, find_from-first_fit}
use frod.Heap.Malloc.{IsServed, served, Inside-bound}
use frod.Heap.Grow.{
  map_blocks_cases, with_pages, heap_end, AllBelow, new_block_lem, grown-IsRing, linked, link,
}

-- The size that `heap_malloc` looks for.
abbrev pub padded : ℕ → ℕ
padded arg = u32 (arg + arg % 4)

-- The block at which the search of `heap_malloc` ends.
abbrev pub candidate : Heap → List ℕ → ℕ → ℕ
candidate h rest sz = first_fit h.blocks sz (h.kern_heap ∷ rest) h.kern_heap

-- `r` gives out the first block of the ring that is free and large enough for `sz` bytes.
abbrev pub Serves : Heap → List ℕ → ℕ → Outcome (Heap × ℕ) → Type 0
Serves h rest sz r =
    let x = candidate h rest sz in
    Inside x (h.kern_heap ∷ rest)
    × (fits sz (h.blocks x) ≡ true)
    × ((t : Heap) × (r ≡ done (t, x + 16)) × IsServed h t rest x sz)

-- No block of the ring is free and large enough.
abbrev pub NoneFits : Heap → List ℕ → ℕ → Type 0
NoneFits h rest sz = (y : ℕ) → Inside y (h.kern_heap ∷ rest) → fits sz (h.blocks y) ≡ false

-- What `r` is where the heap has to grow: served from the ring with the new block, or stopped as
-- the mapping of the block is.
abbrev pub Grows : Heap → List ℕ → ℕ → Outcome (Heap × ℕ) → Type 0
Grows h rest sz r =
    ((v : Vmm) × (map_blocks 1024 h ≡ done (with_pages h v 1024))
      × Serves (linked h h.kern_heap (heap_end h) v) (heap_end h ∷ rest) sz r)
    ⊎ ((map_blocks 1024 h ≡ panic) × (r ≡ panic))
    ⊎ ((map_blocks 1024 h ≡ page_fault) × (r ≡ page_fault))

candidate-Inside :
    (h : Heap) (rest : List ℕ) (sz : ℕ) → Inside (candidate h rest sz) (h.kern_heap ∷ rest)
candidate-Inside h rest sz = elim (first_fit-Inside h.blocks sz h.kern_heap (h.kern_heap ∷ rest)) [
  | inl (i, f) ↦ i
  | inr e ↦ rw e here
]

-- A free block of the ring that is large enough is served.
pub heap_malloc_fits :
    (fuel arg : ℕ) (h : Heap) (rest : List ℕ)
    → IsRing h rest
    → length rest < fuel
    → padded arg ≤ 4080
    → fits (padded arg) (h.blocks (candidate h rest (padded arg))) ≡ true
    → Serves h rest (padded arg) (heap_malloc (suc fuel) arg h)
unfolding heap_malloc
heap_malloc_fits fuel arg h rest r lt small f =
    let sz : ℕ = padded arg in
    let x : ℕ = candidate h rest sz in
    let s = served h rest r x sz (candidate-Inside h rest sz) f in
    let bound =
      Inside-bound h.blocks x (h.kern_heap ∷ rest) (candidate-Inside h rest sz) r.separate in
    let u : u32 (x + 16) ≡ x + 16 = omega arith in
    let ok : ltb 4080 sz ≡ false = ground arith in
    (
      candidate-Inside h rest sz,
      f,
      (take_block sz x h, rw (ok, find_from-first_fit fuel sz rest h r lt, f, u) refl, s),
    )

first_fit_found :
    (b : ℕ → LlMalloc) (sz e y : ℕ) (xs : List ℕ)
    → Inside y xs
    → fits sz (b y) ≡ true
    → fits sz (b (first_fit b sz xs e)) ≡ true
unfolding first_fit
first_fit_found b sz e y [] i f = elim i [ ]
first_fit_found b sz e y (x ∷ xs) here f = rw f f
first_fit_found b sz e y (x ∷ xs) (there i) f = elim (Bool-cases (fits sz (b x))) [
  | inl first ↦ rw first first
  | inr not_first ↦ rw not_first (first_fit_found b sz e y xs i f)
]

padded_again : (arg : ℕ) → padded arg ≤ 4080 → padded (padded arg) ≤ 4080
padded_again arg small = omega arith

-- Where no block fits, a new block is put behind the start of the ring, and the request is made
-- again.
heap_malloc_grows :
    (fuel arg : ℕ) (h : Heap) (rest : List ℕ)
    → IsRing h rest
    → length rest < fuel
    → padded arg ≤ 4080
    → fits (padded arg) (h.blocks (candidate h rest (padded arg))) ≡ false
    → heap_malloc (suc fuel) arg h
      ≡ (do (h', block) ← heap_get_new_block h.kern_heap h; heap_malloc fuel (padded arg) h')
unfolding heap_malloc
heap_malloc_grows fuel arg h rest r lt small f =
    let sz : ℕ = padded arg in
    let ok : ltb 4080 sz ≡ false = ground arith in
    let search = find_from-first_fit fuel sz rest h r lt in
    let start : candidate h rest sz ≡ h.kern_heap =
      elim (first_fit-Inside h.blocks sz h.kern_heap (h.kern_heap ∷ rest)) [
        | inl (i, g) ↦ absurd (ground arith)
        | inr e ↦ e
      ] in
    rw (ok, search, f, start) refl

none_fits_lem :
    (h : Heap) (rest : List ℕ) (sz : ℕ)
    → fits sz (h.blocks (candidate h rest sz)) ≡ false
    → NoneFits h rest sz
none_fits_lem h rest sz f y i = elim (Bool-cases (fits sz (h.blocks y))) [
  | inl g ↦
      let found = first_fit_found h.blocks sz h.kern_heap y (h.kern_heap ∷ rest) i g in
      absurd (ground arith)
  | inr g ↦ g
]

-- In a heap whose ring is well formed and ends at the last mapped address, with room for another
-- 4 MB in the address space and enough fuel, a request whose padded size fits a page is served from
-- the first block of the ring that is free and large enough for that size; or no block of the ring
-- is, and `heap_malloc` maps 4 MB more. Where the mapping of these returns, the request, padded
-- once more, is served from the first such block of the ring with the new block behind its start;
-- where it panics or meets a page that is not mapped, `heap_malloc` does the same.
pub heap_malloc-Serves :
    (fuel arg : ℕ) (h : Heap) (rest : List ℕ) (r : IsRing h rest)
    → length rest + 2 < fuel
    → padded arg ≤ 4080
    → (below : AllBelow h rest) → (nz : h.kern_heap ≢ 0) → (fit : heap_end h + 2 ^ 22 < 2 ^ 32)
    → let r' = heap_malloc (suc fuel) arg h in
      Serves h rest (padded arg) r'
      ⊎ (NoneFits h rest (padded arg) × Grows h rest (padded (padded arg)) r')
heap_malloc-Serves zero arg h rest r lt small below nz fit = absurd (omega arith)
heap_malloc-Serves (suc fuel) arg h rest r lt small below nz fit =
    elim (Bool-cases (fits (padded arg) (h.blocks (candidate h rest (padded arg))))) [
      | inl f ↦ inl (heap_malloc_fits (suc fuel) arg h rest r (omega arith) small f)
      | inr f ↦
          let step = heap_malloc_grows (suc fuel) arg h rest r (omega arith) small f in
          inr (
            none_fits_lem h rest (padded arg) f,
            elim (map_blocks_cases 1024 h) [
              | inl (inl e) ↦ inr (inl (e, step ∙ unfold heap_get_new_block in (rw e refl)))
              | inl (inr e) ↦ inr (inr (e, step ∙ unfold heap_get_new_block in (rw e refl)))
              | inr (v, e) ↦
                  let again = new_block_lem h h.kern_heap v (omega arith) e in
                  let new : ℕ = heap_end h in
                  let k = link h rest r v below nz fit in
                  let g : Heap = linked h h.kern_heap new v in
                  let free : fits (padded (padded arg)) (g.blocks new) ≡ true =
                    unfold fits in (ground (arith, k.tail_size, k.tail_used)) in
                  let ring = grown-IsRing h rest r v below nz fit in
                  let found =
                    first_fit_found g.blocks (padded (padded arg)) g.kern_heap new
                      (g.kern_heap ∷ new ∷ rest) (there here) free in
                  let (i, f', (t, q, s)) =
                    heap_malloc_fits fuel (padded arg) g (new ∷ rest) ring (omega arith)
                      (padded_again arg small) found in
                  inl (v, e, (i, f', (t, step ∙ rw again q, s)))
            ],
          )
    ]
