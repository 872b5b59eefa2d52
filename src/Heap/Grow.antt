-- ===== src/Heap/Grow.antt =====
-- `heap_get_new_block` and the whole of `heap_malloc`, src/sys/heap.c.
use frod.Base.{
  ℕ, zero, suc, ◌+◌, ◌*◌, ◌^◌, ◌≤◌, ◌<◌, ◌≡◌, refl, ap, ◌≢◌, ◌⊎◌, inl, inr, arith, sym, false,
}
use frod.Base.{Option, some, none, ◌==◌, List, [], ◌∷◌, u32}
use frod.Base.Int.{ℤ, pos, negsuc}
use frod.Pmm.{pmm_alloc_first}
use frod.Vmm.{Vmm, vmm_map_page, page_writable}
use frod.Heap.{
  Heap, LlMalloc, Outcome, done, panic, page_fault, heap_get_new_block, link_block, put, set_next,
  set_prev, map_blocks, mapped, heap_start,
}
use mathlib.Core.Path.{subst}
use frod.Heap.Ring.{Chain, AllSep, Separate, Inside, IsRing, here, there}

-- The heap after the loop of `heap_get_new_block` has mapped `n` pages.
abbrev pub with_pages : Heap → Vmm → ℕ → Heap
with_pages h v n = record h { vmm = v; blocks_allocked = h.blocks_allocked + n }

-- The call stops the machine.
abbrev pub Stops : {A : Type 0} → Outcome A → Type 0
Stops r = (r ≡ panic) ⊎ (r ≡ page_fault)

mapped_cases :
    (h : Heap) (o : Option (Vmm × ℤ))
    → Stops (mapped h o) ⊎ ((v : Vmm) × (mapped h o ≡ done (with_pages h v 1)))
unfolding mapped
mapped_cases h none = inl (inr refl)
mapped_cases h (some (v, pos zero)) = inr (v, refl)
mapped_cases h (some (v, pos (suc n))) = inl (inl refl)
mapped_cases h (some (v, negsuc n)) = inl (inl refl)

pub map_blocks_cases :
    (left : ℕ) (h : Heap)
    → Stops (map_blocks left h) ⊎ ((v : Vmm) × (map_blocks left h ≡ done (with_pages h v left)))
unfolding map_blocks
map_blocks_cases zero h =
    let e : h.blocks_allocked + 0 ≡ h.blocks_allocked = omega arith in inr (h.vmm, rw e refl)
map_blocks_cases (suc left) h =
    let (pmm', phys) = pmm_alloc_first h.vmm.pmm in
    let o =
      vmm_map_page phys (u32 (heap_start + h.blocks_allocked * 4096)) page_writable
        (record h.vmm { pmm = pmm' }) in
    elim (mapped_cases h o) [
      | inl (inl e) ↦ inl (inl (rw e refl))
      | inl (inr e) ↦ inl (inr (rw e refl))
      | inr (v, e) ↦ elim (map_blocks_cases left (with_pages h v 1)) [
        | inl (inl q) ↦ inl (inl (rw (e, q) refl))
        | inl (inr q) ↦ inl (inr (rw (e, q) refl))
        | inr (w, q) ↦
            let n : h.blocks_allocked + 1 + left ≡ h.blocks_allocked + suc left = omega arith in
            inr (w, rw e (rw n at q))
      ]
    ]

-- The next address that `heap_get_new_block` maps.
abbrev pub heap_end : Heap → ℕ
heap_end h = heap_start + h.blocks_allocked * 4096

abbrev pub AllBelow : Heap → List ℕ → Type 0
AllBelow h rest = (y : ℕ) → Inside y (h.kern_heap ∷ rest) → y + 16 + (h.blocks y).size ≤ heap_end h

-- The heap after a new block was put behind block `k`.
abbrev pub linked : Heap → ℕ → ℕ → Vmm → Heap
linked h k new v =
    let g = link_block k new (with_pages h v 1024) in
    put new (record (g.blocks new) { size = 0x3FFFF0; used = 0; magic1 = 0xabcd; magic2 = 0xef }) g

pub new_block_lem :
    (h : Heap) (k : ℕ) (v : Vmm)
    → heap_end h < 2 ^ 32
    → map_blocks 1024 h ≡ done (with_pages h v 1024)
    → heap_get_new_block k h ≡ done (linked h k (heap_end h) v, heap_end h)
unfolding heap_get_new_block
new_block_lem h k v fit e = let u : u32 (heap_end h) ≡ heap_end h = omega arith in rw (e, u) refl

-- What block `k` and the block `new` behind it become, and that all else is kept.
pub record IsLinked (b b' : ℕ → LlMalloc) (k new : ℕ) : Type 0 where
  head : (b' k).next ≡ new
  head_size : (b' k).size ≡ (b k).size
  head_used : (b' k).used ≡ (b k).used
  tail : (b' new).next ≡ (b k).next
  pub tail_size : (b' new).size ≡ 0x3FFFF0
  pub tail_used : (b' new).used ≡ 0
  other : (y : ℕ) → y ≢ k → y ≢ new → b' y ≡ b y

linked_lem :
    (h : Heap) (k new : ℕ) (v : Vmm)
    → k ≢ 0
    → k ≢ new
    → IsLinked h.blocks (linked h k new v).blocks k new
unfolding link_block put set_next set_prev
linked_lem h k new v nz ne =
    let z : (k == 0) ≡ false = ground arith in
    rw z (record {
      head = ground arith;
      head_size = ground arith;
      head_used = ground arith;
      tail = ground arith;
      tail_size = ground arith;
      tail_used = ground arith;
      other = λ y p q. ground arith;
    })

module _ (b b' : ℕ → LlMalloc) where
  Chain-kept :
      (xs : List ℕ) (a e : ℕ)
      → ((y : ℕ) → Inside y xs → b' y ≡ b y)
      → Chain b a xs e
      → Chain b' a xs e
  Chain-kept [] a e same c = c
  Chain-kept (x ∷ xs) a e same (q, c) =
      (q, rw (same x here) (Chain-kept xs (b x).next e (λ y i. same y (there i)) c))

  AllSep-kept :
      (x : ℕ) (xs : List ℕ)
      → (b' x).size ≡ (b x).size
      → ((y : ℕ) → Inside y xs → b' y ≡ b y)
      → AllSep b x xs
      → AllSep b' x xs
  AllSep-kept x [] e same s = s
  AllSep-kept x (y ∷ ys) e same (s, ss) =
      (rw (e, same y here) s, AllSep-kept x ys e (λ z i. same z (there i)) ss)

  Separate-kept :
      (xs : List ℕ) → ((y : ℕ) → Inside y xs → b' y ≡ b y) → Separate b xs → Separate b' xs
  Separate-kept [] same s = s
  Separate-kept (x ∷ xs) same (lt, s, ss) =
      let e = ap LlMalloc.size (same x here) in
      (
        rw e lt,
        AllSep-kept x xs e (λ y i. same y (there i)) s,
        Separate-kept xs (λ y i. same y (there i)) ss,
      )

  AllSep-above :
      (x : ℕ) (xs : List ℕ) → ((y : ℕ) → Inside y xs → y + 16 + (b y).size ≤ x) → AllSep b x xs
  AllSep-above x [] below = tt
  AllSep-above x (y ∷ ys) below = (inr (below y here), AllSep-above x ys (λ z i. below z (there i)))

Inside-apart : (b : ℕ → LlMalloc) (x y : ℕ) (xs : List ℕ) → Inside y xs → AllSep b x xs → y ≢ x
Inside-apart b x y _ here (s, ss) e = omega (arith, s)
Inside-apart b x y _ (there i) (s, ss) e = Inside-apart b x y _ i ss e

module _ (h : Heap) (rest : List ℕ) (r : IsRing h rest) (v : Vmm) (below : AllBelow h rest)
    (nz : h.kern_heap ≢ 0) (fit : heap_end h + 2 ^ 22 < 2 ^ 32) where
  abbrev pub new : ℕ
  new = heap_end h

  abbrev pub grown : Heap
  grown = linked h h.kern_heap new v

  apart : h.kern_heap ≢ new
  apart e = omega (arith, below h.kern_heap here)

  pub link : IsLinked h.blocks grown.blocks h.kern_heap new
  link = linked_lem h h.kern_heap new v nz apart

  rest_kept : (y : ℕ) → Inside y rest → grown.blocks y ≡ h.blocks y
  rest_kept y i =
      link.other y (Inside-apart h.blocks h.kern_heap y rest i r.separate.1)
        (λ e. omega (arith, below y (there i)))

  grown_start : grown.kern_heap ≡ h.kern_heap
  unfolding link_block put set_next set_prev
  grown_start = ground arith

  grown-Separate : Separate grown.blocks (h.kern_heap ∷ new ∷ rest)
  grown-Separate =
      let (lt, s, ss) = r.separate in
      (
        omega (arith, link.head_size, lt),
        (
          inl (omega (arith, link.head_size, below h.kern_heap here)),
          AllSep-kept h.blocks grown.blocks h.kern_heap rest link.head_size rest_kept s,
        ),
        (
          omega (arith, link.tail_size),
          AllSep-above grown.blocks grown.blocks new rest
              (λ y i. rw (rest_kept y i) (below y (there i))),
          Separate-kept h.blocks grown.blocks rest rest_kept ss,
        ),
      )

  grown-Chain : Chain grown.blocks (grown.blocks h.kern_heap).next (new ∷ rest) h.kern_heap
  grown-Chain =
      (link.head, rw link.tail (Chain-kept h.blocks grown.blocks rest _ _ rest_kept r.chain))

  pub grown-IsRing : IsRing grown (new ∷ rest)
  grown-IsRing = record {
    chain =
        subst (λ k. Chain grown.blocks (grown.blocks k).next (new ∷ rest) k) (sym grown_start)
          grown-Chain;
    separate = subst (λ k. Separate grown.blocks (k ∷ new ∷ rest)) (sym grown_start) grown-Separate;
  }
