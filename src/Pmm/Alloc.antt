-- ===== src/Pmm/Alloc.antt =====
-- `pmm_alloc_first` and `pmm_free`, src/sys/pmm.c.
use frod.Base.{ℕ, zero, suc, ◌+◌, ◌-◌, ◌*◌, ◌/◌, ◌^◌, ◌≤◌, ◌<◌, ◌≡◌, refl, ◌≢◌, ◌⊎◌, inl, inr}
use frod.Base.{true, false, Bool-cases, arith, IsBytes, u32}
use frod.Pmm.{Pmm, blk_sz, bitmap_set, bitmap_is_set, alloc_from, pmm_alloc_first, pmm_free}
use frod.Pmm.Bitmap.{is_set-set, is_set-unset, set-IsBytes, set_frame}

-- The blocks `lo..hi)` are all taken.
abbrev pub AllTaken : Pmm → ℕ → ℕ → Type 0
AllTaken s lo hi = (j : ℕ) → lo ≤ j → j < hi → bitmap_is_set s j ≡ true

-- `i` is the first free block of `lo..hi)`, and `r` is the state with `i` taken and `i`'s address.
pub record FirstFree (s : Pmm) (lo hi : ℕ) (r : Pmm × ℕ) (i : ℕ) : Type 0 where
  pub above : lo ≤ i
  pub below : i < hi
  pub free : bitmap_is_set s i ≡ false
  pub first : AllTaken s lo i
  pub taken : r ≡ (bitmap_set s i, u32 (i * blk_sz))

abbrev pub Allocated : Pmm → ℕ → ℕ → Pmm × ℕ → Type 0
Allocated s lo hi r = (AllTaken s lo hi × (r ≡ (s, 0))) ⊎ ((i : ℕ) × FirstFree s lo hi r i)

alloc_from-Allocated : (left i : ℕ) (s : Pmm) → Allocated s i (i + left) (alloc_from left i s)
unfolding alloc_from
alloc_from-Allocated zero i s = inl ((λ j p q. absurd (omega arith)), refl)
alloc_from-Allocated (suc left) i s = elim (Bool-cases (bitmap_is_set s i)) [
  | inl taken ↦ rw taken (elim (alloc_from-Allocated left (i + 1) s) [
    | inl (full, e) ↦ inl ((λ j p q. ground (arith, full j)), e)
    | inr (k, f) ↦ inr (
      k,
      record {
        above = omega (arith, f.above);
        below = omega (arith, f.below);
        free = f.free;
        first = λ j p q. ground (arith, f.first j);
        taken = f.taken;
      },
    )
  ])
  | inr free ↦ rw free (
      inr (
        i,
        record {
          above = omega arith;
          below = omega arith;
          free = free;
          first = λ j p q. absurd (omega arith);
          taken = refl;
        },
      ))
]

-- `pmm_alloc_first` takes the lowest free block from block 1 on and returns its address; it
-- returns `NULL` and changes nothing exactly when every block from 1 to the last is taken.
pub pmm_alloc_first-Allocated :
    (s : Pmm) → 1 ≤ s.pmm_bitmap_sz → Allocated s 1 s.pmm_bitmap_sz (pmm_alloc_first s)
unfolding pmm_alloc_first
pmm_alloc_first-Allocated s h =
    let e : 1 + (s.pmm_bitmap_sz - 1) ≡ s.pmm_bitmap_sz = omega arith in
    rw e at (alloc_from-Allocated (s.pmm_bitmap_sz - 1) 1 s)

-- Where the blocks have 32-bit addresses, freeing the address that `pmm_alloc_first` returned
-- gives back the status of every block.
pub is_set-free-alloc :
    (s : Pmm) (j : ℕ)
    → 1 ≤ s.pmm_bitmap_sz
    → s.pmm_bitmap_sz ≤ 2 ^ 20
    → IsBytes s.mem
    → (pmm_alloc_first s).1 ≢ 0
    → let (t, p) = pmm_alloc_first s in bitmap_is_set (pmm_free p t) j ≡ bitmap_is_set s j
unfolding pmm_free
is_set-free-alloc s j pos small bytes ne = elim (pmm_alloc_first-Allocated s pos) [
  | inl (full, e) ↦ absurd (ne (rw e))
  | inr (i, f) ↦
      let q : u32 (i * blk_sz) / blk_sz ≡ i = omega (arith, f.below) in
      rw (f.taken, q)
        (ground (
          arith,
          is_set-unset (bitmap_set s i) i j (set-IsBytes s i bytes),
          is_set-set s i j bytes,
          f.free,
        ))
]

-- `pmm_alloc_first` writes no byte outside of those that hold the bits of blocks `0..sz)`.
pub mem-pmm_alloc_first_outside :
    (s : Pmm) (a : ℕ)
    → 1 ≤ s.pmm_bitmap_sz
    → (a < s.pmm_bitmap) ⊎ (s.pmm_bitmap + (s.pmm_bitmap_sz - 1) / 8 < a)
    → (pmm_alloc_first s).0.mem a ≡ s.mem a
mem-pmm_alloc_first_outside s a pos out = elim (pmm_alloc_first-Allocated s pos) [
  | inl (full, e) ↦ rw e
  | inr (i, f) ↦ rw f.taken (set_frame s i a (λ e. ground (arith, f.below)))
]
