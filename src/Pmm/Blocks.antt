-- ===== src/Pmm/Blocks.antt =====
-- `pmm_alloc_first_n_blocks`, src/sys/pmm.c.
use frod.Base.{ℕ, zero, suc, ◌+◌, ◌-◌, ◌*◌, ◌≤◌, ◌<◌, ◌≡◌, refl, ◌⊎◌, inl, inr}
use frod.Base.{true, false, ◌==◌, if◌then◌else◌, Bool-cases, arith, IsBytes, u32}
use native.Mathlib.Decide.{dec_lt}
use frod.Pmm.{Pmm, blk_sz, bitmap_is_set, set_run, alloc_run_from, pmm_alloc_first_n_blocks}
use frod.Pmm.Mark.{within, is_set-set_run}

-- Some block of the run of `n` blocks from `c` is taken.
abbrev pub Blocked : Pmm → ℕ → ℕ → Type 0
Blocked s n c = (j : ℕ) × (c ≤ j) × (j < c + n) × (bitmap_is_set s j ≡ true)

-- The run of `n` blocks from `b` is the lowest free run in `1..hi)`, and `r` is the state in which
-- exactly that run has been taken, with the run's address.
pub record FirstRun (s : Pmm) (n hi : ℕ) (r : Pmm × ℕ) (b : ℕ) : Type 0 where
  pub above : 1 ≤ b
  pub fits : b + n ≤ hi
  pub free : (j : ℕ) → b ≤ j → j < b + n → bitmap_is_set s j ≡ false
  pub first : (c : ℕ) → 1 ≤ c → c < b → Blocked s n c
  pub address : r.1 ≡ u32 (b * blk_sz)
  pub taken :
      (j : ℕ) → bitmap_is_set r.0 j ≡ (if within b (b + n) j then true else bitmap_is_set s j)

abbrev pub RunAllocated : Pmm → ℕ → ℕ → Pmm × ℕ → Type 0
RunAllocated s n hi r =
    (((c : ℕ) → 1 ≤ c → c + n ≤ hi → Blocked s n c) × (r ≡ (s, 0)))
    ⊎ ((b : ℕ) × FirstRun s n hi r b)

module _ (s : Pmm) (n : ℕ) (bytes : IsBytes s.mem) where
  -- The run ends at block `i`, and `start` is its first block.
  run_ends :
      (start i found hi : ℕ)
      → i ≡ start + found
      → 1 ≤ start
      → found + 1 ≡ n
      → i < hi
      → ((j : ℕ) → start ≤ j → j < i → bitmap_is_set s j ≡ false)
      → ((c : ℕ) → 1 ≤ c → c < start → Blocked s n c)
      → bitmap_is_set s i ≡ false
      → FirstRun s n hi (set_run (found + 1) i s, u32 ((i - (n - 1)) * blk_sz)) start
  run_ends start i found hi e pos full lt free first last = record {
    above = pos;
    fits = omega arith;
    free = λ j p q. ground (arith, free j);
    first = first;
    address = let q : i - (n - 1) ≡ start = omega arith in rw q;
    taken = λ j. ground (arith, is_set-set_run (found + 1) i j s bytes);
  }

  -- A taken block `i` blocks every run that begins in the free blocks below it.
  Blocked-below :
      (start i found : ℕ)
      → i ≡ start + found
      → found < n
      → ((c : ℕ) → 1 ≤ c → c < start → Blocked s n c)
      → bitmap_is_set s i ≡ true
      → (c : ℕ) → 1 ≤ c
      → c < i + 1
      → Blocked s n c
  Blocked-below start i found e lt first taken c p q = elim (dec_lt c start) [
    | yes h ↦ first c p h
    | no h ↦ (i, omega arith, omega arith, taken)
  ]

  alloc_run_from-RunAllocated :
      (left start i found : ℕ)
      → i ≡ start + found
      → 1 ≤ start
      → found < n
      → ((j : ℕ) → start ≤ j → j < i → bitmap_is_set s j ≡ false)
      → ((c : ℕ) → 1 ≤ c → c < start → Blocked s n c)
      → RunAllocated s n (i + left) (alloc_run_from n left i found s)
  unfolding alloc_run_from
  alloc_run_from-RunAllocated zero start i found e pos lt free first =
      inl ((λ c p q. first c p (omega arith)), refl)
  alloc_run_from-RunAllocated (suc left) start i found e pos lt free first =
      let next : i + suc left ≡ i + 1 + left = omega arith in
      elim (Bool-cases (bitmap_is_set s i)) [
        | inl taken ↦
            rw (taken, next)
              (alloc_run_from-RunAllocated left (i + 1) (i + 1) 0 (omega arith) (omega arith)
                (omega arith) (λ j p q. absurd (omega arith))
                (Blocked-below start i found e lt first taken))
        | inr last ↦ elim (Bool-cases ((found + 1) == n)) [
          | inl full ↦
              rw (last, full)
                (inr (
                  start,
                  run_ends start i found (i + suc left) e pos (ground arith) (omega arith) free
                      first last,
                ))
          | inr more ↦
              rw (last, more, next)
                (alloc_run_from-RunAllocated left start (i + 1) (found + 1) (omega arith) pos
                  (ground arith) (λ j p q. ground (arith, free j)) first)
        ]
      ]

-- For a positive number of blocks, `pmm_alloc_first_n_blocks` takes exactly the lowest run of
-- free blocks from block 1 on and returns its address; it returns `NULL` and changes nothing
-- exactly when every such run holds a taken block.
pub pmm_alloc_first_n_blocks-RunAllocated :
    (n : ℕ) (s : Pmm)
    → IsBytes s.mem
    → 1 ≤ n
    → 1 ≤ s.pmm_bitmap_sz
    → RunAllocated s n s.pmm_bitmap_sz (pmm_alloc_first_n_blocks n s)
unfolding pmm_alloc_first_n_blocks
pmm_alloc_first_n_blocks-RunAllocated n s bytes pos some_blocks =
    let e : 1 + (s.pmm_bitmap_sz - 1) ≡ s.pmm_bitmap_sz = omega arith in
    rw e at (
      alloc_run_from-RunAllocated s n bytes (s.pmm_bitmap_sz - 1) 1 1 0 (omega arith) (omega arith)
        pos (λ j p q. absurd (omega arith)) (λ c p q. absurd (omega arith)))
