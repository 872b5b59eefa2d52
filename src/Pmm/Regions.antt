-- ===== src/Pmm/Regions.antt =====
-- What `pmm_get_max_space`, src/sys/pmm.c, finds in a memory map.
use frod.Base.{ℕ, zero, suc, ◌+◌, ◌^◌, ◌≤◌, ◌<◌, ◌≡◌}
use frod.Base.{◌==◌, if◌then◌else◌, arith, u32, Memory, List, [], ◌∷◌}
use frod.Base.{some, lt→ltb}
use frod.Pmm.Init.{size, base_addr_l, length_l, type, region_end, next_entry, max_from}
use frod.Pmm.Init.{pmm_get_max_space}

-- One entry of the map: its address range `base..base + span)` and its type.
pub record Region : Type 0 where
  pub base : ℕ
  pub span : ℕ
  pub kind : ℕ

-- The bytes from `p` to `stop` hold the entries of `rs`, in order; no region passes 2 ^ 32.
pub data Holds (m : Memory) (stop : ℕ) : ℕ → List Region → Type 0 where
  nil : {p : ℕ} → p ≡ stop → Holds m stop p []
  cons :
      {p : ℕ} {r : Region} {rs : List Region}
      → p < stop
      → base_addr_l m p ≡ r.base
      → length_l m p ≡ r.span
      → type m p ≡ r.kind
      → r.base + r.span < 2 ^ 32
      → Holds m stop (p + size m p + 4) rs
      → Holds m stop p (r ∷ rs)

-- The end of the last region of type 1, or `max` if there is none.
pub last_available : ℕ → List Region → ℕ
last_available max [] = max
last_available max (r ∷ rs) = last_available (if r.kind == 1 then r.base + r.span else max) rs

-- The end of a region of type 1, and `other` for a region of another type.
abbrev pub end_or : ℕ → Region → ℕ
end_or other r = if r.kind == 1 then r.base + r.span else other

-- Regions of type 1 come in the order of their ends, and none ends below `low`.
abbrev pub Ascending : ℕ → List Region → Type 0
Ascending low [] = Unit {0}
Ascending low (r ∷ rs) = (low ≤ end_or low r) × Ascending (end_or low r) rs

-- Every region of type 1 ends at `top` or below.
abbrev pub AllBelow : ℕ → List Region → Type 0
AllBelow top [] = Unit {0}
AllBelow top (r ∷ rs) = (end_or 0 r ≤ top) × AllBelow top rs

pub Holds-le : {m : Memory} {stop p : ℕ} {rs : List Region} → Holds m stop p rs → p ≤ stop
Holds-le (nil e) = omega arith
Holds-le (cons lt b l t fits rest) = omega arith

max_from-last_available :
    (fuel : ℕ) {m : Memory} {stop p : ℕ} {rs : List Region} (max : ℕ)
    → Holds m stop p rs
    → stop < 2 ^ 32
    → stop < p + fuel
    → max_from fuel m stop p max ≡ some (last_available max rs)
unfolding max_from last_available next_entry region_end
max_from-last_available zero max h bound enough = absurd (omega (arith, Holds-le h))
max_from-last_available (suc fuel) max (nil e) bound enough = ground arith
max_from-last_available (suc fuel) {m} {stop} {p} max (cons {r} lt b l t fits rest) bound enough =
    let wrap : u32 (p + size m p + 4) ≡ p + size m p + 4 = omega (arith, Holds-le rest) in
    let sum : u32 (r.base + r.span) ≡ r.base + r.span = omega arith in
    rw (lt→ltb _ _ lt, wrap, b, l, t, sum)
      (max_from-last_available fuel (if r.kind == 1 then r.base + r.span else max) rest bound
        (omega arith))

last_available-ge : (max : ℕ) (rs : List Region) → Ascending max rs → max ≤ last_available max rs
unfolding last_available
last_available-ge max [] h = omega arith
last_available-ge max (r ∷ rs) h =
    ground (arith, last_available-ge (if r.kind == 1 then r.base + r.span else max) rs h.1)

last_available-AllBelow :
    (max : ℕ) (rs : List Region) → Ascending max rs → AllBelow (last_available max rs) rs
unfolding last_available
last_available-AllBelow max [] h = tt
last_available-AllBelow max (r ∷ rs) h = (
  ground (arith, last_available-ge (if r.kind == 1 then r.base + r.span else max) rs h.1),
  last_available-AllBelow (if r.kind == 1 then r.base + r.span else max) rs h.1,
)

-- On a map of `len` bytes that does not pass 2 ^ 32, with its available regions in ascending
-- order, `pmm_get_max_space` ends and returns the end of the last available region, and no
-- available region ends above that.
pub pmm_get_max_space-AllBelow :
    (m : Memory) (mmap len : ℕ) (rs : List Region)
    → Holds m (mmap + len) mmap rs
    → mmap + len < 2 ^ 32
    → Ascending 0 rs
    → (pmm_get_max_space m mmap len ≡ some (last_available 0 rs))
      × AllBelow (last_available 0 rs) rs
unfolding pmm_get_max_space
pmm_get_max_space-AllBelow m mmap len rs h bound up =
    let wrap : u32 (mmap + len) ≡ mmap + len = omega arith in
    (
      rw wrap (max_from-last_available (len + 1) 0 h bound (omega arith)),
      last_available-AllBelow 0 rs up,
    )
