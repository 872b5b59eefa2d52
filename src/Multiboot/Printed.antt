-- ===== src/Multiboot/Printed.antt =====
-- What is printed of the memory and of the memory map, src/sys/multiboot1.c.
use frod.Base.{
  ℕ, zero, suc, ◌+◌, ◌*◌, ◌/◌, ◌^◌, ◌<◌, ◌≤◌, ◌≡◌, refl, ◌∙◌, ap, arith, some, List, [], ◌∷◌, ◌++◌,
  Memory, read32, u32, ltb, if◌then◌else◌, Bool-cases, inl, inr, lt→ltb,
}
use native.Mathlib.Nat.{pow-suc}
use frod.Pmm.Init.{size, type, next_entry}
use frod.Multiboot.Print.{
  Arg, num, str, Call, field, scale, types, mem_type_str, print_mb_memory, print_region,
  print_regions, print_mb_mmap,
}

-- An entry of the memory map: its words.
pub record Entry : Type 0 where
  pub base_low : ℕ
  pub base_high : ℕ
  pub length_low : ℕ
  pub length_high : ℕ
  pub kind : ℕ

-- The words of the entry at `p`.
pub record IsEntry (m : Memory) (p : ℕ) (e : Entry) : Type 0 where
  pub base_l : read32 m (p + 4) ≡ e.base_low
  pub base_h : read32 m (p + 8) ≡ e.base_high
  pub len_l : read32 m (p + 12) ≡ e.length_low
  pub len_h : read32 m (p + 16) ≡ e.length_high
  pub kind : read32 m (p + 20) ≡ e.kind

-- From `p` up to `stop` the map has the entries of the list, each of which gives the distance to
-- the next one, and none passes 2 ^ 32.
pub data HoldsEntries (m : Memory) (stop : ℕ) : ℕ → List Entry → Type 0 where
  no_more : {p : ℕ} → stop ≤ p → HoldsEntries m stop p []
  entry :
      {p : ℕ} {es : List Entry} (e : Entry)
      → p < stop
      → IsEntry m p e
      → p + read32 m p + 4 < 2 ^ 32
      → HoldsEntries m stop (p + read32 m p + 4) es
      → HoldsEntries m stop p (e ∷ es)

-- The two calls for an entry, which make one line.
abbrev pub shown : Entry → List Call
shown e =
    record {
      fmt = "\tMap @0x%X+0x%X, Len: %X+%X, Type: 0x%X ";
      args =
          num e.base_high ∷ num e.base_low ∷ num e.length_high ∷ num e.length_low ∷ num e.kind ∷ [];
    }
    ∷ (if ltb e.kind 6
        then record { fmt = "(%s)\n"; args = str (mem_type_str e.kind) ∷ [] }
        else record { fmt = "(unknown)\n"; args = [] })
    ∷ []

abbrev pub listing : List Entry → List Call
listing [] = []
listing (e ∷ es) = shown e ++ listing es

print_region-shown : (m : Memory) (p : ℕ) (e : Entry) → IsEntry m p e → print_region m p ≡ shown e
unfolding print_region type
print_region-shown m p e w =
    rw (w.base_l, w.base_h, w.len_l, w.len_h, w.kind)
      (elim (Bool-cases (ltb e.kind 6)) [
        | inl known ↦ rw known refl
        | inr unknown ↦ rw unknown refl
      ])

print_regions_step :
    (fuel stop p : ℕ) (m : Memory) (calls : List Call)
    → p < stop
    → p + read32 m p + 4 < 2 ^ 32
    → print_regions fuel stop (p + read32 m p + 4) m ≡ some calls
    → print_regions (suc fuel) stop p m ≡ some (print_region m p ++ calls)
unfolding print_regions next_entry size
print_regions_step fuel stop p m calls lt small e =
    let wrap : u32 (p + read32 m p + 4) ≡ p + read32 m p + 4 = omega arith in
    rw (lt→ltb _ _ lt, wrap, e) refl

print_regions-listing :
    (fuel : ℕ) {m : Memory} {stop p : ℕ} {es : List Entry}
    → HoldsEntries m stop p es
    → 0 < fuel
    → stop < p + fuel
    → print_regions fuel stop p m ≡ some (listing es)
unfolding print_regions next_entry
print_regions-listing zero h more enough = absurd (omega arith)
print_regions-listing (suc fuel) (no_more le) more enough = ground arith
print_regions-listing (suc fuel) {m} {stop} {p} (entry {es} e lt w small rest) more enough =
    let f = print_regions-listing fuel rest (omega arith) (omega arith) in
    print_regions_step fuel stop p m (listing es) lt small f
    ∙ ap (λ l. some (l ++ listing es)) (print_region-shown m p e w)

-- For a memory map whose end and whose entries do not pass 2 ^ 32, `print_mb_mmap` ends, with
-- these calls: one for the address and the length of the map, and then two for each entry, in the
-- order of the map, which make a line with all its words, the high ones before the low ones, and
-- with the name of its type, or that the type is unknown where it is 6 or more.
pub print_mb_mmap-listing :
    (m : Memory) (info : ℕ) (es : List Entry)
    → let addr = field m info 48 in
      let len = field m info 44 in
      HoldsEntries m (addr + len) addr es
      → addr + len < 2 ^ 32
      → print_mb_mmap m info
        ≡ some (
            record { fmt = "Mmap @0x%X, length = %i\n"; args = num addr ∷ num len ∷ [] }
            ∷ listing es)
unfolding print_mb_mmap
print_mb_mmap-listing m info es h bound =
    let addr = field m info 48 in
    let len = field m info 44 in
    let wrap : u32 (addr + len) ≡ addr + len = omega arith in
    let e = print_regions-listing (len + 1) h (omega arith) (omega arith) in rw (wrap, e) refl

-- `w`, with the unit `k` times larger by 1024, is `v` rounded down; it is above 1024 only where no
-- larger unit is left.
pub record InUnits (left v w k : ℕ) : Type 0 where
  pub units : k ≤ left
  pub lower : w * 1024 ^ k ≤ v
  pub upper : v < (w + 1) * 1024 ^ k
  pub short : (k < left) → w ≤ 1024

times_unit : (w k : ℕ) → w * 1024 ^ suc k ≡ 1024 * (w * 1024 ^ k)
times_unit w k = ap (λ (t : ℕ). w * t) (pow-suc 1024 k) ∙ grind arith

InUnits-scaled : (left v w k : ℕ) → InUnits left (v / 1024) w k → InUnits (suc left) v w (suc k)
InUnits-scaled left v w k u = record {
  units = omega (arith, u.units);
  lower = omega (arith, times_unit w k, u.lower);
  upper = omega (arith, times_unit (w + 1) k, u.upper);
  short = λ lt. u.short (omega arith);
}

scale-InUnits :
    (left v l : ℕ) → (w : ℕ) × (k : ℕ) × (scale left v l ≡ (w, l + k)) × InUnits left v w k
unfolding scale
scale-InUnits zero v l = (
  v,
  0,
  ground arith,
  record {
    units = omega arith;
    lower = omega arith;
    upper = omega arith;
    short = λ lt. absurd (omega arith);
  },
)
scale-InUnits (suc left) v l = elim (Bool-cases (ltb 1024 v)) [
  | inl large ↦
      let (w, k, e, u) = scale-InUnits left (v / 1024) (l + 1) in
      let f : l + 1 + k ≡ l + suc k = omega arith in
      (w, suc k, rw large (e ∙ ap (λ n. (w, n)) f), InUnits-scaled left v w k u)
  | inr small ↦ (
    v,
    0,
    rw small (ground arith),
    record {
      units = omega arith;
      lower = omega arith;
      upper = omega arith;
      short = λ lt. ground arith;
    },
  )
]

memory_args : ℕ × ℕ → ℕ × ℕ → List Arg
memory_args (low, l) (upper, h) = num low ∷ str (types l) ∷ num upper ∷ str (types h) ∷ []

-- `print_mb_memory` prints the two amounts in a unit of 1024 ^ k KB for some k of at most 2 each,
-- rounded down, with the name of the unit, and no more than 1024 of a unit below GB.
pub print_mb_memory-InUnits :
    (m : Memory) (info : ℕ)
    → (low : ℕ) × (l : ℕ) × (upper : ℕ) × (h : ℕ) × (x : Call) × (print_mb_memory m info ≡ x ∷ [])
      × (x.args ≡ num low ∷ str (types l) ∷ num upper ∷ str (types h) ∷ [])
      × InUnits 2 (field m info 4) low l
      × InUnits 2 (field m info 8) upper h
unfolding print_mb_memory memory_args
print_mb_memory-InUnits m info =
    let (low, l, e, u) = scale-InUnits 2 (field m info 4) 0 in
    let (upper, h, f, v) = scale-InUnits 2 (field m info 8) 0 in
    let e' : scale 2 (field m info 4) 0 ≡ (low, l) = e ∙ ap (λ n. (low, n)) (omega arith) in
    let f' : scale 2 (field m info 8) 0 ≡ (upper, h) = f ∙ ap (λ n. (upper, n)) (omega arith) in
    let x : Call = record {
      fmt = "Memory:\n\tStart: %i %s\n\tUpper: %i %s\n";
      args = memory_args (scale 2 (field m info 4) 0) (scale 2 (field m info 8) 0);
    } in
    (
      low,
      l,
      upper,
      h,
      x,
      refl,
      ap (λ r. memory_args r (scale 2 (field m info 8) 0)) e' ∙ ap (memory_args (low, l)) f',
      u,
      v,
    )
