-- ===== src/Cpu/Area.antt =====
-- The processors to start, and the stacks meant for them, src/sys/cpu.c.
use frod.Base.{
  ℕ, zero, suc, ◌+◌, ◌-◌, ◌*◌, ◌^◌, ◌<◌, ◌≤◌, ◌≡◌, refl, arith, true, false, Bool, List, [], ◌∷◌,
  Memory, read32, write, length, ◌||◌, if◌then◌else◌,
}
use frod.Acpi.{CpuInfo, max_cpus}
use frod.Lapic.{write16}
use frod.Cpu.{ApStart, write32, kernel_stack_top, stack_sz}

pub read32-write32 : (m : Memory) (a v : ℕ) → v < 2 ^ 32 → read32 (write32 m a v) a ≡ v
unfolding read32 write32 write
read32-write32 m a v lt = ground arith

pub read32-write32_apart :
    (m : Memory) (a b v : ℕ) → b + 3 < a → read32 (write32 m a v) b ≡ read32 m b
unfolding read32 write32 write
read32-write32_apart m a b v lt = ground arith

pub read32-write16_apart :
    (m : Memory) (a b v : ℕ) → a + 1 < b → read32 (write16 m a v) b ≡ read32 m b
unfolding read32 write16 write
read32-write16_apart m a b v lt = ground arith

-- The processors from `i` on, of `left`, that are not the boot processor.
unfoldable pub others : ℕ → ℕ → (ℕ → CpuInfo) → List ℕ
others zero i cpus = []
others (suc left) i cpus =
    if (cpus i).boot_cpu then others left (i + 1) cpus else i ∷ others left (i + 1) cpus

-- Starts of the processors of `l`, the `k`-th of them on the stack that ends `k + 1` stacks below
-- the top of the area.
unfoldable pub stacked : (ℕ → CpuInfo) → ℕ → ℕ → ℕ → List ℕ → List ApStart
stacked cpus entry pdir k [] = []
stacked cpus entry pdir k (i ∷ l) =
    record {
      id = (cpus i).id;
      stack = kernel_stack_top - stack_sz * (k + 1);
      entry = entry;
      pdir = pdir;
    }
    ∷ stacked cpus entry pdir (k + 1) l

pub others_cons :
    (left i : ℕ) (cpus : ℕ → CpuInfo)
    → (cpus i).boot_cpu ≡ false
    → i ∷ others left (i + 1) cpus ≡ others (suc left) i cpus
unfolding others
others_cons left i cpus other = rw other refl

pub others_same :
    (left i : ℕ) (a b : ℕ → CpuInfo)
    → ((j : ℕ) → (a j).boot_cpu ≡ (b j).boot_cpu)
    → others left i a ≡ others left i b
unfolding others
others_same zero i a b same = refl
others_same (suc left) i a b same = rw (same i, others_same left (i + 1) a b same) refl

pub stacked_same :
    (a b : ℕ → CpuInfo) (entry pdir k : ℕ) (l : List ℕ)
    → ((j : ℕ) → (a j).id ≡ (b j).id)
    → stacked a entry pdir k l ≡ stacked b entry pdir k l
unfolding stacked
stacked_same a b entry pdir k [] same = refl
stacked_same a b entry pdir k (i ∷ l) same =
    rw (same i, stacked_same a b entry pdir (k + 1) l same) refl

pub others-length : (left i : ℕ) (cpus : ℕ → CpuInfo) → length (others left i cpus) ≤ left
unfolding others
others-length zero i cpus = omega arith
others-length (suc left) i cpus = ground (arith, others-length left (i + 1) cpus)

pub others_boot :
    (num : ℕ) (cpus : ℕ → CpuInfo)
    → num ≤ max_cpus
    → (cpus 0).boot_cpu ≡ true
    → 0 + length (others num 0 cpus) < max_cpus
unfolding others
others_boot zero cpus few boot = omega arith
others_boot (suc num) cpus few boot = rw boot (omega (arith, others-length num (0 + 1) cpus))

-- Each stack lies in the area for the stacks of MAX_CPUS processors, below the boot processor's.
abbrev pub AreInArea : List ApStart → Type 0
AreInArea [] = Unit {0}
AreInArea (a ∷ l) =
    (kernel_stack_top - stack_sz * max_cpus ≤ a.stack - stack_sz)
    × (a.stack ≤ kernel_stack_top - stack_sz)
    × AreInArea l

pub stacked-AreInArea :
    (cpus : ℕ → CpuInfo) (entry pdir k : ℕ) (l : List ℕ)
    → k + length l < max_cpus
    → AreInArea (stacked cpus entry pdir k l)
unfolding stacked
stacked-AreInArea cpus entry pdir k [] few = tt
stacked-AreInArea cpus entry pdir k (i ∷ l) few =
    (omega arith, omega arith, stacked-AreInArea cpus entry pdir (k + 1) l (omega arith))

pub or_true : (b : Bool) → (b || true) ≡ true
or_true true = refl
or_true false = refl
