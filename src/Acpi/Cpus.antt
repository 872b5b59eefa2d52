-- ===== src/Acpi/Cpus.antt =====
-- What `apic_find_cpus` of src/arch/x86/apic.c makes of the entries of the MADT.
use frod.Base.{
  ℕ, zero, suc, ◌+◌, ◌^◌, ◌≤◌, ◌<◌, ◌==◌, ◌≡◌, refl, sym, ◌∙◌, arith, if◌then◌else◌, Bool, true,
  false, Bool-cases, List, [], ◌∷◌, length, some, inl, inr, Memory, u32, ltb, ◌||◌, not,
}
use frod.Acpi.Rsdp.{nth}
use frod.Acpi.{
  Found, CpuInfo, add_cpu, set_ioapic, add_entry, add_entries, Apic, length_of, find_cpus_in,
  end_find, start_found,
}

-- The entries between the two addresses: each has a length of 1 or more, the last one ends at `end`.
pub data Entries (m : Memory) (end : ℕ) : ℕ → List ℕ → Type 0 where
  no_more : Entries m end end []
  one_entry :
      {a : ℕ} {es : List ℕ}
      → a < end
      → a + m (a + 1) ≤ end
      → Entries m end (a + m (a + 1)) es
      → Entries m end a (a ∷ es)

-- The ids of the processors, in the order of their entries.
abbrev pub cpu_ids : Memory → List ℕ → List ℕ
cpu_ids m [] = []
cpu_ids m (e ∷ es) = if m e == 0 then m (e + 3) ∷ cpu_ids m es else cpu_ids m es

-- Some entry is an I/O APIC.
abbrev pub has_ioapic : Memory → List ℕ → Bool
has_ioapic m [] = false
has_ioapic m (e ∷ es) = (m e == 1) || has_ioapic m es

-- The element of `cpus` for a processor with a number.
abbrev pub cpu_of : ℕ → ℕ → CpuInfo
cpu_of i id = record {
  id = id;
  boot_cpu = i == 0;
  started = if i == 0 then 1 else 0;
  num_cli = 0;
  int_enabled = false;
}

abbrev pub some_cpu : List ℕ → Bool
some_cpu [] = false
some_cpu (id ∷ ids) = true

-- `g` is `f` with the processors of the ids behind those that are there, and the two flags.
pub record Adds (ids : List ℕ) (io : Bool) (f g : Found) : Type 0 where
  pub ret : g.ret ≡ f.ret + length ids
  pub listed : (i : ℕ) → i < length ids → g.cpus (f.ret + i) ≡ cpu_of (f.ret + i) (nth ids i)
  pub before : (i : ℕ) → i < f.ret → g.cpus i ≡ f.cpus i
  pub behind : (i : ℕ) → f.ret + length ids ≤ i → g.cpus i ≡ f.cpus i
  pub lapic : g.found_lapic ≡ (f.found_lapic || some_cpu ids)
  pub ioapic : g.found_ioapic ≡ (f.found_ioapic || io)

-- All entries, in order.
abbrev add_all : Memory → List ℕ → Found → Found
add_all m [] f = f
add_all m (e ∷ es) f = add_all m es (add_entry e m f)

add_entries-add_all :
    (m : Memory) (end a fuel : ℕ) (es : List ℕ) (f : Found)
    → Entries m end a es
    → end < 2 ^ 32
    → length es < fuel
    → add_entries fuel a end m f ≡ some (add_all m es f)
unfolding add_entries
add_entries-add_all m end a zero es f entries small enough = absurd (omega arith)
add_entries-add_all m end a (suc fuel) es f no_more small enough =
    let over : ltb end end ≡ false = ground arith in rw over refl
add_entries-add_all m end a (suc fuel) es f (one_entry {es = es2} inside room rest) small enough =
    let into : ltb a end ≡ true = ground arith in
    let e : u32 (a + m (a + 1)) ≡ a + m (a + 1) = omega arith in
    rw (into, e)
      (add_entries-add_all m end (a + m (a + 1)) fuel es2 (add_entry a m f) rest small
        (omega arith))

or_false : (b : Bool) → b ≡ (b || false)
or_false true = refl
or_false false = refl

true_or : (b : Bool) → (b || true) ≡ true
true_or true = refl
true_or false = refl

Adds-cpu :
    (m : Memory) (e : ℕ) (ids : List ℕ) (io : Bool) (f g : Found)
    → Adds ids io (add_cpu e m f) g
    → Adds (m (e + 3) ∷ ids) io f g
unfolding add_cpu
Adds-cpu m e ids io f g d = record {
  ret = omega (arith, d.ret);
  listed = λ i lt. listed_cpu i lt;
  before = λ i lt. ground (arith, d.before i (omega arith));
  behind = λ i le. ground (arith, d.behind i (omega arith));
  lapic = d.lapic ∙ sym (true_or f.found_lapic);
  ioapic = d.ioapic;
}
  where
    listed_cpu :
        (i : ℕ)
        → i < length (m (e + 3) ∷ ids)
        → g.cpus (f.ret + i) ≡ cpu_of (f.ret + i) (nth (m (e + 3) ∷ ids) i)
    listed_cpu zero lt =
        let k : f.ret + 0 ≡ f.ret = omega arith in
        let me : (f.ret == f.ret) ≡ true = ground arith in
        rw k (d.before f.ret (omega arith) ∙ rw me refl)
    listed_cpu (suc i) lt =
        let k : f.ret + suc i ≡ f.ret + 1 + i = omega arith in rw k (d.listed i (omega arith))

Adds-io :
    (m : Memory) (e : ℕ) (ids : List ℕ) (io : Bool) (f g : Found)
    → Adds ids io (set_ioapic e m f) g
    → Adds ids true f g
unfolding set_ioapic
Adds-io m e ids io f g d = record {
  ret = d.ret;
  listed = d.listed;
  before = d.before;
  behind = d.behind;
  lapic = d.lapic;
  ioapic = d.ioapic ∙ sym (true_or f.found_ioapic);
}

add_all-Adds :
    (m : Memory) (es : List ℕ) (f : Found)
    → Adds (cpu_ids m es) (has_ioapic m es) f (add_all m es f)
unfolding add_entry
add_all-Adds m [] f = record {
  ret = omega arith;
  listed = λ i lt. absurd (omega arith);
  before = λ i lt. refl;
  behind = λ i le. refl;
  lapic = or_false f.found_lapic;
  ioapic = or_false f.found_ioapic;
}
add_all-Adds m (e ∷ es) f = elim (Bool-cases (m e == 0)) [
  | inl cpu ↦
      let not_io : (m e == 1) ≡ false = ground arith in
      rw (cpu, not_io)
        (Adds-cpu m e (cpu_ids m es) (has_ioapic m es) f _ (add_all-Adds m es (add_cpu e m f)))
  | inr other ↦ elim (Bool-cases (m e == 1)) [
    | inl io ↦
        rw (other, io)
          (Adds-io m e (cpu_ids m es) (has_ioapic m es) f _ (add_all-Adds m es (set_ioapic e m f)))
    | inr unknown ↦ rw (other, unknown) (add_all-Adds m es f)
  ]
]

result_of :
    (cpu lapic io2 io : Bool) (ret n : ℕ)
    → lapic ≡ cpu
    → io2 ≡ io
    → ret ≡ n
    → (if not lapic then 0 else if io2 then ret else 0) ≡ (if cpu then (if io then n else 0) else 0)
result_of true lapic io2 io ret n e1 e2 e3 = rw (e1, e2, e3) refl
result_of false lapic io2 io ret n e1 e2 e3 = rw e1 refl

-- For a MADT whose entries each have a length of 1 or more and fill it up to its end, below 4 GB,
-- as many rounds as there are entries, and one, are enough. Each entry of a processor becomes the
-- next element of `cpus`, the first of them the boot processor and started, and `num_cpus` is their
-- number; no other element changes, so that a write behind the eight of the array happens exactly
-- with a ninth entry. The result is this number, if some entry is a processor and some one an I/O
-- APIC, and 0 otherwise.
pub find_cpus_in_lem :
    (m : Memory) (madt fuel : ℕ) (es : List ℕ) (a : Apic)
    → Entries m (madt + length_of m madt) (madt + 44) es
    → madt + length_of m madt < 2 ^ 32
    → madt + 44 < 2 ^ 32
    → length es < fuel
    → let ids = cpu_ids m es in
      (b : Apic) × (n : ℕ) × (find_cpus_in fuel madt m a ≡ some (b, n))
      × (b.num_cpus ≡ length ids)
      × (n ≡ (if some_cpu ids then (if has_ioapic m es then length ids else 0) else 0))
      × ((i : ℕ) → i < length ids → b.cpus i ≡ cpu_of i (nth ids i))
      × ((i : ℕ) → length ids ≤ i → b.cpus i ≡ a.cpus i)
unfolding find_cpus_in end_find start_found
find_cpus_in_lem m madt fuel es a entries small start enough =
    let f : Found = start_found a in
    let g : Found = add_all m es f in
    let d = add_all-Adds m es f in
    let from : u32 (madt + 44) ≡ madt + 44 = omega arith in
    let to : u32 (madt + length_of m madt) ≡ madt + length_of m madt = omega arith in
    let run =
      add_entries-add_all m (madt + length_of m madt) (madt + 44) fuel es f entries small enough in
    let number : g.ret ≡ length (cpu_ids m es) = d.ret ∙ omega arith in
    (
      (end_find madt m g).0,
      (end_find madt m g).1,
      rw (from, to, run) refl,
      number,
      result_of (some_cpu (cpu_ids m es)) g.found_lapic g.found_ioapic (has_ioapic m es) g.ret
          (length (cpu_ids m es)) d.lapic d.ioapic number,
      λ i lt. from_start i (d.listed i lt),
      λ i le. d.behind i (omega arith),
    )
  where
    from_start :
        (i : ℕ)
        → (add_all m es (start_found a)).cpus (0 + i) ≡ cpu_of (0 + i) (nth (cpu_ids m es) i)
        → (add_all m es (start_found a)).cpus i ≡ cpu_of i (nth (cpu_ids m es) i)
    from_start i h = let k : 0 + i ≡ i = omega arith in (rw k at h)
