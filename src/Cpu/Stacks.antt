-- ===== src/Cpu/Stacks.antt =====
-- The stacks that the processors get, src/sys/cpu.c.
use frod.Base.{
  ℕ, zero, suc, ◌+◌, ◌-◌, ◌*◌, ◌^◌, ◌<◌, ◌≤◌, ◌≡◌, refl, sym, ◌∙◌, ap, arith, true, false, Bool,
  Bool-cases, inl, inr, some, List, [], ◌∷◌, ◌/◌, ◌++◌, Memory, read32, u32, ◌==◌, if◌then◌else◌,
}
use mathlib.Core.List.{append-nil, append_assoc}
use frod.Ports.{Device}
use frod.Acpi.{CpuInfo, max_cpus}
use frod.Lapic.{write16, commands}
use frod.Lapic.Startup.{IsQuick, lapic_start_ap-Starts}
use frod.Cpu.{
  Aps, write32, reads, wakes, in_init, wait_started, start_ap, start_from, cpu_start_aps,
  kernel_stack_top, stack_sz, code,
}
use frod.Cpu.Area.{
  read32-write32, read32-write32_apart, read32-write16_apart, others, stacked, others_cons,
  others_same, stacked_same, others_boot, AreInArea, stacked-AreInArea, or_true,
}

module _ (dev : Device) (base entry pdir : ℕ) (reaches : ℕ → Bool) (quick : IsQuick dev base)
    (entry_low : entry < 2 ^ 32) (pdir_low : pdir < 2 ^ 32)
    (all_reach : (i : ℕ) → reaches i ≡ true) where
  prepared : Memory → ℕ → Memory
  prepared m stack =
      write16
        (write16 (write32 (write32 (write32 m (code + 4) stack) (code + 8) entry) (code + 12) pdir)
          0x467 0)
        0x469 0x700

  reads-prepared :
      (id : ℕ) (m : Memory) (stack : ℕ)
      → stack < 2 ^ 32
      → reads id (prepared m stack) ≡ record { id = id; stack = stack; entry = entry; pdir = pdir }
  unfolding prepared
  reads-prepared id m stack lt =
      let m1 : Memory = write32 m (code + 4) stack in
      let m2 : Memory = write32 m1 (code + 8) entry in
      let m3 : Memory = write32 m2 (code + 12) pdir in
      let below : (b : ℕ)
          → 0x46A < b
          → read32 (write16 (write16 m3 0x467 0) 0x469 0x700) b ≡ read32 m3 b =
        λ b far.
          read32-write16_apart (write16 m3 0x467 0) 0x469 b 0x700 (omega arith)
          ∙ read32-write16_apart m3 0x467 b 0 (omega arith) in
      let own : read32 m3 (code + 4) ≡ stack =
        read32-write32_apart m2 (code + 12) (code + 4) pdir (omega arith)
        ∙ read32-write32_apart m1 (code + 8) (code + 4) entry (omega arith)
        ∙ read32-write32 m (code + 4) stack lt in
      let start : read32 m3 (code + 8) ≡ entry =
        read32-write32_apart m2 (code + 12) (code + 8) pdir (omega arith)
        ∙ read32-write32 m1 (code + 8) entry entry_low in
      let dir : read32 m3 (code + 12) ≡ pdir = read32-write32 m2 (code + 12) pdir pdir_low in
      rw
        (
          below (code + 4) (omega arith),
          below (code + 8) (omega arith),
          below (code + 12) (omega arith),
          own,
          start,
          dir,
        )
        refl

  -- The commands of a start wake the processor with the number.
  wakes-reads :
      (id : ℕ) (m : Memory) (l : List (ℕ × ℕ))
      → id < 256
      → let word : ℕ = u32 (u32 (id * 2 ^ 24)) in
        wakes ((word, 0x607) ∷ (word, 0x607) ∷ (word, 0x8500) ∷ (word, 0xC500) ∷ l) m
        ≡ reads id m ∷ []
  unfolding wakes in_init
  wakes-reads id m l low =
      let word : ℕ = u32 (u32 (id * 2 ^ 24)) in
      let own : (word == word) ≡ true = ground arith in
      let number : word / 2 ^ 24 ≡ id = omega arith in rw own (ap (λ n. reads n m ∷ []) number)

  -- One processor is started: it reads its stack, and no processor changes but in being started.
  record IsStarted (i stack : ℕ) (s t : Aps) : Type 0 where
    pub logged :
        t.starts
        ≡ s.starts
          ++ (record { id = (s.cpus i).id; stack = stack; entry = entry; pdir = pdir } ∷ [])
    pub ids : (j : ℕ) → (t.cpus j).id ≡ (s.cpus j).id
    pub kinds : (j : ℕ) → (t.cpus j).boot_cpu ≡ (s.cpus j).boot_cpu
    pub started : (j : ℕ) → (t.cpus j).started ≡ (if j == i then 1 else (s.cpus j).started)

  start_ap-IsStarted :
      (i stack : ℕ) (s : Aps)
      → stack < 2 ^ 32
      → (s.cpus i).id < 256
      → (t : Aps) × (start_ap dev base 2 entry pdir reaches i stack s ≡ some t)
        × IsStarted i stack s t
  unfolding start_ap wait_started prepared
  start_ap-IsStarted i stack s lt low =
      let m3 : Memory =
        write32 (write32 (write32 s.mem (code + 4) stack) (code + 8) entry) (code + 12) pdir in
      let (tr, e, given) = lapic_start_ap-Starts dev base quick (s.cpus i).id code s.trace m3 in
      let m4 : Memory = prepared s.mem stack in
      let woken : wakes (commands base tr) m4 ≡ reads (s.cpus i).id m4 ∷ [] =
        ap (λ l. wakes l m4) given.given
        ∙ wakes-reads (s.cpus i).id m4 (commands base s.trace) low in
      let c : CpuInfo = record (s.cpus i) { started = 1 } in
      let t : Aps = record {
        cpus = λ j. if j == i then c else s.cpus j;
        mem = m4;
        trace = tr;
        starts = s.starts ++ wakes (commands base tr) m4;
      } in
      (
        t,
        rw e (rw (all_reach i) (rw (or_true ((s.cpus i).started == 1)) refl)),
        record {
          logged =
              ap (λ l. s.starts ++ l) woken
              ∙ ap (λ r. s.starts ++ (r ∷ [])) (reads-prepared (s.cpus i).id s.mem stack lt);
          ids = λ j. ground arith;
          kinds = λ j. ground arith;
          started = λ j. ground arith;
        },
      )

  start_from_step :
      (left i above stack : ℕ) (s u t : Aps)
      → (s.cpus i).boot_cpu ≡ false
      → u32 (above + 2 ^ 32 - stack_sz) ≡ stack
      → start_ap dev base 2 entry pdir reaches i stack s ≡ some u
      → start_from dev base 2 entry pdir reaches left (i + 1) stack u ≡ some t
      → start_from dev base 2 entry pdir reaches (suc left) i above s ≡ some t
  unfolding start_from
  start_from_step left i above stack s u t other lower e f = rw (other, lower, e) f

  start_from-HasStacks :
      (left i k : ℕ) (s : Aps)
      → k + left ≤ max_cpus
      → ((j : ℕ) → (s.cpus j).id < 256)
      → (t : Aps) × (start_from dev base 2 entry pdir reaches left i
            (kernel_stack_top - stack_sz * k)
            s
          ≡ some t)
        × (t.starts ≡ s.starts ++ stacked s.cpus entry pdir k (others left i s.cpus))
  unfolding start_from stacked others
  start_from-HasStacks zero i k s few low = (s, refl, sym (append-nil s.starts))
  start_from-HasStacks (suc left) i k s few low = elim (Bool-cases (s.cpus i).boot_cpu) [
    | inl boot ↦ rw boot (start_from-HasStacks left (i + 1) k s (omega arith) low)
    | inr other ↦
        let stack : ℕ = kernel_stack_top - stack_sz * (k + 1) in
        let lower : u32 (kernel_stack_top - stack_sz * k + 2 ^ 32 - stack_sz) ≡ stack =
          omega arith in
        let (u, e, n) = start_ap-IsStarted i stack s (omega arith) (low i) in
        let (t, f, l) =
          start_from-HasStacks left (i + 1) (k + 1) u (omega arith) (λ j. rw n.ids (low j)) in
        (
          t,
          start_from_step left i _ stack s u t other lower e f,
          l
              ∙ rw
                  (
                    n.logged,
                    others_same left (i + 1) u.cpus s.cpus n.kinds,
                    stacked_same u.cpus s.cpus entry pdir (k + 1) (others left (i + 1) s.cpus)
                        n.ids,
                  )
                  (append_assoc s.starts (_ ∷ []) _)
              ∙ ap (λ r. s.starts ++ stacked s.cpus entry pdir k r)
                  (others_cons left i s.cpus other),
        )
  ]

  -- On at most MAX_CPUS processors with numbers of 8 bits, of which the first is the boot processor,
  -- with a local APIC whose command register is pending for one read at most, and where every
  -- processor gets to `cpu_common_main`, `cpu_start_aps` ends. By the commands that the local APIC
  -- was given, all others are started once, in order: each one reads the entry point, the page
  -- directory and a stack of its own, and all the stacks lie in their area, below the boot
  -- processor's.
  pub cpu_start_aps-AreInArea :
      (num_cpus : ℕ) (s : Aps)
      → num_cpus ≤ max_cpus
      → ((j : ℕ) → (s.cpus j).id < 256)
      → (s.cpus 0).boot_cpu ≡ true
      → s.starts ≡ []
      → (t : Aps) × (cpu_start_aps dev base 2 entry pdir reaches num_cpus s ≡ some t)
        × (t.starts ≡ stacked s.cpus entry pdir 0 (others num_cpus 0 s.cpus))
        × AreInArea t.starts
  unfolding cpu_start_aps
  cpu_start_aps-AreInArea num_cpus s few low boot none_yet =
      let (t, e, l) = start_from-HasStacks num_cpus 0 0 s (omega arith) low in
      let l' : t.starts ≡ stacked s.cpus entry pdir 0 (others num_cpus 0 s.cpus) =
        l ∙ ap (λ r. r ++ stacked s.cpus entry pdir 0 (others num_cpus 0 s.cpus)) none_yet in
      (
        t,
        e,
        l',
        rw l' (
            stacked-AreInArea s.cpus entry pdir 0 (others num_cpus 0 s.cpus)
              (others_boot num_cpus s.cpus few boot)),
      )
