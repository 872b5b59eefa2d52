-- ===== src/Process/Switch.antt =====
-- The exchange of the two processes by `switch_task`, src/sys/process.c.
use frod.Base.{
  ℕ, ◌+◌, ◌≡◌, refl, ◌≢◌, sym, ◌∙◌, ◌<◌, ◌^◌, arith, ap, ◌==◌, if◌then◌else◌, false, inl, inr,
  Bool-cases,
}
use frod.Vmm.{vmm_switch_pdir}
use frod.Process.{
  Registers, Processes, proc_running, proc_ready, kstacksz, sizeof_registers, put_pcb, put_frame,
  change_tss, exchange, switch_task,
}

-- The kernel stack of the process at `p` lies in the address space, and the saved registers stand
-- where `switch_task` gives the stack pointer.
pub record HasStack (s : Processes) (p : ℕ) : Type 0 where
  pub below : (s.pcbs p).kstack + kstacksz < 2 ^ 32
  pub regs_place : (s.pcbs p).regs + (sizeof_registers + 8) ≡ (s.pcbs p).kstack + kstacksz

-- One process runs, on its own page directory and with its own kernel stack, and another waits.
pub record IsScheduled (s : Processes) : Type 0 where
  pub waits : s.proc_list ≢ 0
  pub runs : s.proc_current ≢ 0
  pub apart : s.proc_list ≢ s.proc_current
  pub apart_regs : (s.pcbs s.proc_list).regs ≢ (s.pcbs s.proc_current).regs
  pub stack_runs : HasStack s s.proc_current
  pub stack_waits : HasStack s s.proc_list
  pub running : (s.pcbs s.proc_current).state ≡ proc_running
  pub ready : (s.pcbs s.proc_list).state ≡ proc_ready
  pub own_stack : s.esp0 ≡ (s.pcbs s.proc_current).kstack + kstacksz
  pub own_dir : s.heap.vmm.cr3 ≡ (s.pcbs s.proc_current).dirtable

-- What `switch_task` with the registers `r` makes of `s`.
pub record IsSwitched (r : Registers) (s t : Processes) (esp : ℕ) : Type 0 where
  pub now : t.proc_current ≡ s.proc_list
  pub before : t.proc_list ≡ s.proc_current
  pub stack_pointer : esp ≡ (s.pcbs s.proc_list).regs
  pub kept : t.frames (s.pcbs s.proc_current).regs ≡ r
  pub others : (a : ℕ) → a ≢ (s.pcbs s.proc_current).regs → t.frames a ≡ s.frames a
  pub places : (a : ℕ) → (t.pcbs a).regs ≡ (s.pcbs a).regs
  pub scheduled : IsScheduled t

module _ (r : Registers) (s : Processes) (k : IsScheduled s) where
  abbrev t : Processes
  t = (exchange r s).0

  -- No control block changes but in its state.
  exchange_pcb :
      (a : ℕ)
      → t.pcbs a ≡ (
          if a == s.proc_list
          then record (s.pcbs a) { state = proc_running }
          else (if a == s.proc_current then record (s.pcbs a) { state = proc_ready } else s.pcbs a))
  unfolding exchange put_pcb put_frame change_tss vmm_switch_pdir
  exchange_pcb a = elim (Bool-cases (a == s.proc_list)) [
    | inl on ↦ ground (arith, k.apart)
    | inr off ↦ ground (arith, k.apart)
  ]

  exchange_stack : (a : ℕ) → (t.pcbs a).kstack ≡ (s.pcbs a).kstack
  exchange_stack a = ground (arith, exchange_pcb a)

  exchange_regs : (a : ℕ) → (t.pcbs a).regs ≡ (s.pcbs a).regs
  exchange_regs a = ground (arith, exchange_pcb a)

  exchange_dir : (a : ℕ) → (t.pcbs a).dirtable ≡ (s.pcbs a).dirtable
  exchange_dir a = ground (arith, exchange_pcb a)

  exchange_frame :
      (a : ℕ) → t.frames a ≡ (if a == (s.pcbs s.proc_current).regs then r else s.frames a)
  unfolding exchange put_pcb put_frame change_tss vmm_switch_pdir
  exchange_frame a = refl

  exchange_esp0 : t.esp0 ≡ (s.pcbs s.proc_list).kstack + kstacksz
  unfolding exchange put_pcb put_frame change_tss vmm_switch_pdir
  exchange_esp0 = ground (arith, k.apart, k.stack_waits.below)

  exchange_cr3 : t.heap.vmm.cr3 ≡ (s.pcbs s.proc_list).dirtable
  unfolding exchange put_pcb put_frame change_tss vmm_switch_pdir
  exchange_cr3 = ground (arith, k.apart)

  exchange_esp : (exchange r s).1 ≡ (s.pcbs s.proc_list).regs
  unfolding exchange put_pcb put_frame change_tss vmm_switch_pdir
  exchange_esp = ground (arith, k.apart, k.stack_waits.below, k.stack_waits.regs_place)

  exchange_now : t.proc_current ≡ s.proc_list
  unfolding exchange put_pcb put_frame change_tss vmm_switch_pdir
  exchange_now = refl

  exchange_before : t.proc_list ≡ s.proc_current
  unfolding exchange put_pcb put_frame change_tss vmm_switch_pdir
  exchange_before = refl

  exchange-HasStack : (a : ℕ) → HasStack s a → HasStack t a
  exchange-HasStack a h = record {
    below = rw (exchange_stack a) h.below;
    regs_place = rw (exchange_stack a, exchange_regs a) h.regs_place;
  }

  exchange-IsScheduled : IsScheduled t
  exchange-IsScheduled = record {
    waits = rw exchange_before k.runs;
    runs = rw exchange_now k.waits;
    apart = rw (exchange_before, exchange_now) λ e. k.apart (sym e);
    apart_regs =
        rw (exchange_before, exchange_now, exchange_regs s.proc_list, exchange_regs s.proc_current)
          λ e. k.apart_regs (sym e);
    stack_runs = rw exchange_now (exchange-HasStack s.proc_list k.stack_waits);
    stack_waits = rw exchange_before (exchange-HasStack s.proc_current k.stack_runs);
    running = rw exchange_now (ground (arith, exchange_pcb s.proc_list));
    ready = rw exchange_before (ground (arith, exchange_pcb s.proc_current, k.apart));
    own_stack = rw (exchange_esp0, exchange_now, exchange_stack s.proc_list) refl;
    own_dir = rw (exchange_cr3, exchange_now, exchange_dir s.proc_list) refl;
  }

-- Where one process runs and another waits, `switch_task` lets the other one run, on its own page
-- directory and with its own kernel stack, gives the place of that one's saved registers as stack
-- pointer, keeps `r` as the registers of the process that ran and leaves all others alone; again
-- one process runs and one waits.
pub switch_task-IsSwitched :
    (r : Registers) (s : Processes)
    → IsScheduled s
    → IsSwitched r s (switch_task r s).0 (switch_task r s).1
unfolding switch_task
switch_task-IsSwitched r s k =
    let off : (s.proc_list == 0) ≡ false = ground (arith, k.waits) in
    rw off record {
      now = exchange_now r s k;
      before = exchange_before r s k;
      stack_pointer = exchange_esp r s k;
      kept = ground (arith, exchange_frame r s k (s.pcbs s.proc_current).regs);
      others = λ a ne. ground (arith, exchange_frame r s k a);
      places = exchange_regs r s k;
      scheduled = exchange-IsScheduled r s k;
    }

-- Two calls of `switch_task` come back to the process that ran first: the second one gives the
-- place of that one's saved registers as stack pointer, and they are those of the first call.
pub switch_task-back :
    (r r' : Registers) (s : Processes)
    → IsScheduled s
    → let t = switch_task r' (switch_task r s).0 in
      (t.0.proc_current ≡ s.proc_current)
      × (t.1 ≡ (s.pcbs s.proc_current).regs)
      × (t.0.frames t.1 ≡ r)
switch_task-back r r' s k =
    let f = switch_task-IsSwitched r s k in
    let g = switch_task-IsSwitched r' (switch_task r s).0 f.scheduled in
    let place : (switch_task r' (switch_task r s).0).1 ≡ (s.pcbs s.proc_current).regs =
      g.stack_pointer
      ∙ ap (λ a. ((switch_task r s).0.pcbs a).regs) f.before
      ∙ f.places s.proc_current in
    (
      g.now ∙ f.before,
      place,
      rw place (
          g.others (s.pcbs s.proc_current).regs (λ e.
            k.apart_regs
              (sym (e ∙ ap (λ a. ((switch_task r s).0.pcbs a).regs) f.now ∙ f.places s.proc_list)))
          ∙ f.kept),
    )
