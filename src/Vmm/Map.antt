-- ===== src/Vmm/Map.antt =====
-- `vmm_map_page`, src/sys/vmm.c: what it does to the address space.
use frod.Base.{ℕ, ◌+◌, ◌*◌, ◌%◌, ◌^◌, ◌≤◌, ◌<◌, ◌≡◌, ◌≢◌, ◌⊎◌, inl, inr, arith, Bool-cases}
use frod.Base.{some, write, write_same, if◌then◌else◌}
use native.Mathlib.Decide.{dec_lt}
use mathlib.Core.Path.{sym}
use frod.Pmm.{Pmm, pmm_alloc_first}
use frod.Vmm.{
  Vmm, translate, frame, present, dir_virtual, table_window, load, store, zero_table, entry,
  map_old, map_new, vmm_success, vmm_err_page_in_use,
}
use frod.Vmm.Mmu.{is_present_lem, entry_present, frame-entry}
use frod.Vmm.Inv.{
  dir_entry, table_entry, IsSelfMapped, translate-dir_virtual, translate-table_window,
  write-IsSelfMapped, zeroed, zeroed_outside, zero_table-zeroed,
}

-- A word of one block lies outside of another block.
pub outside_block :
    (f g k : ℕ)
    → f % 4096 ≡ 0
    → g % 4096 ≡ 0
    → f ≢ g
    → k < 1024
    → (f + 4 * k < g) ⊎ (g + 4096 ≤ f + 4 * k)
outside_block f g k hf hg ne lt = elim (dec_lt f g) [
  | yes below ↦ inl (omega arith)
  | no above ↦ inr (omega arith)
]

-- The manager has a bitmap for at most 2 ^ 20 blocks and a block is free.
pub record HasFree (p : Pmm) : Type 0 where
  pub pos : 1 ≤ p.pmm_bitmap_sz
  pub small : p.pmm_bitmap_sz ≤ 2 ^ 20
  pub free : (pmm_alloc_first p).1 ≢ 0

-- The new state when the table is there.
abbrev pub mapped_old : Vmm → ℕ → ℕ → ℕ → Vmm
mapped_old s d p x = record s { words = write s.words (frame (dir_entry s d) + 4 * p) x }

-- The new state when a table has been put into the block `new`.
abbrev pub mapped_new : Vmm → Pmm → ℕ → ℕ → ℕ → ℕ → ℕ → Vmm
mapped_new s pmm' new d p dir_x x = record s {
  pmm = pmm';
  words = write (zeroed new 1024 (write s.words (s.cr3 + 4 * d) dir_x)) (new + 4 * p) x;
}

module _ (s : Vmm) (m : IsSelfMapped s) (phys acl d p : ℕ) (lt : d < 1023) (lt' : p < 1024) where
  pub map_old_lem :
      dir_entry s d % 2 ≡ 1
      → map_old phys acl d p s ≡ (
          if present (table_entry s d p)
          then some (s, vmm_err_page_in_use)
          else some (mapped_old s d p (entry phys acl), vmm_success))
  unfolding map_old load store
  map_old_lem on =
      let e = translate-table_window m d p (omega arith) lt' on in
      rw (e, is_present_lem)
        (elim (Bool-cases (present (table_entry s d p))) [
          | inl old ↦ rw old
          | inr fresh ↦ rw fresh
        ])

  module _ (pmm' : Pmm) (new : ℕ) (got : pmm_alloc_first s.pmm ≡ (pmm', new))
      (aligned : new % 4096 ≡ 0) (apart : new ≢ s.cr3) (small : acl < 4096) where
    abbrev with_dir : Vmm
    with_dir = record s { pmm = pmm'; words = write s.words (s.cr3 + 4 * d) (entry new acl) }

    abbrev cleared : Vmm
    cleared = record s {
      pmm = pmm';
      words = zeroed new 1024 (write s.words (s.cr3 + 4 * d) (entry new acl));
    }

    with_dir-entry : dir_entry with_dir d ≡ entry new acl
    with_dir-entry = write_same s.words (s.cr3 + 4 * d) (entry new acl)

    with_dir-IsSelfMapped : IsSelfMapped with_dir
    with_dir-IsSelfMapped =
        let w = write-IsSelfMapped s (s.cr3 + 4 * d) (entry new acl) (λ e. omega arith) m in
        record { aligned = w.aligned; self = w.self; self_present = w.self_present }

    cleared-same : (a : ℕ) → (a < new) ⊎ (new + 4096 ≤ a) → cleared.words a ≡ with_dir.words a
    cleared-same a out = zeroed_outside new 1024 with_dir.words a (omega arith)

    cleared-entry : (k : ℕ) → k < 1024 → dir_entry cleared k ≡ dir_entry with_dir k
    cleared-entry k b =
        cleared-same (s.cr3 + 4 * k)
          (outside_block s.cr3 new k m.aligned aligned (λ e. apart (sym e)) b)

    cleared-IsSelfMapped : IsSelfMapped cleared
    cleared-IsSelfMapped =
        let same = cleared-entry 1023 (omega arith) in
        let w = with_dir-IsSelfMapped in
        record { aligned = m.aligned; self = rw same w.self; self_present = rw same w.self_present }

    pub map_new_lem :
        map_new phys acl d p s
        ≡ some (mapped_new s pmm' new d p (entry new acl) (entry phys acl), vmm_success)
    unfolding map_new store
    map_new_lem =
        let e1 : translate (record s { pmm = pmm' }) (dir_virtual + 4 * d) ≡ some (s.cr3 + 4 * d) =
          unfold translate in (translate-dir_virtual m d (omega arith)) in
        let on : dir_entry with_dir d % 2 ≡ 1 = rw with_dir-entry (entry_present new acl aligned) in
        let f : frame (dir_entry with_dir d) ≡ new =
          rw with_dir-entry (frame-entry new acl aligned small) in
        let g : frame (dir_entry with_dir d) + 4 * 0 ≡ new = omega (arith, f) in
        let e2 : zero_table 1024 0 (table_window + d * 4096) with_dir ≡ some cleared = rw g at (
          zero_table-zeroed 1024 0 d with_dir with_dir-IsSelfMapped lt on (rw f apart)
            (omega arith)) in
        let on' : dir_entry cleared d % 2 ≡ 1 = rw (cleared-entry d (omega arith)) on in
        let f' : frame (dir_entry cleared d) ≡ new = rw (cleared-entry d (omega arith)) f in
        let e3 : translate cleared (table_window + d * 4096 + 4 * p) ≡ some (new + 4 * p) =
          rw f' at (translate-table_window cleared-IsSelfMapped d p (omega arith) lt' on') in
        rw (got, e1, e2, e3)
