-- ===== src/Vmm/Gone.antt =====
-- The contract of `vmm_unmap_page`, src/sys/vmm.c, in terms of the addresses that it translates.
use frod.Base.Options.{◌>>=◌}
use frod.Base.{
  ℕ, ◌+◌, ◌*◌, ◌/◌, ◌%◌, ◌^◌, ◌<◌, ◌≡◌, refl, ◌≢◌, ◌⊎◌, inl, inr, arith, ◌∙◌, Bool-cases,
}
use frod.Base.{some, none, if◌then◌else◌}
use frod.Vmm.{
  Vmm, page_of, translate, present, load, store, dir_virtual, clear_entry, drop_table,
  vmm_unmap_page, vmm_success, vmm_err_no_pagedir_entry,
}
use frod.Pmm.{pmm_free}
use frod.Vmm.Mmu.{diri_lem, pagei_lem, is_present_lem}
use frod.Vmm.Inv.{dir_entry, table_entry, IsValid, translate-dir_virtual, translate-table_window}
use frod.Vmm.Map.{mapped_old}
use frod.Vmm.View.{view, translate-view, mapped_old-view, mapped_old-IsValid, old_dir}
use frod.Vmm.Unmap.{dropped, dropped-view, dropped-IsValid, table_is_empty_lem}

-- `t` is `s` without the page of `virt`, and with no other change below the window of the page
-- tables.
pub record IsUnmapped (s t : Vmm) (virt : ℕ) : Type 0 where
  pub valid : IsValid t
  pub inside : (v : ℕ) → v / 4096 ≡ virt / 4096 → translate t v ≡ none
  pub outside : (v : ℕ) → v / 2 ^ 22 < 1023 → v / 4096 ≢ virt / 4096 → translate t v ≡ translate s v

module _ (s : Vmm) (k : IsValid s) (virt : ℕ) (low : virt / 2 ^ 22 < 1023) where
  abbrev d : ℕ
  d = virt / 2 ^ 22

  abbrev p : ℕ
  p = virt / 4096 % 1024

  module _ (on : dir_entry s d % 2 ≡ 1) where
    clear_entry_lem :
        (t : Vmm) × (clear_entry d p s ≡ some t)
        × IsUnmapped s t virt
        × (dir_entry t d ≡ dir_entry s d)
    unfolding clear_entry load store view
    clear_entry_lem =
        let e = translate-table_window k.self_mapped d p (omega arith) (omega arith) on in
        rw (e, is_present_lem)
          (elim (Bool-cases (present (table_entry s d p))) [
            | inl there ↦
                let views = mapped_old-view s k d p 0 low (omega arith) on in
                let t : Vmm = mapped_old s d p 0 in
                (
                  t,
                  rw there,
                  record {
                    valid = mapped_old-IsValid s k d p 0 low (omega arith) on;
                    inside = λ v same.
                        let c : v / 2 ^ 22 ≡ d = omega arith in
                        let q : v / 4096 % 1024 ≡ p = omega arith in
                        ground (arith, translate-view t v, views (v / 2 ^ 22) (v / 4096 % 1024));
                    outside = λ v b ne. ground (
                      arith,
                      translate-view t v,
                      translate-view s v,
                      views (v / 2 ^ 22) (v / 4096 % 1024),
                    );
                  },
                  old_dir s k d p 0 low (omega arith) on d (omega arith),
                )
            | inr off ↦ (
              s,
              rw off,
              record {
                valid = k;
                inside = λ v same.
                    let c : v / 2 ^ 22 ≡ d = omega arith in
                    let q : v / 4096 % 1024 ≡ p = omega arith in ground (arith, translate-view s v);
                outside = λ v b ne. refl;
              },
              refl,
            )
          ])

    module _ (word : dir_entry s d < 2 ^ 32) where
      drop_table_lem :
          (t : Vmm) × (drop_table d s ≡ some t)
          × IsValid t
          × ((v : ℕ) → v / 2 ^ 22 < 1023 → translate t v ≡ translate s v)
      unfolding drop_table load store view
      drop_table_lem =
          let e = translate-dir_virtual k.self_mapped d (omega arith) in
          elim (table_is_empty_lem 1024 0 d s k.self_mapped low on (omega arith)) [
            | inl (empty, all) ↦
                let w : translate (record s { pmm = pmm_free (page_of (dir_entry s d)) s.pmm })
                      (dir_virtual + 4 * d)
                    ≡ some (s.cr3 + 4 * d) =
                  unfold translate in e in
                let views = dropped-view s k d low on word in
                let same : (v : ℕ) → v / 2 ^ 22 < 1023 → translate (dropped s d) v ≡ translate s v =
                  λ v b. ground (
                    arith,
                    translate-view (dropped s d) v,
                    translate-view s v,
                    views (v / 2 ^ 22) (v / 4096 % 1024),
                    all (v / 4096 % 1024),
                  ) in
                (dropped s d, rw (empty, e, w) refl, dropped-IsValid s k d low on word, same)
            | inr full ↦ (s, rw (full, e) refl, k, λ v b. refl)
          ]

module _ (s : Vmm) (k : IsValid s) (virt : ℕ) (low : virt / 2 ^ 22 < 1023) where
  unmap_reads_dir : vmm_unmap_page virt s ≡ (
      if present (dir_entry s (virt / 2 ^ 22))
      then (do
        s1 ← clear_entry (virt / 2 ^ 22) (virt / 4096 % 1024) s
        s2 ← drop_table (virt / 2 ^ 22) s1
        some (s2, vmm_success))
      else some (s, vmm_err_no_pagedir_entry))
  unfolding vmm_unmap_page load
  unmap_reads_dir =
      rw
        (
          diri_lem virt (omega arith),
          pagei_lem virt (omega arith),
          translate-dir_virtual k.self_mapped (virt / 2 ^ 22) (omega arith),
          is_present_lem,
        )
        refl

  -- Below the window of the page tables, `vmm_unmap_page` on a directory entry that holds a 32-bit
  -- word either finds no page table, when the address was not mapped and the state is left alone
  -- under an error, or succeeds: then the page of the address is no longer mapped, every other
  -- page is mapped as before, whether the page table was given up or not, and the page tables
  -- stay well formed.
  pub vmm_unmap_page-IsUnmapped :
      dir_entry s (virt / 2 ^ 22) < 2 ^ 32
      → ((vmm_unmap_page virt s ≡ some (s, vmm_err_no_pagedir_entry)) × (translate s virt ≡ none))
        ⊎ ((t : Vmm) × (vmm_unmap_page virt s ≡ some (t, vmm_success)) × IsUnmapped s t virt)
  unfolding view
  vmm_unmap_page-IsUnmapped word = elim (Bool-cases (present (dir_entry s (virt / 2 ^ 22)))) [
    | inl there ↦
        let on : dir_entry s (virt / 2 ^ 22) % 2 ≡ 1 = ground arith in
        let (t1, cleared, u, keeps) = clear_entry_lem s k virt low on in
        let (t, dropped_eq, valid, same) =
          drop_table_lem t1 u.valid virt low (rw keeps on) (rw keeps word) in
        inr (
          t,
          unmap_reads_dir ∙ rw (there, cleared, dropped_eq),
          record {
            valid = valid;
            inside = λ v e. same v (omega arith) ∙ u.inside v e;
            outside = λ v b ne. same v b ∙ u.outside v b ne;
          },
        )
    | inr off ↦ inl (unmap_reads_dir ∙ rw off refl, ground (arith, translate-view s virt))
  ]
