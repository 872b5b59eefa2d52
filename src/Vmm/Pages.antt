-- ===== src/Vmm/Pages.antt =====
-- The contract of `vmm_map_page`, src/sys/vmm.c, in terms of the addresses that it translates.
use frod.Base.{
  ℕ, ◌+◌, ◌*◌, ◌/◌, ◌%◌, ◌^◌, ◌<◌, ◌≡◌, refl, ◌≢◌, inl, inr, arith, ◌∙◌, false, Bool-cases,
}
use frod.Base.{some, none, ◌==◌, if◌then◌else◌, ◌&&◌, u32}
use frod.Pmm.{blk_sz, bitmap_set, pmm_alloc_first}
use frod.Pmm.Alloc.{pmm_alloc_first-Allocated}
use frod.Vmm.{
  Vmm, translate, present, entry, load, vmm_map_page, map_old, map_new, vmm_success,
  vmm_err_page_in_use,
}
use frod.Vmm.Mmu.{diri_lem, pagei_lem, is_present_lem, entry_present, frame-entry}
use frod.Vmm.Inv.{dir_entry, table_entry, IsValid, translate-dir_virtual}
use frod.Vmm.Map.{HasFree, mapped_old, mapped_new, map_old_lem, map_new_lem}
use frod.Vmm.View.{
  view, translate-view, mapped_old-view, mapped_old-IsValid, mapped_new-view, mapped_new-IsValid,
  new_ne_dir,
}

-- `t` is `s` with the page of `virt` mapped to the block at `phys`, and with no other change below
-- the window of the page tables.
pub record IsMapped (s t : Vmm) (virt phys : ℕ) : Type 0 where
  pub valid : IsValid t
  pub inside : (v : ℕ) → v / 4096 ≡ virt / 4096 → translate t v ≡ some (phys + v % 4096)
  pub outside : (v : ℕ) → v / 2 ^ 22 < 1023 → v / 4096 ≢ virt / 4096 → translate t v ≡ translate s v

IsMapped-view :
    (s t : Vmm) (virt phys acl : ℕ)
    → IsValid t
    → virt / 2 ^ 22 < 1023
    → phys % 4096 ≡ 0
    → acl < 4096
    → ((c q : ℕ)
        → c < 1023
        → q < 1024
        → view t c q ≡ (
            if (c == (virt / 2 ^ 22)) && (q == (virt / 4096 % 1024))
            then entry phys acl
            else view s c q))
    → IsMapped s t virt phys
IsMapped-view s t virt phys acl valid low aligned small views = record {
  valid = valid;
  inside = λ v e.
      let c : v / 2 ^ 22 ≡ virt / 2 ^ 22 = omega arith in
      let q : v / 4096 % 1024 ≡ virt / 4096 % 1024 = omega arith in
      ground (
        arith,
        translate-view t v,
        views (v / 2 ^ 22) (v / 4096 % 1024),
        entry_present phys acl aligned,
        frame-entry phys acl aligned small,
      );
  outside = λ v b ne.
      ground (arith, translate-view t v, translate-view s v, views (v / 2 ^ 22) (v / 4096 % 1024));
}

module _ (s : Vmm) (phys virt acl : ℕ) (k : IsValid s) (low : virt / 2 ^ 22 < 1023) where
  abbrev d : ℕ
  d = virt / 2 ^ 22

  abbrev p : ℕ
  p = virt / 4096 % 1024

  -- The directory's entry is read first.
  map_reads_dir :
      vmm_map_page phys virt acl s
      ≡ (if present (dir_entry s d) then map_old phys acl d p s else map_new phys acl d p s)
  unfolding vmm_map_page load
  map_reads_dir =
      rw
        (
          diri_lem virt (omega arith),
          pagei_lem virt (omega arith),
          translate-dir_virtual k.self_mapped d (omega arith),
          is_present_lem,
        )
        refl

  -- A page that is mapped already is left alone, and the caller is told.
  pub vmm_map_page_in_use :
      {a : ℕ}
      → translate s virt ≡ some a
      → vmm_map_page phys virt acl s ≡ some (s, vmm_err_page_in_use)
  unfolding view
  vmm_map_page_in_use h = elim (Bool-cases (present (dir_entry s d))) [
    | inl on ↦ ground (
      arith,
      map_reads_dir,
      map_old_lem s k.self_mapped phys acl d p low (omega arith) (ground arith),
      translate-view s virt,
    )
    | inr off ↦ ground (arith, translate-view s virt)
  ]

  -- Where a block is free for a page table, the block at `phys` is aligned and `acl` is within the
  -- low 12 bits, `vmm_map_page` maps an address below the window of the page tables that was not
  -- mapped: then exactly its page translates anew, and the page tables stay well formed.
  pub vmm_map_page-IsMapped :
      HasFree s.pmm
      → phys % 4096 ≡ 0
      → acl < 4096
      → translate s virt ≡ none
      → (t : Vmm) × (vmm_map_page phys virt acl s ≡ some (t, vmm_success)) × IsMapped s t virt phys
  unfolding view
  vmm_map_page-IsMapped room aligned small h = elim (Bool-cases (present (dir_entry s d))) [
    | inl on ↦
        let on' : dir_entry s d % 2 ≡ 1 = ground arith in
        let fresh : present (table_entry s d p) ≡ false = ground (arith, translate-view s virt) in
        (
          mapped_old s d p (entry phys acl),
          map_reads_dir
              ∙ rw on
                  (rw (map_old_lem s k.self_mapped phys acl d p low (omega arith) on') (rw fresh)),
          IsMapped-view s _ virt phys acl
              (mapped_old-IsValid s k d p (entry phys acl) low (omega arith) on') low aligned small
              (mapped_old-view s k d p (entry phys acl) low (omega arith) on'),
        )
    | inr off ↦ elim (pmm_alloc_first-Allocated s.pmm room.pos) [
      | inl (full, e) ↦ absurd (room.free (rw e))
      | inr (i, f) ↦
          let off' : dir_entry s d % 2 ≡ 0 = ground arith in
          let block : i < 2 ^ 20 = omega (arith, f.below, room.small) in
          let here : u32 (i * blk_sz) ≡ i * 4096 = omega arith in
          let got : pmm_alloc_first s.pmm ≡ (bitmap_set s.pmm i, i * 4096) = rw here at f.taken in
          (
            mapped_new s (bitmap_set s.pmm i) (i * 4096) d p (entry (i * 4096) acl)
                (entry phys acl),
            map_reads_dir
                ∙ rw off (
                    map_new_lem s k.self_mapped phys acl d p low (omega arith) (bitmap_set s.pmm i)
                      (i * 4096) got (omega arith)
                      (new_ne_dir s k d p (entry phys acl) low (omega arith) i acl block f.free off'
                        small)
                      small),
            IsMapped-view s _ virt phys acl
                (mapped_new-IsValid s k d p (entry phys acl) low (omega arith) i acl block f.free
                  off' small)
                low aligned small
                (mapped_new-view s k d p (entry phys acl) low (omega arith) i acl block f.free off'
                  small),
          )
    ]
  ]
