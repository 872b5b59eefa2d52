-- ===== src/Vmm/Unmap.antt =====
-- `vmm_unmap_page`, src/sys/vmm.c: what it does to the address space.
use frod.Base.{
  ℕ, zero, suc, ◌+◌, ◌*◌, ◌/◌, ◌%◌, ◌^◌, ◌≤◌, ◌<◌, ◌≡◌, refl, ◌≢◌, ◌⊎◌, inl, inr, arith, ◌∙◌, true,
  false, Bool-cases,
}
use frod.Base.{some, ◌==◌, if◌then◌else◌, write, write_other}
use native.Mathlib.Decide.{ℕ_discrete}
use frod.Pmm.{bitmap_is_set, pmm_free}
use frod.Pmm.Bitmap.{is_set-unset, unset-IsBytes}
use frod.Vmm.{Vmm, frame, present, load, table_window, page_of, table_is_empty}
use frod.Vmm.Mmu.{is_present_lem, page_of_lem}
use frod.Vmm.Inv.{dir_entry, table_entry, IsSelfMapped, IsValid, translate-table_window}
use frod.Vmm.View.{view}

-- The table of `d` has no present entry from `i` on, or one is there.
pub table_is_empty_lem :
    (left i d : ℕ) (s : Vmm)
    → IsSelfMapped s
    → d < 1023
    → dir_entry s d % 2 ≡ 1
    → i + left ≤ 1024
    → ((table_is_empty left i (table_window + d * 4096) s ≡ some true)
        × ((q : ℕ) → i ≤ q → q < i + left → present (table_entry s d q) ≡ false))
      ⊎ (table_is_empty left i (table_window + d * 4096) s ≡ some false)
unfolding table_is_empty load
table_is_empty_lem zero i d s m lt on fits = inl (refl, λ q a b. absurd (omega arith))
table_is_empty_lem (suc left) i d s m lt on fits =
    let e = translate-table_window m d i (omega arith) (omega arith) on in
    rw (e, is_present_lem)
      (elim (Bool-cases (present (table_entry s d i))) [
        | inl there ↦ inr (rw there)
        | inr off ↦ rw off (elim (table_is_empty_lem left (i + 1) d s m lt on (omega arith)) [
          | inl (all, f) ↦ inl (
            all,
            λ q a b. elim (ℕ_discrete q i) [
              | yes z ↦ rw z off
              | no ne ↦ f q (omega arith) (omega arith)
            ],
          )
          | inr some_there ↦ inr some_there
        ])
      ])

-- The state without the table of `d`, whose block has been freed.
abbrev pub dropped : Vmm → ℕ → Vmm
dropped s d = record s {
  pmm = pmm_free (page_of (dir_entry s d)) s.pmm;
  words = write s.words (s.cr3 + 4 * d) 0;
}

module _ (s : Vmm) (k : IsValid s) (d : ℕ) (lt : d < 1023) (on : dir_entry s d % 2 ≡ 1)
    (word : dir_entry s d < 2 ^ 32) where
  dropped_dir :
      (c : ℕ) → c < 1024 → dir_entry (dropped s d) c ≡ (if c == d then 0 else dir_entry s c)
  unfolding write
  dropped_dir c b = ground arith

  dropped_table :
      (c q : ℕ)
      → c < 1023
      → q < 1024
      → c ≢ d
      → dir_entry s c % 2 ≡ 1
      → table_entry (dropped s d) c q ≡ table_entry s c q
  dropped_table c q b b' ne on' =
      let same : dir_entry (dropped s d) c ≡ dir_entry s c =
        ground (arith, dropped_dir c (omega arith)) in
      rw same (
        write_other s.words (s.cr3 + 4 * d) 0 (frame (dir_entry s c) + 4 * q)
          (λ e. k.not_dir c b on' (omega (arith, k.self_mapped.aligned))))

  pub dropped-view :
      (c q : ℕ) → c < 1023 → q < 1024 → view (dropped s d) c q ≡ (if c == d then 0 else view s c q)
  unfolding view
  dropped-view c q b b' = elim (ℕ_discrete c d) [
    | yes e ↦ rw e (ground (arith, dropped_dir d (omega arith)))
    | no ne ↦ elim (Bool-cases (present (dir_entry s c))) [
      | inl there ↦
          ground (arith, dropped_dir c (omega arith), dropped_table c q b b' ne (ground arith))
      | inr off ↦ ground (arith, dropped_dir c (omega arith))
    ]
  ]

  -- The block that is freed is no other table's and not the directory's.
  freed : page_of (dir_entry s d) / 4096 ≡ dir_entry s d / 4096
  freed = omega (arith, page_of_lem (dir_entry s d) word)

  still_taken :
      (b : ℕ) → b ≢ dir_entry s d / 4096 → bitmap_is_set (dropped s d).pmm b ≡ bitmap_is_set s.pmm b
  unfolding pmm_free
  still_taken b ne = rw freed (ground (arith, is_set-unset s.pmm (dir_entry s d / 4096) b k.bytes))

  same_dropped : (c : ℕ) → c < 1024 → c ≢ d → dir_entry (dropped s d) c ≡ dir_entry s c
  same_dropped c b ne = ground (arith, dropped_dir c b)

  other_of_on : (c : ℕ) → dir_entry (dropped s d) c % 2 ≡ 1 → c < 1023 → c ≢ d
  other_of_on c h b e = ground (arith, dropped_dir c (omega arith))

  pub dropped-IsValid : IsValid (dropped s d)
  dropped-IsValid =
      let m = k.self_mapped in
      let top = same_dropped 1023 (omega arith) (λ e. omega arith) in
      record {
        self_mapped = record {
          aligned = m.aligned;
          self = rw top m.self;
          self_present = rw top m.self_present;
        };
        bytes = unfold pmm_free in unset-IsBytes s.pmm _ k.bytes;
        dir_taken =
            still_taken (s.cr3 / 4096) (λ e. k.not_dir d lt on (omega (arith, m.aligned)))
            ∙ k.dir_taken;
        taken = λ c b h.
            let ne = other_of_on c h b in
            let q = same_dropped c (omega arith) ne in
            rw q (
              still_taken (dir_entry s c / 4096)
                (λ e. k.apart c d b lt ne (rw q at h) on (omega arith))
              ∙ k.taken c b (rw q at h));
        not_dir = λ c b h.
            let q = same_dropped c (omega arith) (other_of_on c h b) in
            rw q (k.not_dir c b (rw q at h));
        apart = λ c e b b' ne h h'.
            let q = same_dropped c (omega arith) (other_of_on c h b) in
            let r = same_dropped e (omega arith) (other_of_on e h' b') in
            rw (q, r) (k.apart c e b b' ne (rw q at h) (rw r at h'));
      }
