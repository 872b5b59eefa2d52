-- ===== src/Vmm/Boot.antt =====
-- The address space that `vmm_init`, src/sys/vmm.c, leaves.
use frod.Base.{
  ℕ, zero, suc, ◌+◌, ◌*◌, ◌/◌, ◌%◌, ◌^◌, ◌≤◌, ◌<◌, ◌≡◌, refl, ◌≢◌, ◌⊎◌, inl, inr, arith, sym, ◌∙◌,
  true, false,
}
use frod.Base.{
  Option, some, none, ◌==◌, if◌then◌else◌, ◌&&◌, leb, ltb, u32, Memory, write, bit_or, IsBytes,
}
use frod.Base.Bits.{div-bit_or, bit_or-zero, mod_two-bit_or}
use frod.Pmm.{blk_sz, bitmap_is_set, bitmap_set, pmm_alloc_first, pmm_mark_mem_taken}
use frod.Pmm.Bitmap.{is_set-set, set-IsBytes}
use frod.Pmm.Mark.{is_set-pmm_mark_mem_taken, pmm_mark_mem_taken-IsBytes}
use frod.Pmm.Alloc.{pmm_alloc_first-Allocated}
use frod.Vmm.{Vmm, translate}
use frod.Vmm.Start.{
  Boot, zero_words, vmm_get_physical_page, identity_map, first_tables, vmm_init, lapic_phys,
}
use frod.Vmm.Inv.{dir_entry, IsValid, zeroed, zeroed-suc, zeroed-zero}

zero_words_lem : (left a : ℕ) (w : Memory) → a % 4 ≡ 0 → zero_words left a w ≡ zeroed a left w
unfolding zero_words
zero_words_lem zero a w h = sym (zeroed-zero a w)
zero_words_lem (suc left) a w h =
    zero_words_lem left (a + 4) (write w a 0) (omega arith) ∙ zeroed-suc a left w h

-- An entry of an identity map, by the offset of the entry.
abbrev own_entry : ℕ → ℕ
own_entry i = bit_or (i * 4096) 7

identity_map_lem :
    (left i f : ℕ) (w : Memory) (k : ℕ)
    → identity_map left i f w (f + 4 * k)
      ≡ (if leb i k && ltb k (i + left) then own_entry k else w (f + 4 * k))
unfolding identity_map write
identity_map_lem zero i f w k = ground arith
identity_map_lem (suc left) i f w k =
    ground (arith, identity_map_lem left (i + 1) f (write w (f + 4 * i) (own_entry i)) k)

identity_map_outside :
    (left i f : ℕ) (w : Memory) (a : ℕ)
    → (a < f + 4 * i) ⊎ (f + 4 * (i + left) ≤ a)
    → identity_map left i f w a ≡ w a
unfolding identity_map write
identity_map_outside zero i f w a out = refl
identity_map_outside (suc left) i f w a out =
    ground (arith, identity_map_outside left (i + 1) f (write w (f + 4 * i) (own_entry i)) a)

high-bit_or : (a flags : ℕ) → flags < 4096 → bit_or a flags / 4096 ≡ a / 4096
high-bit_or a flags lt =
    let low : flags / 2 ^ 12 ≡ 0 = omega arith in
    let e : bit_or a flags / 2 ^ 12 ≡ a / 2 ^ 12 =
      rw (div-bit_or 12 a flags, low, bit_or-zero) refl in
    omega (arith, e)

-- An entry of the directory with the flags that `vmm_init` gives it.
abbrev dir_entry_of : ℕ → ℕ
dir_entry_of a = bit_or (bit_or (bit_or a 1) 2) 4

high-dir_entry_of : (a : ℕ) → dir_entry_of a / 4096 ≡ a / 4096
high-dir_entry_of a = omega (
  arith,
  high-bit_or a 1 (omega arith),
  high-bit_or (bit_or a 1) 2 (omega arith),
  high-bit_or (bit_or (bit_or a 1) 2) 4 (omega arith),
)

present-dir_entry_of : (a : ℕ) → a % 4096 ≡ 0 → dir_entry_of a % 2 ≡ 1
present-dir_entry_of a h = omega (
  arith,
  mod_two-bit_or a 1,
  mod_two-bit_or (bit_or a 1) 2,
  mod_two-bit_or (bit_or (bit_or a 1) 2) 4,
)

abbrev lapic_entry : ℕ
lapic_entry = 0xFEE00017

module _ (dir pt : ℕ) (w : Memory) (hd : dir % 4096 ≡ 0) (hp : pt % 4096 ≡ 0) (ne : dir ≢ pt) where
  abbrev tables : Memory
  tables = first_tables dir pt (zero_words 1024 pt (zero_words 1024 dir w))

  tables_dir :
      (k : ℕ)
      → k < 1024
      → tables (dir + 4 * k)
        ≡ (if k == 0 then dir_entry_of pt else (if k == 1023 then dir_entry_of dir else 0))
  unfolding first_tables write zeroed
  tables_dir k b =
      let z1 = zero_words_lem 1024 dir w (omega arith) in
      let z2 = zero_words_lem 1024 pt (zeroed dir 1024 w) (omega arith) in
      rw (z1, z2)
        (ground (
          arith,
          identity_map_outside 1024 0 pt (zeroed pt 1024 (zeroed dir 1024 w)) (dir + 4 * k),
        ))

  tables_entry :
      (q : ℕ) → q < 1024 → tables (pt + 4 * q) ≡ (if q == 0x3EF then lapic_entry else own_entry q)
  unfolding first_tables write
  tables_entry q b =
      ground (arith, identity_map_lem 1024 0 pt (zero_words 1024 pt (zero_words 1024 dir w)) q)

-- The address that the tables of `vmm_init` give to `v`.
abbrev pub first_address : ℕ → Option ℕ
first_address v =
    if ltb v (2 ^ 22) then some (if v / 4096 == 0x3EF then lapic_phys + v % 4096 else v) else none

module _ {H : Type 0} (h : H) (b : Boot H) where
  abbrev s : Vmm
  s = b.vmm

  abbrev t : Vmm
  t = (vmm_init h b).vmm

  module _ (i j : ℕ) (p1 : bitmap_is_set s.pmm i ≡ false)
      (p2 : bitmap_is_set (bitmap_set s.pmm i) j ≡ false) (bi : i < 2 ^ 20) (bj : j < 2 ^ 20)
      (e1 : pmm_alloc_first s.pmm ≡ (bitmap_set s.pmm i, i * 4096))
      (e2 : pmm_alloc_first (bitmap_set s.pmm i) ≡ (bitmap_set (bitmap_set s.pmm i) j, j * 4096))
      (bytes : IsBytes s.pmm.mem) where
    two_blocks : i * 4096 ≢ j * 4096
    two_blocks e = let q : i ≡ j = omega arith in ground (arith, is_set-set s.pmm i j bytes)

    abbrev built : Vmm
    built = record {
      words = tables (i * 4096) (j * 4096) s.words (omega arith) (omega arith) two_blocks;
      pmm = pmm_mark_mem_taken 0 0x400000 (bitmap_set (bitmap_set s.pmm i) j);
      kernel_dir = i * 4096;
      current_dir = i * 4096;
      cr3 = i * 4096;
    }

    init_lem : t ≡ built
    unfolding vmm_init vmm_get_physical_page
    init_lem = rw (e1, e2) refl

    built_dir :
        (k : ℕ)
        → k < 1024
        → dir_entry built k ≡ (
            if k == 0
            then dir_entry_of (j * 4096)
            else (if k == 1023 then dir_entry_of (i * 4096) else 0))
    built_dir k lt =
        tables_dir (i * 4096) (j * 4096) s.words (omega arith) (omega arith) two_blocks k lt

    both_taken : (q : ℕ) → (q ≡ i) ⊎ (q ≡ j) → bitmap_is_set built.pmm q ≡ true
    both_taken q or = ground (
      arith,
      is_set-pmm_mark_mem_taken 0 0x400000 q (bitmap_set (bitmap_set s.pmm i) j)
          (set-IsBytes _ j (set-IsBytes s.pmm i bytes)) (omega arith) (omega arith),
      is_set-set (bitmap_set s.pmm i) j q (set-IsBytes s.pmm i bytes),
      is_set-set s.pmm i q bytes,
    )

    built_only : (d : ℕ) → d < 1023 → dir_entry built d % 2 ≡ 1 → d ≡ 0
    built_only d lt on = ground (arith, built_dir d (omega arith))

    built_address : (v : ℕ) → v / 2 ^ 22 < 1023 → translate built v ≡ first_address v
    unfolding translate
    built_address v low = ground (
      arith,
      built_dir (v / 2 ^ 22) (omega arith),
      tables_entry (i * 4096) (j * 4096) s.words (omega arith) (omega arith) two_blocks
          (v / 4096 % 1024),
      high-dir_entry_of (j * 4096),
      present-dir_entry_of (j * 4096) (omega arith),
      high-bit_or (v / 4096 * 4096) 7 (omega arith),
      mod_two-bit_or (v / 4096 * 4096) 7,
    )

    built_self : dir_entry built 1023 ≡ dir_entry_of (i * 4096)
    built_self = ground (arith, built_dir 1023 (omega arith))

    built-IsValid : IsBytes built.pmm.mem → IsValid built
    built-IsValid taken_bytes = record {
      self_mapped = record {
        aligned = omega arith;
        self = omega (arith, built_self, high-dir_entry_of (i * 4096));
        self_present = rw built_self (present-dir_entry_of (i * 4096) (omega arith));
      };
      bytes = taken_bytes;
      dir_taken = both_taken (i * 4096 / 4096) (inl (omega arith));
      taken = λ d lt on.
          let z = built_only d lt on in
          let e : dir_entry built d / 4096 ≡ j =
            ground (arith, built_dir d (omega arith), high-dir_entry_of (j * 4096)) in
          both_taken (dir_entry built d / 4096) (inr e);
      not_dir = λ d lt on same.
          let z = built_only d lt on in
          two_blocks (ground (arith, built_dir d (omega arith), high-dir_entry_of (j * 4096)));
      apart = λ d e lt lt' ne on on'. absurd (ne (built_only d lt on ∙ sym (built_only e lt' on')));
    }

  -- Where the physical memory manager has two free blocks and at most 2 ^ 20 blocks in all,
  -- `vmm_init` builds well-formed page tables that map the first 4 MB to themselves, but for the
  -- page of the local APIC, which goes to the APIC's registers, and no other address below the
  -- window of the page tables.
  pub vmm_init-first_address :
      1 ≤ s.pmm.pmm_bitmap_sz
      → s.pmm.pmm_bitmap_sz ≤ 2 ^ 20
      → IsBytes s.pmm.mem
      → let (one, a) = pmm_alloc_first s.pmm in
        a ≢ 0
        → (pmm_alloc_first one).1 ≢ 0
        → IsValid t × ((v : ℕ) → v / 2 ^ 22 < 1023 → translate t v ≡ first_address v)
  vmm_init-first_address pos small bytes ne ne' = elim (pmm_alloc_first-Allocated s.pmm pos) [
    | inl (full, e) ↦ absurd (ne (rw e))
    | inr (i, f) ↦
        let bi : i < 2 ^ 20 = omega (arith, f.below) in
        let ui : u32 (i * blk_sz) ≡ i * 4096 = omega arith in
        let e1 : pmm_alloc_first s.pmm ≡ (bitmap_set s.pmm i, i * 4096) = rw ui at f.taken in
        let sz : (bitmap_set s.pmm i).pmm_bitmap_sz ≡ s.pmm.pmm_bitmap_sz =
          unfold bitmap_set in refl in
        elim (pmm_alloc_first-Allocated (bitmap_set s.pmm i) (omega (arith, sz))) [
          | inl (full, e) ↦ absurd (ne' (rw (e1, e)))
          | inr (j, g) ↦
              let bj : j < 2 ^ 20 = omega (arith, g.below, sz) in
              let uj : u32 (j * blk_sz) ≡ j * 4096 = omega arith in
              let e2 : pmm_alloc_first (bitmap_set s.pmm i)
                  ≡ (bitmap_set (bitmap_set s.pmm i) j, j * 4096) =
                rw uj at g.taken in
              rw (init_lem i j f.free g.free bi bj e1 e2 bytes) (
                built-IsValid i j f.free g.free bi bj e1 e2 bytes (
                    pmm_mark_mem_taken-IsBytes 0 0x400000 _
                      (set-IsBytes _ j (set-IsBytes s.pmm i bytes))),
                built_address i j f.free g.free bi bj e1 e2 bytes,
              )
        ]
  ]
