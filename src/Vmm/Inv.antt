-- ===== src/Vmm/Inv.antt =====
-- The invariant of the page tables, and the two windows that the entry for the directory itself
-- opens, src/sys/vmm.c.
use frod.Base.{ℕ, zero, suc, ◌+◌, ◌*◌, ◌/◌, ◌%◌, ◌^◌, ◌≤◌, ◌<◌, ◌≡◌, ◌≢◌, arith, true}
use frod.Base.{some, write, IsBytes, Memory, ◌==◌, if◌then◌else◌, ◌&&◌, leb, ltb}
use mathlib.Core.Path.{fun_ext}
use frod.Base.{write_other, ◌⊎◌}
use frod.Pmm.{bitmap_is_set}
use frod.Vmm.{Vmm, translate, frame, dir_virtual, table_window, store, zero_table}

-- The directory's entry `d`, and the entry `p` of the table that it points to.
abbrev pub dir_entry : Vmm → ℕ → ℕ
dir_entry s d = s.words (s.cr3 + 4 * d)

abbrev pub table_entry : Vmm → ℕ → ℕ → ℕ
table_entry s d p = s.words (frame (dir_entry s d) + 4 * p)

-- The directory's last entry points to the directory.
pub record IsSelfMapped (s : Vmm) : Type 0 where
  pub aligned : s.cr3 % 4096 ≡ 0
  pub self : frame (dir_entry s 1023) ≡ s.cr3
  pub self_present : dir_entry s 1023 % 2 ≡ 1

-- Every table has a block of its own, which the physical memory manager counts as taken.
pub record IsValid (s : Vmm) : Type 0 where
  pub self_mapped : IsSelfMapped s
  pub bytes : IsBytes s.pmm.mem
  pub dir_taken : bitmap_is_set s.pmm (s.cr3 / 4096) ≡ true
  pub taken :
      (d : ℕ) → d < 1023 → dir_entry s d % 2 ≡ 1 → bitmap_is_set s.pmm (dir_entry s d / 4096) ≡ true
  pub not_dir : (d : ℕ) → d < 1023 → dir_entry s d % 2 ≡ 1 → frame (dir_entry s d) ≢ s.cr3
  pub apart :
      (d e : ℕ)
      → d < 1023
      → e < 1023
      → d ≢ e
      → dir_entry s d % 2 ≡ 1
      → dir_entry s e % 2 ≡ 1
      → frame (dir_entry s d) ≢ frame (dir_entry s e)

module _ {s : Vmm} (m : IsSelfMapped s) where
  -- The entries of the directory are words of the top page.
  pub translate-dir_virtual :
      (d : ℕ) → d < 1024 → translate s (dir_virtual + 4 * d) ≡ some (s.cr3 + 4 * d)
  unfolding translate
  translate-dir_virtual d lt =
      let a : (dir_virtual + 4 * d) / 2 ^ 22 ≡ 1023 = omega arith in
      let b : (dir_virtual + 4 * d) / 4096 % 1024 ≡ 1023 = omega arith in
      let c : (dir_virtual + 4 * d) % 4096 ≡ 4 * d = omega arith in
      rw (a, b, c) (ground (arith, m.self, m.self_present))

  -- The entries of the table of `d` are words of page `d` of the window.
  pub translate-table_window :
      (d p : ℕ)
      → d < 1024
      → p < 1024
      → dir_entry s d % 2 ≡ 1
      → translate s (table_window + d * 4096 + 4 * p) ≡ some (frame (dir_entry s d) + 4 * p)
  unfolding translate
  translate-table_window d p lt lt' on =
      let a : (table_window + d * 4096 + 4 * p) / 2 ^ 22 ≡ 1023 = omega arith in
      let b : (table_window + d * 4096 + 4 * p) / 4096 % 1024 ≡ d = omega arith in
      let c : (table_window + d * 4096 + 4 * p) % 4096 ≡ 4 * p = omega arith in
      rw (a, b, c) (ground (arith, m.self, m.self_present))

-- A write elsewhere than to the directory keeps the directory.
pub write-IsSelfMapped :
    (s : Vmm) (a x : ℕ)
    → a ≢ s.cr3 + 4 * 1023
    → IsSelfMapped s
    → IsSelfMapped (record s { words = write s.words a x })
unfolding write
write-IsSelfMapped s a x ne m = record {
  aligned = m.aligned;
  self = ground (arith, m.self);
  self_present = ground (arith, m.self_present);
}

-- `left` words from `f` on are 0.
unfoldable pub zeroed : ℕ → ℕ → Memory → Memory
zeroed f left w a = if leb f a && ltb a (f + 4 * left) && (a % 4 == 0) then 0 else w a

pub zeroed-suc :
    (f left : ℕ) (w : Memory)
    → f % 4 ≡ 0
    → zeroed (f + 4) left (write w f 0) ≡ zeroed f (suc left) w
unfolding zeroed write
zeroed-suc f left w h = fun_ext (λ a. ground arith)

pub zeroed-zero : (f : ℕ) (w : Memory) → zeroed f 0 w ≡ w
unfolding zeroed
zeroed-zero f w = fun_ext (λ a. ground arith)

pub zeroed_outside :
    (f left : ℕ) (w : Memory) (a : ℕ) → (a < f) ⊎ (f + 4 * left ≤ a) → zeroed f left w a ≡ w a
unfolding zeroed
zeroed_outside f left w a out = ground arith

-- The clearing loop goes through the window and clears the table of `d`.
pub zero_table-zeroed :
    (left i d : ℕ) (s : Vmm)
    → IsSelfMapped s
    → d < 1023
    → dir_entry s d % 2 ≡ 1
    → frame (dir_entry s d) ≢ s.cr3
    → i + left ≤ 1024
    → zero_table left i (table_window + d * 4096) s
      ≡ some (record s { words = zeroed (frame (dir_entry s d) + 4 * i) left s.words })
unfolding zero_table store
zero_table-zeroed zero i d s m lt on ne fits = rw zeroed-zero
zero_table-zeroed (suc left) i d s m lt on ne fits =
    let f : ℕ = frame (dir_entry s d) in
    let s1 : Vmm = record s { words = write s.words (f + 4 * i) 0 } in
    let same : dir_entry s1 d ≡ dir_entry s d =
      write_other s.words (f + 4 * i) 0 (s.cr3 + 4 * d)
        (λ e. absurd (ne (omega (arith, m.aligned)))) in
    let m1 = write-IsSelfMapped s (f + 4 * i) 0 (λ e. absurd (ne (omega (arith, m.aligned)))) m in
    let rest = zero_table-zeroed left (i + 1) d s1 m1 lt (rw same on) (rw same ne) (omega arith) in
    let step : f + 4 * (i + 1) ≡ f + 4 * i + 4 = omega arith in
    let join = zeroed-suc (f + 4 * i) left s.words (omega arith) in
    rw (translate-table_window m d i (omega arith) (omega arith) on)
      (rw rest (rw (same, step, join)))
