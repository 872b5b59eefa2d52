-- ===== src/Vmm/Copy.antt =====
-- What `vmm_create_address_space`, src/sys/vmm.c, makes of a page that is mapped before it is called.
use frod.Base.{
  ℕ, zero, suc, ◌+◌, ◌-◌, ◌*◌, ◌%◌, ◌≤◌, ◌<◌, ◌≡◌, ◌≢◌, ◌⊎◌, inl, inr, refl, ◌∙◌, arith, some,
  Memory, write, write_other, write_same, bit_or, ◌==◌, ◌&&◌, if◌then◌else◌, leb, ltb,
}
use mathlib.Core.Path.{fun_ext}
use frod.Vmm.{Vmm, translate, load, dir_virtual, zero_table, page_present, page_writable}
use frod.Vmm.Pages.{vmm_map_page_in_use}
use frod.Vmm.Inv.{
  IsValid, dir_entry, translate-dir_virtual, zeroed, zeroed-suc, zeroed-zero, zeroed_outside,
}
use frod.Vmm.Start.{copy_dir, vmm_create_address_space}
use frod.Vmm.Backed.{
  IsBacked, apart_blocks, translate_backed, aligned, words-IsBacked, write-IsBacked, store_backed,
}

zero_table_backed :
    (left i : ℕ) (s : Vmm) {virt f : ℕ}
    → IsBacked s virt f
    → i + left ≤ 1024
    → zero_table left i virt s ≡ some (record s { words = zeroed (f + 4 * i) left s.words })
unfolding zero_table
zero_table_backed zero i s k fits = rw zeroed-zero refl
zero_table_backed (suc left) i s {virt} {f} k fits =
    let rest =
      zero_table_backed left (i + 1) _ (write-IsBacked k i 0 (omega arith)) (omega arith) in
    let step : f + 4 * (i + 1) ≡ f + 4 * i + 4 = omega arith in
    let join = zeroed-suc (f + 4 * i) left s.words (omega (arith, aligned k)) in
    rw (store_backed k i 0 (omega arith)) (rw rest (rw (step, join) refl))

-- `left` words from `f` on are those from `from` on.
copied : ℕ → ℕ → ℕ → Memory → Memory
copied f from left w a =
    if leb f a && ltb a (f + 4 * left) && (a % 4 == 0) then w (from + (a - f)) else w a

copied-zero : (f from : ℕ) (w : Memory) → copied f from 0 w ≡ w
unfolding copied
copied-zero f from w = fun_ext (λ a. ground arith)

copied-suc :
    (f from left : ℕ) (w : Memory)
    → f % 4 ≡ 0
    → (from + 4 * suc left ≤ f) ⊎ (f + 4 ≤ from)
    → copied (f + 4) (from + 4) left (write w f (w from)) ≡ copied f from (suc left) w
unfolding copied write
copied-suc f from left w h apart = fun_ext (λ a. ground arith)

copied_outside :
    (f from left : ℕ) (w : Memory) (a : ℕ)
    → (a < f) ⊎ (f + 4 * left ≤ a)
    → copied f from left w a ≡ w a
unfolding copied
copied_outside f from left w a out = ground arith

copied_inside :
    (f0 from left : ℕ) (w : Memory) (f k : ℕ)
    → f0 ≡ f
    → f % 4096 ≡ 0
    → k < left
    → copied f0 from left w (f + 4 * k) ≡ w (from + 4 * k)
unfolding copied
copied_inside f0 from left w f k e h lt = rw e (ground arith)

apart_words :
    (f c i left : ℕ)
    → f % 4096 ≡ 0
    → c % 4096 ≡ 0
    → f ≢ c
    → i + suc left ≤ 1024
    → (c + 4 * i + 4 * suc left ≤ f + 4 * i) ⊎ (f + 4 * i + 4 ≤ c + 4 * i)
apart_words f c i left hf hc ne fits = elim (apart_blocks f c i hf hc ne (omega arith)) [
  | inl below ↦ inl (omega arith)
  | inr above ↦ inr (omega arith)
]

load_dir :
    {s : Vmm} {virt f : ℕ} (k : IsBacked s virt f) (i : ℕ)
    → i < 1024
    → load s (dir_virtual + 4 * i) ≡ some (dir_entry s i)
unfolding load
load_dir k i lt = rw (translate-dir_virtual k.self_mapped i lt) refl

copy_dir_backed :
    (left i : ℕ) (s : Vmm) {virt f : ℕ}
    → IsBacked s virt f
    → i + left ≤ 1024
    → copy_dir left i virt s
      ≡ some (record s { words = copied (f + 4 * i) (s.cr3 + 4 * i) left s.words })
unfolding copy_dir
copy_dir_backed zero i s k fits = rw copied-zero refl
copy_dir_backed (suc left) i s {virt} {f} k fits =
    let rest =
      copy_dir_backed left (i + 1) _ (write-IsBacked k i (dir_entry s i) (omega arith))
        (omega arith) in
    let step : f + 4 * (i + 1) ≡ f + 4 * i + 4 = omega arith in
    let step' : s.cr3 + 4 * (i + 1) ≡ s.cr3 + 4 * i + 4 = omega arith in
    let join =
      copied-suc (f + 4 * i) (s.cr3 + 4 * i) left s.words (omega (arith, aligned k))
        (apart_words f s.cr3 i left (aligned k) k.self_mapped.aligned k.not_dir fits) in
    rw (load_dir k i (omega arith))
      (rw (store_backed k i (dir_entry s i) (omega arith)) (rw rest (rw (step, step', join) refl)))

-- `code` is given as the address space, the block at `f` holds a copy of the directory whose last
-- entry points to `code`, no word of another block changes, and the page stays where it is.
pub record IsCopied (s t : Vmm) (code virt f : ℕ) : Type 0 where
  pub entries : (k : ℕ) → k < 1023 → t.words (f + 4 * k) ≡ dir_entry s k
  pub last : t.words (f + 4 * 1023) ≡ bit_or (bit_or code page_present) page_writable
  pub elsewhere : (a : ℕ) → (a < f) ⊎ (f + 4096 ≤ a) → t.words a ≡ s.words a
  pub registers : (t.cr3 ≡ s.cr3) × (t.current_dir ≡ s.current_dir)
  pub blocks : t.pmm ≡ s.pmm
  pub backed : IsBacked t virt f

-- In well-formed page tables, for a page below their window that is mapped already, to a block that
-- is neither the directory nor the table that translates it: `vmm_create_address_space` returns the
-- address of `pmm_alloc_first`, the page keeps its block, which gets the entries of the directory
-- but for the last one, which points to that address, and no other word changes.
pub vmm_create_address_space-IsCopied :
    (code virt f : ℕ) (s : Vmm)
    → IsValid s
    → IsBacked s virt f
    → (t : Vmm) × (vmm_create_address_space code virt s ≡ some (t, code)) × IsCopied s t code virt f
unfolding vmm_create_address_space
vmm_create_address_space-IsCopied code virt f s valid k =
    let first : f + 0 ≡ f = omega arith in
    let start : s.cr3 + 0 ≡ s.cr3 = omega arith in
    let page : virt + 0 ≡ virt = omega arith in
    let here : translate s virt ≡ some f =
      rw (page, first) at (translate_backed k 0 (omega arith)) in
    let cleared : Vmm = record s { words = zeroed (f + 4 * 0) 1024 s.words } in
    let k1 =
      words-IsBacked k cleared.words
        (λ a out. zeroed_outside (f + 4 * 0) 1024 s.words a (rw first out)) in
    let full : Vmm = record s { words = copied (f + 4 * 0) (s.cr3 + 4 * 0) 1024 cleared.words } in
    let k2 =
      words-IsBacked k1 full.words
        (λ a out. copied_outside (f + 4 * 0) _ 1024 cleared.words a (rw first out)) in
    let entry : ℕ = bit_or (bit_or code page_present) page_writable in
    (
      record s { words = write full.words (f + 4 * 1023) entry },
      rw (vmm_map_page_in_use s code virt page_writable valid k.low here) (
          rw (zero_table_backed 1024 0 s k (omega arith)) (
            rw (copy_dir_backed 1024 0 cleared k1 (omega arith))
              (rw (store_backed k2 1023 entry (omega arith)) refl))),
      record {
        entries = λ j lt.
            write_other full.words (f + 4 * 1023) entry (f + 4 * j)
              (λ e. absurd (omega (arith, lt, e)))
            ∙ copied_inside (f + 4 * 0) (s.cr3 + 4 * 0) 1024 cleared.words f j first (aligned k)
                (omega arith)
            ∙ rw start (
                zeroed_outside (f + 4 * 0) 1024 s.words (s.cr3 + 4 * j) (
                  rw first (
                    apart_blocks f s.cr3 j (aligned k) k.self_mapped.aligned k.not_dir
                      (omega arith))));
        last = write_same full.words (f + 4 * 1023) entry;
        elsewhere = λ a out.
            write_other full.words (f + 4 * 1023) entry a (ground (arith, out))
            ∙ copied_outside (f + 4 * 0) (s.cr3 + 4 * 0) 1024 cleared.words a (rw first out)
            ∙ zeroed_outside (f + 4 * 0) 1024 s.words a (rw first out);
        registers = (refl, refl);
        blocks = refl;
        backed = write-IsBacked k2 1023 entry (omega arith);
      },
    )
