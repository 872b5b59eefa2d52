-- ===== src/Vmm/Backed.antt =====
-- Pages whose block is none of those that the translation of their addresses goes through: what is
-- written to them, src/sys/vmm.c.
use frod.Base.{
  ℕ, ◌+◌, ◌*◌, ◌/◌, ◌%◌, ◌^◌, ◌≤◌, ◌<◌, ◌≡◌, ◌≢◌, ◌⊎◌, inl, inr, refl, arith, some, Memory, write,
  Bool-cases, ltb,
}
use frod.Vmm.{Vmm, translate, frame, store}
use frod.Vmm.Inv.{dir_entry, table_entry, IsSelfMapped}

-- The page at `virt` is mapped to the block at `f`, which is none of those that the translation of
-- the page's addresses goes through.
pub record IsBacked (s : Vmm) (virt f : ℕ) : Type 0 where
  pub self_mapped : IsSelfMapped s
  pub low : virt / 2 ^ 22 < 1023
  pub whole_page : virt % 4096 ≡ 0
  pub dir_present : dir_entry s (virt / 2 ^ 22) % 2 ≡ 1
  pub page_present : table_entry s (virt / 2 ^ 22) (virt / 4096 % 1024) % 2 ≡ 1
  pub block : frame (table_entry s (virt / 2 ^ 22) (virt / 4096 % 1024)) ≡ f
  pub not_dir : f ≢ s.cr3
  pub not_table : f ≢ frame (dir_entry s (virt / 2 ^ 22))

pub apart_blocks :
    (f c i : ℕ)
    → f % 4096 ≡ 0
    → c % 4096 ≡ 0
    → f ≢ c
    → i < 1024
    → (c + 4 * i < f) ⊎ (f + 4 * 1024 ≤ c + 4 * i)
apart_blocks f c i hf hc ne lt = elim (Bool-cases (ltb f c)) [
  | inl below ↦ inr (ground (arith, below))
  | inr above ↦ let less : c < f = ground (arith, ne) in inl (omega (arith, less))
]

module _ {s : Vmm} {virt f : ℕ} (k : IsBacked s virt f) where
  pub translate_backed : (o : ℕ) → o < 4096 → translate s (virt + o) ≡ some (f + o)
  unfolding translate
  translate_backed o lt =
      let a : (virt + o) / 2 ^ 22 ≡ virt / 2 ^ 22 = omega (arith, k.whole_page) in
      let b : (virt + o) / 4096 % 1024 ≡ virt / 4096 % 1024 = omega (arith, k.whole_page) in
      let c : (virt + o) % 4096 ≡ o = omega (arith, k.whole_page) in
      rw (a, b, c) (ground (arith, k.dir_present, k.page_present, k.block))

  pub aligned : f % 4096 ≡ 0
  aligned = omega (arith, k.block)

  -- What is written within the block does not matter to the translation.
  pub words-IsBacked :
      (w : Memory)
      → ((a : ℕ) → (a < f) ⊎ (f + 4 * 1024 ≤ a) → w a ≡ s.words a)
      → IsBacked (record s { words = w }) virt f
  words-IsBacked w same =
      let dir : (d : ℕ) → d < 1024 → w (s.cr3 + 4 * d) ≡ dir_entry s d =
        λ d b. same _ (apart_blocks f s.cr3 d aligned k.self_mapped.aligned k.not_dir b) in
      let here = dir (virt / 2 ^ 22) (omega (arith, k.low)) in
      let last = dir 1023 (omega arith) in
      let table : w (frame (dir_entry s (virt / 2 ^ 22)) + 4 * (virt / 4096 % 1024))
          ≡ table_entry s (virt / 2 ^ 22) (virt / 4096 % 1024) =
        same _ (
          apart_blocks f (frame (dir_entry s (virt / 2 ^ 22))) _ aligned (omega arith) k.not_table
            (omega arith)) in
      record {
        self_mapped = record {
          aligned = k.self_mapped.aligned;
          self = rw last k.self_mapped.self;
          self_present = rw last k.self_mapped.self_present;
        };
        low = k.low;
        whole_page = k.whole_page;
        dir_present = rw here k.dir_present;
        page_present = rw (here, table) k.page_present;
        block = rw (here, table) k.block;
        not_dir = k.not_dir;
        not_table = rw here k.not_table;
      }

  pub write-IsBacked :
      (i x : ℕ) → i < 1024 → IsBacked (record s { words = write s.words (f + 4 * i) x }) virt f
  unfolding write
  write-IsBacked i x lt = words-IsBacked _ (λ a out. ground arith)

  pub store_backed :
      (i x : ℕ)
      → i < 1024
      → store s (virt + 4 * i) x ≡ some (record s { words = write s.words (f + 4 * i) x })
  unfolding store
  store_backed i x lt = rw (translate_backed (4 * i) (omega arith)) refl
