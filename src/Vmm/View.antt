-- ===== src/Vmm/View.antt =====
-- The address space of src/sys/vmm.c as a table of pages, and what mapping a page does to it.
use frod.Base.{
  ℕ, ◌+◌, ◌*◌, ◌/◌, ◌%◌, ◌^◌, ◌≤◌, ◌<◌, ◌≡◌, ◌≢◌, ◌⊎◌, inl, inr, arith, sym, ◌∙◌, false, Bool-cases,
}
use frod.Base.{some, none, write, write_same, write_other, ◌==◌, if◌then◌else◌, ◌&&◌}
use native.Mathlib.Decide.{ℕ_discrete}
use frod.Pmm.{bitmap_is_set, bitmap_set}
use frod.Pmm.Bitmap.{is_set-set, set-IsBytes}
use frod.Vmm.{Vmm, translate, frame, present, entry}
use frod.Vmm.Mmu.{entry_present, frame-entry}
use frod.Vmm.Inv.{dir_entry, table_entry, IsValid, zeroed, zeroed_outside}
use frod.Vmm.Map.{mapped_old, mapped_new, outside_block}

-- The entry of page `p` of the `d`-th 4 MB, and 0 where there is no table.
unfoldable pub view : Vmm → ℕ → ℕ → ℕ
view s d p = if present (dir_entry s d) then table_entry s d p else 0

pub translate-view :
    (s : Vmm) (v : ℕ)
    → let e = view s (v / 2 ^ 22) (v / 4096 % 1024) in
      translate s v ≡ (if present e then some (frame e + v % 4096) else none)
unfolding translate view
translate-view s v = ground arith

module _ (s : Vmm) (k : IsValid s) (d p x : ℕ) (lt : d < 1023) (lt' : p < 1024) where
  -- A word of a table is no word of the directory.
  table_outside_dir :
      (c q : ℕ) → dir_entry s d % 2 ≡ 1 → c < 1024 → frame (dir_entry s d) + 4 * p ≢ s.cr3 + 4 * c
  table_outside_dir c q on b e = k.not_dir d lt on (omega (arith, k.self_mapped.aligned))

  module _ (on : dir_entry s d % 2 ≡ 1) where
    pub old_dir : (c : ℕ) → c < 1024 → dir_entry (mapped_old s d p x) c ≡ dir_entry s c
    old_dir c b = write_other _ _ _ _ (λ e. table_outside_dir c 0 on b (sym e))

    pub mapped_old-view :
        (c q : ℕ)
        → c < 1023
        → q < 1024
        → view (mapped_old s d p x) c q ≡ (if (c == d) && (q == p) then x else view s c q)
    unfolding view
    mapped_old-view c q b b' =
        let same = old_dir c (omega arith) in
        rw same (
          ground (
            arith,
            k.apart c d b lt,
            write_same s.words (frame (dir_entry s d) + 4 * p) x,
            write_other s.words (frame (dir_entry s d) + 4 * p) x (frame (dir_entry s c) + 4 * q),
          ))

    pub mapped_old-IsValid : IsValid (mapped_old s d p x)
    mapped_old-IsValid =
        let m = k.self_mapped in
        let same = λ (c : ℕ) (b : c < 1023). old_dir c (omega arith) in
        let top = old_dir 1023 (omega arith) in
        record {
          self_mapped = record {
            aligned = m.aligned;
            self = rw top m.self;
            self_present = rw top m.self_present;
          };
          bytes = k.bytes;
          dir_taken = k.dir_taken;
          taken = λ c b h. rw (same c b) (k.taken c b (rw (same c b) at h));
          not_dir = λ c b h. rw (same c b) (k.not_dir c b (rw (same c b) at h));
          apart = λ c e b b' ne h h'.
              rw (same c b, same e b')
                (k.apart c e b b' ne (rw (same c b) at h) (rw (same e b') at h'));
        }

  -- A table is put into block `i`, which was free.
  module _ (i acl : ℕ) (block : i < 2 ^ 20) (free : bitmap_is_set s.pmm i ≡ false)
      (off : dir_entry s d % 2 ≡ 0) (small : acl < 4096) where
    abbrev after : Vmm
    after = mapped_new s (bitmap_set s.pmm i) (i * 4096) d p (entry (i * 4096) acl) x

    pub new_ne_dir : i * 4096 ≢ s.cr3
    new_ne_dir e = let q : s.cr3 / 4096 ≡ i = omega arith in ground (arith, k.dir_taken)

    new_ne_frame : (c : ℕ) → c < 1023 → dir_entry s c % 2 ≡ 1 → i * 4096 ≢ frame (dir_entry s c)
    new_ne_frame c b on e =
        let q : dir_entry s c / 4096 ≡ i = omega arith in ground (arith, k.taken c b on)

    -- A word outside of the new table is as it was, but for the directory's entry.
    kept :
        (a : ℕ)
        → (a < i * 4096) ⊎ (i * 4096 + 4096 ≤ a)
        → after.words a ≡ write s.words (s.cr3 + 4 * d) (entry (i * 4096) acl) a
    kept a out =
        write_other _ _ _ _ (λ e. omega arith) ∙ zeroed_outside (i * 4096) 1024 _ a (omega arith)

    after_dir :
        (c : ℕ)
        → c < 1024
        → dir_entry after c ≡ (if c == d then entry (i * 4096) acl else dir_entry s c)
    unfolding write
    after_dir c b =
        kept (s.cr3 + 4 * c) (
          outside_block s.cr3 (i * 4096) c k.self_mapped.aligned (omega arith)
            (λ e. new_ne_dir (sym e)) b)
        ∙ ground arith

    after_other :
        (c q : ℕ)
        → c < 1023
        → c ≢ d
        → q < 1024
        → dir_entry s c % 2 ≡ 1
        → table_entry after c q ≡ table_entry s c q
    after_other c q b ne b' on =
        let f : ℕ = frame (dir_entry s c) in
        let same : dir_entry after c ≡ dir_entry s c = ground (arith, after_dir c (omega arith)) in
        let apart =
          outside_block f (i * 4096) q (omega arith) (omega arith)
            (λ e. new_ne_frame c b on (sym e)) b' in
        rw same (
          kept (f + 4 * q) apart
          ∙ write_other s.words (s.cr3 + 4 * d) _ (f + 4 * q)
              (λ e. k.not_dir c b on (omega (arith, k.self_mapped.aligned))))

    on_after : dir_entry after d % 2 ≡ 1
    on_after = ground (arith, after_dir d (omega arith), entry_present (i * 4096) acl (omega arith))

    here_after : frame (dir_entry after d) ≡ i * 4096
    here_after =
        ground (arith, after_dir d (omega arith), frame-entry (i * 4096) acl (omega arith) small)

    after_same : (q : ℕ) → q < 1024 → table_entry after d q ≡ (if q == p then x else 0)
    unfolding write zeroed
    after_same q b = rw here_after (ground arith)

    same_after : (c : ℕ) → c < 1024 → c ≢ d → dir_entry after c ≡ dir_entry s c
    same_after c b ne = ground (arith, after_dir c b)

    pub mapped_new-view :
        (c q : ℕ)
        → c < 1023
        → q < 1024
        → view after c q ≡ (if (c == d) && (q == p) then x else view s c q)
    unfolding view
    mapped_new-view c q b b' = elim (ℕ_discrete c d) [
      | yes e ↦ rw e (ground (arith, after_same q b', on_after))
      | no ne ↦ elim (Bool-cases (present (dir_entry s c))) [
        | inl on ↦ ground (arith, after_dir c (omega arith), after_other c q b ne b' (ground arith))
        | inr none_there ↦ ground (arith, after_dir c (omega arith))
      ]
    ]

    after_apart :
        (c e : ℕ)
        → c < 1023
        → e < 1023
        → c ≢ e
        → dir_entry after c % 2 ≡ 1
        → dir_entry after e % 2 ≡ 1
        → frame (dir_entry after c) ≢ frame (dir_entry after e)
    after_apart c e b b' ne h h' = elim (ℕ_discrete c d) [
      | yes ec ↦
          let q = same_after e (omega arith) (λ z. ne (omega arith)) in
          rw (ec, here_after, q) (new_ne_frame e b' (rw q at h'))
      | no nc ↦
          let r = same_after c (omega arith) nc in
          elim (ℕ_discrete e d) [
            | yes ee ↦ rw (ee, here_after, r) (λ z. new_ne_frame c b (rw r at h) (sym z))
            | no ne' ↦
                let q = same_after e (omega arith) ne' in
                rw (r, q) (k.apart c e b b' ne (rw r at h) (rw q at h'))
          ]
    ]

    pub mapped_new-IsValid : IsValid after
    mapped_new-IsValid =
        let m = k.self_mapped in
        let top = same_after 1023 (omega arith) (λ e. omega arith) in
        record {
          self_mapped = record {
            aligned = m.aligned;
            self = rw top m.self;
            self_present = rw top m.self_present;
          };
          bytes = set-IsBytes s.pmm i k.bytes;
          dir_taken = ground (arith, is_set-set s.pmm i (s.cr3 / 4096) k.bytes, k.dir_taken);
          taken = λ c b h. elim (ℕ_discrete c d) [
            | yes e ↦
                let q : dir_entry after d / 4096 ≡ i = omega (arith, here_after) in
                rw (e, q) (ground (arith, is_set-set s.pmm i i k.bytes))
            | no ne ↦
                let q = same_after c (omega arith) ne in
                rw q (
                  ground (
                    arith,
                    is_set-set s.pmm i (dir_entry s c / 4096) k.bytes,
                    k.taken c b (rw q at h),
                  ))
          ];
          not_dir = λ c b h. elim (ℕ_discrete c d) [
            | yes e ↦ rw (e, here_after) new_ne_dir
            | no ne ↦ let q = same_after c (omega arith) ne in rw q (k.not_dir c b (rw q at h))
          ];
          apart = after_apart;
        }
