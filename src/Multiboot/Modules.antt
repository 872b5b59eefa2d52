-- ===== src/Multiboot/Modules.antt =====
-- What `move_module` moves, src/sys/multiboot1.c.
use frod.Base.{
  ℕ, zero, suc, ◌+◌, ◌-◌, ◌*◌, ◌^◌, ◌<◌, ◌≤◌, ◌≡◌, ◌≢◌, refl, ◌∙◌, ap, arith, ◌⊎◌, true, false,
  some, ltb, if◌then◌else◌, ◌&&◌, IsBytes, Memory, u32,
}
use frod.Base.Int.{ℤ}
use frod.Pmm.{Pmm, bitmap_is_set, blk_sz}
use frod.Strings.{strcmp, memcpy}
use frod.Strings.Copy.{IsForward}
use frod.Multiboot.{
  move_module, move_from, is_equal, mods_count, mods_addr, mod_start, mod_end, mod_name,
  sizeof_module,
}

-- The module at `mm` has another name.
abbrev pub IsOther : ℕ → ℕ → Pmm → ℕ → Type 0
IsOther fuel name s mm =
    (d : ℤ) × (strcmp fuel (mod_name s.mem mm) name s.mem ≡ some d) × (is_equal d ≡ false)

move_from_skips :
    (k left fuel mm name to : ℕ) (s : Pmm)
    → ((j : ℕ) → j < k → IsOther fuel name s (mm + 16 * j))
    → mm + 16 * (k + left) < 2 ^ 32
    → move_from (k + left) fuel mm name to s ≡ move_from left fuel (mm + 16 * k) name to s
unfolding move_from
move_from_skips zero left fuel mm name to s others small =
    let e : zero + left ≡ left = omega arith in
    let f : mm + 16 * zero ≡ mm = omega arith in rw (e, f) refl
move_from_skips (suc k) left fuel mm name to s others small =
    let e : suc k + left ≡ suc (k + left) = omega arith in
    let here : mm + 16 * zero ≡ mm = omega arith in
    let (d, compared, differs) = rw here at (others zero (omega arith)) in
    let next : u32 (mm + 16) ≡ mm + 16 = omega arith in
    let rest =
      move_from_skips k left fuel (mm + 16) name to s
        (λ j lt.
          let f : mm + 16 * suc j ≡ mm + 16 + 16 * j = omega arith in
          rw f at (others (suc j) (omega arith)))
        (omega arith) in
    let g : mm + 16 + 16 * k ≡ mm + 16 * suc k = omega arith in
    rw e (rw compared (rw differs (rw next (rest ∙ ap (λ a. move_from left fuel a name to s) g))))

-- The bytes of the module from `start` to `end` are at `to`, what stands elsewhere below the bitmap
-- stays, and of the blocks exactly those that overlap the module are taken too.
pub record IsMoved (s t : Pmm) (to start end : ℕ) : Type 0 where
  pub bytes : (a : ℕ) → a < end - start → t.mem (to + a) ≡ s.mem (start + a)
  pub elsewhere :
      (a : ℕ) → a < s.pmm_bitmap → (a < to) ⊎ (to + (end - start) ≤ a) → t.mem a ≡ s.mem a
  pub blocks :
      (b : ℕ)
      → bitmap_is_set t b
        ≡ (if ltb start ((b + 1) * blk_sz) && ltb (b * blk_sz) end then true else bitmap_is_set s b)

module _ (mm to : ℕ) (s : Pmm) (not_null : mod_start s.mem mm ≢ 0) (to_not_null : to ≢ 0)
    (ordered : mod_start s.mem mm ≤ mod_end s.mem mm) (small : mod_end s.mem mm ≤ 2 ^ 32 - blk_sz)
    (forward : IsForward to (mod_start s.mem mm) (mod_end s.mem mm - mod_start s.mem mm))
    (below_bitmap : to + (mod_end s.mem mm - mod_start s.mem mm) ≤ s.pmm_bitmap)
    (apart : (mm + sizeof_module ≤ to) ⊎ (to + (mod_end s.mem mm - mod_start s.mem mm) ≤ mm))
    (is_bytes : IsBytes s.mem) where
  abbrev start : ℕ
  start = mod_start s.mem mm

  abbrev end : ℕ
  end = mod_end s.mem mm

  abbrev copied : Memory
  copied = (memcpy to start (u32 (end + 2 ^ 32 - start)) s.mem).0

-- Where no module has the name, `move_module` returns false and changes nothing.
pub move_module_missing :
    (fuel info name to : ℕ) (s : Pmm)
    → mods_addr s.mem info + 16 * mods_count s.mem info < 2 ^ 32
    → ((j : ℕ) → j < mods_count s.mem info → IsOther fuel name s (mods_addr s.mem info + 16 * j))
    → move_module fuel info name to s ≡ some (s, false)
unfolding move_module
move_module_missing fuel info name to s bound others =
    let n : ℕ = mods_count s.mem info in
    let e : mods_count s.mem info ≡ n + zero = omega arith in
    ap (λ c. move_from c fuel (mods_addr s.mem info) name to s) e
    ∙ move_from_skips n zero fuel (mods_addr s.mem info) name to s others (omega arith)
    ∙ unfold move_from in refl
