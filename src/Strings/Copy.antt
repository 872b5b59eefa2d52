-- ===== src/Strings/Copy.antt =====
-- What `memcpy`, `memmove` and `memset`, src/lib/string.c, leave in memory.
use frod.Base.{ℕ, zero, suc, ◌+◌, ◌-◌, ◌≤◌, ◌<◌, ◌≡◌, refl, ◌≢◌, ◌⊎◌, ◌&&◌, not, ap}
use frod.Base.{◌==◌, ltb, leb, if◌then◌else◌, Memory, write, u8, arith}
use frod.Strings.{copy_from, memcpy, memmove, fill_from, memset}

-- The bytes of `m` with `num` bytes from `src` on moved to `dst`.
unfoldable pub moved : ℕ → ℕ → ℕ → Memory → Memory
moved dst src num m a = if leb dst a && ltb a (dst + num) then m (src + (a - dst)) else m a

-- The ranges do not overlap, or the target lies below the source.
abbrev pub IsForward : ℕ → ℕ → ℕ → Type 0
IsForward dst src num = (dst ≤ src) ⊎ (src + num ≤ dst)

copy_from-moved :
    (left i dst src : ℕ) (m : Memory) (a : ℕ)
    → IsForward dst src (i + left)
    → copy_from left i dst src m a
      ≡ (if leb (dst + i) a && ltb a (dst + i + left) then m (src + (a - dst)) else m a)
unfolding copy_from write
copy_from-moved zero i dst src m a fwd = ground arith
copy_from-moved (suc left) i dst src m a fwd =
    ground (arith, copy_from-moved left (i + 1) dst src (write m (dst + i) (m (src + i))) a)

-- Between pointers that are not null, `memcpy` moves the `num` bytes and changes no other byte,
-- where the target does not overlap the source or lies below it; it returns the target.
pub memcpy-moved :
    (dst src num : ℕ) (m : Memory) (a : ℕ)
    → dst ≢ 0
    → src ≢ 0
    → IsForward dst src num
    → ((memcpy dst src num m).0 a ≡ moved dst src num m a) × ((memcpy dst src num m).1 ≡ dst)
unfolding memcpy moved
memcpy-moved dst src num m a d s fwd = ground (arith, copy_from-moved num 0 dst src m a)

copy_from_below :
    (left i dst src : ℕ) (m : Memory) (a : ℕ) → a < dst + i → copy_from left i dst src m a ≡ m a
unfolding copy_from write
copy_from_below zero i dst src m a lt = refl
copy_from_below (suc left) i dst src m a lt =
    ground (arith, copy_from_below left (i + 1) dst src (write m (dst + i) (m (src + i))) a)

copy_up-smears :
    (left i src : ℕ) (m : Memory) (v : ℕ) (a : ℕ)
    → m (src + i) ≡ v
    → src + i < a
    → a ≤ src + i + left
    → copy_from left i (src + 1) src m a ≡ v
unfolding copy_from write
copy_up-smears zero i src m v a h lo hi = absurd (omega arith)
copy_up-smears (suc left) i src m v a h lo hi =
    let m' : Memory = write m (src + 1 + i) (m (src + i)) in
    let here : src + (i + 1) ≡ src + 1 + i = omega arith in
    ground (
      arith,
      copy_up-smears left (i + 1) src m' v a,
      copy_from_below left (i + 1) (src + 1) src m' a,
      here,
    )

-- Moving bytes up by one, which the C library's `memmove` allows, fills the target with copies
-- of the first byte: `memmove` does not keep the bytes of an overlapping source.
pub memmove_up_smears :
    (src num : ℕ) (m : Memory) (a : ℕ)
    → src ≢ 0
    → src < a
    → a ≤ src + num
    → (memmove (src + 1) src num m).0 a ≡ m src
unfolding memmove memcpy
memmove_up_smears src num m a s lo hi =
    let start : m (src + 0) ≡ m src = ap m (omega arith) in
    ground (arith, copy_up-smears num 0 src m (m src) a start)

pub fill_from_lem :
    (left i p v : ℕ) (m : Memory) (a : ℕ)
    → fill_from left i p v m a ≡ (if leb (p + i) a && ltb a (p + i + left) then v else m a)
unfolding fill_from write
fill_from_lem zero i p v m a = ground arith
fill_from_lem (suc left) i p v m a =
    ground (arith, fill_from_lem left (i + 1) p v (write m (p + i) v) a)

-- `memset` sets exactly the `num` bytes from `p` on, and nothing for the null pointer.
pub memset_lem :
    (p value num : ℕ) (m : Memory) (a : ℕ)
    → (memset p value num m).0 a
      ≡ (if not (p == 0) && (leb p a && ltb a (p + num)) then u8 value else m a)
unfolding memset
memset_lem p value num m a = ground (arith, fill_from_lem num 0 p (u8 value) m a)
