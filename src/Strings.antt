-- ===== src/Strings.antt =====
-- The C string functions, src/lib/string.c, over the flat memory; the null pointer is 0.
-- A loop that looks for a null byte has fuel, and `none` means that the fuel ran out: every
-- theorem about such a function gives it the length of the string plus one.
pub mod Copy
pub mod Compare
pub mod Search
pub mod Terminated
mod Tests
use frod.Base.{ℕ, zero, suc, ◌+◌, ◌-◌, ◌^◌, Option, none, some, ◌&&◌, ◌||◌, not}
use frod.Base.{◌==◌, ltb, if◌then◌else◌, Memory, write, u8, u32}
use frod.Base.Int.{ℤ, pos, sub_ℕ, signed8, ◌-ℤ◌}

-- `STRING_NULL_ERROR`.
abbrev pub string_null_error : ℤ
string_null_error = pos 0xF00

-- `for(; i < num; i++) d[i] = s[i]` with `left` rounds to go.
unfoldable pub copy_from : ℕ → ℕ → ℕ → ℕ → Memory → Memory
copy_from zero i dst src m = m
copy_from (suc left) i dst src m = copy_from left (i + 1) dst src (write m (dst + i) (m (src + i)))

unfoldable pub memcpy : ℕ → ℕ → ℕ → Memory → Memory × ℕ
memcpy dst src num m =
    if (dst == 0) || (src == 0) then (m, dst) else (copy_from num 0 dst src m, dst)

unfoldable pub memmove : ℕ → ℕ → ℕ → Memory → Memory × ℕ
memmove dst src num m = memcpy dst src num m

unfoldable pub strcpy_from : ℕ → ℕ → ℕ → ℕ → Memory → Option Memory
strcpy_from zero i dst src m = none
strcpy_from (suc fuel) i dst src m =
    let m' = write m (dst + i) (m (src + i)) in
    let rest = strcpy_from fuel (i + 1) dst src m' in if m (src + i) == 0 then some m' else rest

unfoldable pub returning : ℕ → Option Memory → Option (Memory × ℕ)
returning p none = none
returning p (some m) = some (m, p)

unfoldable pub strcpy : ℕ → ℕ → ℕ → Memory → Option (Memory × ℕ)
strcpy fuel dst src m =
    if (dst == 0) || (src == 0) then some (m, dst) else returning dst (strcpy_from fuel 0 dst src m)

-- `while(i < num) dst[i++] = 0x00` with `left` rounds to go; also the loop of `memset`.
unfoldable pub fill_from : ℕ → ℕ → ℕ → ℕ → Memory → Memory
fill_from zero i p v m = m
fill_from (suc left) i p v m = fill_from left (i + 1) p v (write m (p + i) v)

-- Both loops of `strncpy` at index `i`, with `left` rounds to go.
unfoldable pub strncpy_from : ℕ → ℕ → ℕ → ℕ → Memory → Memory
strncpy_from zero i dst src m = m
strncpy_from (suc left) i dst src m =
    let rest = strncpy_from left (i + 1) dst src (write m (dst + i) (m (src + i))) in
    if m (src + i) == 0 then fill_from (suc left) i dst 0 m else rest

-- The last write is at `dst + (num - 1)` in 32 bits: one below `dst` for `num` of 0.
unfoldable pub strncpy : ℕ → ℕ → ℕ → Memory → Memory × ℕ
strncpy dst src num m =
    if (dst == 0) || (src == 0)
    then (m, dst)
    else (write (strncpy_from num 0 dst src m) (u32 (dst + num + 2 ^ 32 - 1)) 0, dst)

-- `while(str[i] != 0x00) i++`.
unfoldable pub end_from : ℕ → ℕ → ℕ → Memory → Option ℕ
end_from zero i p m = none
end_from (suc fuel) i p m =
    let rest = end_from fuel (i + 1) p m in if m (p + i) == 0 then some i else rest

unfoldable pub strlen : ℕ → ℕ → Memory → Option ℕ
strlen fuel p m = if p == 0 then some 0 else end_from fuel 0 p m

unfoldable pub copy_to_end : ℕ → ℕ → ℕ → Memory → Option ℕ → Option (Memory × ℕ)
copy_to_end fuel dst src m none = none
copy_to_end fuel dst src m (some i) = strcpy fuel (dst + i) src m

unfoldable pub to_start : ℕ → Option (Memory × ℕ) → Option (Memory × ℕ)
to_start p none = none
to_start p (some (m, q)) = some (m, p)

unfoldable pub strcat : ℕ → ℕ → ℕ → Memory → Option (Memory × ℕ)
strcat fuel dst src m =
    if (dst == 0) || (src == 0)
    then some (m, dst)
    else to_start dst (copy_to_end fuel dst src m (end_from fuel 0 dst m))

-- The copying loop of `strncat` at index `j`, and the null byte that it ends with.
unfoldable pub strncat_from : ℕ → ℕ → ℕ → ℕ → Memory → Memory
strncat_from zero j dst src m = write m (dst + j) 0
strncat_from (suc left) j dst src m =
    let rest = strncat_from left (j + 1) dst src (write m (dst + j) (m (src + j))) in
    if m (src + j) == 0 then write m (dst + j) 0 else rest

unfoldable pub append_at : ℕ → ℕ → ℕ → Memory → Option ℕ → Option (Memory × ℕ)
append_at dst src num m none = none
append_at dst src num m (some i) = some (strncat_from num 0 (dst + i) src m, dst)

unfoldable pub strncat : ℕ → ℕ → ℕ → ℕ → Memory → Option (Memory × ℕ)
strncat fuel dst src num m =
    if (dst == 0) || (src == 0)
    then some (m, dst)
    else append_at dst src num m (end_from fuel 0 dst m)

unfoldable pub memcmp_from : ℕ → ℕ → ℕ → ℕ → Memory → ℤ
memcmp_from zero i p q m = pos 0
memcmp_from (suc left) i p q m =
    let rest = memcmp_from left (i + 1) p q m in
    if m (p + i) == m (q + i) then rest else sub_ℕ (m (p + i)) (m (q + i))

unfoldable pub memcmp : ℕ → ℕ → ℕ → Memory → ℤ
memcmp p q num m = if (p == 0) || (q == 0) then string_null_error else memcmp_from num 0 p q m

-- `char` is signed with the compilers that the kernel is built with.
unfoldable pub char_diff : ℕ → ℕ → ℤ
char_diff a b = signed8 a -ℤ signed8 b

unfoldable pub strcmp_from : ℕ → ℕ → ℕ → ℕ → Memory → Option ℤ
strcmp_from zero i p q m = none
strcmp_from (suc fuel) i p q m =
    let rest = strcmp_from fuel (i + 1) p q m in
    if (m (p + i) == m (q + i)) && not (m (p + i) == 0)
    then rest
    else some (char_diff (m (p + i)) (m (q + i)))

unfoldable pub strcmp : ℕ → ℕ → ℕ → Memory → Option ℤ
strcmp fuel p q m =
    if (p == 0) || (q == 0) then some string_null_error else strcmp_from fuel 0 p q m

-- The loop of `strncmp` at index `i`, with `num - i` rounds left.
unfoldable pub strncmp_from : ℕ → ℕ → ℕ → ℕ → Memory → ℤ
strncmp_from zero i p q m = pos 0
strncmp_from (suc left) i p q m =
    let rest = strncmp_from left (i + 1) p q m in
    if not (m (p + i) == 0) && (m (p + i) == m (q + i))
    then rest
    else char_diff (m (p + i)) (m (q + i))

unfoldable pub strncmp : ℕ → ℕ → ℕ → Memory → ℤ
strncmp p q num m =
    if (p == 0) || (q == 0)
    then string_null_error
    else if num == 0
    then pos 0
    else strncmp_from num 0 p q m

-- The loop of `strchr`, and its two returns: `ch` and the bytes are compared as bit patterns.
unfoldable pub strchr_from : ℕ → ℕ → ℕ → ℕ → Memory → Option ℕ
strchr_from zero i p ch m = none
strchr_from (suc fuel) i p ch m =
    let rest = strchr_from fuel (i + 1) p ch m in
    if not (m (p + i) == 0) && not (m (p + i) == ch)
    then rest
    else if m (p + i) == 0
    then some 0
    else some p

unfoldable pub strchr : ℕ → ℕ → ℕ → Memory → Option ℕ
strchr fuel p ch m = strchr_from fuel 0 p ch m

-- `value` is the bit pattern of the `int8_t`.
unfoldable pub memset : ℕ → ℕ → ℕ → Memory → Memory × ℕ
memset p value num m = if p == 0 then (m, p) else (fill_from num 0 p (u8 value) m, p)
